-- ===== src/Spscq/Queue.antt =====
-- The abstract view of the queue of src/engine/base/spscq.c: a FIFO that holds at most `room`
-- pointers, and the calls that a client can make of it.
use ats.Base.{
  ℕ, Bool, true, false, List, [], ◌∷◌, ◌++◌, Status, ok, err, null, length, ◌==◌, if◌then◌else◌,
}

pub data Op : Type 0 where
  push : ℕ → Op
  pop peek is_empty is_full : Op

-- What a call answers.
pub data Reply : Type 0 where
  status : Status → Reply
  pointer : ℕ → Reply
  test : Bool → Reply

unfoldable pub step : ℕ → List ℕ → Op → Reply × List ℕ
step room l (push e) = if length l == room then (status err, l) else (status ok, l ++ (e ∷ []))
step room [] pop = (pointer null, [])
step room (x ∷ l) pop = (pointer x, l)
step room [] peek = (pointer null, [])
step room (x ∷ l) peek = (pointer x, x ∷ l)
step room [] is_empty = (test true, [])
step room (x ∷ l) is_empty = (test false, x ∷ l)
step room l is_full = (test (length l == room), l)

unfoldable pub run : ℕ → List ℕ → List Op → List Reply
run room l [] = []
run room l (o ∷ os) = let (r, l') = step room l o in r ∷ run room l' os
