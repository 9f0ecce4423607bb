-- ===== src/Spscq/Refine.antt =====
-- src/engine/base/spscq.c, each function run without interruption, next to the bounded FIFO of
-- the pointers that a ring holds.
use ats.Base.{
  true, false, refl, ◌∷◌, ◌+◌, ℕ, ◌-◌, ◌^◌, ◌≤◌, ◌<◌, ◌≡◌, ◌↔◌, List, [], ◌==◌, arith, length,
  length-set, ok, some,
}
use ats.Spscq.{Spscq, next_record, init, push, pop, peek, is_empty, is_full, size}
use ats.Spscq.Ring.{
  IsValid, used, contents, length-window, next_record-lt, contents-nil, contents-cons,
  contents-snoc,
}
use ats.Spscq.Queue
use ats.Spscq.Queue.{Op, Reply, status, pointer, test}

-- `room` of the abstract queue: one position always stays free.
abbrev pub room : Spscq → ℕ
room q = q.capacity - 1

pub length-contents : (q : Spscq) → length (contents q) ≡ used q.capacity q.read_pos q.write_pos
length-contents q = length-window q.records q.capacity q.read_pos _

-- `spscq_init` over enough storage accepts every `unsigned int` from 2 as the size, and leaves a
-- valid queue of that capacity that holds nothing.
pub init-IsValid :
    (q : Spscq) (storage : List ℕ) (n : ℕ)
    → 2 ≤ n
    → n < 2 ^ 32
    → n ≤ length storage
    → (q' : Spscq) × (init q (some storage) n ≡ some (ok, q'))
      × IsValid q'
      × (contents q' ≡ [])
      × (q'.capacity ≡ n)
unfolding init
init-IsValid q storage n h w s = (
  record { capacity = n; records = storage; read_pos = 0; write_pos = 0 },
  ground arith,
  ground arith,
  refl,
  refl,
)

pub push-IsValid : (q : Spscq) (e : ℕ) → IsValid q → IsValid (push q e).1
unfolding push
push-IsValid q e v =
    ground (arith, length-set q.records q.write_pos e, next_record-lt q.capacity q.write_pos)

pub pop-IsValid : (q : Spscq) → IsValid q → IsValid (pop q).1
unfolding pop
pop-IsValid q v = ground (arith, next_record-lt q.capacity q.read_pos)

-- The ring is full just when `room` pointers are queued.
full-eq :
    (q : Spscq)
    → IsValid q
    → (next_record q.capacity q.write_pos == q.read_pos) ≡ (length (contents q) == room q)
full-eq q v = rw (length-contents q) (ground arith)

-- `spscq_push` refuses just when `capacity - 1` pointers are queued, and adds at the end otherwise.
pub push_refines :
    (q : Spscq) (e : ℕ)
    → IsValid q
    → let (r, q') = push q e in
      (status r, contents q') ≡ Queue.step (room q) (contents q) (Op.push e)
unfolding push Queue.step
push_refines q e v = rw (← full-eq q v) (ground (arith, contents-snoc q v e))

pub pop_refines :
    (q : Spscq)
    → IsValid q
    → let (x, q') = pop q in (pointer x, contents q') ≡ Queue.step (room q) (contents q) Op.pop
unfolding pop Queue.step
pop_refines q v = ground (arith, contents-nil q v, contents-cons q v)

-- A client's calls in order, with what each answers.
pub call : Spscq → Op → Reply × Spscq
call q (Op.push e) = let (r, q') = push q e in (status r, q')
call q Op.pop = let (x, q') = pop q in (pointer x, q')
call q Op.peek = (pointer (peek q), q)
call q Op.is_empty = (test (is_empty q), q)
call q Op.is_full = (test (is_full q), q)

pub run : Spscq → List Op → List Reply
run q [] = []
run q (o ∷ os) = let (r, q') = call q o in r ∷ run q' os

call-IsValid : (q : Spscq) (o : Op) → IsValid q → IsValid (call q o).1
unfolding call
call-IsValid q (Op.push e) v = push-IsValid q e v
call-IsValid q Op.pop v = pop-IsValid q v
call-IsValid q _ v = v

capacity-call : (q : Spscq) (o : Op) → (call q o).1.capacity ≡ q.capacity
unfolding call push pop
capacity-call q (Op.push e) = ground arith
capacity-call q Op.pop = ground arith
capacity-call q _ = refl

-- Each call answers what the bounded FIFO answers, and leaves the ring holding its queue.
pub call_refines :
    (q : Spscq) (o : Op)
    → IsValid q
    → let (r, q') = call q o in (r, contents q') ≡ Queue.step (room q) (contents q) o
unfolding call
call_refines q (Op.push e) v = push_refines q e v
call_refines q Op.pop v = pop_refines q v
call_refines q Op.peek v =
    unfold peek Queue.step in ground (arith, contents-nil q v, contents-cons q v)
call_refines q Op.is_empty v =
    unfold is_empty Queue.step in ground (arith, contents-nil q v, contents-cons q v)
call_refines q Op.is_full v = unfold is_full Queue.step in ground (arith, full-eq q v)

-- No sequence of calls tells a valid ring from the bounded FIFO of the pointers that it holds, which
-- has room for one pointer less than the capacity.
pub run_refines :
    (os : List Op) (q : Spscq) → IsValid q → run q os ≡ Queue.run (room q) (contents q) os
unfolding run Queue.run
run_refines [] q v = refl
run_refines (o ∷ os) q v =
    rw (run_refines os (call q o).1 (call-IsValid q o v), ← call_refines q o v, capacity-call q o)

-- `spscq_size` counts the queued pointers of a valid ring exactly when neither position is too far
-- before the other: the write position less than 2 ^ 31 past the read position, and the read position
-- at most 2 ^ 31 past the write position. Else its `int` overflows.
pub size_iff :
    (q : Spscq)
    → IsValid q
    → (size q ≡ length (contents q))
      ↔ ((q.write_pos < q.read_pos + 2 ^ 31) × (q.read_pos ≤ q.write_pos + 2 ^ 31))
unfolding size
size_iff q v = rw (length-contents q) (ground arith)

pub contents-pop :
    (q : Spscq) → IsValid q → is_empty q ≡ false → contents q ≡ (pop q).0 ∷ contents (pop q).1
unfolding pop is_empty
contents-pop q v e = ground (arith, contents-cons q v)

pub peek-pop : (q : Spscq) → peek q ≡ (pop q).0
unfolding peek pop
peek-pop q = ground arith

pub is_empty_of_contents : (q : Spscq) → IsValid q → contents q ≡ [] → is_empty q ≡ true
unfolding is_empty
is_empty_of_contents q v e = ground (arith, contents-cons q v)

-- A push into an empty ring always has room.
pub contents-push_empty :
    (q : Spscq) (e : ℕ)
    → IsValid q
    → contents q ≡ []
    → (contents (push q e).1 ≡ e ∷ []) × (is_empty (push q e).1 ≡ false)
unfolding push is_empty
contents-push_empty q e v h = ground (
  arith,
  contents-cons q v,
  contents-snoc q v e,
  full-eq q v,
  next_record-lt q.capacity q.write_pos,
)

pub not_empty_of_cons :
    (q : Spscq) (x : ℕ) (l : List ℕ) → IsValid q → contents q ≡ x ∷ l → is_empty q ≡ false
unfolding is_empty
not_empty_of_cons q x l v h = ground (arith, contents-nil q v)

pub contents-pop_cons :
    (q : Spscq) (x : ℕ) (l : List ℕ)
    → IsValid q
    → contents q ≡ x ∷ l
    → ((pop q).0 ≡ x) × (contents (pop q).1 ≡ l)
contents-pop_cons q x l v h = let e = contents-pop q v (not_empty_of_cons q x l v h) in (cc, cc)
