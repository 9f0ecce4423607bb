-- ===== src/Spscq.antt =====
-- src/engine/base/spscq.c and spscq.h: the bounded single-producer single-consumer queue, each
-- function run without interruption. `Interleave` has the two threads' steps.
pub mod Ring
pub mod Queue
pub mod Refine
pub mod Interleave
pub mod Fifo
mod Tests
use ats.Base.{
  ℕ, ◌+◌, ◌-◌, ◌%◌, ◌^◌, Bool, List, ltb, ◌==◌, if◌then◌else◌, u32, Status, ok, err, null, get_or,
  set, Option, none, some, [],
}

-- `struct spscq_s` without its padding. `records` is the allocated array, and an entry of it is a
-- pointer. Both positions hold values that were `unsigned int`.
pub record Spscq : Type 0 where
  pub capacity : ℕ
  pub records : List ℕ
  pub read_pos : ℕ
  pub write_pos : ℕ

-- The position after `pos`: `unsigned int` addition, then back to 0 at the capacity.
abbrev pub next_record : ℕ → ℕ → ℕ
next_record capacity pos = let n = u32 (pos + 1) in if n == capacity then 0 else n

-- The second argument is what `ats_malloc` returns for `size` pointers. `none` is a failed ASSERT.
unfoldable pub init : Spscq → Option (List ℕ) → ℕ → Option (Status × Spscq)
init q storage size = if ltb size 2 then none else elim storage [
  | none ↦ some (err, record q { records = [] })
  | some a ↦ some (ok, record { capacity = size; records = a; read_pos = 0; write_pos = 0 })
]

-- `none` is a failed ASSERT: the queue is not empty.
unfoldable pub destroy : Spscq → Option Spscq
destroy q = if q.read_pos == q.write_pos then some (record q { records = [] }) else none

unfoldable pub push : Spscq → ℕ → Status × Spscq
push q e =
    let next = next_record q.capacity q.write_pos in
    if next == q.read_pos
    then (err, q)
    else (ok, record q { records = set q.records q.write_pos e; write_pos = next })

unfoldable pub pop : Spscq → ℕ × Spscq
pop q = if q.read_pos == q.write_pos then (null, q) else (
  get_or q.records q.read_pos null,
  record q { read_pos = next_record q.capacity q.read_pos },
)

unfoldable pub peek : Spscq → ℕ
peek q = if q.read_pos == q.write_pos then null else get_or q.records q.read_pos null

unfoldable pub is_empty : Spscq → Bool
is_empty q = q.read_pos == q.write_pos

unfoldable pub is_full : Spscq → Bool
is_full q = next_record q.capacity q.write_pos == q.read_pos

-- `int ret` as its 32-bit pattern: it is negative from 2 ^ 31 on.
unfoldable pub size : Spscq → ℕ
size q =
    let ret = (q.write_pos + 2 ^ 32 - q.read_pos) % 2 ^ 32 in
    if ltb ret (2 ^ 31) then ret else u32 (ret + q.capacity)
