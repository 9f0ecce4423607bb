-- ===== src/Spscq/Tests.antt =====
-- Runs of the queue of src/engine/base/spscq.c.
use ats.Base.{
  ◌↔◌, ◌≤◌, ◌<◌, ◌+◌, ℕ, ◌≡◌, ◌^◌, ◌-◌, refl, List, [], ◌∷◌, ◌++◌, arith, ok, some, null, get_or,
  length, zero, suc, ap,
}
use ats.Spscq.{Spscq, init, size}
use ats.Spscq.Ring.{IsValid, contents}
use ats.Spscq.Queue
use ats.Spscq.Queue.{Op}
use ats.Spscq.Refine.{run, room, run_refines, init-IsValid, size_iff}
use ats.Spscq.Interleave.{
  Producer, Consumer, Reach, start, later, load_write, pass_write, store_record, store_write,
  load_read, pass_read, store_read, System,
}
use ats.Spscq.Fifo.{in_hand, Reach-order, claimed_record_stays}
use ats.Samples.{one_ring, empty_ring}

one_ring-IsValid : IsValid one_ring
one_ring-IsValid = ground arith

empty_ring-IsValid : IsValid empty_ring
empty_ring-IsValid = ground arith

abbrev calls : List Op
calls = Op.push 8 ∷ Op.push 9 ∷ Op.push 10 ∷ Op.pop ∷ Op.peek ∷ Op.is_full ∷ Op.is_empty ∷ []

run_refines_example : run one_ring calls ≡ Queue.run (room one_ring) (contents one_ring) calls
run_refines_example = run_refines calls one_ring one_ring-IsValid

init-IsValid_example :
    (q' : Spscq) × (init one_ring (some (1 ∷ 2 ∷ 3 ∷ [])) 3 ≡ some (ok, q'))
    × IsValid q'
    × (contents q' ≡ [])
    × (q'.capacity ≡ 3)
init-IsValid_example =
    init-IsValid one_ring (1 ∷ 2 ∷ 3 ∷ []) 3 (omega arith) (omega arith) (omega arith)

-- A push of 8 into the empty ring, and a pop up to where it has claimed the record
abbrev reached : System
reached = record {
  q = record { capacity = 4; records = 8 ∷ 0 ∷ 0 ∷ 0 ∷ []; read_pos = 1; write_pos = 1 };
  producer = Producer.tested 9 1;
  consumer = Consumer.stored 0;
  sent = 8 ∷ [];
  received = [];
}

reached-Reach : Reach empty_ring reached
reached-Reach =
    later
      (later
        (later
          (later
            (later
              (later
                (later
                  (later (later start (load_write 8 refl))
                    (pass_write 8 0 refl (λ e. ground arith)))
                  (store_record 8 0 refl))
                (store_write 8 0 refl))
              (load_read refl))
            (load_write 9 refl))
          (pass_write 9 1 refl (λ e. ground arith)))
        (pass_read 0 refl (λ e. ground arith)))
      (store_read 0 refl)

Reach-order_example :
    8 ∷ [] ≡ [] ++ (in_hand reached.q.records reached.consumer ++ contents reached.q)
Reach-order_example = Reach-order empty_ring empty_ring-IsValid refl reached-Reach

claimed_record_stays_example : get_or (8 ∷ 9 ∷ 0 ∷ 0 ∷ []) 0 null ≡ get_or reached.q.records 0 null
claimed_record_stays_example =
    claimed_record_stays empty_ring 0 empty_ring-IsValid refl reached-Reach refl
      (store_record 9 1 refl)

unfoldable zeros : ℕ → List ℕ
zeros zero = []
zeros (suc n) = 0 ∷ zeros n

length-zeros : (n : ℕ) → length (zeros n) ≡ n
unfolding zeros
length-zeros zero = refl
length-zeros (suc n) = ap suc (length-zeros n)

abbrev huge_ring : Spscq
huge_ring = record {
  capacity = 2 ^ 32 - 1;
  records = zeros (2 ^ 32 - 1);
  read_pos = 0;
  write_pos = 2 ^ 31;
}

huge_ring-IsValid : IsValid huge_ring
huge_ring-IsValid = record {
  two = omega arith;
  word = omega arith;
  storage = omega (arith, length-zeros (2 ^ 32 - 1));
  read_in = omega arith;
  write_in = omega arith;
}

size_iff_example : (size huge_ring ≡ length (contents huge_ring)) ↔ (
    (huge_ring.write_pos < huge_ring.read_pos + 2 ^ 31)
    × (huge_ring.read_pos ≤ huge_ring.write_pos + 2 ^ 31))
size_iff_example = size_iff huge_ring huge_ring-IsValid
