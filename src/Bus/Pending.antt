-- ===== src/Bus/Pending.antt =====
-- src/engine/core/event_bus.c: check_pending_queue, which takes the queues that wait for the bus.
use ats.Base.{
  ℕ, zero, suc, ◌<◌, ◌≡◌, ◌≢◌, refl, ap, ◌∙◌, subst, false, ◌≤◌, ◌+◌, ◌==◌, if◌then◌else◌, arith,
  null, Option, some, List, [], ◌∷◌, length, ◌>>=◌,
}
use ats.Heap.{MinHeap}
use ats.Mpscq.{Mpscq}
use ats.World.{Category, World}
use ats.Wakeup.{set_context}
use ats.EventQueue.{event_queue_is_empty}
use ats.Bus.Heaps.{queue_heap, bus_add_queue}
use ats.Bus.Dequeue.{check_pending_queue}
use ats.Bus.Pipes.{PipesInv, bus_add_queue-PipesInv, PipeInv-frame}
use ats.Bus.Joins.{CanAllJoin, Grows, Grows-trans, Counted, join-Grows, join-only, CanAllJoin-join}
use ats.Bus.Round.{count_in}

module _ {H P : Type 0} ⦃heap : MinHeap H⦄ ⦃mpscq : Mpscq P⦄ where
  -- Every one of the queues that holds events is in the heap of its category.
  abbrev pub AreIn : World H P → World H P → ℕ → List ℕ → Type 0
  AreIn w w' c [] = Unit
  AreIn w w' c (q ∷ qs) =
      (event_queue_is_empty w q ≡ false → 0 < heap.count (queue_heap w' c (w.queues q).category) q)
      × AreIn w w' c qs

  AreIn-Grows :
      (u v w : World H P) (c : ℕ) (l : List ℕ) → Grows u v c → AreIn v w c l → AreIn u w c l
  unfolding event_queue_is_empty
  AreIn-Grows u v w c [] g i = tt
  AreIn-Grows u v w c (q ∷ l) g i = (
    λ e. subst (λ k. 0 < heap.count (queue_heap w c k) q) (g.kinds q) (i.0 (rw (g.rings q) e)),
    AreIn-Grows u v w c l g i.1,
  )

  member_of_counts :
      (w w' v : World H P) (c q : ℕ)
      → Counted w w' c q
      → Grows w' v c
      → event_queue_is_empty w q ≡ false
      → 0 < heap.count (queue_heap v c (w.queues q).category) q
  member_of_counts w w' v c q counts g e =
      let more : 0 < heap.count (queue_heap w' c (w.queues q).category) q =
        ground (arith, counts q) in
      omega (arith, g.stay (w.queues q).category q)

  -- The state in which the oldest waiting queue has been taken off.
  abbrev taken : World H P → ℕ → World H P
  taken w c =
      let x = w.contexts c in
      set_context w c (record x { pending_queue = (mpscq.pop x.pending_queue).1 })

  queue_heap-taken :
      (w : World H P) (c : ℕ) (k : Category) → queue_heap (taken w c) c k ≡ queue_heap w c k
  queue_heap-taken w c k = ground arith

  pending-taken :
      (w : World H P) (c : ℕ)
      → ((taken w c).contexts c).pending_queue ≡ (mpscq.pop (w.contexts c).pending_queue).1
  pending-taken w c = ground arith

  taken-PipesInv : (w : World H P) (c : ℕ) → PipesInv w c → PipesInv (taken w c) c
  taken-PipesInv w c ok k =
      PipeInv-frame w (taken w c) c k (ok k) refl (queue_heap-taken w c k) (λ a m. refl)

  taken-Grows : (w : World H P) (c : ℕ) → Grows w (taken w c) c
  taken-Grows w c = record {
    events = refl;
    rings = λ a. refl;
    kinds = λ a. refl;
    kept = record { mode = ground arith; attached = ground arith; attached_count = ground arith };
    stay = λ j a. rw (queue_heap-taken w c j) (omega arith);
  }

  taken-CanAllJoin :
      (w : World H P) (c : ℕ) (l : List ℕ) → CanAllJoin w c l → CanAllJoin (taken w c) c l
  taken-CanAllJoin w c [] can = tt
  taken-CanAllJoin w c (q ∷ l) can = (
    record {
      bus = can.0.bus;
      not_null = can.0.not_null;
      free = can.0.free;
      valid = can.0.valid;
      solid = can.0.solid;
      out = rw (queue_heap-taken w c (w.queues q).category) can.0.out;
    },
    can.1,
    taken-CanAllJoin w c l can.2,
  )

  check_pending_queue-nil :
      (fuel : ℕ) (w : World H P) (c : ℕ)
      → (mpscq.pop (w.contexts c).pending_queue).0 ≡ null
      → check_pending_queue (suc fuel) w c ≡ some (taken w c)
  unfolding check_pending_queue
  check_pending_queue-nil fuel w c e = ground arith

  check_pending_queue-cons :
      (fuel : ℕ) (w w' : World H P) (c q : ℕ)
      → (mpscq.pop (w.contexts c).pending_queue).0 ≡ q
      → q ≢ null
      → bus_add_queue (taken w c) c q ≡ some w'
      → check_pending_queue (suc fuel) w c ≡ check_pending_queue fuel w' c
  unfolding check_pending_queue
  check_pending_queue-cons fuel w w' c q e nn joined =
      let go : Option (World H P) → Option (World H P) =
        λ o. o >>= λ v. check_pending_queue fuel v c in
      let first = (mpscq.pop (w.contexts c).pending_queue).0 in
      let more : (first == null) ≡ false = ground (arith, e) in
      ap (λ b. if b then some (taken w c) else go (bus_add_queue (taken w c) c first)) more
      ∙ ap (λ x. go (bus_add_queue (taken w c) c x)) e
      ∙ ap go joined

  -- The call returns after one round more than there are waiting queues, if the heaps keep their
  -- invariants and the waiting queues are different ones that can join: each is a valid ring without
  -- null pointers, is in no heap and belongs to this bus or to none. None waits then, each that holds
  -- events is in the heap of its category, the heaps keep their invariants, no queue leaves a heap or
  -- comes into one that has not waited, no event is lost or changed, and the mode and the attached
  -- queues stay.
  pub check_pending_queue_lem :
      (qs : List ℕ) (fuel : ℕ) (w : World H P) (c : ℕ)
      → mpscq.nodes (w.contexts c).pending_queue ≡ qs
      → CanAllJoin w c qs
      → PipesInv w c
      → length qs < fuel
      → (w' : World H P) × (check_pending_queue fuel w c ≡ some w')
        × PipesInv w' c
        × (mpscq.nodes (w'.contexts c).pending_queue ≡ [])
        × AreIn w w' c qs
        × Grows w w' c
        × ((k : Category) (a : ℕ)
            → heap.count (queue_heap w' c k) a ≤ count_in qs a + heap.count (queue_heap w c k) a)
  unfolding event_queue_is_empty
  check_pending_queue_lem qs zero w c waiting can ok enough = absurd (omega arith)
  check_pending_queue_lem [] (suc fuel) w c waiting can ok enough =
      let (none_left, still) = mpscq.pop-nil (w.contexts c).pending_queue waiting in
      (
        taken w c,
        check_pending_queue-nil fuel w c none_left,
        taken-PipesInv w c ok,
        rw (pending-taken w c) still,
        tt,
        taken-Grows w c,
        λ k a. rw (queue_heap-taken w c k) (omega arith),
      )
  check_pending_queue_lem (q ∷ qs) (suc fuel) w c waiting can ok enough =
      let (first, left) = mpscq.pop-cons (w.contexts c).pending_queue q qs waiting in
      let can' = taken-CanAllJoin w c (q ∷ qs) can in
      let (w1, joined, ok1, keeps, counts) =
        bus_add_queue-PipesInv (taken w c) c q can'.0 (taken-PipesInv w c ok) in
      let grows =
        Grows-trans w (taken w c) w1 c (taken-Grows w c)
          (join-Grows (taken w c) w1 c q keeps counts) in
      let (w2, done, ok2, empty, in2, grows2, only2) =
        check_pending_queue_lem qs fuel w1 c (rw (keeps.pending, pending-taken w c) left)
          (CanAllJoin-join (taken w c) w1 c q qs keeps counts can.1 can'.2) ok1 (omega arith) in
      (
        w2,
        check_pending_queue-cons fuel w w1 c q first can.0.not_null joined ∙ done,
        ok2,
        empty,
        (
          λ e. member_of_counts (taken w c) w1 w2 c q counts grows2 e,
          AreIn-Grows w w1 w2 c qs grows in2,
        ),
        Grows-trans w w1 w2 c grows grows2,
        λ k a. omega (
          arith,
          only2 k a,
          join-only (taken w c) w1 c q keeps counts k a,
          ap (λ h. heap.count h a) (queue_heap-taken w c k),
        ),
      )
