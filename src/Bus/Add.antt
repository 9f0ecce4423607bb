-- ===== src/Bus/Add.antt =====
-- src/engine/core/event_bus.c: bus_add_queue and the heap of the category of the queue.
use ats.Base.{
  ℕ, ◌+◌, ◌≡◌, ◌≢◌, refl, ◌∙◌, ◌&&◌, false, not, ◌==◌, if◌then◌else◌, arith, null, update_self,
  update_ne, Bool-cases, inl, inr, ◌⊎◌, some,
}
use ats.Spscq.Ring.{IsValid, contents}
use ats.EventQueue.Destroy.{NonNull}
use ats.Heap.{MinHeap}
use ats.World.{Category, World}
use ats.EventQueue.{event_queue_is_empty}
use ats.Bus.Heaps.{queue_heap, join_bus, insert_queue, bus_add_queue}
use ats.Bus.Pipe.{
  IsQueued, PipeOk, PipeInv, PipeOk-of_queues, queues-insert_queue, insert_queue_lem,
}

module _ {H P : Type 0} ⦃heap : MinHeap H⦄ where
  queues-join_bus_self :
      (w : World H P) (c q : ℕ)
      → (join_bus w c q).queues q
        ≡ record (w.queues q) { ctx = c; start_id = (w.contexts c).counter }
  unfolding join_bus
  queues-join_bus_self w c q = update_self w.queues q _

  queues-join_bus_ne : (w : World H P) (c q a : ℕ) → q ≢ a → (join_bus w c q).queues a ≡ w.queues a
  unfolding join_bus
  queues-join_bus_ne w c q a h = update_ne w.queues q a _ h

  events-join_bus : (w : World H P) (c q : ℕ) → (join_bus w c q).events ≡ w.events
  unfolding join_bus
  events-join_bus w c q = refl

  queue_heap-join_bus :
      (w : World H P) (c q : ℕ) (k : Category) → queue_heap (join_bus w c q) c k ≡ queue_heap w c k
  unfolding join_bus
  queue_heap-join_bus w c q k = ground arith

  -- What a queue must be like for a bus to take it on.
  pub record CanJoin (w : World H P) (c q : ℕ) : Type 0 where
    pub bus : c ≢ null
    pub not_null : q ≢ null
    pub free : ((w.queues q).ctx ≡ c) ⊎ ((w.queues q).ctx ≡ null)
    pub valid : IsValid ((w.queues q).spsc)
    pub solid : NonNull (contents ((w.queues q).spsc))
    pub out : heap.count (queue_heap w c (w.queues q).category) q ≡ 0

  join_bus-PipeOk :
      (w : World H P) (c q : ℕ) (k : Category) (h : H)
      → PipeOk w c k h
      → heap.count h q ≡ 0
      → PipeOk (join_bus w c q) c k h
  join_bus-PipeOk w c q k h ok out =
      PipeOk-of_queues w (join_bus w c q) c k h ok (events-join_bus w c q)
        (λ a m. queues-join_bus_ne w c q a (λ e. ground arith))

  join_bus-IsQueued :
      (w : World H P) (c q : ℕ)
      → CanJoin w c q
      → event_queue_is_empty w q ≡ false
      → IsQueued (join_bus w c q) c (w.queues q).category q
  unfolding event_queue_is_empty
  join_bus-IsQueued w c q j e = record {
    not_null = j.not_null;
    valid = rw (queues-join_bus_self w c q) j.valid;
    some_left = rw (queues-join_bus_self w c q) e;
    home = rw (queues-join_bus_self w c q);
    kind = rw (queues-join_bus_self w c q);
    solid = rw (queues-join_bus_self w c q) j.solid;
  }

  is_empty-join_bus :
      (w : World H P) (c q : ℕ) → event_queue_is_empty (join_bus w c q) q ≡ event_queue_is_empty w q
  unfolding event_queue_is_empty
  is_empty-join_bus w c q = rw (queues-join_bus_self w c q)

  -- The state that `bus_add_queue` leaves when its assertions hold.
  abbrev pub added : World H P → ℕ → ℕ → World H P
  added w c q =
      let w' = join_bus w c q in
      if event_queue_is_empty w' q then w' else insert_queue w' c (w.queues q).category q

  pub bus_add_queue-added :
      (w : World H P) (c q : ℕ) → CanJoin w c q → bus_add_queue w c q ≡ some (added w c q)
  unfolding bus_add_queue
  bus_add_queue-added w c q j = ground arith

  -- A queue that is not in the heap joins the bus, if it is a valid ring without null pointers that
  -- belongs to this bus or to none, neither is NULL, and the heap is as it should be: it gets the bus
  -- as its context and the next turn, and goes into the heap of its category unless it is empty. The
  -- other queues of the heap stay, and the heap keeps its invariant.
  pub bus_add_queue_lem :
      (w : World H P) (c q : ℕ)
      → CanJoin w c q
      → PipeInv w c (w.queues q).category
      → (w' : World H P) × (bus_add_queue w c q ≡ some w')
        × PipeInv w' c (w.queues q).category
        × ((a : ℕ)
            → heap.count (queue_heap w' c (w.queues q).category) a
              ≡ (if q == a && not (event_queue_is_empty w q) then 1 else 0)
                + heap.count (queue_heap w c (w.queues q).category) a)
        × ((w'.queues q).ctx ≡ c)
        × ((w'.queues q).start_id ≡ (w.contexts c).counter)
  bus_add_queue_lem w c q j ok =
      let k = (w.queues q).category in
      let joined = rw (← queue_heap-join_bus w c q k) at (join_bus-PipeOk w c q k _ ok j.out) in
      let turn = queues-join_bus_self w c q in
      elim (Bool-cases (event_queue_is_empty w q)) [
        | inl e ↦ (
          join_bus w c q,
          bus_add_queue-added w c q j ∙ rw (is_empty-join_bus w c q, e),
          joined,
          λ a. rw (queue_heap-join_bus w c q k) (ground arith),
          rw turn,
          rw turn,
        )
        | inr e ↦
            let out = rw (← queue_heap-join_bus w c q k) at j.out in
            let both =
              insert_queue_lem (join_bus w c q) c k q joined out (join_bus-IsQueued w c q j e) in
            (
              insert_queue (join_bus w c q) c k q,
              bus_add_queue-added w c q j ∙ rw (is_empty-join_bus w c q, e),
              both.0,
              λ a. both.1 a ∙ rw (queue_heap-join_bus w c q k) (ground arith),
              rw (queues-insert_queue (join_bus w c q) c k q, turn),
              rw (queues-insert_queue (join_bus w c q) c k q, turn),
            )
      ]
