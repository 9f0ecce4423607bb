-- ===== src/Bus/Pop.antt =====
-- src/engine/core/event_bus.c: event_pop_form_pipe on a heap that holds queues.
use ats.Base.{
  subst, ℕ, ◌+◌, ◌≤◌, ◌<◌, ◌≡◌, ◌≢◌, refl, ◌∙◌, ap, Bool, true, false, not, ◌&&◌, ◌∷◌, ◌==◌,
  if◌then◌else◌, arith, null, update_self, update_ne, Bool-cases, inl, inr,
}
use ats.Spscq
use ats.Spscq.Ring.{IsValid, contents}
use ats.Spscq.Refine.{pop-IsValid, contents-pop}
use ats.Heap.{MinHeap}
use ats.World.{Category, World}
use ats.EventQueue.Destroy.{NonNull}
use ats.EventQueue.{event_queue_pop, event_queue_is_empty}
use ats.Bus.Heaps.{
  queue_less_than, queue_heap, next_turn, insert_queue, remove_queue, requeue, event_pop_from_pipe,
}
use ats.Bus.Order.{queue_less_than-IsOrder}
use ats.Bus.Pipe.{
  IsQueued, PipeInv, PipeOk-of_queues, queues-insert_queue, queues-remove_queue, insert_queue_lem,
  remove_queue_lem,
}

-- How often a node is in a heap before a pop, `n`, and between its removal and its return, `m`.
left_count :
    (q a n m : ℕ) (empty : Bool)
    → n ≡ (if q == a then 1 else 0) + m
    → n ≤ 1
    → (if q == a && not empty then 1 else 0) + m ≡ (if q == a && empty then 0 else n)
left_count q a n m empty e h = ground arith

module _ {H P : Type 0} where
  queues-event_queue_pop_self :
      (w : World H P) (q : ℕ)
      → (event_queue_pop w q).1.queues q
        ≡ record (w.queues q) { spsc = (Spscq.pop (w.queues q).spsc).1 }
  unfolding event_queue_pop
  queues-event_queue_pop_self w q = update_self w.queues q _

  queues-event_queue_pop_ne :
      (w : World H P) (q a : ℕ) → q ≢ a → (event_queue_pop w q).1.queues a ≡ w.queues a
  unfolding event_queue_pop
  queues-event_queue_pop_ne w q a h = update_ne w.queues q a _ h

  event_queue_pop-keeps :
      (w : World H P) (q : ℕ)
      → ((event_queue_pop w q).1.events ≡ w.events)
        × ((event_queue_pop w q).1.contexts ≡ w.contexts)
        × ((event_queue_pop w q).0 ≡ (Spscq.pop (w.queues q).spsc).0)
  unfolding event_queue_pop
  event_queue_pop-keeps w q = (refl, refl, refl)

  queues-next_turn_self :
      (w : World H P) (c q : ℕ)
      → (next_turn w c q).queues q ≡ record (w.queues q) { start_id = (w.contexts c).counter }
  unfolding next_turn
  queues-next_turn_self w c q = update_self w.queues q _

  is_empty-next_turn :
      (w : World H P) (c q : ℕ)
      → event_queue_is_empty (next_turn w c q) q ≡ event_queue_is_empty w q
  unfolding event_queue_is_empty
  is_empty-next_turn w c q = rw (queues-next_turn_self w c q)

  queues-next_turn_ne :
      (w : World H P) (c q a : ℕ) → q ≢ a → (next_turn w c q).queues a ≡ w.queues a
  unfolding next_turn
  queues-next_turn_ne w c q a h = update_ne w.queues q a _ h

  next_turn-keeps :
      (w : World H P) (c q : ℕ) (k : Category)
      → ((next_turn w c q).events ≡ w.events)
        × (queue_heap (next_turn w c q) c k ≡ queue_heap w c k)
  unfolding next_turn
  next_turn-keeps w c q k = (refl, ground arith)

module _ {H P : Type 0} ⦃heap : MinHeap H⦄ where
  requeue_empty :
      (w : World H P) (k : Category) (q : ℕ) → event_queue_is_empty w q ≡ true → requeue w k q ≡ w
  unfolding requeue
  requeue_empty w k q e = rw e

  requeue_more :
      (w : World H P) (c : ℕ) (k : Category) (q : ℕ)
      → event_queue_is_empty w q ≡ false
      → (w.queues q).ctx ≡ c
      → requeue w k q ≡ insert_queue (next_turn w c q) c k q
  unfolding requeue
  requeue_more w c k q e home = rw (e, home)

  next_turn-PipeInv :
      (w : World H P) (c : ℕ) (k : Category) (q : ℕ)
      → PipeInv w c k
      → heap.count (queue_heap w c k) q ≡ 0
      → PipeInv (next_turn w c q) c k
  next_turn-PipeInv w c k q ok out = rw (next_turn-keeps w c q k).1 (
      PipeOk-of_queues w (next_turn w c q) c k _ ok (next_turn-keeps w c q k).0
        (λ a m. queues-next_turn_ne w c q a (λ e. ground arith)))

  -- What is left of a popped queue stands as before in the heap of its bus, or is out of it.
  record Requeued (w w' : World H P) (c : ℕ) (k : Category) (q : ℕ) : Type 0 where
    inv : PipeInv w' c k
    counts :
        (a : ℕ)
        → heap.count (queue_heap w' c k) a
          ≡ (if q == a && not (event_queue_is_empty w q) then 1 else 0)
            + heap.count (queue_heap w c k) a
    ring : (w'.queues q).spsc ≡ (w.queues q).spsc
    others : (a : ℕ) → q ≢ a → w'.queues a ≡ w.queues a

  requeue_lem :
      (w : World H P) (c : ℕ) (k : Category) (q : ℕ)
      → PipeInv w c k
      → heap.count (queue_heap w c k) q ≡ 0
      → q ≢ null
      → IsValid ((w.queues q).spsc)
      → NonNull (contents ((w.queues q).spsc))
      → (w.queues q).ctx ≡ c
      → (w.queues q).category ≡ k
      → Requeued w (requeue w k q) c k q
  requeue_lem w c k q ok out nn v solid home kind = elim (Bool-cases (event_queue_is_empty w q)) [
    | inl e ↦
        rw (requeue_empty w k q e)
          (record { inv = ok; counts = λ a. ground arith; ring = refl; others = λ a h. refl })
    | inr e ↦
        let w' = next_turn w c q in
        let turn = queues-next_turn_self w c q in
        let out' = rw (← (next_turn-keeps w c q k).1) at out in
        let queued : IsQueued w' c k q = record {
          not_null = nn;
          valid = rw turn v;
          some_left = is_empty-next_turn w c q ∙ e;
          home = rw turn home;
          kind = rw turn kind;
          solid = rw turn solid;
        } in
        let both = insert_queue_lem w' c k q (next_turn-PipeInv w c k q ok out) out' queued in
        rw (requeue_more w c k q e home) (record {
          inv = both.0;
          counts = λ a. both.1 a ∙ rw (next_turn-keeps w c q k).1 (ground arith);
          ring = rw (queues-insert_queue w' c k q, turn);
          others = λ a h. rw (queues-insert_queue w' c k q) (queues-next_turn_ne w c q a h);
        })
  ]

  -- The state when the queue at the top of the heap has been taken out and popped.
  abbrev popped : World H P → ℕ → Category → ℕ → World H P
  popped w c k q = (event_queue_pop (remove_queue w c k q) q).1

  popped-PipeInv :
      (w : World H P) (c : ℕ) (k : Category) (q : ℕ)
      → PipeInv w c k
      → 0 < heap.count (queue_heap w c k) q
      → PipeInv (popped w c k q) c k × (heap.count (queue_heap (popped w c k q) c k) q ≡ 0)
  unfolding event_queue_pop
  popped-PipeInv w c k q ok m =
      let w' = remove_queue w c k q in
      let (inv, out, _) = remove_queue_lem w c k q ok m in
      (
        PipeOk-of_queues w' (popped w c k q) c k _ inv refl
            (λ a p. queues-event_queue_pop_ne w' q a (λ e. ground arith)),
        out,
      )

  popped_queue :
      (w : World H P) (c : ℕ) (k : Category) (q : ℕ)
      → ((popped w c k q).queues q ≡ record (w.queues q) { spsc = (Spscq.pop (w.queues q).spsc).1 })
        × ((event_queue_pop (remove_queue w c k q) q).0 ≡ (Spscq.pop (w.queues q).spsc).0)
        × ((a : ℕ) → q ≢ a → (popped w c k q).queues a ≡ w.queues a)
  unfolding remove_queue
  popped_queue w c k q =
      let w' = remove_queue w c k q in
      let same = queues-remove_queue w c k q in
      (
        rw same at (queues-event_queue_pop_self w' q),
        rw same at (event_queue_pop-keeps w' q).2,
        λ a h. rw same at (queues-event_queue_pop_ne w' q a h),
      )

  event_pop_from_pipe-popped :
      (w : World H P) (c : ℕ) (k : Category)
      → heap.min (queue_heap w c k) ≢ null
      → let q = heap.min (queue_heap w c k) in
        event_pop_from_pipe w c k
        ≡ ((event_queue_pop (remove_queue w c k q) q).0, requeue (popped w c k q) k q)
  unfolding event_pop_from_pipe
  event_pop_from_pipe-popped w c k h = ground arith

  -- What a pop from the pipe of category `k` of the bus `c` answers and leaves.
  pub record Popped (w : World H P) (c : ℕ) (k : Category) (e : ℕ) (w' : World H P) : Type 0 where
    -- the queue that the event comes from was queued, and no queue was before it
    pub from : ℕ
    pub queued : 0 < heap.count (queue_heap w c k) from
    pub first : (a : ℕ) → 0 < heap.count (queue_heap w c k) a → queue_less_than w a from ≡ false
    -- its first event is off, and no other queue has changed
    pub taken : contents ((w.queues from).spsc) ≡ e ∷ contents ((w'.queues from).spsc)
    pub others : (a : ℕ) → from ≢ a → w'.queues a ≡ w.queues a
    -- only a queue that is empty now has left the heap
    pub left :
        (a : ℕ)
        → heap.count (queue_heap w' c k) a ≡ (
            if from == a && event_queue_is_empty w' from
            then 0
            else heap.count (queue_heap w c k) a)
    pub inv : PipeInv w' c k

  -- A pop from a pipe that holds a queue, and whose heap is as it should be (its queues are valid
  -- rings of this bus and category, hold events, and no null pointer as one), takes the first event of
  -- a queue to which no queued one is prior, and that event only; a queue that holds more stays in the
  -- heap, and the heap keeps its invariant.
  pub event_pop_from_pipe_lem :
      (w : World H P) (c : ℕ) (k : Category)
      → PipeInv w c k
      → heap.nelts (queue_heap w c k) ≢ 0
      → let (e, w') = event_pop_from_pipe w c k in Popped w c k e w'
  unfolding event_queue_is_empty event_queue_pop
  event_pop_from_pipe_lem w c k ok some_queue =
      let q = heap.min (queue_heap w c k) in
      let m : 0 < heap.count (queue_heap w c k) q = heap.min_mem (queue_heap w c k) some_queue in
      let i = ok.members q m in
      let (inv, out) = popped-PipeInv w c k q ok m in
      let (now, event, others) = popped_queue w c k q in
      let back =
        requeue_lem (popped w c k q) c k q inv out i.not_null
          (rw now (pop-IsValid ((w.queues q).spsc) i.valid))
          (rw now (subst NonNull (contents-pop ((w.queues q).spsc) i.valid i.some_left) i.solid).1)
          (rw now i.home) (rw now i.kind) in
      let removed = (remove_queue_lem w c k q ok m).2 in
      rw (event_pop_from_pipe-popped w c k i.not_null) (record {
        from = q;
        queued = m;
        first = λ a p. heap.min_least _ _ a (queue_less_than-IsOrder w) ok.ordered p;
        taken = rw (back.ring, now, event) (contents-pop ((w.queues q).spsc) i.valid i.some_left);
        others = λ a h. back.others a h ∙ others a h;
        left = λ a.
            back.counts a
            ∙ rw (ap Spscq.is_empty back.ring) (left_count q a _ _ _ (removed a) (ok.once a));
        inv = back.inv;
      })
