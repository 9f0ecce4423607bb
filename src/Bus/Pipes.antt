-- ===== src/Bus/Pipes.antt =====
-- src/engine/core/event_bus.c: the heaps of queues of all categories together, when a queue joins a
-- bus and when an event is popped from a pipe.
use ats.Base.{
  ℕ, ◌+◌, ◌<◌, ◌≡◌, ◌≢◌, refl, sym, ap, ◌∙◌, subst, Bool-cases, not, ◌&&◌, ◌==◌, ==_iff,
  if◌then◌else◌, arith, inl, inr, some,
}
use ats.Heap.{MinHeap}
use ats.Spscq.Ring.{IsValid}
use ats.Spscq.Refine.{pop-IsValid}
use ats.World.{Category, World, category_index, market, execution, service, command}
use ats.EventQueue.{event_queue_pop, event_queue_is_empty}
use ats.Bus.Heaps.{
  queue_heap, requeue, remove_queue, insert_queue, next_turn, join_bus, event_pop_from_pipe,
  bus_add_queue,
}
use ats.Bus.Pipe.{PipeOk-of_queues, PipeInv}
use ats.Bus.Pop.{event_pop_from_pipe_lem}
use ats.Bus.Add.{CanJoin, added, bus_add_queue-added, bus_add_queue_lem}

pub category_index_inj : (j k : Category) → category_index j ≡ category_index k → j ≡ k
category_index_inj market market e = refl
category_index_inj execution execution e = refl
category_index_inj service service e = refl
category_index_inj command command e = refl
category_index_inj _ _ e = absurd (omega arith)

module _ {H P : Type 0} ⦃heap : MinHeap H⦄ where
  -- Every heap of queues of the bus is as it should be.
  abbrev pub PipesInv : World H P → ℕ → Type 0
  PipesInv w c = (k : Category) → PipeInv w c k

  pub PipeInv-frame :
      (w w' : World H P) (c : ℕ) (k : Category)
      → PipeInv w c k
      → w'.events ≡ w.events
      → queue_heap w' c k ≡ queue_heap w c k
      → ((a : ℕ) → 0 < heap.count (queue_heap w c k) a → w'.queues a ≡ w.queues a)
      → PipeInv w' c k
  PipeInv-frame w w' c k ok events same queues =
      rw same (PipeOk-of_queues w w' c k (queue_heap w c k) ok events queues)

  -- A pop leaves alone the events and the heaps of the other categories.
  pub events-pop :
      (w : World H P) (c : ℕ) (k : Category) → (event_pop_from_pipe w c k).1.events ≡ w.events
  unfolding event_pop_from_pipe requeue remove_queue insert_queue next_turn event_queue_pop
  events-pop w c k = ground arith

  pub queue_heap-pop :
      (w : World H P) (c : ℕ) (k j : Category)
      → category_index k ≢ category_index j
      → queue_heap ((event_pop_from_pipe w c k).1) c j ≡ queue_heap w c j
  unfolding event_pop_from_pipe requeue remove_queue insert_queue next_turn event_queue_pop
  queue_heap-pop w c k j h = ground arith

  -- A pop from the pipe of one category keeps the heaps of all of them.
  pub event_pop_from_pipe-PipesInv :
      (w : World H P) (c : ℕ) (k : Category)
      → PipesInv w c
      → heap.nelts (queue_heap w c k) ≢ 0
      → PipesInv ((event_pop_from_pipe w c k).1) c
  event_pop_from_pipe-PipesInv w c k ok some_queue j =
      let pop = event_pop_from_pipe_lem w c k (ok k) some_queue in
      elim (Bool-cases (category_index k == category_index j)) [
        | inl e ↦
            subst (PipeInv ((event_pop_from_pipe w c k).1) c)
              (category_index_inj k j ((==_iff _ _).0 e)) pop.inv
        | inr e ↦
            PipeInv-frame w ((event_pop_from_pipe w c k).1) c j (ok j) (events-pop w c k)
              (queue_heap-pop w c k j (λ p. ground arith))
              (λ a m. pop.others a (λ p. ground (
                arith,
                ap category_index (
                    sym ((ok k).members pop.from pop.queued).kind
                    ∙ ap (λ q. (w.queues q).category) p
                    ∙ ((ok j).members a m).kind),
              )))
      ]

  -- The mode of the bus and its attached queues
  pub record SameSettings (w w' : World H P) (c : ℕ) : Type 0 where
    pub mode : (w'.contexts c).mode ≡ (w.contexts c).mode
    pub attached : (w'.contexts c).attached ≡ (w.contexts c).attached
    pub attached_count : (w'.contexts c).attached_count ≡ (w.contexts c).attached_count

  -- What a queue that joins leaves alone: the events, the queues that wait to be added, the settings, the other
  -- queues, its own events, and the heaps of the other categories.
  pub record JoinKeeps (w w' : World H P) (c q : ℕ) : Type 0 where
    pub events : w'.events ≡ w.events
    pub pending : (w'.contexts c).pending_queue ≡ (w.contexts c).pending_queue
    pub kept : SameSettings w w' c
    pub others : (a : ℕ) → q ≢ a → w'.queues a ≡ w.queues a
    pub ring : (w'.queues q).spsc ≡ (w.queues q).spsc
    pub kind : (w'.queues q).category ≡ (w.queues q).category
    pub heaps :
        (j : Category)
        → category_index (w.queues q).category ≢ category_index j
        → queue_heap w' c j ≡ queue_heap w c j

  added-JoinKeeps : (w : World H P) (c q : ℕ) → JoinKeeps w (added w c q) c q
  unfolding join_bus insert_queue
  added-JoinKeeps w c q = record {
    events = ground arith;
    pending = ground arith;
    kept = record { mode = ground arith; attached = ground arith; attached_count = ground arith };
    others = λ a h. ground arith;
    ring = ground arith;
    kind = ground arith;
    heaps = λ j h. ground arith;
  }

  -- A queue that joins the bus keeps the heaps of all categories.
  pub bus_add_queue-PipesInv :
      (w : World H P) (c q : ℕ)
      → CanJoin w c q
      → PipesInv w c
      → (w' : World H P) × (bus_add_queue w c q ≡ some w')
        × PipesInv w' c
        × JoinKeeps w w' c q
        × ((a : ℕ)
            → heap.count (queue_heap w' c (w.queues q).category) a
              ≡ (if q == a && not (event_queue_is_empty w q) then 1 else 0)
                + heap.count (queue_heap w c (w.queues q).category) a)
  bus_add_queue-PipesInv w c q can ok =
      let k = (w.queues q).category in
      let keeps = added-JoinKeeps w c q in
      let (w', done, inv, counts, _, _) = bus_add_queue_lem w c q can (ok k) in
      let same : w' ≡ added w c q = ground (arith, done, bus_add_queue-added w c q can) in
      (
        added w c q,
        bus_add_queue-added w c q can,
        λ j. elim (Bool-cases (category_index k == category_index j)) [
          | inl e ↦
              subst (PipeInv (added w c q) c) (category_index_inj k j ((==_iff _ _).0 e))
                (subst (λ v. PipeInv v c k) same inv)
          | inr e ↦
              PipeInv-frame w (added w c q) c j (ok j) keeps.events
                (keeps.heaps j (λ p. ground arith))
                (λ a m. keeps.others a (λ p. ground (
                  arith,
                  ap (λ q. category_index (w.queues q).category) p,
                  ap category_index ((ok j).members a m).kind,
                )))
        ],
        keeps,
        subst
            (λ v.
              (a : ℕ)
              → heap.count (queue_heap v c k) a
                ≡ (if q == a && not (event_queue_is_empty w q) then 1 else 0)
                  + heap.count (queue_heap w c k) a)
            same counts,
      )

  -- A pop leaves every ring valid, and the attached queues as they are.
  pub rings-pop :
      (w : World H P) (c : ℕ) (k : Category) (a : ℕ)
      → IsValid ((w.queues a).spsc)
      → IsValid (((event_pop_from_pipe w c k).1.queues a).spsc)
  unfolding event_pop_from_pipe requeue remove_queue insert_queue next_turn event_queue_pop
  rings-pop w c k a v = ground (
    arith,
    pop-IsValid ((w.queues (heap.min (queue_heap w c k))).spsc),
    ap (λ a. (w.queues a).spsc),
  )

  pub attached-pop :
      (w : World H P) (c : ℕ) (k : Category)
      → let w' = (event_pop_from_pipe w c k).1 in
        ((w'.contexts c).attached ≡ (w.contexts c).attached)
        × ((w'.contexts c).attached_count ≡ (w.contexts c).attached_count)
  unfolding event_pop_from_pipe requeue remove_queue insert_queue next_turn event_queue_pop
  attached-pop w c k = (ground arith, ground arith)
