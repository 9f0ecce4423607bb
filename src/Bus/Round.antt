-- ===== src/Bus/Round.antt =====
-- src/engine/core/event_bus.c: one round of the loop for market data of bus_simualtion_dequeue.
use ats.Base.{
  ℕ, suc, ◌+◌, ◌<◌, ◌≤◌, ◌≡◌, ◌≢◌, refl, sym, ap, ap₂, subst, Bool-cases, true, false, not, ◌&&◌,
  ◌⊎◌, ◌==◌, if◌then◌else◌, arith, null, inl, inr, List, [], ◌∷◌, length,
}
use ats.Heap.{MinHeap}
use ats.Spscq.Ring.{contents}
use ats.World.{Category, market, World, Event}
use ats.Bus.Heaps.{queue_heap, pipe_is_empty}
use ats.Bus.Clocks.{bus_get_time}
use ats.Bus.Dequeue.{take_market, saved_event}
use ats.Bus.Pop.{Popped}
use ats.Bus.Pipes.{PipesInv, PipeInv-frame}

-- How often a number is in a list
abbrev pub count_in : List ℕ → ℕ → ℕ
count_in [] a = 0
count_in (x ∷ l) a = (if x == a then 1 else 0) + count_in l a

module _ {H P : Type 0} ⦃heap : MinHeap H⦄ where
  -- The number of events in the queues
  abbrev pub backlog : World H P → List ℕ → ℕ
  backlog w [] = 0
  backlog w (q ∷ qs) = length (contents ((w.queues q).spsc)) + backlog w qs

  -- Every queue in the heap for market data is one of the list.
  abbrev pub Covers : World H P → ℕ → List ℕ → Type 0
  Covers w c qs = (a : ℕ) → 0 < heap.count (queue_heap w c market) a → 0 < count_in qs a

  pub backlog_same :
      (w w' : World H P) (qs : List ℕ) → w'.queues ≡ w.queues → backlog w' qs ≡ backlog w qs
  backlog_same w w' [] e = refl
  backlog_same w w' (q ∷ qs) e =
      ap₂ ◌+◌ (ap (λ f. length (contents ((f q).spsc))) e) (backlog_same w w' qs e)

  -- A pop from the pipe takes one event of one queue.
  backlog-pop_le :
      (w w' : World H P) (q : ℕ) (qs : List ℕ)
      → length (contents ((w.queues q).spsc)) ≡ suc (length (contents ((w'.queues q).spsc)))
      → ((a : ℕ) → q ≢ a → w'.queues a ≡ w.queues a)
      → backlog w' qs + count_in qs q ≡ backlog w qs
  backlog-pop_le w w' q [] one others = omega arith
  backlog-pop_le w w' q (x ∷ qs) one others =
      let rest = backlog-pop_le w w' q qs one others in
      elim (Bool-cases (x == q)) [
        | inl e ↦
            let here : q ≡ x = ground arith in
            let one' : length (contents ((w.queues x).spsc))
                ≡ suc (length (contents ((w'.queues x).spsc))) =
              subst
                (λ a.
                  length (contents ((w.queues a).spsc))
                  ≡ suc (length (contents ((w'.queues a).spsc))))
                here one in
            ground arith
        | inr e ↦
            let same = ap (λ x. length (contents (x.spsc))) (others x (λ p. ground arith)) in
            ground arith
      ]

module _ {H P : Type 0} ⦃heap : MinHeap H⦄ where
  -- The choice for one event leaves the queues and the heaps alone.
  pub heaps-take_market :
      (w : World H P) (c e : ℕ)
      → ((take_market w c e).1.queues ≡ w.queues)
        × ((k : Category) → queue_heap ((take_market w c e).1) c k ≡ queue_heap w c k)
  unfolding take_market
  heaps-take_market w c e = (ground arith, λ k. ground arith)

  pub take_market-again :
      (w : World H P) (c e : ℕ)
      → (take_market w c e).0 ≡ true
      → ((take_market w c e).1.events ≡ w.events)
        × (saved_event ((take_market w c e).1) c ≡ saved_event w c)
  unfolding take_market
  take_market-again w c e h = (ground arith, ground arith)

  pub take_market-saved :
      (w : World H P) (c e : ℕ)
      → (take_market w c e).0 ≡ false
      → let w' = (take_market w c e).1 in
        (saved_event w' c ≡ e) × (bus_get_time w' c ≤ (w'.events e).timestamp)
  unfolding take_market bus_get_time
  take_market-saved w c e h = (ground arith, ground arith)

  -- No queue of the list holds a null pointer as an event.
  abbrev pub NoNull : World H P → List ℕ → Type 0
  NoNull w qs = (q : ℕ) → 0 < count_in qs q → count_in (contents ((w.queues q).spsc)) null ≡ 0

  -- What one pop from the pipe leaves to the rest of the loop.
  pub pop-Covers :
      (w : World H P) (c : ℕ) (qs : List ℕ) (e : ℕ) (w' : World H P)
      → Popped w c market e w'
      → Covers w c qs
      → Covers w' c qs
  pop-Covers w c qs e w' pop covers a m = covers a (ground (arith, pop.left a))

  pub pop-NoNull :
      (w : World H P) (c : ℕ) (qs : List ℕ) (e : ℕ) (w' : World H P)
      → Popped w c market e w'
      → NoNull w qs
      → NoNull w' qs
  pop-NoNull w c qs e w' pop solid a m = elim (Bool-cases (pop.from == a)) [
    | inl h ↦
        let here : pop.from ≡ a = ground arith in
        subst (λ a. count_in (contents ((w'.queues a).spsc)) null ≡ 0) here
          (ground (
            arith,
            ap (λ l. count_in l null) pop.taken,
            solid pop.from (subst (λ a. 0 < count_in qs a) (sym here) m),
          ))
    | inr h ↦ rw (pop.others a (λ p. ground arith)) (solid a m)
  ]

  pub pop-event :
      (w : World H P) (c : ℕ) (qs : List ℕ) (e : ℕ) (w' : World H P)
      → Popped w c market e w'
      → Covers w c qs
      → NoNull w qs
      → e ≢ null
  pop-event w c qs e w' pop covers solid h =
      ground
        (arith, h, ap (λ l. count_in l null) pop.taken, solid pop.from (covers pop.from pop.queued))

  pub pop-backlog :
      (w : World H P) (c : ℕ) (qs : List ℕ) (e : ℕ) (w' : World H P)
      → Popped w c market e w'
      → Covers w c qs
      → backlog w' qs < backlog w qs
  pop-backlog w c qs e w' pop covers = omega (
    arith,
    backlog-pop_le w w' pop.from qs (ap length pop.taken) pop.others,
    covers pop.from pop.queued,
  )

  pub nelts_of_pipe :
      (w : World H P) (c : ℕ) (k : Category)
      → pipe_is_empty w c k ≡ false
      → heap.nelts (queue_heap w c k) ≢ 0
  nelts_of_pipe w c k h z = ground (arith, heap.min_null (queue_heap w c k) z)

  -- A choice to go on leaves what the next round needs.
  pub again-PipesInv :
      (w : World H P) (c e : ℕ)
      → (take_market w c e).0 ≡ true
      → PipesInv w c
      → PipesInv ((take_market w c e).1) c
  again-PipesInv w c e h ok k =
      let (queues, heaps) = heaps-take_market w c e in
      PipeInv-frame w ((take_market w c e).1) c k (ok k) (take_market-again w c e h).0 (heaps k)
        (λ a m. ap (λ f. f a) queues)

  pub saved-PipesInv :
      (w : World H P) (c e : ℕ) (events : ℕ → Event)
      → w.events ≡ events
      → PipesInv w c
      → PipesInv (record ((take_market w c e).1) { events = events }) c
  saved-PipesInv w c e events same ok k =
      let (queues, heaps) = heaps-take_market w c e in
      PipeInv-frame w (record ((take_market w c e).1) { events = events }) c k (ok k) (sym same)
        (heaps k) (λ a m. ap (λ f. f a) queues)

  pub stopped :
      (w : World H P) (c : ℕ)
      → (not (pipe_is_empty w c market) && saved_event w c == null) ≡ false
      → (saved_event w c ≢ null) ⊎ (pipe_is_empty w c market ≡ true)
  stopped w c h = elim (Bool-cases (pipe_is_empty w c market)) [
    | inl e ↦ inr e
    | inr e ↦ inl (λ p. ground arith)
  ]
