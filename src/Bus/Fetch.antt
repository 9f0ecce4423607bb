-- ===== src/Bus/Fetch.antt =====
-- src/engine/core/event_bus.c: the market data of bus_simualtion_dequeue, from `again` to `next`.
use ats.Base.{
  ℕ, zero, suc, ◌<◌, ◌≤◌, ◌≡◌, ◌≢◌, refl, sym, ◌∙◌, subst, Bool-cases, true, false, not, ◌&&◌, ◌⊎◌,
  ◌==◌, if◌then◌else◌, arith, null, inl, inr, some, List,
}
use ats.Heap.{MinHeap}
use ats.Spscq.Ring.{IsValid, contents}
use ats.World.{Category, market, World, category_index}
use ats.Bus.Heaps.{queue_heap, event_pop_from_pipe, pipe_is_empty}
use ats.Bus.Clocks.{bus_get_time}
use ats.Bus.Dequeue.{fetch_market, take_market, saved_event}
use ats.Bus.Pop.{Popped, event_pop_from_pipe_lem}
use ats.Bus.Select.{pop_keeps_saved}
use ats.Bus.Pipes.{
  rings-pop, attached-pop, queue_heap-pop, category_index_inj, PipesInv,
  event_pop_from_pipe-PipesInv, events-pop,
}
use ats.Bus.Round.{
  count_in, backlog, backlog_same, Covers, NoNull, heaps-take_market, take_market-again,
  take_market-saved, pop-Covers, pop-NoNull, pop-event, pop-backlog, nelts_of_pipe, again-PipesInv,
  saved-PipesInv, stopped,
}

module _ {H P : Type 0} ⦃heap : MinHeap H⦄ where
  abbrev pub SameAttached : World H P → World H P → ℕ → Type 0
  SameAttached w w' c =
      ((w'.contexts c).attached ≡ (w.contexts c).attached)
      × ((w'.contexts c).attached_count ≡ (w.contexts c).attached_count)

  attached-take_market : (w : World H P) (c e : ℕ) → SameAttached w ((take_market w c e).1) c
  unfolding take_market
  attached-take_market w c e = (ground arith, ground arith)

  -- One round: a pop and the choice for its event.
  abbrev round : World H P → ℕ → World H P
  round w c = let (e, w1) = event_pop_from_pipe w c market in (take_market w1 c e).1

  round-attached : (w : World H P) (c : ℕ) → SameAttached w (round w c) c
  round-attached w c =
      let (e, w1) = event_pop_from_pipe w c market in
      let (a, n) = attached-take_market w1 c e in
      let (b, m) = attached-pop w c market in (a ∙ b, n ∙ m)

  round-rings :
      (w : World H P) (c a : ℕ)
      → IsValid ((w.queues a).spsc)
      → IsValid (((round w c).queues a).spsc)
  round-rings w c a v =
      let (e, w1) = event_pop_from_pipe w c market in
      subst (λ f. IsValid ((f a).spsc)) (sym (heaps-take_market w1 c e).0)
        (rings-pop w c market a v)

  -- A pop from one pipe adds no queue to any heap.
  pub pop-fewer :
      (w : World H P) (c : ℕ)
      → let (e, w1) = event_pop_from_pipe w c market in
        Popped w c market e w1
        → (k : Category) (a : ℕ)
        → heap.count (queue_heap w1 c k) a ≤ heap.count (queue_heap w c k) a
  pop-fewer w c pop k a =
      let (e, w1) = event_pop_from_pipe w c market in
      elim (Bool-cases (category_index market == category_index k)) [
        | inl h ↦
            subst (λ k. heap.count (queue_heap w1 c k) a ≤ heap.count (queue_heap w c k) a)
              (category_index_inj market k (ground arith)) (ground (arith, pop.left a))
        | inr h ↦ rw (queue_heap-pop w c market k (λ p. ground arith)) (omega arith)
      ]

  round-fewer :
      (w : World H P) (c : ℕ)
      → let (e, w1) = event_pop_from_pipe w c market in
        Popped w c market e w1
        → (k : Category) (a : ℕ)
        → heap.count (queue_heap (round w c) c k) a ≤ heap.count (queue_heap w c k) a
  round-fewer w c pop k a =
      let (e, w1) = event_pop_from_pipe w c market in
      rw ((heaps-take_market w1 c e).1 k) (pop-fewer w c pop k a)

  -- What the loop leaves. The heaps are as they should be for the times that the events had before
  -- the loop: the time of the saved event alone may have been moved up to that of the bus.
  pub record Fetched (w w' : World H P) (c : ℕ) (qs : List ℕ) : Type 0 where
    pub inv : PipesInv (record w' { events = w.events }) c
    pub done : (saved_event w' c ≢ null) ⊎ (pipe_is_empty w' c market ≡ true)
    pub saved :
        (saved_event w' c ≡ saved_event w c)
        ⊎ (bus_get_time w' c ≤ (w'.events (saved_event w' c)).timestamp)
    -- the queues in the heaps, the events, the rings and the attached queues
    pub fewer :
        (k : Category) (a : ℕ) → heap.count (queue_heap w' c k) a ≤ heap.count (queue_heap w c k) a
    pub solid : NoNull w' qs
    pub rings : (a : ℕ) → IsValid ((w.queues a).spsc) → IsValid ((w'.queues a).spsc)
    pub attached : SameAttached w w' c

  fetch_market-stop :
      (fuel : ℕ) (w : World H P) (c : ℕ)
      → (not (pipe_is_empty w c market) && saved_event w c == null) ≡ false
      → fetch_market (suc fuel) w c ≡ some w
  unfolding fetch_market
  fetch_market-stop fuel w c h = rw h refl

  fetch_market-take :
      (fuel : ℕ) (w : World H P) (c : ℕ)
      → (not (pipe_is_empty w c market) && saved_event w c == null) ≡ true
      → (event_pop_from_pipe w c market).0 ≢ null
      → let (e, w1) = event_pop_from_pipe w c market in
        fetch_market (suc fuel) w c ≡ (
          if (take_market w1 c e).0
          then fetch_market fuel ((take_market w1 c e).1) c
          else some (take_market w1 c e).1)
  unfolding fetch_market
  fetch_market-take fuel w c h nn = ground (arith, h, nn)

  round-NoNull :
      (w : World H P) (c : ℕ) (qs : List ℕ)
      → let (e, w1) = event_pop_from_pipe w c market in
        Popped w c market e w1 → NoNull w qs → NoNull (round w c) qs
  round-NoNull w c qs pop solid a m =
      let (e, w1) = event_pop_from_pipe w c market in
      subst (λ f. count_in (contents ((f a).spsc)) null ≡ 0) (sym (heaps-take_market w1 c e).0)
        (pop-NoNull w c qs e w1 pop solid a m)

  -- No round is left to do.
  stop-Fetched :
      (w : World H P) (c : ℕ) (qs : List ℕ)
      → PipesInv w c
      → NoNull w qs
      → (not (pipe_is_empty w c market) && saved_event w c == null) ≡ false
      → Fetched w w c qs
  stop-Fetched w c qs good solid h = record {
    inv = good;
    done = stopped w c h;
    saved = inl refl;
    fewer = λ k a. omega arith;
    solid = solid;
    rings = λ a v. v;
    attached = (refl, refl);
  }

  -- The round that saves its event is the last one.
  last-Fetched :
      (w : World H P) (c : ℕ) (qs : List ℕ)
      → PipesInv w c
      → NoNull w qs
      → heap.nelts (queue_heap w c market) ≢ 0
      → let (e, w1) = event_pop_from_pipe w c market in
        e ≢ null
        → (take_market w1 c e).0 ≡ false
        → Popped w c market e w1
        → Fetched w (round w c) c qs
  last-Fetched w c qs good solid some_queue nn stop pop =
      let (e, w1) = event_pop_from_pipe w c market in
      let (saved, late) = take_market-saved w1 c e stop in
      record {
        inv =
            saved-PipesInv w1 c e w.events (events-pop w c market)
              (event_pop_from_pipe-PipesInv w c market good some_queue);
        done = inl (λ p. nn (sym saved ∙ p));
        saved = inr (rw saved late);
        fewer = round-fewer w c pop;
        solid = round-NoNull w c qs pop solid;
        rings = round-rings w c;
        attached = round-attached w c;
      }

  -- After a round that drops its event, the loop goes on with what that round leaves.
  again-Fetched :
      (w w' : World H P) (c : ℕ) (qs : List ℕ)
      → let (e, w1) = event_pop_from_pipe w c market in
        (take_market w1 c e).0 ≡ true
        → Popped w c market e w1
        → Fetched (round w c) w' c qs
        → Fetched w w' c qs
  again-Fetched w w' c qs again pop f =
      let (e, w1) = event_pop_from_pipe w c market in
      let (events, saved) = take_market-again w1 c e again in
      record {
        inv =
            subst (λ v. PipesInv (record w' { events = v }) c) (events ∙ events-pop w c market)
              f.inv;
        done = f.done;
        saved = elim f.saved [
          | inl p ↦ inl (p ∙ saved ∙ pop_keeps_saved w c market)
          | inr p ↦ inr p
        ];
        fewer = λ k a. omega (arith, f.fewer k a, round-fewer w c pop k a);
        solid = f.solid;
        rings = λ a v. f.rings a (round-rings w c a v);
        attached = (f.attached.0 ∙ (round-attached w c).0, f.attached.1 ∙ (round-attached w c).1);
      }

  -- The loop for market data ends within as many rounds as there are events in the listed queues, and
  -- one more, if the heaps keep their invariants, the list has all queues in them and no listed queue
  -- holds a null pointer. An event is saved then or no market queue is left. The saved event is the
  -- one that was saved before, if any, or is not older than the time of the bus. The heaps keep their
  -- invariants if events are read with the times that they had before the loop (that of the saved
  -- event may have been moved up). No queue joins a heap, valid rings stay valid, no null pointer
  -- comes into a listed queue, and the attached queues stay.
  pub fetch_market_lem :
      (fuel : ℕ) (w : World H P) (c : ℕ) (qs : List ℕ)
      → PipesInv w c
      → Covers w c qs
      → NoNull w qs
      → backlog w qs < fuel
      → (w' : World H P) × (fetch_market fuel w c ≡ some w') × Fetched w w' c qs
  fetch_market_lem zero w c qs good covers solid enough = absurd (omega arith)
  fetch_market_lem (suc fuel) w c qs good covers solid enough =
      elim (Bool-cases (not (pipe_is_empty w c market) && saved_event w c == null)) [
        | inr h ↦ (w, fetch_market-stop fuel w c h, stop-Fetched w c qs good solid h)
        | inl h ↦
            let (e, w1) = event_pop_from_pipe w c market in
            let some_queue = nelts_of_pipe w c market (ground arith) in
            let pop = event_pop_from_pipe_lem w c market (good market) some_queue in
            let good1 = event_pop_from_pipe-PipesInv w c market good some_queue in
            let nn = pop-event w c qs e w1 pop covers solid in
            let here = fetch_market-take fuel w c h nn in
            elim (Bool-cases ((take_market w1 c e).0)) [
              | inl again ↦
                  let w2 = round w c in
                  let (queues, heaps) = heaps-take_market w1 c e in
                  let (w', ends, f) =
                    fetch_market_lem fuel w2 c qs (again-PipesInv w1 c e again good1)
                      (λ a m.
                        pop-Covers w c qs e w1 pop covers a
                          (subst (λ h. 0 < heap.count h a) (heaps market) m))
                      (round-NoNull w c qs pop solid)
                      (omega (
                        arith,
                        backlog_same w1 w2 qs queues,
                        pop-backlog w c qs e w1 pop covers,
                      )) in
                  (w', here ∙ rw again ends, again-Fetched w w' c qs again pop f)
              | inr stop ↦ (
                round w c,
                here ∙ rw stop refl,
                last-Fetched w c qs good solid some_queue nn stop pop,
              )
            ]
      ]
