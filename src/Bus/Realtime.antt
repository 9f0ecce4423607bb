-- ===== src/Bus/Realtime.antt =====
-- src/engine/core/event_bus.c: bus_realtime_dequeue as a whole.
use ats.Base.{
  ℕ, ◌<◌, ◌≡◌, ◌≢◌, refl, sym, ap, ◌∙◌, subst, Bool, Bool-cases, true, false, not, ◌==◌, ◌&&◌,
  if◌then◌else◌, arith, null, inl, inr, List, leb,
}
use ats.Heap.{MinHeap}
use ats.Mpscq.{Mpscq}
use ats.World.{Category, Clock, market, execution, service, command, World}
use ats.Bus.Heaps.{
  queue_heap, timer_heap, event_pop_from_pipe, timer_heap_pop, pipe_is_empty, heap_is_empty,
}
use ats.Bus.Clocks.{bus_get_time}
use ats.Bus.Dequeue.{saved_event, set_saved, realtime_fetch, realtime_select, bus_realtime_dequeue}
use ats.Bus.Pipe.{IsQueued-of_queues}
use ats.Bus.Pop.{event_pop_from_pipe_lem}
use ats.Bus.Pipes.{PipesInv, event_pop_from_pipe-PipesInv}
use ats.Bus.Round.{nelts_of_pipe, count_in, NoNull, pop-NoNull, pop-event}
use ats.Bus.Fetch.{pop-fewer}
use ats.Bus.Select.{exchange_due}
use ats.Bus.Progress.{Stocked, IsIdle, pop-ne_null, timer-ne_null}

-- The first of several choices whose answer is null is the last one.
last_choice :
    {A : Type 0}
    → (b1 b2 b3 b4 b5 b6 : Bool) (x1 x2 x3 x4 x5 x6 y : ℕ × A) → (b1 ≡ true → x1.0 ≢ null)
    → (b2 ≡ true → x2.0 ≢ null)
    → (b3 ≡ true → x3.0 ≢ null)
    → (b4 ≡ true → x4.0 ≢ null)
    → (b5 ≡ true → x5.0 ≢ null)
    → (b6 ≡ true → x6.0 ≢ null)
    → let r =
        if b1
        then x1
        else if b2
        then x2
        else if b3
        then x3
        else if b4
        then x4
        else if b5
        then x5
        else if b6
        then x6
        else y in
      r.0 ≡ null → (r ≡ y) × (b3 ≡ false) × (b4 ≡ false) × (b5 ≡ false) × (b6 ≡ false)
last_choice true b2 b3 b4 b5 b6 x1 x2 x3 x4 x5 x6 y h1 h2 h3 h4 h5 h6 z = absurd (h1 refl z)
last_choice false true b3 b4 b5 b6 x1 x2 x3 x4 x5 x6 y h1 h2 h3 h4 h5 h6 z = absurd (h2 refl z)
last_choice false false true b4 b5 b6 x1 x2 x3 x4 x5 x6 y h1 h2 h3 h4 h5 h6 z = absurd (h3 refl z)
last_choice false false false true b5 b6 x1 x2 x3 x4 x5 x6 y h1 h2 h3 h4 h5 h6 z =
    absurd (h4 refl z)
last_choice false false false false true b6 x1 x2 x3 x4 x5 x6 y h1 h2 h3 h4 h5 h6 z =
    absurd (h5 refl z)
last_choice false false false false false true x1 x2 x3 x4 x5 x6 y h1 h2 h3 h4 h5 h6 z =
    absurd (h6 refl z)
last_choice false false false false false false x1 x2 x3 x4 x5 x6 y h1 h2 h3 h4 h5 h6 z =
    (refl, refl, refl, refl, refl)

module _ {H P : Type 0} ⦃heap : MinHeap H⦄ ⦃mpscq : Mpscq P⦄ where
  realtime_select-IsIdle :
      (w : World H P) (c : ℕ) (qs : List ℕ)
      → Stocked w c qs
      → (realtime_select w c).0 ≡ null
      → ((realtime_select w c).1 ≡ w) × IsIdle w c
  unfolding realtime_select
  realtime_select-IsIdle w c qs stock z =
      let local =
        not (heap_is_empty (timer_heap w c Clock.local))
        && leb ((w.reminders (heap.min (timer_heap w c Clock.local))).timeout) (bus_get_time w c) in
      let (same, a, b, d, s) =
        last_choice local (exchange_due w c) (not (pipe_is_empty w c execution))
          (not (pipe_is_empty w c command)) (not (pipe_is_empty w c service))
          (not (saved_event w c == null)) (timer_heap_pop w c Clock.local)
          (timer_heap_pop w c Clock.exchange) (event_pop_from_pipe w c execution)
          (event_pop_from_pipe w c command) (event_pop_from_pipe w c service)
          (saved_event w c, set_saved w c null) (null, w)
          (λ h. timer-ne_null w c Clock.local (ground arith))
          (λ h. timer-ne_null w c Clock.exchange (ground arith))
          (pop-ne_null w c execution qs stock) (pop-ne_null w c command qs stock)
          (pop-ne_null w c service qs stock) (λ h p. ground (arith, p)) z in
      (
        ap (λ r. r.1) same,
        record {
          execution_empty = ground arith;
          service_empty = ground arith;
          command_empty = ground arith;
          nothing_saved = ground arith;
        },
      )

  realtime_fetch-keep :
      (w : World H P) (c : ℕ)
      → (not (pipe_is_empty w c market) && saved_event w c == null) ≡ false
      → realtime_fetch w c ≡ w
  unfolding realtime_fetch
  realtime_fetch-keep w c h = rw h refl

  -- Where the market event is fetched, one is saved.
  realtime_fetch-pop :
      (w : World H P) (c : ℕ)
      → (not (pipe_is_empty w c market) && saved_event w c == null) ≡ true
      → let (e, w') = event_pop_from_pipe w c market in realtime_fetch w c ≡ set_saved w' c e
  unfolding realtime_fetch
  realtime_fetch-pop w c h = rw h refl

  -- What is left in stock when a market event has been taken out.
  popped-Stocked :
      (w : World H P) (c : ℕ) (qs : List ℕ)
      → PipesInv w c
      → ((k : Category) (a : ℕ) → 0 < heap.count (queue_heap w c k) a → 0 < count_in qs a)
      → NoNull w qs
      → pipe_is_empty w c market ≡ false
      → let (e, w') = event_pop_from_pipe w c market in Stocked (set_saved w' c e) c qs × (e ≢ null)
  popped-Stocked w c qs good covers solid h =
      let (e, w') = event_pop_from_pipe w c market in
      let some_queue = nelts_of_pipe w c market h in
      let pop = event_pop_from_pipe_lem w c market (good market) some_queue in
      let good' = event_pop_from_pipe-PipesInv w c market good some_queue in
      let heaps : (k : Category) → queue_heap (set_saved w' c e) c k ≡ queue_heap w' c k =
        λ k. ground arith in
      (
        record {
          queued = λ k a m.
              IsQueued-of_queues w' (set_saved w' c e) c k a refl
                ((good' k).members a (subst (λ h. 0 < heap.count h a) (heaps k) m));
          covered = λ k a m.
              covers k a
                (omega (arith, pop-fewer w c pop k a, subst (λ h. 0 < heap.count h a) (heaps k) m));
          solid = pop-NoNull w c qs e w' pop solid;
        },
        pop-event w c qs e w' pop (covers market) solid,
      )

  -- `bus_realtime_dequeue` answers NULL only if no queue of the bus holds an event and no market event
  -- is saved.
  pub bus_realtime_dequeue_lem :
      (w : World H P) (c : ℕ) (qs : List ℕ)
      → PipesInv w c
      → ((k : Category) (a : ℕ) → 0 < heap.count (queue_heap w c k) a → 0 < count_in qs a)
      → NoNull w qs
      → let r = bus_realtime_dequeue w c in
        r.0 ≡ null → (pipe_is_empty (r.1) c market ≡ true) × IsIdle (r.1) c
  unfolding bus_realtime_dequeue
  bus_realtime_dequeue_lem w c qs good covers solid z =
      elim (Bool-cases (not (pipe_is_empty w c market) && saved_event w c == null)) [
        | inl h ↦
            let (e, w') = event_pop_from_pipe w c market in
            let fetched = realtime_fetch-pop w c h in
            let (stock, nn) = popped-Stocked w c qs good covers solid (ground arith) in
            let (_, idle) =
              realtime_select-IsIdle (set_saved w' c e) c qs stock
                (subst (λ v. (realtime_select v c).0 ≡ null) fetched z) in
            let kept : saved_event (set_saved w' c e) c ≡ e = ground arith in
            absurd (nn (sym kept ∙ idle.nothing_saved))
        | inr h ↦
            let fetched = realtime_fetch-keep w c h in
            let (same, idle) =
              realtime_select-IsIdle w c qs
                (record { queued = λ k a m. (good k).members a m; covered = covers; solid = solid })
                (subst (λ v. (realtime_select v c).0 ≡ null) fetched z) in
            let empty : pipe_is_empty w c market ≡ true = ground (arith, idle.nothing_saved) in
            let all : (realtime_select (realtime_fetch w c) c).1 ≡ w =
              subst (λ v. (realtime_select v c).1 ≡ w) (sym fetched) same in
            subst (λ v. (pipe_is_empty v c market ≡ true) × IsIdle v c) (sym all) (empty, idle)
      ]
