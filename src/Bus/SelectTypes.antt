-- ===== src/Bus/SelectTypes.antt =====
-- src/engine/core/event_bus.c: the types of events over a whole call of bus_dequeue.
use ats.Base.{
  ℕ, zero, suc, ◌≡◌, refl, sym, ◌∙◌, subst, Option, some, Bool, true, false, Bool-cases, inl, inr,
  not, ◌&&◌, ◌==◌, if◌then◌else◌, arith, null, leb,
}
use ats.Heap.{MinHeap}
use ats.Mpscq.{Mpscq}
use ats.Wakeup.{set_context}
use ats.World.{Category, Clock, Mode, market, execution, service, command, World}
use ats.Bus.Clocks.{bus_get_time}
use ats.Bus.Heaps.{
  timer_heap, timer_heap_pop, event_pop_from_pipe, pipe_is_empty, heap_is_empty, bus_add_queue,
  insert_queue, join_bus,
}
use ats.Bus.Dequeue.{
  fetch_market, saved_event, set_saved, hand_out_saved, simulation_select, realtime_select,
  realtime_fetch, check_pending_queue, bus_simulation_dequeue, bus_realtime_dequeue, bus_dequeue,
}
use ats.Bus.Pipes.{events-pop}
use ats.Bus.Select.{local_due, exchange_due}
use ats.Bus.Types.{
  >>=-inv, some-inv, SameTypes, SameTypes-refl, SameTypes-trans, of_events, fetch_market-SameTypes,
  timer_heap_pop-events, hand_out_saved-SameTypes,
}

-- What holds of each choice holds of the one that is taken.
choice :
    {A : Type 0}
    → (P : A → Type 0) (b1 b2 b3 b4 b5 : Bool) (x1 x2 x3 x4 x5 y : A) → P x1
    → P x2
    → P x3
    → P x4
    → P x5
    → P y
    → P (
        if b1
        then x1
        else if b2
        then x2
        else if b3
        then x3
        else if b4
        then x4
        else if b5
        then x5
        else y)
choice P true b2 b3 b4 b5 x1 x2 x3 x4 x5 y h1 h2 h3 h4 h5 h = h1
choice P false true b3 b4 b5 x1 x2 x3 x4 x5 y h1 h2 h3 h4 h5 h = h2
choice P false false true b4 b5 x1 x2 x3 x4 x5 y h1 h2 h3 h4 h5 h = h3
choice P false false false true b5 x1 x2 x3 x4 x5 y h1 h2 h3 h4 h5 h = h4
choice P false false false false true x1 x2 x3 x4 x5 y h1 h2 h3 h4 h5 h = h5
choice P false false false false false x1 x2 x3 x4 x5 y h1 h2 h3 h4 h5 h = h

one_choice :
    {A : Type 0} → (P : A → Type 0) (b : Bool) (x y : A) → P x → P y → P (if b then x else y)
one_choice P true x y h k = h
one_choice P false x y h k = k

module _ {H P : Type 0} ⦃heap : MinHeap H⦄ ⦃mpscq : Mpscq P⦄ where
  -- An answer in a state in which every event has the type that it had
  abbrev Typed : World H P → ℕ × World H P → Type 0
  Typed w r = SameTypes w (r.1)

  -- The same of a call that may fail
  abbrev TypedIf : World H P → Option (ℕ × World H P) → Type 0
  TypedIf w m = (r : ℕ × World H P) → m ≡ some r → Typed w r

  sure : (w : World H P) (x : ℕ × World H P) → Typed w x → TypedIf w (some x)
  sure w x t r e = subst (Typed w) (some-inv x r e) t

  pop-Typed : (w : World H P) (c : ℕ) (k : Category) → Typed w (event_pop_from_pipe w c k)
  pop-Typed w c k = of_events w ((event_pop_from_pipe w c k).1) (events-pop w c k)

  timer-Typed : (w : World H P) (c : ℕ) (k : Clock) → Typed w (timer_heap_pop w c k)
  timer-Typed w c k = of_events w ((timer_heap_pop w c k).1) (timer_heap_pop-events w c k)

  simulation_select-Typed : (w : World H P) (c : ℕ) → TypedIf w (simulation_select w c)
  unfolding simulation_select
  simulation_select-Typed w c =
      choice (TypedIf w) (local_due w c) (exchange_due w c) (not (pipe_is_empty w c execution))
        (not (pipe_is_empty w c service)) (not (pipe_is_empty w c command))
        (some (timer_heap_pop w c Clock.local)) (some (timer_heap_pop w c Clock.exchange))
        (some (event_pop_from_pipe w c execution)) (some (event_pop_from_pipe w c service))
        (some (event_pop_from_pipe w c command)) (hand_out_saved w c)
        (sure w _ (timer-Typed w c Clock.local)) (sure w _ (timer-Typed w c Clock.exchange))
        (sure w _ (pop-Typed w c execution)) (sure w _ (pop-Typed w c service))
        (sure w _ (pop-Typed w c command)) (hand_out_saved-SameTypes w c)

  realtime_select-Typed : (w : World H P) (c : ℕ) → Typed w (realtime_select w c)
  unfolding realtime_select
  realtime_select-Typed w c =
      let local =
        not (heap_is_empty (timer_heap w c Clock.local))
        && leb ((w.reminders (heap.min (timer_heap w c Clock.local))).timeout) (bus_get_time w c) in
      let saved : ℕ × World H P = (saved_event w c, set_saved w c null) in
      choice (Typed w) local (exchange_due w c) (not (pipe_is_empty w c execution))
        (not (pipe_is_empty w c command)) (not (pipe_is_empty w c service))
        (timer_heap_pop w c Clock.local) (timer_heap_pop w c Clock.exchange)
        (event_pop_from_pipe w c execution) (event_pop_from_pipe w c command)
        (event_pop_from_pipe w c service)
        (if not (saved_event w c == null) then saved else (null, w)) (timer-Typed w c Clock.local)
        (timer-Typed w c Clock.exchange) (pop-Typed w c execution) (pop-Typed w c command)
        (pop-Typed w c service)
        (one_choice (Typed w) (not (saved_event w c == null)) saved (null, w)
          (of_events w (set_saved w c null) refl) (SameTypes-refl w))

  realtime_fetch-SameTypes : (w : World H P) (c : ℕ) → SameTypes w (realtime_fetch w c)
  unfolding realtime_fetch
  realtime_fetch-SameTypes w c =
      let (e, w') = event_pop_from_pipe w c market in
      one_choice (SameTypes w) (not (pipe_is_empty w c market) && saved_event w c == null)
        (set_saved w' c e) w (of_events w (set_saved w' c e) (events-pop w c market))
        (SameTypes-refl w)

  bus_add_queue-events :
      (w w' : World H P) (c q : ℕ) → bus_add_queue w c q ≡ some w' → w'.events ≡ w.events
  unfolding bus_add_queue join_bus insert_queue
  bus_add_queue-events w w' c q h = ground (arith, h)

  check_pending_queue-SameTypes :
      (fuel : ℕ) (w w' : World H P) (c : ℕ)
      → check_pending_queue fuel w c ≡ some w'
      → SameTypes w w'
  unfolding check_pending_queue
  check_pending_queue-SameTypes zero w w' c h = cc
  check_pending_queue-SameTypes (suc fuel) w w' c h =
      let x = w.contexts c in
      let (q, p) = mpscq.pop x.pending_queue in
      let w0 = set_context w c (record x { pending_queue = p }) in
      let go = λ (v : World H P). check_pending_queue fuel v c in
      elim (Bool-cases (q == null)) [
        | inl last ↦
            let same : w0 ≡ w' = some-inv w0 w' (sym (rw last refl) ∙ h) in
            subst (SameTypes w) same (of_events w w0 refl)
        | inr more ↦
            let (w1, added, rest) = >>=-inv (bus_add_queue w0 c q) go w' (sym (rw more refl) ∙ h) in
            SameTypes-trans w w1 w' (of_events w w1 (bus_add_queue-events w0 w1 c q added))
              (check_pending_queue-SameTypes fuel w1 w' c rest)
      ]

  simulation-SameTypes :
      (fuel : ℕ) (w : World H P) (c : ℕ) (r : ℕ × World H P)
      → bus_simulation_dequeue fuel w c ≡ some r
      → Typed w r
  unfolding bus_simulation_dequeue
  simulation-SameTypes fuel w c r h =
      let (v, fetched, chosen) = >>=-inv (fetch_market fuel w c) (λ v. simulation_select v c) r h in
      SameTypes-trans w v (r.1) (fetch_market-SameTypes fuel w v c fetched)
        (simulation_select-Typed v c r chosen)

  realtime-SameTypes : (w : World H P) (c : ℕ) → Typed w (bus_realtime_dequeue w c)
  unfolding bus_realtime_dequeue
  realtime-SameTypes w c =
      let v = realtime_fetch w c in
      SameTypes-trans w v ((realtime_select v c).1) (realtime_fetch-SameTypes w c)
        (realtime_select-Typed v c)

  in_mode-SameTypes :
      (m : Mode) (fuel : ℕ) (w : World H P) (c : ℕ)
      → TypedIf w (elim m as (λ k. Option (ℕ × World H P)) [
        | Mode.simulation ↦ bus_simulation_dequeue fuel w c
        | Mode.realtime ↦ some (bus_realtime_dequeue w c)
      ])
  in_mode-SameTypes Mode.simulation fuel w c = λ r h. simulation-SameTypes fuel w c r h
  in_mode-SameTypes Mode.realtime fuel w c =
      sure w (bus_realtime_dequeue w c) (realtime-SameTypes w c)

  -- A search for the next event that returns leaves every event its type.
  pub bus_dequeue-SameTypes :
      (fuel : ℕ) (w : World H P) (c : ℕ) (r : ℕ × World H P)
      → bus_dequeue fuel w c ≡ some r
      → SameTypes w (r.1)
  unfolding bus_dequeue
  bus_dequeue-SameTypes fuel w c r h =
      let step = λ (v : World H P). elim ((v.contexts c).mode) as (λ m. Option (ℕ × World H P)) [
        | Mode.simulation ↦ bus_simulation_dequeue fuel v c
        | Mode.realtime ↦ some (bus_realtime_dequeue v c)
      ] in
      let (w1, taken, rest) = >>=-inv (check_pending_queue fuel w c) step r h in
      SameTypes-trans w w1 (r.1) (check_pending_queue-SameTypes fuel w w1 c taken)
        (in_mode-SameTypes ((w1.contexts c).mode) fuel w1 c r rest)
