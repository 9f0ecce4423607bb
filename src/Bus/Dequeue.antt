-- ===== src/Bus/Dequeue.antt =====
-- src/engine/core/event_bus.c: which event a bus hands out next.
use ats.Base.{
  ℕ, zero, suc, ◌+◌, Bool, not, ◌&&◌, ◌||◌, ◌∷◌, Option, none, some, ltb, leb, ◌==◌, if◌then◌else◌,
  null, require, ◌>>=◌, get_or,
}
use ats.Heap.{MinHeap}
use ats.Mpscq.{Mpscq}
use ats.World.{
  Category, Clock, World, simulation, realtime, queue_open_event, queue_close_event,
  simulator_stop_event, simulator_progress_event,
}
use ats.Event.{event_ref, set_event}
use ats.Wakeup.{set_context}
use ats.EventQueue.{event_queue_push}
use ats.Bus.Heaps.{
  timer_heap, event_is_tick, heap_is_empty, pipe_is_empty, event_pop_from_pipe, timer_heap_pop,
  bus_add_queue,
}
use ats.Bus.Clocks.{bus_get_time}

module _ {H P : Type 0} where
  abbrev pub saved_event : World H P → ℕ → ℕ
  saved_event w c = (w.contexts c).saved_event

  abbrev pub set_saved : World H P → ℕ → ℕ → World H P
  set_saved w c e = set_context w c (record (w.contexts c) { saved_event = e })

  -- Events about a queue itself, which are not passed on to attached queues.
  abbrev pub about_queue : World H P → ℕ → Bool
  about_queue w e =
      (w.events e).event_type == queue_close_event || (w.events e).event_type == queue_open_event

  abbrev pub is_progress : World H P → ℕ → Bool
  is_progress w e = (w.events e).event_type == simulator_progress_event

module _ {H P : Type 0} ⦃heap : MinHeap H⦄ where
  -- The market event `e` is off its queue: it is dropped, or saved to be handed out. The Boolean
  -- says `goto again`.
  unfoldable pub take_market : World H P → ℕ → ℕ → Bool × World H P
  take_market w c e =
      let v = w.events e in
      if v.event_type == simulator_stop_event
      then (Bool.true, set_context w c (record (w.contexts c) { is_simulator_stop = 1 }))
      else if ltb v.timestamp (bus_get_time w c)
      then (if not (about_queue w e) && not (is_progress w e)
          then (Bool.true, record w { late = e ∷ w.late })
          else (
            Bool.false,
            set_saved (set_event w e (record v { timestamp = bus_get_time w c })) c e,
          ))
      else (Bool.false, set_saved w c e)

  -- From the label `again` to `next`. Each round takes one event off a queue.
  unfoldable pub fetch_market : ℕ → World H P → ℕ → Option (World H P)
  fetch_market zero w c = none
  fetch_market (suc fuel) w c =
      let (e, w') = event_pop_from_pipe w c Category.market in
      let (again, w'') = take_market w' c e in
      let rest = fetch_market fuel w'' c in
      if not (pipe_is_empty w c Category.market) && saved_event w c == null
      then require (not (e == null)) (if again then rest else some w'')
      else some w

  -- A timer of the clock is due at the time of the saved event.
  abbrev pub due : World H P → ℕ → Clock → Bool
  due w c k =
      leb ((w.reminders (heap.min (timer_heap w c k))).timeout)
        ((w.events (saved_event w c)).timestamp)

module _ {H P : Type 0} ⦃heap : MinHeap H⦄ ⦃mpscq : Mpscq P⦄ where
  -- The loop that passes an event on to the attached queues, with `left` rounds to go.
  unfoldable pub forward : ℕ → World H P → ℕ → ℕ → ℕ → Option (World H P)
  forward zero w c e i = some w
  forward (suc left) w c e i =
      let q = get_or (w.contexts c).attached i null in
      (if about_queue w e
        then some w
        else (event_ref w e >>= λ w'. event_queue_push w' q e >>= λ r. some (r.1)))
      >>= λ w'. forward left w' c e (i + 1)

  unfoldable pub hand_out_saved : World H P → ℕ → Option (ℕ × World H P)
  unfolding forward
  hand_out_saved w c =
      let e = saved_event w c in
      if e == null
      then some (null, w)
      else forward ((w.contexts c).attached_count) (set_saved w c null) c e 0 >>= λ w'. some (e, w')

  -- From the label `next` on.
  unfoldable pub simulation_select : World H P → ℕ → Option (ℕ × World H P)
  simulation_select w c =
      if not (heap_is_empty (timer_heap w c Clock.local))
        && (not (saved_event w c == null) && due w c Clock.local)
      then some (timer_heap_pop w c Clock.local)
      else if not (heap_is_empty (timer_heap w c Clock.exchange))
          && (not (saved_event w c == null)
              && (event_is_tick w (saved_event w c) && due w c Clock.exchange))
      then some (timer_heap_pop w c Clock.exchange)
      else if not (pipe_is_empty w c Category.execution)
      then some (event_pop_from_pipe w c Category.execution)
      else if not (pipe_is_empty w c Category.service)
      then some (event_pop_from_pipe w c Category.service)
      else if not (pipe_is_empty w c Category.command)
      then some (event_pop_from_pipe w c Category.command)
      else hand_out_saved w c

  unfoldable pub bus_simulation_dequeue : ℕ → World H P → ℕ → Option (ℕ × World H P)
  bus_simulation_dequeue fuel w c = fetch_market fuel w c >>= λ w'. simulation_select w' c

  -- The market data of `bus_realtime_dequeue`.
  unfoldable pub realtime_fetch : World H P → ℕ → World H P
  realtime_fetch w c =
      let (e, w') = event_pop_from_pipe w c Category.market in
      if not (pipe_is_empty w c Category.market) && saved_event w c == null
      then set_saved w' c e
      else w

  unfoldable pub realtime_select : World H P → ℕ → ℕ × World H P
  realtime_select w c =
      if not (heap_is_empty (timer_heap w c Clock.local))
        && leb ((w.reminders (heap.min (timer_heap w c Clock.local))).timeout) (bus_get_time w c)
      then timer_heap_pop w c Clock.local
      else if not (heap_is_empty (timer_heap w c Clock.exchange))
          && (not (saved_event w c == null)
              && (event_is_tick w (saved_event w c) && due w c Clock.exchange))
      then timer_heap_pop w c Clock.exchange
      else if not (pipe_is_empty w c Category.execution)
      then event_pop_from_pipe w c Category.execution
      else if not (pipe_is_empty w c Category.command)
      then event_pop_from_pipe w c Category.command
      else if not (pipe_is_empty w c Category.service)
      then event_pop_from_pipe w c Category.service
      else if not (saved_event w c == null)
      then (saved_event w c, set_saved w c null)
      else (null, w)

  unfoldable pub bus_realtime_dequeue : World H P → ℕ → ℕ × World H P
  bus_realtime_dequeue w c = realtime_select (realtime_fetch w c) c

  -- Each round takes one queue off `pending_queue`.
  unfoldable pub check_pending_queue : ℕ → World H P → ℕ → Option (World H P)
  check_pending_queue zero w c = none
  check_pending_queue (suc fuel) w c =
      let x = w.contexts c in
      let (q, p) = mpscq.pop x.pending_queue in
      let w' = set_context w c (record x { pending_queue = p }) in
      let rest = bus_add_queue w' c q >>= λ w''. check_pending_queue fuel w'' c in
      if q == null then some w' else rest

  unfoldable pub bus_dequeue : ℕ → World H P → ℕ → Option (ℕ × World H P)
  unfolding check_pending_queue bus_simulation_dequeue bus_realtime_dequeue
  bus_dequeue fuel w c = check_pending_queue fuel w c >>= λ w'. elim ((w'.contexts c).mode) [
    | simulation ↦ bus_simulation_dequeue fuel w' c
    | realtime ↦ some (bus_realtime_dequeue w' c)
  ]
