-- ===== src/Context/Run.antt =====
-- src/engine/core/context.c: one round of ctx_run, from the callbacks to the event that is handed on.
use ats.Base.{
  if◌then◌else◌, ◌∙◌, false, ℕ, suc, ◌<◌, ◌≡◌, ◌≢◌, refl, sym, ap, ◌∙◌, subst, some, Bool, true,
  Bool-cases, inl, inr, not, ◌&&◌, ◌||◌, ◌==◌, arith, null, List, length, if◌then◌else◌,
}
use ats.Heap.{MinHeap}
use ats.Mpscq.{Mpscq}
use ats.World.{Hooks, World, market, event_last}
use ats.EventQueue.Destroy.{NonNull}
use ats.Bus.Heaps.{pipe_is_empty}
use ats.Bus.Dequeue.{bus_dequeue}
use ats.Bus.Round.{backlog, backlog_same}
use ats.Bus.Progress.{IsIdle}
use ats.Bus.NextEvent.{IsServing, bus_dequeue_lem}
use ats.Bus.SelectTypes.{bus_dequeue-SameTypes}
use ats.Dispatch.{dispatch_event}
use ats.Dispatch.Count.{IsQuiet}
use ats.Dispatch.Delayed.{IsTyped, KeepsTypes, dispatch_event-quiet}
use ats.Context.{RunMode, is_nowait, is_once, run_asyncs, run_round, wait_for_timer, ctx_run}
use ats.Context.Drain.{IsPassive, posted, run_asyncs_lem, IsServing-SameBus}

module _ {H P : Type 0} ⦃heap : MinHeap H⦄ ⦃mpscq : Mpscq P⦄ ⦃hooks : Hooks H P⦄ where
  -- What a context is like before a round: the functions behind pointers leave the contexts, and the
  -- callbacks also the queues and the events alone, types of events are below EVENT_LAST, no callback
  -- has the address NULL, and the bus can be searched.
  pub record IsReady (w : World H P) (c : ℕ) (qs : List ℕ) : Type 0 where
    pub passive : IsPassive hooks
    pub quiet : IsQuiet hooks
    pub keeps : KeepsTypes hooks
    pub typed : IsTyped w
    pub callbacks : NonNull (posted w c)
    pub serving : IsServing w c qs

  -- Enough for the loops of a round: more than there are callbacks, waiting queues, and events.
  pub record IsEnough (fuel : ℕ) (w : World H P) (c : ℕ) (qs : List ℕ) : Type 0 where
    pub asyncs : length (posted w c) < fuel
    pub pending : length (mpscq.nodes (w.contexts c).pending_queue) < fuel
    pub events : backlog w qs < fuel

  -- A round, in parts: the callbacks gave `w1`, the search for an event `e` in the state `w2`, and the
  -- dispatch the state `w3`.
  pub record Round (fuel : ℕ) (w : World H P) (c : ℕ) (e : ℕ) (w3 : World H P) : Type 0 where
    pub w1 : World H P
    pub w2 : World H P
    pub called : run_asyncs fuel w c ≡ some w1
    pub drained : posted w1 c ≡ List.[]
    pub searched : bus_dequeue fuel w1 c ≡ some (e, w2)
    pub idle : e ≡ null → (pipe_is_empty w2 c market ≡ true) × IsIdle w2 c × (w3 ≡ w2)
    pub handed : e ≢ null → dispatch_event w2 c e ≡ some w3

  -- The last step of a round
  deliver :
      (w : World H P) (c e : ℕ)
      → IsQuiet hooks
      → KeepsTypes hooks
      → IsTyped w
      → (w' : World H P) × ((if not (e == null) then dispatch_event w c e else some w) ≡ some w')
        × (e ≡ null → w' ≡ w)
        × (e ≢ null → dispatch_event w c e ≡ some w')
  deliver w c e quiet keeps typed = elim (Bool-cases (e == null)) [
    | inl h ↦ (w, rw h refl, λ p. refl, λ p. absurd (p (ground arith)))
    | inr h ↦
        let (w', done, _, _) = dispatch_event-quiet w c e quiet keeps typed in
        (w', rw h done, λ p. ground arith, λ p. done)
  ]

  run_round_lem :
      (fuel : ℕ) (w : World H P) (c : ℕ) (qs : List ℕ)
      → IsReady w c qs
      → IsEnough fuel w c qs
      → (e : ℕ) × (w3 : World H P) × (run_round fuel w c ≡ some (not (e == null), w3))
        × Round fuel w c e w3
  unfolding run_round
  run_round_lem fuel w c qs ready enough =
      let (w1, called, drained, same) =
        run_asyncs_lem (posted w c) fuel w c ready.passive refl ready.callbacks enough.asyncs in
      let rounds : length (mpscq.nodes (w1.contexts c).pending_queue) < fuel =
        subst (λ p. length (mpscq.nodes p) < fuel) (sym same.pending) enough.pending in
      let left : backlog w1 qs < fuel =
        omega (arith, backlog_same w w1 qs same.queues, enough.events) in
      let (r, searched, idle) =
        bus_dequeue_lem fuel w1 c qs (IsServing-SameBus w w1 c qs same ready.serving) rounds left in
      let types = bus_dequeue-SameTypes fuel w1 c r searched in
      let typed : IsTyped (r.1) = λ a.
        subst (λ (n : ℕ). n < event_last) (sym (types a ∙ ap (λ g. (g a).event_type) same.events))
          (ready.typed a) in
      let (w3, delivered, unchanged, handed) =
        deliver (r.1) c (r.0) ready.quiet ready.keeps typed in
      (
        r.0,
        w3,
        rw (called, searched) (rw delivered refl),
        record {
          w1 = w1;
          w2 = r.1;
          called = called;
          drained = drained;
          searched = searched;
          idle = λ p. ((idle p).0, (idle p).1, unchanged p);
          handed = handed;
        },
      )

  run_returns :
      (fuel : ℕ) (w w3 : World H P) (c : ℕ) (mode : RunMode) (found : Bool)
      → (w.contexts c).stop_flag ≡ 0
      → run_round fuel w c ≡ some (found, w3)
      → (is_nowait mode || (is_once mode && found)) ≡ true
      → ctx_run (suc fuel) w c mode ≡ some w3
  unfolding ctx_run
  run_returns fuel w w3 c mode found on round done = rw (on, round) (rw done refl)

  run_goes_on :
      (fuel : ℕ) (w w3 : World H P) (c : ℕ) (mode : RunMode) (found : Bool)
      → (w.contexts c).stop_flag ≡ 0
      → run_round fuel w c ≡ some (found, w3)
      → (is_nowait mode || (is_once mode && found)) ≡ false
      → ctx_run (suc fuel) w c mode ≡ ctx_run fuel (wait_for_timer w3 c) c mode
  unfolding ctx_run
  run_goes_on fuel w w3 c mode found on round more = rw (on, round) (rw more refl)

  -- A context that is not stopped makes a round to its end: the loop of the callbacks ends with none
  -- left, `bus_dequeue` answers, an event that it gives is dispatched, and it gives none only if the
  -- bus is idle. `ctx_run` then returns in the mode NOWAIT, and in the mode ONCE if there was an
  -- event; else it goes on with the next round from the state that `wait_for_timer` leaves. (The
  -- functions behind pointers leave the contexts, the callbacks also the queues and the events alone;
  -- the types of events are below EVENT_LAST and stay so; no callback is NULL; the bus can be searched
  -- as for `bus_dequeue`; and the fuel is more than the callbacks, the waiting queues and the events.)
  pub ctx_run_lem :
      (fuel : ℕ) (w : World H P) (c : ℕ) (qs : List ℕ)
      → (w.contexts c).stop_flag ≡ 0
      → IsReady w c qs
      → IsEnough fuel w c qs
      → (e : ℕ) × (w3 : World H P) × Round fuel w c e w3
        × (ctx_run (suc fuel) w c RunMode.nowait ≡ some w3)
        × (ctx_run (suc fuel) w c RunMode.once
            ≡ (if e == null then ctx_run fuel (wait_for_timer w3 c) c RunMode.once else some w3))
        × (ctx_run (suc fuel) w c RunMode.default
            ≡ ctx_run fuel (wait_for_timer w3 c) c RunMode.default)
  ctx_run_lem fuel w c qs on ready enough =
      let (e, w3, done, round) = run_round_lem fuel w c qs ready enough in
      let once : ctx_run (suc fuel) w c RunMode.once
          ≡ (if e == null then ctx_run fuel (wait_for_timer w3 c) c RunMode.once else some w3) =
        elim (Bool-cases (e == null)) [
          | inl h ↦
              run_goes_on fuel w w3 c RunMode.once (not (e == null)) on done (rw h refl) ∙ rw h refl
          | inr h ↦
              run_returns fuel w w3 c RunMode.once (not (e == null)) on done (rw h refl) ∙ rw h refl
        ] in
      (
        e,
        w3,
        round,
        run_returns fuel w w3 c RunMode.nowait (not (e == null)) on done refl,
        once,
        run_goes_on fuel w w3 c RunMode.default (not (e == null)) on done refl,
      )
