-- ===== src/Context.antt =====
-- src/engine/core/context.c: the loop of a context. `none` is a failed ASSERT, an access out of
-- bounds, or a loop of the model that ran out of fuel.
pub mod Drain
pub mod Run
mod Tests
use ats.Base.{
  ℕ, zero, suc, ◌+◌, ◌-◌, ◌%◌, ◌^◌, Bool, not, ◌&&◌, ◌||◌, List, Option, none, some, ltb, ◌==◌,
  if◌then◌else◌, null, update, ◌>>=◌,
}
use ats.Heap.{MinHeap}
use ats.Mpscq.{Mpscq}
use ats.World.{World, Clock, Hooks}
use ats.Wakeup.{ctx_wakeup, set_context}
use ats.Bus.Heaps.{bus_timer_peek}
use ats.Bus.Dequeue.{bus_dequeue}
use ats.Bus.Attach.{bus_destroy}
use ats.Bus.Init.{Sizes, bus_init}
use ats.Dispatch.{dispatch_event, dispatcher_init, dispatcher_destroy}

-- `ctx_run_mode`
pub data RunMode : Type 0 where
  default once nowait : RunMode

abbrev pub is_nowait : RunMode → Bool
is_nowait RunMode.nowait = Bool.true
is_nowait _ = Bool.false

abbrev pub is_once : RunMode → Bool
is_once RunMode.once = Bool.true
is_once _ = Bool.false

module _ {H P : Type 0} where
  unfoldable pub ctx_stop : World H P → ℕ → World H P
  ctx_stop w c = set_context w c (record (w.contexts c) { stop_flag = 1 })

module _ {H P : Type 0} ⦃heap : MinHeap H⦄ where
  -- `r->timeout - datetime_now()`, an `int64_t` kept as its 64-bit pattern
  unfoldable pub bus_next_timeout : World H P → ℕ → ℕ
  bus_next_timeout w c =
      let r = bus_timer_peek w c Clock.local in
      if not (r == null) then (((w.reminders r).timeout + 2 ^ 64 - w.now) % 2 ^ 64) else 0

module _ {H P : Type 0} ⦃mpscq : Mpscq P⦄ where
  unfoldable pub loop_init : World H P → ℕ → World H P
  loop_init w c =
      set_context w c (record (w.contexts c) { stop_flag = 0; async_queue = mpscq.init })

  -- `node` is the address that `ats_malloc` gives.
  unfoldable pub ctx_async_post : World H P → ℕ → ℕ → ℕ → ℕ → World H P
  ctx_async_post w c node cb user_data =
      let a = record w {
        asyncs = update w.asyncs node (record { async_cb = cb; user_data = user_data });
      } in
      let x = a.contexts c in
      ctx_wakeup (set_context a c (record x { async_queue = mpscq.push x.async_queue node })) c

  -- The nodes that are popped are given back, which the model does not record.
  unfoldable pub destroy_async_queue : ℕ → World H P → ℕ → Option (World H P)
  destroy_async_queue zero w c = none
  destroy_async_queue (suc fuel) w c =
      let x = w.contexts c in
      let (node, p) = mpscq.pop x.async_queue in
      let w' = set_context w c (record x { async_queue = p }) in
      let rest = destroy_async_queue fuel w' c in if node == null then some w' else rest

  -- The mutex and the condition variable hold no state.
  unfoldable pub loop_destroy : ℕ → World H P → ℕ → Option (World H P)
  unfolding destroy_async_queue
  loop_destroy fuel w c = destroy_async_queue fuel w c

module _ {H P : Type 0} ⦃mpscq : Mpscq P⦄ ⦃hooks : Hooks H P⦄ where
  -- Step 1 of `ctx_run`. A callback may post further ones.
  unfoldable pub run_asyncs : ℕ → World H P → ℕ → Option (World H P)
  run_asyncs zero w c = none
  run_asyncs (suc fuel) w c =
      let x = w.contexts c in
      let (node, p) = mpscq.pop x.async_queue in
      let w' = set_context w c (record x { async_queue = p }) in
      let a = w'.asyncs node in
      let rest = run_asyncs fuel (hooks.async a.async_cb c a.user_data w') c in
      if node == null then some w' else rest

module _ {H P : Type 0} ⦃heap : MinHeap H⦄ ⦃mpscq : Mpscq P⦄ ⦃hooks : Hooks H P⦄ where
  -- `storage` is what `ats_malloc` returns for the ring of delayed events.
  unfoldable pub ctx_init : Sizes → World H P → ℕ → Option (List ℕ) → Option (World H P)
  ctx_init s w c storage = bus_init s (loop_init w c) c >>= λ w'. dispatcher_init w' c storage

  unfoldable pub ctx_destroy : ℕ → World H P → ℕ → Option (World H P)
  ctx_destroy fuel w c =
      dispatcher_destroy w c >>= λ w'. bus_destroy w' c >>= λ w''. loop_destroy fuel w'' c

  -- One round of the loop: callbacks, then one event. The Boolean says whether there was an event.
  unfoldable pub run_round : ℕ → World H P → ℕ → Option (Bool × World H P)
  run_round fuel w c = do
    w ← run_asyncs fuel w c
    r ← bus_dequeue fuel w c
    w ← if not (r.0 == null) then dispatch_event (r.1) c (r.0) else some (r.1)
    some (not (r.0 == null), w)

  -- `if (timeout > 0) timewait(...)`, on a signed number
  unfoldable pub wait_for_timer : World H P → ℕ → World H P
  wait_for_timer w c =
      let timeout = bus_next_timeout w c in
      if ltb 0 timeout && ltb timeout (2 ^ 63) then hooks.wait c timeout w else w

  unfoldable pub ctx_run : ℕ → World H P → ℕ → RunMode → Option (World H P)
  ctx_run zero w c mode = none
  ctx_run (suc fuel) w c mode =
      let rest = run_round fuel w c >>= λ r.
      let again = ctx_run fuel (wait_for_timer (r.1) c) c mode in
      if is_nowait mode || (is_once mode && r.0) then some (r.1) else again in
      if (w.contexts c).stop_flag == 0 then rest else some w
