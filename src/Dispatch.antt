-- ===== src/Dispatch.antt =====
-- src/engine/core/event_dispatch.c: handing an event to its handler. `none` is a failed ASSERT, an
-- access out of bounds, or a loop of the model that ran out of fuel.
pub mod Count
pub mod Repeat
pub mod Delayed
mod Tests
use ats.Base.{
  ℕ, zero, suc, ◌+◌, ◌-◌, ◌%◌, ◌^◌, Bool, not, List, Option, none, some, ltb, ◌==◌, if◌then◌else◌,
  u64, null, update, require, ◌>>=◌, Status,
}
use ats.Spscq
use ats.Spscq.{Spscq}
use ats.World.{World, Context, Hooks, event_last}
use ats.Event.{event_unref}
use ats.Wakeup.{set_context}

module _ {H P : Type 0} where
  abbrev pub set_buffed : World H P → ℕ → Spscq → World H P
  set_buffed w c s = set_context w c (record (w.contexts c) { buffed_event_queue = s })

  -- The result of `spscq_init` is not looked at. The table of handlers and the filter keep what the
  -- memory held. `storage` is what `ats_malloc` returns.
  unfoldable pub dispatcher_init : World H P → ℕ → Option (List ℕ) → Option (World H P)
  dispatcher_init w c storage =
      Spscq.init (w.contexts c).buffed_event_queue storage 102400 >>= λ r. some (set_buffed w c r.1)

  unfoldable pub dispatcher_destroy : World H P → ℕ → Option (World H P)
  dispatcher_destroy w c =
      Spscq.destroy (w.contexts c).buffed_event_queue >>= λ s. some (set_buffed w c s)

  unfoldable pub dispatcher_set_event_dispatch : World H P → ℕ → ℕ → ℕ → Option (ℕ × World H P)
  dispatcher_set_event_dispatch w c type dispatch =
      let x = w.contexts c in
      require (ltb type event_last) (
        some (
          x.event_handle_table type,
          set_context w c
              (record x { event_handle_table = update x.event_handle_table type dispatch }),
        ))

  unfoldable pub dispatcher_set_event_filter : World H P → ℕ → ℕ → ℕ × World H P
  dispatcher_set_event_filter w c filter =
      let x = w.contexts c in (x.event_filter, set_context w c (record x { event_filter = filter }))

  unfoldable pub delay_dispatch_event : World H P → ℕ → ℕ → Status × World H P
  delay_dispatch_event w c e =
      let (ret, s) = Spscq.push (w.contexts c).buffed_event_queue e in (ret, set_buffed w c s)

  -- `ctx->dispatch_reentrant_count += delta`, a `long` kept as its 64-bit pattern
  abbrev pub add_reentrant : World H P → ℕ → ℕ → World H P
  add_reentrant w c delta =
      let x = w.contexts c in
      set_context w c
        (record x { dispatch_reentrant_count = u64 (x.dispatch_reentrant_count + delta) })

module _ {H P : Type 0} ⦃hooks : Hooks H P⦄ where
  unfoldable pub filter_event : World H P → ℕ → ℕ → ℕ × World H P
  filter_event w c e =
      let filter = (w.contexts c).event_filter in
      if not (filter == null) then hooks.filter filter e w else (e, w)

  unfoldable pub handle_event : World H P → ℕ → ℕ → Option (World H P)
  handle_event w c e =
      let type = (w.events e).event_type in
      let dispatcher = (w.contexts c).event_handle_table type in
      require (ltb type event_last)
        (some (if not (dispatcher == null) then hooks.handle dispatcher c e w else w))

  -- A filter that returns NULL ends the call at once.
  unfoldable pub dispatch_event : World H P → ℕ → ℕ → Option (World H P)
  unfolding filter_event handle_event
  dispatch_event w c e =
      let (e', w') = filter_event (add_reentrant w c 1) c e in
      if e' == null
      then some w'
      else handle_event w' c e' >>= λ w''.
          event_unref w'' e' >>= λ w3. some (add_reentrant w3 c (2 ^ 64 - 1))

  -- A handler may add events while the loop runs.
  unfoldable pub emit_delayed_events : ℕ → World H P → ℕ → Option (World H P)
  emit_delayed_events zero w c = none
  emit_delayed_events (suc fuel) w c =
      let (e, s) = Spscq.pop (w.contexts c).buffed_event_queue in
      let w' = set_buffed w c s in
      let rest = dispatch_event w' c e >>= λ w''. emit_delayed_events fuel w'' c in
      if e == null then some w' else rest
