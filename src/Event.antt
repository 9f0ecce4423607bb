-- ===== src/Event.antt =====
-- src/engine/core/event.c: the table of event types, and the events with their reference counts.
-- `none` is a failed ASSERT or an access outside `event_vtable`.
pub mod Lifetime
mod Tests
use ats.Base.{
  ℕ, ◌+◌, ◌-◌, ◌%◌, ◌^◌, Bool, not, ◌&&◌, List, ◌∷◌, Option, none, some, ltb, leb, ◌==◌,
  if◌then◌else◌, u64, Status, ok, err, null, update, require, ◌>>=◌,
}
use ats.World.{Event, EventInfo, Reminder, Clock, World, Hooks, event_last}

-- True (1) for a type that is not defined.
abbrev pub check_event_type : ℕ → Bool
check_event_type type = leb event_last type

-- `sizeof` arguments and function pointers are numbers; the name is not kept.
module _ {H P : Type 0} where
  abbrev set_info : World H P → ℕ → EventInfo → World H P
  set_info w type i = record w { event_vtable = update w.event_vtable type i }

  abbrev pub set_event : World H P → ℕ → Event → World H P
  set_event w e v = record w { events = update w.events e v }

  -- `register_event`; the name is left out. The table has EVENT_LAST entries.
  unfoldable pub register_event : World H P → ℕ → ℕ → ℕ → ℕ → ℕ → Option (Status × World H P)
  register_event w type_id default_flag event_size event_destroy event_clone =
      require (ltb type_id event_last) (
        if not ((w.event_vtable type_id).event_size == 0)
        then some (err, w)
        else some (
          ok,
          set_info w type_id (record {
            event_size = event_size;
            default_flag = default_flag;
            destroy_func = event_destroy;
            clone_func = event_clone;
          }),
        ))

  unfoldable pub event_size : World H P → ℕ → Option ℕ
  event_size w type =
      require (check_event_type type)
        (require (ltb type event_last) (some (w.event_vtable type).event_size))

  -- `atomic_full_fetch_add` on a reference count: the old value, and the new state.
  abbrev fetch_add : World H P → ℕ → ℕ → ℕ × World H P
  fetch_add w e delta =
      let v = w.events e in
      (v.refcount, set_event w e (record v { refcount = u64 (v.refcount + delta) }))

  unfoldable pub event_ref : World H P → ℕ → Option (World H P)
  event_ref w e = require (not (e == null)) (some (fetch_add w e 1).1)

  -- `ats_zalloc(size)` gives the address `p`, or aborts. The bytes of the event are zero.
  unfoldable pub zalloc : World H P → ℕ → ℕ → Option (World H P)
  zalloc w p size = require (ltb 0 size && not (p == null)) (
      some (record w {
        events =
            update w.events p
              (record { refcount = 0; event_type = 0; event_flag = 0; timestamp = 0 });
        reminders = update w.reminders p (record {
          clock_type = Clock.local;
          timeout = 0;
          repeat = 0;
          ctx = null;
          start_id = 0;
        });
      }))

  unfoldable pub event_zalloc : World H P → ℕ → ℕ → Option (ℕ × World H P)
  unfolding zalloc
  event_zalloc w p type = require (not (check_event_type type)) (
      zalloc w p (w.event_vtable type).event_size >>= λ w'. some (
        p,
        set_event w' p (record (w'.events p) {
          event_type = type;
          event_flag = (w.event_vtable type).default_flag;
          refcount = 1;
        }),
      ))

  -- The copy takes over all bytes of the event, and then the count of the original is stored.
  unfoldable pub default_clone : World H P → ℕ → ℕ → Option (ℕ × World H P)
  unfolding zalloc
  default_clone w p e = zalloc w p (w.event_vtable ((w.events e).event_type)).event_size >>= λ w'.
      let copied = record w' {
        events = update w'.events p (w'.events e);
        reminders = update w'.reminders p (w'.reminders e);
      } in
      some (p, set_event copied e (record (copied.events e) { refcount = 1 }))

module _ {H P : Type 0} ⦃hooks : Hooks H P⦄ where
  unfoldable pub event_free : World H P → ℕ → World H P
  event_free w e =
      let destroy = (w.event_vtable ((w.events e).event_type)).destroy_func in
      let w' = if destroy == null then w else hooks.destroy destroy e w in
      record w' { freed = e ∷ w'.freed }

  unfoldable pub event_unref : World H P → ℕ → Option (World H P)
  event_unref w e =
      let (old, w') = fetch_add w e (2 ^ 64 - 1) in
      require (not (e == null)) (some (if old == 1 then event_free w' e else w'))

  unfoldable pub event_clone : World H P → ℕ → ℕ → Option (ℕ × World H P)
  event_clone w p e =
      let type = (w.events e).event_type in
      let clone = (w.event_vtable type).clone_func in
      require (check_event_type type && ltb type event_last)
        (if clone == null then default_clone w p e else some (hooks.clone clone e w))
