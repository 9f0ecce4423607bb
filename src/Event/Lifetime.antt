-- ===== src/Event/Lifetime.antt =====
-- src/engine/core/event.c: how long an event lives, and what copying one does.
use ats.Base.{
  ℕ, zero, suc, ◌+◌, ◌^◌, ◌<◌, ◌≡◌, ◌≢◌, refl, none, some, Option, ◌>>=◌, update, arith, null,
}
use ats.World.{event_last, Clock, World, Hooks}
use ats.Event.{event_size, event_ref, event_unref, event_free, zalloc, default_clone, event_clone}

module _ {H P : Type 0} where
  -- The state with another count of the event.
  abbrev counted : World H P → ℕ → ℕ → World H P
  counted w e n = record w { events = update w.events e (record (w.events e) { refcount = n }) }

  zalloc_lem :
      (w : World H P) (p size : ℕ)
      → p ≢ null
      → 0 < size
      → (v : World H P) × (zalloc w p size ≡ some v) × ((a : ℕ) → p ≢ a → v.events a ≡ w.events a)
  unfolding zalloc
  zalloc_lem w p size nn pos = (
    record w {
      events =
          update w.events p
            (record { refcount = 0; event_type = 0; event_flag = 0; timestamp = 0 });
      reminders =
          update w.reminders p (record {
            clock_type = Clock.local;
            timeout = 0;
            repeat = 0;
            ctx = null;
            start_id = 0;
          });
    },
    ground arith,
    λ a h. ground arith,
  )

  -- `default_clone` into other memory than the original's: the copy takes over the count of the
  -- original, and the original's count becomes 1, whatever it was.
  default_clone-counts :
      (w : World H P) (p e : ℕ)
      → p ≢ null
      → p ≢ e
      → 0 < (w.event_vtable ((w.events e).event_type)).event_size
      → (w' : World H P) × (default_clone w p e ≡ some (p, w'))
        × ((w'.events p).refcount ≡ (w.events e).refcount)
        × ((w'.events e).refcount ≡ 1)
  unfolding default_clone
  default_clone-counts w p e nn ne size =
      let (v, there, kept) = zalloc_lem w p _ nn size in
      (
        counted
            (record v {
              events = update v.events p (v.events e);
              reminders = update v.reminders p (v.reminders e);
            })
            e 1,
        rw there refl,
        ground (arith, kept e ne),
        ground arith,
      )

module _ {H P : Type 0} ⦃hooks : Hooks H P⦄ where
  -- The assertions of `event_size` and `event_clone` fail for every type of the table.
  event_size-none :
      (w : World H P) (type p e : ℕ)
      → type < event_last
      → (w.events e).event_type < event_last
      → (event_size w type ≡ none) × (event_clone w p e ≡ none)
  unfolding event_size event_clone
  event_size-none w type p e t u = (ground (arith, t), ground (arith, u))

  -- For a type below EVENT_LAST `event_size` and `event_clone` fail their assertions. `default_clone`
  -- into other memory than the original's, for an event of a type with a size, gives a copy that takes
  -- over the count of the original, and sets the original's count to 1, whatever it was.
  pub default_clone_lem :
      (w : World H P) (type p e : ℕ)
      → type < event_last
      → (w.events e).event_type < event_last
      → p ≢ null
      → p ≢ e
      → 0 < (w.event_vtable ((w.events e).event_type)).event_size
      → ((event_size w type ≡ none) × (event_clone w p e ≡ none))
        × ((w' : World H P) × (default_clone w p e ≡ some (p, w'))
            × ((w'.events p).refcount ≡ (w.events e).refcount)
            × ((w'.events e).refcount ≡ 1))
  default_clone_lem w type p e t u nn ne size =
      (event_size-none w type p e t u, default_clone-counts w p e nn ne size)

  -- One more reference and one less leave every event as it was, and free none, if the event has a
  -- reference and its count does not overflow.
  pub event_unref-ref :
      (w : World H P) (e : ℕ)
      → e ≢ null
      → 0 < (w.events e).refcount
      → (w.events e).refcount + 1 < 2 ^ 64
      → (w' : World H P) × ((event_ref w e >>= λ v. event_unref v e) ≡ some w')
        × ((a : ℕ) → w'.events a ≡ w.events a)
        × (w'.freed ≡ w.freed)
  unfolding event_ref event_unref
  event_unref-ref w e nn pos small = (
    counted (counted w e ((w.events e).refcount + 1)) e (w.events e).refcount,
    ground arith,
    λ a. ground arith,
    refl,
  )

  -- `n` calls of `event_unref`
  abbrev pub unref_times : ℕ → World H P → ℕ → Option (World H P)
  unref_times zero w e = some w
  unref_times (suc n) w e = event_unref w e >>= λ w'. unref_times n w' e

  -- An event with the count `n + 1` outlives `n` calls of `event_unref`, after which its count is 1,
  -- and the next one frees it.
  pub unref_times-free :
      (n : ℕ) (w : World H P) (e : ℕ)
      → e ≢ null
      → n + 1 < 2 ^ 64
      → (w.events e).refcount ≡ n + 1
      → (w' : World H P) × (unref_times n w e ≡ some w')
        × (w'.freed ≡ w.freed)
        × ((w'.events e).refcount ≡ 1)
        × (w'' : World H P) × (event_unref w' e ≡ some (event_free w'' e))
  unfolding event_unref
  unref_times-free zero w e nn small one = (w, refl, refl, one, counted w e 0, ground arith)
  unref_times-free (suc n) w e nn small count =
      let w' = counted w e (n + 1) in
      let rest = unref_times-free n w' e nn (omega arith) (ground arith) in
      (rest.0, ground (arith, rest.1), rest.2, rest.3, rest.4, rest.5)
