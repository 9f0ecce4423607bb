-- ===== src/Bus/Clocks.antt =====
-- src/engine/core/event_bus.c: the two clocks of a bus.
use ats.Base.{ℕ, Status, ok, err, ltb, if◌then◌else◌, ◌==◌}
use ats.World.{World, Clock, simulation, realtime, clock_index}
use ats.Wakeup.{set_context}

module _ {H P : Type 0} where
  abbrev pub set_time : World H P → ℕ → Clock → ℕ → World H P
  set_time w c k t = set_context w c (record (w.contexts c) {
    time = λ j. if clock_index k == clock_index j then t else (w.contexts c).time j;
  })

  -- `datetime_now()` is the reading `now`.
  unfoldable pub bus_get_time : World H P → ℕ → ℕ
  bus_get_time w c = elim ((w.contexts c).mode) [
    | simulation ↦ (w.contexts c).time Clock.local
    | realtime ↦ w.now
  ]

  unfoldable pub bus_set_time : World H P → ℕ → ℕ → Status × World H P
  bus_set_time w c t = elim ((w.contexts c).mode) [
    | realtime ↦ (err, w)
    | simulation ↦
        if ltb t ((w.contexts c).time Clock.local)
        then (err, w)
        else (ok, set_time w c Clock.local t)
  ]

  unfoldable pub bus_get_exchange_time : World H P → ℕ → ℕ
  bus_get_exchange_time w c = (w.contexts c).time Clock.exchange

  unfoldable pub bus_set_exchange_time : World H P → ℕ → ℕ → Status × World H P
  bus_set_exchange_time w c t =
      if ltb t ((w.contexts c).time Clock.exchange)
      then (err, w)
      else (ok, set_time w c Clock.exchange t)
