-- ===== src/Bus/Time.antt =====
-- src/engine/core/event_bus.c: setting and reading the clocks of a bus.
use ats.Base.{◌<◌, ℕ, ◌≡◌, ◌≤◌, ◌⊎◌, arith, ok, err}
use ats.World.{World, simulation, realtime}
use ats.Bus.Clocks.{bus_get_time, bus_set_time, bus_get_exchange_time, bus_set_exchange_time}

module _ {H P : Type 0} where
  -- Each of the two clocks is set, with the answer 0, to a time that is not before its own, the local
  -- one in a simulation only; for any other time, and for the local clock in real time, the answer is
  -- -1 and nothing changes. Setting one clock leaves the other.
  pub clocks_lem :
      (w : World H P) (c t : ℕ)
      → (let (r, w') = bus_set_time w c t in
          ((((w.contexts c).mode ≡ simulation)
              × (bus_get_time w c ≤ t)
              × (r ≡ ok)
              × (bus_get_time w' c ≡ t))
            ⊎ ((((w.contexts c).mode ≡ realtime) ⊎ (t < bus_get_time w c)) × (r ≡ err) × (w' ≡ w)))
          × (bus_get_exchange_time w' c ≡ bus_get_exchange_time w c))
        × (let (r, w') = bus_set_exchange_time w c t in
            (((bus_get_exchange_time w c ≤ t) × (r ≡ ok) × (bus_get_exchange_time w' c ≡ t))
              ⊎ ((t < bus_get_exchange_time w c) × (r ≡ err) × (w' ≡ w)))
            × (bus_get_time w' c ≡ bus_get_time w c))
  unfolding bus_set_time bus_set_exchange_time bus_get_time bus_get_exchange_time
  clocks_lem w c t = (ground arith, ground arith)
