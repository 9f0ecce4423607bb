-- ===== src/Wakeup.antt =====
-- How a producer tells a bus of a queue: `bus_async_add_queue` of src/engine/core/event_bus.c and
-- `ctx_wakeup` of src/engine/core/context.c.
use ats.Base.{ℕ, ◌+◌, update}
use ats.World.{Context, World}
use ats.Mpscq.{Mpscq}

module _ {H P : Type 0} where
  abbrev pub set_context : World H P → ℕ → Context H P → World H P
  set_context w c x = record w { contexts = update w.contexts c x }

  -- `uv_cond_signal` wakes a thread that waits; here it is counted.
  unfoldable pub ctx_wakeup : World H P → ℕ → World H P
  ctx_wakeup w c = set_context w c (record (w.contexts c) { wakeups = (w.contexts c).wakeups + 1 })

module _ {H P : Type 0} ⦃mpscq : Mpscq P⦄ where
  unfoldable pub bus_async_add_queue : World H P → ℕ → ℕ → World H P
  unfolding ctx_wakeup
  bus_async_add_queue w c q =
      let x = w.contexts c in
      ctx_wakeup (set_context w c (record x { pending_queue = mpscq.push x.pending_queue q })) c
