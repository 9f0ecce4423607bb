-- ===== src/Bus/Init.antt =====
-- src/engine/core/event_bus.c: setting up a bus.
use ats.Base.{ℕ, Option, some, ◌>>=◌, null, replicate}
use ats.Heap.{MinHeap}
use ats.Mpscq.{Mpscq}
use ats.World.{
  World, simulation, reminder_event, ask_event, bid_event, trade_event, queue_open_event,
  queue_close_event, simulator_start_event, simulator_stop_event, simulator_progress_event,
  tick_mask,
}
use ats.Event.{register_event}
use ats.Wakeup.{set_context}
use ats.Bus.Attach.{max_attached}

-- `sizeof` of the event structs: a reminder, a tick (an ask or a bid), a trade, and one of the
-- other events, with or without a queue.
pub record Sizes : Type 0 where
  pub reminder : ℕ
  pub tick : ℕ
  pub trade : ℕ
  pub queue : ℕ
  pub simulator : ℕ

-- `MIN_DATE_TIME` of src/engine/base/datetime.h
abbrev pub min_date_time : ℕ
min_date_time = 0

module _ {H P : Type 0} where
  -- A registration whose status is not looked at.
  abbrev pub registered : World H P → ℕ → ℕ → ℕ → Option (World H P)
  registered w type flag size = register_event w type flag size null null >>= λ r. some (r.1)

  unfoldable pub events_register : Sizes → World H P → Option (World H P)
  events_register s w = do
    w ← registered w reminder_event 0 s.reminder
    w ← registered w ask_event tick_mask s.tick
    w ← registered w bid_event tick_mask s.tick
    w ← registered w trade_event tick_mask s.trade
    w ← registered w queue_open_event 0 s.queue
    w ← registered w queue_close_event 0 s.queue
    w ← registered w simulator_start_event 0 s.simulator
    w ← registered w simulator_stop_event 0 s.simulator
    registered w simulator_progress_event 0 s.simulator

module _ {H P : Type 0} ⦃heap : MinHeap H⦄ ⦃mpscq : Mpscq P⦄ where
  unfoldable pub bus_init : Sizes → World H P → ℕ → Option (World H P)
  unfolding events_register
  bus_init s w c = events_register s (
      set_context w c (record (w.contexts c) {
        mode = simulation;
        pending_queue = mpscq.init;
        queue_heap = λ k. heap.init;
        timer_heap = λ k. heap.init;
        time = λ k. min_date_time;
        counter = 1;
        saved_event = null;
        is_simulator_stop = 0;
        attached = replicate max_attached null;
        attached_count = 0;
        event_count = 0;
      }))
