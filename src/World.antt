-- ===== src/World.antt =====
-- The state of the engine: the structs of src/engine/core/event.h, event_queue.h, event_bus.h,
-- event_dispatch.h and context.h, and the memory that holds them. A pointer is a number. `H` is the
-- type of a heap and `P` that of a multiple-producer queue.
use ats.Base.{ℕ, List}
use ats.Spscq.{Spscq}

-- `event_t`. The reference count is an `intptr_t`, kept as its 64-bit pattern.
pub record Event : Type 0 where
  pub refcount : ℕ
  pub event_type : ℕ
  pub event_flag : ℕ
  pub timestamp : ℕ

-- `clock_type`
pub data Clock : Type 0 where
  local exchange : Clock

-- `queue_category`
pub data Category : Type 0 where
  market execution service command : Category

-- `bus_mode`
pub data Mode : Type 0 where
  simulation realtime : Mode

abbrev pub clock_index : Clock → ℕ
clock_index Clock.local = 0
clock_index Clock.exchange = 1

abbrev pub category_index : Category → ℕ
category_index Category.market = 0
category_index Category.execution = 1
category_index Category.service = 2
category_index Category.command = 3

-- The fields of `reminder_event_t` behind those of `event_t`. `callback` and `user_data` are only
-- carried along.
pub record Reminder : Type 0 where
  pub clock_type : Clock
  pub timeout : ℕ
  pub repeat : ℕ
  pub ctx : ℕ
  pub start_id : ℕ

-- `event_queue_t`; its address stands for its `mpsc_node` and its `heap_node`.
pub record EventQueue : Type 0 where
  pub refcount : ℕ
  pub spsc : Spscq
  pub ctx : ℕ
  pub category : Category
  pub start_id : ℕ

-- `event_info_t`, an entry of `event_vtable`. A function pointer is a number, NULL is 0.
pub record EventInfo : Type 0 where
  pub event_size : ℕ
  pub default_flag : ℕ
  pub destroy_func : ℕ
  pub clone_func : ℕ

-- `async_t`
pub record Async : Type 0 where
  pub async_cb : ℕ
  pub user_data : ℕ

-- `ctx_t`: its own fields, EVENT_BUS_FIELDS and DISPATCHER_FIELDS. `attached` is the array of 128
-- queues. `wakeups` counts the signals of `wait_cond`.
pub record Context (H P : Type 0) : Type 0 where
  pub wakeups : ℕ
  pub stop_flag : ℕ
  pub async_queue : P
  pub mode : Mode
  pub pending_queue : P
  pub queue_heap : Category → H
  pub timer_heap : Clock → H
  pub counter : ℕ
  pub time : Clock → ℕ
  pub saved_event : ℕ
  pub attached : List ℕ
  pub attached_count : ℕ
  pub is_simulator_stop : ℕ
  pub event_count : ℕ
  pub event_handle_table : ℕ → ℕ
  pub event_filter : ℕ
  pub dispatch_reentrant_count : ℕ
  pub buffed_event_queue : Spscq

-- `freed` lists the events and `freed_queues` the queues that were given back, the latest first,
-- `late` holds the events that the bus dropped as out of order, and `now` is the reading of the
-- system clock in microseconds.
pub record World (H P : Type 0) : Type 0 where
  pub events : ℕ → Event
  pub reminders : ℕ → Reminder
  pub queues : ℕ → EventQueue
  pub contexts : ℕ → Context H P
  pub asyncs : ℕ → Async
  pub event_vtable : ℕ → EventInfo
  pub freed : List ℕ
  pub freed_queues : List ℕ
  pub late : List ℕ
  pub now : ℕ

-- The functions that the engine calls through pointers, and the wait on `wait_cond`, in which time
-- passes and other threads run. The first argument is the function pointer.
pub record Hooks (H P : Type 0) : Type 0 where
  pub destroy : ℕ → ℕ → World H P → World H P
  pub clone : ℕ → ℕ → World H P → ℕ × World H P
  pub handle : ℕ → ℕ → ℕ → World H P → World H P
  pub filter : ℕ → ℕ → World H P → ℕ × World H P
  pub async : ℕ → ℕ → ℕ → World H P → World H P
  pub wait : ℕ → ℕ → World H P → World H P

-- event_def.h
abbrev pub reminder_event : ℕ
reminder_event = 0

abbrev pub ask_event : ℕ
ask_event = 1

abbrev pub bid_event : ℕ
bid_event = 2

abbrev pub trade_event : ℕ
trade_event = 3

abbrev pub queue_open_event : ℕ
queue_open_event = 40

abbrev pub queue_close_event : ℕ
queue_close_event = 41

abbrev pub simulator_start_event : ℕ
simulator_start_event = 42

abbrev pub simulator_stop_event : ℕ
simulator_stop_event = 43

abbrev pub simulator_progress_event : ℕ
simulator_progress_event = 44

-- EVENT_LAST of event.h
abbrev pub event_last : ℕ
event_last = 1024

-- EVENT_FLAG_TICK_MASK of event.h, `1 << 1`
abbrev pub tick_mask : ℕ
tick_mask = 2
