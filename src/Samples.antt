-- ===== src/Samples.antt =====
-- A small state of the engine for tests: the event 7 in the queues, the bus 1 with the queue 5 in
-- its heap for executions and the timer 9 in its heap for the local clock.
use ats.Base.{ℕ, List, [], ◌∷◌, null}
use ats.Spscq.{Spscq}
use ats.World.{Clock, Category, Mode, Context, World, Hooks}

abbrev pub one_ring : Spscq
one_ring = record { capacity = 4; records = 7 ∷ 0 ∷ 0 ∷ 0 ∷ []; read_pos = 0; write_pos = 1 }

abbrev pub empty_ring : Spscq
empty_ring = record { capacity = 4; records = 0 ∷ 0 ∷ 0 ∷ 0 ∷ []; read_pos = 0; write_pos = 0 }

abbrev execution_heap : Category → List ℕ
execution_heap Category.execution = 5 ∷ []
execution_heap _ = []

abbrev local_heap : Clock → List ℕ
local_heap Clock.local = 9 ∷ []
local_heap Clock.exchange = []

abbrev pub small_context : Context (List ℕ) (List ℕ)
small_context = record {
  wakeups = 0;
  stop_flag = 0;
  async_queue = [];
  mode = Mode.simulation;
  pending_queue = [];
  queue_heap = execution_heap;
  timer_heap = local_heap;
  counter = 3;
  time = λ k. 40;
  saved_event = 8;
  attached = [];
  attached_count = 0;
  is_simulator_stop = 0;
  event_count = 0;
  event_handle_table = λ t. null;
  event_filter = null;
  dispatch_reentrant_count = 0;
  buffed_event_queue = empty_ring;
}

abbrev pub small : World (List ℕ) (List ℕ)
small = record {
  events = λ e. record { refcount = 1; event_type = 1; event_flag = 0; timestamp = 100 };
  reminders =
      λ t. record { clock_type = Clock.local; timeout = 50; repeat = 10; ctx = 1; start_id = 0 };
  queues = λ q. record {
    refcount = 1;
    spsc = one_ring;
    ctx = 1;
    category = Category.execution;
    start_id = 0;
  };
  contexts = λ c. small_context;
  asyncs = λ a. record { async_cb = 0; user_data = 0 };
  event_vtable =
      λ t. record { event_size = 48; default_flag = 0; destroy_func = 0; clone_func = 0 };
  freed = [];
  freed_queues = [];
  late = [];
  now = 1000;
}

-- Functions behind pointers that do nothing.
instance abbrev pub idle_hooks : Hooks (List ℕ) (List ℕ)
idle_hooks = record {
  destroy = λ f e w. w;
  clone = λ f e w. (e, w);
  handle = λ f c e w. w;
  filter = λ f e w. (null, w);
  async = λ f c d w. w;
  wait = λ c t w. w;
}
