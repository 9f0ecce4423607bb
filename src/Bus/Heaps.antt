-- ===== src/Bus/Heaps.antt =====
-- src/engine/core/event_bus.c: the orders of queues and of timers, and adding to, removing from and
-- popping from the heaps.
use ats.Base.{
  ℕ, ◌+◌, ◌/◌, ◌%◌, Bool, true, false, not, ◌&&◌, ◌||◌, Option, some, ltb, ◌==◌, if◌then◌else◌, u64,
  null, update, require,
}
use ats.Heap.{MinHeap}
use ats.World.{Reminder, Category, Clock, World, clock_index, category_index, tick_mask}
use ats.EventQueue.{event_queue_peek, event_queue_pop, event_queue_is_empty, set_queue}
use ats.Wakeup.{set_context}

-- By a first number, and by a second where the first are equal.
abbrev pub before : ℕ → ℕ → ℕ → ℕ → Bool
before x i y j =
    if ltb x y
    then true
    else if ltb y x
    then false
    else if ltb i j
    then true
    else if ltb j i
    then false
    else false

module _ {H P : Type 0} where
  -- By the time of the first event, then by the turn. The ASSERTs that neither first event is NULL hold
  -- for queues that are as Bus.Pipe.IsQueued says (Bus.Pipe.event_queue_peek-not_null), and theorems
  -- about heaps are about those only.
  unfoldable pub queue_less_than : World H P → ℕ → ℕ → Bool
  queue_less_than w qa qb =
      before (w.events (event_queue_peek w qa)).timestamp (w.queues qa).start_id
        (w.events (event_queue_peek w qb)).timestamp (w.queues qb).start_id

  unfoldable pub timer_less_than : World H P → ℕ → ℕ → Bool
  timer_less_than w a b =
      before (w.reminders a).timeout (w.reminders a).start_id (w.reminders b).timeout
        (w.reminders b).start_id

  -- `flag & EVENT_FLAG_TICK_MASK`, the second bit
  unfoldable pub event_is_tick : World H P → ℕ → Bool
  event_is_tick w e = (w.events e).event_flag / tick_mask % 2 == 1

  abbrev pub queue_heap : World H P → ℕ → Category → H
  queue_heap w c k = (w.contexts c).queue_heap k

  abbrev pub timer_heap : World H P → ℕ → Clock → H
  timer_heap w c k = (w.contexts c).timer_heap k

  abbrev pub set_queue_heap : World H P → ℕ → Category → H → World H P
  set_queue_heap w c k h = set_context w c (record (w.contexts c) {
    queue_heap =
        λ j. if category_index k == category_index j then h else (w.contexts c).queue_heap j;
  })

  abbrev pub set_timer_heap : World H P → ℕ → Clock → H → World H P
  set_timer_heap w c k h = set_context w c (record (w.contexts c) {
    timer_heap = λ j. if clock_index k == clock_index j then h else (w.contexts c).timer_heap j;
  })

  -- `ctx->counter++`
  abbrev pub set_counter : World H P → ℕ → World H P
  set_counter w c =
      set_context w c (record (w.contexts c) { counter = u64 ((w.contexts c).counter + 1) })

  -- `q->start_id = ctx->counter++`
  unfoldable pub next_turn : World H P → ℕ → ℕ → World H P
  next_turn w c q =
      set_counter (set_queue w q (record (w.queues q) { start_id = (w.contexts c).counter })) c

  -- `q->ctx = ctx; q->start_id = ctx->counter++`
  unfoldable pub join_bus : World H P → ℕ → ℕ → World H P
  join_bus w c q =
      set_counter
        (set_queue w q (record (w.queues q) { ctx = c; start_id = (w.contexts c).counter })) c

  abbrev pub set_reminder : World H P → ℕ → Reminder → World H P
  set_reminder w t r = record w { reminders = update w.reminders t r }

module _ {H : Type 0} ⦃heap : MinHeap H⦄ where
  abbrev pub heap_is_empty : H → Bool
  heap_is_empty h = heap.min h == null

  unfoldable pub timer_heap_peek : H → ℕ
  timer_heap_peek h = heap.min h

module _ {H P : Type 0} ⦃heap : MinHeap H⦄ where
  unfoldable pub insert_queue : World H P → ℕ → Category → ℕ → World H P
  insert_queue w c k q = set_queue_heap w c k (heap.insert (queue_heap w c k) q (queue_less_than w))

  unfoldable pub remove_queue : World H P → ℕ → Category → ℕ → World H P
  remove_queue w c k q = set_queue_heap w c k (heap.remove (queue_heap w c k) q (queue_less_than w))

  unfoldable pub insert_timer : World H P → ℕ → Clock → ℕ → World H P
  insert_timer w c k t = set_timer_heap w c k (heap.insert (timer_heap w c k) t (timer_less_than w))

  unfoldable pub remove_timer : World H P → ℕ → Clock → ℕ → World H P
  remove_timer w c k t = set_timer_heap w c k (heap.remove (timer_heap w c k) t (timer_less_than w))

  abbrev pub pipe_is_empty : World H P → ℕ → Category → Bool
  pipe_is_empty w c k = heap_is_empty (queue_heap w c k)

  -- What `event_pop_form_pipe` does once it has an event out of the queue `q`: a queue that holds
  -- more goes back to a heap, that of the queue's own context.
  unfoldable pub requeue : World H P → Category → ℕ → World H P
  requeue w k q =
      if not (event_queue_is_empty w q)
      then insert_queue (next_turn w (w.queues q).ctx q) (w.queues q).ctx k q
      else w

  unfoldable pub event_pop_from_pipe : World H P → ℕ → Category → ℕ × World H P
  event_pop_from_pipe w c k =
      let q = heap.min (queue_heap w c k) in
      let (e, w') = event_queue_pop (remove_queue w c k q) q in
      if q == null then (null, w) else (e, requeue w' k q)

  -- A timer with a period is armed again; the turn comes from the timer's own context.
  unfoldable pub rearm : World H P → ℕ → Clock → ℕ → World H P
  rearm w c k t =
      let r = w.reminders t in
      let w' =
        set_counter
          (set_reminder w t (record r {
            start_id = (w.contexts (r.ctx)).counter;
            timeout = u64 (r.timeout + r.repeat);
          }))
          r.ctx in
      if not (r.repeat == 0) then insert_timer w' c k t else w

  unfoldable pub timer_heap_pop : World H P → ℕ → Clock → ℕ × World H P
  timer_heap_pop w c k =
      let t = heap.min (timer_heap w c k) in
      if t == null then (null, w) else (t, rearm (remove_timer w c k t) c k t)

  -- The queue's context must be `c` or none yet. An empty queue stays out of the heap.
  unfoldable pub bus_add_queue : World H P → ℕ → ℕ → Option (World H P)
  bus_add_queue w c q =
      let x = w.queues q in
      let w' = join_bus w c q in
      require (not (c == null) && not (q == null) && (x.ctx == c || x.ctx == null))
        (some (if event_queue_is_empty w' q then w' else insert_queue w' c x.category q))

  -- `heap_remove` is for a node that is in the heap. It leaves an empty heap as it is; where the heap
  -- holds other nodes only, it spoils it, which is `none` here.
  abbrev remove_from : H → ℕ → World H P → World H P → Option (World H P)
  remove_from h n w w' =
      if ltb 0 (heap.count h n) then some w' else require (heap.nelts h == 0) (some w)

  unfoldable pub bus_remove_queue : World H P → ℕ → ℕ → Option (World H P)
  bus_remove_queue w c q =
      let k = (w.queues q).category in
      require (not (c == null) && not (q == null))
        (remove_from (queue_heap w c k) q w (remove_queue w c k q))

  unfoldable pub bus_add_timer : World H P → ℕ → ℕ → Option (World H P)
  bus_add_timer w c t =
      let r = w.reminders t in
      let w' =
        set_counter (set_reminder w t (record r { ctx = c; start_id = (w.contexts c).counter }))
          c in
      require (not (c == null) && not (t == null)) (some (insert_timer w' c r.clock_type t))

  unfoldable pub bus_remove_timer : World H P → ℕ → ℕ → Option (World H P)
  bus_remove_timer w c t =
      let k = (w.reminders t).clock_type in
      require (not (c == null) && not (t == null))
        (remove_from (timer_heap w c k) t w (remove_timer w c k t))

  unfoldable pub bus_timer_peek : World H P → ℕ → Clock → ℕ
  unfolding timer_heap_peek
  bus_timer_peek w c k = timer_heap_peek (timer_heap w c k)

  unfoldable pub bus_timer_dequeue : World H P → ℕ → Clock → ℕ × World H P
  unfolding timer_heap_pop
  bus_timer_dequeue w c k = timer_heap_pop w c k
