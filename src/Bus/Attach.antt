-- ===== src/Bus/Attach.antt =====
-- src/engine/core/event_bus.c: queues that pass the events of one bus on to another, and clearing a
-- bus. `ctx->attached` is an array of 128 queues.
use ats.Base.{
  ℕ, zero, suc, ◌+◌, ◌-◌, not, ◌&&◌, List, Option, none, some, ltb, ◌==◌, if◌then◌else◌, null,
  require, ◌>>=◌, get_or, set,
}
use ats.Heap.{MinHeap}
use ats.World.{EventQueue, Category, Clock, World, Hooks}
use ats.Event.{event_unref}
use ats.Wakeup.{set_context}
use ats.EventQueue.{event_queue_init, event_queue_destroy, event_queue_unref, set_queue}
use ats.Bus.Heaps.{
  queue_heap, timer_heap, remove_queue, remove_timer, bus_add_queue, bus_remove_queue,
}

abbrev pub max_attached : ℕ
max_attached = 128

-- `for (j = i; j < count - 1; j++) attached[j] = attached[j + 1]`, with `left` rounds to go
unfoldable pub shift_down : ℕ → ℕ → List ℕ → List ℕ
shift_down zero j l = l
shift_down (suc left) j l = shift_down left (j + 1) (set l j (get_or l (j + 1) null))

module _ {H P : Type 0} where
  abbrev pub set_attached : World H P → ℕ → List ℕ → ℕ → World H P
  set_attached w c l n =
      set_context w c (record (w.contexts c) { attached = l; attached_count = n })

module _ {H P : Type 0} ⦃heap : MinHeap H⦄ where
  -- `q` is the address of the queue that is allocated, and `storage` that of its ring. A queue that
  -- `ats_zalloc` gives has all its bytes zero.
  unfoldable pub bus_attach :
      World H P → ℕ → ℕ → ℕ → EventQueue → Option (List ℕ) → Option (World H P)
  bus_attach w src dst q zero_queue storage =
      let x = w.contexts src in
      let num = x.attached_count in
      let w' = set_queue (set_attached w src (set x.attached num q) (num + 1)) q zero_queue in
      require (ltb num max_attached && not (q == null))
        (event_queue_init w' q storage 10000 Category.market >>= λ r. bus_add_queue (r.1) dst q)

  -- One round of the loop of `bus_detach` at `i`.
  unfoldable pub detach_at : World H P → ℕ → ℕ → ℕ → Option (World H P)
  unfolding shift_down
  detach_at w src dst i =
      let x = w.contexts src in
      let q = get_or x.attached i null in
      require (not (q == null)) (
        if (w.queues q).ctx == dst
        then (bus_remove_queue w dst q >>= λ w'. some (
            set_attached w' src (shift_down (x.attached_count - 1 - i) i x.attached)
              (x.attached_count - 1)))
        else some w)

  unfoldable pub detach_from : ℕ → World H P → ℕ → ℕ → ℕ → Option (World H P)
  unfolding detach_at
  detach_from zero w src dst i = none
  detach_from (suc fuel) w src dst i =
      let rest = detach_at w src dst i >>= λ w'. detach_from fuel w' src dst (i + 1) in
      if ltb i (w.contexts src).attached_count then rest else some w

  -- The count only falls, so one round more than it is fuel enough.
  unfoldable pub bus_detach : World H P → ℕ → ℕ → Option (World H P)
  unfolding detach_from
  bus_detach w src dst = detach_from ((w.contexts src).attached_count + 1) w src dst 0

module _ {H P : Type 0} ⦃heap : MinHeap H⦄ ⦃hooks : Hooks H P⦄ where
  unfoldable pub queue_heap_clear : ℕ → World H P → ℕ → Category → Option (World H P)
  queue_heap_clear zero w c k = none
  queue_heap_clear (suc fuel) w c k =
      let q = heap.min (queue_heap w c k) in
      let rest =
        event_queue_unref (remove_queue w c k q) q >>= λ w'. queue_heap_clear fuel w' c k in
      if q == null then some w else rest

  unfoldable pub timer_heap_clear : ℕ → World H P → ℕ → Clock → Option (World H P)
  timer_heap_clear zero w c k = none
  timer_heap_clear (suc fuel) w c k =
      let t = heap.min (timer_heap w c k) in
      let rest = event_unref (remove_timer w c k t) t >>= λ w'. timer_heap_clear fuel w' c k in
      if t == null then some w else rest

  -- The last loop of `bus_clear`; `bus_detach` lowers the count that it runs up to.
  unfoldable pub clear_attached : ℕ → World H P → ℕ → ℕ → Option (World H P)
  unfolding bus_detach
  clear_attached zero w c i = none
  clear_attached (suc fuel) w c i =
      let q = get_or (w.contexts c).attached i null in
      let rest = bus_detach w c (w.queues q).ctx >>= λ w'.
      event_queue_destroy w' q >>= λ w''. clear_attached fuel w'' c (i + 1) in
      if ltb i (w.contexts c).attached_count then rest else some w

  unfoldable pub clear_queues : World H P → ℕ → Category → Option (World H P)
  unfolding queue_heap_clear
  clear_queues w c k = queue_heap_clear (heap.nelts (queue_heap w c k) + 1) w c k

  unfoldable pub clear_timers : World H P → ℕ → Clock → Option (World H P)
  unfolding timer_heap_clear
  clear_timers w c k = timer_heap_clear (heap.nelts (timer_heap w c k) + 1) w c k

  unfoldable pub clear_saved : World H P → ℕ → Option (World H P)
  clear_saved w c =
      let e = (w.contexts c).saved_event in
      if e == null
      then some w
      else event_unref w e >>= λ w'.
          some (set_context w' c (record (w'.contexts c) { saved_event = null }))

  unfoldable pub bus_clear : World H P → ℕ → Option (World H P)
  unfolding clear_saved clear_queues clear_timers clear_attached
  bus_clear w c = do
    w ← clear_saved w c
    w ← clear_queues w c Category.market
    w ← clear_queues w c Category.execution
    w ← clear_queues w c Category.service
    w ← clear_queues w c Category.command
    w ← clear_timers w c Clock.local
    w ← clear_timers w c Clock.exchange
    w ← clear_attached ((w.contexts c).attached_count + 1) w c 0
    some (set_context w c (record (w.contexts c) { attached_count = 0 }))

  unfoldable pub bus_destroy : World H P → ℕ → Option (World H P)
  unfolding bus_clear
  bus_destroy w c = bus_clear w c
