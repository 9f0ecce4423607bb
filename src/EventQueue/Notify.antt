-- ===== src/EventQueue/Notify.antt =====
-- event_queue_push of src/engine/core/event_queue.c against event_pop_form_pipe and
-- check_pending_queue of src/engine/core/event_bus.c, as two threads that share one queue which is
-- attached to a bus. Each access to what they share is a step.
use ats.Base.{ℕ, suc, ◌≡◌, Bool, true, false}
use ats.Spscq
use ats.Spscq.{Spscq}

-- Where the producer stands in `event_queue_push(q, e)`: `is_empty` is read; the event is pushed.
pub data Producer : Type 0 where
  idle : Producer
  checked : (e : ℕ) (is_empty : Bool) → Producer
  pushed : (is_empty : Bool) → Producer

-- Where the bus stands in `event_pop_form_pipe`: the queue is out of the heap; its event is popped.
pub data Consumer : Type 0 where
  idle removed popped : Consumer

-- `in_heap` says that the heap of the bus holds the queue, `pending` how often `pending_queue` does.
pub record Shared : Type 0 where
  pub spsc : Spscq
  pub in_heap : Bool
  pub pending : ℕ
  pub producer : Producer
  pub consumer : Consumer

pub data Step (s : Shared) : Shared → Type 0 where
  -- if (spscq_is_empty(&q->spsc)) is_empty = 1
  check :
      (e : ℕ)
      → s.producer ≡ Producer.idle
      → Step s (record s { producer = Producer.checked e (Spscq.is_empty s.spsc) })
  -- ret = spscq_push(&q->spsc, e)
  push :
      (e : ℕ) (b : Bool)
      → s.producer ≡ Producer.checked e b
      → Step s (record s { spsc = (Spscq.push s.spsc e).1; producer = Producer.pushed b })
  -- if (is_empty && q->ctx) bus_async_add_queue(q->ctx, q)
  notify :
      s.producer ≡ Producer.pushed true
      → Step s (record s { pending = suc s.pending; producer = Producer.idle })
  return_quietly :
      s.producer ≡ Producer.pushed false → Step s (record s { producer = Producer.idle })
  -- heap_remove(&ctx->queue_heap[category], node)
  remove :
      s.consumer ≡ Consumer.idle
      → s.in_heap ≡ true
      → Step s (record s { in_heap = false; consumer = Consumer.removed })
  -- e = event_queue_pop(q)
  pop :
      s.consumer ≡ Consumer.removed
      → Step s (record s { spsc = (Spscq.pop s.spsc).1; consumer = Consumer.popped })
  -- if (!event_queue_is_empty(q)) heap_insert(...)
  requeue :
      s.consumer ≡ Consumer.popped
      → Spscq.is_empty s.spsc ≡ false
      → Step s (record s { in_heap = true; consumer = Consumer.idle })
  leave :
      s.consumer ≡ Consumer.popped
      → Spscq.is_empty s.spsc ≡ true
      → Step s (record s { consumer = Consumer.idle })
  -- check_pending_queue: bus_add_queue(ctx, q), which leaves out an empty queue
  add :
      (n : ℕ)
      → s.consumer ≡ Consumer.idle
      → s.pending ≡ suc n
      → Spscq.is_empty s.spsc ≡ false
      → Step s (record s { in_heap = true; pending = n })
  skip :
      (n : ℕ)
      → s.consumer ≡ Consumer.idle
      → s.pending ≡ suc n
      → Spscq.is_empty s.spsc ≡ true
      → Step s (record s { pending = n })

pub data Reach (s : Shared) : Shared → Type 0 where
  here : Reach s s
  later : {t u : Shared} → Reach s t → Step t u → Reach s u
