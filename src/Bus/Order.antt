-- ===== src/Bus/Order.antt =====
-- The orders by which the bus of src/engine/core/event_bus.c keeps queues and timers.
use ats.Base.{ℕ, ◌≡◌, false, arith}
use ats.Heap.{IsOrder}
use ats.World.{World}
use ats.EventQueue.{event_queue_peek}
use ats.Bus.Heaps.{before, queue_less_than, timer_less_than}

-- Whatever the two numbers of a node are, the order is strict and its ties are an equivalence.
before-IsOrder : (t i : ℕ → ℕ) → IsOrder (λ a b. before (t a) (i a) (t b) (i b))
before-IsOrder t i = record {
  irrefl = λ a. ground arith;
  trans = λ a b c p q. ground arith;
  cotrans = λ a b c p q. ground arith;
}

-- With different turns one of two nodes is first.
pub before_total :
    (x i y j : ℕ) → before x i y j ≡ false → before y j x i ≡ false → (x ≡ y) × (i ≡ j)
before_total x i y j p q = ground arith

module _ {H P : Type 0} where
  pub queue_less_than-IsOrder : (w : World H P) → IsOrder (queue_less_than w)
  unfolding queue_less_than
  queue_less_than-IsOrder w =
      before-IsOrder (λ q. (w.events (event_queue_peek w q)).timestamp) (λ q. (w.queues q).start_id)

  pub timer_less_than-IsOrder : (w : World H P) → IsOrder (timer_less_than w)
  unfolding timer_less_than
  timer_less_than-IsOrder w =
      before-IsOrder (λ t. (w.reminders t).timeout) (λ t. (w.reminders t).start_id)

  -- What `queue_less_than` reads of a queue: the time of its first event, and its turn.
  abbrev pub SameHead : World H P → World H P → ℕ → Type 0
  SameHead w w' q =
      ((w'.events (event_queue_peek w' q)).timestamp ≡ (w.events (event_queue_peek w q)).timestamp)
      × ((w'.queues q).start_id ≡ (w.queues q).start_id)

  pub queue_less_than_agree :
      (w w' : World H P) (a b : ℕ)
      → SameHead w w' a
      → SameHead w w' b
      → queue_less_than w a b ≡ queue_less_than w' a b
  unfolding queue_less_than
  queue_less_than_agree w w' a b p q = rw (p.0, p.1, q.0, q.1)

  pub timer_less_than_agree :
      (w w' : World H P) (a b : ℕ)
      → w'.reminders a ≡ w.reminders a
      → w'.reminders b ≡ w.reminders b
      → timer_less_than w a b ≡ timer_less_than w' a b
  unfolding timer_less_than
  timer_less_than_agree w w' a b p q = rw (p, q)
