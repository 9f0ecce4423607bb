-- ===== src/EventQueue.antt =====
-- src/engine/core/event_queue.c: queues of events, each between one producer and the bus that it is
-- attached to. `none` is a failed ASSERT.
pub mod Notify
pub mod Lost
pub mod Watched
pub mod Destroy
mod Tests
use ats.Base.{
  ℕ, zero, suc, ◌+◌, ◌-◌, ◌^◌, Bool, not, ◌&&◌, List, ◌∷◌, Option, none, some, ◌==◌, if◌then◌else◌,
  u64, Status, ok, err, null, update, require, ◌>>=◌,
}
use ats.Spscq
use ats.Spscq.{Spscq}
use ats.World.{EventQueue, Category, World, Hooks}
use ats.Mpscq.{Mpscq}
use ats.Event.{event_unref}
use ats.Wakeup.{bus_async_add_queue}

module _ {H P : Type 0} where
  abbrev pub set_queue : World H P → ℕ → EventQueue → World H P
  set_queue w q x = record w { queues = update w.queues q x }

  abbrev pub set_spsc : World H P → ℕ → Spscq → World H P
  set_spsc w q s = set_queue w q (record (w.queues q) { spsc = s })

  -- `storage` is what `ats_malloc` returns for the ring.
  unfoldable pub event_queue_init :
      World H P → ℕ → Option (List ℕ) → ℕ → Category → Option (ℕ × World H P)
  event_queue_init w q storage size category = Spscq.init (w.queues q).spsc storage size >>= λ r.
      elim (r.0) [
        | err ↦ some (null, set_spsc w q r.1)
        | ok ↦
            some (
              q,
              set_queue w q (record (w.queues q) { spsc = r.1; ctx = null; category = category }),
            )
      ]

  unfoldable pub event_queue_peek : World H P → ℕ → ℕ
  event_queue_peek w q = Spscq.peek (w.queues q).spsc

  unfoldable pub event_queue_pop : World H P → ℕ → ℕ × World H P
  event_queue_pop w q = let (e, s) = Spscq.pop (w.queues q).spsc in (e, set_spsc w q s)

  unfoldable pub event_queue_is_empty : World H P → ℕ → Bool
  event_queue_is_empty w q = Spscq.is_empty (w.queues q).spsc

  unfoldable pub event_queue_is_full : World H P → ℕ → Bool
  event_queue_is_full w q = Spscq.is_full (w.queues q).spsc

  unfoldable pub event_queue_size : World H P → ℕ → ℕ
  event_queue_size w q = Spscq.size (w.queues q).spsc

  unfoldable pub event_queue_capacity : World H P → ℕ → ℕ
  event_queue_capacity w q = (w.queues q).spsc.capacity

  unfoldable pub event_queue_ref : World H P → ℕ → Option (World H P)
  event_queue_ref w q =
      let x = w.queues q in
      require (not (q == null))
        (some (set_queue w q (record x { refcount = u64 (x.refcount + 1) })))

module _ {H P : Type 0} ⦃mpscq : Mpscq P⦄ where
  -- A push into an empty queue that has a bus tells the bus of the queue.
  unfoldable pub event_queue_push : World H P → ℕ → ℕ → Option (Status × World H P)
  event_queue_push w q e =
      let x = w.queues q in
      let was_empty = Spscq.is_empty x.spsc in
      let (ret, s) = Spscq.push x.spsc e in
      let w' = set_spsc w q s in
      if was_empty && not (x.ctx == null)
      then elim ret [ ok ↦ some (ok, bus_async_add_queue w' x.ctx q) | err ↦ none ]
      else some (ret, w')

module _ {H P : Type 0} ⦃hooks : Hooks H P⦄ where
  -- The loop of `event_queue_destroy`; each round takes one event off the queue.
  unfoldable pub unref_all : ℕ → World H P → ℕ → Option (World H P)
  unref_all zero w q = none
  unref_all (suc fuel) w q =
      let (e, w') = event_queue_pop w q in
      let rest = event_unref w' e >>= λ w''. unref_all fuel w'' q in
      if e == null then some w' else rest

  -- A queue holds less events than its capacity, so the capacity is fuel enough.
  unfoldable pub event_queue_destroy : World H P → ℕ → Option (World H P)
  unfolding unref_all
  event_queue_destroy w q = unref_all (w.queues q).spsc.capacity w q >>= λ w'.
      Spscq.destroy (w'.queues q).spsc >>= λ s. some (set_spsc w' q s)

  unfoldable pub queue_free : World H P → ℕ → Option (World H P)
  unfolding event_queue_destroy
  queue_free w q =
      event_queue_destroy w q >>= λ w'. some (record w' { freed_queues = q ∷ w'.freed_queues })

  unfoldable pub event_queue_unref : World H P → ℕ → Option (World H P)
  unfolding queue_free
  event_queue_unref w q =
      let x = w.queues q in
      let w' = set_queue w q (record x { refcount = u64 (x.refcount + (2 ^ 64 - 1)) }) in
      require (not (q == null)) (if x.refcount == 1 then queue_free w' q else some w')
