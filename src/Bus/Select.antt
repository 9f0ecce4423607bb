-- ===== src/Bus/Select.antt =====
-- src/engine/core/event_bus.c: the saved market event and the queues of the other categories.
use ats.Base.{
  ◌≢◌, leb, ℕ, ◌≡◌, refl, Bool, true, false, arith, ◌==◌, null, not, ◌&&◌, ◌||◌, if◌then◌else◌,
  some, Option,
}
use ats.Heap.{MinHeap}
use ats.Mpscq.{Mpscq}
use ats.World.{World, Clock, Category, category_index}
use ats.Bus.Clocks.{bus_get_time}
use ats.Bus.Heaps.{
  timer_heap, heap_is_empty, pipe_is_empty, event_pop_from_pipe, timer_heap_pop, event_is_tick,
  requeue, rearm, remove_timer, remove_queue, insert_queue, insert_timer, next_turn,
}
use ats.EventQueue.{event_queue_pop}
use ats.Bus.Dequeue.{
  saved_event, set_saved, due, hand_out_saved, realtime_select, simulation_select,
}

not-true : (b : Bool) → not b ≡ true → b ≡ false
not-true b h = ground (arith, h)

not_left : (b d : Bool) → (not b && d) ≡ true → b ≡ false
not_left b d h = ground (arith, h)

-- What holds of each of the first five choices under its test holds of the one that is taken, if one
-- of the last three tests is met.
first_of :
    {A : Type 0}
    → (P : A → Type 0) (b1 b2 b3 b4 b5 : Bool) (x1 x2 x3 x4 x5 y : A) → (b1 ≡ true → P x1)
    → (b2 ≡ true → P x2)
    → (b3 ≡ true → P x3)
    → (b4 ≡ true → P x4)
    → (b5 ≡ true → P x5)
    → (b3 || (b4 || b5)) ≡ true
    → P (
        if b1
        then x1
        else if b2
        then x2
        else if b3
        then x3
        else if b4
        then x4
        else if b5
        then x5
        else y)
first_of P true b2 b3 b4 b5 x1 x2 x3 x4 x5 y h1 h2 h3 h4 h5 h = h1 refl
first_of P false true b3 b4 b5 x1 x2 x3 x4 x5 y h1 h2 h3 h4 h5 h = h2 refl
first_of P false false true b4 b5 x1 x2 x3 x4 x5 y h1 h2 h3 h4 h5 h = h3 refl
first_of P false false false true b5 x1 x2 x3 x4 x5 y h1 h2 h3 h4 h5 h = h4 refl
first_of P false false false false true x1 x2 x3 x4 x5 y h1 h2 h3 h4 h5 h = h5 refl
first_of P false false false false false x1 x2 x3 x4 x5 y h1 h2 h3 h4 h5 h = absurd (ground arith)

module _ {H P : Type 0} ⦃heap : MinHeap H⦄ where
  -- A pop leaves the saved event as it is.
  pub pop_keeps_saved :
      (w : World H P) (c : ℕ) (k : Category)
      → saved_event ((event_pop_from_pipe w c k).1) c ≡ saved_event w c
  unfolding event_pop_from_pipe requeue remove_queue insert_queue next_turn event_queue_pop
  pop_keeps_saved w c k = ground arith

  pub timer_keeps_saved :
      (w : World H P) (c : ℕ) (k : Clock)
      → saved_event ((timer_heap_pop w c k).1) c ≡ saved_event w c
  unfolding timer_heap_pop rearm remove_timer insert_timer
  timer_keeps_saved w c k = ground arith

  -- Some event waits in a queue of another category than the market's.
  abbrev pub others_wait : World H P → ℕ → Bool
  others_wait w c = not (
      pipe_is_empty w c Category.execution
      && (pipe_is_empty w c Category.service && pipe_is_empty w c Category.command))

  -- The answer is the pop of a timer heap that holds a timer, or of a pipe that holds a queue and is
  -- not the one for market data.
  pub data FromOther (w : World H P) (c : ℕ) (r : ℕ × World H P) : Type 0 where
    timer :
        (k : Clock)
        → heap_is_empty (timer_heap w c k) ≡ false
        → r ≡ timer_heap_pop w c k
        → FromOther w c r
    pipe :
        (k : Category)
        → category_index k ≢ category_index Category.market
        → pipe_is_empty w c k ≡ false
        → r ≡ event_pop_from_pipe w c k
        → FromOther w c r

  -- An answer that is not the saved event, which stays
  abbrev Keeps : World H P → ℕ → ℕ × World H P → Type 0
  Keeps w c r = FromOther w c r × (saved_event (r.1) c ≡ saved_event w c)

  Keeps-timer :
      (w : World H P) (c : ℕ) (k : Clock) (b : Bool)
      → (not (heap_is_empty (timer_heap w c k)) && b) ≡ true
      → Keeps w c (timer_heap_pop w c k)
  Keeps-timer w c k b h = (FromOther.timer k (not_left _ b h) refl, timer_keeps_saved w c k)

  Keeps-pipe :
      (w : World H P) (c : ℕ) (k : Category)
      → category_index k ≢ category_index Category.market
      → not (pipe_is_empty w c k) ≡ true
      → Keeps w c (event_pop_from_pipe w c k)
  Keeps-pipe w c k other h = (FromOther.pipe k other (not-true _ h) refl, pop_keeps_saved w c k)

module _ {H P : Type 0} ⦃heap : MinHeap H⦄ ⦃mpscq : Mpscq P⦄ where
  abbrev pub local_due : World H P → ℕ → Bool
  local_due w c =
      not (heap_is_empty (timer_heap w c Clock.local))
      && (not (saved_event w c == null) && due w c Clock.local)

  abbrev pub exchange_due : World H P → ℕ → Bool
  exchange_due w c =
      not (heap_is_empty (timer_heap w c Clock.exchange))
      && (not (saved_event w c == null)
          && (event_is_tick w (saved_event w c) && due w c Clock.exchange))

  -- While an event waits in a queue of another category, both modes of the bus hand out what a timer
  -- heap gives or a pipe other than the one for market data, each of which holds something; the market
  -- event that is saved stays saved.
  pub simulation_select-others :
      (w : World H P) (c : ℕ)
      → others_wait w c ≡ true
      → ((r : ℕ × World H P) × (simulation_select w c ≡ some r)
          × FromOther w c r
          × (saved_event (r.1) c ≡ saved_event w c))
        × (FromOther w c (realtime_select w c)
            × (saved_event ((realtime_select w c).1) c ≡ saved_event w c))
  unfolding simulation_select realtime_select
  simulation_select-others w c h =
      let Found : Option (ℕ × World H P) → Type 0 =
        λ m. (r : ℕ × World H P) × (m ≡ some r) × Keeps w c r in
      let found : (x : ℕ × World H P) → Keeps w c x → Found (some x) = λ x k. (x, refl, k) in
      let execution = Keeps-pipe w c Category.execution (λ e. ground (arith, e)) in
      let service = Keeps-pipe w c Category.service (λ e. ground (arith, e)) in
      let command = Keeps-pipe w c Category.command (λ e. ground (arith, e)) in
      let (r, e, kept) =
        first_of Found (local_due w c) (exchange_due w c)
          (not (pipe_is_empty w c Category.execution)) (not (pipe_is_empty w c Category.service))
          (not (pipe_is_empty w c Category.command)) (some (timer_heap_pop w c Clock.local))
          (some (timer_heap_pop w c Clock.exchange))
          (some (event_pop_from_pipe w c Category.execution))
          (some (event_pop_from_pipe w c Category.service))
          (some (event_pop_from_pipe w c Category.command)) (hand_out_saved w c)
          (λ b. found _ (Keeps-timer w c Clock.local _ b))
          (λ b. found _ (Keeps-timer w c Clock.exchange _ b)) (λ b. found _ (execution b))
          (λ b. found _ (service b)) (λ b. found _ (command b)) (ground arith) in
      (
        (r, e, kept.0, kept.1),
        first_of (Keeps w c)
            (not (heap_is_empty (timer_heap w c Clock.local))
              && leb ((w.reminders (heap.min (timer_heap w c Clock.local))).timeout)
                  (bus_get_time w c))
            (exchange_due w c) (not (pipe_is_empty w c Category.execution))
            (not (pipe_is_empty w c Category.command)) (not (pipe_is_empty w c Category.service))
            (timer_heap_pop w c Clock.local) (timer_heap_pop w c Clock.exchange)
            (event_pop_from_pipe w c Category.execution) (event_pop_from_pipe w c Category.command)
            (event_pop_from_pipe w c Category.service)
            (if not (saved_event w c == null)
              then (saved_event w c, set_saved w c null)
              else (null, w))
            (λ b. Keeps-timer w c Clock.local _ b) (λ b. Keeps-timer w c Clock.exchange _ b)
            execution command service (ground arith),
      )
