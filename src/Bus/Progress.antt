-- ===== src/Bus/Progress.antt =====
-- src/engine/core/event_bus.c: bus_simualtion_dequeue as a whole.
use ats.Base.{
  ℕ, ◌<◌, ◌≡◌, ◌≢◌, refl, sym, ap, subst, Bool, Bool-cases, true, false, not, ◌==◌, if◌then◌else◌,
  arith, null, inl, inr, Option, some, List,
}
use ats.Heap.{MinHeap}
use ats.Mpscq.{Mpscq}
use ats.Spscq
use ats.Spscq.{Spscq}
use ats.Spscq.Refine.{contents-pop}
use ats.World.{Category, Clock, market, execution, service, command, World}
use ats.EventQueue.{event_queue_pop, event_queue_is_empty}
use ats.Bus.Heaps.{
  remove_queue, queue_heap, timer_heap, event_pop_from_pipe, timer_heap_pop, pipe_is_empty,
  heap_is_empty,
}
use ats.Bus.Dequeue.{
  saved_event, set_saved, forward, hand_out_saved, simulation_select, bus_simulation_dequeue,
}
use ats.Bus.Pipe.{IsQueued, IsQueued-of_queues}
use ats.Bus.Pipes.{PipesInv}
use ats.Bus.Select.{local_due, exchange_due}
use ats.Bus.Round.{nelts_of_pipe, count_in, backlog, NoNull}
use ats.Bus.Fetch.{Fetched, fetch_market_lem}
use ats.Bus.Forward.{AttachedValid, AttachedValid-keeps, forward_total}

module _ {H P : Type 0} ⦃heap : MinHeap H⦄ where
  -- The queues in the heaps of the bus are what they should be and belong to the list, in which no
  -- queue holds a null pointer.
  pub record Stocked (w : World H P) (c : ℕ) (qs : List ℕ) : Type 0 where
    pub queued : (k : Category) (a : ℕ) → 0 < heap.count (queue_heap w c k) a → IsQueued w c k a
    pub covered : (k : Category) (a : ℕ) → 0 < heap.count (queue_heap w c k) a → 0 < count_in qs a
    pub solid : NoNull w qs

  event_pop_from_pipe-event :
      (w : World H P) (c : ℕ) (k : Category)
      → pipe_is_empty w c k ≡ false
      → (event_pop_from_pipe w c k).0 ≡ (Spscq.pop (w.queues (heap.min (queue_heap w c k))).spsc).0
  unfolding event_pop_from_pipe remove_queue event_queue_pop
  event_pop_from_pipe-event w c k h = ground arith

  -- A pipe that is not empty gives an event.
  pub pop-ne_null :
      (w : World H P) (c : ℕ) (k : Category) (qs : List ℕ)
      → Stocked w c qs
      → not (pipe_is_empty w c k) ≡ true
      → (event_pop_from_pipe w c k).0 ≢ null
  unfolding event_queue_is_empty
  pop-ne_null w c k qs stock h z =
      let some_queue = nelts_of_pipe w c k (ground arith) in
      let q = heap.min (queue_heap w c k) in
      let m = heap.min_mem (queue_heap w c k) some_queue in
      let i = stock.queued k q m in
      let first = contents-pop ((w.queues q).spsc) i.valid i.some_left in
      ground (
        arith,
        ap (λ l. count_in l null) first,
        stock.solid q (stock.covered k q m),
        event_pop_from_pipe-event w c k (ground arith),
      )

  pub timer-ne_null :
      (w : World H P) (c : ℕ) (k : Clock)
      → heap_is_empty (timer_heap w c k) ≡ false
      → (timer_heap_pop w c k).0 ≢ null
  unfolding timer_heap_pop
  timer-ne_null w c k h z = ground arith

  -- Nothing waits at the bus but market data.
  pub record IsIdle (w : World H P) (c : ℕ) : Type 0 where
    pub execution_empty : pipe_is_empty w c execution ≡ true
    pub service_empty : pipe_is_empty w c service ≡ true
    pub command_empty : pipe_is_empty w c command ≡ true
    pub nothing_saved : saved_event w c ≡ null

  -- The call returns, with NULL only if nothing waits.
  abbrev Progresses : World H P → ℕ → Option (ℕ × World H P) → Type 0
  Progresses w c m = (r : ℕ × World H P) × (m ≡ some r) × (r.0 ≡ null → (r.1 ≡ w) × IsIdle w c)

  Progresses-first :
      (w : World H P) (c : ℕ) (b1 b2 b3 b4 b5 : Bool) (x1 x2 x3 x4 x5 : ℕ × World H P)
      (m : Option (ℕ × World H P))
      → (b1 ≡ true → x1.0 ≢ null)
      → (b2 ≡ true → x2.0 ≢ null)
      → (b3 ≡ true → x3.0 ≢ null)
      → (b4 ≡ true → x4.0 ≢ null)
      → (b5 ≡ true → x5.0 ≢ null)
      → (b3 ≡ false → b4 ≡ false → b5 ≡ false → Progresses w c m)
      → Progresses w c (
          if b1
          then some x1
          else if b2
          then some x2
          else if b3
          then some x3
          else if b4
          then some x4
          else if b5
          then some x5
          else m)
  Progresses-first w c true b2 b3 b4 b5 x1 x2 x3 x4 x5 m h1 h2 h3 h4 h5 h =
      (x1, refl, λ z. absurd (h1 refl z))
  Progresses-first w c false true b3 b4 b5 x1 x2 x3 x4 x5 m h1 h2 h3 h4 h5 h =
      (x2, refl, λ z. absurd (h2 refl z))
  Progresses-first w c false false true b4 b5 x1 x2 x3 x4 x5 m h1 h2 h3 h4 h5 h =
      (x3, refl, λ z. absurd (h3 refl z))
  Progresses-first w c false false false true b5 x1 x2 x3 x4 x5 m h1 h2 h3 h4 h5 h =
      (x4, refl, λ z. absurd (h4 refl z))
  Progresses-first w c false false false false true x1 x2 x3 x4 x5 m h1 h2 h3 h4 h5 h =
      (x5, refl, λ z. absurd (h5 refl z))
  Progresses-first w c false false false false false x1 x2 x3 x4 x5 m h1 h2 h3 h4 h5 h =
      h refl refl refl

module _ {H P : Type 0} ⦃heap : MinHeap H⦄ ⦃mpscq : Mpscq P⦄ where
  hand_out_saved-none :
      (w : World H P) (c : ℕ) → saved_event w c ≡ null → hand_out_saved w c ≡ some (null, w)
  unfolding hand_out_saved
  hand_out_saved-none w c h = rw h refl

  hand_out_saved-some :
      (w w' : World H P) (c : ℕ)
      → saved_event w c ≢ null
      → forward ((w.contexts c).attached_count) (set_saved w c null) c (saved_event w c) 0 ≡ some w'
      → hand_out_saved w c ≡ some (saved_event w c, w')
  unfolding hand_out_saved
  hand_out_saved-some w w' c h e = ground arith

  hand_out_saved-Progresses :
      (w : World H P) (c : ℕ)
      → AttachedValid w c
      → pipe_is_empty w c execution ≡ true
      → pipe_is_empty w c service ≡ true
      → pipe_is_empty w c command ≡ true
      → Progresses w c (hand_out_saved w c)
  hand_out_saved-Progresses w c valid a b d = elim (Bool-cases (saved_event w c == null)) [
    | inl h ↦
        let none : saved_event w c ≡ null = ground arith in
        (
          (null, w),
          hand_out_saved-none w c none,
          λ z. (
            refl,
            record {
              execution_empty = a;
              service_empty = b;
              command_empty = d;
              nothing_saved = none;
            },
          ),
        )
    | inr h ↦
        let nn : saved_event w c ≢ null = λ p. ground arith in
        let valid' =
          AttachedValid-keeps w (set_saved w c null) c (ground arith, ground arith) (λ a u. u)
            valid in
        let counted : ((set_saved w c null).contexts c).attached_count
            ≡ (w.contexts c).attached_count =
          ground arith in
        let (w', ends) =
          forward_total ((w.contexts c).attached_count) (set_saved w c null) c (saved_event w c) 0
            nn valid' (omega (arith, counted)) in
        ((saved_event w c, w'), hand_out_saved-some w w' c nn ends, λ z. absurd (nn z))
  ]

  simulation_select-Progresses :
      (w : World H P) (c : ℕ) (qs : List ℕ)
      → Stocked w c qs
      → AttachedValid w c
      → Progresses w c (simulation_select w c)
  unfolding simulation_select
  simulation_select-Progresses w c qs stock valid =
      Progresses-first w c (local_due w c) (exchange_due w c) (not (pipe_is_empty w c execution))
        (not (pipe_is_empty w c service)) (not (pipe_is_empty w c command))
        (timer_heap_pop w c Clock.local) (timer_heap_pop w c Clock.exchange)
        (event_pop_from_pipe w c execution) (event_pop_from_pipe w c service)
        (event_pop_from_pipe w c command) (hand_out_saved w c)
        (λ h. timer-ne_null w c Clock.local (ground arith))
        (λ h. timer-ne_null w c Clock.exchange (ground arith)) (pop-ne_null w c execution qs stock)
        (pop-ne_null w c service qs stock) (pop-ne_null w c command qs stock)
        (λ a b d. hand_out_saved-Progresses w c valid (ground arith) (ground arith) (ground arith))

  -- What the loop for market data leaves is in stock.
  Fetched-Stocked :
      (w w' : World H P) (c : ℕ) (qs : List ℕ)
      → Fetched w w' c qs
      → ((k : Category) (a : ℕ) → 0 < heap.count (queue_heap w c k) a → 0 < count_in qs a)
      → Stocked w' c qs
  Fetched-Stocked w w' c qs f covers = record {
    queued = λ k a m.
        IsQueued-of_queues (record w' { events = w.events }) w' c k a refl ((f.inv k).members a m);
    covered = λ k a m. covers k a (omega (arith, f.fewer k a));
    solid = f.solid;
  }

  -- `bus_simualtion_dequeue` returns, with fuel for more rounds than there are events in the queues of
  -- the bus, and answers NULL only if no queue of the bus holds an event and no market event is saved.
  -- (The heaps keep their invariants, no queue holds a null pointer, and the attached queues are
  -- valid rings.)
  pub bus_simulation_dequeue_lem :
      (fuel : ℕ) (w : World H P) (c : ℕ) (qs : List ℕ)
      → PipesInv w c
      → ((k : Category) (a : ℕ) → 0 < heap.count (queue_heap w c k) a → 0 < count_in qs a)
      → NoNull w qs
      → AttachedValid w c
      → backlog w qs < fuel
      → (r : ℕ × World H P) × (bus_simulation_dequeue fuel w c ≡ some r)
        × (r.0 ≡ null → (pipe_is_empty (r.1) c market ≡ true) × IsIdle (r.1) c)
  unfolding bus_simulation_dequeue
  bus_simulation_dequeue_lem fuel w c qs ok covers solid valid enough =
      let (w1, fetched, f) = fetch_market_lem fuel w c qs ok (covers market) solid enough in
      let (r, selected, null_idle) =
        simulation_select-Progresses w1 c qs (Fetched-Stocked w w1 c qs f covers)
          (AttachedValid-keeps w w1 c f.attached f.rings valid) in
      (
        r,
        rw fetched selected,
        λ z.
            let (same, idle) = null_idle z in
            let empty : pipe_is_empty w1 c market ≡ true = elim f.done [
              | inl saved ↦ absurd (saved idle.nothing_saved)
              | inr p ↦ p
            ] in
            subst (λ v. (pipe_is_empty v c market ≡ true) × IsIdle v c) (sym same) (empty, idle),
      )
