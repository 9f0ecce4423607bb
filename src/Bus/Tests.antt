-- ===== src/Bus/Tests.antt =====
-- Runs of the bus of src/engine/core/event_bus.c.
use ats.Base.{
  ◌<◌, ℕ, ◌≡◌, ◌≤◌, ◌+◌, ◌⊎◌, refl, List, arith, true, inl, subst, some, not, ◌&&◌, ◌==◌,
  if◌then◌else◌, ok, err,
}
use ats.Heap.Sorted.{sorted_heap, count, min}
use ats.Spscq
use ats.Mpscq.{list_queue}
use ats.World.{World, Category, simulation, realtime}
use ats.EventQueue.{event_queue_is_empty}
use ats.Bus.Heaps.{bus_add_queue, event_pop_from_pipe, queue_heap}
use ats.Bus.Clocks.{bus_get_time, bus_set_time, bus_get_exchange_time, bus_set_exchange_time}
use ats.Bus.Dequeue.{simulation_select, realtime_select, saved_event}
use ats.Bus.Pipe.{PipeInv, IsQueued}
use ats.Bus.Add.{CanJoin, bus_add_queue_lem}
use ats.Bus.Pop.{Popped, event_pop_from_pipe_lem}
use ats.Bus.Time.{clocks_lem}
use ats.Bus.Select.{others_wait, simulation_select-others, FromOther}
use ats.Samples.{small}

five-IsQueued : IsQueued small 1 Category.execution 5
unfolding event_queue_is_empty Spscq.is_empty
five-IsQueued = record {
  not_null = λ e. ground arith;
  valid = ground arith;
  some_left = refl;
  home = refl;
  kind = refl;
  solid = (λ e. ground arith, tt);
}

small-PipeInv : PipeInv small 1 Category.execution
unfolding count
small-PipeInv = record {
  ordered = (tt, tt);
  once = λ q. ground arith;
  members = λ q m. subst (IsQueued small 1 Category.execution) (ground arith) five-IsQueued;
}

event_pop_from_pipe_lem_example :
    let (e, w') = event_pop_from_pipe small 1 Category.execution in
    Popped small 1 Category.execution e w'
event_pop_from_pipe_lem_example =
    event_pop_from_pipe_lem small 1 Category.execution small-PipeInv (λ e. ground arith)

six-CanJoin : CanJoin small 1 6
unfolding count
six-CanJoin = record {
  bus = λ e. ground arith;
  not_null = λ e. ground arith;
  free = inl refl;
  valid = ground arith;
  solid = (λ e. ground arith, tt);
  out = refl;
}

bus_add_queue_lem_example :
    (w' : World (List ℕ) (List ℕ)) × (bus_add_queue small 1 6 ≡ some w')
    × PipeInv w' 1 Category.execution
    × ((a : ℕ)
        → sorted_heap.count (queue_heap w' 1 Category.execution) a
          ≡ (if 6 == a && not (event_queue_is_empty small 6) then 1 else 0)
            + sorted_heap.count (queue_heap small 1 Category.execution) a)
    × ((w'.queues 6).ctx ≡ 1)
    × ((w'.queues 6).start_id ≡ 3)
bus_add_queue_lem_example = bus_add_queue_lem small 1 6 six-CanJoin small-PipeInv

clocks_lem_example :
    (let (r, w') = bus_set_time small 1 60 in
      ((((small.contexts 1).mode ≡ simulation)
          × (bus_get_time small 1 ≤ 60)
          × (r ≡ ok)
          × (bus_get_time w' 1 ≡ 60))
        ⊎ ((((small.contexts 1).mode ≡ realtime) ⊎ (60 < bus_get_time small 1))
            × (r ≡ err)
            × (w' ≡ small)))
      × (bus_get_exchange_time w' 1 ≡ bus_get_exchange_time small 1))
    × (let (r, w') = bus_set_exchange_time small 1 60 in
        (((bus_get_exchange_time small 1 ≤ 60) × (r ≡ ok) × (bus_get_exchange_time w' 1 ≡ 60))
          ⊎ ((60 < bus_get_exchange_time small 1) × (r ≡ err) × (w' ≡ small)))
        × (bus_get_time w' 1 ≡ bus_get_time small 1))
clocks_lem_example = clocks_lem small 1 60

small-others_wait : others_wait small 1 ≡ true
unfolding min
small-others_wait = refl

simulation_select-others_example :
    ((r : ℕ × World (List ℕ) (List ℕ)) × (simulation_select small 1 ≡ some r)
      × FromOther small 1 r
      × (saved_event (r.1) 1 ≡ 8))
    × (FromOther small 1 (realtime_select small 1)
        × (saved_event ((realtime_select small 1).1) 1 ≡ 8))
simulation_select-others_example = simulation_select-others small 1 small-others_wait
