-- ===== src/Bus/LoopTests.antt =====
-- Runs of the loops of the bus and of its timers, src/engine/core/event_bus.c.
use ats.Bus.Busy.{busy, busy-PipesInv, busy-CanAllJoin, busy-Covers, busy-NoNull, busy-IsServing}
use ats.Bus.NextEvent.{bus_dequeue_lem}
use ats.Base.{
  ◌≤◌, ℕ, ◌≡◌, ◌+◌, ◌==◌, if◌then◌else◌, refl, List, [], ◌∷◌, arith, true, subst, some, null,
}
use ats.Heap.Sorted.{sorted_heap, count}
use ats.Mpscq.{list_queue}
use ats.World.{Clock, World, Category, market}
use ats.Bus.Heaps.{queue_heap, timer_heap, timer_heap_pop, bus_add_timer, pipe_is_empty}
use ats.Bus.Dequeue.{check_pending_queue, fetch_market, bus_dequeue}
use ats.Bus.Pipes.{PipesInv}
use ats.Bus.Joins.{Grows}
use ats.Bus.Pending.{AreIn, check_pending_queue_lem}
use ats.Bus.Round.{count_in}
use ats.Bus.Fetch.{Fetched, fetch_market_lem}
use ats.Bus.Progress.{IsIdle}
use ats.Bus.Timer.{TimerInv, IsTimer}
use ats.Bus.Expire.{Fired, timer_heap_pop_lem}
use ats.Bus.AddTimer.{bus_add_timer_lem}
use ats.Samples.{small}

check_pending_queue_lem_example :
    (w' : World (List ℕ) (List ℕ)) × (check_pending_queue 2 busy 1 ≡ some w')
    × PipesInv w' 1
    × ((w'.contexts 1).pending_queue ≡ [])
    × AreIn busy w' 1 (6 ∷ [])
    × Grows busy w' 1
    × ((k : Category) (a : ℕ)
        → sorted_heap.count (queue_heap w' 1 k) a
          ≤ count_in (6 ∷ []) a + sorted_heap.count (queue_heap busy 1 k) a)
check_pending_queue_lem_example =
    check_pending_queue_lem (6 ∷ []) 2 busy 1 refl busy-CanAllJoin busy-PipesInv (omega arith)

fetch_market_lem_example :
    (w' : World (List ℕ) (List ℕ)) × (fetch_market 4 busy 1 ≡ some w')
    × Fetched busy w' 1 (4 ∷ 5 ∷ 6 ∷ [])
fetch_market_lem_example =
    fetch_market_lem 4 busy 1 (4 ∷ 5 ∷ 6 ∷ []) busy-PipesInv (busy-Covers Category.market)
      busy-NoNull (omega arith)

bus_dequeue_lem_example :
    (r : ℕ × World (List ℕ) (List ℕ)) × (bus_dequeue 4 busy 1 ≡ some r)
    × (r.0 ≡ null → (pipe_is_empty (r.1) 1 market ≡ true) × IsIdle (r.1) 1)
bus_dequeue_lem_example =
    bus_dequeue_lem 4 busy 1 (4 ∷ 5 ∷ 6 ∷ []) busy-IsServing (omega arith) (omega arith)

nine-IsTimer : IsTimer small 1 Clock.local 9
nine-IsTimer = record { not_null = λ e. ground arith; home = refl; clock = refl }

small-TimerInv : TimerInv small 1 Clock.local
unfolding count
small-TimerInv = record {
  ordered = (tt, tt);
  once = λ t. ground arith;
  members = λ t m. subst (IsTimer small 1 Clock.local) (ground arith) nine-IsTimer;
}

timer_heap_pop_lem_example :
    let (t, w') = timer_heap_pop small 1 Clock.local in Fired small 1 Clock.local t w'
timer_heap_pop_lem_example =
    timer_heap_pop_lem small 1 Clock.local small-TimerInv (λ e. ground arith)

bus_add_timer_lem_example :
    (w' : World (List ℕ) (List ℕ)) × (bus_add_timer small 1 8 ≡ some w')
    × TimerInv w' 1 Clock.local
    × ((a : ℕ)
        → sorted_heap.count (timer_heap w' 1 Clock.local) a
          ≡ (if 8 == a then 1 else 0) + sorted_heap.count (timer_heap small 1 Clock.local) a)
    × (w'.reminders 8 ≡ record (small.reminders 8) { ctx = 1; start_id = 3 })
unfolding count
bus_add_timer_lem_example =
    bus_add_timer_lem small 1 8 (λ e. ground arith) (λ e. ground arith) small-TimerInv refl
