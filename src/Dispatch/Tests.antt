-- ===== src/Dispatch/Tests.antt =====
-- Runs of src/engine/core/event_dispatch.c.
use ats.Base.{ℕ, ◌≡◌, ◌≢◌, ◌<◌, refl, List, [], ◌∷◌, arith, some, null, ◌==◌, if◌then◌else◌}
use ats.Heap.Sorted.{sorted_heap, count, min}
use ats.World.{World, Clock, event_last}
use ats.Bus.Heaps.{timer_heap, timer_heap_pop}
use ats.Dispatch.{emit_delayed_events, dispatch_event, filter_event, add_reentrant}
use ats.Dispatch.Count.{IsQuiet, dispatch_event-count}
use ats.Dispatch.Repeat.{IsArmed, dispatch_event-repeating}
use ats.Dispatch.Delayed.{IsTyped, KeepsTypes, emit_delayed_events_lem}
use ats.Spscq.Ring.{contents}
use ats.Samples.{small, small_context, one_ring, idle_hooks}

idle_hooks-IsQuiet : IsQuiet idle_hooks
idle_hooks-IsQuiet = record {
  handle = λ f c e w. refl;
  filter = λ f e w. refl;
  destroy = λ f e w. refl;
}

small-IsArmed : IsArmed small 1 Clock.local 9
unfolding count min
small-IsArmed = record {
  ordered = (tt, tt);
  once = refl;
  first = refl;
  not_null = λ e. ground arith;
  home = refl;
  period = λ e. ground arith;
}

dispatch_event-repeating_example :
    (w' : World (List ℕ) (List ℕ)) × (dispatch_event ((timer_heap_pop small 1 Clock.local).1) 1 9
      ≡ some w')
    × ((timer_heap_pop small 1 Clock.local).0 ≡ 9)
    × (sorted_heap.count (timer_heap w' 1 Clock.local) 9 ≡ 1)
    × (l : List ℕ) × (w'.freed ≡ 9 ∷ l)
dispatch_event-repeating_example =
    dispatch_event-repeating small 1 Clock.local 9 small-IsArmed
      (record { quiet = idle_hooks-IsQuiet; events = λ f c e w. refl }) refl refl (omega arith)

type_below :
    (filter_event (add_reentrant small 1 1) 1 7).0 ≢ null
    → ((filter_event (add_reentrant small 1 1) 1 7).1.events
        (filter_event (add_reentrant small 1 1) 1 7).0).event_type
      < event_last
unfolding filter_event
type_below h = omega arith

dispatch_event-count_example :
    (w' : World (List ℕ) (List ℕ)) × (dispatch_event small 1 7 ≡ some w')
    × ((w'.contexts 1).dispatch_reentrant_count
        ≡ (if (filter_event (add_reentrant small 1 1) 1 7).0 == null then 1 else 0))
dispatch_event-count_example =
    dispatch_event-count small 1 7 idle_hooks-IsQuiet (omega arith) type_below

-- The event 7 is buffered.
abbrev delayed : World (List ℕ) (List ℕ)
delayed = record small { contexts = λ c. record small_context { buffed_event_queue = one_ring } }

idle_hooks-KeepsTypes : KeepsTypes idle_hooks
idle_hooks-KeepsTypes = record {
  handle = λ f c e w typed. typed;
  filter = λ f e w typed. typed;
  destroy = λ f e w typed. typed;
}

emit_delayed_events_lem_example :
    (w' : World (List ℕ) (List ℕ)) × (emit_delayed_events 2 delayed 1 ≡ some w')
    × (contents (w'.contexts 1).buffed_event_queue ≡ [])
    × IsTyped w'
emit_delayed_events_lem_example =
    emit_delayed_events_lem (7 ∷ []) 2 delayed 1 idle_hooks-IsQuiet idle_hooks-KeepsTypes
      (λ a. omega arith) (ground arith) refl ((λ e. ground arith), tt) (omega arith)
