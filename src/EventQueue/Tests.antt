-- ===== src/EventQueue/Tests.antt =====
-- Runs of a push against a pop, src/engine/core/event_queue.c and event_bus.c.
use ats.Base.{ℕ, List, some, ◌≡◌, refl, [], ◌∷◌, arith, true, false, inl, inr}
use ats.Spscq
use ats.Spscq.{Spscq}
use ats.Spscq.Ring.{contents}
use ats.EventQueue.Notify.{Producer, Consumer, Shared, Reach, check, push, return_quietly}
use ats.EventQueue.Lost.{IsResting, Stranded, lost_for_good}
use ats.EventQueue.Watched
use ats.EventQueue.Watched.{ReachApart, IsWatched, ReachApart-IsWatched}
use ats.World.{World}
use ats.EventQueue.{event_queue_destroy}
use ats.EventQueue.Destroy.{Spares, occurs, lowered, event_queue_destroy_lem}
use ats.Samples.{one_ring, small, idle_hooks}

abbrev resting : Shared
resting = record {
  spsc = one_ring;
  in_heap = true;
  pending = 0;
  producer = Producer.idle;
  consumer = Consumer.idle;
}

resting-IsResting : IsResting resting
resting-IsResting = record {
  valid = ground arith;
  in_heap = refl;
  pending = refl;
  producing = refl;
  consuming = refl;
}

lost_for_good_example :
    (t : Shared) × Reach resting t
    × (contents t.spsc ≡ 8 ∷ [])
    × ((u : Shared) → Reach t u → Stranded u)
lost_for_good_example = lost_for_good resting 7 8 resting-IsResting refl

abbrev pushed : Shared
pushed = record {
  spsc = record { capacity = 4; records = 7 ∷ 8 ∷ 0 ∷ 0 ∷ []; read_pos = 0; write_pos = 2 };
  in_heap = true;
  pending = 0;
  producer = Producer.idle;
  consumer = Consumer.idle;
}

pushed-ReachApart : ReachApart resting pushed
unfolding Spscq.push Spscq.is_empty
pushed-ReachApart =
    Watched.later
      (Watched.later (Watched.later (Watched.here (inl refl)) (check 8 refl) (inr refl))
        (push 8 false refl) (inr refl))
      (return_quietly refl) (inr refl)

pushed-some_left : Spscq.is_empty pushed.spsc ≡ false
unfolding Spscq.is_empty
pushed-some_left = refl

ReachApart-IsWatched_example : IsWatched pushed
ReachApart-IsWatched_example =
    ReachApart-IsWatched resting-IsResting pushed-ReachApart pushed-some_left

idle_hooks-Spares : Spares idle_hooks
idle_hooks-Spares = record { queues = λ f e w. refl; events = λ f e w. refl }

event_queue_destroy_lem_example :
    (w' : World (List ℕ) (List ℕ)) × (event_queue_destroy small 5 ≡ some w')
    × (Spscq.is_empty (w'.queues 5).spsc ≡ true)
    × ((a : ℕ) → (w'.events a).refcount ≡ lowered 1 (occurs a (7 ∷ [])))
event_queue_destroy_lem_example =
    event_queue_destroy_lem small 5 idle_hooks-Spares (ground arith) ((λ e. ground arith), tt)
      (λ a. omega arith)
