-- ===== src/EventQueue/Watched.antt =====
-- Pushes and pops of a queue that do not overlap: event_queue_push of
-- src/engine/core/event_queue.c and event_pop_form_pipe of src/engine/core/event_bus.c.
use ats.Base.{ℕ, ◌≡◌, ◌≢◌, ◌⊎◌, inl, inr, refl, Bool, true, false, arith, ◌<◌}
use ats.Spscq
use ats.EventQueue.Notify.{
  Producer, Consumer, Shared, Step, check, push, notify, return_quietly, remove, pop, requeue,
  leave, add, skip,
}
use ats.EventQueue.Lost.{IsResting}

-- A push and a pop of the same queue do not overlap.
abbrev pub IsApart : Shared → Type 0
IsApart s = (s.producer ≡ Producer.idle) ⊎ (s.consumer ≡ Consumer.idle)

pub data ReachApart (s : Shared) : Shared → Type 0 where
  here : IsApart s → ReachApart s s
  later : {t u : Shared} → ReachApart s t → Step t u → IsApart u → ReachApart s u

-- Events that wait are seen: the bus has the queue in its heap or in `pending_queue`, or is at work
-- on it, or the producer is about to tell the bus.
abbrev pub IsWatched : Shared → Type 0
IsWatched s =
    (s.in_heap ≡ true)
    ⊎ ((0 < s.pending) ⊎ ((s.producer ≡ Producer.pushed true) ⊎ (s.consumer ≢ Consumer.idle)))

record Inv (s : Shared) : Type 0 where
  apart : IsApart s
  seen : (e : ℕ) (b : Bool) → s.producer ≡ Producer.checked e b → b ≡ Spscq.is_empty s.spsc
  watched : Spscq.is_empty s.spsc ≡ false → IsWatched s

Step-Inv : (s t : Shared) → Inv s → IsApart t → Step s t → Inv t
Step-Inv s t i a (check e p) = record {
  apart = a;
  seen = λ e' b q. ground arith;
  watched = λ h. ground (arith, i.watched h);
}
Step-Inv s t i a (push e b p) = record {
  apart = a;
  seen = λ e' b' q. ground arith;
  watched = λ h. ground (arith, i.watched, i.seen e b p);
}
Step-Inv s t i a (notify p) = record {
  apart = a;
  seen = λ e b q. ground arith;
  watched = λ h. inr (inl (omega arith));
}
Step-Inv s t i a (return_quietly p) = record {
  apart = a;
  seen = λ e b q. ground arith;
  watched = λ h. ground (arith, i.watched h);
}
Step-Inv s t i a (remove p q) = record {
  apart = a;
  seen = i.seen;
  watched = λ h. inr (inr (inr (λ e. ground arith)));
}
Step-Inv s t i a (pop p) = record {
  apart = a;
  seen = λ e b q. ground (arith, i.apart);
  watched = λ h. inr (inr (inr (λ e. ground arith)));
}
Step-Inv s t i a (requeue p q) = record { apart = a; seen = i.seen; watched = λ h. inl refl }
Step-Inv s t i a (leave p q) = record { apart = a; seen = i.seen; watched = λ h. ground arith }
Step-Inv s t i a (add n p q r) = record { apart = a; seen = i.seen; watched = λ h. inl refl }
Step-Inv s t i a (skip n p q r) = record { apart = a; seen = i.seen; watched = λ h. ground arith }

ReachApart-Inv : {s t : Shared} → IsResting s → ReachApart s t → Inv t
ReachApart-Inv r (here a) = record {
  apart = a;
  seen = λ e b q. ground (arith, r.producing);
  watched = λ h. inl r.in_heap;
}
ReachApart-Inv r (later {t} {u} reach st a) = Step-Inv t u (ReachApart-Inv r reach) a st

-- While no push overlaps a pop, no event is lost from sight: from a resting state, whenever events
-- wait in the queue, the bus has the queue or is going to get it.
pub ReachApart-IsWatched :
    {s t : Shared} → IsResting s → ReachApart s t → Spscq.is_empty t.spsc ≡ false → IsWatched t
ReachApart-IsWatched r reach = (ReachApart-Inv r reach).watched
