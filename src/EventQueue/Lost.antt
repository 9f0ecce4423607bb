-- ===== src/EventQueue/Lost.antt =====
-- A push that runs while the bus pops the last event: event_queue_push of
-- src/engine/core/event_queue.c and event_pop_form_pipe of src/engine/core/event_bus.c.
use ats.Base.{subst, ℕ, ◌≡◌, refl, true, false, [], ◌∷◌, arith, ap}
use ats.Spscq
use ats.Spscq.{Spscq, next_record}
use ats.Spscq.Ring.{IsValid, contents}
use ats.Spscq.Refine.{
  pop-IsValid, contents-pop_cons, not_empty_of_cons, is_empty_of_contents, contents-push_empty,
}
use ats.EventQueue.Notify.{
  Producer, Consumer, Shared, Step, check, push, notify, return_quietly, remove, pop, requeue,
  leave, add, skip, Reach, here, later,
}

-- A producer that has not seen the queue empty.
abbrev pub IsQuiet : Producer → Type 0
IsQuiet Producer.idle = Unit {0}
IsQuiet (Producer.checked e b) = b ≡ false
IsQuiet (Producer.pushed b) = b ≡ false

-- Events wait in the queue, and the bus has the queue neither in its heap nor in `pending_queue`.
pub record Stranded (s : Shared) : Type 0 where
  pub some_left : Spscq.is_empty s.spsc ≡ false
  pub not_in_heap : s.in_heap ≡ false
  pub not_pending : s.pending ≡ 0
  pub producing : IsQuiet s.producer
  pub bus_idle : s.consumer ≡ Consumer.idle

-- A push never empties a queue.
is_empty-push :
    (q : Spscq) (e : ℕ) → Spscq.is_empty q ≡ false → Spscq.is_empty (Spscq.push q e).1 ≡ false
unfolding Spscq.is_empty Spscq.push
is_empty-push q e h = ground arith

Step-Stranded : (s t : Shared) → Stranded s → Step s t → Stranded t
Step-Stranded s t h (check e p) = record {
  some_left = h.some_left;
  not_in_heap = h.not_in_heap;
  not_pending = h.not_pending;
  producing = h.some_left;
  bus_idle = h.bus_idle;
}
Step-Stranded s t h (push e b p) = record {
  some_left = is_empty-push s.spsc e h.some_left;
  not_in_heap = h.not_in_heap;
  not_pending = h.not_pending;
  producing = subst IsQuiet p h.producing;
  bus_idle = h.bus_idle;
}
Step-Stranded s t h (notify p) = absurd (ground arith)
Step-Stranded s t h (return_quietly p) = record {
  some_left = h.some_left;
  not_in_heap = h.not_in_heap;
  not_pending = h.not_pending;
  producing = tt;
  bus_idle = h.bus_idle;
}
Step-Stranded s t h (remove p q) = absurd (ground arith)
Step-Stranded s t h (pop p) = absurd (ground arith)
Step-Stranded s t h (requeue p q) = absurd (ground arith)
Step-Stranded s t h (leave p q) = absurd (ground arith)
Step-Stranded s t h (add n p q r) = absurd (ground arith)
Step-Stranded s t h (skip n p q r) = absurd (ground arith)

-- Once the queue is stranded it stays so, whatever the two threads do: it keeps an event, and stays
-- out of the heap and of `pending_queue`.
Stranded-forever : {s t : Shared} → Stranded s → Reach s t → Stranded t
Stranded-forever h here = h
Stranded-forever h (later {t} {u} r st) = Step-Stranded t u (Stranded-forever h r) st

-- The state of a bus that holds the queue in its heap, while nobody is at work.
pub record IsResting (s : Shared) : Type 0 where
  pub valid : IsValid s.spsc
  pub in_heap : s.in_heap ≡ true
  pub pending : s.pending ≡ 0
  pub producing : s.producer ≡ Producer.idle
  pub consuming : s.consumer ≡ Consumer.idle

-- From every state in which the bus holds a valid queue in its heap and nobody is at work, with one
-- event `x` in the queue, and for every event `e`, there is an interleaving of one push of `e` with
-- one pop that strands the queue with `e` in it.
lost_wakeup :
    (s : Shared) (x e : ℕ)
    → IsResting s
    → contents s.spsc ≡ x ∷ []
    → (t : Shared) × Reach s t × Stranded t × (contents t.spsc ≡ e ∷ [])
lost_wakeup s x e r one =
    let after = (Spscq.pop s.spsc).1 in
    let still : IsValid after = pop-IsValid s.spsc r.valid in
    let nothing : contents after ≡ [] = (contents-pop_cons s.spsc x [] r.valid one).1 in
    let some_left : Spscq.is_empty s.spsc ≡ false = not_empty_of_cons s.spsc x [] r.valid one in
    (
      record {
        spsc = (Spscq.push after e).1;
        in_heap = false;
        pending = s.pending;
        producer = Producer.idle;
        consumer = Consumer.idle;
      },
      later
          (later
            (later
              (later (later (later here (check e r.producing)) (remove r.consuming r.in_heap))
                (pop refl))
              (leave refl (is_empty_of_contents after still nothing)))
            (push e false (ap (Producer.checked e) some_left)))
          (return_quietly refl),
      record {
        some_left = (contents-push_empty after e still nothing).1;
        not_in_heap = refl;
        not_pending = r.pending;
        producing = tt;
        bus_idle = refl;
      },
      (contents-push_empty after e still nothing).0,
    )

-- From every state in which the bus holds a valid queue in its heap and nobody is at work, with one
-- event `x` in the queue, and for every event `e`, there is an interleaving of one push of `e` with
-- one pop that leaves the queue with `e` in it and strands it for good: in every state that the two
-- threads reach from there it holds an event, and is neither in the heap nor in `pending_queue`.
pub lost_for_good :
    (s : Shared) (x e : ℕ)
    → IsResting s
    → contents s.spsc ≡ x ∷ []
    → (t : Shared) × Reach s t
      × (contents t.spsc ≡ e ∷ [])
      × ((u : Shared) → Reach t u → Stranded u)
lost_for_good s x e r one =
    let (t, reached, lost, left) = lost_wakeup s x e r one in
    (t, reached, left, λ u more. Stranded-forever lost more)
