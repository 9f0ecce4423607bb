-- ===== src/Bus/Types.antt =====
-- src/engine/core/event_bus.c: the search for the next event leaves the types of events alone.
use ats.Base.{
  ℕ, zero, suc, ◌+◌, ◌≡◌, refl, sym, ap, ◌∙◌, subst, Option, some, none, Bool, true, false,
  Bool-cases, inl, inr, not, ◌&&◌, ◌==◌, if◌then◌else◌, require, arith, null, get_or, ◌>>=◌, Status,
}
use ats.Heap.{MinHeap}
use ats.Mpscq.{Mpscq}
use ats.Event.{event_ref}
use ats.EventQueue.{event_queue_push}
use ats.Wakeup.{bus_async_add_queue}
use ats.World.{Clock, market, World}
use ats.Bus.Heaps.{
  timer_heap_pop, event_pop_from_pipe, pipe_is_empty, rearm, insert_timer, remove_timer,
}
use ats.Bus.Dequeue.{
  take_market, fetch_market, saved_event, set_saved, about_queue, forward, hand_out_saved,
}
use ats.Bus.Pipes.{events-pop}

-- A chain of two steps that has returned.
pub >>=-inv :
    {A B : Type 0}
    → (m : Option A) (f : A → Option B) (b : B) → (m >>= f) ≡ some b
    → (a : A) × (m ≡ some a) × (f a ≡ some b)
>>=-inv none f b h = cc
>>=-inv (some a) f b h = (a, refl, h)

require-inv : {A : Type 0} → (b : Bool) (m : Option A) (a : A) → require b m ≡ some a → m ≡ some a
require-inv true m a h = h
require-inv false m a h = cc

pub some-inv : {A : Type 0} → (x y : A) → some x ≡ some y → x ≡ y
some-inv x y h = cc

-- What holds of each outcome of a round holds of the one that came.
round-inv :
    {A : Type 0}
    → (P : A → Type 0) (b c d : Bool) (rest : Option A) (x y z : A) → (rest ≡ some z → P z)
    → P x
    → P y
    → (if b then require c (if d then rest else some x) else some y) ≡ some z
    → P z
round-inv P true true true rest x y z hr hx hy h = hr h
round-inv P true true false rest x y z hr hx hy h = subst P (some-inv x z h) hx
round-inv P true false d rest x y z hr hx hy h = cc
round-inv P false c d rest x y z hr hx hy h = subst P (some-inv y z h) hy

module _ {H P : Type 0} where
  -- Every event has the type that it had.
  abbrev pub SameTypes : World H P → World H P → Type 0
  SameTypes w w' = (a : ℕ) → (w'.events a).event_type ≡ (w.events a).event_type

  pub SameTypes-refl : (w : World H P) → SameTypes w w
  SameTypes-refl w a = refl

  pub SameTypes-trans : (u v w : World H P) → SameTypes u v → SameTypes v w → SameTypes u w
  SameTypes-trans u v w g h a = h a ∙ g a

  pub of_events : (w w' : World H P) → w'.events ≡ w.events → SameTypes w w'
  of_events w w' e a = ap (λ f. (f a).event_type) e

module _ {H P : Type 0} ⦃heap : MinHeap H⦄ where
  take_market-SameTypes : (w : World H P) (c e : ℕ) → SameTypes w ((take_market w c e).1)
  unfolding take_market
  take_market-SameTypes w c e a = ground arith

  pub fetch_market-SameTypes :
      (fuel : ℕ) (w w' : World H P) (c : ℕ) → fetch_market fuel w c ≡ some w' → SameTypes w w'
  unfolding fetch_market
  fetch_market-SameTypes zero w w' c h = cc
  fetch_market-SameTypes (suc fuel) w w' c h =
      let (e, w1) = event_pop_from_pipe w c market in
      let w2 = (take_market w1 c e).1 in
      let first =
        SameTypes-trans w w1 w2 (of_events w w1 (events-pop w c market))
          (take_market-SameTypes w1 c e) in
      round-inv (SameTypes w) (not (pipe_is_empty w c market) && saved_event w c == null)
        (not (e == null)) (take_market w1 c e).0 (fetch_market fuel w2 c) w2 w w'
        (λ r. SameTypes-trans w w2 w' first (fetch_market-SameTypes fuel w2 w' c r)) first
        (SameTypes-refl w) h

  pub timer_heap_pop-events :
      (w : World H P) (c : ℕ) (k : Clock) → (timer_heap_pop w c k).1.events ≡ w.events
  unfolding timer_heap_pop rearm insert_timer remove_timer
  timer_heap_pop-events w c k = ground arith

module _ {H P : Type 0} ⦃heap : MinHeap H⦄ ⦃mpscq : Mpscq P⦄ where
  event_queue_push-events :
      (w : World H P) (q e : ℕ) (r : Status × World H P)
      → event_queue_push w q e ≡ some r
      → r.1.events ≡ w.events
  unfolding event_queue_push bus_async_add_queue
  event_queue_push-events w q e r h = ground (arith, h)

  event_ref-SameTypes : (w w' : World H P) (e : ℕ) → event_ref w e ≡ some w' → SameTypes w w'
  unfolding event_ref
  event_ref-SameTypes w w' e h a = ground (arith, h)

  -- One round of the loop that passes an event on
  abbrev passed : World H P → ℕ → ℕ → Option (World H P)
  passed w q e =
      if about_queue w e
      then some w
      else (event_ref w e >>= λ w'. event_queue_push w' q e >>= λ r. some (r.1))

  passed-SameTypes : (w w' : World H P) (q e : ℕ) → passed w q e ≡ some w' → SameTypes w w'
  passed-SameTypes w w' q e h = elim (Bool-cases (about_queue w e)) [
    | inl skip ↦
        let same : w ≡ w' = ground (arith, h) in subst (SameTypes w) same (SameTypes-refl w)
    | inr pass ↦
        let push = λ (v : World H P). event_queue_push v q e >>= λ r. some (r.1) in
        let (w1, taken, rest) = >>=-inv (event_ref w e) push w' (sym (rw pass refl) ∙ h) in
        let (r, pushed, end) = >>=-inv (event_queue_push w1 q e) (λ r. some (r.1)) w' rest in
        let same : r.1 ≡ w' = some-inv (r.1) w' end in
        subst (SameTypes w) same (
          SameTypes-trans w w1 (r.1) (event_ref-SameTypes w w1 e taken)
            (of_events w1 (r.1) (event_queue_push-events w1 q e r pushed)))
  ]

  forward-SameTypes :
      (left : ℕ) (w w' : World H P) (c e i : ℕ) → forward left w c e i ≡ some w' → SameTypes w w'
  unfolding forward
  forward-SameTypes zero w w' c e i h = subst (SameTypes w) (some-inv w w' h) (SameTypes-refl w)
  forward-SameTypes (suc left) w w' c e i h =
      let q = get_or (w.contexts c).attached i null in
      let (w1, here, rest) = >>=-inv (passed w q e) (λ v. forward left v c e (i + 1)) w' h in
      SameTypes-trans w w1 w' (passed-SameTypes w w1 q e here)
        (forward-SameTypes left w1 w' c e (i + 1) rest)

  pub hand_out_saved-SameTypes :
      (w : World H P) (c : ℕ) (r : ℕ × World H P) → hand_out_saved w c ≡ some r → SameTypes w (r.1)
  unfolding hand_out_saved
  hand_out_saved-SameTypes w c r h = elim (Bool-cases (saved_event w c == null)) [
    | inl none_saved ↦
        let same : w ≡ r.1 = ground (arith, h) in subst (SameTypes w) same (SameTypes-refl w)
    | inr saved ↦
        let w0 = set_saved w c null in
        let e = saved_event w c in
        let (w1, passed, end) =
          >>=-inv (forward ((w.contexts c).attached_count) w0 c e 0) (λ v. some (e, v)) r
            (sym (rw saved refl) ∙ h) in
        let same : w1 ≡ r.1 = ground (arith, end) in
        subst (SameTypes w) same (
          SameTypes-trans w w0 w1 (of_events w w0 refl)
            (forward-SameTypes ((w.contexts c).attached_count) w0 w1 c e 0 passed))
  ]
