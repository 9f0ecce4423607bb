-- ===== src/EventQueue/Destroy.antt =====
-- src/engine/core/event_queue.c: event_queue_destroy.
use ats.Base.{
  ℕ, zero, suc, ◌+◌, ◌<◌, ◌≡◌, ◌≢◌, refl, sym, ap, ◌∙◌, subst, Bool-cases, true, ◌==◌,
  if◌then◌else◌, arith, null, inl, inr, some, List, [], ◌∷◌, length, update, update_self, ◌^◌, u64,
  ◌-◌, ◌*◌,
}
use ats.Spscq
use ats.Spscq.{Spscq}
use ats.Spscq.Ring.{IsValid, contents}
use ats.Spscq.Refine.{pop-IsValid, contents-pop_cons, is_empty_of_contents, length-contents}
use ats.World.{World, Hooks}
use ats.Event.{event_unref, event_free}
use ats.EventQueue.{set_spsc, event_queue_pop, unref_all, event_queue_destroy}

-- The functions that destroy events leave the queues and the events alone.
pub record Spares {H P : Type 0} (hooks : Hooks H P) : Type 0 where
  pub queues : (f e : ℕ) (w : World H P) → (hooks.destroy f e w).queues ≡ w.queues
  pub events : (f e : ℕ) (w : World H P) → (hooks.destroy f e w).events ≡ w.events

-- No event of the list is a null pointer.
abbrev pub NonNull : List ℕ → Type 0
NonNull [] = Unit
NonNull (e ∷ l) = (e ≢ null) × NonNull l

-- How often an event is in the list
abbrev pub occurs : ℕ → List ℕ → ℕ
occurs a [] = 0
occurs a (e ∷ l) = (if e == a then 1 else 0) + occurs a l

-- A count that is lowered `n` times, on 64 bits
abbrev pub lowered : ℕ → ℕ → ℕ
lowered count n = u64 (count + n * (2 ^ 64 - 1))

lowered_none : (count : ℕ) → count < 2 ^ 64 → count ≡ lowered count 0
lowered_none count h = omega arith

lowered_again : (count m n : ℕ) → lowered (lowered count m) n ≡ lowered count (m + n)
lowered_again count m n = omega arith

pub pop-empty : (s : Spscq) → IsValid s → contents s ≡ [] → Spscq.pop s ≡ (null, s)
unfolding Spscq.pop Spscq.is_empty
pop-empty s v e = ground (arith, is_empty_of_contents s v e)

module _ {H P : Type 0} ⦃hooks : Hooks H P⦄ where
  event_unref-Spares :
      (w : World H P) (e : ℕ)
      → Spares hooks
      → ((a : ℕ) → (w.events a).refcount < 2 ^ 64)
      → e ≢ null
      → (w' : World H P) × (event_unref w e ≡ some w')
        × (w'.queues ≡ w.queues)
        × ((a : ℕ)
            → (w'.events a).refcount ≡ lowered (w.events a).refcount (if e == a then 1 else 0))
  unfolding event_unref event_free
  event_unref-Spares w e spares words nn =
      let less = record w {
        events =
            update w.events e
              (record (w.events e) { refcount = u64 ((w.events e).refcount + (2 ^ 64 - 1)) });
      } in
      let counts : (a : ℕ)
          → (less.events a).refcount ≡ lowered (w.events a).refcount (if e == a then 1 else 0) =
        λ a. ground (arith, words a) in
      let destroy = (w.event_vtable ((w.events e).event_type)).destroy_func in
      let same : (event_free less e).events ≡ less.events =
        ground (arith, spares.events destroy e less) in
      elim (Bool-cases ((w.events e).refcount == 1)) [
        | inl h ↦ (
          event_free less e,
          ground arith,
          ground (arith, spares.queues destroy e less),
          λ a. ap (λ f. (f a).refcount) same ∙ counts a,
        )
        | inr h ↦ (less, ground arith, refl, counts)
      ]

  -- What a run of the loop over the pointers `l` leaves behind
  record Emptied (w : World H P) (q : ℕ) (l : List ℕ) (w' : World H P) : Type 0 where
    valid : IsValid (w'.queues q).spsc
    nothing : contents (w'.queues q).spsc ≡ []
    counts : (a : ℕ) → (w'.events a).refcount ≡ lowered (w.events a).refcount (occurs a l)

  pop_cons :
      (w : World H P) (q x : ℕ) (l : List ℕ)
      → IsValid (w.queues q).spsc
      → contents (w.queues q).spsc ≡ x ∷ l
      → let (e, w') = event_queue_pop w q in
        (e ≡ x)
        × (contents (w'.queues q).spsc ≡ l)
        × IsValid (w'.queues q).spsc
        × (w'.events ≡ w.events)
  unfolding event_queue_pop
  pop_cons w q x l v e =
      let s = (w.queues q).spsc in
      let (first, left) = contents-pop_cons s x l v e in
      let now = update_self w.queues q (record (w.queues q) { spsc = (Spscq.pop s).1 }) in
      (
        first,
        subst (λ y. contents y.spsc ≡ l) (sym now) left,
        subst (λ y. IsValid y.spsc) (sym now) (pop-IsValid s v),
        refl,
      )

  pop_nil :
      (w : World H P) (q : ℕ)
      → IsValid (w.queues q).spsc
      → contents (w.queues q).spsc ≡ []
      → let (e, w') = event_queue_pop w q in
        (e ≡ null) × ((w'.queues q).spsc ≡ (w.queues q).spsc) × (w'.events ≡ w.events)
  unfolding event_queue_pop
  pop_nil w q v e =
      let s = (w.queues q).spsc in
      let gives = pop-empty s v e in
      (
        ap (λ r. r.0) gives,
        ap (λ x. x.spsc) (update_self w.queues q (record (w.queues q) { spsc = (Spscq.pop s).1 }))
            ∙ ap (λ r. r.1) gives,
        refl,
      )

  unref_all-Emptied :
      (l : List ℕ) (fuel : ℕ) (w : World H P) (q : ℕ)
      → Spares hooks
      → NonNull l
      → length l < fuel
      → IsValid (w.queues q).spsc
      → contents (w.queues q).spsc ≡ l
      → ((a : ℕ) → (w.events a).refcount < 2 ^ 64)
      → (w' : World H P) × (unref_all fuel w q ≡ some w') × Emptied w q l w'
  unfolding unref_all
  unref_all-Emptied [] zero w q spares nn enough v e words = elim enough [ ]
  unref_all-Emptied (x ∷ l) zero w q spares nn enough v e words = elim enough [ ]
  unref_all-Emptied [] (suc fuel) w q spares nn enough v e words =
      let (is_null, ring, same) = pop_nil w q v e in
      let here : unref_all (suc fuel) w q ≡ some (event_queue_pop w q).1 =
        rw is_null (ground arith) in
      (
        (event_queue_pop w q).1,
        here,
        record {
          valid = subst IsValid (sym ring) v;
          nothing = ap contents ring ∙ e;
          counts =
              λ a. ap (λ f. (f a).refcount) same ∙ lowered_none (w.events a).refcount (words a);
        },
      )
  unref_all-Emptied (x ∷ l) (suc fuel) w q spares (nx, nn) enough v e words =
      let w₁ = (event_queue_pop w q).1 in
      let (is_x, left, v₁, same) = pop_cons w q x l v e in
      let words₁ : (a : ℕ) → (w₁.events a).refcount < 2 ^ 64 =
        λ a. subst (λ f. (f a).refcount < 2 ^ 64) (sym same) (words a) in
      let (w₂, did, queues, counts) = event_unref-Spares w₁ x spares words₁ nx in
      let words₂ : (a : ℕ) → (w₂.events a).refcount < 2 ^ 64 = λ a. rw (counts a) (omega arith) in
      let (w₃, rest, emptied) =
        unref_all-Emptied l fuel w₂ q spares nn (omega arith)
          (subst (λ g. IsValid (g q).spsc) (sym queues) v₁)
          (subst (λ g. contents (g q).spsc ≡ l) (sym queues) left) words₂ in
      let is_nx : (event_queue_pop w q).0 ≢ null = subst (λ y. y ≢ null) (sym is_x) nx in
      let did' : event_unref w₁ (event_queue_pop w q).0 ≡ some w₂ =
        subst (λ y. event_unref w₁ y ≡ some w₂) (sym is_x) did in
      (
        w₃,
        ground (arith, did', rest),
        record {
          valid = emptied.valid;
          nothing = emptied.nothing;
          counts = λ a.
              let n = if x == a then 1 else 0 in
              emptied.counts a
              ∙ ap (λ c. lowered c (occurs a l))
                  (counts a ∙ ap (λ f. lowered (f a).refcount n) same)
              ∙ lowered_again (w.events a).refcount n (occurs a l);
        },
      )

  -- Destroying an event queue ends: over a valid ring that holds no null pointer, with destroy
  -- functions that leave queues and events alone, `event_queue_destroy` takes out every queued event,
  -- lowers the reference count of each event once for each time it was queued, and passes the ASSERT
  -- of `spscq_destroy` that the ring is empty.
  pub event_queue_destroy_lem :
      (w : World H P) (q : ℕ)
      → Spares hooks
      → IsValid (w.queues q).spsc
      → NonNull (contents (w.queues q).spsc)
      → ((a : ℕ) → (w.events a).refcount < 2 ^ 64)
      → (w' : World H P) × (event_queue_destroy w q ≡ some w')
        × (Spscq.is_empty (w'.queues q).spsc ≡ true)
        × ((a : ℕ)
            → (w'.events a).refcount
              ≡ lowered (w.events a).refcount (occurs a (contents (w.queues q).spsc)))
  unfolding event_queue_destroy Spscq.destroy Spscq.is_empty
  event_queue_destroy_lem w q spares v nn words =
      let s = (w.queues q).spsc in
      let (w₁, did, emptied) =
        unref_all-Emptied (contents s) s.capacity w q spares nn
          (rw (length-contents s) (ground arith)) v refl words in
      let drained = is_empty_of_contents (w₁.queues q).spsc emptied.valid emptied.nothing in
      let s₁ = (w₁.queues q).spsc in
      let same =
        update_self w₁.queues q (record (w₁.queues q) { spsc = record s₁ { records = [] } }) in
      (
        set_spsc w₁ q (record s₁ { records = [] }),
        ground (arith, did, drained),
        ap (λ x. x.spsc.read_pos == x.spsc.write_pos) same ∙ drained,
        emptied.counts,
      )
