-- ===== src/Dispatch/Delayed.antt =====
-- src/engine/core/event_dispatch.c: emit_delayed_events.
use ats.Base.{
  ℕ, zero, suc, ◌+◌, ◌-◌, ◌^◌, ◌≡◌, refl, sym, ap, ◌∙◌, subst, ◌≢◌, ◌<◌, Bool-cases, inl, inr,
  update, update_self, arith, ◌==◌, null, false, some, List, [], ◌∷◌, length, u64,
}
use ats.Spscq
use ats.Spscq.{Spscq}
use ats.Spscq.Ring.{IsValid, contents}
use ats.Spscq.Refine.{pop-IsValid, contents-pop_cons}
use ats.World.{World, Hooks, event_last}
use ats.Event.{event_unref, event_free}
use ats.EventQueue.Destroy.{NonNull, pop-empty}
use ats.Dispatch.{
  dispatch_event, filter_event, handle_event, add_reentrant, emit_delayed_events, set_buffed,
}
use ats.Dispatch.Count.{IsQuiet, contexts-filter_event, contexts-handle_event, contexts-event_unref}

module _ {H P : Type 0} where
  abbrev pub IsTyped : World H P → Type 0
  IsTyped w = (a : ℕ) → (w.events a).event_type < event_last

-- The functions behind the pointers leave every event a type below EVENT_LAST.
pub record KeepsTypes {H P : Type 0} (hooks : Hooks H P) : Type 0 where
  pub handle : (f c e : ℕ) (w : World H P) → IsTyped w → IsTyped (hooks.handle f c e w)
  pub filter : (f e : ℕ) (w : World H P) → IsTyped w → IsTyped (hooks.filter f e w).1
  pub destroy : (f e : ℕ) (w : World H P) → IsTyped w → IsTyped (hooks.destroy f e w)

module _ {H P : Type 0} ⦃hooks : Hooks H P⦄ where
  abbrev buffed : World H P → ℕ → Spscq
  buffed w c = (w.contexts c).buffed_event_queue

  IsTyped-filter_event :
      (w : World H P) (c e : ℕ) → KeepsTypes hooks → IsTyped w → IsTyped (filter_event w c e).1
  unfolding filter_event
  IsTyped-filter_event w c e keeps typed = elim (Bool-cases ((w.contexts c).event_filter == null)) [
    | inl h ↦ rw h typed
    | inr h ↦ rw h (keeps.filter ((w.contexts c).event_filter) e w typed)
  ]

  IsTyped-handle_event :
      (w w' : World H P) (c e : ℕ)
      → KeepsTypes hooks
      → IsTyped w
      → handle_event w c e ≡ some w'
      → IsTyped w'
  unfolding handle_event
  IsTyped-handle_event w w' c e keeps typed h =
      let f = (w.contexts c).event_handle_table ((w.events e).event_type) in
      elim (Bool-cases (f == null)) [
        | inl z ↦ let same : w ≡ w' = ground (arith, typed e, h) in subst IsTyped same typed
        | inr z ↦
            let same : hooks.handle f c e w ≡ w' = ground (arith, typed e, h) in
            subst IsTyped same (keeps.handle f c e w typed)
      ]

  IsTyped-event_free :
      (w : World H P) (e : ℕ) → KeepsTypes hooks → IsTyped w → IsTyped (event_free w e)
  unfolding event_free
  IsTyped-event_free w e keeps typed =
      let destroy = (w.event_vtable ((w.events e).event_type)).destroy_func in
      elim (Bool-cases (destroy == null)) [
        | inl z ↦ rw z typed
        | inr z ↦ rw z (keeps.destroy destroy e w typed)
      ]

  IsTyped-event_unref :
      (w w' : World H P) (e : ℕ)
      → KeepsTypes hooks
      → IsTyped w
      → e ≢ null
      → event_unref w e ≡ some w'
      → IsTyped w'
  unfolding event_unref
  IsTyped-event_unref w w' e keeps typed nn h =
      let less = record w {
        events =
            update w.events e
              (record (w.events e) { refcount = u64 ((w.events e).refcount + (2 ^ 64 - 1)) });
      } in
      let typed' : IsTyped less = λ a. ground (arith, typed a, typed e) in
      elim (Bool-cases ((w.events e).refcount == 1)) [
        | inl one ↦
            let same : event_free less e ≡ w' = ground (arith, h, nn) in
            subst IsTyped same (IsTyped-event_free less e keeps typed')
        | inr more ↦ let same : less ≡ w' = ground (arith, h, nn) in subst IsTyped same typed'
      ]

  -- A dispatch ends, leaves the buffered events alone and the types in range.
  pub dispatch_event-quiet :
      (w : World H P) (c e : ℕ)
      → IsQuiet hooks
      → KeepsTypes hooks
      → IsTyped w
      → (w' : World H P) × (dispatch_event w c e ≡ some w')
        × (buffed w' c ≡ buffed w c)
        × IsTyped w'
  unfolding dispatch_event
  dispatch_event-quiet w c e quiet keeps typed =
      let w0 = add_reentrant w c 1 in
      let e' = (filter_event w0 c e).0 in
      let w1 = (filter_event w0 c e).1 in
      let typed1 = IsTyped-filter_event w0 c e keeps typed in
      let start : buffed w0 c ≡ buffed w c = ground arith in
      let same1 : buffed w1 c ≡ buffed w c =
        ap (λ f. (f c).buffed_event_queue) (contexts-filter_event quiet w0 c e) ∙ start in
      elim (Bool-cases (e' == null)) [
        | inl z ↦ (w1, rw z refl, same1, typed1)
        | inr z ↦
            let nn : e' ≢ null = λ p. ground (arith, p) in
            let (w2, handled, same2) = contexts-handle_event quiet w1 c e' (typed1 e') in
            let typed2 = IsTyped-handle_event w1 w2 c e' keeps typed1 handled in
            let (w3, released, same3) = contexts-event_unref quiet w2 e' nn in
            let typed3 = IsTyped-event_unref w2 w3 e' keeps typed2 nn released in
            let end : buffed (add_reentrant w3 c (2 ^ 64 - 1)) c ≡ buffed w3 c = ground arith in
            (
              add_reentrant w3 c (2 ^ 64 - 1),
              rw (z, handled) (rw released refl),
              end ∙ ap (λ f. (f c).buffed_event_queue) (same3 ∙ same2) ∙ same1,
              typed3,
            )
      ]

  -- `emit_delayed_events` ends, with more fuel than events are buffered, and leaves no event buffered.
  -- (The buffer is a valid ring without null pointers, the types of events are below EVENT_LAST, and
  -- the functions called leave the contexts alone and the types below it.)
  pub emit_delayed_events_lem :
      (l : List ℕ) (fuel : ℕ) (w : World H P) (c : ℕ)
      → IsQuiet hooks
      → KeepsTypes hooks
      → IsTyped w
      → IsValid (buffed w c)
      → contents (buffed w c) ≡ l
      → NonNull l
      → length l < fuel
      → (w' : World H P) × (emit_delayed_events fuel w c ≡ some w')
        × (contents (buffed w' c) ≡ [])
        × IsTyped w'
  unfolding emit_delayed_events
  emit_delayed_events_lem [] zero w c quiet keeps typed v e nn enough = absurd (omega arith)
  emit_delayed_events_lem (x ∷ l) zero w c quiet keeps typed v e nn enough = absurd (omega arith)
  emit_delayed_events_lem [] (suc fuel) w c quiet keeps typed v e nn enough =
      let gives = pop-empty (buffed w c) v e in
      let now : buffed (set_buffed w c (Spscq.pop (buffed w c)).1) c ≡ buffed w c =
        ap (λ x. x.buffed_event_queue)
          (update_self w.contexts c
            (record (w.contexts c) { buffed_event_queue = (Spscq.pop (buffed w c)).1 }))
        ∙ ap (λ r. r.1) gives in
      (
        set_buffed w c (Spscq.pop (buffed w c)).1,
        rw (ap (λ r. r.0) gives) refl,
        ap contents now ∙ e,
        typed,
      )
  emit_delayed_events_lem (x ∷ l) (suc fuel) w c quiet keeps typed v e (nx, nn) enough =
      let s = buffed w c in
      let w1 = set_buffed w c (Spscq.pop s).1 in
      let (first, left) = contents-pop_cons s x l v e in
      let now : buffed w1 c ≡ (Spscq.pop s).1 =
        ap (λ x. x.buffed_event_queue)
          (update_self w.contexts c
            (record (w.contexts c) { buffed_event_queue = (Spscq.pop s).1 })) in
      let (w2, did, same, typed2) = dispatch_event-quiet w1 c (Spscq.pop s).0 quiet keeps typed in
      let ring : buffed w2 c ≡ (Spscq.pop s).1 = same ∙ now in
      let (w3, rest, empty, typed3) =
        emit_delayed_events_lem l fuel w2 c quiet keeps typed2
          (subst IsValid (sym ring) (pop-IsValid s v)) (ap contents ring ∙ left) nn (omega arith) in
      let not_null : ((Spscq.pop s).0 == null) ≡ false = ground (arith, first, nx) in
      (w3, rw (not_null, did) rest, empty, typed3)
