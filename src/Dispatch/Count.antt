-- ===== src/Dispatch/Count.antt =====
-- src/engine/core/event_dispatch.c: dispatch_event and `dispatch_reentrant_count`.
use ats.Base.{
  ℕ, ◌+◌, ◌-◌, ◌^◌, ◌≡◌, ap, ◌∙◌, ◌≢◌, ◌<◌, refl, Bool-cases, inl, inr, update, arith, ◌==◌, null,
  if◌then◌else◌, some, Option, u64, ◌>>=◌,
}
use ats.World.{World, Hooks, event_last}
use ats.Event.{event_unref, event_free}
use ats.Dispatch.{dispatch_event, filter_event, handle_event, add_reentrant}

-- The functions behind the pointers leave the contexts and the table's types alone.
pub record IsQuiet {H P : Type 0} (hooks : Hooks H P) : Type 0 where
  pub handle : (f c e : ℕ) (w : World H P) → (hooks.handle f c e w).contexts ≡ w.contexts
  pub filter : (f e : ℕ) (w : World H P) → (hooks.filter f e w).1.contexts ≡ w.contexts
  pub destroy : (f e : ℕ) (w : World H P) → (hooks.destroy f e w).contexts ≡ w.contexts

module _ {H P : Type 0} ⦃hooks : Hooks H P⦄ where
  abbrev reentrant : World H P → ℕ → ℕ
  reentrant w c = (w.contexts c).dispatch_reentrant_count

  bumped :
      (w : World H P) (c : ℕ)
      → reentrant w c + 1 < 2 ^ 64
      → reentrant (add_reentrant w c 1) c ≡ reentrant w c + 1
  bumped w c small = ground arith

  module _ (quiet : IsQuiet hooks) where
    pub contexts-filter_event :
        (w : World H P) (c e : ℕ) → (filter_event w c e).1.contexts ≡ w.contexts
    unfolding filter_event
    contexts-filter_event w c e = ground (arith, quiet.filter ((w.contexts c).event_filter) e w)

    pub contexts-handle_event :
        (w : World H P) (c e : ℕ)
        → (w.events e).event_type < event_last
        → (w' : World H P) × (handle_event w c e ≡ some w') × (w'.contexts ≡ w.contexts)
    unfolding handle_event
    contexts-handle_event w c e valid =
        let f = (w.contexts c).event_handle_table ((w.events e).event_type) in
        elim (Bool-cases (f == null)) [
          | inl h ↦ (w, ground arith, refl)
          | inr h ↦ (hooks.handle f c e w, ground arith, quiet.handle f c e w)
        ]

    pub contexts-event_free : (w : World H P) (e : ℕ) → (event_free w e).contexts ≡ w.contexts
    unfolding event_free
    contexts-event_free w e =
        ground (arith, quiet.destroy ((w.event_vtable ((w.events e).event_type)).destroy_func) e w)

    pub contexts-event_unref :
        (w : World H P) (e : ℕ)
        → e ≢ null
        → (w' : World H P) × (event_unref w e ≡ some w') × (w'.contexts ≡ w.contexts)
    unfolding event_unref
    contexts-event_unref w e nn =
        let less = record w {
          events =
              update w.events e
                (record (w.events e) { refcount = u64 ((w.events e).refcount + (2 ^ 64 - 1)) });
        } in
        elim (Bool-cases ((w.events e).refcount == 1)) [
          | inl h ↦ (event_free less e, ground arith, contexts-event_free less e)
          | inr h ↦ (less, ground arith, refl)
        ]

    -- What `dispatch_event` does once the filter has returned `e`
    unfoldable filtered : World H P → ℕ → ℕ → Option (World H P)
    filtered w c e =
        if e == null
        then some w
        else handle_event w c e >>= λ w'.
            event_unref w' e >>= λ w''. some (add_reentrant w'' c (2 ^ 64 - 1))

    filtered-count :
        (w : World H P) (c e n : ℕ)
        → reentrant w c ≡ n + 1
        → n + 1 < 2 ^ 64
        → (e ≢ null → (w.events e).event_type < event_last)
        → (w' : World H P) × (filtered w c e ≡ some w')
          × (reentrant w' c ≡ (if e == null then n + 1 else n))
    unfolding filtered
    filtered-count w c e n count small valid = elim (Bool-cases (e == null)) [
      | inl h ↦ (w, ground arith, rw h count)
      | inr h ↦
          let (w2, handled, same2) = contexts-handle_event w c e (valid (ground arith)) in
          let (w3, given, same3) = contexts-event_unref w2 e (ground arith) in
          let now : reentrant w3 c ≡ n + 1 =
            ap (λ f. (f c).dispatch_reentrant_count) (same3 ∙ same2) ∙ count in
          (add_reentrant w3 c (2 ^ 64 - 1), rw (h, handled) (rw given refl), rw h (ground arith))
    ]

  -- An event that the filter passes on leaves `dispatch_reentrant_count` as it was; when the filter
  -- returns NULL the count stays one higher. (The functions called leave the contexts alone, and an
  -- event that goes to a handler has a type below EVENT_LAST.)
  pub dispatch_event-count :
      (w : World H P) (c e : ℕ)
      → IsQuiet hooks
      → reentrant w c + 1 < 2 ^ 64
      → ((filter_event (add_reentrant w c 1) c e).0 ≢ null
          → ((filter_event (add_reentrant w c 1) c e).1.events
              (filter_event (add_reentrant w c 1) c e).0).event_type
            < event_last)
      → (w' : World H P) × (dispatch_event w c e ≡ some w')
        × (reentrant w' c ≡ (
            if (filter_event (add_reentrant w c 1) c e).0 == null
            then reentrant w c + 1
            else reentrant w c))
  unfolding dispatch_event filtered
  dispatch_event-count w c e quiet small valid =
      let (e', w1) = filter_event (add_reentrant w c 1) c e in
      let same = contexts-filter_event quiet (add_reentrant w c 1) c e in
      filtered-count quiet w1 c e' (reentrant w c)
        (ap (λ f. (f c).dispatch_reentrant_count) same ∙ bumped w c small) small valid
