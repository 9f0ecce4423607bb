-- ===== src/Dispatch/Repeat.antt =====
-- A timer with a period in timer_heap_pop of src/engine/core/event_bus.c and dispatch_event of
-- src/engine/core/event_dispatch.c.
use ats.Base.{
  ℕ, ◌+◌, ◌-◌, ◌^◌, ◌≡◌, ◌≢◌, ◌<◌, refl, ap, ◌∙◌, Bool-cases, inl, inr, update, arith, ◌==◌, null,
  if◌then◌else◌, some, u64, ◌>>=◌, List, ◌∷◌,
}
use ats.Heap.{MinHeap}
use ats.World.{World, Clock, Hooks, event_last}
use ats.Event.{event_unref, event_free}
use ats.Bus.Heaps.{
  timer_heap, timer_less_than, timer_heap_pop, rearm, remove_timer, insert_timer, set_counter,
  set_reminder,
}
use ats.Bus.Order.{timer_less_than-IsOrder, timer_less_than_agree}
use ats.Dispatch.{dispatch_event, filter_event, handle_event, add_reentrant}
use ats.Dispatch.Count.{IsQuiet, contexts-event_free}

module _ {H P : Type 0} ⦃heap : MinHeap H⦄ where
  -- The timer `t` has a period and is the first in the heap of the clock `k` of its bus `c`.
  pub record IsArmed (w : World H P) (c : ℕ) (k : Clock) (t : ℕ) : Type 0 where
    pub ordered : heap.IsHeap (timer_less_than w) (timer_heap w c k)
    pub once : heap.count (timer_heap w c k) t ≡ 1
    pub first : heap.min (timer_heap w c k) ≡ t
    pub not_null : t ≢ null
    pub home : (w.reminders t).ctx ≡ c
    pub period : (w.reminders t).repeat ≢ 0

  -- The state in which a timer goes back into the heap
  abbrev rearmed : World H P → ℕ → ℕ → World H P
  rearmed w c t =
      let r = w.reminders t in
      set_counter
        (set_reminder w t
          (record r { start_id = (w.contexts c).counter; timeout = u64 (r.timeout + r.repeat) }))
        c

  timer_heap_pop-rearmed :
      (w : World H P) (c : ℕ) (k : Clock) (t : ℕ)
      → IsArmed w c k t
      → timer_heap_pop w c k ≡ (t, insert_timer (rearmed (remove_timer w c k t) c t) c k t)
  unfolding timer_heap_pop rearm remove_timer
  timer_heap_pop-rearmed w c k t i = ground (arith, i.first, i.not_null, i.home, i.period)

  abbrev without : World H P → ℕ → Clock → ℕ → H
  without w c k t = heap.remove (timer_heap w c k) t (timer_less_than w)

  timer_heap-rearmed :
      (w : World H P) (c : ℕ) (k : Clock) (t : ℕ)
      → timer_heap (rearmed (remove_timer w c k t) c t) c k ≡ without w c k t
  unfolding remove_timer
  timer_heap-rearmed w c k t = ground arith

  reminders-rearmed :
      (w : World H P) (c : ℕ) (k : Clock) (t a : ℕ)
      → t ≢ a
      → (rearmed (remove_timer w c k t) c t).reminders a ≡ w.reminders a
  unfolding remove_timer
  reminders-rearmed w c k t a h = ground arith

  count-without :
      (w : World H P) (c : ℕ) (k : Clock) (t : ℕ)
      → IsArmed w c k t
      → heap.count (without w c k t) t ≡ 0
  count-without w c k t i =
      ground (arith, i.once, heap.count-remove (timer_less_than w) (timer_heap w c k) t t i.ordered)

  without-IsHeap :
      (w : World H P) (c : ℕ) (k : Clock) (t : ℕ)
      → IsArmed w c k t
      → heap.IsHeap (timer_less_than (rearmed (remove_timer w c k t) c t)) (without w c k t)
  without-IsHeap w c k t i =
      let w' = rearmed (remove_timer w c k t) c t in
      let out = count-without w c k t i in
      let other : (a : ℕ) → 0 < heap.count (without w c k t) a → t ≢ a =
        λ a p e. ground (arith, ap (heap.count (without w c k t)) e) in
      heap.IsHeap_agree (timer_less_than w) (timer_less_than w') (without w c k t)
        (heap.remove-IsHeap _ _ t (timer_less_than-IsOrder w) i.ordered (omega (arith, i.once)))
        (λ a b p q.
          timer_less_than_agree w w' a b (reminders-rearmed w c k t a (other a p))
            (reminders-rearmed w c k t b (other b q)))

  timer_heap-insert_timer :
      (w : World H P) (c : ℕ) (k : Clock) (t : ℕ)
      → timer_heap (insert_timer w c k t) c k ≡ heap.insert (timer_heap w c k) t (timer_less_than w)
  unfolding insert_timer
  timer_heap-insert_timer w c k t = ground arith

  -- The timer is in the heap again when it is handed out.
  back_in_heap :
      (w : World H P) (c : ℕ) (k : Clock) (t : ℕ)
      → IsArmed w c k t
      → heap.count (timer_heap ((timer_heap_pop w c k).1) c k) t ≡ 1
  back_in_heap w c k t i =
      let w' = rearmed (remove_timer w c k t) c t in
      let out = count-without w c k t i in
      ap (λ r. heap.count (timer_heap (r.1) c k) t) (timer_heap_pop-rearmed w c k t i)
      ∙ ap (λ h. heap.count h t) (timer_heap-insert_timer w' c k t)
      ∙ ap (λ h. heap.count (heap.insert h t (timer_less_than w')) t) (timer_heap-rearmed w c k t)
      ∙ heap.count-insert (timer_less_than w') (without w c k t) t t (without-IsHeap w c k t i) out
      ∙ ground arith

  kept :
      (w : World H P) (c : ℕ) (k : Clock) (t : ℕ)
      → let w' = (timer_heap_pop w c k).1 in
        (w'.events ≡ w.events) × ((w'.contexts c).event_filter ≡ (w.contexts c).event_filter)
  unfolding timer_heap_pop rearm remove_timer insert_timer
  kept w c k t = (ground arith, ground arith)

-- What the code behind the pointers leaves alone: the contexts, and in a handler the events.
pub record IsHarmless {H P : Type 0} (hooks : Hooks H P) : Type 0 where
  pub quiet : IsQuiet hooks
  pub events : (f c e : ℕ) (w : World H P) → (hooks.handle f c e w).events ≡ w.events

module _ {H P : Type 0} ⦃heap : MinHeap H⦄ ⦃hooks : Hooks H P⦄ where
  handled_alike :
      (w : World H P) (c e : ℕ)
      → IsHarmless hooks
      → (w.events e).event_type < event_last
      → (w' : World H P) × (handle_event w c e ≡ some w')
        × (w'.contexts ≡ w.contexts)
        × (w'.events ≡ w.events)
  unfolding handle_event
  handled_alike w c e harmless valid =
      let f = (w.contexts c).event_handle_table ((w.events e).event_type) in
      elim (Bool-cases (f == null)) [
        | inl h ↦ (w, ground arith, refl, refl)
        | inr h ↦ (
          hooks.handle f c e w,
          ground arith,
          harmless.quiet.handle f c e w,
          harmless.events f c e w,
        )
      ]

  unref_last :
      (w : World H P) (e : ℕ)
      → IsHarmless hooks
      → e ≢ null
      → (w.events e).refcount ≡ 1
      → (w' : World H P) × (event_unref w e ≡ some w')
        × (w'.contexts ≡ w.contexts)
        × (l : List ℕ) × (w'.freed ≡ e ∷ l)
  unfolding event_unref event_free
  unref_last w e harmless nn one =
      let less = record w {
        events =
            update w.events e
              (record (w.events e) { refcount = u64 ((w.events e).refcount + (2 ^ 64 - 1)) });
      } in
      (event_free less e, ground arith, contexts-event_free harmless.quiet less e, _, refl)

  filter_event-none :
      (w : World H P) (c e : ℕ)
      → (w.contexts c).event_filter ≡ null
      → filter_event (add_reentrant w c 1) c e ≡ (e, add_reentrant w c 1)
  unfolding filter_event
  filter_event-none w c e h = ground arith

  dispatch_event-passed :
      (w w2 w3 : World H P) (c e : ℕ)
      → (w.contexts c).event_filter ≡ null
      → e ≢ null
      → handle_event (add_reentrant w c 1) c e ≡ some w2
      → event_unref w2 e ≡ some w3
      → dispatch_event w c e ≡ some (add_reentrant w3 c (2 ^ 64 - 1))
  unfolding dispatch_event
  dispatch_event-passed w w2 w3 c e no_filter nn handled given =
      ap
        (λ (r : ℕ × World H P).
          let (e', w1) = r in
          if e' == null
          then some w1
          else (handle_event w1 c e' >>= λ w2.
              event_unref w2 e' >>= λ w3. some (add_reentrant w3 c (2 ^ 64 - 1))))
        (filter_event-none w c e no_filter)
      ∙ ground (arith, handled, given)

  timer_heap-add_reentrant :
      (w : World H P) (c d : ℕ) (k : Clock)
      → timer_heap (add_reentrant w c d) c k ≡ timer_heap w c k
  timer_heap-add_reentrant w c d k = ground arith

  -- A timer with a period that is the first in its heap, with 1 as its reference count, of a defined
  -- type, and with no filter set: `timer_heap_pop` hands it out, the dispatch of it frees it, and the
  -- heap of the bus holds it then. (The functions called leave the contexts alone, and a handler leaves
  -- the events alone.)
  pub dispatch_event-repeating :
      (w : World H P) (c : ℕ) (k : Clock) (t : ℕ)
      → IsArmed w c k t
      → IsHarmless hooks
      → (w.contexts c).event_filter ≡ null
      → (w.events t).refcount ≡ 1
      → (w.events t).event_type < event_last
      → (w' : World H P) × (dispatch_event ((timer_heap_pop w c k).1) c t ≡ some w')
        × ((timer_heap_pop w c k).0 ≡ t)
        × (heap.count (timer_heap w' c k) t ≡ 1)
        × (l : List ℕ) × (w'.freed ≡ t ∷ l)
  dispatch_event-repeating w c k t i harmless no_filter one valid =
      let v = (timer_heap_pop w c k).1 in
      let (events, filter) = kept w c k t in
      let (w2, handled, contexts2, events2) =
        handled_alike (add_reentrant v c 1) c t harmless (rw events valid) in
      let (w3, given, contexts3, l, freed) =
        unref_last w2 t harmless i.not_null (ap (λ f. (f t).refcount) (events2 ∙ events) ∙ one) in
      (
        add_reentrant w3 c (2 ^ 64 - 1),
        dispatch_event-passed v w2 w3 c t (filter ∙ no_filter) i.not_null handled given,
        ap (λ r. r.0) (timer_heap_pop-rearmed w c k t i),
        ap (λ h. heap.count h t)
              (timer_heap-add_reentrant w3 c _ k
                ∙ ap (λ f. (f c).timer_heap k) (contexts3 ∙ contexts2)
                ∙ timer_heap-add_reentrant v c 1 k)
            ∙ back_in_heap w c k t i,
        l,
        freed,
      )
