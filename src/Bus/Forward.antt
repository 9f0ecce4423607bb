-- ===== src/Bus/Forward.antt =====
-- src/engine/core/event_bus.c: handing an event on to the attached queues.
use ats.Base.{
  ◌<◌, ◌≤◌, ℕ, zero, suc, ◌+◌, ◌≡◌, ◌≢◌, refl, sym, ◌∙◌, subst, Bool-cases, true, false, not, ◌&&◌,
  ◌==◌, arith, null, inl, inr, some, get_or, update, u64, Status, ok,
}
use ats.Heap.{MinHeap}
use ats.Mpscq.{Mpscq}
use ats.Spscq
use ats.Spscq.{Spscq}
use ats.Spscq.Ring.{IsValid}
use ats.Spscq.Refine.{push-IsValid}
use ats.World.{World}
use ats.Event.{event_ref}
use ats.EventQueue.{event_queue_push}
use ats.Wakeup.{bus_async_add_queue}
use ats.Bus.Dequeue.{forward, about_queue}
use ats.Bus.Fetch.{SameAttached}

push_empty-ok : (s : Spscq) (e : ℕ) → IsValid s → Spscq.is_empty s ≡ true → (Spscq.push s e).0 ≡ ok
unfolding Spscq.is_empty Spscq.push
push_empty-ok s e v h = ground (arith, v.two, v.word)

module _ {H P : Type 0} ⦃heap : MinHeap H⦄ ⦃mpscq : Mpscq P⦄ where
  -- The queues after a push of `e` into the queue `q`
  abbrev pub pushed : World H P → ℕ → ℕ → World H P
  pushed w q e = record w {
    queues = update w.queues q (record (w.queues q) { spsc = (Spscq.push (w.queues q).spsc e).1 });
  }

  -- What a push of `e` into the queue `q` leaves.
  pub record PushKeeps (w w' : World H P) (c q e : ℕ) : Type 0 where
    pub queues : w'.queues ≡ (pushed w q e).queues
    pub events : w'.events ≡ w.events
    pub rings : (a : ℕ) → IsValid ((w.queues a).spsc) → IsValid ((w'.queues a).spsc)
    pub attached : SameAttached w w' c

  pushed-rings :
      (w : World H P) (q e a : ℕ)
      → IsValid ((w.queues q).spsc)
      → IsValid ((w.queues a).spsc)
      → IsValid (((pushed w q e).queues a).spsc)
  pushed-rings w q e a v u = elim (Bool-cases (q == a)) [
    | inl h ↦ rw h (push-IsValid ((w.queues q).spsc) e v)
    | inr h ↦ rw h u
  ]

  async-keeps :
      (w : World H P) (c d q : ℕ)
      → ((bus_async_add_queue w d q).queues ≡ w.queues)
        × SameAttached w (bus_async_add_queue w d q) c
  unfolding bus_async_add_queue
  async-keeps w c d q = (ground arith, (ground arith, ground arith))

  async-events : (w : World H P) (d q : ℕ) → (bus_async_add_queue w d q).events ≡ w.events
  unfolding bus_async_add_queue
  async-events w d q = ground arith

  -- A push into a valid queue returns.
  pub event_queue_push_total :
      (w : World H P) (c q e : ℕ)
      → IsValid ((w.queues q).spsc)
      → (r : Status × World H P) × (event_queue_push w q e ≡ some r) × PushKeeps w (r.1) c q e
  unfolding event_queue_push
  event_queue_push_total w c q e v =
      let x = w.queues q in
      let w1 = pushed w q e in
      elim (Bool-cases (Spscq.is_empty x.spsc && not (x.ctx == null))) [
        | inl h ↦
            let (queues, attached) = async-keeps w1 c x.ctx q in
            (
              (ok, bus_async_add_queue w1 x.ctx q),
              ground (arith, push_empty-ok x.spsc e v),
              record {
                queues = queues;
                events = async-events w1 x.ctx q;
                rings = λ a u.
                    subst (λ f. IsValid ((f a).spsc)) (sym queues) (pushed-rings w q e a v u);
                attached = attached;
              },
            )
        | inr h ↦ (
          ((Spscq.push x.spsc e).0, w1),
          rw h refl,
          record {
            queues = refl;
            events = refl;
            rings = λ a u. pushed-rings w q e a v u;
            attached = (refl, refl);
          },
        )
      ]

  -- Every attached queue is valid.
  abbrev pub AttachedValid : World H P → ℕ → Type 0
  AttachedValid w c =
      (i : ℕ)
      → i < (w.contexts c).attached_count
      → IsValid ((w.queues (get_or (w.contexts c).attached i null)).spsc)

  event_ref_total :
      (w : World H P) (c e : ℕ)
      → e ≢ null
      → (w' : World H P) × (event_ref w e ≡ some w') × (w'.queues ≡ w.queues) × SameAttached w w' c
  unfolding event_ref
  event_ref_total w c e nn = (
    record w {
      events =
          update w.events e (record (w.events e) { refcount = u64 ((w.events e).refcount + 1) });
    },
    ground arith,
    refl,
    (refl, refl),
  )

  pub AttachedValid-keeps :
      (w w' : World H P) (c : ℕ)
      → SameAttached w w' c
      → ((a : ℕ) → IsValid ((w.queues a).spsc) → IsValid ((w'.queues a).spsc))
      → AttachedValid w c
      → AttachedValid w' c
  AttachedValid-keeps w w' c same rings valid i inside =
      subst (λ l. IsValid ((w'.queues (get_or l i null)).spsc)) (sym same.0)
        (rings _ (valid i (subst (λ n. i < n) same.1 inside)))

  pub forward-push :
      (left : ℕ) (w w' : World H P) (c e i : ℕ) (r : Status × World H P)
      → about_queue w e ≡ false
      → event_ref w e ≡ some w'
      → event_queue_push w' (get_or (w.contexts c).attached i null) e ≡ some r
      → forward (suc left) w c e i ≡ forward left (r.1) c e (i + 1)
  unfolding forward
  forward-push left w w' c e i r h taken pushed = rw (h, taken) (rw pushed refl)

  pub forward_total :
      (left : ℕ) (w : World H P) (c e i : ℕ)
      → e ≢ null
      → AttachedValid w c
      → i + left ≤ (w.contexts c).attached_count
      → (w' : World H P) × (forward left w c e i ≡ some w')
  unfolding forward
  forward_total zero w c e i nn valid end = (w, refl)
  forward_total (suc left) w c e i nn valid end = elim (Bool-cases (about_queue w e)) [
    | inl h ↦
        let (w', ends) = forward_total left w c e (i + 1) nn valid (omega arith) in (w', rw h ends)
    | inr h ↦
        let q = get_or (w.contexts c).attached i null in
        let (w1, taken, queues, same) = event_ref_total w c e nn in
        let (r, pushed, keeps) =
          event_queue_push_total w1 c q e
            (subst (λ f. IsValid ((f q).spsc)) (sym queues) (valid i (omega arith))) in
        let valid1 =
          AttachedValid-keeps w w1 c same (λ a u. subst (λ f. IsValid ((f a).spsc)) (sym queues) u)
            valid in
        let valid2 = AttachedValid-keeps w1 (r.1) c keeps.attached keeps.rings valid1 in
        let (w', ends) =
          forward_total left (r.1) c e (i + 1) nn valid2
            (omega (arith, keeps.attached.1, same.1)) in
        (w', forward-push left w w1 c e i r h taken pushed ∙ ends)
  ]
