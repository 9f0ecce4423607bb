-- ===== src/Bus/Handed.antt =====
-- src/engine/core/event_bus.c: what the attached queues get of a saved market event.
use ats.Base.{
  ◌≤◌, ℕ, zero, suc, ◌+◌, ◌^◌, ◌<◌, ◌≡◌, ◌≢◌, refl, ap, ap₂, ◌∙◌, subst, some, true, false,
  Bool-cases, inl, inr, ◌==◌, if◌then◌else◌, arith, null, List, [], ◌∷◌, ◌++◌, length, get_or,
  update, update_ne, ==_refl, u64,
}
use ats.Heap.{MinHeap}
use ats.Mpscq.{Mpscq}
use ats.Spscq
use ats.Spscq.{Spscq}
use ats.Spscq.Queue
use ats.Spscq.Queue.{Op}
use ats.Spscq.Ring.{IsValid, contents}
use ats.Spscq.Refine.{room, push_refines}
use ats.World.{World, Event}
use ats.Event.{event_ref}
use ats.Bus.Dequeue.{forward, about_queue, hand_out_saved, saved_event, set_saved}
use ats.Bus.Round.{count_in}
use ats.Bus.Forward.{
  AttachedValid, AttachedValid-keeps, PushKeeps, event_queue_push_total, forward-push,
}
use ats.Bus.Attached.{range_of, entry, count, attached_queues}

-- A queue that is full refuses the event.
abbrev pub offered : ℕ → ℕ → List ℕ → List ℕ
offered room e l = if length l == room then l else l ++ (e ∷ [])

-- The event is offered `n` times.
abbrev pub offers : ℕ → ℕ → ℕ → List ℕ → List ℕ
offers room e zero l = l
offers room e (suc n) l = offers room e n (offered room e l)

contents-push :
    (s : Spscq) (e : ℕ) → IsValid s → contents (Spscq.push s e).1 ≡ offered (room s) e (contents s)
unfolding Queue.step
contents-push s e v = ap (λ r. r.1) (push_refines s e v) ∙ ground arith

room-push : (s : Spscq) (e : ℕ) → room (Spscq.push s e).1 ≡ room s
unfolding Spscq.push
room-push s e = ground arith

module _ {H P : Type 0} ⦃heap : MinHeap H⦄ ⦃mpscq : Mpscq P⦄ where
  -- The event is offered to the queues, in turn, and has one more reference for each, taken or not.
  pub record Handed (w w' : World H P) (e : ℕ) (qs : List ℕ) : Type 0 where
    pub event : w'.events e ≡ record (w.events e) { refcount = (w.events e).refcount + length qs }
    pub others : (a : ℕ) → e ≢ a → w'.events a ≡ w.events a
    pub rings :
        (a : ℕ)
        → contents ((w'.queues a).spsc)
          ≡ offers (room ((w.queues a).spsc)) e (count_in qs a) (contents ((w.queues a).spsc))

  -- The event with one more reference
  abbrev referenced : World H P → ℕ → World H P
  referenced w e = record w {
    events = update w.events e (record (w.events e) { refcount = u64 ((w.events e).refcount + 1) });
  }

  referenced_lem : (w : World H P) (e : ℕ) → e ≢ null → event_ref w e ≡ some (referenced w e)
  unfolding event_ref
  referenced_lem w e nn = ground (arith, nn)

  offer_step :
      (w w1 w' : World H P) (c q e : ℕ) (qs : List ℕ)
      → IsValid ((w.queues q).spsc)
      → (w.events e).refcount + 1 < 2 ^ 64
      → PushKeeps (referenced w e) w1 c q e
      → Handed w1 w' e qs
      → Handed w w' e (q ∷ qs)
  offer_step w w1 w' c q e qs v small keeps h =
      let s = (w.queues q).spsc in
      let more : w1.events e ≡ record (w.events e) { refcount = (w.events e).refcount + 1 } =
        ap (λ f. f e) keeps.events ∙ ground (arith, small) in
      let sum : (w.events e).refcount + 1 + length qs ≡ (w.events e).refcount + length (q ∷ qs) =
        omega arith in
      let now : (w1.queues q).spsc ≡ (Spscq.push s e).1 =
        ap (λ f. (f q).spsc) keeps.queues ∙ ground (arith, ==_refl q) in
      let at_q : contents ((w'.queues q).spsc)
          ≡ offers (room s) e (suc (count_in qs q)) (contents s) =
        h.rings q
        ∙ ap (λ t. offers (room t) e (count_in qs q) (contents t)) now
        ∙ ap₂ (λ r l. offers r e (count_in qs q) l) (room-push s e) (contents-push s e v) in
      record {
        event =
            h.event
            ∙ ap (λ (x : Event). record x { refcount = x.refcount + length qs }) more
            ∙ ap (λ (n : ℕ). record (w.events e) { refcount = n }) sum;
        others = λ a ne. h.others a ne ∙ ap (λ f. f a) keeps.events ∙ update_ne w.events e a _ ne;
        rings = λ a. elim (Bool-cases (q == a)) [
          | inl i ↦
              let here : q ≡ a = ground arith in
              let one_more : suc (count_in qs a) ≡ count_in (q ∷ qs) a = ground (arith, i) in
              let at_a : contents ((w'.queues a).spsc)
                  ≡ offers (room ((w.queues a).spsc)) e (suc (count_in qs a))
                      (contents ((w.queues a).spsc)) =
                subst
                  (λ b.
                    contents ((w'.queues b).spsc)
                    ≡ offers (room ((w.queues b).spsc)) e (suc (count_in qs b))
                        (contents ((w.queues b).spsc)))
                  here at_q in
              at_a
              ∙ ap (λ n. offers (room ((w.queues a).spsc)) e n (contents ((w.queues a).spsc)))
                  one_more
          | inr i ↦
              let same : (w1.queues a).spsc ≡ (w.queues a).spsc =
                ap (λ f. (f a).spsc) keeps.queues ∙ ground (arith, i) in
              let no_more : count_in qs a ≡ count_in (q ∷ qs) a = ground (arith, i) in
              h.rings a
              ∙ ap (λ t. offers (room t) e (count_in qs a) (contents t)) same
              ∙ ap (λ n. offers (room ((w.queues a).spsc)) e n (contents ((w.queues a).spsc)))
                  no_more
        ];
      }

  forward_lem :
      (left : ℕ) (w : World H P) (c e i : ℕ)
      → e ≢ null
      → about_queue w e ≡ false
      → AttachedValid w c
      → i + left ≤ count w c
      → (w.events e).refcount + left < 2 ^ 64
      → (w' : World H P) × (forward left w c e i ≡ some w')
        × Handed w w' e (range_of (entry w c) i left)
  unfolding forward
  forward_lem zero w c e i nn h valid end small =
      let start : (w.events e).refcount ≡ (w.events e).refcount + 0 = omega arith in
      (
        w,
        refl,
        record {
          event = ap (λ (n : ℕ). record (w.events e) { refcount = n }) start;
          others = λ a ne. refl;
          rings = λ a. refl;
        },
      )
  forward_lem (suc left) w c e i nn h valid end small =
      let q = entry w c i in
      let w0 = referenced w e in
      let (r, put, keeps) = event_queue_push_total w0 c q e (valid i (omega arith)) in
      let w1 = r.1 in
      let more : w1.events e ≡ record (w.events e) { refcount = (w.events e).refcount + 1 } =
        ap (λ f. f e) keeps.events ∙ ground (arith, small) in
      let same : (w1.events e).event_type ≡ (w.events e).event_type = ap (λ x. x.event_type) more in
      let h1 : about_queue w1 e ≡ false = rw same h in
      let valid1 = AttachedValid-keeps w0 w1 c keeps.attached keeps.rings valid in
      let (w', ends, handed) =
        forward_lem left w1 c e (i + 1) nn h1 valid1 (omega (arith, keeps.attached.1))
          (omega (arith, ap (λ x. x.refcount) more, small)) in
      let queues : range_of (entry w1 c) (i + 1) left ≡ range_of (entry w c) (i + 1) left =
        ap (λ l. range_of (λ k. get_or l k null) (i + 1) left) (keeps.attached).0 in
      (
        w',
        forward-push left w w0 c e i r h (referenced_lem w e nn) put ∙ ends,
        offer_step w w1 w' c q e (range_of (entry w c) (i + 1) left) (valid i (omega arith))
            (omega arith) keeps (subst (Handed w1 w' e) queues handed),
      )

  forward-about_queue :
      (left : ℕ) (w : World H P) (c e i : ℕ)
      → about_queue w e ≡ true
      → forward left w c e i ≡ some w
  unfolding forward
  forward-about_queue zero w c e i h = refl
  forward-about_queue (suc left) w c e i h = rw h (forward-about_queue left w c e (i + 1) h)

  -- A saved market event is handed out. Unless it is about a queue, it is offered to each attached
  -- queue, in turn: one with room has it at the end, a full one is left as it was. The event gets one
  -- more reference for each attached queue, also for those that were full; other events stay as
  -- they were and other queues keep their events. (An event is saved, the attached queues, as many as
  -- are counted, are valid rings, and the count of references has room.)
  pub hand_out_saved_lem :
      (w : World H P) (c : ℕ)
      → saved_event w c ≢ null
      → AttachedValid w c
      → (w.events (saved_event w c)).refcount + count w c < 2 ^ 64
      → (w' : World H P) × (hand_out_saved w c ≡ some (saved_event w c, w'))
        × Handed w w'
            (saved_event w c)
            (if about_queue w (saved_event w c) then [] else attached_queues w c)
  unfolding hand_out_saved
  hand_out_saved_lem w c nn valid small =
      let e = saved_event w c in
      let w0 = set_saved w c null in
      let is_event : (e == null) ≡ false = ground (arith, nn) in
      let valid0 = AttachedValid-keeps w w0 c (ground arith, ground arith) (λ a v. v) valid in
      let counted : count w0 c ≡ count w c = ground arith in
      let attached : (w0.contexts c).attached ≡ (w.contexts c).attached = ground arith in
      elim (Bool-cases (about_queue w e)) [
        | inl h ↦
            let start : (w.events e).refcount ≡ (w.events e).refcount + 0 = omega arith in
            let unchanged : Handed w w0 e [] = record {
              event = ap (λ (n : ℕ). record (w.events e) { refcount = n }) start;
              others = λ a ne. refl;
              rings = λ a. refl;
            } in
            (w0, rw (is_event, forward-about_queue (count w c) w0 c e 0 h) refl, rw h unchanged)
        | inr h ↦
            let (w', ends, handed) =
              forward_lem (count w c) w0 c e 0 nn h valid0 (omega (arith, counted)) small in
            let queues : range_of (entry w0 c) 0 (count w c) ≡ attached_queues w c =
              ap (λ l. range_of (λ k. get_or l k null) 0 (count w c)) attached in
            let all = subst (Handed w0 w' e) queues handed in
            let from_w : Handed w w' e (attached_queues w c) = record {
              event = all.event;
              others = all.others;
              rings = all.rings;
            } in
            (w', rw is_event (rw ends refl), rw h from_w)
      ]
