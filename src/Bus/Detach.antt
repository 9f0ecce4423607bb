-- ===== src/Bus/Detach.antt =====
-- src/engine/core/event_bus.c: which queues bus_detach leaves attached.
use ats.Base.{
  ℕ, zero, suc, ◌+◌, ◌-◌, ◌≤◌, ◌<◌, ◌≡◌, ◌≢◌, refl, sym, ap, ap₂, ◌∙◌, some, true, false,
  Bool-cases, inl, inr, ◌&&◌, leb, ltb, if◌then◌else◌, arith, null, ◌∷◌, get_or,
}
use ats.Heap.{MinHeap}
use ats.World.{World, EventQueue}
use ats.Bus.Attach.{detach_at, detach_from, bus_detach}
use ats.Bus.Attached.{
  range_of, kept, range_of_agree, kept-stays, range_of-first, by_ctx, entry, count, attached_queues,
  leads_to,
}
use ats.Bus.Pipes.{PipesInv}
use ats.Bus.Removal.{
  IsDetachable, Removed, detach_at-stays, detach_at-Removed, Removed-IsDetachable,
}

module _ {H P : Type 0} ⦃heap : MinHeap H⦄ where
  -- The state after the rounds from `i` on
  record Detached (w w' : World H P) (src dst i m : ℕ) : Type 0 where
    queues : w'.queues ≡ w.queues
    inv : PipesInv w' dst
    from : i ≤ count w' src
    below : (k : ℕ) → k < i → entry w' src k ≡ entry w src k
    rest :
        range_of (entry w' src) i (count w' src - i)
        ≡ kept (leads_to w dst) (range_of (entry w src) i m)

  stay_step :
      (w w' : World H P) (src dst i m : ℕ)
      → leads_to w dst (entry w src i) ≡ false
      → Detached w w' src dst (i + 1) m
      → Detached w w' src dst i (suc m)
  stay_step w w' src dst i m h d =
      let here : entry w' src i ≡ entry w src i = d.below i (omega arith) in
      record {
        queues = d.queues;
        inv = d.inv;
        from = omega (arith, d.from);
        below = λ k lt. d.below k (omega arith);
        rest =
            range_of-first (entry w' src) i (count w' src) (omega (arith, d.from))
            ∙ ap₂ (λ x l. x ∷ l) here d.rest
            ∙ sym
                (kept-stays (leads_to w dst) (entry w src i) (range_of (entry w src) (i + 1) m) h);
      }

  remove_step :
      (w w1 w' : World H P) (src dst i m : ℕ)
      → leads_to w dst (entry w src i) ≡ true
      → count w src ≡ i + suc (suc m)
      → Removed w w1 src dst i
      → Detached w1 w' src dst (i + 1) m
      → Detached w w' src dst i (suc (suc m))
  remove_step w w1 w' src dst i m h e gone d =
      let entry1 = entry w1 src in
      let here : entry w' src i ≡ entry w src (i + 1) =
        d.below i (omega arith) ∙ ground (arith, gone.moved i, e) in
      let shift : (k : ℕ)
          → k < m
          → (if leb i ((i + 1) + k) && ltb ((i + 1) + k) (count w src - 1)
              then entry w src ((i + 1) + k + 1)
              else entry w src ((i + 1) + k))
            ≡ entry w src ((i + 1 + 1) + k) =
        λ k lt.
          let swap : (i + 1) + k + 1 ≡ (i + 1 + 1) + k = omega arith in
          ground (arith, e, lt, ap (λ a. get_or (w.contexts src).attached a null) swap) in
      let shifted : range_of entry1 (i + 1) m ≡ range_of (entry w src) (i + 1 + 1) m =
        range_of_agree entry1 (entry w src) (i + 1) (i + 1 + 1) m
          (λ k lt. gone.moved ((i + 1) + k) ∙ shift k lt) in
      let same : leads_to w1 dst ≡ leads_to w dst =
        ap (λ (g : ℕ → EventQueue). by_ctx g dst) gone.queues in
      record {
        queues = d.queues ∙ gone.queues;
        inv = d.inv;
        from = omega (arith, d.from);
        below = λ k lt. d.below k (omega arith) ∙ ground (arith, gone.moved k, lt);
        rest =
            range_of-first (entry w' src) i (count w' src) (omega (arith, d.from))
            ∙ ap₂ (λ x l. x ∷ l) here (d.rest ∙ ap₂ kept same shifted)
            ∙ rw h refl;
      }

  pub stop :
      (fuel : ℕ) (w : World H P) (src dst i : ℕ)
      → 0 < fuel
      → count w src ≤ i
      → detach_from fuel w src dst i ≡ some w
  unfolding detach_from
  stop zero w src dst i pos over = absurd (omega arith)
  stop (suc fuel) w src dst i pos over = ground (arith, over)

  -- One round and the rounds behind it
  pub round :
      (fuel : ℕ) (w w1 : World H P) (src dst i : ℕ)
      → i < count w src
      → detach_at w src dst i ≡ some w1
      → detach_from (suc fuel) w src dst i ≡ detach_from fuel w1 src dst (i + 1)
  unfolding detach_from
  round fuel w w1 src dst i lt e =
      let inside : ltb i (count w src) ≡ true = ground (arith, lt) in rw (inside, e) refl

  stay_rounds :
      (fuel m : ℕ) (w : World H P) (src dst i : ℕ)
      → i < count w src
      → IsDetachable w src dst
      → leads_to w dst (entry w src i) ≡ false
      → (w' : World H P) × (detach_from fuel w src dst (i + 1) ≡ some w')
        × Detached w w' src dst (i + 1) m
      → (w' : World H P) × (detach_from (suc fuel) w src dst i ≡ some w')
        × Detached w w' src dst i (suc m)
  stay_rounds fuel m w src dst i lt ok h (w', done, d) = (
    w',
    round fuel w w src dst i lt (detach_at-stays w src dst i (ok.room.not_null i lt) h) ∙ done,
    stay_step w w' src dst i m h d,
  )

  detach_from_lem :
      (fuel m : ℕ) (w : World H P) (src dst i : ℕ)
      → dst ≢ null
      → IsDetachable w src dst
      → count w src ≡ i + m
      → m < fuel
      → (w' : World H P) × (detach_from fuel w src dst i ≡ some w') × Detached w w' src dst i m
  detach_from_lem zero m w src dst i bus ok e enough = absurd (omega arith)
  detach_from_lem (suc fuel) zero w src dst i bus ok e enough =
      let none_left : count w src - i ≡ 0 = omega (arith, e) in
      (
        w,
        stop (suc fuel) w src dst i (omega arith) (omega (arith, e)),
        record {
          queues = refl;
          inv = ok.inv;
          from = omega (arith, e);
          below = λ k lt. refl;
          rest = ap (λ k. range_of (entry w src) i k) none_left;
        },
      )
  detach_from_lem (suc fuel) (suc zero) w src dst i bus ok e enough =
      let lt : i < count w src = omega (arith, e) in
      elim (Bool-cases (leads_to w dst (entry w src i))) [
        | inr h ↦
            stay_rounds fuel zero w src dst i lt ok h
              (detach_from_lem fuel zero w src dst (i + 1) bus ok (omega (arith, e)) (omega arith))
        | inl h ↦
            let (w1, taken, gone) = detach_at-Removed w src dst i bus lt ok h in
            let over : count w1 src ≡ i = omega (arith, gone.fewer, e) in
            let none_left : count w1 src - i ≡ 0 = omega (arith, over) in
            (
              w1,
              round fuel w w1 src dst i lt taken
                  ∙ stop fuel w1 src dst (i + 1) (omega arith) (omega (arith, over)),
              record {
                queues = gone.queues;
                inv = gone.inv;
                from = omega (arith, over);
                below = λ k lt. ground (arith, gone.moved k, lt);
                rest = ap (range_of (entry w1 src) i) none_left ∙ rw h refl;
              },
            )
      ]
  detach_from_lem (suc fuel) (suc (suc m)) w src dst i bus ok e enough =
      let lt : i < count w src = omega (arith, e) in
      elim (Bool-cases (leads_to w dst (entry w src i))) [
        | inr h ↦
            stay_rounds fuel (suc m) w src dst i lt ok h (
              detach_from_lem fuel (suc m) w src dst (i + 1) bus ok (omega (arith, e))
                (omega arith))
        | inl h ↦
            let (w1, taken, gone) = detach_at-Removed w src dst i bus lt ok h in
            let (w', done, d) =
              detach_from_lem fuel m w1 src dst (i + 1) bus
                (Removed-IsDetachable w w1 src dst i lt gone ok) (omega (arith, gone.fewer, e))
                (omega arith) in
            (
              w',
              round fuel w w1 src dst i lt taken ∙ done,
              remove_step w w1 w' src dst i m h e gone d,
            )
      ]

  -- `bus_detach` ends, where the array holds the queues that are counted, these are different and not
  -- NULL, those of the bus `dst` are in its heaps, and these are as they should be (`dst` is not
  -- NULL). Of the attached queues it takes off each that belongs to `dst` unless the queue before it
  -- was taken off: the one behind a queue that is taken off always stays. The others keep their
  -- order, the queues themselves are as they were, and the heaps of `dst` are as they should be.
  pub bus_detach_lem :
      (w : World H P) (src dst : ℕ)
      → dst ≢ null
      → IsDetachable w src dst
      → (w' : World H P) × (bus_detach w src dst ≡ some w')
        × (attached_queues w' src ≡ kept (leads_to w dst) (attached_queues w src))
        × (w'.queues ≡ w.queues)
        × PipesInv w' dst
  unfolding bus_detach
  bus_detach_lem w src dst bus ok =
      let (w', done, d) =
        detach_from_lem (count w src + 1) (count w src) w src dst 0 bus ok (omega arith)
          (omega arith) in
      let all : count w' src ≡ count w' src - 0 = omega arith in
      (w', done, ap (range_of (entry w' src) 0) all ∙ d.rest, d.queues, d.inv)
