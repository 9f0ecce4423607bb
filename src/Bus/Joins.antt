-- ===== src/Bus/Joins.antt =====
-- src/engine/core/event_bus.c: what a queue that joins leaves to the others.
use ats.Base.{
  ℕ, ◌+◌, ◌≤◌, ◌≡◌, ◌≢◌, refl, sym, ap, ◌∙◌, subst, Bool-cases, not, ◌&&◌, ◌⊎◌, ◌==◌, if◌then◌else◌,
  arith, inl, inr, List, [], ◌∷◌,
}
use ats.Heap.{MinHeap}
use ats.World.{Category, World, category_index}
use ats.EventQueue.{event_queue_is_empty}
use ats.Bus.Heaps.{queue_heap}
use ats.Bus.Add.{CanJoin}
use ats.Bus.Pipes.{category_index_inj, SameSettings, JoinKeeps}

abbrev pub IsOther : ℕ → List ℕ → Type 0
IsOther q [] = Unit
IsOther q (a ∷ l) = (q ≢ a) × IsOther q l

module _ {H P : Type 0} ⦃heap : MinHeap H⦄ where
  -- The queues are different ones, and each can join the bus.
  abbrev pub CanAllJoin : World H P → ℕ → List ℕ → Type 0
  CanAllJoin w c [] = Unit
  CanAllJoin w c (q ∷ qs) = CanJoin w c q × IsOther q qs × CanAllJoin w c qs

  -- What joining leaves of the queues and the heaps: queues keep their events and their category,
  -- and no queue leaves a heap.
  pub record Grows (w w' : World H P) (c : ℕ) : Type 0 where
    pub events : w'.events ≡ w.events
    pub rings : (a : ℕ) → (w'.queues a).spsc ≡ (w.queues a).spsc
    pub kinds : (a : ℕ) → (w'.queues a).category ≡ (w.queues a).category
    pub kept : SameSettings w w' c
    pub stay :
        (j : Category) (a : ℕ) → heap.count (queue_heap w c j) a ≤ heap.count (queue_heap w' c j) a

  Grows-refl : (w : World H P) (c : ℕ) → Grows w w c
  Grows-refl w c = record {
    events = refl;
    rings = λ a. refl;
    kinds = λ a. refl;
    kept = record { mode = refl; attached = refl; attached_count = refl };
    stay = λ j a. omega arith;
  }

  pub Grows-trans : (u v w : World H P) (c : ℕ) → Grows u v c → Grows v w c → Grows u w c
  Grows-trans u v w c g h = record {
    events = h.events ∙ g.events;
    rings = λ a. h.rings a ∙ g.rings a;
    kinds = λ a. h.kinds a ∙ g.kinds a;
    kept = record {
      mode = h.kept.mode ∙ g.kept.mode;
      attached = h.kept.attached ∙ g.kept.attached;
      attached_count = h.kept.attached_count ∙ g.kept.attached_count;
    };
    stay = λ j a. omega (arith, g.stay j a, h.stay j a);
  }

  -- A queue that has joined, and how the heap of its category has changed.
  abbrev pub Counted : World H P → World H P → ℕ → ℕ → Type 0
  Counted w w' c q =
      (a : ℕ)
      → heap.count (queue_heap w' c (w.queues q).category) a
        ≡ (if q == a && not (event_queue_is_empty w q) then 1 else 0)
          + heap.count (queue_heap w c (w.queues q).category) a

  same_kind :
      (w : World H P) (q : ℕ) (j : Category)
      → ((w.queues q).category ≡ j) ⊎ (category_index (w.queues q).category ≢ category_index j)
  same_kind w q j = elim (Bool-cases (category_index (w.queues q).category == category_index j)) [
    | inl e ↦ inl (category_index_inj _ _ (ground arith))
    | inr e ↦ inr (λ p. ground arith)
  ]

  pub join-Grows :
      (w w' : World H P) (c q : ℕ) → JoinKeeps w w' c q → Counted w w' c q → Grows w w' c
  join-Grows w w' c q keeps counts = record {
    events = keeps.events;
    rings = λ a. elim (Bool-cases (q == a)) [
      | inl e ↦ subst (λ a. (w'.queues a).spsc ≡ (w.queues a).spsc) (ground arith) keeps.ring
      | inr e ↦ ap (λ x. x.spsc) (keeps.others a (λ p. ground arith))
    ];
    kinds = λ a. elim (Bool-cases (q == a)) [
      | inl e ↦
          subst (λ a. (w'.queues a).category ≡ (w.queues a).category) (ground arith) keeps.kind
      | inr e ↦ ap (λ x. x.category) (keeps.others a (λ p. ground arith))
    ];
    kept = keeps.kept;
    stay = λ j a. elim (same_kind w q j) [
      | inl e ↦
          subst (λ j. heap.count (queue_heap w c j) a ≤ heap.count (queue_heap w' c j) a) e
            (omega (arith, counts a))
      | inr n ↦ rw (keeps.heaps j n) (omega arith)
    ];
  }

  -- Only the queue that joins is new in a heap.
  pub join-only :
      (w w' : World H P) (c q : ℕ)
      → JoinKeeps w w' c q
      → Counted w w' c q
      → (j : Category) (a : ℕ)
      → heap.count (queue_heap w' c j) a
        ≤ (if q == a then 1 else 0) + heap.count (queue_heap w c j) a
  join-only w w' c q keeps counts j a = elim (same_kind w q j) [
    | inl e ↦
        subst
          (λ j.
            heap.count (queue_heap w' c j) a
            ≤ (if q == a then 1 else 0) + heap.count (queue_heap w c j) a)
          e (ground (arith, counts a))
    | inr n ↦ rw (keeps.heaps j n) (omega arith)
  ]

  CanJoin-join :
      (w w' : World H P) (c q a : ℕ)
      → JoinKeeps w w' c q
      → Counted w w' c q
      → q ≢ a
      → CanJoin w c a
      → CanJoin w' c a
  CanJoin-join w w' c q a keeps counts ne can = record {
    bus = can.bus;
    not_null = can.not_null;
    free = rw (keeps.others a ne) can.free;
    valid = rw (keeps.others a ne) can.valid;
    solid = rw (keeps.others a ne) can.solid;
    out = rw (keeps.others a ne) (elim (same_kind w q (w.queues a).category) [
      | inl e ↦
          subst (λ j. heap.count (queue_heap w' c j) a ≡ 0) e
            (ground
              (arith, counts a, subst (λ j. heap.count (queue_heap w c j) a ≡ 0) (sym e) can.out))
      | inr n ↦ rw (keeps.heaps (w.queues a).category n) can.out
    ]);
  }

  pub CanAllJoin-join :
      (w w' : World H P) (c q : ℕ) (l : List ℕ)
      → JoinKeeps w w' c q
      → Counted w w' c q
      → IsOther q l
      → CanAllJoin w c l
      → CanAllJoin w' c l
  CanAllJoin-join w w' c q [] keeps counts o can = tt
  CanAllJoin-join w w' c q (a ∷ l) keeps counts o can = (
    CanJoin-join w w' c q a keeps counts o.0 can.0,
    can.1,
    CanAllJoin-join w w' c q l keeps counts o.1 can.2,
  )
