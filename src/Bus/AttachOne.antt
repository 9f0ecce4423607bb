-- ===== src/Bus/AttachOne.antt =====
-- src/engine/core/event_bus.c: what bus_attach leaves, and bus_detach behind it.
use ats.Base.{
  ◌⊎◌, ◌-◌, subst, Option, ℕ, zero, suc, ◌+◌, ◌≤◌, ◌<◌, ◌≡◌, ◌≢◌, refl, sym, ap, ap₂, ◌∙◌, some,
  none, ltb, true, false, Bool-cases, inl, inr, ◌==◌, arith, null, List, [], ◌∷◌, ◌++◌, length,
  get_or, set, get_or-set_self, get_or-set_ne, length-set,
}
use ats.Heap.{MinHeap}
use ats.Spscq
use ats.Spscq.{Spscq}
use ats.Spscq.Ring.{IsValid, contents}
use ats.World.{World, Category, EventQueue}
use ats.EventQueue.{event_queue_init, event_queue_is_empty, set_queue}
use ats.Bus.Heaps.{queue_heap, bus_add_queue, bus_remove_queue, join_bus}
use ats.Bus.Attach.{
  set_attached, shift_down, bus_attach, detach_at, detach_from, bus_detach, max_attached,
}
use ats.Bus.Detach.{stop, round}
use ats.Bus.Removal.{detach_at-stays}
use ats.Bus.Attached.{range_of, range_of_agree, entry, count, attached_queues, leads_to, HasRoom}

range_of-last : (f : ℕ → ℕ) (i n : ℕ) → range_of f i (suc n) ≡ range_of f i n ++ (f (i + n) ∷ [])
range_of-last f i zero = let here : i ≡ i + 0 = omega arith in ap (λ a. f a ∷ []) here
range_of-last f i (suc n) =
    let shift : (i + 1) + n ≡ i + suc n = omega arith in
    ap (λ l. f i ∷ l)
      (range_of-last f (i + 1) n ∙ ap (λ a. range_of f (i + 1) n ++ (f a ∷ [])) shift)

-- The ring that `spscq_init` makes
abbrev new_ring : List ℕ → Spscq
new_ring storage = record { capacity = 10000; records = storage; read_pos = 0; write_pos = 0 }

module _ {H P : Type 0} ⦃heap : MinHeap H⦄ where
  -- The state in which the new queue joins the bus
  abbrev initialised : World H P → ℕ → ℕ → EventQueue → List ℕ → World H P
  initialised w src q z storage =
      set_queue
        (set_attached w src (set (w.contexts src).attached (count w src) q) (count w src + 1)) q
        (record z { spsc = new_ring storage; ctx = null; category = Category.market })

  -- The new queue of `src`, and what stays.
  pub record Attached (w w' : World H P) (src dst q : ℕ) : Type 0 where
    pub listed : attached_queues w' src ≡ attached_queues w src ++ (q ∷ [])
    pub more : count w' src ≡ suc (count w src)
    pub last : entry w' src (count w src) ≡ q
    pub before : (k : ℕ) → k < count w src → entry w' src k ≡ entry w src k
    pub home : (w'.queues q).ctx ≡ dst
    pub kind : (w'.queues q).category ≡ Category.market
    pub valid : IsValid (w'.queues q).spsc
    pub empty : contents (w'.queues q).spsc ≡ []
    pub others : (a : ℕ) → q ≢ a → w'.queues a ≡ w.queues a
    pub heaps : (k : Category) → queue_heap w' dst k ≡ queue_heap w dst k
    pub room : HasRoom w' src

  taken_off :
      (w w1 : World H P) (src n : ℕ)
      → n ≡ count w src
      → ((k : ℕ) → k < n → entry w1 src k ≡ entry w src k)
      → attached_queues (set_attached w1 src (w1.contexts src).attached n) src
        ≡ attached_queues w src
  taken_off w w1 src n all same =
      let w2 = set_attached w1 src (w1.contexts src).attached n in
      let counted : count w2 src ≡ n = ground arith in
      let array : (w2.contexts src).attached ≡ (w1.contexts src).attached = ground arith in
      ap (range_of (entry w2 src) 0) counted
      ∙ range_of_agree (entry w2 src) (entry w src) 0 0 n
          (λ k lt. ap (λ l. get_or l (0 + k) null) array ∙ same (0 + k) (omega (arith, lt)))
      ∙ ap (range_of (entry w src) 0) all

  bus_attach-joins :
      (w : World H P) (src dst q : ℕ) (z : EventQueue) (storage : List ℕ)
      → q ≢ null
      → dst ≢ null
      → count w src < max_attached
      → bus_attach w src dst q z (some storage)
        ≡ some (join_bus (initialised w src q z storage) dst q)
  unfolding bus_attach event_queue_init Spscq.init bus_add_queue event_queue_is_empty Spscq.is_empty
      join_bus
  bus_attach-joins w src dst q z storage nn bus few = ground (arith, nn, bus, few)

  bus_attach-Attached :
      (w : World H P) (src dst q : ℕ) (z : EventQueue) (storage : List ℕ)
      → q ≢ null
      → count w src < max_attached
      → count w src < length (w.contexts src).attached
      → 10000 ≤ length storage
      → HasRoom w src
      → Attached w (join_bus (initialised w src q z storage) dst q) src dst q
  unfolding join_bus
  bus_attach-Attached w src dst q z storage nn few space enough ok =
      let w' = join_bus (initialised w src q z storage) dst q in
      let n = count w src in
      let l = (w.contexts src).attached in
      let array : (w'.contexts src).attached ≡ set l n q = ground arith in
      let more : count w' src ≡ suc n = ground arith in
      let last : entry w' src n ≡ q =
        ap (λ x. get_or x n null) array ∙ get_or-set_self l n q null space in
      let before : (k : ℕ) → k < n → entry w' src k ≡ entry w src k =
        λ k lt. ap (λ x. get_or x k null) array ∙ get_or-set_ne l n k q null (λ e. ground arith) in
      let end : 0 + n ≡ n = omega arith in
      record {
        listed =
            ap (range_of (entry w' src) 0) more
            ∙ range_of-last (entry w' src) 0 n
            ∙ ap₂ (λ x a. x ++ (a ∷ []))
                (range_of_agree (entry w' src) (entry w src) 0 0 n
                  (λ k lt. before (0 + k) (omega arith)))
                (ap (entry w' src) end ∙ last);
        more = more;
        last = last;
        before = before;
        home = ground arith;
        kind = ground arith;
        valid = ground (arith, enough);
        empty = ground arith;
        others = λ a ne. ground (arith, ne);
        heaps = λ k. ground arith;
        room = record {
          room = omega (arith, more, ap length array, length-set l n q);
          not_null = λ i lt e. elim (Bool-cases (i == n)) [
            | inl h ↦
                let at_end : n ≡ i = ground arith in nn (sym last ∙ ap (entry w' src) at_end ∙ e)
            | inr h ↦
                let inside : i < n = ground (arith, lt, more) in
                ok.not_null i inside (sym (before i inside) ∙ e)
          ];
        };
      }

  -- The round for a queue of the bus that is not in its heap, where that holds others
  detach_at-none :
      (w : World H P) (src dst i q : ℕ)
      → entry w src i ≡ q
      → q ≢ null
      → dst ≢ null
      → leads_to w dst q ≡ true
      → heap.count (queue_heap w dst (w.queues q).category) q ≡ 0
      → heap.nelts (queue_heap w dst (w.queues q).category) ≢ 0
      → detach_at w src dst i ≡ none
  unfolding detach_at bus_remove_queue
  detach_at-none w src dst i q e nn bus h out more =
      let is_queue : (q == null) ≡ false = ground (arith, nn) in
      let is_bus : (dst == null) ≡ false = ground (arith, bus) in
      let is_out : ltb 0 (heap.count (queue_heap w dst (w.queues q).category) q) ≡ false =
        ground (arith, out) in
      let others : (heap.nelts (queue_heap w dst (w.queues q).category) == 0) ≡ false =
        ground (arith, more) in
      rw (e, is_queue, h) (rw (is_bus, is_out) (rw others refl))

  -- The round for the last entry, a queue of the bus, where the heap of the bus is empty
  detach_at-last :
      (w : World H P) (src dst i q : ℕ)
      → entry w src i ≡ q
      → count w src ≡ suc i
      → q ≢ null
      → dst ≢ null
      → leads_to w dst q ≡ true
      → heap.count (queue_heap w dst (w.queues q).category) q ≡ 0
      → heap.nelts (queue_heap w dst (w.queues q).category) ≡ 0
      → detach_at w src dst i ≡ some (set_attached w src (w.contexts src).attached i)
  unfolding detach_at bus_remove_queue shift_down
  detach_at-last w src dst i q e last nn bus h out empty =
      let is_queue : (q == null) ≡ false = ground (arith, nn) in
      let is_bus : (dst == null) ≡ false = ground (arith, bus) in
      let is_out : ltb 0 (heap.count (queue_heap w dst (w.queues q).category) q) ≡ false =
        ground (arith, out) in
      let none_in : (heap.nelts (queue_heap w dst (w.queues q).category) == 0) ≡ true =
        ground (arith, empty) in
      let none_behind : count w src - 1 - i ≡ 0 = omega (arith, last) in
      let before : count w src - 1 ≡ i = omega (arith, last) in
      rw (e, is_queue, h)
        (rw (is_bus, is_out)
          (rw none_in (
            ap₂ (λ a b. some (set_attached w src (shift_down a i (w.contexts src).attached) b))
              none_behind before)))

  -- The rounds over the entries that stay, up to the last one
  detach_from-last :
      (fuel m : ℕ) (w : World H P) (src dst i : ℕ) (end : Option (World H P))
      → HasRoom w src
      → count w src ≡ i + suc m
      → suc m < fuel
      → ((k : ℕ) → k < i + m → leads_to w dst (entry w src k) ≡ false)
      → ((left : ℕ) → 0 < left → detach_from (suc left) w src dst (i + m) ≡ end)
      → detach_from fuel w src dst i ≡ end
  detach_from-last zero m w src dst i end ok e enough stay at = absurd (omega arith)
  detach_from-last (suc fuel) zero w src dst i end ok e enough stay at =
      let here : i + 0 ≡ i = omega arith in
      subst (λ k. detach_from (suc fuel) w src dst k ≡ end) here (at fuel (omega arith))
  detach_from-last (suc fuel) (suc m) w src dst i end ok e enough stay at =
      let lt : i < count w src = omega (arith, e) in
      let next : i + suc m ≡ (i + 1) + m = omega arith in
      round fuel w w src dst i lt
        (detach_at-stays w src dst i (ok.not_null i lt) (stay i (omega arith)))
      ∙ detach_from-last fuel m w src dst (i + 1) end ok (omega (arith, e)) (omega arith)
          (λ k l. stay k (omega (arith, l)))
          (subst (λ k. (left : ℕ) → 0 < left → detach_from (suc left) w src dst k ≡ end) next at)

  -- A round that does not return
  round-none :
      (fuel : ℕ) (w : World H P) (src dst i : ℕ)
      → i < count w src
      → detach_at w src dst i ≡ none
      → detach_from (suc fuel) w src dst i ≡ none
  unfolding detach_from
  round-none fuel w src dst i lt e =
      let inside : ltb i (count w src) ≡ true = ground (arith, lt) in rw (inside, e) refl

  -- After the new queue is taken off, `src` lists the queues that it listed before it was attached, and
  -- the heaps of `dst` are the same.
  pub record TakenOff (w w2 : World H P) (src dst : ℕ) : Type 0 where
    pub listed : attached_queues w2 src ≡ attached_queues w src
    pub heaps : (k : Category) → queue_heap w2 dst k ≡ queue_heap w dst k

  -- `bus_attach` lists a new queue behind the attached ones: an empty, valid ring for market data that
  -- belongs to the bus `dst`, whose heaps stay as they were, like all other queues. `bus_detach` right
  -- after it takes off just that queue if the market heap of `dst` is empty. If it is not, it does not
  -- return as it should: the empty queue is in no heap, and `heap_remove` gets a node that is not in
  -- its heap. (Neither `dst` nor the new queue is NULL, the array has a place left for it and holds
  -- the queues that are counted, which are not NULL, not the new one and not of `dst`; the new queue
  -- is not in the market heap of `dst`, and the storage is long enough.)
  pub bus_attach-bus_detach :
      (w : World H P) (src dst q : ℕ) (z : EventQueue) (storage : List ℕ)
      → q ≢ null
      → dst ≢ null
      → count w src < max_attached
      → count w src < length (w.contexts src).attached
      → 10000 ≤ length storage
      → HasRoom w src
      → ((k : ℕ) → k < count w src → q ≢ entry w src k)
      → ((k : ℕ) → k < count w src → (w.queues (entry w src k)).ctx ≢ dst)
      → heap.count (queue_heap w dst Category.market) q ≡ 0
      → (w1 : World H P) × (bus_attach w src dst q z (some storage) ≡ some w1)
        × Attached w w1 src dst q
        × (((heap.nelts (queue_heap w dst Category.market) ≡ 0)
              × ((w2 : World H P) × (bus_detach w1 src dst ≡ some w2)
                  × (w2.queues ≡ w1.queues)
                  × TakenOff w w2 src dst))
            ⊎ ((heap.nelts (queue_heap w dst Category.market) ≢ 0)
                × (bus_detach w1 src dst ≡ none)))
  unfolding bus_detach
  bus_attach-bus_detach w src dst q z storage nn bus few space enough ok new apart out =
      let w1 = join_bus (initialised w src q z storage) dst q in
      let n = count w src in
      let a = bus_attach-Attached w src dst q z storage nn few space enough ok in
      let stay : (k : ℕ) → k < n → leads_to w1 dst (entry w1 src k) ≡ false = λ k lt.
        ap (leads_to w1 dst) (a.before k lt)
        ∙ ground (arith, ap (λ x. x.ctx) (a.others (entry w src k) (new k lt)), apart k lt) in
      let leaves : leads_to w1 dst q ≡ true = ground (arith, a.home) in
      let same : queue_heap w1 dst (w1.queues q).category ≡ queue_heap w dst Category.market =
        ap (λ k. queue_heap w1 dst k) a.kind ∙ a.heaps Category.market in
      let absent = ap (λ h. heap.count h q) same ∙ out in
      let at_end : 0 + n ≡ n = omega arith in
      let inside : n < count w1 src = omega (arith, a.more) in
      let rounds : (end : Option (World H P))
          → ((left : ℕ) → 0 < left → detach_from (suc left) w1 src dst n ≡ end)
          → detach_from (count w1 src + 1) w1 src dst 0 ≡ end =
        λ end at.
          detach_from-last (count w1 src + 1) n w1 src dst 0 end a.room (omega (arith, a.more))
            (omega (arith, a.more)) (λ k lt. stay k (omega (arith, lt)))
            (subst (λ k. (left : ℕ) → 0 < left → detach_from (suc left) w1 src dst k ≡ end)
              (sym at_end) at) in
      let w2 = set_attached w1 src (w1.contexts src).attached n in
      let ends : count w2 src ≤ n + 1 = ground arith in
      (
        w1,
        bus_attach-joins w src dst q z storage nn bus few,
        a,
        elim (Bool-cases (heap.nelts (queue_heap w dst Category.market) == 0)) [
          | inl h ↦ inl (
            ground arith,
            (
              w2,
              rounds (some w2) (λ left pos.
                  round left w1 w2 src dst n inside (
                    detach_at-last w1 src dst n q a.last a.more nn bus leaves absent
                      (ap heap.nelts same ∙ ground arith))
                  ∙ stop left w2 src dst (n + 1) pos ends),
              refl,
              record {
                listed = taken_off w w1 src n refl a.before;
                heaps = λ k. ground (arith, a.heaps k);
              },
            ),
          )
          | inr h ↦ inr (
            λ z. ground arith,
            rounds none (λ left pos. round-none left w1 src dst n inside (
                detach_at-none w1 src dst n q a.last nn bus leaves absent
                  (λ z. ground (arith, ap heap.nelts same)))),
          )
        ],
      )
