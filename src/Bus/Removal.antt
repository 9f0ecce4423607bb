-- ===== src/Bus/Removal.antt =====
-- src/engine/core/event_bus.c: one round of the loop of bus_detach.
use ats.Base.{
  sym, subst, Bool-cases, inl, inr, ℕ, suc, ◌+◌, ◌-◌, ◌<◌, ◌≡◌, ◌≢◌, refl, ap, ◌∙◌, some, true,
  false, ◌&&◌, leb, ltb, ◌==◌, if◌then◌else◌, arith, null, length, get_or,
}
use ats.Heap.{MinHeap}
use ats.World.{World, Category, category_index}
use ats.Bus.Pipe.{PipeInv, queues-remove_queue, events-remove_queue, remove_queue_lem}
use ats.Bus.Pipes.{PipesInv, PipeInv-frame, category_index_inj}
use ats.Bus.Heaps.{queue_heap, bus_remove_queue, remove_queue}
use ats.Bus.Attach.{shift_down, set_attached, detach_at}
use ats.Bus.Attached.{length-shift_down, get_or-shift_down, entry, count, leads_to, HasRoom}

-- Where the entry at `k` stood before the one at `i` was removed
abbrev old : ℕ → ℕ → ℕ
old i k = if leb i k then k + 1 else k

module _ {H P : Type 0} ⦃heap : MinHeap H⦄ where
  -- The queues that are attached to `src` are different ones, those of the bus `dst` are in its heaps,
  -- and these are as they should be.
  pub record IsDetachable (w : World H P) (src dst : ℕ) : Type 0 where
    pub room : HasRoom w src
    pub apart : (i j : ℕ) → i < j → j < count w src → entry w src i ≢ entry w src j
    pub held :
        (i : ℕ)
        → i < count w src
        → leads_to w dst (entry w src i) ≡ true
        → 0 < heap.count (queue_heap w dst (w.queues (entry w src i)).category) (entry w src i)
    pub inv : PipesInv w dst

  -- A round that removes the entry at `i`
  pub record Removed (w w' : World H P) (src dst i : ℕ) : Type 0 where
    pub queues : w'.queues ≡ w.queues
    pub fewer : count w src ≡ suc (count w' src)
    pub same_length : length (w'.contexts src).attached ≡ length (w.contexts src).attached
    pub moved :
        (k : ℕ)
        → entry w' src k
          ≡ (if leb i k && ltb k (count w src - 1) then entry w src (k + 1) else entry w src k)
    pub inv : PipesInv w' dst
    pub stay :
        (j : Category) (a : ℕ)
        → entry w src i ≢ a
        → heap.count (queue_heap w' dst j) a ≡ heap.count (queue_heap w dst j) a

  pub detach_at-stays :
      (w : World H P) (src dst i : ℕ)
      → entry w src i ≢ null
      → leads_to w dst (entry w src i) ≡ false
      → detach_at w src dst i ≡ some w
  unfolding detach_at
  detach_at-stays w src dst i nn h = ground (arith, nn, h)

  remove_queue-other :
      (w : World H P) (c q : ℕ) (k j : Category)
      → category_index k ≢ category_index j
      → queue_heap (remove_queue w c k q) c j ≡ queue_heap w c j
  unfolding remove_queue
  remove_queue-other w c q k j ne = ground (arith, ne)

  -- One queue out of its heap leaves all heaps as they should be, and all other queues in them.
  remove_queue-PipesInv :
      (w : World H P) (c q : ℕ) (k j : Category)
      → PipesInv w c
      → 0 < heap.count (queue_heap w c k) q
      → PipeInv (remove_queue w c k q) c j
        × ((a : ℕ)
            → q ≢ a
            → heap.count (queue_heap (remove_queue w c k q) c j) a
              ≡ heap.count (queue_heap w c j) a)
  remove_queue-PipesInv w c q k j inv m =
      let w' = remove_queue w c k q in
      let (good, _, counts) = remove_queue_lem w c k q (inv k) m in
      elim (Bool-cases (category_index k == category_index j)) [
        | inl h ↦
            subst
              (λ j.
                PipeInv w' c j
                × ((a : ℕ)
                    → q ≢ a
                    → heap.count (queue_heap w' c j) a ≡ heap.count (queue_heap w c j) a))
              (category_index_inj k j (ground arith)) (good, λ a ne. ground (arith, counts a, ne))
        | inr h ↦
            let same = remove_queue-other w c q k j (λ e. ground arith) in
            (
              PipeInv-frame w w' c j (inv j) (events-remove_queue w c k q) same
                  (λ a p. ap (λ f. f a) (queues-remove_queue w c k q)),
              λ a ne. ap (λ h. heap.count h a) same,
            )
      ]

  pub detach_at-Removed :
      (w : World H P) (src dst i : ℕ)
      → dst ≢ null
      → i < count w src
      → IsDetachable w src dst
      → leads_to w dst (entry w src i) ≡ true
      → (w' : World H P) × (detach_at w src dst i ≡ some w') × Removed w w' src dst i
  unfolding detach_at bus_remove_queue
  detach_at-Removed w src dst i bus lt ok h =
      let q = entry w src i in
      let x = w.contexts src in
      let w1 = remove_queue w dst (w.queues q).category q in
      let left = x.attached_count - 1 - i in
      let w' = set_attached w1 src (shift_down left i x.attached) (x.attached_count - 1) in
      let is_queue : (q == null) ≡ false = ground (arith, ok.room.not_null i lt) in
      let is_bus : (dst == null) ≡ false = ground (arith, bus) in
      let held = ok.held i lt h in
      let is_held : ltb 0 (heap.count (queue_heap w dst (w.queues q).category) q) ≡ true =
        ground (arith, held) in
      let now : (w'.contexts src).attached ≡ shift_down left i x.attached = ground arith in
      let heaps : (j : Category) → queue_heap w' dst j ≡ queue_heap w1 dst j = λ j. ground arith in
      let room : i + left < length x.attached = omega (arith, lt, ok.room.room) in
      let gone =
        λ (j : Category). remove_queue-PipesInv w dst q (w.queues q).category j ok.inv held in
      (
        w',
        rw (is_queue, h) (rw (is_bus, is_held) refl),
        record {
          queues = queues-remove_queue w dst (w.queues q).category q;
          fewer = ground (arith, lt);
          same_length = ap length now ∙ length-shift_down left i x.attached;
          moved = λ k.
              let end : i + left ≡ x.attached_count - 1 = omega (arith, lt) in
              ap (λ l. get_or l k null) now
              ∙ get_or-shift_down left i x.attached k room
              ∙ ap (λ n. if leb i k && ltb k n then entry w src (k + 1) else entry w src k) end;
          inv = λ j. PipeInv-frame w1 w' dst j ((gone j).0) refl (heaps j) (λ a p. refl);
          stay = λ j a ne. ap (λ h. heap.count h a) (heaps j) ∙ (gone j).1 a ne;
        },
      )

  Removed-HasRoom :
      (w w' : World H P) (src dst i : ℕ) → Removed w w' src dst i → HasRoom w src → HasRoom w' src
  Removed-HasRoom w w' src dst i gone ok = record {
    room = omega (arith, gone.fewer, gone.same_length, ok.room);
    not_null = λ k lt e. ground (
      arith,
      gone.moved k,
      gone.fewer,
      lt,
      e,
      λ (l : k < count w src). ok.not_null k l,
      λ (l : k + 1 < count w src). ok.not_null (k + 1) l,
    );
  }

  pub Removed-IsDetachable :
      (w w' : World H P) (src dst i : ℕ)
      → i < count w src
      → Removed w w' src dst i
      → IsDetachable w src dst
      → IsDetachable w' src dst
  Removed-IsDetachable w w' src dst i lt gone ok =
      let was : (k : ℕ) → k < count w' src → entry w' src k ≡ entry w src (old i k) =
        λ k l. ground (arith, gone.moved k, gone.fewer, l) in
      let inside : (k : ℕ) → k < count w' src → old i k < count w src =
        λ k l. ground (arith, gone.fewer, l) in
      let other : (k : ℕ) → k < count w' src → entry w src i ≢ entry w src (old i k) = λ k l e.
        elim (Bool-cases (leb i k)) [
          | inl h ↦ ok.apart i (old i k) (ground arith) (inside k l) e
          | inr h ↦ ok.apart (old i k) i (ground arith) lt (sym e)
        ] in
      record {
        room = Removed-HasRoom w w' src dst i gone ok.room;
        apart = λ j k less l e.
            ok.apart (old i j) (old i k) (ground (arith, less)) (inside k l)
              (sym (was j (omega arith)) ∙ e ∙ was k l);
        held = λ k l h.
            subst
              (λ a.
                leads_to w' dst a ≡ true
                → 0 < heap.count (queue_heap w' dst (w'.queues a).category) a)
              (sym (was k l))
              (λ h.
                let same = ap (λ f. f (entry w src (old i k))) gone.queues in
                let before =
                  ok.held (old i k) (inside k l) (ground (arith, ap (λ x. x.ctx) same, h)) in
                rw (ap (λ x. x.category) same) (omega (arith, gone.stay _ _ (other k l), before)))
              h;
        inv = gone.inv;
      }
