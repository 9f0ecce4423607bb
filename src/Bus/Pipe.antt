-- ===== src/Bus/Pipe.antt =====
-- src/engine/core/event_bus.c: the invariant of a heap of queues, and putting a queue in and
-- taking one out.
use ats.Base.{
  sym, ◌∙◌, ℕ, ◌+◌, ◌≤◌, ◌<◌, ◌≡◌, ◌≢◌, refl, subst, false, ◌==◌, ==_iff, if◌then◌else◌, arith,
  null, Bool-cases, inl, inr,
}
use ats.Spscq.Ring.{IsValid, contents}
use ats.Spscq.Refine.{contents-pop, peek-pop}
use ats.EventQueue.Destroy.{NonNull}
use ats.Heap.{MinHeap}
use ats.World.{Category, World}
use ats.EventQueue.{event_queue_peek, event_queue_is_empty}
use ats.Bus.Heaps.{queue_less_than, queue_heap, set_queue_heap, insert_queue, remove_queue}
use ats.Bus.Order.{queue_less_than-IsOrder, SameHead, queue_less_than_agree}

module _ {H P : Type 0} where
  -- The queue `q` may stand in the heap of category `k` of the bus `c`.
  pub record IsQueued (w : World H P) (c : ℕ) (k : Category) (q : ℕ) : Type 0 where
    pub not_null : q ≢ null
    pub valid : IsValid ((w.queues q).spsc)
    pub some_left : event_queue_is_empty w q ≡ false
    pub home : (w.queues q).ctx ≡ c
    pub kind : (w.queues q).category ≡ k
    -- no event is a null pointer
    pub solid : NonNull (contents ((w.queues q).spsc))

  -- The first event of a queue in place is no null pointer to read from an empty ring.
  pub SameHead-of_queues :
      (w w' : World H P) (q : ℕ) → w'.events ≡ w.events → w'.queues q ≡ w.queues q → SameHead w w' q
  unfolding event_queue_peek
  SameHead-of_queues w w' q e f = (rw (e, f), rw f)

  pub IsQueued-of_queues :
      (w w' : World H P) (c : ℕ) (k : Category) (q : ℕ)
      → w'.queues q ≡ w.queues q
      → IsQueued w c k q
      → IsQueued w' c k q
  unfolding event_queue_is_empty
  IsQueued-of_queues w w' c k q e i = record {
    not_null = i.not_null;
    valid = rw e i.valid;
    some_left = rw e i.some_left;
    home = rw e i.home;
    kind = rw e i.kind;
    solid = rw e i.solid;
  }

  -- The first event of a queue in place is not NULL, as `queue_less_than` asserts of both its queues.
  event_queue_peek-not_null :
      (w : World H P) (c : ℕ) (k : Category) (q : ℕ)
      → IsQueued w c k q
      → event_queue_peek w q ≢ null
  unfolding event_queue_peek event_queue_is_empty
  event_queue_peek-not_null w c k q i e =
      let s = (w.queues q).spsc in
      let (first, _) = subst NonNull (contents-pop s i.valid i.some_left) i.solid in
      first (sym (peek-pop s) ∙ e)

module _ {H P : Type 0} ⦃heap : MinHeap H⦄ where
  -- The heap `h` serves the queues of category `k` of the bus `c`.
  pub record PipeOk (w : World H P) (c : ℕ) (k : Category) (h : H) : Type 0 where
    pub ordered : heap.IsHeap (queue_less_than w) h
    pub once : (q : ℕ) → heap.count h q ≤ 1
    pub members : (q : ℕ) → 0 < heap.count h q → IsQueued w c k q

  -- A change that leaves what the heap reads of its members alone keeps the invariant.
  pub PipeOk-agree :
      (w w' : World H P) (c : ℕ) (k : Category) (h : H)
      → PipeOk w c k h
      → ((q : ℕ) → 0 < heap.count h q → SameHead w w' q × IsQueued w' c k q)
      → PipeOk w' c k h
  PipeOk-agree w w' c k h ok same = record {
    ordered =
        heap.IsHeap_agree (queue_less_than w) (queue_less_than w') h ok.ordered
          (λ a b p q. queue_less_than_agree w w' a b (same a p).0 (same b q).0);
    once = ok.once;
    members = λ q p. (same q p).1;
  }

  pub PipeOk-of_queues :
      (w w' : World H P) (c : ℕ) (k : Category) (h : H)
      → PipeOk w c k h
      → w'.events ≡ w.events
      → ((q : ℕ) → 0 < heap.count h q → w'.queues q ≡ w.queues q)
      → PipeOk w' c k h
  PipeOk-of_queues w w' c k h ok e f = PipeOk-agree w w' c k h ok (λ q m.
      (SameHead-of_queues w w' q e (f q m), IsQueued-of_queues w w' c k q (f q m) (ok.members q m)))

  pub PipeOk-insert :
      (w : World H P) (c : ℕ) (k : Category) (h : H) (q : ℕ)
      → PipeOk w c k h
      → heap.count h q ≡ 0
      → IsQueued w c k q
      → PipeOk w c k (heap.insert h q (queue_less_than w))
  PipeOk-insert w c k h q ok out new = record {
    ordered = heap.insert-IsHeap _ h q (queue_less_than-IsOrder w) ok.ordered out;
    once =
        λ a. ground (arith, heap.count-insert (queue_less_than w) h q a ok.ordered out, ok.once a);
    members = λ a m. elim (Bool-cases (q == a)) [
      | inl e ↦ subst (IsQueued w c k) ((==_iff q a).0 e) new
      | inr e ↦
          ok.members a
            (ground (arith, heap.count-insert (queue_less_than w) h q a ok.ordered out, m))
    ];
  }

  pub PipeOk-remove :
      (w : World H P) (c : ℕ) (k : Category) (h : H) (q : ℕ)
      → PipeOk w c k h
      → 0 < heap.count h q
      → PipeOk w c k (heap.remove h q (queue_less_than w))
        × (heap.count (heap.remove h q (queue_less_than w)) q ≡ 0)
  PipeOk-remove w c k h q ok m = (
    record {
      ordered = heap.remove-IsHeap _ h q (queue_less_than-IsOrder w) ok.ordered m;
      once =
          λ a. omega (arith, heap.count-remove (queue_less_than w) h q a ok.ordered m, ok.once a);
      members = λ a p.
          ok.members a (omega (arith, heap.count-remove (queue_less_than w) h q a ok.ordered m, p));
    },
    ground (arith, heap.count-remove (queue_less_than w) h q q ok.ordered m, ok.once q),
  )

  queue_heap-set :
      (w : World H P) (c : ℕ) (k : Category) (h : H) → queue_heap (set_queue_heap w c k h) c k ≡ h
  queue_heap-set w c k h = ground arith

  -- The invariant of the heap that the bus itself keeps.
  abbrev pub PipeInv : World H P → ℕ → Category → Type 0
  PipeInv w c k = PipeOk w c k (queue_heap w c k)

  set_queue_heap-PipeInv :
      (w : World H P) (c : ℕ) (k : Category) (h : H)
      → PipeOk w c k h
      → PipeInv (set_queue_heap w c k h) c k
  set_queue_heap-PipeInv w c k h ok =
      rw (queue_heap-set w c k h)
        (PipeOk-of_queues w (set_queue_heap w c k h) c k h ok refl (λ q m. refl))

  pub queues-insert_queue :
      (w : World H P) (c : ℕ) (k : Category) (q : ℕ) → (insert_queue w c k q).queues ≡ w.queues
  unfolding insert_queue
  queues-insert_queue w c k q = refl

  pub queues-remove_queue :
      (w : World H P) (c : ℕ) (k : Category) (q : ℕ) → (remove_queue w c k q).queues ≡ w.queues
  unfolding remove_queue
  queues-remove_queue w c k q = refl

  pub events-remove_queue :
      (w : World H P) (c : ℕ) (k : Category) (q : ℕ) → (remove_queue w c k q).events ≡ w.events
  unfolding remove_queue
  events-remove_queue w c k q = refl

  -- Putting a queue into the heap of its bus, and taking one out.
  pub insert_queue_lem :
      (w : World H P) (c : ℕ) (k : Category) (q : ℕ)
      → PipeInv w c k
      → heap.count (queue_heap w c k) q ≡ 0
      → IsQueued w c k q
      → PipeInv (insert_queue w c k q) c k
        × ((a : ℕ)
            → heap.count (queue_heap (insert_queue w c k q) c k) a
              ≡ (if q == a then 1 else 0) + heap.count (queue_heap w c k) a)
  unfolding insert_queue
  insert_queue_lem w c k q ok out new = (
    set_queue_heap-PipeInv w c k _ (PipeOk-insert w c k _ q ok out new),
    λ a.
        rw (queue_heap-set w c k (heap.insert (queue_heap w c k) q (queue_less_than w)))
          (heap.count-insert (queue_less_than w) _ q a ok.ordered out),
  )

  pub remove_queue_lem :
      (w : World H P) (c : ℕ) (k : Category) (q : ℕ)
      → PipeInv w c k
      → 0 < heap.count (queue_heap w c k) q
      → PipeInv (remove_queue w c k q) c k
        × (heap.count (queue_heap (remove_queue w c k q) c k) q ≡ 0)
        × ((a : ℕ)
            → heap.count (queue_heap w c k) a
              ≡ (if q == a then 1 else 0) + heap.count (queue_heap (remove_queue w c k q) c k) a)
  unfolding remove_queue
  remove_queue_lem w c k q ok m =
      let e = queue_heap-set w c k (heap.remove (queue_heap w c k) q (queue_less_than w)) in
      (
        set_queue_heap-PipeInv w c k _ (PipeOk-remove w c k _ q ok m).0,
        rw e (PipeOk-remove w c k _ q ok m).1,
        λ a. rw e (heap.count-remove (queue_less_than w) _ q a ok.ordered m),
      )
