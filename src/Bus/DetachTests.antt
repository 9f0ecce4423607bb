-- ===== src/Bus/DetachTests.antt =====
-- Queues that are attached to a bus, src/engine/core/event_bus.c.
use ats.Bus.AttachOne.{Attached, TakenOff, bus_attach-bus_detach}
use ats.Mpscq.{list_queue}
use ats.Bus.Dequeue.{hand_out_saved}
use ats.Bus.Forward.{AttachedValid}
use ats.Bus.Handed.{Handed, hand_out_saved_lem}
use ats.Base.{
  ◌==◌, if◌then◌else◌, null, ◌≤◌, length, replicate, length-replicate, subst, sym, ℕ, ◌≡◌, refl,
  List, [], ◌∷◌, arith, some, none, Bool-cases, inl, inr, ◌<◌, ◌⊎◌, ◌≢◌,
}
use ats.Heap.Sorted.{sorted_heap, count}
use ats.Bus.Pipes.{PipesInv, PipeInv-frame}
use ats.Bus.Removal.{IsDetachable}
use ats.Bus.Heaps.{queue_heap}
use ats.Bus.Busy.{busy, busy-PipesInv}
use ats.World.{World, EventQueue, Category}
use ats.Bus.Attach.{bus_attach, bus_detach}
use ats.Bus.Attached.{attached_queues, kept, leads_to, entry, HasRoom}
use ats.Bus.Detach.{bus_detach_lem}
use ats.Samples.{one_ring, small, small_context}

-- The bus 2 with the queues 4, 5 and 6 of the bus 1 attached
abbrev linked : World (List ℕ) (List ℕ)
linked = record small {
  contexts = λ c. record small_context { attached = 4 ∷ 5 ∷ 6 ∷ 0 ∷ []; attached_count = 3 };
}

linked-HasRoom : HasRoom linked 2
linked-HasRoom = record { room = omega arith; not_null = λ i lt e. ground (arith, lt, e) }

-- The bus `busy` with its own queues 4 and 5, which are in its heaps, attached
abbrev joined : World (List ℕ) (List ℕ)
joined = record busy {
  contexts = λ c. record (busy.contexts c) { attached = 4 ∷ 5 ∷ 0 ∷ []; attached_count = 2 };
}

joined-PipesInv : PipesInv joined 1
joined-PipesInv k = PipeInv-frame busy joined 1 k (busy-PipesInv k) refl refl (λ a p. refl)

joined-IsDetachable : IsDetachable joined 2 1
unfolding count
joined-IsDetachable = record {
  room = record { room = omega arith; not_null = λ i lt e. ground (arith, lt, e) };
  apart = λ i j less lt e. ground (arith, less, lt, e);
  held = λ i lt h. elim (Bool-cases (i == 0)) [
    | inl z ↦
        let at : 0 ≡ i = ground arith in
        subst
          (λ i.
            0
            < sorted_heap.count (queue_heap joined 1 (joined.queues (entry joined 2 i)).category)
                (entry joined 2 i))
          at (omega arith)
    | inr z ↦
        let at : 1 ≡ i = ground (arith, lt) in
        subst
          (λ i.
            0
            < sorted_heap.count (queue_heap joined 1 (joined.queues (entry joined 2 i)).category)
                (entry joined 2 i))
          at (omega arith)
  ];
  inv = joined-PipesInv;
}

bus_detach_lem_example :
    (w' : World (List ℕ) (List ℕ)) × (bus_detach joined 2 1 ≡ some w')
    × (attached_queues w' 2 ≡ kept (leads_to joined 1) (attached_queues joined 2))
    × (w'.queues ≡ joined.queues)
    × PipesInv w' 1
bus_detach_lem_example = bus_detach_lem joined 2 1 (λ e. ground arith) joined-IsDetachable

five_stays : kept (leads_to joined 1) (attached_queues joined 2) ≡ 5 ∷ []
five_stays = refl

abbrev fresh : EventQueue
fresh = record {
  refcount = 0;
  spsc = record { capacity = 0; records = []; read_pos = 0; write_pos = 0 };
  ctx = null;
  category = Category.market;
  start_id = 0;
}

abbrev long : List ℕ
long = replicate 10000 0

long-length : 10000 ≤ length long
long-length = subst (λ (n : ℕ). 10000 ≤ n) (sym (length-replicate {A = ℕ} 10000 0)) (omega arith)

bus_attach-bus_detach_example :
    (w1 : World (List ℕ) (List ℕ)) × (bus_attach linked 2 3 20 fresh (some long) ≡ some w1)
    × Attached linked w1 2 3 20
    × (((sorted_heap.nelts (queue_heap linked 3 Category.market) ≡ 0)
          × ((w2 : World (List ℕ) (List ℕ)) × (bus_detach w1 2 3 ≡ some w2)
              × (w2.queues ≡ w1.queues)
              × TakenOff linked w2 2 3))
        ⊎ ((sorted_heap.nelts (queue_heap linked 3 Category.market) ≢ 0)
            × (bus_detach w1 2 3 ≡ none)))
unfolding count
bus_attach-bus_detach_example =
    bus_attach-bus_detach linked 2 3 20 fresh long (λ e. ground arith) (λ e. ground arith)
      (omega arith) (omega arith) long-length linked-HasRoom (λ k lt e. ground (arith, lt, e))
      (λ k lt e. ground (arith, lt, e)) refl

-- The attached queue 5 is full.
abbrev crowded : World (List ℕ) (List ℕ)
crowded = record linked {
  queues = λ q. record (small.queues q) {
    spsc = record one_ring { write_pos = if q == 5 then 3 else 1 };
  };
}

crowded-AttachedValid : AttachedValid crowded 2
crowded-AttachedValid i inside = ground arith

hand_out_saved_lem_example :
    (w' : World (List ℕ) (List ℕ)) × (hand_out_saved crowded 2 ≡ some (8, w'))
    × Handed crowded w' 8 (4 ∷ 5 ∷ 6 ∷ [])
hand_out_saved_lem_example =
    hand_out_saved_lem crowded 2 (λ e. ground arith) crowded-AttachedValid (omega arith)
