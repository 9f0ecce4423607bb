-- ===== src/Bus/NextEvent.antt =====
-- src/engine/core/event_bus.c: bus_dequeue, which takes the waiting queues and then the next event.
use ats.Base.{
  ℕ, ◌+◌, ◌<◌, ◌≡◌, refl, sym, ap, ap₂, ◌∙◌, subst, some, true, arith, null, List, [], ◌∷◌, length,
}
use ats.Heap.{MinHeap}
use ats.Mpscq.{Mpscq}
use ats.Spscq.Ring.{contents, IsValid}
use ats.World.{Category, Mode, market, World}
use ats.Bus.Heaps.{queue_heap, pipe_is_empty}
use ats.Bus.Dequeue.{check_pending_queue, bus_simulation_dequeue, bus_realtime_dequeue, bus_dequeue}
use ats.Bus.Pipes.{PipesInv}
use ats.Bus.Joins.{CanAllJoin}
use ats.Bus.Pending.{check_pending_queue_lem}
use ats.Bus.Round.{count_in, backlog, NoNull}
use ats.Bus.Forward.{AttachedValid, AttachedValid-keeps}
use ats.Bus.Progress.{IsIdle, bus_simulation_dequeue_lem}
use ats.Bus.Realtime.{bus_realtime_dequeue_lem}

module _ {H P : Type 0} ⦃heap : MinHeap H⦄ ⦃mpscq : Mpscq P⦄ where
  -- A state of the bus in which its next event can be searched for: the heaps keep their invariants,
  -- the queues in them and the waiting ones, which can join, belong to the list `qs`, none of which
  -- holds a null pointer, and the attached queues are valid rings.
  pub record IsServing (w : World H P) (c : ℕ) (qs : List ℕ) : Type 0 where
    pub inv : PipesInv w c
    pub joinable : CanAllJoin w c (mpscq.nodes (w.contexts c).pending_queue)
    pub covered : (k : Category) (a : ℕ) → 0 < heap.count (queue_heap w c k) a → 0 < count_in qs a
    pub waiting :
        (a : ℕ) → 0 < count_in (mpscq.nodes (w.contexts c).pending_queue) a → 0 < count_in qs a
    pub solid : NoNull w qs
    pub attached : AttachedValid w c

  backlog_rings :
      (w w' : World H P) (qs : List ℕ)
      → ((a : ℕ) → (w'.queues a).spsc ≡ (w.queues a).spsc)
      → backlog w' qs ≡ backlog w qs
  backlog_rings w w' [] same = refl
  backlog_rings w w' (q ∷ qs) same =
      ap₂ ◌+◌ (ap (λ s. length (contents s)) (same q)) (backlog_rings w w' qs same)

  bus_dequeue-simulation :
      (fuel : ℕ) (w w' : World H P) (c : ℕ)
      → check_pending_queue fuel w c ≡ some w'
      → (w'.contexts c).mode ≡ Mode.simulation
      → bus_dequeue fuel w c ≡ bus_simulation_dequeue fuel w' c
  unfolding bus_dequeue
  bus_dequeue-simulation fuel w w' c e m = rw e (rw m refl)

  bus_dequeue-realtime :
      (fuel : ℕ) (w w' : World H P) (c : ℕ)
      → check_pending_queue fuel w c ≡ some w'
      → (w'.contexts c).mode ≡ Mode.realtime
      → bus_dequeue fuel w c ≡ some (bus_realtime_dequeue w' c)
  unfolding bus_dequeue
  bus_dequeue-realtime fuel w w' c e m = rw e (rw m refl)

  -- Both modes answer NULL only if nothing waits.
  search :
      (fuel : ℕ) (w w' : World H P) (c : ℕ) (qs : List ℕ)
      → check_pending_queue fuel w c ≡ some w'
      → PipesInv w' c
      → ((k : Category) (a : ℕ) → 0 < heap.count (queue_heap w' c k) a → 0 < count_in qs a)
      → NoNull w' qs
      → AttachedValid w' c
      → backlog w' qs < fuel
      → (r : ℕ × World H P) × (bus_dequeue fuel w c ≡ some r)
        × (r.0 ≡ null → (pipe_is_empty (r.1) c market ≡ true) × IsIdle (r.1) c)
  search fuel w w' c qs e inv covers solid valid enough =
      let Goal : Type 0 =
        (r : ℕ × World H P) × (bus_dequeue fuel w c ≡ some r)
        × (r.0 ≡ null → (pipe_is_empty (r.1) c market ≡ true) × IsIdle (r.1) c) in
      let go : (m : Mode) → (w'.contexts c).mode ≡ m → Goal = λ m.
        elim m as (λ m. (w'.contexts c).mode ≡ m → Goal) [
          | Mode.simulation ↦ λ p.
              let (r, done, idle) =
                bus_simulation_dequeue_lem fuel w' c qs inv covers solid valid enough in
              (r, bus_dequeue-simulation fuel w w' c e p ∙ done, idle)
          | Mode.realtime ↦ λ p. (
            bus_realtime_dequeue w' c,
            bus_dequeue-realtime fuel w w' c e p,
            bus_realtime_dequeue_lem w' c qs inv covers solid,
          )
        ] in
      go (w'.contexts c).mode refl

  -- In both modes `bus_dequeue` returns, with fuel for more rounds than there are waiting queues and
  -- than there are events in the queues of the bus, and answers NULL only if no queue in the heaps of
  -- the bus holds an event and no market event is saved. (The heaps keep their invariants, the
  -- waiting queues are different ones and can join, the list of queues has those in the heaps and the
  -- waiting ones, none of them holds a null pointer, and the attached queues, as many as are counted,
  -- are valid rings.)
  pub bus_dequeue_lem :
      (fuel : ℕ) (w : World H P) (c : ℕ) (qs : List ℕ)
      → IsServing w c qs
      → length (mpscq.nodes (w.contexts c).pending_queue) < fuel
      → backlog w qs < fuel
      → (r : ℕ × World H P) × (bus_dequeue fuel w c ≡ some r)
        × (r.0 ≡ null → (pipe_is_empty (r.1) c market ≡ true) × IsIdle (r.1) c)
  bus_dequeue_lem fuel w c qs s rounds enough =
      let ps = mpscq.nodes (w.contexts c).pending_queue in
      let (w', done, inv, _, _, g, only) =
        check_pending_queue_lem ps fuel w c refl s.joinable s.inv rounds in
      search fuel w w' c qs done inv (λ k a m. ground (arith, only k a, s.waiting a, s.covered k a))
        (λ a m. subst (λ r. count_in (contents r) null ≡ 0) (sym (g.rings a)) (s.solid a m))
        (AttachedValid-keeps w w' c (g.kept.attached, g.kept.attached_count)
          (λ a v. subst IsValid (sym (g.rings a)) v) s.attached)
        (omega (arith, backlog_rings w w' qs g.rings))
