-- ===== src/Context/Drain.antt =====
-- src/engine/core/context.c: the callbacks that ctx_run calls before it looks for an event.
use ats.Base.{
  ℕ, zero, suc, ◌<◌, ◌≡◌, refl, sym, ap, ◌∙◌, subst, some, false, ◌==◌, arith, null, List, [], ◌∷◌,
  length,
}
use ats.Heap.{MinHeap}
use ats.Mpscq.{Mpscq}
use ats.Spscq.Ring.{IsValid, contents}
use ats.Wakeup.{set_context}
use ats.World.{Hooks, World}
use ats.EventQueue.Destroy.{NonNull}
use ats.Bus.Pipes.{PipesInv, PipeInv-frame}
use ats.Bus.Add.{CanJoin}
use ats.Bus.Joins.{CanAllJoin}
use ats.Bus.Round.{count_in}
use ats.Bus.Forward.{AttachedValid-keeps}
use ats.Bus.NextEvent.{IsServing}
use ats.Context.{run_asyncs}

-- The callbacks leave the contexts, the queues and the events alone.
pub record IsPassive {H P : Type 0} (hooks : Hooks H P) : Type 0 where
  pub contexts : (f c d : ℕ) (w : World H P) → (hooks.async f c d w).contexts ≡ w.contexts
  pub queues : (f c d : ℕ) (w : World H P) → (hooks.async f c d w).queues ≡ w.queues
  pub events : (f c d : ℕ) (w : World H P) → (hooks.async f c d w).events ≡ w.events

module _ {H P : Type 0} where
  -- What the bus of a context reads is as it was.
  pub record SameBus (w w' : World H P) (c : ℕ) : Type 0 where
    pub events : w'.events ≡ w.events
    pub queues : w'.queues ≡ w.queues
    pub heaps : (w'.contexts c).queue_heap ≡ (w.contexts c).queue_heap
    pub pending : (w'.contexts c).pending_queue ≡ (w.contexts c).pending_queue
    pub attached : (w'.contexts c).attached ≡ (w.contexts c).attached
    pub attached_count : (w'.contexts c).attached_count ≡ (w.contexts c).attached_count
    pub stop_flag : (w'.contexts c).stop_flag ≡ (w.contexts c).stop_flag

  SameBus-trans : (u v w : World H P) (c : ℕ) → SameBus u v c → SameBus v w c → SameBus u w c
  SameBus-trans u v w c g h = record {
    events = h.events ∙ g.events;
    queues = h.queues ∙ g.queues;
    heaps = h.heaps ∙ g.heaps;
    pending = h.pending ∙ g.pending;
    attached = h.attached ∙ g.attached;
    attached_count = h.attached_count ∙ g.attached_count;
    stop_flag = h.stop_flag ∙ g.stop_flag;
  }

  set_async : World H P → ℕ → P → World H P
  set_async w c p = set_context w c (record (w.contexts c) { async_queue = p })

  set_async-SameBus : (w : World H P) (c : ℕ) (p : P) → SameBus w (set_async w c p) c
  unfolding set_async
  set_async-SameBus w c p = record {
    events = refl;
    queues = refl;
    heaps = ground arith;
    pending = ground arith;
    attached = ground arith;
    attached_count = ground arith;
    stop_flag = ground arith;
  }

  module _ ⦃hooks : Hooks H P⦄ where
    async-SameBus :
        (w : World H P) (f c d : ℕ) → IsPassive hooks → SameBus w (hooks.async f c d w) c
    async-SameBus w f c d passive =
        let same = passive.contexts f c d w in
        record {
          events = passive.events f c d w;
          queues = passive.queues f c d w;
          heaps = ap (λ g. (g c).queue_heap) same;
          pending = ap (λ g. (g c).pending_queue) same;
          attached = ap (λ g. (g c).attached) same;
          attached_count = ap (λ g. (g c).attached_count) same;
          stop_flag = ap (λ g. (g c).stop_flag) same;
        }

module _ {H P : Type 0} ⦃mpscq : Mpscq P⦄ ⦃hooks : Hooks H P⦄ where
  -- The callbacks that wait for the context
  abbrev pub posted : World H P → ℕ → List ℕ
  posted w c = mpscq.nodes (w.contexts c).async_queue

  -- With more fuel than there are callbacks, the loop of callbacks ends, none is left, and
  -- the bus is as it was.
  pub run_asyncs_lem :
      (l : List ℕ) (fuel : ℕ) (w : World H P) (c : ℕ)
      → IsPassive hooks
      → posted w c ≡ l
      → NonNull l
      → length l < fuel
      → (w' : World H P) × (run_asyncs fuel w c ≡ some w') × (posted w' c ≡ []) × SameBus w w' c
  unfolding run_asyncs set_async
  run_asyncs_lem [] zero w c passive e nn enough = absurd (omega arith)
  run_asyncs_lem (x ∷ l) zero w c passive e nn enough = absurd (omega arith)
  run_asyncs_lem [] (suc fuel) w c passive e nn enough =
      let (none_left, empty) = mpscq.pop-nil (w.contexts c).async_queue e in
      let p = (mpscq.pop (w.contexts c).async_queue).1 in
      let now : ((set_async w c p).contexts c).async_queue ≡ p = ground arith in
      (set_async w c p, rw none_left refl, ap mpscq.nodes now ∙ empty, set_async-SameBus w c p)
  run_asyncs_lem (x ∷ l) (suc fuel) w c passive e (nx, nn) enough =
      let (first, left) = mpscq.pop-cons (w.contexts c).async_queue x l e in
      let p = (mpscq.pop (w.contexts c).async_queue).1 in
      let node = (mpscq.pop (w.contexts c).async_queue).0 in
      let w1 = set_async w c p in
      let a = w1.asyncs node in
      let w2 = hooks.async a.async_cb c a.user_data w1 in
      let now : (w1.contexts c).async_queue ≡ p = ground arith in
      let same : (w2.contexts c).async_queue ≡ p =
        ap (λ g. (g c).async_queue) (passive.contexts a.async_cb c a.user_data w1) ∙ now in
      let (w3, rest, empty, kept) =
        run_asyncs_lem l fuel w2 c passive (ap mpscq.nodes same ∙ left) nn (omega arith) in
      let not_null : (node == null) ≡ false = ground (arith, first, nx) in
      (
        w3,
        rw not_null rest,
        empty,
        SameBus-trans w w1 w3 c (set_async-SameBus w c p)
            (SameBus-trans w1 w2 w3 c (async-SameBus w1 a.async_cb c a.user_data passive) kept),
      )

module _ {H P : Type 0} ⦃heap : MinHeap H⦄ where
  CanJoin-SameBus : (w w' : World H P) (c q : ℕ) → SameBus w w' c → CanJoin w c q → CanJoin w' c q
  CanJoin-SameBus w w' c q s j =
      let at_q : w'.queues q ≡ w.queues q = ap (λ g. g q) s.queues in
      record {
        bus = j.bus;
        not_null = j.not_null;
        free = rw at_q j.free;
        valid = rw at_q j.valid;
        solid = rw at_q j.solid;
        out = rw (at_q, s.heaps) j.out;
      }

  CanAllJoin-SameBus :
      (w w' : World H P) (c : ℕ) (qs : List ℕ)
      → SameBus w w' c
      → CanAllJoin w c qs
      → CanAllJoin w' c qs
  CanAllJoin-SameBus w w' c [] s j = tt
  CanAllJoin-SameBus w w' c (q ∷ qs) s (j, other, rest) =
      (CanJoin-SameBus w w' c q s j, other, CanAllJoin-SameBus w w' c qs s rest)

  PipesInv-SameBus : (w w' : World H P) (c : ℕ) → SameBus w w' c → PipesInv w c → PipesInv w' c
  PipesInv-SameBus w w' c s inv k =
      PipeInv-frame w w' c k (inv k) s.events (ap (λ h. h k) s.heaps)
        (λ a m. ap (λ g. g a) s.queues)

module _ {H P : Type 0} ⦃heap : MinHeap H⦄ ⦃mpscq : Mpscq P⦄ where
  pub IsServing-SameBus :
      (w w' : World H P) (c : ℕ) (qs : List ℕ)
      → SameBus w w' c
      → IsServing w c qs
      → IsServing w' c qs
  IsServing-SameBus w w' c qs same s = record {
    inv = PipesInv-SameBus w w' c same s.inv;
    joinable =
        subst (CanAllJoin w' c) (ap mpscq.nodes (sym same.pending))
          (CanAllJoin-SameBus w w' c _ same s.joinable);
    covered = λ k a m. s.covered k a (subst (λ h. 0 < heap.count (h k) a) same.heaps m);
    waiting = λ a m. s.waiting a (subst (λ p. 0 < count_in (mpscq.nodes p) a) same.pending m);
    solid = λ a m.
        subst (λ g. count_in (contents ((g a).spsc)) null ≡ 0) (sym same.queues) (s.solid a m);
    attached =
        AttachedValid-keeps w w' c (same.attached, same.attached_count)
          (λ a v. subst (λ g. IsValid ((g a).spsc)) (sym same.queues) v) s.attached;
  }
