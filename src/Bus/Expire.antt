-- ===== src/Bus/Expire.antt =====
-- src/engine/core/event_bus.c: timer_heap_pop on a heap of timers.
use ats.Base.{
  ℕ, ◌+◌, ◌<◌, ◌≤◌, ◌≡◌, ◌≢◌, refl, sym, ap, ap₂, ◌∙◌, subst, Bool-cases, false, ◌&&◌, ◌==◌,
  if◌then◌else◌, arith, inl, inr, u64, update_self, update_ne,
}
use ats.Heap.{MinHeap}
use ats.World.{Clock, World}
use ats.Bus.Heaps.{timer_heap, timer_less_than, timer_heap_pop, insert_timer, remove_timer}
use ats.Bus.Order.{timer_less_than-IsOrder}
use ats.Bus.Timer.{
  TimerInv, TimerOk-frame, TimerOk-remove, timer_heap-set, set_timer_heap-TimerInv,
  insert_timer_lem, reminders-insert_timer, again, timer_heap_pop-once, timer_heap_pop-again,
}

-- How often a timer is in the heap before and after, and between removal and return.
left_once :
    (t a n m r : ℕ)
    → r ≡ 0
    → n ≡ (if t == a then 1 else 0) + m
    → n ≤ 1
    → m ≡ (if t == a && r == 0 then 0 else n)
left_once t a n m r z e h = ground arith

left_again :
    (t a n m r : ℕ)
    → r ≢ 0
    → n ≡ (if t == a then 1 else 0) + m
    → (if t == a then 1 else 0) + m ≡ (if t == a && r == 0 then 0 else n)
left_again t a n m r z e = ground arith

module _ {H P : Type 0} ⦃heap : MinHeap H⦄ where
  -- What the pop of a timer from the heap of the clock `k` answers and leaves.
  pub record Fired (w : World H P) (c : ℕ) (k : Clock) (t : ℕ) (w' : World H P) : Type 0 where
    -- it was in the heap, and no timer was before it
    pub queued : 0 < heap.count (timer_heap w c k) t
    pub first : (a : ℕ) → 0 < heap.count (timer_heap w c k) a → timer_less_than w a t ≡ false
    -- it has left the heap if it has no period, and no other timer has
    pub left :
        (a : ℕ)
        → heap.count (timer_heap w' c k) a
          ≡ (if t == a && (w.reminders t).repeat == 0 then 0 else heap.count (timer_heap w c k) a)
    -- with a period it is due again one period later, after the timers of that time
    pub next :
        (w.reminders t).repeat ≢ 0
        → ((w'.reminders t).timeout ≡ u64 ((w.reminders t).timeout + (w.reminders t).repeat))
          × ((w'.reminders t).start_id ≡ (w.contexts c).counter)
    pub others : (a : ℕ) → t ≢ a → w'.reminders a ≡ w.reminders a
    pub inv : TimerInv w' c k

  reminders-remove_timer :
      (w : World H P) (c : ℕ) (k : Clock) (t : ℕ) → (remove_timer w c k t).reminders ≡ w.reminders
  unfolding remove_timer
  reminders-remove_timer w c k t = refl

  -- The heap without the timer `t`
  record Gone (w : World H P) (c : ℕ) (k : Clock) (t : ℕ) : Type 0 where
    inv : TimerInv (remove_timer w c k t) c k
    out : heap.count (timer_heap (remove_timer w c k t) c k) t ≡ 0
    counts :
        (a : ℕ)
        → heap.count (timer_heap w c k) a
          ≡ (if t == a then 1 else 0) + heap.count (timer_heap (remove_timer w c k t) c k) a
    first :
        heap.min (timer_heap w c k) ≡ t
        → (a : ℕ) → 0 < heap.count (timer_heap w c k) a
        → timer_less_than w a t ≡ false

  once-heap :
      (w : World H P) (c : ℕ) (k : Clock) (t : ℕ)
      → TimerInv w c k
      → 0 < heap.count (timer_heap w c k) t
      → Gone w c k t
  unfolding remove_timer
  once-heap w c k t good m =
      let (rest, out) = TimerOk-remove w c k (timer_heap w c k) t good m in
      let e = timer_heap-set w c k (heap.remove (timer_heap w c k) t (timer_less_than w)) in
      record {
        inv = set_timer_heap-TimerInv w c k _ rest;
        out = rw e out;
        counts = λ a. rw e (heap.count-remove (timer_less_than w) _ t a good.ordered m);
        first = λ least a p.
            subst (λ x. timer_less_than w a x ≡ false) least
              (heap.min_least _ _ a (timer_less_than-IsOrder w) good.ordered p);
      }

  once-Fired :
      (w : World H P) (c : ℕ) (k : Clock) (t : ℕ)
      → TimerInv w c k
      → heap.min (timer_heap w c k) ≡ t
      → 0 < heap.count (timer_heap w c k) t
      → (w.reminders t).repeat ≡ 0
      → Fired w c k t (remove_timer w c k t)
  once-Fired w c k t good least m z =
      let gone = once-heap w c k t good m in
      record {
        queued = m;
        first = gone.first least;
        left = λ a. left_once t a _ _ (w.reminders t).repeat z (gone.counts a) (good.once a);
        next = λ n. absurd (n z);
        others = λ a h. ap (λ f. f a) (reminders-remove_timer w c k t);
        inv = gone.inv;
      }

  -- The timer back in its heap, for what it is removed from and what it then is.
  timer-again :
      (w : World H P) (c : ℕ) (t : ℕ)
      → let r = w.reminders t in
        (again w c t).reminders t
        ≡ record r { start_id = (w.contexts c).counter; timeout = u64 (r.timeout + r.repeat) }
  timer-again w c t = update_self w.reminders t _

  timer-again_ne : (w : World H P) (c t a : ℕ) → t ≢ a → (again w c t).reminders a ≡ w.reminders a
  timer-again_ne w c t a h = update_ne w.reminders t a _ h

  timer_heap-again :
      (w : World H P) (c : ℕ) (k : Clock) (t : ℕ) → timer_heap (again w c t) c k ≡ timer_heap w c k
  timer_heap-again w c k t = ground arith

  counter-remove_timer :
      (w : World H P) (c : ℕ) (k : Clock) (t : ℕ)
      → ((remove_timer w c k t).contexts c).counter ≡ (w.contexts c).counter
  unfolding remove_timer
  counter-remove_timer w c k t = ground arith

  again-Fired :
      (w : World H P) (c : ℕ) (k : Clock) (t : ℕ)
      → TimerInv w c k
      → heap.min (timer_heap w c k) ≡ t
      → 0 < heap.count (timer_heap w c k) t
      → (w.reminders t).repeat ≢ 0
      → Fired w c k t (insert_timer (again (remove_timer w c k t) c t) c k t)
  again-Fired w c k t good least m z =
      let gone = once-heap w c k t good m in
      let w1 = remove_timer w c k t in
      let w2 = again w1 c t in
      let i = good.members t m in
      let now : w2.reminders t ≡ record (w.reminders t) {
        start_id = (w.contexts c).counter;
        timeout = u64 ((w.reminders t).timeout + (w.reminders t).repeat);
      } =
        timer-again w1 c t
        ∙ ap₂ (λ f n. record (f t) { start_id = n; timeout = u64 ((f t).timeout + (f t).repeat) })
            (reminders-remove_timer w c k t) (counter-remove_timer w c k t) in
      let there : timer_heap w2 c k ≡ timer_heap w1 c k = timer_heap-again w1 c k t in
      let out : heap.count (timer_heap w2 c k) t ≡ 0 = rw there gone.out in
      let moved : TimerInv w2 c k = rw there (
        TimerOk-frame w1 w2 c k (timer_heap w1 c k) gone.inv (λ a p.
          timer-again_ne w1 c t a
            (λ e. ground (arith, gone.out, ap (heap.count (timer_heap w1 c k)) e)))) in
      let (inv, counts) =
        insert_timer_lem w2 c k t moved out
          (record { not_null = i.not_null; home = rw now i.home; clock = rw now i.clock }) in
      let same = reminders-insert_timer w2 c k t in
      record {
        queued = m;
        first = gone.first least;
        left =
            λ a. counts a ∙ rw there (left_again t a _ _ (w.reminders t).repeat z (gone.counts a));
        next = λ n. (
          ap (λ f. (f t).timeout) same ∙ ap (λ r. r.timeout) now,
          ap (λ f. (f t).start_id) same ∙ ap (λ r. r.start_id) now,
        );
        others = λ a h.
            ap (λ f. f a) same
            ∙ timer-again_ne w1 c t a h
            ∙ ap (λ f. f a) (reminders-remove_timer w c k t);
        inv = inv;
      }

  -- The first timer of a heap that is not empty is handed out. It leaves the heap if it has no period,
  -- and with one it is due again one period later, with the next turn; no other timer changes or
  -- leaves, and the heap keeps its invariant.
  pub timer_heap_pop_lem :
      (w : World H P) (c : ℕ) (k : Clock)
      → TimerInv w c k
      → heap.nelts (timer_heap w c k) ≢ 0
      → let (t, w') = timer_heap_pop w c k in Fired w c k t w'
  timer_heap_pop_lem w c k good some_timer =
      let t = heap.min (timer_heap w c k) in
      let m = heap.min_mem (timer_heap w c k) some_timer in
      let i = good.members t m in
      elim (Bool-cases ((w.reminders t).repeat == 0)) [
        | inl e ↦
            let z : (w.reminders t).repeat ≡ 0 = ground arith in
            subst (λ r. Fired w c k (r.0) (r.1))
              (sym (timer_heap_pop-once w c k t refl i.not_null z))
              (once-Fired w c k t good refl m z)
        | inr e ↦
            let z : (w.reminders t).repeat ≢ 0 = λ p. ground arith in
            subst (λ r. Fired w c k (r.0) (r.1))
              (sym (timer_heap_pop-again w c k t refl i.not_null i.home z))
              (again-Fired w c k t good refl m z)
      ]
