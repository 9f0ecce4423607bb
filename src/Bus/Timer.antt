-- ===== src/Bus/Timer.antt =====
-- src/engine/core/event_bus.c: the invariant of a heap of timers, bus_add_timer and timer_heap_pop.
use ats.Base.{
  ℕ, ◌+◌, ◌<◌, ◌≤◌, ◌≡◌, ◌≢◌, refl, subst, Bool-cases, ◌==◌, ==_iff, if◌then◌else◌, arith, null,
  inl, inr, u64,
}
use ats.Heap.{MinHeap}
use ats.World.{Clock, World}
use ats.Bus.Heaps.{
  timer_heap, set_timer_heap, set_counter, set_reminder, timer_less_than, timer_heap_pop, rearm,
  insert_timer, remove_timer,
}
use ats.Bus.Order.{timer_less_than-IsOrder, timer_less_than_agree}

module _ {H P : Type 0} where
  -- The timer `t` may stand in the heap of the clock `k` of the bus `c`.
  pub record IsTimer (w : World H P) (c : ℕ) (k : Clock) (t : ℕ) : Type 0 where
    pub not_null : t ≢ null
    pub home : (w.reminders t).ctx ≡ c
    pub clock : (w.reminders t).clock_type ≡ k

module _ {H P : Type 0} ⦃heap : MinHeap H⦄ where
  -- The heap `h` serves the timers of the clock `k` of the bus `c`.
  pub record TimerOk (w : World H P) (c : ℕ) (k : Clock) (h : H) : Type 0 where
    pub ordered : heap.IsHeap (timer_less_than w) h
    pub once : (t : ℕ) → heap.count h t ≤ 1
    pub members : (t : ℕ) → 0 < heap.count h t → IsTimer w c k t

  abbrev pub TimerInv : World H P → ℕ → Clock → Type 0
  TimerInv w c k = TimerOk w c k (timer_heap w c k)

  -- A change that leaves the timers in the heap alone keeps the invariant.
  pub TimerOk-frame :
      (w w' : World H P) (c : ℕ) (k : Clock) (h : H)
      → TimerOk w c k h
      → ((t : ℕ) → 0 < heap.count h t → w'.reminders t ≡ w.reminders t)
      → TimerOk w' c k h
  TimerOk-frame w w' c k h ok same = record {
    ordered =
        heap.IsHeap_agree (timer_less_than w) (timer_less_than w') h ok.ordered
          (λ a b p q. timer_less_than_agree w w' a b (same a p) (same b q));
    once = ok.once;
    members = λ t m.
        let i = ok.members t m in
        record {
          not_null = i.not_null;
          home = rw (same t m) i.home;
          clock = rw (same t m) i.clock;
        };
  }

  pub TimerOk-insert :
      (w : World H P) (c : ℕ) (k : Clock) (h : H) (t : ℕ)
      → TimerOk w c k h
      → heap.count h t ≡ 0
      → IsTimer w c k t
      → TimerOk w c k (heap.insert h t (timer_less_than w))
  TimerOk-insert w c k h t ok out new = record {
    ordered = heap.insert-IsHeap _ h t (timer_less_than-IsOrder w) ok.ordered out;
    once =
        λ a. ground (arith, heap.count-insert (timer_less_than w) h t a ok.ordered out, ok.once a);
    members = λ a m. elim (Bool-cases (t == a)) [
      | inl e ↦ subst (IsTimer w c k) ((==_iff t a).0 e) new
      | inr e ↦
          ok.members a
            (ground (arith, heap.count-insert (timer_less_than w) h t a ok.ordered out, m))
    ];
  }

  pub TimerOk-remove :
      (w : World H P) (c : ℕ) (k : Clock) (h : H) (t : ℕ)
      → TimerOk w c k h
      → 0 < heap.count h t
      → TimerOk w c k (heap.remove h t (timer_less_than w))
        × (heap.count (heap.remove h t (timer_less_than w)) t ≡ 0)
  TimerOk-remove w c k h t ok m =
      let gone = heap.count-remove (timer_less_than w) h t in
      (
        record {
          ordered = heap.remove-IsHeap _ h t (timer_less_than-IsOrder w) ok.ordered m;
          once = λ a. omega (arith, gone a ok.ordered m, ok.once a);
          members = λ a p. ok.members a (omega (arith, gone a ok.ordered m, p));
        },
        ground (arith, gone t ok.ordered m, ok.once t),
      )

  pub timer_heap-set :
      (w : World H P) (c : ℕ) (k : Clock) (h : H) → timer_heap (set_timer_heap w c k h) c k ≡ h
  timer_heap-set w c k h = ground arith

  pub set_timer_heap-TimerInv :
      (w : World H P) (c : ℕ) (k : Clock) (h : H)
      → TimerOk w c k h
      → TimerInv (set_timer_heap w c k h) c k
  set_timer_heap-TimerInv w c k h ok =
      rw (timer_heap-set w c k h) (TimerOk-frame w (set_timer_heap w c k h) c k h ok (λ t m. refl))

  -- Putting a timer into the heap of its bus.
  pub insert_timer_lem :
      (w : World H P) (c : ℕ) (k : Clock) (t : ℕ)
      → TimerInv w c k
      → heap.count (timer_heap w c k) t ≡ 0
      → IsTimer w c k t
      → TimerInv (insert_timer w c k t) c k
        × ((a : ℕ)
            → heap.count (timer_heap (insert_timer w c k t) c k) a
              ≡ (if t == a then 1 else 0) + heap.count (timer_heap w c k) a)
  unfolding insert_timer
  insert_timer_lem w c k t good out new = (
    set_timer_heap-TimerInv w c k _ (TimerOk-insert w c k _ t good out new),
    λ a.
        rw (timer_heap-set w c k (heap.insert (timer_heap w c k) t (timer_less_than w)))
          (heap.count-insert (timer_less_than w) _ t a good.ordered out),
  )

  pub reminders-insert_timer :
      (w : World H P) (c : ℕ) (k : Clock) (t : ℕ) → (insert_timer w c k t).reminders ≡ w.reminders
  unfolding insert_timer
  reminders-insert_timer w c k t = refl

  -- The state in which a timer with a period goes back into the heap: it has the next turn, and is due
  -- one period later.
  abbrev pub again : World H P → ℕ → ℕ → World H P
  again w c t =
      let r = w.reminders t in
      set_counter
        (set_reminder w t
          (record r { start_id = (w.contexts c).counter; timeout = u64 (r.timeout + r.repeat) }))
        c

  pub timer_heap_pop-once :
      (w : World H P) (c : ℕ) (k : Clock) (t : ℕ)
      → heap.min (timer_heap w c k) ≡ t
      → t ≢ null
      → (w.reminders t).repeat ≡ 0
      → timer_heap_pop w c k ≡ (t, remove_timer w c k t)
  unfolding timer_heap_pop rearm remove_timer
  timer_heap_pop-once w c k t first nn z = ground (arith, first, nn, z)

  pub timer_heap_pop-again :
      (w : World H P) (c : ℕ) (k : Clock) (t : ℕ)
      → heap.min (timer_heap w c k) ≡ t
      → t ≢ null
      → (w.reminders t).ctx ≡ c
      → (w.reminders t).repeat ≢ 0
      → timer_heap_pop w c k ≡ (t, insert_timer (again (remove_timer w c k t) c t) c k t)
  unfolding timer_heap_pop rearm remove_timer
  timer_heap_pop-again w c k t first nn home z = ground (arith, first, nn, home, z)
