-- ===== src/Bus/AddTimer.antt =====
-- src/engine/core/event_bus.c: bus_add_timer on a heap of timers.
use ats.Base.{
  ℕ, ◌+◌, ◌≡◌, ◌≢◌, ap, ◌∙◌, ◌==◌, if◌then◌else◌, arith, null, some, update_self, update_ne,
}
use ats.Heap.{MinHeap}
use ats.World.{World}
use ats.Bus.Heaps.{timer_heap, set_counter, set_reminder, insert_timer, bus_add_timer}
use ats.Bus.Timer.{TimerInv, TimerOk-frame, insert_timer_lem, reminders-insert_timer}

module _ {H P : Type 0} ⦃heap : MinHeap H⦄ where
  -- The state in which a timer goes into a heap for the first time
  abbrev joined : World H P → ℕ → ℕ → World H P
  joined w c t =
      set_counter
        (set_reminder w t (record (w.reminders t) { ctx = c; start_id = (w.contexts c).counter })) c

  bus_add_timer-joined :
      (w : World H P) (c t : ℕ)
      → c ≢ null
      → t ≢ null
      → bus_add_timer w c t ≡ some (insert_timer (joined w c t) c ((w.reminders t).clock_type) t)
  unfolding bus_add_timer
  bus_add_timer-joined w c t bus nn = ground arith

  -- A timer that is not in the heap of its clock joins it: it gets the bus as its context and the next
  -- turn, the other timers of the heap stay, and the heap keeps its invariant.
  pub bus_add_timer_lem :
      (w : World H P) (c t : ℕ)
      → c ≢ null
      → t ≢ null
      → TimerInv w c ((w.reminders t).clock_type)
      → heap.count (timer_heap w c ((w.reminders t).clock_type)) t ≡ 0
      → (w' : World H P) × (bus_add_timer w c t ≡ some w')
        × TimerInv w' c ((w.reminders t).clock_type)
        × ((a : ℕ)
            → heap.count (timer_heap w' c ((w.reminders t).clock_type)) a
              ≡ (if t == a then 1 else 0)
                + heap.count (timer_heap w c ((w.reminders t).clock_type)) a)
        × (w'.reminders t ≡ record (w.reminders t) { ctx = c; start_id = (w.contexts c).counter })
  bus_add_timer_lem w c t bus nn good out =
      let k = (w.reminders t).clock_type in
      let w1 = joined w c t in
      let now : w1.reminders t
          ≡ record (w.reminders t) { ctx = c; start_id = (w.contexts c).counter } =
        update_self w.reminders t _ in
      let there : timer_heap w1 c k ≡ timer_heap w c k = ground arith in
      let good' : TimerInv w1 c k = rw there (
        TimerOk-frame w w1 c k (timer_heap w c k) good (λ a p.
          update_ne w.reminders t a _
            (λ e. ground (arith, out, ap (heap.count (timer_heap w c k)) e)))) in
      let (inv, counts) =
        insert_timer_lem w1 c k t good' (rw there out)
          (record { not_null = nn; home = rw now; clock = rw now }) in
      (
        insert_timer w1 c k t,
        bus_add_timer-joined w c t bus nn,
        inv,
        λ a. counts a ∙ rw there,
        ap (λ f. f t) (reminders-insert_timer w1 c k t) ∙ now,
      )
