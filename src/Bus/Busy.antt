-- ===== src/Bus/Busy.antt =====
-- A bus in the middle of its work, for tests of the loops of src/engine/core/event_bus.c and context.c.
use ats.Base.{ℕ, ◌<◌, ◌==◌, if◌then◌else◌, refl, List, [], ◌∷◌, arith, inr, subst, null}
use ats.Heap.Sorted.{sorted_heap, count}
use ats.Spscq
use ats.Mpscq.{list_queue}
use ats.World.{World, Category}
use ats.EventQueue.{event_queue_is_empty}
use ats.Bus.Heaps.{queue_heap}
use ats.Bus.Pipe.{IsQueued}
use ats.Bus.Pipes.{PipesInv}
use ats.Bus.Joins.{CanAllJoin}
use ats.Bus.Round.{NoNull, count_in}
use ats.Bus.Forward.{AttachedValid}
use ats.Samples.{small, small_context, one_ring}
use ats.Bus.NextEvent.{IsServing}

-- The bus 1 with the market queue 4 and the execution queue 5 in its heaps, the command queue 6
-- and the callback 11 waiting.
abbrev busy_heap : Category → List ℕ
busy_heap Category.market = 4 ∷ []
busy_heap Category.execution = 5 ∷ []
busy_heap _ = []

abbrev kind_of : ℕ → Category
kind_of q =
    if q == 4 then Category.market else if q == 6 then Category.command else Category.execution

abbrev pub busy : World (List ℕ) (List ℕ)
busy = record small {
  queues = λ q. record {
    refcount = 1;
    spsc = one_ring;
    ctx = if q == 6 then null else 1;
    category = kind_of q;
    start_id = q;
  };
  contexts = λ c. record small_context {
    queue_heap = busy_heap;
    pending_queue = 6 ∷ [];
    async_queue = 11 ∷ [];
    attached = 20 ∷ [];
    attached_count = 1;
    saved_event = null;
  };
}

four-IsQueued : IsQueued busy 1 Category.market 4
unfolding event_queue_is_empty Spscq.is_empty
four-IsQueued = record {
  not_null = λ e. ground arith;
  valid = ground arith;
  some_left = refl;
  home = refl;
  kind = refl;
  solid = (λ e. ground arith, tt);
}

five-IsQueued : IsQueued busy 1 Category.execution 5
unfolding event_queue_is_empty Spscq.is_empty
five-IsQueued = record {
  not_null = λ e. ground arith;
  valid = ground arith;
  some_left = refl;
  home = refl;
  kind = refl;
  solid = (λ e. ground arith, tt);
}

pub busy-PipesInv : PipesInv busy 1
unfolding count
busy-PipesInv Category.market = record {
  ordered = (tt, tt);
  once = λ q. ground arith;
  members = λ q m. subst (IsQueued busy 1 Category.market) (ground arith) four-IsQueued;
}
busy-PipesInv Category.execution = record {
  ordered = (tt, tt);
  once = λ q. ground arith;
  members = λ q m. subst (IsQueued busy 1 Category.execution) (ground arith) five-IsQueued;
}
busy-PipesInv Category.service = record {
  ordered = tt;
  once = λ q. ground arith;
  members = λ q m. absurd (omega arith);
}
busy-PipesInv Category.command = record {
  ordered = tt;
  once = λ q. ground arith;
  members = λ q m. absurd (omega arith);
}

pub busy-CanAllJoin : CanAllJoin busy 1 (6 ∷ [])
unfolding count
busy-CanAllJoin = (
  record {
    bus = λ e. ground arith;
    not_null = λ e. ground arith;
    free = inr refl;
    valid = ground arith;
    solid = (λ e. ground arith, tt);
    out = refl;
  },
  tt,
  tt,
)

pub busy-Covers :
    (k : Category) (a : ℕ)
    → 0 < sorted_heap.count (queue_heap busy 1 k) a
    → 0 < count_in (4 ∷ 5 ∷ 6 ∷ []) a
unfolding count
busy-Covers Category.market a m = ground arith
busy-Covers Category.execution a m = ground arith
busy-Covers Category.service a m = absurd (omega arith)
busy-Covers Category.command a m = absurd (omega arith)

pub busy-NoNull : NoNull busy (4 ∷ 5 ∷ 6 ∷ [])
busy-NoNull q m = refl

pub busy-AttachedValid : AttachedValid busy 1
busy-AttachedValid i inside = ground arith

pub busy-IsServing : IsServing busy 1 (4 ∷ 5 ∷ 6 ∷ [])
busy-IsServing = record {
  inv = busy-PipesInv;
  joinable = busy-CanAllJoin;
  covered = busy-Covers;
  waiting = λ a m. ground (arith, m);
  solid = busy-NoNull;
  attached = busy-AttachedValid;
}
