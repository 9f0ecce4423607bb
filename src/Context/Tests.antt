-- ===== src/Context/Tests.antt =====
-- A round of ctx_run of src/engine/core/context.c, with a callback and events waiting.
use ats.Base.{◌==◌, if◌then◌else◌, null, ℕ, suc, ◌≡◌, refl, List, [], ◌∷◌, arith, some}
use ats.Heap.Sorted.{sorted_heap}
use ats.Mpscq.{list_queue}
use ats.World.{World}
use ats.Dispatch.Count.{IsQuiet}
use ats.Dispatch.Delayed.{KeepsTypes}
use ats.Bus.Busy.{busy, busy-IsServing}
use ats.Samples.{idle_hooks}
use ats.Context.{RunMode, ctx_run, wait_for_timer}
use ats.Context.Drain.{IsPassive}
use ats.Context.Run.{IsReady, IsEnough, Round, ctx_run_lem}

idle-IsPassive : IsPassive idle_hooks
idle-IsPassive = record {
  contexts = λ f c d w. refl;
  queues = λ f c d w. refl;
  events = λ f c d w. refl;
}

idle-IsQuiet : IsQuiet idle_hooks
idle-IsQuiet = record { handle = λ f c e w. refl; filter = λ f e w. refl; destroy = λ f e w. refl }

idle-KeepsTypes : KeepsTypes idle_hooks
idle-KeepsTypes = record { handle = λ f c e w t. t; filter = λ f e w t. t; destroy = λ f e w t. t }

busy-IsReady : IsReady busy 1 (4 ∷ 5 ∷ 6 ∷ [])
busy-IsReady = record {
  passive = idle-IsPassive;
  quiet = idle-IsQuiet;
  keeps = idle-KeepsTypes;
  typed = λ a. omega arith;
  callbacks = (λ e. ground arith, tt);
  serving = busy-IsServing;
}

busy-IsEnough : IsEnough 4 busy 1 (4 ∷ 5 ∷ 6 ∷ [])
busy-IsEnough = record { asyncs = omega arith; pending = omega arith; events = omega arith }

ctx_run_lem_example :
    (e : ℕ) × (w3 : World (List ℕ) (List ℕ)) × Round 4 busy 1 e w3
    × (ctx_run (suc 4) busy 1 RunMode.nowait ≡ some w3)
    × (ctx_run (suc 4) busy 1 RunMode.once
        ≡ (if e == null then ctx_run 4 (wait_for_timer w3 1) 1 RunMode.once else some w3))
    × (ctx_run (suc 4) busy 1 RunMode.default ≡ ctx_run 4 (wait_for_timer w3 1) 1 RunMode.default)
ctx_run_lem_example = ctx_run_lem 4 busy 1 (4 ∷ 5 ∷ 6 ∷ []) refl busy-IsReady busy-IsEnough
