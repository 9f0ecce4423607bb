-- ===== src/Event/Tests.antt =====
-- Runs of the counts of src/engine/core/event.c.
use ats.Base.{ℕ, ◌≡◌, refl, List, arith, some, none, ◌>>=◌}
use ats.World.{World}
use ats.Event.{event_size, event_ref, event_unref, event_free, event_clone, default_clone}
use ats.Event.Lifetime.{unref_times, unref_times-free, event_unref-ref, default_clone_lem}
use ats.Samples.{small, idle_hooks}

abbrev held : World (List ℕ) (List ℕ)
held = record small {
  events = λ e. record { refcount = 3; event_type = 1; event_flag = 0; timestamp = 100 };
}

unref_times-free_example :
    (w' : World (List ℕ) (List ℕ)) × (unref_times 2 held 7 ≡ some w')
    × (w'.freed ≡ held.freed)
    × ((w'.events 7).refcount ≡ 1)
    × (w'' : World (List ℕ) (List ℕ)) × (event_unref w' 7 ≡ some (event_free w'' 7))
unref_times-free_example = unref_times-free 2 held 7 (λ e. ground arith) (omega arith) refl

event_unref-ref_example :
    (w' : World (List ℕ) (List ℕ)) × ((event_ref small 7 >>= λ v. event_unref v 7) ≡ some w')
    × ((a : ℕ) → w'.events a ≡ small.events a)
    × (w'.freed ≡ small.freed)
event_unref-ref_example = event_unref-ref small 7 (λ e. ground arith) (omega arith) (omega arith)

default_clone_lem_example :
    ((event_size small 1 ≡ none) × (event_clone small 20 7 ≡ none))
    × ((w' : World (List ℕ) (List ℕ)) × (default_clone small 20 7 ≡ some (20, w'))
        × ((w'.events 20).refcount ≡ 1)
        × ((w'.events 7).refcount ≡ 1))
default_clone_lem_example =
    default_clone_lem small 1 20 7 (omega arith) (omega arith) (λ e. ground arith)
      (λ e. ground arith) (omega arith)
