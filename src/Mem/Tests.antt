-- ===== src/Mem/Tests.antt =====
-- Strings and arrays in a small memory, for src/engine/base/mem.c and idarray.h.
use ats.Base.{ℕ, ◌+◌, ◌<◌, ◌≤◌, ◌≡◌, refl, some, none, arith, update, min, ◌==◌, if◌then◌else◌}
use ats.Mem.{Memory, Calls, ats_strdup, ats_strndup}
use ats.Mem.Copies.{IsText, Gives, IsCopy, ats_strdup-strndup}
use ats.Mem.IdArray.{IdArray, ida_init, ida_set, ida_get, ida_clear, ida_destroy}
use ats.Mem.Storage.{Holds, ida_set_lem}

-- The address of the next block counts up.
instance abbrev counting : Calls ℕ
counting = record {
  malloc = λ f size m. (m.host, record m { host = m.host + 1 });
  realloc = λ f p size m.
      (m.host, record m { host = m.host + 1; cells = update m.cells m.host (m.cells p) });
  calloc = λ f count size m.
      (m.host, record m { host = m.host + 1; cells = update m.cells m.host (λ i. 0) });
  free = λ f p m. m;
}

-- The string "Hi" at 3
abbrev hi : ℕ → ℕ
hi i = if i == 0 then 72 else if i == 1 then 105 else 0

abbrev memory : Memory ℕ
memory = record {
  allocator = record { local_malloc = 1; local_realloc = 2; local_calloc = 3; local_free = 4 };
  errno = 0;
  cells = λ p. hi;
  host = 9;
}

abbrev after : Memory ℕ
after = record memory { host = 10 }

hi-IsText : IsText (memory.cells 3) 2
hi-IsText = record { inside = λ i lt z. ground (arith, lt); end = refl }

hi-Gives : Gives memory 3 3 9 after
hi-Gives = record {
  answer = refl;
  not_null = λ e. ground arith;
  new = λ e. ground arith;
  kept = refl;
}

hi-Gives_one : Gives memory (min 1 2 + 1) 3 9 after
hi-Gives_one = record {
  answer = refl;
  not_null = λ e. ground arith;
  new = λ e. ground arith;
  kept = refl;
}

ats_strdup-strndup_example :
    ((m' : Memory ℕ) × (ats_strdup 4 memory 3 ≡ some (9, m')) × IsCopy memory 3 2 9 m')
    × ((m' : Memory ℕ) × (ats_strndup 4 memory 3 1 ≡ some (9, m')) × IsCopy memory 3 (min 1 2) 9 m')
ats_strdup-strndup_example =
    ats_strdup-strndup 4 memory 3 2 1 9 9 after after (λ e. ground arith) hi-IsText (omega arith)
      (omega arith) hi-Gives hi-Gives_one

abbrev sixteen : IdArray
sixteen = record { m = 16; a = 5 }

abbrev moved : Memory ℕ
moved = record memory { host = 10; cells = update memory.cells 9 hi }

ida_set_lem_example :
    ((ida_set (ida_init sixteen) 40 7 memory ≡ none)
      × (ida_clear (ida_init sixteen) memory ≡ none)
      × (ida_destroy (ida_init sixteen) memory ≡ none))
    × ((v' : IdArray) × (mem' : Memory ℕ) × (ida_set sixteen 40 7 memory ≡ some (v', mem'))
        × Holds sixteen 40 7 memory v' mem'
        × ((j : ℕ) → 16 ≤ j → j < 40 → ida_get v' j mem' ≡ some (moved.cells 9 j)))
ida_set_lem_example =
    ida_set_lem sixteen 40 7 memory 9 moved (λ e. ground arith) (omega arith)
      (λ le. record { answer = refl; not_null = λ e. ground arith; same = λ j lt. refl })
