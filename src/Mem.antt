-- ===== src/Mem.antt =====
-- src/engine/base/mem.c: the allocator behind function pointers and what is built on it. `none` is a
-- failed assert, an abort, or in the model a string that does not end within the fuel. A pointer is
-- a number, and `cells p i` is the element `i` behind the pointer `p`.
mod Tests
pub mod Copies
pub mod IdArray
pub mod Bits
pub mod Storage
use ats.Base.{
  ℕ, zero, suc, ◌+◌, ◌-◌, ◌*◌, not, ◌||◌, Option, none, some, Status, ltb, ◌==◌, if◌then◌else◌,
  null, update, require, u64, ◌>>=◌,
}

-- `ats__allocator_t`, of function pointers
pub record Allocator : Type 0 where
  pub local_malloc : ℕ
  pub local_realloc : ℕ
  pub local_calloc : ℕ
  pub local_free : ℕ

-- The memory, `ats__allocator` and `errno`. `host` is the state of the functions that the pointers
-- name.
pub record Memory (S : Type 0) : Type 0 where
  pub allocator : Allocator
  pub errno : ℕ
  pub cells : ℕ → ℕ → ℕ
  pub host : S

-- The calls through the pointers of the allocator. The first argument is the pointer.
pub record Calls (S : Type 0) : Type 0 where
  pub malloc : ℕ → ℕ → Memory S → ℕ × Memory S
  pub realloc : ℕ → ℕ → ℕ → Memory S → ℕ × Memory S
  pub calloc : ℕ → ℕ → ℕ → Memory S → ℕ × Memory S
  pub free : ℕ → ℕ → Memory S → Memory S

-- `strlen`, from the index `i`
unfoldable pub strlen : ℕ → (ℕ → ℕ) → ℕ → Option ℕ
strlen zero text i = none
strlen (suc fuel) text i =
    let rest = strlen fuel text (i + 1) in if text i == 0 then some i else rest

module _ {S : Type 0} where
  -- `memcpy(p, s, n)`
  unfoldable pub memcpy : Memory S → ℕ → ℕ → ℕ → Memory S
  memcpy m p s n = record m {
    cells = update m.cells p (λ i. if ltb i n then m.cells s i else m.cells p i);
  }

  -- `memset(p + from, 0, to - from)`, in elements
  unfoldable pub memset : Memory S → ℕ → ℕ → ℕ → Memory S
  memset m p from to = record m {
    cells =
        update m.cells p
          (λ i. if ltb i from then m.cells p i else if ltb i to then 0 else m.cells p i);
  }

  unfoldable pub ats_replace_allocator : Memory S → ℕ → ℕ → ℕ → ℕ → Status × Memory S
  ats_replace_allocator m malloc_func realloc_func calloc_func free_func =
      if malloc_func == null || realloc_func == null || calloc_func == null || free_func == null
      then (Status.err, m)
      else (
        Status.ok,
        record m {
          allocator = record {
            local_malloc = malloc_func;
            local_realloc = realloc_func;
            local_calloc = calloc_func;
            local_free = free_func;
          };
        },
      )

module _ {S : Type 0} ⦃calls : Calls S⦄ where
  unfoldable pub ats_malloc : Memory S → ℕ → Option (ℕ × Memory S)
  ats_malloc m size = require (ltb 0 size) (
      let (p, m') = calls.malloc m.allocator.local_malloc size m in
      if p == null then none else some (p, m'))

  unfoldable pub ats_free : Memory S → ℕ → Option (Memory S)
  ats_free m ptr =
      require (not (ptr == null))
        (some (record (calls.free m.allocator.local_free ptr m) { errno = m.errno }))

  unfoldable pub ats_calloc : Memory S → ℕ → ℕ → Option (ℕ × Memory S)
  ats_calloc m count size =
      require (ltb 0 (u64 (count * size)))
        (some (calls.calloc m.allocator.local_calloc count size m))

  unfoldable pub ats_realloc : Memory S → ℕ → ℕ → Option (ℕ × Memory S)
  ats_realloc m ptr size =
      require (not (ptr == null))
        (require (ltb 0 size) (some (calls.realloc m.allocator.local_realloc ptr size m)))

  unfoldable pub ats_zalloc : Memory S → ℕ → Option (ℕ × Memory S)
  ats_zalloc m size = require (ltb 0 size) (
      ats_malloc m size >>= λ r.
      some (r.0, if not (r.0 == null) then memset (r.1) (r.0) 0 size else r.1))

  unfoldable pub ats_strdup : ℕ → Memory S → ℕ → Option (ℕ × Memory S)
  ats_strdup fuel m s = require (not (s == null)) (do
    n ← strlen fuel (m.cells s) 0
    r ← ats_malloc m (u64 (n + 1))
    some (if r.0 == null then (null, r.1) else (r.0, memcpy (r.1) (r.0) s (u64 (n + 1)))))

  -- `m[len] = '\0'`
  unfoldable pub ats_strndup : ℕ → Memory S → ℕ → ℕ → Option (ℕ × Memory S)
  ats_strndup fuel m s n = require (not (s == null)) (do
    full ← strlen fuel (m.cells s) 0
    let len = if ltb n full then n else full
    r ← ats_malloc m (u64 (len + 1))
    some (
        if r.0 == null
        then (null, r.1)
        else (r.0, memcpy (memset (r.1) (r.0) len (len + 1)) (r.0) s len)))
