-- ===== src/Mem/IdArray.antt =====
-- src/engine/base/idarray.h: an array from numbers to words that grows when a number is set.
use ats.Base.{
  ℕ, ◌+◌, ◌-◌, ◌*◌, ◌/◌, ◌^◌, Option, some, not, ltb, leb, ◌==◌, if◌then◌else◌, null, update,
  require, u64, ◌>>=◌,
}
use Prim.Native.Nat.{bit_or}
use ats.Mem.{Memory, Calls, memset, ats_free, ats_realloc}

-- `idarray_t`
pub record IdArray : Type 0 where
  pub m : ℕ
  pub a : ℕ

-- IDARRAY_MIN_SIZE
abbrev pub min_size : ℕ
min_size = 16

-- IDARRAY_MAX_SIZE, which is INT_MAX
abbrev pub max_size : ℕ
max_size = 2147483647

-- `x |= x >> k`
unfoldable pub smear : ℕ → ℕ → ℕ
smear k x = bit_or x (x / 2 ^ k)

-- The macro, on a `size_t`
unfoldable pub roundup32 : ℕ → ℕ
unfolding smear
roundup32 x = u64 (smear 16 (smear 8 (smear 4 (smear 2 (smear 1 (u64 (x + (2 ^ 64 - 1))))))) + 1)

unfoldable pub ida_init : IdArray → IdArray
ida_init v = record { m = 0; a = null }

module _ {S : Type 0} ⦃calls : Calls S⦄ where
  unfoldable pub ida_destroy : IdArray → Memory S → Option (Memory S)
  ida_destroy v mem = ats_free mem v.a

  unfoldable pub ida_clear : IdArray → Memory S → Option (IdArray × Memory S)
  unfolding ida_init
  ida_clear v mem = ida_destroy v mem >>= λ mem'. some (ida_init v, mem')

  -- What `ida_set` does first where the array is too short
  unfoldable pub grow : IdArray → ℕ → Memory S → Option (IdArray × Memory S)
  grow v i mem =
      let n = roundup32 (if ltb (i + 1) min_size then min_size else i + 1) in
      ats_realloc mem v.a (u64 (8 * n)) >>= λ r.
      require (not (r.0 == null)) (some (record { m = n; a = r.0 }, memset (r.1) (r.0) i n))

  unfoldable pub ida_set : IdArray → ℕ → ℕ → Memory S → Option (IdArray × Memory S)
  ida_set v i val mem = require (ltb i max_size) (
      (if leb v.m i then grow v i mem else some (v, mem)) >>= λ r.
      let cells = r.1.cells in
      let a = r.0.a in
      require (not (a == null))
        (some (r.0, record (r.1) { cells = update cells a (update (cells a) i val) })))

module _ {S : Type 0} where
  unfoldable pub ida_get : IdArray → ℕ → Memory S → Option ℕ
  ida_get v i mem =
      require (ltb i max_size)
        (if leb v.m i then some 0 else require (not (v.a == null)) (some (mem.cells v.a i)))
