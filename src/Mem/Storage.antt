-- ===== src/Mem/Storage.antt =====
-- src/engine/base/idarray.h: what ida_set leaves for ida_get to find.
use ats.Base.{
  ℕ, ◌+◌, ◌-◌, ◌*◌, ◌/◌, ◌^◌, ◌≤◌, ◌<◌, ◌≡◌, ◌≢◌, ◌⊎◌, inl, inr, refl, none, some, true, false,
  Bool-cases, ltb, leb, ◌==◌, if◌then◌else◌, arith, null, update, u64,
}
use ats.Mem.{Memory, Calls, memset, ats_free, ats_realloc}
use ats.Mem.Bits.{bit_or_bounds}
use ats.Mem.IdArray.{
  IdArray, min_size, max_size, smear, roundup32, ida_init, ida_destroy, ida_clear, grow, ida_set,
  ida_get,
}

smear_bounds : (k x : ℕ) → (x ≤ smear k x) × (smear k x ≤ x + x / 2 ^ k)
unfolding smear
smear_bounds k x = bit_or_bounds x (x / 2 ^ k)

-- A number up to INT_MAX is rounded up, to less than 2 ^ 33.
roundup32_bounds : (x : ℕ) → 0 < x → x < 2 ^ 31 → (x ≤ roundup32 x) × (roundup32 x < 2 ^ 33)
unfolding roundup32
roundup32_bounds x pos small =
    let x0 = u64 (x + (2 ^ 64 - 1)) in
    let e0 : x0 ≡ x - 1 = omega arith in
    let x1 = smear 1 x0 in
    let b1 = smear_bounds 1 x0 in
    let x2 = smear 2 x1 in
    let b2 = smear_bounds 2 x1 in
    let x3 = smear 4 x2 in
    let b3 = smear_bounds 4 x2 in
    let x4 = smear 8 x3 in
    let b4 = smear_bounds 8 x3 in
    let x5 = smear 16 x4 in
    let b5 = smear_bounds 16 x4 in
    let lo : x - 1 ≤ x5 = omega (arith, e0, b1.0, b2.0, b3.0, b4.0, b5.0) in
    let h1 : x1 < 2 ^ 32 = omega (arith, e0, b1.1) in
    let h2 : x2 < 2 ^ 32 + 2 ^ 30 = omega (arith, b2.1) in
    let h3 : x3 < 2 ^ 32 + 2 ^ 31 = omega (arith, b3.1) in
    let h5 : x5 + 1 < 2 ^ 33 = omega (arith, b4.1, b5.1) in (omega arith, omega arith)

-- The size that an array takes on to hold the number `i`
abbrev new_size : ℕ → ℕ
new_size i = roundup32 (if ltb (i + 1) min_size then min_size else i + 1)

new_size_bounds : (i : ℕ) → i < max_size → (i < new_size i) × (new_size i < 2 ^ 33)
new_size_bounds i small = elim (Bool-cases (ltb (i + 1) min_size)) [
  | inl h ↦
      let (lo, hi) = roundup32_bounds min_size (omega arith) (omega arith) in
      rw h (ground (arith, lo), hi)
  | inr h ↦
      let (lo, hi) = roundup32_bounds (i + 1) (omega arith) (omega arith) in
      rw h (omega (arith, lo), hi)
]

module _ {S : Type 0} ⦃calls : Calls S⦄ where
  -- An array that `ida_init` has set up cannot be used: whatever is set, `ats_realloc` fails its
  -- assertion that the pointer is not NULL, and so does `ats_free` when it is cleared or destroyed.
  ida_init-fails :
      (v : IdArray) (i val : ℕ) (mem : Memory S)
      → (ida_set (ida_init v) i val mem ≡ none)
        × (ida_clear (ida_init v) mem ≡ none)
        × (ida_destroy (ida_init v) mem ≡ none)
  unfolding ida_init ida_set ida_clear ida_destroy grow ats_realloc ats_free
  ida_init-fails v i val mem = (ground arith, refl, refl)

  -- `ats_realloc` gives a block that starts with the elements of the old one.
  pub record Moves (v : IdArray) (size : ℕ) (mem : Memory S) (p : ℕ) (mem' : Memory S)
      : Type 0 where
    pub answer : calls.realloc mem.allocator.local_realloc v.a size mem ≡ (p, mem')
    pub not_null : p ≢ null
    pub same : (j : ℕ) → j < v.m → mem'.cells p j ≡ mem.cells v.a j

  grow_lem :
      (v : IdArray) (i : ℕ) (mem : Memory S) (p : ℕ) (mem' : Memory S)
      → v.a ≢ null
      → i < max_size
      → Moves v (8 * new_size i) mem p mem'
      → grow v i mem ≡ some (record { m = new_size i; a = p }, memset mem' p i (new_size i))
  unfolding grow ats_realloc
  grow_lem v i mem p mem' nn small moves =
      let (lo, hi) = new_size_bounds i small in
      let size : u64 (8 * new_size i) ≡ 8 * new_size i = omega (arith, hi) in
      let old : (v.a == null) ≡ false = ground (arith, nn) in
      let new : (p == null) ≡ false = ground (arith, moves.not_null) in
      let bytes : ltb 0 (8 * new_size i) ≡ true = ground (arith, lo) in
      rw (size, old, bytes, moves.answer) (rw new refl)

  -- What `ida_set` leaves for `ida_get` to find
  pub record Holds (v : IdArray) (i val : ℕ) (mem : Memory S) (v' : IdArray) (mem' : Memory S)
      : Type 0 where
    pub storage : v'.a ≢ null
    pub room : i < v'.m
    pub found : ida_get v' i mem' ≡ some val
    pub others : (j : ℕ) → i ≢ j → (j < v.m) ⊎ (i < j) → ida_get v' j mem' ≡ ida_get v j mem

  set_short :
      (v : IdArray) (i val : ℕ) (mem : Memory S) (p : ℕ) (mem1 : Memory S)
      → v.a ≢ null
      → i < max_size
      → v.m ≤ i
      → Moves v (8 * new_size i) mem p mem1
      → (v' : IdArray) × (mem' : Memory S) × (ida_set v i val mem ≡ some (v', mem'))
        × Holds v i val mem v' mem'
        × ((j : ℕ) → v.m ≤ j → j < i → ida_get v' j mem' ≡ some (mem1.cells p j))
  unfolding ida_set ida_get memset
  set_short v i val mem p mem1 nn small short moves =
      let n = new_size i in
      let (lo, hi) = new_size_bounds i small in
      let grown = grow_lem v i mem p mem1 nn small moves in
      let is_old : (v.a == null) ≡ false = ground (arith, nn) in
      let is_new : (p == null) ≡ false = ground (arith, moves.not_null) in
      let is_short : leb v.m i ≡ true = ground (arith, short) in
      let in_range : ltb i max_size ≡ true = ground (arith, small) in
      let mem2 = memset mem1 p i n in
      let mem' = record mem2 { cells = update mem2.cells p (update (mem2.cells p) i val) } in
      (
        record { m = n; a = p },
        mem',
        rw (in_range, is_short) (rw grown (rw is_new refl)),
        record {
          storage = moves.not_null;
          room = lo;
          found = ground (arith, lo, is_new);
          others = λ j ne side. ground (arith, lo, is_new, is_old, ne, side, moves.same j);
        },
        λ j from below. ground (arith, lo, is_new),
      )

  set_long :
      (v : IdArray) (i val : ℕ) (mem : Memory S)
      → v.a ≢ null
      → i < max_size
      → i < v.m
      → (v' : IdArray) × (mem' : Memory S) × (ida_set v i val mem ≡ some (v', mem'))
        × Holds v i val mem v' mem'
  unfolding ida_set ida_get
  set_long v i val mem nn small long =
      let cells = mem.cells in
      let there : (v.a == null) ≡ false = ground (arith, nn) in
      let mem' = record mem { cells = update cells v.a (update (cells v.a) i val) } in
      (
        v,
        mem',
        ground (arith, there),
        record {
          storage = nn;
          room = long;
          found = ground (arith, there);
          others = λ j ne side. ground (arith, there, ne);
        },
      )

  -- With storage in place, `ida_set` answers and keeps storage, with room for the number; `ida_get`
  -- then finds the value under its number, and
  -- finds under any other number below the old size or above the one that was set what it found
  -- before. A number between the two finds what the block of `realloc` happens to hold. (The array is
  -- not at NULL, the number is below IDARRAY_MAX_SIZE, and `realloc` gives a block that starts with
  -- the old elements where the array has to grow.)
  ida_set-get :
      (v : IdArray) (i val : ℕ) (mem : Memory S) (p : ℕ) (mem1 : Memory S)
      → v.a ≢ null
      → i < max_size
      → (v.m ≤ i → Moves v (8 * new_size i) mem p mem1)
      → (v' : IdArray) × (mem' : Memory S) × (ida_set v i val mem ≡ some (v', mem'))
        × Holds v i val mem v' mem'
        × ((j : ℕ) → v.m ≤ j → j < i → ida_get v' j mem' ≡ some (mem1.cells p j))
  ida_set-get v i val mem p mem1 nn small moves = elim (Bool-cases (leb v.m i)) [
    | inl h ↦
        let short : v.m ≤ i = ground arith in
        set_short v i val mem p mem1 nn small short (moves short)
    | inr h ↦
        let long : i < v.m = ground arith in
        let (v', mem', done, is_set) = set_long v i val mem nn small long in
        (v', mem', done, is_set, λ j from below. absurd (omega (arith, from, below, long)))
  ]

  -- An array that `ida_init` has set up cannot be used: to set, to clear or to destroy it fails an
  -- assertion that the pointer is not NULL. With storage in place, `ida_set` answers and keeps storage
  -- with room for the number; `ida_get` then finds the value under the number, under a number below
  -- the old size or above the one that was set what it found before, and under a number between the
  -- two what the block of `realloc` happens to hold. (The array is not at NULL, the number is below
  -- IDARRAY_MAX_SIZE, and `realloc` gives a block that starts with the old elements where the array
  -- has to grow.)
  pub ida_set_lem :
      (v : IdArray) (i val : ℕ) (mem : Memory S) (p : ℕ) (mem1 : Memory S)
      → v.a ≢ null
      → i < max_size
      → (v.m ≤ i → Moves v (8 * new_size i) mem p mem1)
      → ((ida_set (ida_init v) i val mem ≡ none)
          × (ida_clear (ida_init v) mem ≡ none)
          × (ida_destroy (ida_init v) mem ≡ none))
        × ((v' : IdArray) × (mem' : Memory S) × (ida_set v i val mem ≡ some (v', mem'))
            × Holds v i val mem v' mem'
            × ((j : ℕ) → v.m ≤ j → j < i → ida_get v' j mem' ≡ some (mem1.cells p j)))
  ida_set_lem v i val mem p mem1 nn small moves =
      (ida_init-fails v i val mem, ida_set-get v i val mem p mem1 nn small moves)
