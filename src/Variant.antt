-- ===== src/Variant.antt =====
-- src/engine/base/variant.h and variant.c: dynamically typed values. `size` of an array, a map or a
-- string is the number of its parts, and the bytes of a string are numbers.
pub mod Equal
pub mod Text
pub mod Print
pub mod Buffer
pub mod Fits
pub mod Agree
mod Tests
use ats.Base.{
  ℕ, zero, suc, ◌+◌, Bool, true, false, ◌&&◌, List, [], ◌∷◌, ◌==◌, if◌then◌else◌, length,
}

-- `variant_type` with the member of `variant_union` that it selects. A negative integer and the
-- floating-point numbers are kept as 64-bit patterns, the type of an extension as its 8-bit pattern.
-- A value of another type is `unknown`, with its type and its bits.
mutual
  pub data Variant : Type 0 where
    nil : Variant
    boolean : Bool → Variant
    positive_integer negative_integer float32 float64 : ℕ → Variant
    str bin : List ℕ → Variant
    array : Variants → Variant
    map : Pairs → Variant
    ext : (type : ℕ) (bytes : List ℕ) → Variant
    unknown : (type bits : ℕ) → Variant

  -- The elements of a `variant_array`
  pub data Variants : Type 0 where
    end : Variants
    item : Variant → Variants → Variants

  -- The `variant_kv`s of a `variant_map`
  pub data Pairs : Type 0 where
    last : Pairs
    pair : (key val : Variant) → Pairs → Pairs

abbrev pub array_size : Variants → ℕ
array_size end = 0
array_size (item x xs) = suc (array_size xs)

abbrev pub map_size : Pairs → ℕ
map_size last = 0
map_size (pair k v ps) = suc (map_size ps)

-- `memcmp(x, y, n) == 0` for strings of at least `n` bytes
unfoldable pub bytes_equal : List ℕ → List ℕ → Bool
bytes_equal [] ys = true
bytes_equal (x ∷ xs) [] = false
bytes_equal (x ∷ xs) (y ∷ ys) = x == y && bytes_equal xs ys

-- `==` on `double`s is a parameter. The loops run over arrays of the same size.
unfoldable mutual
  unfolding bytes_equal

  pub variant_equal : (ℕ → ℕ → Bool) → Variant → Variant → Bool
  variant_equal f64_eq nil nil = true
  variant_equal f64_eq (boolean true) (boolean b) = b
  variant_equal f64_eq (boolean false) (boolean true) = false
  variant_equal f64_eq (boolean false) (boolean false) = true
  variant_equal f64_eq (positive_integer m) (positive_integer n) = m == n
  variant_equal f64_eq (negative_integer m) (negative_integer n) = m == n
  variant_equal f64_eq (float32 m) (float32 n) = f64_eq m n
  variant_equal f64_eq (float64 m) (float64 n) = f64_eq m n
  variant_equal f64_eq (str xs) (str ys) = length xs == length ys && bytes_equal xs ys
  variant_equal f64_eq (bin xs) (bin ys) = length xs == length ys && bytes_equal xs ys
  variant_equal f64_eq (ext s xs) (ext t ys) =
      length xs == length ys && (s == t && bytes_equal xs ys)
  variant_equal f64_eq (array xs) (array ys) =
      array_size xs == array_size ys && array_equal f64_eq xs ys
  variant_equal f64_eq (map ps) (map qs) = map_size ps == map_size qs && map_equal f64_eq ps qs
  variant_equal f64_eq _ _ = false

  pub array_equal : (ℕ → ℕ → Bool) → Variants → Variants → Bool
  array_equal f64_eq end ys = true
  array_equal f64_eq (item x xs) end = false
  array_equal f64_eq (item x xs) (item y ys) = variant_equal f64_eq x y && array_equal f64_eq xs ys

  pub map_equal : (ℕ → ℕ → Bool) → Pairs → Pairs → Bool
  map_equal f64_eq last qs = true
  map_equal f64_eq (pair k v ps) last = false
  map_equal f64_eq (pair k v ps) (pair l u qs) =
      (variant_equal f64_eq k l && variant_equal f64_eq v u) && map_equal f64_eq ps qs
