-- ===== src/Variant/Tests.antt =====
-- Runs of src/engine/base/variant.c.
use ats.Base.{ℕ, ◌≡◌, ◌<◌, ◌↔◌, refl, true, List, [], ◌∷◌, ◌++◌, ◌==◌, ◌^◌, some, arith, length}
use ats.Variant.{
  Variant, nil, positive_integer, str, array, map, end, item, last, pair, variant_equal,
}
use ats.Variant.Print.{Format, variant_print}
use ats.Variant.Buffer.{variant_print_buffer, until_nul}
use ats.Variant.Equal.{variant_equal_iff}
use ats.Variant.Agree.{IsText, variant_print_buffer-print}

-- Numbers are put out as one digit.
abbrev digits : Format
digits = record {
  u64 = λ n. n ∷ [];
  i64 = λ n. 45 ∷ n ∷ [];
  i8 = λ n. n ∷ [];
  int = λ n. n ∷ [];
  f64 = λ n. n ∷ [];
  hex = λ n. 48 ∷ n ∷ [];
  isprint = λ n. true;
}

-- {"A"=>[7, nil]}
abbrev small_map : Variant
small_map = map (pair (str (65 ∷ [])) (array (item (positive_integer 7) (item nil end))) last)

small_map-IsText : IsText small_map
unfolding until_nul
small_map-IsText = ((refl, omega arith), (tt, (tt, tt)), tt)

abbrev buffer : List ℕ
buffer = 1 ∷ 1 ∷ 1 ∷ 1 ∷ 1 ∷ 1 ∷ 1 ∷ 1 ∷ 1 ∷ 1 ∷ 1 ∷ 1 ∷ 1 ∷ 1 ∷ 1 ∷ 1 ∷ 1 ∷ 1 ∷ 1 ∷ 1 ∷ []

small_map-fits : length (variant_print digits small_map) < length buffer
unfolding variant_print
small_map-fits = omega arith

small_map-short : length (variant_print digits small_map) < 2 ^ 31
unfolding variant_print
small_map-short = omega arith

variant_print_buffer-print_example :
    (rest : List ℕ) × (variant_print_buffer digits buffer small_map
      ≡ some (length (variant_print digits small_map), variant_print digits small_map ++ rest))
    × (length (variant_print digits small_map ++ rest) ≡ length buffer)
variant_print_buffer-print_example =
    variant_print_buffer-print digits buffer small_map small_map-IsText (omega arith) small_map-fits
      small_map-short

variant_equal_iff_example :
    (variant_equal (λ m n. m == n) small_map (array end) ≡ true) ↔ (small_map ≡ array end)
variant_equal_iff_example =
    variant_equal_iff (λ m n. m == n) small_map (array end) (tt, (tt, (tt, tt)), tt)
