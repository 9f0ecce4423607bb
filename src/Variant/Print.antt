-- ===== src/Variant/Print.antt =====
-- src/engine/base/variant.c: variant_print. The output is the list of the bytes put out.
use ats.Base.{ℕ, Bool, List, [], ◌∷◌, ◌++◌, ◌==◌, if◌then◌else◌}
use ats.Variant.Text
use ats.Variant.{
  Variant, Variants, Pairs, nil, boolean, positive_integer, negative_integer, float32, float64, str,
  bin, array, map, ext, unknown, end, item, last, pair,
}

-- What the C library puts out for a number: `%llu` and `%lld` (of a 64-bit pattern), `%i` (of an 8-bit
-- pattern, and of the number of a type), `%f` (of the bits of a `double`), and `%02x`.
pub record Format : Type 0 where
  pub u64 : ℕ → List ℕ
  pub i64 : ℕ → List ℕ
  pub i8 : ℕ → List ℕ
  pub int : ℕ → List ℕ
  pub f64 : ℕ → List ℕ
  pub hex : ℕ → List ℕ
  pub isprint : ℕ → Bool

unfoldable pub byte_print : Format → ℕ → List ℕ
byte_print f c =
    if c == 34 then Text.escaped_quote else if f.isprint c then c ∷ [] else Text.hex ++ f.hex c

unfoldable pub variant_bin_print : Format → List ℕ → List ℕ
unfolding byte_print
variant_bin_print f [] = []
variant_bin_print f (c ∷ cs) = byte_print f c ++ variant_bin_print f cs

abbrev pub unknown_text : Format → ℕ → ℕ → List ℕ
unknown_text f type bits =
    Text.unknown ++ (f.int type ++ (Text.space ++ (f.u64 bits ++ Text.unknown_end)))

abbrev pub bool_text : Bool → List ℕ
bool_text Bool.true = Text.true
bool_text Bool.false = Text.false

-- `array_rest` and `map_rest` are the loops over all but the first part.
unfoldable mutual
  unfolding variant_bin_print

  pub variant_print : Format → Variant → List ℕ
  variant_print f nil = Text.nil
  variant_print f (boolean b) = bool_text b
  variant_print f (positive_integer n) = f.u64 n
  variant_print f (negative_integer n) = f.i64 n
  variant_print f (float32 n) = f.f64 n
  variant_print f (float64 n) = f.f64 n
  variant_print f (str xs) = Text.quote ++ (xs ++ Text.quote)
  variant_print f (bin xs) = Text.quote ++ (variant_bin_print f xs ++ Text.quote)
  variant_print f (ext t xs) =
      (Text.ext ++ (f.i8 t ++ Text.ext_end))
      ++ (Text.quote ++ (variant_bin_print f xs ++ Text.quote))
  variant_print f (array end) = Text.open_array ++ Text.close_array
  variant_print f (array (item x xs)) =
      Text.open_array ++ (variant_print f x ++ (array_rest f xs ++ Text.close_array))
  variant_print f (map last) = Text.open_map ++ Text.close_map
  variant_print f (map (pair k v ps)) =
      Text.open_map
      ++ (variant_print f k
          ++ (Text.arrow ++ (variant_print f v ++ (map_rest f ps ++ Text.close_map))))
  variant_print f (unknown t n) = unknown_text f t n

  pub array_rest : Format → Variants → List ℕ
  array_rest f end = []
  array_rest f (item x xs) = Text.comma ++ (variant_print f x ++ array_rest f xs)

  pub map_rest : Format → Pairs → List ℕ
  map_rest f last = []
  map_rest f (pair k v ps) =
      Text.comma ++ (variant_print f k ++ (Text.arrow ++ (variant_print f v ++ map_rest f ps)))
