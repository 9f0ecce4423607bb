-- ===== src/Variant/Agree.antt =====
-- src/engine/base/variant.c: variant_print_buffer next to variant_print.
use ats.Base.{
  Bool, true, false, ltb, require, ℕ, ◌+◌, ◌-◌, ◌^◌, ◌<◌, ◌≡◌, refl, ap, ap₂, ◌∙◌, List, [], ◌++◌,
  Option, some, ◌>>=◌, length, length-append, u64, arith, subst,
}
use ats.Variant.Text
use ats.Variant.{
  Variant, Variants, Pairs, nil, boolean, positive_integer, negative_integer, float32, float64, str,
  bin, array, map, ext, unknown, end, item, last, pair,
}
use ats.Variant.Print.{
  Format, variant_bin_print, variant_print, array_rest, map_rest, bool_text, unknown_text,
}
use ats.Variant.Buffer.{
  Buffer, snprintf, until_nul, variant_bin_print_buffer, print_into, array_rest_into, map_rest_into,
  variant_print_buffer,
}
use ats.Variant.Fits.{Prints, Holds, Prints-none, Prints-then, Prints-snprintf, Prints-bytes}

-- No string in the value holds a 0 or is too long for an `int`.
abbrev mutual
  pub IsText : Variant → Type 0
  IsText (str xs) = (until_nul xs ≡ xs) × (length xs < 2 ^ 31)
  IsText (array xs) = AreText xs
  IsText (map ps) = AreTextPairs ps
  IsText _ = Unit

  pub AreText : Variants → Type 0
  AreText end = Unit
  AreText (item x xs) = IsText x × AreText xs

  pub AreTextPairs : Pairs → Type 0
  AreTextPairs last = Unit
  AreTextPairs (pair k v ps) = IsText k × IsText v × AreTextPairs ps

-- Text between quotes
Prints-quoted :
    (k : Buffer → Option Buffer) (t : List ℕ)
    → Prints k t
    → Prints
        (λ b. snprintf b Text.quote >>= λ b. k b >>= λ b. snprintf b Text.quote)
        (Text.quote ++ (t ++ Text.quote))
Prints-quoted k t p =
    Prints-then (λ b. snprintf b Text.quote) (λ b. k b >>= λ b. snprintf b Text.quote) Text.quote _
      (Prints-snprintf Text.quote)
      (Prints-then k (λ b. snprintf b Text.quote) t Text.quote p (Prints-snprintf Text.quote))

Prints-require :
    (c : Bool) (k : Buffer → Option Buffer) (t : List ℕ)
    → c ≡ true
    → Prints k t
    → Prints (λ b. require c (k b)) t
Prints-require true k t e p = p
Prints-require false k t e p = absurd (ground (arith, e))

mutual
  unfolding print_into variant_print

  Prints-value :
      (f : Format) (v : Variant) → IsText v → Prints (λ b. print_into f b v) (variant_print f v)
  Prints-value f nil p = Prints-snprintf Text.nil
  Prints-value f (boolean b) p = Prints-snprintf (bool_text b)
  Prints-value f (positive_integer n) p = Prints-snprintf (f.u64 n)
  Prints-value f (negative_integer n) p = Prints-snprintf (f.i64 n)
  Prints-value f (float32 n) p = Prints-snprintf (f.f64 n)
  Prints-value f (float64 n) p = Prints-snprintf (f.f64 n)
  Prints-value f (str xs) p =
      Prints-require (ltb (length xs) (2 ^ 31))
        (λ b.
          snprintf b Text.quote >>= λ b. snprintf b (until_nul xs) >>= λ b. snprintf b Text.quote)
        _ (ground (arith, p.1))
        (Prints-quoted (λ b. snprintf b (until_nul xs)) xs
          (subst (Prints (λ b. snprintf b (until_nul xs))) p.0 (Prints-snprintf (until_nul xs))))
  Prints-value f (bin xs) p =
      Prints-quoted (λ b. variant_bin_print_buffer f b xs) (variant_bin_print f xs)
        (Prints-bytes f xs)
  Prints-value f (ext t xs) p =
      Prints-then (λ b. snprintf b (Text.ext ++ (f.i8 t ++ Text.ext_end)))
        (λ b. snprintf b Text.quote >>= λ b.
          variant_bin_print_buffer f b xs >>= λ b. snprintf b Text.quote)
        _ _ (Prints-snprintf (Text.ext ++ (f.i8 t ++ Text.ext_end)))
        (Prints-quoted (λ b. variant_bin_print_buffer f b xs) (variant_bin_print f xs)
          (Prints-bytes f xs))
  Prints-value f (array end) p =
      Prints-then (λ b. snprintf b Text.open_array) (λ b. snprintf b Text.close_array) _ _
        (Prints-snprintf Text.open_array) (Prints-snprintf Text.close_array)
  Prints-value f (array (item x xs)) p =
      Prints-then (λ b. snprintf b Text.open_array)
        (λ b. print_into f b x >>= λ b. array_rest_into f b xs >>= λ b. snprintf b Text.close_array)
        _ _ (Prints-snprintf Text.open_array)
        (Prints-then (λ b. print_into f b x)
          (λ b. array_rest_into f b xs >>= λ b. snprintf b Text.close_array) _ _
          (Prints-value f x p.0)
          (Prints-then (λ b. array_rest_into f b xs) (λ b. snprintf b Text.close_array) _ _
            (Prints-array_rest f xs p.1) (Prints-snprintf Text.close_array)))
  Prints-value f (map last) p =
      Prints-then (λ b. snprintf b Text.open_map) (λ b. snprintf b Text.close_map) _ _
        (Prints-snprintf Text.open_map) (Prints-snprintf Text.close_map)
  Prints-value f (map (pair k v ps)) p =
      Prints-then (λ b. snprintf b Text.open_map)
        (λ b. print_into f b k >>= λ b. snprintf b Text.arrow >>= λ b.
          print_into f b v >>= λ b. map_rest_into f b ps >>= λ b. snprintf b Text.close_map)
        _ _ (Prints-snprintf Text.open_map)
        (Prints-then (λ b. print_into f b k)
          (λ b. snprintf b Text.arrow >>= λ b.
            print_into f b v >>= λ b. map_rest_into f b ps >>= λ b. snprintf b Text.close_map)
          _ _ (Prints-value f k p.0)
          (Prints-then (λ b. snprintf b Text.arrow)
            (λ b. print_into f b v >>= λ b. map_rest_into f b ps >>= λ b. snprintf b Text.close_map)
            _ _ (Prints-snprintf Text.arrow)
            (Prints-then (λ b. print_into f b v)
              (λ b. map_rest_into f b ps >>= λ b. snprintf b Text.close_map) _ _
              (Prints-value f v p.1)
              (Prints-then (λ b. map_rest_into f b ps) (λ b. snprintf b Text.close_map) _ _
                (Prints-map_rest f ps p.2) (Prints-snprintf Text.close_map)))))
  Prints-value f (unknown t n) p = Prints-snprintf (unknown_text f t n)

  Prints-array_rest :
      (f : Format) (xs : Variants)
      → AreText xs
      → Prints (λ b. array_rest_into f b xs) (array_rest f xs)
  Prints-array_rest f end p = Prints-none
  Prints-array_rest f (item x xs) p =
      Prints-then (λ b. snprintf b Text.comma)
        (λ b. print_into f b x >>= λ b. array_rest_into f b xs) _ _ (Prints-snprintf Text.comma)
        (Prints-then (λ b. print_into f b x) (λ b. array_rest_into f b xs) _ _
          (Prints-value f x p.0) (Prints-array_rest f xs p.1))

  Prints-map_rest :
      (f : Format) (ps : Pairs)
      → AreTextPairs ps
      → Prints (λ b. map_rest_into f b ps) (map_rest f ps)
  Prints-map_rest f last p = Prints-none
  Prints-map_rest f (pair k v ps) p =
      Prints-then (λ b. snprintf b Text.comma)
        (λ b. print_into f b k >>= λ b.
          snprintf b Text.arrow >>= λ b. print_into f b v >>= λ b. map_rest_into f b ps)
        _ _ (Prints-snprintf Text.comma)
        (Prints-then (λ b. print_into f b k)
          (λ b. snprintf b Text.arrow >>= λ b. print_into f b v >>= λ b. map_rest_into f b ps) _ _
          (Prints-value f k p.0)
          (Prints-then (λ b. snprintf b Text.arrow)
            (λ b. print_into f b v >>= λ b. map_rest_into f b ps) _ _ (Prints-snprintf Text.arrow)
            (Prints-then (λ b. print_into f b v) (λ b. map_rest_into f b ps) _ _
              (Prints-value f v p.1) (Prints-map_rest f ps p.2))))

-- Into a buffer that is longer than what `variant_print` puts out, and if that is less than 2 ^ 31
-- bytes and no string in the value holds a 0 or has 2 ^ 31 bytes, `variant_print_buffer` writes that
-- text at the front, answers its length and writes nothing outside the buffer.
pub variant_print_buffer-print :
    (f : Format) (buffer : List ℕ) (v : Variant)
    → IsText v
    → length buffer < 2 ^ 64
    → length (variant_print f v) < length buffer
    → length (variant_print f v) < 2 ^ 31
    → (rest : List ℕ) × (variant_print_buffer f buffer v
        ≡ some (length (variant_print f v), variant_print f v ++ rest))
      × (length (variant_print f v ++ rest) ≡ length buffer)
unfolding variant_print_buffer
variant_print_buffer-print f buffer v text small fits short =
    let start : Buffer = record { mem = buffer; pos = 0; space = length buffer } in
    let empty : Holds start [] (length buffer) = record {
      tail = buffer;
      mem = refl;
      pos = refl;
      space = refl;
      size = refl;
      small = small;
    } in
    let (b, e, h) = Prints-value f v text start [] (length buffer) empty fits in
    let go : Option Buffer → Option (ℕ × List ℕ) = λ o. o >>= λ b.
    require (ltb b.pos (2 ^ 31)) (some (u64 (length buffer + (2 ^ 64 - b.space)), b.mem)) in
    let in_int : ltb b.pos (2 ^ 31) ≡ true = ground (arith, h.pos, short) in
    (
      h.tail,
      ap go e ∙ rw in_int (ap₂ (λ n m. some (n, m)) (omega (arith, h.space)) h.mem),
      omega (arith, h.size, length-append (variant_print f v) h.tail),
    )
