-- ===== src/Variant/Buffer.antt =====
-- src/engine/base/variant.c: variant_print_buffer. Lengths in it are kept as `int`: a string or a text of
-- 2 ^ 31 bytes or more is not modelled, and `none`, as is a write outside the buffer.
use ats.Base.{
  ℕ, zero, suc, ◌+◌, ◌-◌, ◌^◌, List, [], ◌∷◌, ◌++◌, Option, some, ◌>>=◌, require, length, set, ltb,
  leb, ◌==◌, if◌then◌else◌, u64,
}
use ats.Variant.Text
use ats.Variant.{
  Variant, Variants, Pairs, nil, boolean, positive_integer, negative_integer, float32, float64, str,
  bin, array, map, ext, unknown, end, item, last, pair,
}
use ats.Variant.Print.{Format, bool_text, unknown_text}

-- The bytes of the buffer, with `aux_buffer` as a position in it and `aux_buffer_size`.
pub record Buffer : Type 0 where
  pub mem : List ℕ
  pub pos : ℕ
  pub space : ℕ

abbrev pub take : ℕ → List ℕ → List ℕ
take zero l = []
take (suc n) [] = []
take (suc n) (x ∷ xs) = x ∷ take n xs

abbrev pub write : List ℕ → ℕ → List ℕ → List ℕ
write mem i [] = mem
write mem i (x ∷ xs) = write (set mem i x) (i + 1) xs

-- A write of these bytes; `none` is one outside the buffer.
abbrev pub put : Buffer → List ℕ → Option (List ℕ)
put b l = require (leb (b.pos + length l) (length b.mem)) (some (write b.mem b.pos l))

-- `ret = snprintf(aux_buffer, aux_buffer_size, text)` and the two additions after it: at most
-- `aux_buffer_size - 1` bytes and a final 0 are written, and `ret` is the length of the whole text.
unfoldable pub snprintf : Buffer → List ℕ → Option Buffer
snprintf b text =
    put b (if b.space == 0 then [] else take (b.space - 1) text ++ (0 ∷ [])) >>= λ mem.
    some (record {
      mem = mem;
      pos = b.pos + length text;
      space = u64 (b.space + (2 ^ 64 - length text));
    })

-- `%.*s` puts out the bytes before the first 0.
unfoldable pub until_nul : List ℕ → List ℕ
until_nul [] = []
until_nul (x ∷ xs) = let rest = until_nul xs in if x == 0 then [] else x ∷ rest

-- One round of `variant_bin_print_buffer`: the character is copied if there is space for it.
unfoldable pub byte_print_buffer : Format → Buffer → ℕ → Option Buffer
unfolding snprintf
byte_print_buffer f b c =
    if c == 34
    then snprintf b Text.escaped_quote
    else if f.isprint c
    then (if ltb 0 b.space
        then (put b (c ∷ []) >>= λ mem.
            some (record { mem = mem; pos = b.pos + 1; space = b.space - 1 }))
        else some b)
    else snprintf b (Text.hex ++ f.hex c)

unfoldable pub variant_bin_print_buffer : Format → Buffer → List ℕ → Option Buffer
unfolding byte_print_buffer
variant_bin_print_buffer f b [] = some b
variant_bin_print_buffer f b (c ∷ cs) =
    byte_print_buffer f b c >>= λ b. variant_bin_print_buffer f b cs

-- `print_into` is `variant_print_buffer` from the state `b`; the caller goes on behind what it has
-- put out. `array_rest` and `map_rest` are the loops over all but the first part.
unfoldable mutual
  unfolding snprintf variant_bin_print_buffer until_nul

  pub print_into : Format → Buffer → Variant → Option Buffer
  print_into f b nil = snprintf b Text.nil
  print_into f b (boolean v) = snprintf b (bool_text v)
  print_into f b (positive_integer n) = snprintf b (f.u64 n)
  print_into f b (negative_integer n) = snprintf b (f.i64 n)
  print_into f b (float32 n) = snprintf b (f.f64 n)
  print_into f b (float64 n) = snprintf b (f.f64 n)
  print_into f b (str xs) =
      require (ltb (length xs) (2 ^ 31))
        (snprintf b Text.quote >>= λ b. snprintf b (until_nul xs) >>= λ b. snprintf b Text.quote)
  print_into f b (bin xs) =
      snprintf b Text.quote >>= λ b. variant_bin_print_buffer f b xs >>= λ b. snprintf b Text.quote
  print_into f b (ext t xs) = snprintf b (Text.ext ++ (f.i8 t ++ Text.ext_end)) >>= λ b.
      snprintf b Text.quote >>= λ b. variant_bin_print_buffer f b xs >>= λ b. snprintf b Text.quote
  print_into f b (array end) = snprintf b Text.open_array >>= λ b. snprintf b Text.close_array
  print_into f b (array (item x xs)) = snprintf b Text.open_array >>= λ b.
      print_into f b x >>= λ b. array_rest_into f b xs >>= λ b. snprintf b Text.close_array
  print_into f b (map last) = snprintf b Text.open_map >>= λ b. snprintf b Text.close_map
  print_into f b (map (pair k v ps)) = snprintf b Text.open_map >>= λ b. print_into f b k >>= λ b.
      snprintf b Text.arrow >>= λ b.
      print_into f b v >>= λ b. map_rest_into f b ps >>= λ b. snprintf b Text.close_map
  print_into f b (unknown t n) = snprintf b (unknown_text f t n)

  pub array_rest_into : Format → Buffer → Variants → Option Buffer
  array_rest_into f b end = some b
  array_rest_into f b (item x xs) =
      snprintf b Text.comma >>= λ b. print_into f b x >>= λ b. array_rest_into f b xs

  pub map_rest_into : Format → Buffer → Pairs → Option Buffer
  map_rest_into f b last = some b
  map_rest_into f b (pair k v ps) = snprintf b Text.comma >>= λ b. print_into f b k >>= λ b.
      snprintf b Text.arrow >>= λ b. print_into f b v >>= λ b. map_rest_into f b ps

-- The result and the bytes of the buffer, for a buffer of the size that is passed. Every `ret` on the
-- way is at most the length of the whole text, which the result is as an `int`.
unfoldable pub variant_print_buffer : Format → List ℕ → Variant → Option (ℕ × List ℕ)
unfolding print_into
variant_print_buffer f buffer o =
    print_into f (record { mem = buffer; pos = 0; space = length buffer }) o >>= λ b.
    require (ltb b.pos (2 ^ 31)) (some (u64 (length buffer + (2 ^ 64 - b.space)), b.mem))
