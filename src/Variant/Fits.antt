-- ===== src/Variant/Fits.antt =====
-- src/engine/base/variant.c: the steps of variant_print_buffer in a buffer that has room.
use ats.Base.{
  ℕ, zero, suc, ◌+◌, ◌-◌, ◌^◌, ◌≤◌, ◌<◌, ◌≡◌, refl, sym, ap, ◌∙◌, List, [], ◌∷◌, ◌++◌, append_assoc,
  append-nil, Option, some, ◌>>=◌, length, length-append, set, u64, arith, if◌then◌else◌, ltb, Bool,
  ◌==◌, true, false, subst,
}
use ats.Variant.Text
use ats.Variant.Print.{Format, byte_print, variant_bin_print}
use ats.Variant.Buffer.{
  Buffer, take, write, put, snprintf, byte_print_buffer, variant_bin_print_buffer,
}

abbrev drop : ℕ → List ℕ → List ℕ
drop zero l = l
drop (suc n) [] = []
drop (suc n) (x ∷ xs) = drop n xs

take_all : (n : ℕ) (l : List ℕ) → length l ≤ n → take n l ≡ l
take_all zero [] h = refl
take_all zero (x ∷ xs) h = absurd (omega arith)
take_all (suc n) [] h = refl
take_all (suc n) (x ∷ xs) h = ap (λ l. x ∷ l) (take_all n xs (omega arith))

length-drop : (n : ℕ) (l : List ℕ) → length (drop n l) ≡ length l - n
length-drop zero l = omega arith
length-drop (suc n) [] = omega arith
length-drop (suc n) (x ∷ xs) = length-drop n xs ∙ omega arith

set-append :
    (l : List ℕ) (y x : ℕ) (ys : List ℕ) → set (l ++ (y ∷ ys)) (length l) x ≡ (l ++ (x ∷ [])) ++ ys
set-append [] y x ys = refl
set-append (z ∷ l) y x ys = ap (λ l. z ∷ l) (set-append l y x ys)

write-append :
    (l done tail : List ℕ)
    → length l ≤ length tail
    → write (done ++ tail) (length done) l ≡ done ++ (l ++ drop (length l) tail)
write-append [] done tail h = refl
write-append (x ∷ xs) done [] h = absurd (omega arith)
write-append (x ∷ xs) done (y ∷ ys) h =
    ap (λ m. write m (length done + 1) xs) (set-append done y x ys)
    ∙ ap (λ n. write ((done ++ (x ∷ [])) ++ ys) n xs) (sym (length-append done (x ∷ [])))
    ∙ write-append xs (done ++ (x ∷ [])) ys (omega arith)
    ∙ append_assoc done (x ∷ []) (xs ++ drop (length xs) ys)

-- The buffer begins with `done`, and `room` bytes are left behind that.
pub record Holds (b : Buffer) (done : List ℕ) (room : ℕ) : Type 0 where
  pub tail : List ℕ
  pub mem : b.mem ≡ done ++ tail
  pub pos : b.pos ≡ length done
  pub space : b.space ≡ room
  pub size : length tail ≡ room
  pub small : room < 2 ^ 64

-- A step that adds the text to a buffer with more room than that.
abbrev pub Prints : (Buffer → Option Buffer) → List ℕ → Type 0
Prints k t =
    (b : Buffer) (done : List ℕ) (room : ℕ)
    → Holds b done room
    → length t < room
    → (b' : Buffer) × (k b ≡ some b') × Holds b' (done ++ t) (room - length t)

pub Prints-none : Prints (λ b. some b) []
Prints-none b done room h l =
    let left : room ≡ room - length {A = ℕ} [] = omega arith in
    (
      b,
      refl,
      subst (Holds b (done ++ [])) left (subst (λ d. Holds b d room) (sym (append-nil done)) h),
    )

pub Prints-then :
    (k m : Buffer → Option Buffer) (s t : List ℕ)
    → Prints k s
    → Prints m t
    → Prints (λ b. k b >>= m) (s ++ t)
Prints-then k m s t ks mt b done room h l =
    let n = length-append s t in
    let (b1, e1, h1) = ks b done room h (omega arith) in
    let (b2, e2, h2) = mt b1 (done ++ s) (room - length s) h1 (omega arith) in
    let left : room - length s - length t ≡ room - length (s ++ t) = omega arith in
    (
      b2,
      rw e1 e2,
      subst (Holds b2 (done ++ (s ++ t))) left
          (subst (λ d. Holds b2 d (room - length s - length t)) (append_assoc done s t) h2),
    )

put_inside :
    (b : Buffer) (l : List ℕ)
    → b.pos + length l ≤ length b.mem
    → put b l ≡ some (write b.mem b.pos l)
put_inside b l h = ground arith

put-Holds :
    (b : Buffer) (done l : List ℕ) (room : ℕ) (h : Holds b done room)
    → length l ≤ room
    → put b l ≡ some (done ++ (l ++ drop (length l) h.tail))
put-Holds b done l room h le =
    let inside : b.pos + length l ≤ length b.mem =
      omega (arith, h.pos, h.size, ap length h.mem, length-append done h.tail) in
    put_inside b l inside
    ∙ ap some (rw (h.mem, h.pos) (write-append l done h.tail (omega (arith, h.size))))

snprintf_eq :
    (b : Buffer) (t m : List ℕ)
    → length t < b.space
    → put b (t ++ (0 ∷ [])) ≡ some m
    → snprintf b t
      ≡ some
          (record { mem = m; pos = b.pos + length t; space = u64 (b.space + (2 ^ 64 - length t)) })
unfolding snprintf
snprintf_eq b t m fits e =
    let whole = take_all (b.space - 1) t (omega arith) in
    let shown : (if b.space == 0 then [] else take (b.space - 1) t ++ (0 ∷ [])) ≡ t ++ (0 ∷ []) =
      ground (arith, ap (λ l. l ++ (0 ∷ [])) whole) in
    let go : Option (List ℕ) → Option Buffer = λ o. o >>= λ mem.
    some
      (record { mem = mem; pos = b.pos + length t; space = u64 (b.space + (2 ^ 64 - length t)) }) in
    ap (λ l. go (put b l)) shown ∙ ap go e

pub Prints-snprintf : (t : List ℕ) → Prints (λ b. snprintf b t) t
Prints-snprintf t b done room h l =
    let n = length-append t (0 ∷ []) in
    let rest = drop (length (t ++ (0 ∷ []))) h.tail in
    (
      record {
        mem = done ++ ((t ++ (0 ∷ [])) ++ rest);
        pos = b.pos + length t;
        space = u64 (b.space + (2 ^ 64 - length t));
      },
      snprintf_eq b t _ (omega (arith, h.space))
          (put-Holds b done (t ++ (0 ∷ [])) room h (omega arith)),
      record {
        tail = 0 ∷ rest;
        mem =
            ap (λ l. done ++ l) (append_assoc t (0 ∷ []) rest)
            ∙ sym (append_assoc done t (0 ∷ rest));
        pos = omega (arith, h.pos, length-append done t);
        space = omega (arith, h.space, h.small);
        size = omega (arith, length-drop (length (t ++ (0 ∷ []))) h.tail, h.size);
        small = omega (arith, h.small);
      },
    )

Prints-if :
    (c : Bool) (k m : Buffer → Option Buffer) (s t : List ℕ)
    → Prints k s
    → Prints m t
    → Prints (λ b. if c then k b else m b) (if c then s else t)
Prints-if true k m s t ks mt = ks
Prints-if false k m s t ks mt = mt

-- `memcpy` of one character
abbrev copy : ℕ → Buffer → Option Buffer
copy c b =
    if ltb 0 b.space
    then (put b (c ∷ []) >>= λ mem.
        some (record { mem = mem; pos = b.pos + 1; space = b.space - 1 }))
    else some b

copy_eq :
    (b : Buffer) (c : ℕ) (m : List ℕ)
    → 0 < b.space
    → put b (c ∷ []) ≡ some m
    → copy c b ≡ some (record { mem = m; pos = b.pos + 1; space = b.space - 1 })
copy_eq b c m room e =
    let roomy : ltb 0 b.space ≡ true = ground arith in
    let go : Option (List ℕ) → Option Buffer =
      λ o. o >>= λ mem. some (record { mem = mem; pos = b.pos + 1; space = b.space - 1 }) in
    ap (λ t. if t then go (put b (c ∷ [])) else some b) roomy ∙ ap go e

Prints-copy : (c : ℕ) → Prints (copy c) (c ∷ [])
Prints-copy c b done room h l =
    let rest = drop 1 h.tail in
    (
      record { mem = done ++ (c ∷ rest); pos = b.pos + 1; space = b.space - 1 },
      copy_eq b c _ (omega (arith, h.space)) (put-Holds b done (c ∷ []) room h (omega arith)),
      record {
        tail = rest;
        mem = sym (append_assoc done (c ∷ []) rest);
        pos = omega (arith, h.pos, length-append done (c ∷ []));
        space = omega (arith, h.space);
        size = omega (arith, length-drop 1 h.tail, h.size);
        small = omega (arith, h.small);
      },
    )

Prints-byte : (f : Format) (c : ℕ) → Prints (λ b. byte_print_buffer f b c) (byte_print f c)
unfolding byte_print byte_print_buffer
Prints-byte f c =
    Prints-if (c == 34) _ _ _ _ (Prints-snprintf Text.escaped_quote) (
      Prints-if (f.isprint c) (copy c) _ _ _ (Prints-copy c)
        (Prints-snprintf (Text.hex ++ f.hex c)))

pub Prints-bytes :
    (f : Format) (cs : List ℕ)
    → Prints (λ b. variant_bin_print_buffer f b cs) (variant_bin_print f cs)
unfolding variant_bin_print variant_bin_print_buffer
Prints-bytes f [] = Prints-none
Prints-bytes f (c ∷ cs) = Prints-then _ _ _ _ (Prints-byte f c) (Prints-bytes f cs)
