-- ===== src/Datetime/Tail.antt =====
-- src/engine/base/datetime.c: the fraction and the zone of a text of datetime_format, read by
-- datetime_from_iso8601.
use ats.Base.{
  Bool-cases, ℕ, suc, ◌+◌, ◌-◌, ◌*◌, ◌/◌, ◌%◌, ◌^◌, ◌<◌, ◌≤◌, ◌≡◌, ◌≢◌, inl, inr, ◌∙◌, sym, ap,
  subst, List, ◌∷◌, get_or, some, arith, u32, if◌then◌else◌, ◌==◌,
}
use ats.Datetime.Ascii.{digit_of, dot}
use ats.Datetime.Format.{pow10, digits_before, fraction_text, precision_of}
use ats.Datetime.Parse.{scan_digits, parse_fraction}
use ats.Datetime.Scan.{
  Holds, last_digits, last_digits_all, Holds-digits_before, scan_digits-digits_before,
}

scan_digits-stop :
    (str : ℕ → ℕ) (left cur nsec : ℕ)
    → 9 < digit_of (str cur)
    → scan_digits str (suc left) cur nsec ≡ (nsec, cur)
unfolding scan_digits
scan_digits-stop str left cur nsec h = ground arith

-- The loop reads `p` digits and stops before a byte that is none.
scan_digits-all :
    (str : ℕ → ℕ) (p v c left : ℕ) (rest : List ℕ)
    → v < 10 ^ p
    → v < 2 ^ 32
    → Holds str 20 (digits_before p v (c ∷ rest))
    → 9 < digit_of c
    → scan_digits str (p + suc left) 20 0 ≡ (v, p + 20)
scan_digits-all str p v c left rest small word h stop =
    let here = (Holds-digits_before str p v 20 (c ∷ rest) h).0 in
    scan_digits-digits_before str p v (suc left) 20 (c ∷ rest) h word
    ∙ scan_digits-stop str left (p + 20) (last_digits p v)
        (subst (λ b. 9 < digit_of b) (sym here) stop)
    ∙ ap (λ n. (n, p + 20)) (last_digits_all p v small)

parse_fraction-digits :
    (str : ℕ → ℕ) (p v c left : ℕ) (rest : List ℕ)
    → 1 ≤ p
    → p ≤ 9
    → v < 10 ^ p
    → v < 2 ^ 32
    → str 19 ≡ dot
    → Holds str 20 (digits_before p v (c ∷ rest))
    → 9 < digit_of c
    → parse_fraction str (p + 20 + suc left) ≡ some (u32 (v * get_or pow10 (9 - p) 0), p + 20)
unfolding parse_fraction
parse_fraction-digits str p v c left rest from to small word point h stop =
    let over : p + 20 + suc left - 20 ≡ p + suc left = omega arith in
    let count : p + 20 - 20 ≡ p = omega arith in
    rw (over, scan_digits-all str p v c left rest small word h stop, count, point) (ground arith)

-- What the fraction amounts to when `p` digits of it are written
fraction_text-some :
    (str : ℕ → ℕ) (p f c left : ℕ) (rest : List ℕ)
    → 1 ≤ p
    → p ≤ 9
    → f / get_or pow10 (9 - p) 1 < 10 ^ p
    → f < 1000000
    → u32 (f / get_or pow10 (9 - p) 1 * get_or pow10 (9 - p) 0) ≡ f
    → f / get_or pow10 (9 - p) 1 < 2 ^ 32
    → Holds str 19 (fraction_text p f (c ∷ rest))
    → 9 < digit_of c
    → (parse_fraction str (p + 20 + suc left) ≡ some (f, p + 20)) × Holds str (p + 20) (c ∷ rest)
unfolding fraction_text
fraction_text-some str p f c left rest from to small million whole word h stop =
    let v = f / get_or pow10 (9 - p) 1 in
    let written : fraction_text p f (c ∷ rest) ≡ dot ∷ digits_before p v (c ∷ rest) =
      ground arith in
    let (point, digits) = subst (Holds str 19) written h in
    (
      parse_fraction-digits str p v c left rest from to small word point digits stop
          ∙ ap (λ n. some (n, p + 20)) whole,
      Holds-digits_before str p v 20 (c ∷ rest) digits,
    )

fraction_text-none :
    (str : ℕ → ℕ) (c left : ℕ) (rest : List ℕ)
    → Holds str 19 (fraction_text 0 0 (c ∷ rest))
    → c ≢ dot
    → (parse_fraction str (19 + suc left) ≡ some (0, 19)) × Holds str 19 (c ∷ rest)
unfolding fraction_text parse_fraction
fraction_text-none str c left rest h other =
    let there : str 19 ≡ c = h.0 in (rw there (ground arith), h)

-- Where the zone begins
abbrev pub zone_at : ℕ → ℕ
zone_at f = if f == 0 then 19 else precision_of f + 20

pub parse_fraction-text :
    (str : ℕ → ℕ) (f c left : ℕ) (rest : List ℕ)
    → f < 1000000
    → Holds str 19 (fraction_text (precision_of f) f (c ∷ rest))
    → 9 < digit_of c
    → c ≢ dot
    → (parse_fraction str (zone_at f + suc left) ≡ some (f, zone_at f))
      × Holds str (zone_at f) (c ∷ rest)
parse_fraction-text str f c left rest small h stop other =
    let text = λ (p : ℕ). fraction_text p f (c ∷ rest) in
    elim (Bool-cases (f == 0)) [
      | inl z ↦
          let zero_f : f ≡ 0 = ground arith in
          subst
            (λ f.
              Holds str 19 (fraction_text (precision_of f) f (c ∷ rest))
              → (parse_fraction str (zone_at f + suc left) ≡ some (f, zone_at f))
                × Holds str (zone_at f) (c ∷ rest))
            (sym zero_f) (λ h. fraction_text-none str c left rest h other) h
      | inr nz ↦ elim (Bool-cases (f % 1000 == 0)) [
        | inl six ↦
            let at : zone_at f ≡ 26 = ground arith in
            let prec : precision_of f ≡ 6 = ground arith in
            rw at (
              fraction_text-some str 6 f c left rest (omega arith) (omega arith) (omega arith) small
                (ground arith) (omega arith) (subst (λ p. Holds str 19 (text p)) prec h) stop)
        | inr nine ↦
            let at : zone_at f ≡ 29 = ground arith in
            let prec : precision_of f ≡ 9 = ground arith in
            rw at (
              fraction_text-some str 9 f c left rest (omega arith) (omega arith) (omega arith) small
                (ground arith) (omega arith) (subst (λ p. Holds str 19 (text p)) prec h) stop)
      ]
    ]
