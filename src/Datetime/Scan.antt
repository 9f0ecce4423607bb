-- ===== src/Datetime/Scan.antt =====
-- src/engine/base/datetime.c: the digits that datetime_format writes, read by datetime_from_iso8601.
use ats.Base.{
  ℕ, zero, suc, ◌+◌, ◌*◌, ◌/◌, ◌%◌, ◌^◌, ◌<◌, ◌≤◌, ◌≡◌, ◌∙◌, refl, ap, ap₂, subst, List, [], ◌∷◌,
  length, get_or, some, arith, u32,
}
use ats.Datetime.Ascii.{digit, digit_of}
use ats.Datetime.Format.{digits_before}
use ats.Datetime.Parse.{parse_2d, parse_4d, scan_digits}

-- From `at` on, the memory holds the text.
abbrev pub Holds : (ℕ → ℕ) → ℕ → List ℕ → Type 0
Holds str at [] = Unit
Holds str at (c ∷ l) = (str at ≡ c) × Holds str (suc at) l

pub Holds-get_or :
    (str : ℕ → ℕ) (at : ℕ) (l : List ℕ) (i : ℕ)
    → Holds str at l
    → i < length l
    → str (at + i) ≡ get_or l i 0
Holds-get_or str at [] i h b = absurd (omega arith)
Holds-get_or str at (c ∷ l) zero h b = subst (λ a. str a ≡ c) (omega arith) h.0
Holds-get_or str at (c ∷ l) (suc i) h b =
    let further : suc at + i ≡ at + suc i = omega arith in
    subst (λ a. str a ≡ get_or l i 0) further (Holds-get_or str (suc at) l i h.1 (omega arith))

Holds-suc :
    (str : ℕ → ℕ) (at : ℕ) (l : List ℕ) → Holds (λ i. str (suc i)) at l → Holds str (suc at) l
Holds-suc str at [] h = tt
Holds-suc str at (c ∷ l) (e, h) = (e, Holds-suc str (suc at) l h)

-- Memory that is read off a list holds it.
pub Holds-self : (l : List ℕ) → Holds (λ i. get_or l i 0) 0 l
Holds-self [] = tt
Holds-self (c ∷ l) = (refl, Holds-suc (λ i. get_or (c ∷ l) i 0) 0 l (Holds-self l))

abbrev pub drop : ℕ → List ℕ → List ℕ
drop zero l = l
drop (suc n) [] = []
drop (suc n) (c ∷ l) = drop n l

pub Holds-drop :
    (str : ℕ → ℕ) (at n : ℕ) (l : List ℕ) → Holds str at l → Holds str (at + n) (drop n l)
Holds-drop str at zero l h =
    let same : at ≡ at + 0 = omega arith in subst (λ a. Holds str a l) same h
Holds-drop str at (suc n) [] h = tt
Holds-drop str at (suc n) (c ∷ l) h =
    let further : suc at + n ≡ at + suc n = omega arith in
    subst (λ a. Holds str a (drop n l)) further (Holds-drop str (suc at) n l h.1)

pub digit_of-digit : (n : ℕ) → n < 10 → digit_of (digit n) ≡ n
digit_of-digit n h = omega arith

pub parse_2d-digits :
    (p : ℕ → ℕ) (i a b : ℕ)
    → p i ≡ digit a
    → p (i + 1) ≡ digit b
    → a < 10
    → b < 10
    → parse_2d p i ≡ some (a * 10 + b)
unfolding parse_2d
parse_2d-digits p i a b e f h k =
    let da : digit_of (p i) ≡ a = ap digit_of e ∙ digit_of-digit a h in
    let db : digit_of (p (i + 1)) ≡ b = ap digit_of f ∙ digit_of-digit b k in
    rw (da, db) (ground arith)

pub parse_4d-digits :
    (p : ℕ → ℕ) (i a b c d : ℕ)
    → p i ≡ digit a
    → p (i + 1) ≡ digit b
    → p (i + 2) ≡ digit c
    → p (i + 3) ≡ digit d
    → (a < 10) × (b < 10) × (c < 10) × (d < 10)
    → parse_4d p i ≡ some (a * 1000 + b * 100 + c * 10 + d)
unfolding parse_4d
parse_4d-digits p i a b c d e f g h (ka, kb, kc, kd) =
    let da : digit_of (p i) ≡ a = ap digit_of e ∙ digit_of-digit a ka in
    let db : digit_of (p (i + 1)) ≡ b = ap digit_of f ∙ digit_of-digit b kb in
    let dc : digit_of (p (i + 2)) ≡ c = ap digit_of g ∙ digit_of-digit c kc in
    let dd : digit_of (p (i + 3)) ≡ d = ap digit_of h ∙ digit_of-digit d kd in
    rw (da, db, dc, dd) (ground arith)

-- The number that the last `n` digits of `v` write
abbrev pub last_digits : ℕ → ℕ → ℕ
last_digits zero v = 0
last_digits (suc n) v = last_digits n (v / 10) * 10 + v % 10

pub last_digits_le : (n v : ℕ) → last_digits n v ≤ v
last_digits_le zero v = omega arith
last_digits_le (suc n) v = omega (arith, last_digits_le n (v / 10))

pub last_digits_all : (n v : ℕ) → v < 10 ^ n → last_digits n v ≡ v
last_digits_all zero v h = omega arith
last_digits_all (suc n) v h = omega (arith, last_digits_all n (v / 10) (omega arith))

-- A step of the loop over a digit
scan_digits-digit :
    (str : ℕ → ℕ) (left cur nsec d : ℕ)
    → str cur ≡ digit d
    → d < 10
    → scan_digits str (suc left) cur nsec ≡ scan_digits str left (cur + 1) (u32 (nsec * 10 + d))
unfolding scan_digits
scan_digits-digit str left cur nsec d e h = rw (ap digit_of e ∙ digit_of-digit d h) (ground arith)

pub Holds-digits_before :
    (str : ℕ → ℕ) (n v at : ℕ) (rest : List ℕ)
    → Holds str at (digits_before n v rest)
    → Holds str (n + at) rest
Holds-digits_before str zero v at rest h =
    let same : at ≡ 0 + at = omega arith in subst (λ a. Holds str a rest) same h
Holds-digits_before str (suc n) v at rest h =
    let same : suc (n + at) ≡ suc n + at = omega arith in
    subst (λ a. Holds str a rest) same
      (Holds-digits_before str n (v / 10) at (digit (v % 10) ∷ rest) h).1

-- The loop over digits reads the number that they write, and stands after them.
pub scan_digits-digits_before :
    (str : ℕ → ℕ) (n v left at : ℕ) (rest : List ℕ)
    → Holds str at (digits_before n v rest)
    → v < 2 ^ 32
    → scan_digits str (n + left) at 0 ≡ scan_digits str left (n + at) (last_digits n v)
scan_digits-digits_before str zero v left at rest h small =
    ap₂ (λ l a. scan_digits str l a 0) (omega arith) (omega arith)
scan_digits-digits_before str (suc n) v left at rest h small =
    let next = digit (v % 10) ∷ rest in
    let before = scan_digits-digits_before str n (v / 10) (suc left) at next h (omega arith) in
    let here = (Holds-digits_before str n (v / 10) at next h).0 in
    let step =
      scan_digits-digit str left (n + at) (last_digits n (v / 10)) (v % 10) here (omega arith) in
    let value = last_digits_le n (v / 10) in
    let longer : suc n + left ≡ n + suc left = omega arith in
    let further : n + at + 1 ≡ suc n + at = omega arith in
    let fits : u32 (last_digits n (v / 10) * 10 + v % 10) ≡ last_digits n (v / 10) * 10 + v % 10 =
      omega (arith, value) in
    ap (λ l. scan_digits str l at 0) longer
    ∙ before
    ∙ step
    ∙ ap₂ (scan_digits str left) further fits
