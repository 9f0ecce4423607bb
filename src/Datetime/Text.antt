-- ===== src/Datetime/Text.antt =====
-- src/engine/base/datetime.c: the texts of datetime_format, their length and what
-- datetime_from_iso8601 makes of them.
use ats.Base.{
  Bool-cases, ℕ, zero, suc, ◌+◌, ◌-◌, ◌/◌, ◌%◌, ◌<◌, ◌≡◌, ◌≢◌, ◌⊎◌, inl, inr, ◌∙◌, refl, ap, List,
  [], ◌∷◌, length, get_or, arith, u32, if◌then◌else◌, leb, false, ◌==◌,
}
use ats.Datetime.{ticks_per_second, ticks_per_day, rdn_to_ymd}
use ats.Datetime.Ascii.{digit}
use ats.Datetime.Format.{
  pow10, digits_before, date_time_text, fraction_text, precision_of, zone_text,
  timestamp_format_internal, datetime_format,
}
use ats.Datetime.Zone.{zone_length}

length-digits_before : (n v : ℕ) (rest : List ℕ) → length (digits_before n v rest) ≡ n + length rest
length-digits_before zero v rest = omega arith
length-digits_before (suc n) v rest =
    omega (arith, length-digits_before n (v / 10) (digit (v % 10) ∷ rest))

length-fraction_text :
    (precision nsec : ℕ) (rest : List ℕ)
    → length (fraction_text precision nsec rest)
      ≡ (if precision == 0 then 0 else 1 + precision) + length rest
unfolding fraction_text
length-fraction_text precision nsec rest =
    ground (arith, length-digits_before precision (nsec / get_or pow10 (9 - precision) 1) rest)

length-zone_text : (z : ℕ) → length (zone_text z) ≡ zone_length z + 1
unfolding zone_text
length-zone_text z = ground arith

-- The text of a time, and what is answered for it
abbrev pub micros : ℕ → ℕ
micros dt = u32 (dt % ticks_per_day % ticks_per_second)

abbrev pub second_of : ℕ → ℕ
second_of dt = u32 (dt % ticks_per_day / ticks_per_second % ticks_per_second)

abbrev pub tail_of : ℕ → ℕ → List ℕ
tail_of f offset = fraction_text (precision_of f) f (zone_text (u32 offset))

abbrev pub text_of : ℕ → ℕ → List ℕ
text_of dt offset =
    date_time_text (rdn_to_ymd (u32 (dt / ticks_per_day))).0 (second_of dt)
      (tail_of (micros dt) offset)

abbrev pub answer_of : ℕ → ℕ
answer_of dt =
    let precision = precision_of (micros dt) in 20 + (if precision == 0 then 0 else 1 + precision)

pub datetime_format_eq :
    (len dt offset : ℕ)
    → datetime_format len dt offset
      ≡ (if leb len (answer_of dt) then (0, []) else (answer_of dt, text_of dt offset))
unfolding datetime_format timestamp_format_internal
datetime_format_eq len dt offset = refl

pub length-text_of :
    (dt offset : ℕ) → length (text_of dt offset) ≡ answer_of dt + zone_length (u32 offset)
length-text_of dt offset =
    let f = micros dt in
    let z = u32 offset in
    omega (arith, length-fraction_text (precision_of f) f (zone_text z), length-zone_text z)

written : (x k : ℕ) → 20 + x + k ≡ (if 20 + x == 0 then 0 else 20 + x + k)
written x k = ground arith

fits_lt : (len n : ℕ) → leb len n ≡ false → n < len
fits_lt len n h = ground arith

-- What is written into the buffer of `len` bytes, with its NUL: nothing, if the text for UTC does not
-- fit, for which the answer is 0; else the answer and 1 more for the zone UTC, and the answer and 6
-- more for any other zone, whatever the buffer has room for.
pub length-datetime_format :
    (len dt offset : ℕ)
    → let (n, text) = datetime_format len dt offset in
      (length text ≡ (if n == 0 then 0 else n + (if u32 offset == 0 then 1 else 6)))
      × (n ≡ 0 ⊎ n < len)
length-datetime_format len dt offset =
    rw (datetime_format_eq len dt offset) (elim (Bool-cases (leb len (answer_of dt))) [
      | inl short ↦ rw short (refl, inl refl)
      | inr fits ↦ rw fits (
        length-text_of dt offset ∙ written _ (zone_length (u32 offset)),
        inr (fits_lt len (answer_of dt) fits),
      )
    ])

pub datetime_format_fits :
    (len dt offset : ℕ)
    → (datetime_format len dt offset).0 ≢ 0
    → datetime_format len dt offset ≡ (answer_of dt, text_of dt offset)
datetime_format_fits len dt offset nz = elim (Bool-cases (leb len (answer_of dt))) [
  | inl short ↦ absurd (nz (ap (λ r. r.0) (datetime_format_eq len dt offset) ∙ rw short refl))
  | inr fits ↦ datetime_format_eq len dt offset ∙ rw fits refl
]
