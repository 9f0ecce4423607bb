-- ===== src/Datetime/TextRoundtrip.antt =====
-- src/engine/base/datetime.c: datetime_from_iso8601 on the texts of datetime_format.
use ats.Base.{
  Bool-cases, ℕ, suc, ◌+◌, ◌-◌, ◌*◌, ◌/◌, ◌%◌, ◌^◌, ◌<◌, ◌≤◌, ◌≡◌, ◌≢◌, ◌⊎◌, inl, inr, ◌∙◌, refl,
  sym, ap, subst, List, [], ◌∷◌, length, some, arith, u16, u32, u64, leb, ◌==◌, ==_refl,
}
use ats.Datetime.{
  ticks_per_second, ticks_per_day, max_date_time, rdn_to_ymd, datetime_decode, datetime_from_ymd,
  datetime_from_hmsu,
}
use ats.Datetime.Roundtrip.{IsDate, from_parts-datetime_decode}
use ats.Datetime.Ascii.{letter_z, plus, dash, digit_of, dot}
use ats.Datetime.Format.{fraction_text, precision_of, zone_text, datetime_format}
use ats.Datetime.Parse.{parse_fraction, parse_zone, datetime_from_iso8601}
use ats.Datetime.Scan.{Holds, Holds-drop}
use ats.Datetime.Iso.{is_framed-text, at_second, parse_parts-text}
use ats.Datetime.Tail.{zone_at, parse_fraction-text}
use ats.Datetime.Zone.{IsZone, zone_length, zone_offset, parse_zone-text}
use ats.Datetime.Text.{
  micros, second_of, tail_of, text_of, answer_of, datetime_format_fits, length-text_of,
}

abbrev tail : List ℕ → List ℕ
tail [] = []
tail (c ∷ l) = l

zone_text-cons :
    (z : ℕ) → (c : ℕ) × (rest : List ℕ) × (zone_text z ≡ c ∷ rest) × (9 < digit_of c) × (c ≢ dot)
unfolding zone_text
zone_text-cons z = elim (Bool-cases (z == 0)) [
  | inl none ↦ (letter_z, 0 ∷ [], ground arith, omega arith, λ e. omega (arith, e))
  | inr some_zone ↦ elim (Bool-cases (leb (2 ^ 31) z)) [
    | inl west ↦
        (dash, tail (zone_text z), rw (some_zone, west) refl, omega arith, λ e. omega (arith, e))
    | inr east ↦
        (plus, tail (zone_text z), rw (some_zone, east) refl, omega arith, λ e. omega (arith, e))
  ]
]

-- `perday` microseconds of the day, in hours, minutes, seconds and the rest
whole :
    (perday : ℕ)
    → perday < ticks_per_day
    → let sod = perday / ticks_per_second in
      datetime_from_hmsu
        (u16 (sod / 60 / 60))
        (sod / 60 % 60)
        (sod % 60)
        (perday % ticks_per_second)
      ≡ perday
unfolding datetime_from_hmsu
whole perday small = omega arith

-- The same with a thousandth of the rest
thousandth :
    (perday : ℕ)
    → perday < ticks_per_day
    → let s = u32 (perday / ticks_per_second % ticks_per_second) in
      let f = u32 (perday % ticks_per_second) in
      datetime_from_hmsu (s / 3600) (s / 60 % 60) (s % 60) (f / 1000) + f ≡ perday + f / 1000
unfolding datetime_from_hmsu
thousandth perday small = omega arith

-- The parts of the time, as they are read back
parts_of :
    (dt : ℕ)
    → dt ≤ max_date_time
    → let t = (rdn_to_ymd (u32 (dt / ticks_per_day))).0 in
      let x = at_second (second_of dt) in
      IsDate t
      × (u64 (
            datetime_from_ymd t.year t.month t.day
            + datetime_from_hmsu x.hour x.minute x.second (micros dt / 1000))
          ≡ dt - micros dt + micros dt / 1000)
unfolding datetime_decode
parts_of dt small =
    let (sum, date, _, _, _, _) = from_parts-datetime_decode dt small in
    let perday = dt % ticks_per_day in
    let less : perday < ticks_per_day = omega arith in
    let f_le : micros dt ≤ perday = omega arith in
    (date, omega (arith, sum, whole perday less, thousandth perday less, f_le))

-- The fraction and the zone, read from the end of the seconds on
tail-read :
    (str : ℕ → ℕ) (f z : ℕ)
    → f < 1000000
    → IsZone z
    → Holds str 19 (fraction_text (precision_of f) f (zone_text z))
    → (parse_fraction str (zone_at f + zone_length z) ≡ some (f, zone_at f))
      × (parse_zone str (zone_at f + zone_length z) (zone_at f)
          ≡ some (zone_offset z, zone_at f + zone_length z))
tail-read str f z small range h =
    let (c, rest, text, stop, other) = zone_text-cons z in
    let long : suc (zone_length z - 1) ≡ zone_length z = ground arith in
    let (fraction, zone) =
      parse_fraction-text str f c (zone_length z - 1) rest small
        (subst (λ l. Holds str 19 (fraction_text (precision_of f) f l)) text h) stop other in
    (
      subst (λ n. parse_fraction str (zone_at f + n) ≡ some (f, zone_at f)) long fraction,
      parse_zone-text str (zone_at f) z range (subst (Holds str (zone_at f)) (sym text) zone),
    )

-- The bit pattern of a `long` from -1439 to 1439
abbrev pub IsOffset : ℕ → Type 0
IsOffset offset = (offset ≤ 1439) ⊎ ((2 ^ 64 - 1439 ≤ offset) × (offset < 2 ^ 64))

offset-IsZone : (offset : ℕ) → IsOffset offset → IsZone (u32 offset)
offset-IsZone offset (inl h) = inl (omega arith)
offset-IsZone offset (inr h) = inr (omega arith, omega arith)

taken_off :
    (x offset : ℕ)
    → IsOffset offset
    → u64 (x + 2 ^ 64 - zone_offset (u32 offset)) ≡ u64 (x + (2 ^ 64 - offset) * 60000000)
taken_off x offset (inl h) =
    let z : zone_offset (u32 offset) ≡ offset * 60000000 = ground arith in rw z (omega arith)
taken_off x offset (inr h) =
    let z : zone_offset (u32 offset) ≡ 2 ^ 64 - (2 ^ 64 - offset) * 60000000 = ground arith in
    rw z (omega arith)

zone_at_answer : (dt z : ℕ) → answer_of dt + zone_length z - 1 ≡ zone_at (micros dt) + zone_length z
zone_at_answer dt z = ground arith

long_enough : (f z : ℕ) → 20 ≤ zone_at f + zone_length z
long_enough f z = ground arith

text_of-read :
    (str : ℕ → ℕ) (dt offset : ℕ)
    → dt ≤ max_date_time
    → IsOffset offset
    → Holds str 0 (text_of dt offset)
    → datetime_from_iso8601 str (zone_at (micros dt) + zone_length (u32 offset))
      ≡ some (u64 (dt - micros dt + micros dt / 1000 + (2 ^ 64 - offset) * 60000000))
unfolding datetime_from_iso8601
text_of-read str dt offset small range h =
    let f = micros dt in
    let z = u32 offset in
    let t = (rdn_to_ymd (u32 (dt / ticks_per_day))).0 in
    let len = zone_at f + zone_length z in
    let (date, sum) = parts_of dt small in
    let (fraction, zone) =
      tail-read str f z (omega arith) (offset-IsZone offset range)
        (Holds-drop str 0 19 (text_of dt offset) h) in
    let framed = is_framed-text str t (second_of dt) len (tail_of f offset) (long_enough f z) h in
    let parts = parse_parts-text str t (second_of dt) (tail_of f offset) date (omega arith) h in
    rw (framed, parts, fraction, zone, ==_refl len)
      (ap some (
        ap (λ x. u64 (x + 2 ^ 64 - zone_offset z)) sum
        ∙ taken_off (dt - f + f / 1000) offset range))

-- A text that `datetime_format` writes is read by `datetime_from_iso8601` as the time with its
-- microseconds divided by 1000 and with the offset, in minutes, taken off. (The time is at most MAX_DATE_TIME, the offset less than
-- a day, the text fits as UTC, and the length is that of the whole text without its NUL.)
pub datetime_from_iso8601-datetime_format :
    (str : ℕ → ℕ) (len dt offset : ℕ)
    → dt ≤ max_date_time
    → IsOffset offset
    → (datetime_format len dt offset).0 ≢ 0
    → Holds str 0 (datetime_format len dt offset).1
    → datetime_from_iso8601 str (length (datetime_format len dt offset).1 - 1) ≡ (
        let f = dt % ticks_per_second in
        some (u64 (dt - f + f / 1000 + (2 ^ 64 - offset) * 60000000)))
datetime_from_iso8601-datetime_format str len dt offset small range fits h =
    let done = datetime_format_fits len dt offset fits in
    let text : (datetime_format len dt offset).1 ≡ text_of dt offset = ap (λ r. r.1) done in
    let size : length (datetime_format len dt offset).1 - 1
        ≡ zone_at (micros dt) + zone_length (u32 offset) =
      ap (λ l. length l - 1) text
      ∙ ap (λ n. n - 1) (length-text_of dt offset)
      ∙ zone_at_answer dt (u32 offset) in
    let f_eq : micros dt ≡ dt % ticks_per_second = omega arith in
    ap (datetime_from_iso8601 str) size
    ∙ text_of-read str dt offset small range (subst (Holds str 0) text h)
    ∙ ap (λ f. some (u64 (dt - f + f / 1000 + (2 ^ 64 - offset) * 60000000))) f_eq
