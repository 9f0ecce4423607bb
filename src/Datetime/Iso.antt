-- ===== src/Datetime/Iso.antt =====
-- src/engine/base/datetime.c: the parts of a text of datetime_format, read by datetime_from_iso8601.
use ats.Base.{
  Bool-cases, ℕ, zero, suc, ◌+◌, ◌/◌, ◌%◌, ◌<◌, ◌≤◌, ◌≡◌, inl, inr, ◌∙◌, refl, ap, List, [], ◌∷◌,
  length, get_or, some, arith, if◌then◌else◌, ltb, leb, true, false, not, ◌&&◌, ◌||◌, ◌==◌,
}
use ats.Datetime.{Date, DayTime, month_days, leap_year, days}
use ats.Datetime.Roundtrip.{IsDate}
use ats.Datetime.Ascii.{dash, colon, letter_t}
use ats.Datetime.Format.{date_time_text}
use ats.Datetime.Parse.{parse_2d, parse_4d, is_framed, parse_parts}
use ats.Datetime.Scan.{Holds, Holds-get_or, parse_2d-digits, parse_4d-digits}

pub is_framed-text :
    (str : ℕ → ℕ) (t : Date) (v len : ℕ) (rest : List ℕ)
    → 20 ≤ len
    → Holds str 0 (date_time_text t v rest)
    → is_framed str len ≡ true
is_framed-text str t v len rest long h =
    let l = date_time_text t v rest in
    let at : (i : ℕ) → i < length l → str (0 + i) ≡ get_or l i 0 = λ i. Holds-get_or str 0 l i h in
    let b4 : str 4 ≡ dash = at 4 (omega arith) in
    let b7 : str 7 ≡ dash = at 7 (omega arith) in
    let b10 : str 10 ≡ letter_t = at 10 (omega arith) in
    let b13 : str 13 ≡ colon = at 13 (omega arith) in
    let b16 : str 16 ≡ colon = at 16 (omega arith) in rw (b4, b7, b10, b13, b16) (ground arith)

abbrev largest : List ℕ → ℕ
largest [] = 0
largest (x ∷ l) = let m = largest l in if leb x m then m else x

get_or_le_largest : (l : List ℕ) (i : ℕ) → get_or l i 0 ≤ largest l
get_or_le_largest [] i = omega arith
get_or_le_largest (x ∷ l) zero = ground arith
get_or_le_largest (x ∷ l) (suc i) = ground (arith, get_or_le_largest l i)

month_days_le : (y m : ℕ) → month_days y m ≤ 31
unfolding month_days
month_days_le y m = elim (Bool-cases (m == 2 && leap_year y)) [
  | inl h ↦ rw h (get_or_le_largest (days true) m)
  | inr h ↦ rw h (get_or_le_largest (days false) m)
]

not_past : (hi n : ℕ) → n ≤ hi → not (ltb hi n) ≡ true
not_past hi n h = ground arith

not_before : (lo n : ℕ) → lo ≤ n → not (ltb n lo) ≡ true
not_before lo n h = ground arith

in_range : (lo hi n : ℕ) → lo ≤ n → n ≤ hi → not (ltb n lo || ltb hi n) ≡ true
in_range lo hi n h k = ground arith

in_month : (n m : ℕ) → n ≤ m → not (ltb 28 n && ltb m n) ≡ true
in_month n m h = ground arith

-- The time of day of the second `v`
abbrev pub at_second : ℕ → DayTime
at_second v = record { hour = v / 3600; minute = v / 60 % 60; second = v % 60; usec = 0 }

pub parse_parts-text :
    (str : ℕ → ℕ) (t : Date) (v : ℕ) (rest : List ℕ)
    → IsDate t
    → v < 86400
    → Holds str 0 (date_time_text t v rest)
    → parse_parts str ≡ some (t, at_second v)
unfolding parse_parts
parse_parts-text str t v rest d small h =
    let l = date_time_text t v rest in
    let at : (i : ℕ) → i < length l → str (0 + i) ≡ get_or l i 0 = λ i. Holds-get_or str 0 l i h in
    let year : parse_4d str 0 ≡ some t.year =
      parse_4d-digits str 0 _ _ _ _ (at 0 (omega arith)) (at 1 (omega arith)) (at 2 (omega arith))
        (at 3 (omega arith)) (omega arith, omega arith, omega arith, omega arith)
      ∙ ap some (omega arith) in
    let short = month_days_le t.year t.month in
    let month : parse_2d str 5 ≡ some t.month =
      parse_2d-digits str 5 _ _ (at 5 (omega arith)) (at 6 (omega arith)) (omega arith)
        (omega arith)
      ∙ ap some (omega arith) in
    let day : parse_2d str 8 ≡ some t.day =
      parse_2d-digits str 8 _ _ (at 8 (omega arith)) (at 9 (omega arith)) (omega arith)
        (omega arith)
      ∙ ap some (omega arith) in
    let hour : parse_2d str 11 ≡ some (v / 3600) =
      parse_2d-digits str 11 _ _ (at 11 (omega arith)) (at 12 (omega arith)) (omega arith)
        (omega arith)
      ∙ ap some (omega arith) in
    let min : parse_2d str 14 ≡ some (v / 60 % 60) =
      parse_2d-digits str 14 _ _ (at 14 (omega arith)) (at 15 (omega arith)) (omega arith)
        (omega arith)
      ∙ ap some (omega arith) in
    let sec : parse_2d str 17 ≡ some (v % 60) =
      parse_2d-digits str 17 _ _ (at 17 (omega arith)) (at 18 (omega arith)) (omega arith)
        (omega arith)
      ∙ ap some (omega arith) in
    rw
      (
        year,
        not_before 1 t.year d.year_from,
        month,
        in_range 1 12 t.month d.month_from d.month_to,
        day,
        in_range 1 31 t.day d.day_from (omega (arith, short, d.day_to)),
        hour,
        not_past 23 (v / 3600) (omega arith),
        min,
        not_past 59 (v / 60 % 60) (omega arith),
        sec,
        not_past 59 (v % 60) (omega arith),
        in_month t.day (month_days t.year t.month) d.day_to,
      )
      refl
