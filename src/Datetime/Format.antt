-- ===== src/Datetime/Format.antt =====
-- src/engine/base/datetime.c: datetime_format, which writes a time as ISO 8601. The result is what
-- the function returns and the bytes that it writes from `dst` on, whether or not they fit.
use ats.Base.{
  ℕ, zero, suc, ◌+◌, ◌-◌, ◌/◌, ◌%◌, ◌^◌, List, [], ◌∷◌, leb, ◌==◌, if◌then◌else◌, u32, get_or,
}
use ats.Datetime.{ticks_per_day, ticks_per_second, rdn_to_ymd, Date}
use ats.Datetime.Ascii.{dash, colon, dot, plus, letter_t, letter_z, digit}

abbrev pub pow10 : List ℕ
pow10 = 1 ∷ 10 ∷ 100 ∷ 1000 ∷ 10000 ∷ 100000 ∷ 1000000 ∷ 10000000 ∷ 100000000 ∷ 1000000000 ∷ []

-- The last `n` digits of `v` before `rest`: the `switch` that falls through to `case 1`.
abbrev pub digits_before : ℕ → ℕ → List ℕ → List ℕ
digits_before zero v rest = rest
digits_before (suc n) v rest = digits_before n (v / 10) (digit (v % 10) ∷ rest)

-- The fraction, if there is one, before `rest`.
unfoldable pub fraction_text : ℕ → ℕ → List ℕ → List ℕ
fraction_text precision nsec rest =
    if precision == 0
    then rest
    else dot ∷ digits_before precision (nsec / get_or pow10 (9 - precision) 1) rest

-- `zone_offset` is the bit pattern of an `int32_t`. The text ends with a NUL.
unfoldable pub zone_text : ℕ → List ℕ
zone_text zone_offset =
    let negative = leb (2 ^ 31) zone_offset in
    let v = if negative then u32 (2 ^ 32 - zone_offset) else zone_offset in
    if zone_offset == 0
    then letter_z ∷ 0 ∷ []
    else (if negative then dash else plus)
      ∷ digit (v / 10 / 6 / 10 % 10)
      ∷ digit (v / 10 / 6 % 10)
      ∷ colon
      ∷ digit (v / 10 % 6)
      ∷ digit (v % 10)
      ∷ 0
      ∷ []

-- The date and the seconds `v` of the day, before `rest`.
abbrev pub date_time_text : Date → ℕ → List ℕ → List ℕ
date_time_text t v rest =
    digit (t.year / 10 / 10 / 10 % 10)
    ∷ digit (t.year / 10 / 10 % 10)
    ∷ digit (t.year / 10 % 10)
    ∷ digit (t.year % 10)
    ∷ dash
    ∷ digit (t.month / 10 % 10)
    ∷ digit (t.month % 10)
    ∷ dash
    ∷ digit (t.day / 10 % 10)
    ∷ digit (t.day % 10)
    ∷ letter_t
    ∷ digit (v / 10 / 6 / 10 / 6 / 10 % 10)
    ∷ digit (v / 10 / 6 / 10 / 6 % 10)
    ∷ colon
    ∷ digit (v / 10 / 6 / 10 % 6)
    ∷ digit (v / 10 / 6 % 10)
    ∷ colon
    ∷ digit (v / 10 % 6)
    ∷ digit (v % 10)
    ∷ rest

unfoldable pub timestamp_format_internal : ℕ → ℕ → ℕ → ℕ → ℕ × List ℕ
unfolding rdn_to_ymd fraction_text zone_text
timestamp_format_internal len dt zone_offset precision =
    let dlen = 20 + (if precision == 0 then 0 else 1 + precision) in
    let sec = dt % ticks_per_day / ticks_per_second in
    let rdn = u32 (dt / ticks_per_day) in
    let nsec = u32 (dt % ticks_per_day % ticks_per_second) in
    if leb len dlen then (0, []) else (
      dlen,
      date_time_text (rdn_to_ymd rdn).0 (u32 (sec % ticks_per_second))
          (fraction_text precision nsec (zone_text zone_offset)),
    )

-- The digits of the fraction that `datetime_format` asks for
abbrev pub precision_of : ℕ → ℕ
precision_of f =
    if f == 0 then 0 else if f % 1000000 == 0 then 3 else if f % 1000 == 0 then 6 else 9

-- `offset` is the bit pattern of a `long`.
unfoldable pub datetime_format : ℕ → ℕ → ℕ → ℕ × List ℕ
unfolding timestamp_format_internal
datetime_format len dt offset =
    let f = u32 (dt % ticks_per_day % ticks_per_second) in
    timestamp_format_internal len dt (u32 offset) (precision_of f)
