-- ===== src/Datetime/Parse.antt =====
-- src/engine/base/datetime.c: datetime_from_iso8601. A text is the memory from its first byte on, and
-- `none` is the result 1.
use ats.Base.{
  ℕ, zero, suc, ◌+◌, ◌-◌, ◌*◌, ◌/◌, ◌^◌, Bool, not, ◌&&◌, ◌||◌, Option, none, some, ltb, ◌==◌,
  if◌then◌else◌, u32, u64, get_or, require, ◌>>=◌,
}
use ats.Datetime.{
  Date, DayTime, month_days, datetime_from_ymd, datetime_from_hmsu, ticks_per_second,
}
use ats.Datetime.Ascii.{dash, colon, dot, plus, digit_of, is_t, is_z}
use ats.Datetime.Format.{pow10}

unfoldable pub parse_2d : (ℕ → ℕ) → ℕ → Option ℕ
parse_2d p i =
    let d0 = digit_of (p i) in
    let d1 = digit_of (p (i + 1)) in if ltb 9 d0 || ltb 9 d1 then none else some (d0 * 10 + d1)

unfoldable pub parse_4d : (ℕ → ℕ) → ℕ → Option ℕ
parse_4d p i =
    let d0 = digit_of (p i) in
    let d1 = digit_of (p (i + 1)) in
    let d2 = digit_of (p (i + 2)) in
    let d3 = digit_of (p (i + 3)) in
    if ltb 9 d0 || ltb 9 d1 || ltb 9 d2 || ltb 9 d3
    then none
    else some (d0 * 1000 + d1 * 100 + d2 * 10 + d3)

-- The bytes that separate the parts, and the length
abbrev pub is_framed : (ℕ → ℕ) → ℕ → Bool
is_framed str len =
    not (
      ltb len 20
      || not (str 4 == dash)
      || not (str 7 == dash)
      || not (str 13 == colon)
      || not (str 16 == colon))
    && is_t (str 10)

-- The year, the month, the day, the hour, the minute and the second, each in range
unfoldable pub parse_parts : (ℕ → ℕ) → Option (Date × DayTime)
unfolding parse_2d parse_4d month_days
parse_parts str = parse_4d str 0 >>= λ year. require (not (ltb year 1)) (
    parse_2d str 5 >>= λ month. require (not (ltb month 1 || ltb 12 month)) (
      parse_2d str 8 >>= λ day. require (not (ltb day 1 || ltb 31 day)) (
        parse_2d str 11 >>= λ hour. require (not (ltb 23 hour)) (
          parse_2d str 14 >>= λ min. require (not (ltb 59 min)) (
            parse_2d str 17 >>= λ sec. require (not (ltb 59 sec)) (
              require (not (ltb 28 day && ltb (month_days year month) day)) (
                some (
                  record { year = year; month = month; day = day },
                  record { hour = hour; minute = min; second = sec; usec = 0 },
                ))))))))

-- The loop over the digits of the fraction: `left` bytes from `cur` to the end.
unfoldable pub scan_digits : (ℕ → ℕ) → ℕ → ℕ → ℕ → ℕ × ℕ
scan_digits str zero cur nsec = (nsec, cur)
scan_digits str (suc left) cur nsec =
    let d = digit_of (str cur) in
    let rest = scan_digits str left (cur + 1) (u32 (nsec * 10 + d)) in
    if ltb 9 d then (nsec, cur) else rest

-- The nanoseconds, and the position of the byte that says the zone
unfoldable pub parse_fraction : (ℕ → ℕ) → ℕ → Option (ℕ × ℕ)
unfolding scan_digits
parse_fraction str len =
    let (nsec, cur) = scan_digits str (len - 20) 20 0 in
    let ndigits = cur - 20 in
    if str 19 == dot
    then require (not (ltb ndigits 1 || ltb 9 ndigits))
        (require (not (cur == len)) (some (u32 (nsec * get_or pow10 (9 - ndigits) 0), cur)))
    else some (0, 19)

-- The offset as the bit pattern of an `int64_t`, and the position after the zone whose first byte is
-- at `at`
unfoldable pub parse_zone : (ℕ → ℕ) → ℕ → ℕ → Option (ℕ × ℕ)
unfolding parse_2d
parse_zone str len at =
    let ch = str at in
    let cur = at + 1 in
    let p : ℕ → ℕ = λ i. str (cur + i) in
    if is_z ch
    then some (0, cur)
    else require (not (ltb (cur + 5) len || not (ch == plus || ch == dash) || not (p 2 == colon))) (
        parse_2d p 0 >>= λ zone_hour. require (not (ltb 23 zone_hour)) (
          parse_2d p 3 >>= λ zone_min. require (not (ltb 59 zone_min)) (
            let offset = (zone_hour * 60 + zone_min) * 60 * ticks_per_second in
            some (if ch == dash then u64 (2 ^ 64 - offset) else offset, cur + 5))))

unfoldable pub datetime_from_iso8601 : (ℕ → ℕ) → ℕ → Option ℕ
unfolding parse_parts parse_fraction parse_zone datetime_from_ymd datetime_from_hmsu
datetime_from_iso8601 str len = require (is_framed str len) (
    parse_parts str >>= λ parts. parse_fraction str len >>= λ fraction.
    parse_zone str len fraction.1 >>= λ zone.
    let (t, x) = parts in
    let (nsec, at) = fraction in
    let (offset, cur) = zone in
    let date = datetime_from_ymd t.year t.month t.day in
    let time = datetime_from_hmsu x.hour x.minute x.second (nsec / 1000) in
    require (cur == len) (some (u64 (u64 (date + time) + 2 ^ 64 - offset))))
