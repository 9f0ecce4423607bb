-- ===== src/Datetime.antt =====
-- src/engine/base/datetime.c: dates as counts of microseconds since 0001-01-01, and the calendar.
-- Machine words wrap as the C types do; a `uint16_t` in an expression is an `int`.
pub mod Cycle
pub mod Shift
pub mod Roundtrip
pub mod Ascii
pub mod Format
pub mod Parse
pub mod Scan
pub mod Iso
pub mod Tail
pub mod Zone
pub mod Text
pub mod TextRoundtrip
pub mod Inside
mod Tests
use ats.Base.{
  ℕ, ◌+◌, ◌-◌, ◌*◌, ◌/◌, ◌%◌, ◌^◌, Bool, not, ◌&&◌, ◌||◌, List, [], ◌∷◌, Option, none, some, ltb,
  ◌==◌, if◌then◌else◌, u16, u32, u64, get_or, Status, ok, err, require, ◌>>=◌,
}

abbrev pub ticks_per_second : ℕ
ticks_per_second = 1000000

abbrev pub ticks_per_day : ℕ
ticks_per_day = 86400000000

abbrev pub epoch_date_time : ℕ
epoch_date_time = 62135596800000000

abbrev pub max_date_time : ℕ
max_date_time = 315537897599999999

-- Both rows of `days_preceding_month`, at the months 1 to 12.
abbrev pub days_preceding_month : Bool → List ℕ
days_preceding_month Bool.false =
    0 ∷ 0 ∷ 31 ∷ 59 ∷ 90 ∷ 120 ∷ 151 ∷ 181 ∷ 212 ∷ 243 ∷ 273 ∷ 304 ∷ 334 ∷ []
days_preceding_month Bool.true =
    0 ∷ 0 ∷ 31 ∷ 60 ∷ 91 ∷ 121 ∷ 152 ∷ 182 ∷ 213 ∷ 244 ∷ 274 ∷ 305 ∷ 335 ∷ []

abbrev pub day_offset : List ℕ
day_offset = 0 ∷ 306 ∷ 337 ∷ 0 ∷ 31 ∷ 61 ∷ 92 ∷ 122 ∷ 153 ∷ 184 ∷ 214 ∷ 245 ∷ 275 ∷ []

-- The table `days` of `month_days`.
abbrev pub days : Bool → List ℕ
days Bool.false = 0 ∷ 31 ∷ 28 ∷ 31 ∷ 30 ∷ 31 ∷ 30 ∷ 31 ∷ 31 ∷ 30 ∷ 31 ∷ 30 ∷ 31 ∷ []
days Bool.true = 0 ∷ 31 ∷ 29 ∷ 31 ∷ 30 ∷ 31 ∷ 30 ∷ 31 ∷ 31 ∷ 30 ∷ 31 ∷ 30 ∷ 31 ∷ []

-- `(y & 3) == 0` is `y % 4 == 0`.
unfoldable pub leap_year : ℕ → Bool
leap_year y = y % 4 == 0 && (not (y % 100 == 0) || y % 400 == 0)

unfoldable pub month_days : ℕ → ℕ → ℕ
unfolding leap_year
month_days y m = get_or (days (m == 2 && leap_year y)) m 0

pub record Date : Type 0 where
  pub year : ℕ
  pub month : ℕ
  pub day : ℕ

-- From the year `y` that begins in March, its day `d` from 1 and the month `m` from 3, to the
-- calendar date and the day of its year.
unfoldable pub march_to_date : ℕ → ℕ → ℕ → Date × ℕ
unfolding leap_year
march_to_date y d m =
    if ltb 12 m
    then (
      record {
        year = u16 (y + 1);
        month = m - 12;
        day = u16 (d + 2 ^ 16 - get_or day_offset (m - 12) 0);
      },
      u16 (d + 2 ^ 16 - 306),
    )
    else (
      record { year = y; month = m; day = u16 (d + 2 ^ 16 - get_or day_offset m 0) },
      u16 (d + 59 + (if leap_year y then 1 else 0)),
    )

-- `rdn_to_ymd`: the date, and the day of the year
unfoldable pub rdn_to_ymd : ℕ → Date × ℕ
unfolding march_to_date
rdn_to_ymd n =
    let rdn = u32 (n + 1) in
    let z = u32 (rdn + 306) in
    let h = u32 (100 * z + 2 ^ 32 - 25) in
    let a = h / 3652425 in
    let b = a - a / 4 in
    let y = u16 (u32 (100 * b + h) / 36525) in
    let d = u16 (b + z + 2 ^ 32 - 1461 * y / 4) in
    march_to_date y d (u16 ((535 * d + 48950) / 2 ^ 14))

unfoldable pub yd_to_rdn : ℕ → ℕ → ℕ
yd_to_rdn y0 d = let y = u16 (y0 + 2 ^ 16 - 1) in u32 (365 * y + y / 4 - y / 100 + y / 400 + d)

-- The year and the month that `ymd_to_rdn` goes on with: a month outside 1 to 12 moves the year.
unfoldable pub normalise : ℕ → ℕ → ℕ × ℕ
normalise y m =
    if ltb m 1 || ltb 12 m
    then (if ltb (m % 12) 1
        then (u16 (u16 (y + m / 12) + 2 ^ 16 - 1), m % 12 + 12)
        else (u16 (y + m / 12), m % 12))
    else (y, m)

unfoldable pub ymd_to_rdn : ℕ → ℕ → ℕ → ℕ
unfolding normalise yd_to_rdn leap_year
ymd_to_rdn y m d =
    let (y', m') = normalise y m in
    yd_to_rdn y' (u16 (get_or (days_preceding_month (leap_year y')) m' 0 + d + 2 ^ 16 - 1))

unfoldable pub datetime_from_ymd : ℕ → ℕ → ℕ → ℕ
unfolding ymd_to_rdn
datetime_from_ymd year month day = u64 (ymd_to_rdn year month day * ticks_per_day)

unfoldable pub datedatetime_to_ymd : ℕ → Date
unfolding rdn_to_ymd
datedatetime_to_ymd time = (rdn_to_ymd (u32 (time / ticks_per_day))).0

unfoldable pub datetime_from_hmsu : ℕ → ℕ → ℕ → ℕ → ℕ
datetime_from_hmsu hour minute second usec =
    let total_seconds = hour * 3600 + minute * 60 + second in
    u64 (total_seconds * ticks_per_second + usec)

-- The time of day that `datetime_decode` writes: hours, minutes, seconds, microseconds.
pub record DayTime : Type 0 where
  pub hour : ℕ
  pub minute : ℕ
  pub second : ℕ
  pub usec : ℕ

unfoldable pub datetime_decode : ℕ → Date × DayTime
unfolding rdn_to_ymd
datetime_decode dt =
    let perday = dt % ticks_per_day in
    let sod = perday / ticks_per_second in
    (
      (rdn_to_ymd (u32 (dt / ticks_per_day))).0,
      record {
        hour = u16 (sod / 60 / 60);
        minute = sod / 60 % 60;
        second = sod % 60;
        usec = perday % ticks_per_second;
      },
    )

-- `tv_sec` and `tv_usec` as 64-bit patterns
unfoldable pub datetime_from_timeval : ℕ → ℕ → ℕ
datetime_from_timeval tv_sec tv_usec = u64 (tv_sec * ticks_per_second + tv_usec + epoch_date_time)

-- `gettimeofday` gives the two arguments.
unfoldable pub datetime_now : ℕ → ℕ → ℕ
datetime_now tv_sec tv_usec = u64 (tv_sec * ticks_per_second + tv_usec + epoch_date_time)

-- The fields of `struct tm` that are set.
pub record Tm : Type 0 where
  pub mday : ℕ
  pub yday : ℕ
  pub mon : ℕ
  pub year : ℕ
  pub wday : ℕ
  pub sec : ℕ
  pub min : ℕ
  pub hour : ℕ

-- `none` is the result 1. From the epoch on, `y - 1900` is at least 70.
unfoldable pub datetime_to_tm : ℕ → Option Tm
unfolding rdn_to_ymd
datetime_to_tm dt =
    let rdn = u32 (dt / ticks_per_day) in
    let sod = dt % ticks_per_day / ticks_per_second in
    let (date, doy) = rdn_to_ymd rdn in
    if ltb dt ((dt + 2 ^ 64 - epoch_date_time) % 2 ^ 64)
    then none
    else some (record {
      mday = date.day;
      yday = doy - 1;
      mon = date.month - 1;
      year = u32 (date.year + (2 ^ 32 - 1900));
      wday = rdn % 7;
      sec = sod % 60;
      min = sod / 60 % 60;
      hour = sod / 60 / 60;
    })
