-- ===== src/Datetime/Roundtrip.antt =====
-- src/engine/base/datetime.c: dates and times taken apart and put together.
use ats.Base.{
  ℕ, ◌+◌, ◌-◌, ◌*◌, ◌/◌, ◌%◌, ◌^◌, ◌≤◌, ◌<◌, ◌≡◌, ◌≢◌, Bool, true, ◌&&◌, ltb, leb, ◌==◌,
  if◌then◌else◌, u16, u32, arith, ap, ap₂, ◌∙◌, some,
}
use ats.Datetime.{
  month_days, Date, DayTime, Tm, march_to_date, rdn_to_ymd, yd_to_rdn, ymd_to_rdn, ticks_per_day,
  ticks_per_second, max_date_time, datetime_from_ymd, datetime_from_hmsu, datetime_decode,
  datedatetime_to_ymd, datetime_to_tm, epoch_date_time,
}
use ats.Datetime.Cycle.{good, good_day}
use ats.Datetime.Shift.{ymd_to_rdn_shift, yd_to_rdn_shift, rdn_to_ymd_shift, month_days_shift}

-- A date of the calendar from the year 1 to the year 9999.
pub record IsDate (t : Date) : Type 0 where
  pub year_from : 1 ≤ t.year
  pub year_to : t.year ≤ 9999
  pub month_from : 1 ≤ t.month
  pub month_to : t.month ≤ 12
  pub day_from : 1 ≤ t.day
  pub day_to : t.day ≤ month_days t.year t.month

-- What the day `n` and its date have to do with each other.
pub record Numbered (n : ℕ) (t : Date) (doy : ℕ) : Type 0 where
  pub date : IsDate t
  pub number : ymd_to_rdn t.year t.month t.day ≡ n
  pub of_year : yd_to_rdn t.year doy ≡ n + 1

and_both : (a b : Bool) → (a && b) ≡ true → (a ≡ true) × (b ≡ true)
and_both a b h = ground arith

equal : (a b : ℕ) → (a == b) ≡ true → a ≡ b
equal a b h = ground arith

at_most : (a b : ℕ) → leb a b ≡ true → a ≤ b
at_most a b h = ground arith

-- The first 400 years
first_cycle :
    (n : ℕ)
    → n < 146097
    → Numbered n ((rdn_to_ymd n).0) (rdn_to_ymd n).1
      × ((rdn_to_ymd n).0.year ≤ (if ltb n 145731 then 399 else 400))
unfolding good
first_cycle n h =
    let (number, r1) = and_both _ _ (good_day n h) in
    let (of_year, r2) = and_both _ _ r1 in
    let (month_from, r3) = and_both _ _ r2 in
    let (month_to, r4) = and_both _ _ r3 in
    let (day_from, r5) = and_both _ _ r4 in
    let (day_to, r6) = and_both _ _ r5 in
    let (year_from, year_to) = and_both _ _ r6 in
    let years = at_most _ _ year_to in
    (
      record {
        date = record {
          year_from = at_most _ _ year_from;
          year_to = ground arith;
          month_from = at_most _ _ month_from;
          month_to = at_most _ _ month_to;
          day_from = at_most _ _ day_from;
          day_to = at_most _ _ day_to;
        };
        number = equal _ _ number;
        of_year = equal _ _ of_year;
      },
      years,
    )

march_to_date_small : (y d m : ℕ) → (march_to_date y d m).1 < 2 ^ 16
unfolding march_to_date
march_to_date_small y d m = ground arith

-- The day of a year has at most 366 values, so it fits its word.
doy_small : (n : ℕ) → (rdn_to_ymd n).1 < 2 ^ 16
unfolding rdn_to_ymd
doy_small n = march_to_date_small _ _ _

-- `k` cycles later
later_Numbered :
    (n k : ℕ)
    → n < 146097
    → n + 146097 * k < 3652059
    → Numbered (n + 146097 * k) ((rdn_to_ymd (n + 146097 * k)).0) (rdn_to_ymd (n + 146097 * k)).1
later_Numbered n k first small =
    let (i, years) = first_cycle n first in
    let t = (rdn_to_ymd n).0 in
    let fits : t.year + 400 * k ≤ 9999 = ground arith in
    rw (rdn_to_ymd_shift n k small) (record {
      date = record {
        year_from = omega (arith, i.date.year_from);
        year_to = fits;
        month_from = i.date.month_from;
        month_to = i.date.month_to;
        day_from = i.date.day_from;
        day_to = rw (month_days_shift t.year k t.month) i.date.day_to;
      };
      number =
          ymd_to_rdn_shift t.year k t.month t.day i.date.year_from (omega arith) i.date.month_from
            i.date.month_to
          ∙ ap (λ x. x + 146097 * k) i.number;
      of_year =
          yd_to_rdn_shift t.year k _ i.date.year_from (omega arith) (doy_small n)
          ∙ ap (λ x. x + 146097 * k) i.of_year
          ∙ omega arith;
    })

-- Every day from 0001-01-01 to 9999-12-31, counted from 0, has a date of the calendar from which
-- `ymd_to_rdn` finds the day again, and a day of the year from which `yd_to_rdn` finds the next one's number.
pub rdn_to_ymd-Numbered : (n : ℕ) → n < 3652059 → Numbered n ((rdn_to_ymd n).0) (rdn_to_ymd n).1
rdn_to_ymd-Numbered n small =
    let split : n % 146097 + 146097 * (n / 146097) ≡ n = omega arith in
    rw split at (later_Numbered (n % 146097) (n / 146097) (omega arith) (omega arith))

-- Every time up to MAX_DATE_TIME is the sum of what `datetime_from_ymd` and `datetime_from_hmsu` make
-- of the parts that `datetime_decode` finds, and these are a date of the calendar and a time of day.
pub from_parts-datetime_decode :
    (dt : ℕ)
    → dt ≤ max_date_time
    → let (t, x) = datetime_decode dt in
      (datetime_from_ymd t.year t.month t.day + datetime_from_hmsu x.hour x.minute x.second x.usec
        ≡ dt)
      × IsDate t
      × (x.hour < 24)
      × (x.minute < 60)
      × (x.second < 60)
      × (x.usec < ticks_per_second)
unfolding datetime_decode datetime_from_ymd datetime_from_hmsu
from_parts-datetime_decode dt small =
    let day : u32 (dt / ticks_per_day) ≡ dt / ticks_per_day = omega arith in
    let i = rdn_to_ymd-Numbered (dt / ticks_per_day) (omega arith) in
    rw (day, i.number) (omega arith, i.date, omega arith, omega arith, omega arith, omega arith)

-- The parts of the time that lies `perday` microseconds into the day `n`
unfoldable decoded : ℕ → ℕ → Date × DayTime
decoded n perday =
    let sod = perday / ticks_per_second in
    (
      (rdn_to_ymd n).0,
      record {
        hour = u16 (sod / 60 / 60);
        minute = sod / 60 % 60;
        second = sod % 60;
        usec = perday % ticks_per_second;
      },
    )

day_time_eq :
    (x y : DayTime)
    → x.hour ≡ y.hour
    → x.minute ≡ y.minute
    → x.second ≡ y.second
    → x.usec ≡ y.usec
    → x ≡ y
day_time_eq x y p q r s = ground arith

decoded_eq :
    (n t hour minute second usec : ℕ)
    → t ≡ (hour * 3600 + minute * 60 + second) * ticks_per_second + usec
    → hour < 24
    → minute < 60
    → second < 60
    → usec < ticks_per_second
    → decoded n t
      ≡ ((rdn_to_ymd n).0, record { hour = hour; minute = minute; second = second; usec = usec })
unfolding decoded
decoded_eq n t hour minute second usec total h m s u =
    ap (λ x. ((rdn_to_ymd n).0, x))
      (day_time_eq _ _ (omega arith) (omega arith) (omega arith) (omega arith))

-- `datetime_decode` finds the date and the time of day again of a time that is put together from a
-- day of the years 1 to 9999 and a time of day in range, and `datedatetime_to_ymd` finds the date.
datetime_decode-from_hmsu :
    (n hour minute second usec : ℕ)
    → n < 3652059
    → hour < 24
    → minute < 60
    → second < 60
    → usec < ticks_per_second
    → let dt = n * ticks_per_day + datetime_from_hmsu hour minute second usec in
      (datetime_decode dt
        ≡ ((rdn_to_ymd n).0, record { hour = hour; minute = minute; second = second; usec = usec }))
      × (datedatetime_to_ymd dt ≡ (rdn_to_ymd n).0)
unfolding datetime_decode datedatetime_to_ymd decoded
datetime_decode-from_hmsu n hour minute second usec day h m s u =
    let t = datetime_from_hmsu hour minute second usec in
    let total : t ≡ (hour * 3600 + minute * 60 + second) * ticks_per_second + usec =
      unfold datetime_from_hmsu in omega arith in
    let at_day : u32 ((n * ticks_per_day + t) / ticks_per_day) ≡ n = omega arith in
    let at_time : (n * ticks_per_day + t) % ticks_per_day ≡ t = omega arith in
    (
      ap₂ decoded at_day at_time ∙ decoded_eq n t hour minute second usec total h m s u,
      ap (λ d. (rdn_to_ymd d).0) at_day,
    )

-- `datetime_decode` and the functions that put times together undo each other. A time up to
-- MAX_DATE_TIME is the sum of what `datetime_from_ymd` and `datetime_from_hmsu` make of the parts that
-- `datetime_decode` finds, which are a date of the calendar and a time of day. From the time made of a
-- day of the years 1 to 9999 and a time of day in range `datetime_decode` finds the date and the time
-- of day again, and `datedatetime_to_ymd` the date.
pub datetime_decode_lem :
    (dt n hour minute second usec : ℕ)
    → dt ≤ max_date_time
    → n < 3652059
    → hour < 24
    → minute < 60
    → second < 60
    → usec < ticks_per_second
    → (let (t, x) = datetime_decode dt in
        (datetime_from_ymd t.year t.month t.day + datetime_from_hmsu x.hour x.minute x.second x.usec
          ≡ dt)
        × IsDate t
        × (x.hour < 24)
        × (x.minute < 60)
        × (x.second < 60)
        × (x.usec < ticks_per_second))
      × (let made = n * ticks_per_day + datetime_from_hmsu hour minute second usec in
          (datetime_decode made ≡ (
            (rdn_to_ymd n).0,
            record { hour = hour; minute = minute; second = second; usec = usec },
          ))
          × (datedatetime_to_ymd made ≡ (rdn_to_ymd n).0))
datetime_decode_lem dt n hour minute second usec small day h m s u = (
  from_parts-datetime_decode dt small,
  datetime_decode-from_hmsu n hour minute second usec day h m s u,
)

wday_of : (dt : ℕ) (tm : Tm) → datetime_to_tm dt ≡ some tm → tm.wday ≡ u32 (dt / ticks_per_day) % 7
unfolding datetime_to_tm
wday_of dt tm h = ground arith

-- From the epoch to MAX_DATE_TIME, a weekday that `datetime_to_tm` gives is not the one counted from
-- Sunday as 0: the day 719162 of the epoch was a Thursday, which is 4, and a week has seven days.
pub datetime_to_tm-wday_ne :
    (dt : ℕ) (tm : Tm)
    → epoch_date_time ≤ dt
    → dt ≤ max_date_time
    → datetime_to_tm dt ≡ some tm
    → tm.wday ≢ (dt / ticks_per_day - 719162 + 4) % 7
datetime_to_tm-wday_ne dt tm from to h =
    let day = wday_of dt tm h in λ same. omega (arith, day, same)
