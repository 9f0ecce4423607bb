-- ===== src/Datetime/Tests.antt =====
-- Runs of the calendar of src/engine/base/datetime.c.
use ats.Base.{
  ℕ, ◌⊎◌, inl, ◌==◌, if◌then◌else◌, length, get_or, List, ltb, ◌^◌, u64, ◌≡◌, ◌≢◌, ◌+◌, ◌-◌, ◌*◌,
  ◌/◌, ◌%◌, ◌<◌, refl, arith, some,
}
use ats.Datetime.{
  Tm, rdn_to_ymd, datetime_decode, datetime_from_ymd, datetime_from_hmsu, datedatetime_to_ymd,
  datetime_to_tm, ticks_per_day, ticks_per_second, epoch_date_time,
}
use ats.Datetime.Format.{datetime_format}
use ats.Datetime.Parse.{datetime_from_iso8601}
use ats.Datetime.Scan.{Holds-self}
use ats.Datetime.Text.{length-datetime_format}
use ats.Datetime.TextRoundtrip.{datetime_from_iso8601-datetime_format}
use ats.Datetime.Inside.{Agree, datetime_from_iso8601-Agree}
use ats.Datetime.Roundtrip.{
  IsDate, Numbered, rdn_to_ymd-Numbered, datetime_decode_lem, datetime_to_tm-wday_ne,
}

rdn_to_ymd-Numbered_example : Numbered 719162 ((rdn_to_ymd 719162).0) (rdn_to_ymd 719162).1
rdn_to_ymd-Numbered_example = rdn_to_ymd-Numbered 719162 (omega arith)

-- 2014-07-01 12:34:56.789012
abbrev noon : ℕ
noon = 63539814896789012

datetime_decode_lem_example :
    (let (t, x) = datetime_decode noon in
      (datetime_from_ymd t.year t.month t.day + datetime_from_hmsu x.hour x.minute x.second x.usec
        ≡ noon)
      × IsDate t
      × (x.hour < 24)
      × (x.minute < 60)
      × (x.second < 60)
      × (x.usec < ticks_per_second))
    × (let made = 735414 * ticks_per_day + datetime_from_hmsu 12 34 56 789012 in
        (datetime_decode made
          ≡ ((rdn_to_ymd 735414).0, record { hour = 12; minute = 34; second = 56; usec = 789012 }))
        × (datedatetime_to_ymd made ≡ (rdn_to_ymd 735414).0))
datetime_decode_lem_example =
    datetime_decode_lem noon 735414 12 34 56 789012 (omega arith) (omega arith) (omega arith)
      (omega arith) (omega arith) (omega arith)

-- The epoch, a Thursday
abbrev epoch_tm : Tm
epoch_tm = record { mday = 1; yday = 0; mon = 0; year = 70; wday = 3; sec = 0; min = 0; hour = 0 }

datetime_to_tm-epoch : datetime_to_tm epoch_date_time ≡ some epoch_tm
unfolding datetime_to_tm
datetime_to_tm-epoch = refl

datetime_to_tm-wday_ne_example : epoch_tm.wday ≢ (epoch_date_time / ticks_per_day - 719162 + 4) % 7
datetime_to_tm-wday_ne_example =
    datetime_to_tm-wday_ne epoch_date_time epoch_tm (omega arith) (omega arith) datetime_to_tm-epoch

-- The text of that time in the zone +08:00, "2014-07-01T12:34:56.000789012+08:00" and a NUL
abbrev noon_text : List ℕ
noon_text = (datetime_format 40 noon 480).1

noon-fits : (datetime_format 40 noon 480).0 ≢ 0
unfolding datetime_format
noon-fits e = omega (arith, e)

noon-read : datetime_from_iso8601 (λ i. get_or noon_text i 0) 35 ≡ some 63539786096000789
unfolding datetime_format datetime_from_iso8601
noon-read = refl

length-datetime_format_example :
    let (n, text) = datetime_format 40 noon 480 in
    (length text ≡ (if n == 0 then 0 else n + 6)) × ((n ≡ 0) ⊎ (n < 40))
length-datetime_format_example = length-datetime_format 40 noon 480

datetime_from_iso8601-datetime_format_example :
    datetime_from_iso8601 (λ i. get_or noon_text i 0) (length noon_text - 1)
    ≡ some (u64 (noon - 789012 + 789 + (2 ^ 64 - 480) * 60000000))
datetime_from_iso8601-datetime_format_example =
    datetime_from_iso8601-datetime_format (λ i. get_or noon_text i 0) 40 noon 480 (omega arith)
      (inl (omega arith)) noon-fits (Holds-self noon_text)

-- The same text, cut off inside its zone and with digits behind
abbrev cut_off : ℕ → ℕ
cut_off i = if ltb i 32 then get_or noon_text i 0 else 49

noon-Agree : Agree (λ i. get_or noon_text i 0) cut_off 32
noon-Agree i h = ground arith

datetime_from_iso8601-Agree_example :
    datetime_from_iso8601 (λ i. get_or noon_text i 0) 32 ≡ datetime_from_iso8601 cut_off 32
datetime_from_iso8601-Agree_example =
    datetime_from_iso8601-Agree (λ i. get_or noon_text i 0) cut_off 32 noon-Agree
