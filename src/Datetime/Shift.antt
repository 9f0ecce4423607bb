-- ===== src/Datetime/Shift.antt =====
-- src/engine/base/datetime.c: the calendar 400 years, which are 146097 days, later.
use ats.Base.{ℕ, ◌+◌, ◌-◌, ◌*◌, ◌/◌, ◌%◌, ◌^◌, ◌≤◌, ◌<◌, ◌≡◌, refl, u16, u32, arith}
use ats.Datetime.{
  leap_year, month_days, Date, march_to_date, rdn_to_ymd, yd_to_rdn, normalise, ymd_to_rdn,
}

leap_year_shift : (y k : ℕ) → leap_year (y + 400 * k) ≡ leap_year y
unfolding leap_year
leap_year_shift y k =
    let a : (y + 400 * k) % 4 ≡ y % 4 = omega arith in
    let b : (y + 400 * k) % 100 ≡ y % 100 = omega arith in
    let c : (y + 400 * k) % 400 ≡ y % 400 = omega arith in rw (a, b, c)

pub yd_to_rdn_shift :
    (y k d : ℕ)
    → 0 < y
    → y + 400 * k < 2 ^ 16
    → d < 2 ^ 16
    → yd_to_rdn (y + 400 * k) d ≡ yd_to_rdn y d + 146097 * k
unfolding yd_to_rdn
yd_to_rdn_shift y k d pos small day = omega arith

normalise_month : (y m : ℕ) → 1 ≤ m → m ≤ 12 → normalise y m ≡ (y, m)
unfolding normalise
normalise_month y m from to = ground arith

pub ymd_to_rdn_shift :
    (y k m d : ℕ)
    → 0 < y
    → y + 400 * k < 2 ^ 16
    → 1 ≤ m
    → m ≤ 12
    → ymd_to_rdn (y + 400 * k) m d ≡ ymd_to_rdn y m d + 146097 * k
unfolding ymd_to_rdn
ymd_to_rdn_shift y k m d pos small from to =
    rw (normalise_month (y + 400 * k) m from to, normalise_month y m from to, leap_year_shift y k)
      (yd_to_rdn_shift y k _ pos small (omega arith))

pub month_days_shift : (y k m : ℕ) → month_days (y + 400 * k) m ≡ month_days y m
unfolding month_days
month_days_shift y k m = rw (leap_year_shift y k)

-- A date `k` cycles of 400 years later
abbrev pub later : ℕ → Date → Date
later k t = record t { year = t.year + 400 * k }

march_to_date_shift :
    (y k d m : ℕ)
    → y + 400 * k + 1 < 2 ^ 16
    → march_to_date (y + 400 * k) d m ≡ (later k ((march_to_date y d m).0), (march_to_date y d m).1)
unfolding march_to_date
march_to_date_shift y k d m small = ground (arith, leap_year_shift y k)

-- The centuries that end in a common year, the year from March, and the day of it, of the day `n`
unfoldable march_century : ℕ → ℕ
march_century n =
    let h = u32 (100 * u32 (u32 (n + 1) + 306) + 2 ^ 32 - 25) in h / 3652425 - h / 3652425 / 4

unfoldable march_year : ℕ → ℕ
march_year n =
    u16 (u32 (100 * march_century n + u32 (100 * u32 (u32 (n + 1) + 306) + 2 ^ 32 - 25)) / 36525)

unfoldable march_day : ℕ → ℕ
march_day n = u16 (march_century n + u32 (u32 (n + 1) + 306) + 2 ^ 32 - 1461 * march_year n / 4)

rdn_to_ymd-march :
    (n : ℕ)
    → rdn_to_ymd n
      ≡ march_to_date (march_year n) (march_day n) (u16 ((535 * march_day n + 48950) / 2 ^ 14))
unfolding rdn_to_ymd march_century march_year march_day
rdn_to_ymd-march n = refl

march_century_shift :
    (n k : ℕ)
    → n + 146097 * k < 3652059
    → (march_century (n + 146097 * k) ≡ march_century n + 3 * k)
      × (march_century (n + 146097 * k) < 100)
unfolding march_century
march_century_shift n k small = (omega arith, omega arith)

march_year_shift :
    (n k : ℕ)
    → n + 146097 * k < 3652059
    → (march_year (n + 146097 * k) ≡ march_year n + 400 * k) × (march_year (n + 146097 * k) < 10000)
unfolding march_year
march_year_shift n k small =
    let (c, bound) = march_century_shift n k small in (omega arith, omega arith)

march_day_shift : (n k : ℕ) → n + 146097 * k < 3652059 → march_day (n + 146097 * k) ≡ march_day n
unfolding march_day
march_day_shift n k small =
    let (c, cs) = march_century_shift n k small in
    let (y, ys) = march_year_shift n k small in omega arith

pub rdn_to_ymd_shift :
    (n k : ℕ)
    → n + 146097 * k < 3652059
    → rdn_to_ymd (n + 146097 * k) ≡ (later k ((rdn_to_ymd n).0), (rdn_to_ymd n).1)
rdn_to_ymd_shift n k small =
    let (y, bound) = march_year_shift n k small in
    rw (rdn_to_ymd-march n, rdn_to_ymd-march (n + 146097 * k), march_day_shift n k small, y)
      (march_to_date_shift (march_year n) k (march_day n) _ (omega (arith, y, bound)))
