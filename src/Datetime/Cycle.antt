-- ===== src/Datetime/Cycle.antt =====
-- src/engine/base/datetime.c: the days of the first 400 years of the calendar, which are 146097.
use ats.Base.{
  ℕ, zero, suc, ◌+◌, ◌≤◌, ◌<◌, ◌≡◌, refl, Bool, true, ◌&&◌, ltb, leb, ◌==◌, if◌then◌else◌, arith,
}
use ats.Datetime.{month_days, rdn_to_ymd, yd_to_rdn, ymd_to_rdn}

all_from : ℕ → ℕ → (ℕ → Bool) → Bool
all_from b zero p = true
all_from b (suc n) p = p (b + n) && all_from b n p

all_from_sound :
    (b n : ℕ) (p : ℕ → Bool) (x : ℕ) → all_from b n p ≡ true → b ≤ x → x < b + n → p x ≡ true
unfolding all_from
all_from_sound b zero p x h le lt = absurd (omega arith)
all_from_sound b (suc n) p x h le lt = ground (arith, all_from_sound b n p x)

-- The date of the day `n` is a date of the calendar in the years 1 to 400, and is numbered `n`, and
-- so is the day of its year.
unfoldable pub good : ℕ → Bool
unfolding rdn_to_ymd ymd_to_rdn month_days yd_to_rdn
good n =
    let (t, doy) = rdn_to_ymd n in
    ymd_to_rdn t.year t.month t.day == n
    && (yd_to_rdn t.year doy == n + 1
        && (leb 1 t.month
            && (leb t.month 12
                && (leb 1 t.day
                    && (leb t.day (month_days t.year t.month)
                        && (leb 1 t.year && leb t.year (if ltb n 145731 then 399 else 400)))))))

days_0 : all_from 0 14610 good ≡ true
unfolding all_from good
days_0 = refl

days_1 : all_from 14610 14610 good ≡ true
unfolding all_from good
days_1 = refl

days_2 : all_from 29220 14610 good ≡ true
unfolding all_from good
days_2 = refl

days_3 : all_from 43830 14610 good ≡ true
unfolding all_from good
days_3 = refl

days_4 : all_from 58440 14610 good ≡ true
unfolding all_from good
days_4 = refl

days_5 : all_from 73050 14610 good ≡ true
unfolding all_from good
days_5 = refl

days_6 : all_from 87660 14610 good ≡ true
unfolding all_from good
days_6 = refl

days_7 : all_from 102270 14610 good ≡ true
unfolding all_from good
days_7 = refl

days_8 : all_from 116880 14610 good ≡ true
unfolding all_from good
days_8 = refl

days_9 : all_from 131490 14607 good ≡ true
unfolding all_from good
days_9 = refl

-- Every day of the first 400 years
pub good_day : (n : ℕ) → n < 146097 → good n ≡ true
good_day n h = ground (
  arith,
  all_from_sound 0 14610 good n days_0,
  all_from_sound 14610 14610 good n days_1,
  all_from_sound 29220 14610 good n days_2,
  all_from_sound 43830 14610 good n days_3,
  all_from_sound 58440 14610 good n days_4,
  all_from_sound 73050 14610 good n days_5,
  all_from_sound 87660 14610 good n days_6,
  all_from_sound 102270 14610 good n days_7,
  all_from_sound 116880 14610 good n days_8,
  all_from_sound 131490 14607 good n days_9,
)
