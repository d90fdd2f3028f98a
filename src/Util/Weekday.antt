-- ===== src/Util/Weekday.antt =====
-- The day of the week against a calendar that counts days.
use vnf_monitoring.Prelude.{
  ℕ, zero, suc, ◌+◌, ◌-◌, ◌*◌, ◌/◌, ◌%◌, ◌≤◌, ◌<◌, ◌≡◌, refl, ◌↔◌, Bool, true, not, ◌&&◌, ◌||◌,
  ◌==◌, ==_iff, if◌then◌else◌, arith,
}
use vnf_monitoring.Util.{Tm, mjd, find_day_of_week}

-- The Gregorian calendar from 1 January 1970 on, a Thursday.
abbrev is_leap : ℕ → Bool
is_leap y = (y % 4 == 0) && (not (y % 100 == 0) || (y % 400 == 0))

-- From July to August the long months change from odd to even.
abbrev month_length : ℕ → ℕ → ℕ
month_length y m = if m == 2 then (if is_leap y then 29 else 28) else 30 + (m + m / 8) % 2

-- The days of the `n` years from 1970 on.
days_of_years : ℕ → ℕ
days_of_years zero = 0
days_of_years (suc n) = days_of_years n + (if is_leap (1970 + n) then 366 else 365)

-- The days of the first `n` months of a year.
days_of_months : ℕ → ℕ → ℕ
days_of_months y zero = 0
days_of_months y (suc n) = days_of_months y n + month_length y (suc n)

-- The days before the first of the month `k`, from 0, of the year 1970 + n.
pub days_before : ℕ → ℕ → ℕ
days_before n k = days_of_years n + days_of_months (1970 + n) k

-- 1 for Monday, 7 for Sunday.
pub weekday : Tm → ℕ
weekday t = (days_before (t.tm_year - 70) t.tm_mon + t.tm_mday + 2) % 7 + 1

all_below : ℕ → (ℕ → Bool) → Bool
all_below zero p = true
all_below (suc n) p = p n && all_below n p

all_below-at : (n : ℕ) (p : ℕ → Bool) (x : ℕ) → all_below n p ≡ true → x < n → p x ≡ true
unfolding all_below
all_below-at zero p x h lt = absurd (omega arith)
all_below-at (suc n) p x h lt = ground (arith, all_below-at n p x)

-- The source's number of a day before the cut to 16 bits, less the day.
whole : ℕ → ℕ → ℕ
whole year mon =
    let l : ℕ = if (mon == 1) || (mon == 2) then 1 else 0 in
    14956 + (year - 1900 - l) * 36525 / 100 % 65536 + (mon + 1 + l * 12) * 306001 / 10000 % 65536

agrees : ℕ → ℕ → Bool
agrees n k = whole (1970 + n) (k + 1) == 40586 + days_before n k

calendar_table : all_below 109 (λ n. all_below 12 (agrees n)) ≡ true
unfolding all_below agrees whole days_before days_of_years days_of_months
calendar_table = refl

-- The modified Julian day.
abbrev pub julian_day : Tm → ℕ
julian_day t = 40586 + days_before (t.tm_year - 70) t.tm_mon + t.tm_mday

-- The table at a date, for the source's number.
whole_lem : (n k : ℕ) → n < 109 → k < 12 → whole (1970 + n) (k + 1) ≡ 40586 + days_before n k
unfolding agrees
whole_lem n k low mon =
    let in_year = all_below-at 109 (λ n. all_below 12 (agrees n)) n calendar_table low in
    (==_iff (whole (1970 + n) (k + 1)) (40586 + days_before n k)).0
      (all_below-at 12 (agrees n) k in_year mon)

mjd-whole : (year mon day : ℕ) → mjd year mon day ≡ (whole year mon + day) % 65536
unfolding mjd whole
mjd-whole year mon day = omega arith

whole-le : (year mon : ℕ) → year < 2100 → mon ≤ 12 → whole year mon ≤ 90000
unfolding whole
whole-le year mon h k = ground arith

-- The result is the day of the week exactly up to the modified Julian day 65535, which is
-- 22 April 2038, for the dates of the years 1970 to 2078 as `localtime_r` gives them.
pub find_day_of_week_iff :
    (t : Tm)
    → 70 ≤ t.tm_year
    → t.tm_year < 179
    → t.tm_mon < 12
    → t.tm_mday ≤ 31
    → (find_day_of_week t ≡ weekday t) ↔ (julian_day t < 65536)
unfolding find_day_of_week weekday
find_day_of_week_iff t low high mon day =
    let n = t.tm_year - 70 in
    let year : t.tm_year + 1900 ≡ 1970 + n = omega arith in
    let days = whole_lem n t.tm_mon (omega arith) mon in
    let bound = whole-le (1970 + n) (t.tm_mon + 1) (omega arith) (omega arith) in
    let e = mjd-whole (1970 + n) (t.tm_mon + 1) t.tm_mday in
    rw year (λ same. omega (arith, days, bound, e, same), λ small. omega (arith, days, bound, e))
