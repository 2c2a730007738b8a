-- ===== src/Time/Date/Civil.antt =====
-- The Gregorian calendar, counted from 1 March of the year -4800 (as src/base/src/Date.cc does),
-- over the natural numbers.
use native.Mathlib.Decide.{ℕ_discrete}
use dws.Base.{
  ℕ, ◌+◌, ◌-◌, ◌*◌, ◌/◌, ◌%◌, ◌≤◌, ◌<◌, ◌≡◌, ◌≢◌, refl, arith, Bool, ◌&&◌, ◌||◌, not, if◌then◌else◌,
  ◌==◌, ◌⊎◌,
}

unfoldable pub is_leap : ℕ → Bool
is_leap y = y % 4 == 0 && (not (y % 100 == 0) || y % 400 == 0)

-- The length of month `m`, 1 to 12.
unfoldable pub days_in_month : ℕ → ℕ → ℕ
unfolding is_leap
days_in_month y m =
    if m == 2
    then (if is_leap y then 29 else 28)
    else if m == 4 || m == 6 || m == 9 || m == 11
    then 30
    else 31

-- A day of the calendar, in a year from 0 on.
pub record IsCivil (y m d : ℕ) : Type 0 where
  pub month_low : 1 ≤ m
  pub month_high : m ≤ 12
  pub day_low : 1 ≤ d
  pub day_high : d ≤ days_in_month y m

-- Days from the start of the count to the first of the `m`-th month (March is 0) of a year.
abbrev pub month_start : ℕ → ℕ
month_start m = (153 * m + 2) / 5

-- Days before the year `y` of the count.
abbrev pub year_start : ℕ → ℕ
year_start y = y * 365 + y / 4 - y / 100 + y / 400

-- A year of the count split into its century and the rest.
pub year_start-century :
    (b r : ℕ) → r < 100 → year_start (b * 100 + r) ≡ b * 146097 / 4 + 365 * r + r / 4
year_start-century b r h = omega arith

pub century_of_day :
    (b c : ℕ) → 4 * c + 3 < 146097 + b % 4 → (4 * (b * 146097 / 4 + c) + 3) / 146097 ≡ b
century_of_day b c h = omega arith

pub year_of_day : (r e : ℕ) → 4 * e + 3 < 1461 + r % 4 → (4 * (365 * r + r / 4 + e) + 3) / 1461 ≡ r
year_of_day r e h = omega arith

pub month_of_day :
    (m d : ℕ)
    → m ≤ 11
    → d < month_start (m + 1) - month_start m
    → (5 * (month_start m + d) + 2) / 153 ≡ m
month_of_day m d h k = omega arith

-- The year of the count, and the month from March, of a month of a year.
abbrev pub count_year : ℕ → ℕ → ℕ
count_year y m = y + 4800 - (14 - m) / 12

abbrev pub count_month : ℕ → ℕ
count_month m = m + 12 * ((14 - m) / 12) - 3

-- Outside February a month has the days that `month_start` gives it.
pub other_month :
    (y m : ℕ)
    → 1 ≤ m
    → m ≤ 12
    → m ≢ 2
    → days_in_month y m ≡ month_start (count_month m + 1) - month_start (count_month m)
unfolding days_in_month
other_month y m h k l = ground arith

february : (y : ℕ) → days_in_month y 2 ≡ (if is_leap y then 29 else 28)
unfolding days_in_month
february y = refl

-- A day of February is one of 28, or the 29th of a leap year.
leap_day :
    (y d : ℕ)
    → d ≤ days_in_month y 2
    → (d ≤ 28) ⊎ ((d ≤ 29) × (y % 4 ≡ 0) × ((y % 100 ≢ 0) ⊎ (y % 400 ≡ 0)))
unfolding days_in_month is_leap
leap_day y d h = ground arith

-- Where a civil date stands in its month, year and century of the count.
pub civil_bounds :
    (y m d : ℕ)
    → IsCivil y m d
    → let e = month_start (count_month m) + (d - 1) in
      let r = count_year y m % 100 in
      (count_month m ≤ 11)
      × (d - 1 < month_start (count_month m + 1) - month_start (count_month m))
      × (4 * e + 3 < 1461 + r % 4)
      × (4 * (365 * r + r / 4 + e) + 3 < 146097 + count_year y m / 100 % 4)
civil_bounds y m d v = elim (ℕ_discrete m 2) [
  | yes two ↦
      let long = leap_day y d (rw two at v.day_high) in
      (omega (arith, v, two), omega (arith, v, two), omega (arith, v, two), omega (arith, v, two))
  | no other ↦ (
    omega (arith, v),
    omega (arith, v, other_month y m),
    omega (arith, v, other_month y m),
    omega (arith, v, other_month y m),
  )
]
