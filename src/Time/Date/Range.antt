-- ===== src/Time/Date/Range.antt =====
-- How large the values are that the code of Date computes on the way (src/base/src/Date.cc).
use dws.Base.{ℕ, ◌+◌, ◌-◌, ◌*◌, ◌/◌, ◌^◌, ◌≤◌, ◌<◌, arith}
use dws.Time.Date.Civil.{IsCivil, days_in_month, month_start}
use dws.Time.Date.Exact.{century, day_of_century, year_of_century, day_of_year, day_of_year_bounds}

-- The last day for which `4 * a + 3` has 32 bits.
abbrev pub last_day : ℕ
last_day = 536838867

-- The sum of the day number, before what is taken off.
abbrev pub SumFits : ℕ → ℕ → ℕ → Type 0
SumFits y m d =
    let a : ℕ = (14 - m) / 12 in
    let years : ℕ = y + 4800 - a in
    d + month_start (m + 12 * a - 3) + years * 365 + years / 4 + years / 400 < 2 ^ 31

-- The products of the parts of a day number.
abbrev pub PartsFit : ℕ → Type 0
PartsFit n =
    (4 * (n + 32044) + 3 < 2 ^ 31)
    × (century n * 146097 < 2 ^ 31)
    × (4 * day_of_century n + 3 < 2 ^ 31)
    × (1461 * year_of_century n < 2 ^ 31)
    × (5 * day_of_year n + 2 < 2 ^ 31)

pub days_in_month-31 : (y m d : ℕ) → d ≤ days_in_month y m → d ≤ 31
unfolding days_in_month
days_in_month-31 y m d h = ground arith

pub SumFits-small : (y m d : ℕ) → IsCivil y m d → y ≤ 1400000 → SumFits y m d
SumFits-small y m d v small = omega (arith, v, small, days_in_month-31 y m d v.day_high)

pub PartsFit-small : (n : ℕ) → n ≤ last_day → PartsFit n
PartsFit-small n h =
    let b = day_of_year_bounds n in
    (
      omega (arith, h),
      omega (arith, h),
      omega (arith, b.1),
      omega (arith, b.6),
      omega (arith, b.3, b.6),
    )
