-- ===== src/Time/Date/Exact.antt =====
-- From the year 0 on no intermediate value is negative, so the code computes in natural numbers.
use dws.Base.{ℕ, ◌+◌, ◌-◌, ◌*◌, ◌/◌, ◌%◌, ◌≤◌, ◌<◌, ◌≡◌, ap, arith}
use dws.Base.Int.{ℤ, pos, ◌+ℤ◌, ◌-ℤ◌, +ℤ_pos, -ℤ_pos, *ℤ_pos, cast8, cast8_pos}
use dws.Time.Date.{YearMonthDay, get_julian_day_number, get_year_month_day}
use dws.Time.Date.Civil.{month_start, year_start}

-- The day number of a civil date, in natural numbers.
abbrev pub day_number : ℕ → ℕ → ℕ → ℕ
day_number y m d =
    let a : ℕ = (14 - m) / 12 in
    d + month_start (m + 12 * a - 3) + year_start (y + 4800 - a) - 32045

pub get_julian_day_number_pos :
    (y m d : ℕ)
    → 1 ≤ m
    → m ≤ 12
    → 1 ≤ d
    → get_julian_day_number (pos y) (pos m) (pos d) ≡ pos (day_number y m d)
unfolding get_julian_day_number
get_julian_day_number_pos y m d h k l =
    simp (+ℤ_pos, *ℤ_pos, -ℤ_pos, in_year, in_march, in_count, centuries, epoch)
      (ap pos (omega arith))
  where
    in_year : m ≤ 14
    in_year = omega arith

    in_march : 3 ≤ m + 12 * ((14 - m) / 12)
    in_march = omega arith

    in_count : (14 - m) / 12 ≤ y + 4800
    in_count = omega arith

    centuries :
        (y + 4800 - (14 - m) / 12) / 100
        ≤ d
          + (153 * (m + 12 * ((14 - m) / 12) - 3) + 2) / 5
          + (y + 4800 - (14 - m) / 12) * 365
          + (y + 4800 - (14 - m) / 12) / 4
    centuries = omega arith

    epoch :
        32045
        ≤ d
          + (153 * (m + 12 * ((14 - m) / 12) - 3) + 2) / 5
          + (y + 4800 - (14 - m) / 12) * 365
          + (y + 4800 - (14 - m) / 12) / 4
          - (y + 4800 - (14 - m) / 12) / 100
          + (y + 4800 - (14 - m) / 12) / 400
    epoch = omega arith

-- The parts of a day number, as the code computes them.
abbrev pub century : ℕ → ℕ
century n = (4 * (n + 32044) + 3) / 146097

abbrev pub day_of_century : ℕ → ℕ
day_of_century n = n + 32044 - century n * 146097 / 4

abbrev pub year_of_century : ℕ → ℕ
year_of_century n = (4 * day_of_century n + 3) / 1461

abbrev pub day_of_year : ℕ → ℕ
day_of_year n = day_of_century n - 1461 * year_of_century n / 4

abbrev pub month_of_year : ℕ → ℕ
month_of_year n = (5 * day_of_year n + 2) / 153

-- The day of 1 January of the year 0.
abbrev pub first_day : ℕ
first_day = 1721060

pub day_of_year_bounds :
    (n : ℕ)
    → (century n * 146097 / 4 ≤ n + 32044)
      × (4 * day_of_century n + 3 < 146097 + century n % 4)
      × (1461 * year_of_century n / 4 ≤ day_of_century n)
      × (4 * day_of_year n + 3 < 1461 + year_of_century n % 4)
      × (month_of_year n ≤ 11)
      × (month_start (month_of_year n) ≤ day_of_year n)
      × (year_of_century n ≤ 99)
day_of_year_bounds n = (
  in_century n,
  short_century n,
  in_year,
  short_year (day_of_century n),
  (omega (arith, short_year (day_of_century n))),
  omega arith,
  omega (arith, short_century n),
)
  where
    in_century : (k : ℕ) → century k * 146097 / 4 ≤ k + 32044
    in_century k = omega arith

    short_century : (k : ℕ) → 4 * day_of_century k + 3 < 146097 + century k % 4
    short_century k = omega arith

    in_year : 1461 * year_of_century n / 4 ≤ day_of_century n
    in_year = omega arith

    short_year :
        (c : ℕ) → 4 * (c - 1461 * ((4 * c + 3) / 1461) / 4) + 3 < 1461 + ((4 * c + 3) / 1461) % 4
    short_year c = omega arith

year_shift : (a b : ℕ) → 4800 ≤ a + b → pos a -ℤ pos 4800 +ℤ pos b ≡ pos (a + b - 4800)
unfolding ◌-ℤ◌ ◌+ℤ◌
year_shift a b h = ground arith

module _ (n : ℕ) (h : first_day ≤ n) where
  year_nonneg : 4800 ≤ century n * 100 + year_of_century n + month_of_year n / 10
  year_nonneg = omega (arith, h)

  pub get_year_month_day_pos : get_year_month_day (pos n) ≡ record {
    year = pos (century n * 100 + year_of_century n + month_of_year n / 10 - 4800);
    month = pos (month_of_year n + 3 - 12 * (month_of_year n / 10));
    day = pos (day_of_year n - month_start (month_of_year n) + 1);
  }
  unfolding get_year_month_day
  get_year_month_day_pos =
      simp
        (+ℤ_pos, *ℤ_pos, -ℤ_pos, bounds.0, bounds.2, bounds.5, whole_year, small_month, small_day)
        (ap with_year year_lem)
    where
      small_month :
          cast8 (pos (month_of_year n + 3 - 12 * (month_of_year n / 10)))
          ≡ pos (month_of_year n + 3 - 12 * (month_of_year n / 10))
      small_month = cast8_pos _ (omega arith)

      small_day :
          cast8 (pos (day_of_year n - month_start (month_of_year n) + 1))
          ≡ pos (day_of_year n - month_start (month_of_year n) + 1)
      small_day = cast8_pos _ (omega arith)

      with_year : ℤ → YearMonthDay
      with_year y = record {
        year = y;
        month = pos (month_of_year n + 3 - 12 * (month_of_year n / 10));
        day = pos (day_of_year n - month_start (month_of_year n) + 1);
      }

      year_lem :
          pos (century n * 100 + year_of_century n) -ℤ pos 4800 +ℤ pos (month_of_year n / 10)
          ≡ pos (century n * 100 + year_of_century n + month_of_year n / 10 - 4800)
      year_lem = year_shift (century n * 100 + year_of_century n) (month_of_year n / 10) year_nonneg

      bounds :
          (century n * 146097 / 4 ≤ n + 32044)
          × (4 * day_of_century n + 3 < 146097 + century n % 4)
          × (1461 * year_of_century n / 4 ≤ day_of_century n)
          × (4 * day_of_year n + 3 < 1461 + year_of_century n % 4)
          × (month_of_year n ≤ 11)
          × (month_start (month_of_year n) ≤ day_of_year n)
          × (year_of_century n ≤ 99)
      bounds = day_of_year_bounds n

      whole_year : 12 * (month_of_year n / 10) ≤ month_of_year n + 3
      whole_year = omega arith
