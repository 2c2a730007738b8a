-- ===== src/Time/Date/RoundTrip.antt =====
-- Dates and day numbers are inverse to one another.
use dws.Base.{ℕ, ◌+◌, ◌-◌, ◌*◌, ◌/◌, ◌%◌, ◌≤◌, ◌≡◌, ap, ◌∙◌, arith}
use dws.Base.Int.{pos}
use dws.Time.Date.{get_julian_day_number, get_year_month_day}
use dws.Time.Date.Civil.{
  IsCivil, count_year, count_month, civil_bounds, month_start, century_of_day, year_of_day,
  month_of_day,
}
use dws.Time.Date.Range.{
  SumFits, PartsFit, SumFits-small, PartsFit-small, last_day, days_in_month-31,
}
use dws.Time.Date.Exact.{
  day_number, get_julian_day_number_pos, get_year_month_day_pos, century, day_of_century,
  year_of_century, day_of_year, month_of_year, first_day, day_of_year_bounds,
}

module _ (y m d : ℕ) (v : IsCivil y m d) where
  -- The century of the count, the year in it, and the days of that year before the date.
  abbrev b : ℕ
  b = count_year y m / 100

  abbrev r : ℕ
  r = count_year y m % 100

  abbrev e : ℕ
  e = month_start (count_month m) + (d - 1)

  n : ℕ
  n = day_number y m d

  day_number_split : (n + 32044 ≡ b * 146097 / 4 + (365 * r + r / 4 + e)) × (first_day ≤ n)
  unfolding n
  day_number_split = (omega (arith, v), omega (arith, v))

  century_lem : century n ≡ b
  century_lem =
      ap (λ t. (4 * t + 3) / 146097) day_number_split.0
      ∙ century_of_day b (365 * r + r / 4 + e) (civil_bounds y m d v).3

  day_of_century_lem : day_of_century n ≡ 365 * r + r / 4 + e
  day_of_century_lem = omega (arith, day_number_split.0, century_lem)

  year_of_century_lem : year_of_century n ≡ r
  year_of_century_lem =
      ap (λ t. (4 * t + 3) / 1461) day_of_century_lem ∙ year_of_day r e (civil_bounds y m d v).2

  day_of_year_lem : day_of_year n ≡ e
  day_of_year_lem = omega (arith, day_of_century_lem, year_of_century_lem)

  month_of_year_lem : month_of_year n ≡ count_month m
  month_of_year_lem =
      ap (λ t. (5 * t + 2) / 153) day_of_year_lem
      ∙ month_of_day (count_month m) (d - 1) (civil_bounds y m d v).0 (civil_bounds y m d v).1

  year_month_day-back :
      get_year_month_day (get_julian_day_number (pos y) (pos m) (pos d))
      ≡ record { year = pos y; month = pos m; day = pos d }
  unfolding n
  year_month_day-back =
      ap get_year_month_day (get_julian_day_number_pos y m d v.month_low v.month_high v.day_low)
      ∙ get_year_month_day_pos n day_number_split.1
      ∙ λ i. record { year = pos (year_back i); month = pos (month_back i); day = pos (day_back i) }
    where
      year_back : century n * 100 + year_of_century n + month_of_year n / 10 - 4800 ≡ y
      year_back = omega (arith, century_lem, year_of_century_lem, month_of_year_lem, v)

      month_back : month_of_year n + 3 - 12 * (month_of_year n / 10) ≡ m
      month_back = omega (arith, month_of_year_lem, v)

      day_back : day_of_year n - month_start (month_of_year n) + 1 ≡ d
      day_back = omega (arith, day_of_year_lem, ap month_start month_of_year_lem, v)

  -- The day number of a civil date, from the year 0 to 1400000, reads back as that date, and no value
  -- that the code computes on the way leaves 32 bits.
  pub year_month_day-julian_day_number :
      y ≤ 1400000
      → (get_year_month_day (get_julian_day_number (pos y) (pos m) (pos d))
          ≡ record { year = pos y; month = pos m; day = pos d })
        × SumFits y m d
        × PartsFit (day_number y m d)
  year_month_day-julian_day_number small =
      (year_month_day-back, SumFits-small y m d v small, PartsFit-small (day_number y m d) below)
    where
      day_high : d ≤ 31
      day_high = days_in_month-31 y m d v.day_high

      below : day_number y m d ≤ last_day
      below = omega (arith, v, small, day_high)

module _ (n : ℕ) (h : first_day ≤ n) where
  abbrev back_year : ℕ
  back_year = century n * 100 + year_of_century n + month_of_year n / 10 - 4800

  abbrev back_month : ℕ
  back_month = month_of_year n + 3 - 12 * (month_of_year n / 10)

  abbrev back_day : ℕ
  back_day = day_of_year n - month_start (month_of_year n) + 1

  day_number_back : day_number back_year back_month back_day ≡ n
  day_number_back = omega (arith, day_of_year_bounds n, h)

  -- From 1 January of the year 0 on, the date of a day number has that day number.
  pub julian_day_number-year_month_day :
      let t = get_year_month_day (pos n) in get_julian_day_number t.year t.month t.day ≡ pos n
  julian_day_number-year_month_day =
      ap (λ t. get_julian_day_number t.year t.month t.day) (get_year_month_day_pos n h)
      ∙ get_julian_day_number_pos back_year back_month back_day
          (omega (arith, day_of_year_bounds n)) (omega (arith, day_of_year_bounds n)) (omega arith)
      ∙ ap pos day_number_back
