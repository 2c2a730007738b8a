-- ===== src/Time/Date/Tests.antt =====
-- A leap day of the calendar.
use dws.Base.{◌≡◌, arith}
use dws.Base.Int.{pos}
use dws.Time.Date.{get_julian_day_number, get_year_month_day}
use dws.Time.Date.Civil.{IsCivil, days_in_month, is_leap}
use dws.Time.Date.Range.{SumFits, PartsFit}
use dws.Time.Date.RoundTrip.{year_month_day-julian_day_number, julian_day_number-year_month_day}

leap_day-IsCivil : IsCivil 2000 2 29
unfolding days_in_month is_leap
leap_day-IsCivil = omega arith

year_month_day-julian_day_number_example :
    (get_year_month_day (get_julian_day_number (pos 2000) (pos 2) (pos 29))
      ≡ record { year = pos 2000; month = pos 2; day = pos 29 })
    × SumFits 2000 2 29
    × PartsFit 2451604
year_month_day-julian_day_number_example =
    year_month_day-julian_day_number 2000 2 29 leap_day-IsCivil (omega arith)

julian_day_number-year_month_day_runs :
    let t = get_year_month_day (pos 2451604) in
    get_julian_day_number t.year t.month t.day ≡ pos 2451604
julian_day_number-year_month_day_runs = julian_day_number-year_month_day 2451604 (omega arith)
