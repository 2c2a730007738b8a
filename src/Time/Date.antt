-- ===== src/Time/Date.antt =====
-- Time/Date models class Date: src/base/include/Date.h and src/base/src/Date.cc.
-- A C `int` is an integer here: the definitions compute what the code does as long as no intermediate
-- value leaves 32 bits.
pub mod Civil
pub mod Exact
pub mod Range
pub mod RoundTrip
mod Tests
use dws.Base.{zero, suc, Bool, true, false}
use dws.Base.Int.{ℤ, pos, ◌+ℤ◌, ◌-ℤ◌, ◌*ℤ◌, tdiv, tmod, cast8, ltb_ℤ}

pub record YearMonthDay : Type 0 where
  pub year : ℤ
  pub month : ℤ
  pub day : ℤ

unfoldable pub get_julian_day_number : ℤ → ℤ → ℤ → ℤ
get_julian_day_number year month day =
    let a = tdiv (pos 14 -ℤ month) 12 in
    let y = year +ℤ pos 4800 -ℤ a in
    let m = month +ℤ pos 12 *ℤ a -ℤ pos 3 in
    day
    +ℤ tdiv (pos 153 *ℤ m +ℤ pos 2) 5
    +ℤ y *ℤ pos 365
    +ℤ tdiv y 4
    -ℤ tdiv y 100
    +ℤ tdiv y 400
    -ℤ pos 32045

unfoldable pub get_year_month_day : ℤ → YearMonthDay
get_year_month_day julian_day_number =
    let a = julian_day_number +ℤ pos 32044 in
    let b = tdiv (pos 4 *ℤ a +ℤ pos 3) 146097 in
    let c = a -ℤ tdiv (b *ℤ pos 146097) 4 in
    let d = tdiv (pos 4 *ℤ c +ℤ pos 3) 1461 in
    let e = c -ℤ tdiv (pos 1461 *ℤ d) 4 in
    let m = tdiv (pos 5 *ℤ e +ℤ pos 2) 153 in
    record {
      year = b *ℤ pos 100 +ℤ d -ℤ pos 4800 +ℤ tdiv m 10;
      month = cast8 (m +ℤ pos 3 -ℤ pos 12 *ℤ tdiv m 10);
      day = cast8 (e -ℤ tdiv (pos 153 *ℤ m +ℤ pos 2) 5 +ℤ pos 1);
    }

pub record Date : Type 0 where
  pub julian_day_number : ℤ

-- `Date(year, month, day)`
unfoldable pub of_civil : ℤ → ℤ → ℤ → Date
unfolding get_julian_day_number
of_civil year month day = record { julian_day_number = get_julian_day_number year month day }

-- `kJulianDayOf1970_01_01`
unfoldable pub julian_day_of_1970_01_01 : ℤ
unfolding get_julian_day_number
julian_day_of_1970_01_01 = get_julian_day_number (pos 1970) (pos 1) (pos 1)

unfoldable pub is_valid : Date → Bool
is_valid d = ltb_ℤ (pos 0) d.julian_day_number

unfoldable pub year_month_day : Date → YearMonthDay
unfolding get_year_month_day
year_month_day d = get_year_month_day d.julian_day_number

unfoldable pub week_day : Date → ℤ
week_day d = tmod (d.julian_day_number +ℤ pos 1) 7

unfoldable pub less : Date → Date → Bool
less x y = ltb_ℤ x.julian_day_number y.julian_day_number
