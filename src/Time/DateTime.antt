-- ===== src/Time/DateTime.antt =====
-- Time/DateTime models struct DateTime and the conversions between it and seconds since the epoch:
-- fillHMS, BreakTime, toUTCTime and fromUTCTime of src/base/src/TimeZone.cc.
pub mod Clock
pub mod RoundTrip
mod Tests
use dws.Base.{ℕ, zero, suc, true, false, if◌then◌else◌}
use dws.Base.Int.{ℤ, pos, ◌+ℤ◌, ◌-ℤ◌, ◌*ℤ◌, tdiv, tmod, ltb_ℤ, cast8, cast32}
use dws.Time.Date.{julian_day_of_1970_01_01, of_civil, year_month_day}

pub record DateTime : Type 0 where
  pub year : ℤ
  pub month : ℤ
  pub day : ℤ
  pub hour : ℤ
  pub minute : ℤ
  pub second : ℤ

abbrev pub seconds_per_day : ℕ
seconds_per_day = 86400

pub record Hms : Type 0 where
  pub hour : ℤ
  pub minute : ℤ
  pub second : ℤ

-- `minutes` is an `int8_t` in the source.
unfoldable pub fill_hms : ℤ → Hms
unfolding cast8
fill_hms seconds =
    let minutes = cast8 (tdiv seconds 60) in
    record {
      hour = cast8 (tdiv minutes 60);
      minute = cast8 (tmod minutes 60);
      second = cast8 (tmod seconds 60);
    }

-- The days and the seconds of the day, from 0 on, of a time.
unfoldable pub split_day : ℤ → ℤ × ℤ
unfolding cast32
split_day t =
    let seconds = cast32 (tmod t seconds_per_day) in
    let days = cast32 (tdiv t seconds_per_day) in
    if ltb_ℤ seconds (pos 0)
    then (days -ℤ pos 1, seconds +ℤ pos seconds_per_day)
    else (days, seconds)

unfoldable pub break_time : ℤ → DateTime
unfolding split_day fill_hms julian_day_of_1970_01_01 year_month_day
break_time t =
    let (days, seconds) = split_day t in
    let hms = fill_hms seconds in
    let ymd = year_month_day (record { julian_day_number = days +ℤ julian_day_of_1970_01_01 }) in
    record {
      year = ymd.year;
      month = ymd.month;
      day = ymd.day;
      hour = hms.hour;
      minute = hms.minute;
      second = hms.second;
    }

-- `toUTCTime`
pub to_utc_time : ℤ → DateTime
unfolding break_time
to_utc_time seconds_since_epoch = break_time seconds_since_epoch

unfoldable pub seconds_in_day : ℤ → ℤ → ℤ → ℤ
seconds_in_day hour minute second = hour *ℤ pos 3600 +ℤ minute *ℤ pos 60 +ℤ second

unfoldable pub from_utc_time : DateTime → ℤ
unfolding seconds_in_day of_civil julian_day_of_1970_01_01
from_utc_time dt =
    let date = of_civil dt.year dt.month dt.day in
    let days = date.julian_day_number -ℤ julian_day_of_1970_01_01 in
    days *ℤ pos seconds_per_day +ℤ seconds_in_day dt.hour dt.minute dt.second
