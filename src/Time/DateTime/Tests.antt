-- ===== src/Time/DateTime/Tests.antt =====
-- Noon of 1 January 1970.
use dws.Base.{◌<◌, ◌≡◌, arith, ◌↔◌}
use dws.Time.DateTime.{break_time, from_utc_time}
use dws.Time.DateTime.RoundTrip.{epoch_day, time_of, from_utc_time-break_time}

from_utc_time-break_time_example :
    (from_utc_time (break_time (time_of epoch_day 43200)) ≡ time_of epoch_day 43200)
    ↔ (43200 < 7680)
from_utc_time-break_time_example =
    from_utc_time-break_time epoch_day 43200 (omega arith) (omega arith) (omega arith)
