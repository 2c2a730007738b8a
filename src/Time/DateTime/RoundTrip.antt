-- ===== src/Time/DateTime/RoundTrip.antt =====
-- `BreakTime` and `fromUTCTime`: which times come back. The `n` is a day number and `s` a second of
-- that day, so the days are those from 1 January of the year 0 on.
use dws.Base.{ℕ, ◌+◌, ◌*◌, ◌^◌, ◌≤◌, ◌<◌, ◌≡◌, refl, ap, sym, ◌∙◌, arith, ◌↔◌}
use dws.Base.Int.{
  ℤ, pos, pos_part, neg_part, ◌+ℤ◌, ◌-ℤ◌, ◌*ℤ◌, cast32, *ℤ_numeral, +ℤ_parts, -ℤ_parts, eq_of_parts,
  int_laws,
}
use dws.Time.Date.{julian_day_of_1970_01_01}
use dws.Time.Date.Exact.{first_day}
use dws.Time.Date.Range.{last_day}
use dws.Time.Date.RoundTrip.{julian_day_number-year_month_day}
use dws.Time.DateTime.{fill_hms, split_day, break_time, from_utc_time}
use dws.Time.DateTime.Clock.{shown, fill_hms_right}

-- 1 January 1970.
abbrev pub epoch_day : ℕ
epoch_day = 2440588

pub epoch_day_lem : julian_day_of_1970_01_01 ≡ pos epoch_day
unfolding julian_day_of_1970_01_01 ◌+ℤ◌ ◌-ℤ◌ ◌*ℤ◌
epoch_day_lem = refl

-- The time of second `s` of day `n`, in seconds since the epoch.
abbrev pub time_of : ℕ → ℕ → ℤ
time_of n s = pos (n * 86400 + s) -ℤ pos (epoch_day * 86400)

split_day_lem :
    (n s : ℕ) → n < 2 ^ 31 → s < 86400 → split_day (time_of n s) ≡ (pos n -ℤ pos epoch_day, pos s)
unfolding split_day cast32 ◌-ℤ◌ ◌+ℤ◌
split_day_lem n s h k = ground arith

module _ (n s : ℕ) (h : first_day ≤ n) (k : n ≤ last_day) (l : s < 86400) where
  days_back : pos n -ℤ pos epoch_day +ℤ julian_day_of_1970_01_01 ≡ pos n
  days_back =
      ap (λ z. pos n -ℤ pos epoch_day +ℤ z) epoch_day_lem
      ∙ eq_of_parts (pos n -ℤ pos epoch_day +ℤ pos epoch_day) (pos n) (omega int_laws)

  -- What `fromUTCTime` makes of the broken-down time: the right day, and the clock's second.
  from_utc_time-break_time_lem :
      from_utc_time (break_time (time_of n s))
      ≡ (pos n -ℤ pos epoch_day) *ℤ pos 86400 +ℤ shown (fill_hms (pos s))
  unfolding from_utc_time break_time
  from_utc_time-break_time_lem = rw (
    split_day_lem n s (omega (arith, k)) l,
    days_back,
    julian_day_number-year_month_day n h,
    epoch_day_lem,
  )

  -- A time of a day from 1 January of the year 0 to the last day on which `4 * a + 3` has 32 bits comes
  -- back from `BreakTime` and `fromUTCTime` exactly when its clock reads at most 02:07:59.
  pub from_utc_time-break_time :
      (from_utc_time (break_time (time_of n s)) ≡ time_of n s) ↔ (s < 7680)
  from_utc_time-break_time = (only, right)
    where
      only : from_utc_time (break_time (time_of n s)) ≡ time_of n s → s < 7680
      only e = (fill_hms_right s).0 (
          eq_of_parts (shown (fill_hms (pos s))) (pos s) (
            omega (
              arith,
              *ℤ_numeral (pos n -ℤ pos epoch_day) 86400,
              +ℤ_parts ((pos n -ℤ pos epoch_day) *ℤ pos 86400) (shown (fill_hms (pos s))),
              -ℤ_parts (pos n) (pos epoch_day),
              -ℤ_parts (pos (n * 86400 + s)) (pos (epoch_day * 86400)),
              ap pos_part (sym from_utc_time-break_time_lem ∙ e),
              ap neg_part (sym from_utc_time-break_time_lem ∙ e),
            )))

      right : s < 7680 → from_utc_time (break_time (time_of n s)) ≡ time_of n s
      right early =
          from_utc_time-break_time_lem
          ∙ ap (λ z. (pos n -ℤ pos epoch_day) *ℤ pos 86400 +ℤ z) ((fill_hms_right s).1 early)
          ∙ eq_of_parts ((pos n -ℤ pos epoch_day) *ℤ pos 86400 +ℤ pos s) (time_of n s) (
              omega (
                arith,
                *ℤ_numeral (pos n -ℤ pos epoch_day) 86400,
                +ℤ_parts ((pos n -ℤ pos epoch_day) *ℤ pos 86400) (pos s),
                -ℤ_parts (pos n) (pos epoch_day),
                -ℤ_parts (pos (n * 86400 + s)) (pos (epoch_day * 86400)),
              ))
