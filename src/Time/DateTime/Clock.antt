-- ===== src/Time/DateTime/Clock.antt =====
-- `fillHMS` of src/base/src/TimeZone.cc: from which second of the day on it is wrong.
use dws.Base.{ℕ, suc, ◌/◌, ◌%◌, ◌≤◌, ◌<◌, ◌≡◌, ap, sym, ◌∙◌, arith, ◌↔◌}
use dws.Base.Int.{
  ℤ, pos, negsuc, pos_part, neg_part, sub_ℕ, ◌+ℤ◌, ◌*ℤ◌, tdiv, tmod, cast8, cast8_pos, cast8_lem,
  cast8_le, *ℤ_numeral, +ℤ_parts, eq_of_parts, *ℤ_pos, +ℤ_pos,
}
use dws.Time.DateTime.{Hms, fill_hms, seconds_in_day}

-- The seconds of a day that a clock shows.
abbrev pub shown : Hms → ℤ
shown t = seconds_in_day t.hour t.minute t.second

negated : (n : ℕ) → (pos_part (sub_ℕ 0 n) ≡ 0) × (neg_part (sub_ℕ 0 n) ≡ n)
negated n = ground arith

-- Hours and minutes taken from a count of minutes that fits an `int8_t` make up that count.
hours_minutes :
    (c : ℤ)
    → pos_part c ≤ 127
    → neg_part c ≤ 128
    → (s : ℤ) → seconds_in_day (cast8 (tdiv c 60)) (cast8 (tmod c 60)) s ≡ c *ℤ pos 60 +ℤ s
unfolding seconds_in_day
hours_minutes (pos a) h k s =
    rw
      (
        cast8_lem (pos (a / 60)) (omega arith) (omega arith),
        cast8_lem (pos (a % 60)) (omega arith) (omega arith),
        *ℤ_pos (a / 60) 3600,
        *ℤ_pos (a % 60) 60,
        *ℤ_pos a 60,
        +ℤ_pos,
      )
      (ap (λ n. pos n +ℤ s) (omega arith))
hours_minutes (negsuc a) h k s =
    rw
      (
        cast8_lem (sub_ℕ 0 (suc a / 60)) (omega (arith, negated (suc a / 60)))
            (omega (arith, negated (suc a / 60))),
        cast8_lem (sub_ℕ 0 (suc a % 60)) (omega (arith, negated (suc a % 60)))
            (omega (arith, negated (suc a % 60))),
      )
      (eq_of_parts (sub_ℕ 0 (suc a / 60) *ℤ pos 3600 +ℤ sub_ℕ 0 (suc a % 60) *ℤ pos 60 +ℤ s)
        (negsuc a *ℤ pos 60 +ℤ s)
        (omega (
          arith,
          negated (suc a / 60),
          negated (suc a % 60),
          *ℤ_numeral (sub_ℕ 0 (suc a / 60)) 3600,
          *ℤ_numeral (sub_ℕ 0 (suc a % 60)) 60,
          *ℤ_numeral (negsuc a) 60,
          +ℤ_parts,
        )))

shown_lem : (s : ℕ) → shown (fill_hms (pos s)) ≡ cast8 (pos (s / 60)) *ℤ pos 60 +ℤ pos (s % 60)
unfolding fill_hms
shown_lem s =
    ap
      (λ z.
        seconds_in_day (cast8 (tdiv (cast8 (pos (s / 60))) 60))
          (cast8 (tmod (cast8 (pos (s / 60))) 60)) z)
      (cast8_lem (pos (s % 60)) (omega arith) (omega arith))
    ∙ hours_minutes (cast8 (pos (s / 60))) (omega (arith, cast8_le (pos (s / 60))))
        (omega (arith, cast8_le (pos (s / 60)))) (pos (s % 60))

-- The clock shows the second of the day that it was given exactly up to 02:07:59: from minute 128
-- on the count of minutes does not fit its `int8_t`.
pub fill_hms_right : (s : ℕ) → (shown (fill_hms (pos s)) ≡ pos s) ↔ (s < 7680)
fill_hms_right s = (only, right)
  where
    only : shown (fill_hms (pos s)) ≡ pos s → s < 7680
    only e = omega (
      arith,
      cast8_le (pos (s / 60)),
      *ℤ_numeral (cast8 (pos (s / 60))) 60,
      +ℤ_parts (cast8 (pos (s / 60)) *ℤ pos 60) (pos (s % 60)),
      ap pos_part (sym (shown_lem s) ∙ e),
      ap neg_part (sym (shown_lem s) ∙ e),
    )

    right : s < 7680 → shown (fill_hms (pos s)) ≡ pos s
    right h =
        shown_lem s ∙ rw (cast8_pos (s / 60) (omega arith), *ℤ_pos, +ℤ_pos) (ap pos (omega arith))
