-- ===== src/Time/Zone.antt =====
-- Time/Zone models class TimeZone: src/base/include/TimeZone.h and src/base/src/TimeZone.cc, the
-- tables of transitions and the two lookups in them. The sums of times and offsets are integers: they are
-- those of the code where they have 64 bits.
pub mod Lookup
pub mod Local
mod Tests
use dws.Base.{
  ℕ, zero, suc, ◌-◌, List, [], ◌∷◌, ◌++◌, length, get_elem?, none, some, Bool, true, false,
  if◌then◌else◌, ◌==◌, ltb, Result, ok, err, ◌>>=◌, ◌>>◌, assert, out_of_range,
}
use dws.Base.Int.{ℤ, pos, ◌+ℤ◌, ◌-ℤ◌, ltb_ℤ}
use dws.Time.DateTime.{DateTime, break_time, from_utc_time}

pub record Transition : Type 0 where
  pub utc_time : ℤ
  pub local_time : ℤ
  pub local_time_index : ℕ

pub record LocalTime : Type 0 where
  pub utc_offset : ℤ
  pub is_dst : Bool
  pub index : ℕ

pub record Data : Type 0 where
  pub transitions : List Transition
  pub local_times : List LocalTime

-- `local_times[i]`, where an index out of range is a fault.
unfoldable pub local_time_at : List LocalTime → ℕ → Result LocalTime
local_time_at ts i = elim (get_elem? ts i) [ none ↦ err out_of_range | some t ↦ ok t ]

unfoldable pub add_local_time : Data → ℤ → Bool → ℕ → Data
add_local_time d utc_offset is_dst index = record d {
  local_times =
      d.local_times ++ record { utc_offset = utc_offset; is_dst = is_dst; index = index } ∷ [];
}

-- `local_times.at` throws.
unfoldable pub add_transition : Data → ℤ → ℕ → Result Data
unfolding local_time_at
add_transition d utc_time local_time_index = do
  lt ← local_time_at d.local_times local_time_index
  ok (record d {
    transitions =
        d.transitions
        ++ record {
          utc_time = utc_time;
          local_time = utc_time +ℤ lt.utc_offset;
          local_time_index = local_time_index;
        }
          ∷ [];
  })

-- `std::upper_bound`: how many of the sorted keys are not above the value.
pub upper_bound : (Transition → ℤ) → List Transition → ℤ → ℕ
upper_bound key [] x = 0
upper_bound key (t ∷ ts) x =
    let rest = suc (upper_bound key ts x) in if ltb_ℤ x (key t) then 0 else rest

-- `transitions.empty() || x < transitions.front().key`
pub is_before : (Transition → ℤ) → List Transition → ℤ → Bool
is_before key [] x = true
is_before key (t ∷ ts) x = ltb_ℤ x (key t)

pub transition_at : List Transition → ℕ → Result Transition
transition_at ts i = elim (get_elem? ts i) [ none ↦ err out_of_range | some t ↦ ok t ]

-- The first `findLocalTime`, by UTC time.
pub find_local_time : Data → ℤ → Result LocalTime
unfolding upper_bound is_before transition_at local_time_at
find_local_time d utc_time =
    if is_before (λ t. t.utc_time) d.transitions utc_time
    then local_time_at d.local_times 0
    else (do
      let i = upper_bound (λ t. t.utc_time) d.transitions utc_time
      assert (ltb 0 i)
      t ←
          if ltb i (length d.transitions)
          then transition_at d.transitions (i - 1)
          else transition_at d.transitions (length d.transitions - 1)
      local_time_at d.local_times t.local_time_index)

-- The second before transition `i`, by the offset in force until then.
pub prior_second : Data → ℕ → Result ℤ
unfolding transition_at local_time_at
prior_second d i = do
  t ← transition_at d.transitions i
  prior ← transition_at d.transitions (i - 1)
  l ← local_time_at d.local_times prior.local_time_index
  ok (t.utc_time -ℤ pos 1 +ℤ l.utc_offset)

-- The local time of transition `i`, or of the one before it. At the first transition the source has
-- left `prior_trans` at that transition, as `0 - 1` does here.
pub choose : Data → Bool → ℕ → Result LocalTime
unfolding transition_at local_time_at
choose d post_transition i = do
  t ← transition_at d.transitions (if post_transition then i else i - 1)
  local_time_at d.local_times t.local_time_index

-- The second `findLocalTime`, by local time.
pub find_local_time_local : Data → ℤ → Bool → Result LocalTime
unfolding upper_bound is_before transition_at local_time_at prior_second choose
find_local_time_local d localtime post_transition =
    if is_before (λ t. t.local_time) d.transitions localtime
    then local_time_at d.local_times 0
    else (do
      let i = upper_bound (λ t. t.local_time) d.transitions localtime
      assert (ltb 0 i)
      if i == length d.transitions
          then (do
            t ← transition_at d.transitions (i - 1)
            local_time_at d.local_times t.local_time_index)
          else (do
            skip ← prior_second d i
            if ltb_ℤ skip localtime then choose d post_transition i else (do
              repeat ← if i - 1 == 0 then ok skip else prior_second d (i - 1)
              if ltb_ℤ repeat localtime
                  then choose d true (i - 1)
                  else choose d post_transition (i - 1))))

pub to_local_time : Data → ℤ → Result (DateTime × ℤ)
unfolding find_local_time break_time
to_local_time d seconds = do
  local ← find_local_time d seconds
  ok (break_time (seconds +ℤ local.utc_offset), local.utc_offset)

pub from_local_time : Data → DateTime → Bool → Result ℤ
unfolding find_local_time_local from_utc_time
from_local_time d localtime post_transition = do
  let local_seconds = from_utc_time localtime
  local ← find_local_time_local d local_seconds post_transition
  ok (local_seconds -ℤ local.utc_offset)
