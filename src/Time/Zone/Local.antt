-- ===== src/Time/Zone/Local.antt =====
-- The `findLocalTime` of src/base/src/TimeZone.cc that starts from a local time.
use dws.Base.{ℕ, ◌≡◌, List, get_elem?, some}
use dws.Base.Int.{◌+ℤ◌}
use dws.Time.Zone.{Transition, LocalTime, Data}

-- Each transition names a local time of the table, by which its own local time was computed
-- (`addTransition`).
abbrev pub WellFormed : List LocalTime → List Transition → Type 0
WellFormed locals ts =
    (i : ℕ) (t : Transition)
    → get_elem? ts i ≡ some t
    → (l : LocalTime) × (get_elem? locals t.local_time_index ≡ some l)
      × (t.local_time ≡ t.utc_time +ℤ l.utc_offset)

module _ (locals : List LocalTime) (ts : List Transition) (w : WellFormed locals ts) where
  abbrev zone : Data
  zone = record { transitions = ts; local_times = locals }
