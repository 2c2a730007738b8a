-- ===== src/Time/Zone/Tests.antt =====
-- A zone that is an hour ahead of UTC, and two from second 1000 to second 5000.
use dws.Base.{◌≡◌, arith, List, [], ◌∷◌, true, false}
use dws.Base.Int.{pos}
use dws.Time.Zone.{Transition, LocalTime, Data, find_local_time}
use dws.Time.Zone.Lookup.{latest, in_force, find_local_time_lem}

abbrev winter : LocalTime
winter = record { utc_offset = pos 3600; is_dst = false; index = 0 }

abbrev summer : LocalTime
summer = record { utc_offset = pos 7200; is_dst = true; index = 4 }

abbrev locals : List LocalTime
locals = winter ∷ summer ∷ []

abbrev first : Transition
first = record { utc_time = pos 1000; local_time = pos 8200; local_time_index = 1 }

abbrev second : Transition
second = record { utc_time = pos 5000; local_time = pos 8600; local_time_index = 0 }

abbrev zone : Data
zone = record { transitions = first ∷ second ∷ []; local_times = locals }

find_local_time_lem_example :
    find_local_time zone (pos 1200)
    ≡ in_force locals (latest (λ t. t.utc_time) (first ∷ second ∷ []) (pos 1200))
find_local_time_lem_example = find_local_time_lem zone (pos 1200) ((omega arith, tt), (tt, tt))
