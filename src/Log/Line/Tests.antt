-- ===== src/Log/Line/Tests.antt =====
-- Logger (src/base/src/Logging.cc) on concrete inputs.
use dws.Base.{
  ℕ, ◌≡◌, ◌⊎◌, refl, arith, Option, List, [], ◌∷◌, ◌++◌, none, false, ok, err, assertion,
}
use dws.Base.Int.{ℤ, pos, ◌-ℤ◌, ◌*ℤ◌}
use dws.Log.Stream.Digits.{abs}
use dws.Log.Stream.{convert, convert_loop, is_zero, is_negative}
use dws.Time.DateTime.{DateTime}
use dws.Time.Zone.{Data}
use dws.Log.Line.{
  time_text, warn, source_file, Cache, no_cache, date_time, refresh, is_equal_ℤ, output,
  after_output, log_line, fatal_level,
}
use dws.Log.Line.Basename.{has_slash, source_file_lem}
use dws.Log.Line.Time.{IsShort, IsFresh, no_cache-IsFresh}
use dws.Log.Line.Stamp.{stamp}
use dws.Log.Line.Whole.{joined, errno_text, tail_text, line_text, log_line_lem}

-- "a/b.c"
abbrev path : List ℕ
path = 97 ∷ 47 ∷ 98 ∷ 46 ∷ 99 ∷ []

path_kept : source_file path ≡ 98 ∷ 46 ∷ 99 ∷ []
unfolding source_file
path_kept = refl

-- The second after the epoch.
abbrev second_one : DateTime
second_one = record {
  year = pos 1970;
  month = pos 1;
  day = pos 1;
  hour = pos 0;
  minute = pos 0;
  second = pos 1;
}

second_one-IsShort : IsShort second_one
second_one-IsShort = record {
  year = (1970, refl, omega arith);
  month = (1, refl, omega arith);
  day = (1, refl, omega arith);
  hour = (0, refl, omega arith);
  minute = (0, refl, omega arith);
  second = (1, refl, omega arith);
}

second_one-date_time : date_time none (pos 1) ≡ ok second_one
unfolding date_time ◌-ℤ◌ ◌*ℤ◌
second_one-date_time = refl

abbrev no_text : ℤ → List ℕ
no_text n = []

-- The time at the epoch itself is that of an empty cache.
epoch_fails :
    log_line none no_text (pos 0) (32 ∷ []) warn (pos 0) path 7 [] no_cache ≡ err assertion
unfolding log_line convert convert_loop is_zero is_negative
epoch_fails = refl

log_line_lem_example :
    (c' : Cache) × IsFresh none c'
    × (log_line none no_text
          (pos 1000042)
          (55 ∷ 32 ∷ [])
          fatal_level
          (pos 0)
          path
          7
          ((104 ∷ []) ∷ (105 ∷ []) ∷ [])
          no_cache
        ≡ ok (
          c',
          output (
                line_text
                  (stamp none second_one 1000042)
                  (55 ∷ 32 ∷ [])
                  fatal_level
                  (errno_text no_text (pos 0))
                  ((104 ∷ []) ∷ (105 ∷ []) ∷ [])
                  path
                  7)
              ∷ after_output fatal_level,
        ))
unfolding abs errno_text joined tail_text source_file is_equal_ℤ convert convert_loop is_zero
    is_negative
log_line_lem_example =
    log_line_lem none no_text 1000042 second_one (55 ∷ 32 ∷ []) fatal_level (pos 0) path 7
      ((104 ∷ []) ∷ (105 ∷ []) ∷ []) no_cache (no_cache-IsFresh none) (omega arith)
      second_one-date_time second_one-IsShort (omega arith) (omega arith) (omega arith)

source_file_lem_runs :
    (has_slash (source_file path) ≡ false)
    × ((source_file path ≡ path) ⊎ ((d : List ℕ) × (path ≡ d ++ 47 ∷ source_file path)))
source_file_lem_runs = source_file_lem path

-- A change of the zone within a second leaves the time of the old zone in the cache.
stale_kept :
    (tz : Option Data)
    → refresh tz (pos 1) (record { last_second = pos 1; time = time_text second_one })
      ≡ ok (record { last_second = pos 1; time = time_text second_one })
unfolding refresh is_equal_ℤ
stale_kept tz = refl

-- At 02:18 UTC the minute that int8_t leaves has three characters.
later_fails :
    log_line none no_text (pos 8280000000) (32 ∷ []) warn (pos 0) path 7 [] no_cache ≡ err assertion
unfolding log_line convert convert_loop is_zero is_negative ◌-ℤ◌ ◌*ℤ◌
later_fails = refl
