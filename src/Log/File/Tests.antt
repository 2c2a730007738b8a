-- ===== src/Log/File/Tests.antt =====
-- LogFile (src/base/src/LogFile.cc) on concrete inputs.
use dws.Log.File.{LogFile, append_unlocked, init, period_of, after_append}
use dws.Log.File.Kept.{logged, append_unlocked-logged}
use dws.Log.File.Roll.{after_append-rolls}
use dws.Base.{ℕ, ◌≤◌, ◌≡◌, refl, arith, List, [], ◌∷◌, ◌++◌, length, min}

abbrev line : List ℕ
line = 97 ∷ 98 ∷ 10 ∷ []

-- A roll size of 4 bytes, and a check at every second line.
abbrev fresh : LogFile
fresh = record {
  roll_size = 4;
  flush_interval = 3;
  check_every_n = 2;
  count = 0;
  start_of_period = 0;
  last_roll = 10;
  last_flush = 10;
  file = record { content = []; written_bytes = 0; flushed = 0 };
  closed = [];
}

fresh_lem : init 4 3 2 10 ≡ fresh
unfolding init
fresh_lem = refl

append_unlocked-logged_example :
    logged (append_unlocked (λ n. min n 2) 11 11 line fresh) ≡ logged fresh ++ 97 ∷ 98 ∷ []
append_unlocked-logged_example = append_unlocked-logged (λ n. min n 2) 11 11 line fresh

-- The file with two lines is above the size.
abbrev over : LogFile
over = record fresh { file = record { content = line ++ line; written_bytes = 6; flushed = 0 } }

after_append-rolls_runs :
    (let r = after_append 11 11 over in
      (r.file.written_bytes ≤ 4)
      × (length r.closed ≡ 1)
      × (r.last_roll ≡ 11)
      × (r.start_of_period ≡ period_of 11)
      × (r.count ≡ 0)
      × (length r.file.content ≡ length r.file.content))
after_append-rolls_runs = after_append-rolls 11 11 over (omega arith)

-- Two lines at once: the second goes above the size, and the file is rolled.
rolled :
    append_unlocked (λ n. n) 11 11 line (append_unlocked (λ n. n) 11 11 line fresh) ≡ record fresh {
      count = 1;
      last_roll = 11;
      last_flush = 11;
      closed = record { content = line ++ line; written_bytes = 6; flushed = 6 } ∷ [];
    }
unfolding append_unlocked
rolled = refl
