-- ===== src/Log/File.antt =====
-- Log/File models class LogFile (src/base/src/LogFile.cc) and class FileUtil::AppendFile
-- (src/base/src/FileUtil.cc). A file is the bytes that its stream has taken; `flushed` is how many of
-- them a flush has passed on. The clock and what fwrite takes are arguments. The name of a file is
-- made of the time, and is not modelled; times are seconds, from 0 on.
pub mod Kept
pub mod Roll
mod Tests
use dws.Base.{
  ℕ, zero, suc, ◌+◌, ◌-◌, ◌*◌, ◌/◌, List, [], ◌∷◌, ◌++◌, length, take, drop, Bool, true, false, not,
  if◌then◌else◌, ◌==◌, ltb, leb, ◌>>=◌, ◌>>◌,
}

pub record AppendFile : Type 0 where
  pub content : List ℕ
  pub written_bytes : ℕ
  pub flushed : ℕ

unfoldable pub open_file : AppendFile
open_file = record { content = []; written_bytes = 0; flushed = 0 }

-- The loop of `append` on the rest of the line; `takes` is how much of so many bytes fwrite takes.
-- A call that takes less ends the loop, and is not counted.
unfoldable pub append_loop : ℕ → (ℕ → ℕ) → List ℕ → ℕ → AppendFile → ℕ × AppendFile
append_loop zero takes rest written f = (written, f)
append_loop (suc fuel) takes rest written f =
    let n = takes (length rest) in
    let f' = record f { content = f.content ++ take n rest } in
    let next = append_loop fuel takes (drop n rest) (written + n) f' in
    if length rest == 0 then (written, f) else if n == length rest then next else (written, f')

unfoldable pub append : (ℕ → ℕ) → List ℕ → AppendFile → AppendFile
unfolding append_loop
append takes logline f =
    let (written, f') = append_loop (suc (suc (length logline))) takes logline 0 f in
    record f' { written_bytes = f'.written_bytes + written }

unfoldable pub flush : AppendFile → AppendFile
flush f = record f { flushed = length f.content }

pub record LogFile : Type 0 where
  pub roll_size : ℕ
  pub flush_interval : ℕ
  pub check_every_n : ℕ
  pub count : ℕ
  pub start_of_period : ℕ
  pub last_roll : ℕ
  pub last_flush : ℕ
  pub file : AppendFile
  -- The files that were closed before, the latest last.
  pub closed : List AppendFile

abbrev pub roll_per_seconds : ℕ
roll_per_seconds = 60 * 60 * 24

abbrev pub period_of : ℕ → ℕ
period_of now = now / roll_per_seconds * roll_per_seconds

-- Closing a file flushes it.
unfoldable pub roll_file : ℕ → LogFile → Bool × LogFile
unfolding open_file flush
roll_file now l =
    if ltb l.last_roll now
    then (
      true,
      record l {
        last_roll = now;
        last_flush = now;
        start_of_period = period_of now;
        file = open_file;
        closed = l.closed ++ flush l.file ∷ [];
      },
    )
    else (false, l)

-- What `append_unlocked` does after every `check_every_n` lines: `now` is its own time, `now'` that
-- of `rollFile`.
unfoldable pub check : ℕ → ℕ → LogFile → LogFile
unfolding roll_file flush
check now now' l =
    if not (period_of now == l.start_of_period)
    then (roll_file now' l).1
    else if ltb l.flush_interval (now - l.last_flush)
    then record l { last_flush = now; file = flush l.file }
    else l

-- `append_unlocked` after the line is appended.
unfoldable pub after_append : ℕ → ℕ → LogFile → LogFile
unfolding roll_file check
after_append now now' l =
    if ltb l.roll_size l.file.written_bytes
    then (roll_file now' l).1
    else if leb l.check_every_n (l.count + 1)
    then check now now' (record l { count = 0 })
    else record l { count = l.count + 1 }

unfoldable pub append_unlocked : (ℕ → ℕ) → ℕ → ℕ → List ℕ → LogFile → LogFile
unfolding append after_append
append_unlocked takes now now' logline l =
    after_append now now' (record l { file = append takes logline l.file })

-- `LogFile::flush`
unfoldable pub flush_file : LogFile → LogFile
unfolding flush
flush_file l = record l { file = flush l.file }

-- The constructor, with the clock past 0: it rolls at once, so that there is a file.
unfoldable pub init : ℕ → ℕ → ℕ → ℕ → LogFile
unfolding open_file
init roll_size flush_interval check_every_n now = record {
  roll_size = roll_size;
  flush_interval = flush_interval;
  check_every_n = check_every_n;
  count = 0;
  start_of_period = period_of now;
  last_roll = now;
  last_flush = now;
  file = open_file;
  closed = [];
}
