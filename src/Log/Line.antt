-- ===== src/Log/Line.antt =====
-- Log/Line models class Logger with its SourceFile and Impl (src/base/include/Logging.h and
-- src/base/src/Logging.cc), from the name of the file to what the destructor hands to the output
-- function. The buffer of the stream has `small_buffer` bytes. strerror_r and the text of the thread
-- id are arguments. What snprintf prints for the time is below, its `%d` with the digits of `convert`.
pub mod Basename
pub mod Time
pub mod Stamp
pub mod Whole
mod Tests
use dws.Base.{
  ℕ, suc, ◌-◌, List, [], ◌∷◌, ◌++◌, length, Option, none, some, Bool, true, false, if◌then◌else◌,
  ◌==◌, replicate, Result, ok, ◌>>=◌, ◌>>◌, assert,
}
use dws.Base.Int.{ℤ, pos, negsuc, tdiv, tmod}
use dws.Log.Stream.{FixedBuffer, append, to_string, convert, format_integer, init}
use dws.Time.DateTime.{DateTime, break_time}
use dws.Time.Zone.{Data, to_local_time}

abbrev pub small_buffer : ℕ
small_buffer = 4000

-- "TRACE ", "DEBUG ", "INFO  ", "WARN  ", "ERROR ", "FATAL "
pub data Level : Type 0 where
  trace : Level
  debug : Level
  info : Level
  warn : Level
  error : Level
  fatal_level : Level

unfoldable pub level_name : Level → List ℕ
level_name trace = 84 ∷ 82 ∷ 65 ∷ 67 ∷ 69 ∷ 32 ∷ []
level_name debug = 68 ∷ 69 ∷ 66 ∷ 85 ∷ 71 ∷ 32 ∷ []
level_name info = 73 ∷ 78 ∷ 70 ∷ 79 ∷ 32 ∷ 32 ∷ []
level_name warn = 87 ∷ 65 ∷ 82 ∷ 78 ∷ 32 ∷ 32 ∷ []
level_name error = 69 ∷ 82 ∷ 82 ∷ 79 ∷ 82 ∷ 32 ∷ []
level_name fatal_level = 70 ∷ 65 ∷ 84 ∷ 65 ∷ 76 ∷ 32 ∷ []

-- `strrchr(filename, '/')`: what is behind the last slash, where there is one.
unfoldable pub behind_slash : List ℕ → Option (List ℕ)
behind_slash [] = none
behind_slash (c ∷ cs) = elim (behind_slash cs) [
  | some rest ↦ some rest
  | none ↦ if c == 47 then some cs else none
]

-- The constructor of `SourceFile`.
unfoldable pub source_file : List ℕ → List ℕ
unfolding behind_slash
source_file filename = elim (behind_slash filename) [ some rest ↦ rest | none ↦ filename ]

-- `%0wd`: the sign comes before the zeros.
unfoldable pub pad_zero : ℕ → ℤ → List ℕ
pad_zero w (pos n) = replicate (w - length (convert (pos n))) 48 ++ convert (pos n)
pad_zero w (negsuc n) =
    45 ∷ (replicate (w - 1 - length (convert (pos (suc n)))) 48 ++ convert (pos (suc n)))

-- `%wd`
unfoldable pub pad_blank : ℕ → ℤ → List ℕ
pad_blank w v = replicate (w - length (convert v)) 32 ++ convert v

-- "%4d%02d%02d %02d:%02d:%02d"
unfoldable pub time_text : DateTime → List ℕ
unfolding pad_zero pad_blank
time_text dt =
    pad_blank 4 dt.year
    ++ (pad_zero 2 dt.month
        ++ (pad_zero 2 dt.day
            ++ 32
              ∷ (pad_zero 2 dt.hour ++ 58 ∷ (pad_zero 2 dt.minute ++ 58 ∷ pad_zero 2 dt.second))))

-- `t_lastSecond` and the string in `t_time`.
pub record Cache : Type 0 where
  pub last_second : ℤ
  pub time : List ℕ

abbrev pub no_cache : Cache
no_cache = record { last_second = pos 0; time = [] }

-- `g_logTimeZone` is none where it is not valid.
unfoldable pub date_time : Option Data → ℤ → Result DateTime
unfolding break_time
date_time (some d) seconds = do (dt, offset) ← to_local_time d seconds; ok dt
date_time none seconds = ok (break_time seconds)

unfoldable pub is_equal_ℤ : ℤ → ℤ → Bool
is_equal_ℤ (pos a) (pos b) = a == b
is_equal_ℤ (pos a) (negsuc b) = false
is_equal_ℤ (negsuc a) (pos b) = false
is_equal_ℤ (negsuc a) (negsuc b) = a == b

-- The first half of `formatTime`.
unfoldable pub refresh : Option Data → ℤ → Cache → Result Cache
unfolding date_time is_equal_ℤ time_text
refresh tz seconds c = if is_equal_ℤ seconds c.last_second then ok c else (do
  dt ← date_time tz seconds
  assert (length (time_text dt) == 17)
  ok (record { last_second = seconds; time = time_text dt }))

-- `stream_ << T(str, len)`
unfoldable pub append_known : List ℕ → ℕ → FixedBuffer → Result FixedBuffer
append_known str len b = do assert (length str == len); ok (append b str)

-- The text behind the seconds.
unfoldable pub fraction : Bool → ℤ → List ℕ
unfolding pad_zero
fraction zoned microseconds =
    46 ∷ (pad_zero 6 microseconds ++ (if zoned then 32 ∷ [] else 90 ∷ 32 ∷ []))

unfoldable pub fraction_length : Bool → ℕ
fraction_length zoned = if zoned then 8 else 9

unfoldable pub is_zoned : Option Data → Bool
is_zoned (some d) = true
is_zoned none = false

unfoldable pub format_time : Option Data → ℤ → Cache → FixedBuffer → Result (Cache × FixedBuffer)
unfolding refresh append_known fraction fraction_length is_zoned
format_time tz now c b = do
  c' ← refresh tz (tdiv now 1000000) c
  let us = fraction (is_zoned tz) (tmod now 1000000)
  assert (length us == fraction_length (is_zoned tz))
  b₁ ← append_known c'.time 17 b
  b₂ ← append_known us (fraction_length (is_zoned tz)) b₁
  ok (c', b₂)

-- " (errno=", the number, ") ", behind the text of the error.
unfoldable pub append_errno : (ℤ → List ℕ) → ℤ → FixedBuffer → FixedBuffer
unfolding is_equal_ℤ
append_errno strerror errno b =
    if is_equal_ℤ errno (pos 0)
    then b
    else append
        (format_integer
          (append (append b (strerror errno)) (32 ∷ 40 ∷ 101 ∷ 114 ∷ 114 ∷ 110 ∷ 111 ∷ 61 ∷ []))
          errno)
        (41 ∷ 32 ∷ [])

-- The constructor of `Impl`, at the time `now` in microseconds; `tid` is the thread id's text.
unfoldable pub begin_line :
    Option Data → (ℤ → List ℕ) → ℤ → List ℕ → Level → ℤ → Cache → Result (Cache × FixedBuffer)
unfolding format_time append_known append_errno level_name
begin_line tz strerror now tid level errno c = do
  (c', b) ← format_time tz now c (init small_buffer)
  b₁ ← append_known tid (length tid) b
  b₂ ← append_known (level_name level) 6 b₁
  ok (c', append_errno strerror errno b₂)

-- " - ", the file, ":", the line and the end of the line.
unfoldable pub finish : List ℕ → ℕ → FixedBuffer → FixedBuffer
finish basename line b =
    append
      (format_integer (append (append (append b (32 ∷ 45 ∷ 32 ∷ [])) basename) (58 ∷ []))
        (pos line))
      (10 ∷ [])

pub data Effect : Type 0 where
  -- `g_output`
  output : List ℕ → Effect
  flush : Effect
  abort : Effect

unfoldable pub after_output : Level → List Effect
after_output fatal_level = flush ∷ abort ∷ []
after_output trace = []
after_output debug = []
after_output info = []
after_output warn = []
after_output error = []

-- The destructor.
unfoldable pub end_line : Level → List ℕ → ℕ → FixedBuffer → List Effect
unfolding finish after_output
end_line level basename line b = output (to_string (finish basename line b)) ∷ after_output level

-- A whole statement such as `LOG_ERROR << first << second`, whose texts are `messages`.
unfoldable pub append_all : List (List ℕ) → FixedBuffer → FixedBuffer
append_all [] b = b
append_all (m ∷ ms) b = append_all ms (append b m)

unfoldable pub log_line :
    Option Data
    → (ℤ → List ℕ)
    → ℤ
    → List ℕ
    → Level
    → ℤ
    → List ℕ
    → ℕ
    → List (List ℕ)
    → Cache
    → Result (Cache × List Effect)
unfolding begin_line source_file append_all end_line
log_line tz strerror now tid level errno filename line messages c = do
  (c', b) ← begin_line tz strerror now tid level errno c
  ok (c', end_line level (source_file filename) line (append_all messages b))
