-- ===== src/Log/Line/Whole.antt =====
-- A whole line of the log, from the constructor of Logger to its destructor.
use mathlib.Core.List.{append_assoc, append-nil}
use dws.Base.{
  ℕ, ◌+◌, ◌/◌, ◌^◌, ◌≤◌, ◌<◌, ◌≡◌, refl, ap, sym, ◌∙◌, arith, List, [], ◌∷◌, ◌++◌, length, Option,
  if◌then◌else◌, length-append, Bool-cases, inl, inr, ok,
}
use dws.Base.Int.{ℤ, pos}
use dws.Log.Stream.{FixedBuffer, append, convert, format_integer, init, to_string}
use dws.Log.Stream.Digits.{abs}
use dws.Log.Stream.Text.{init-Holds, format_integer_fits}
use dws.Time.DateTime.{DateTime}
use dws.Time.Zone.{Data}
use dws.Log.Line.{
  small_buffer, Level, level_name, trace, debug, info, warn, error, fatal_level, source_file, Cache,
  date_time, is_equal_ℤ, is_zoned, append_errno, begin_line, finish, output, after_output, end_line,
  append_all, log_line,
}
use dws.Log.Line.Time.{IsShort, IsFresh}
use dws.Log.Line.Stamp.{
  stamp, Filled, append-Filled, append_known_lem, format_time_lem, fraction_length-small,
}

unfoldable pub joined : List (List ℕ) → List ℕ
joined [] = []
joined (m ∷ ms) = m ++ joined ms

-- " (errno=" and ") " around the number, where there is an error.
unfoldable pub errno_text : (ℤ → List ℕ) → ℤ → List ℕ
errno_text strerror errno =
    if is_equal_ℤ errno (pos 0)
    then []
    else strerror errno
      ++ 32 ∷ 40 ∷ 101 ∷ 114 ∷ 114 ∷ 110 ∷ 111 ∷ 61 ∷ (convert errno ++ 41 ∷ 32 ∷ [])

-- " - ", the file, ":", the line.
unfoldable pub tail_text : List ℕ → ℕ → List ℕ
tail_text basename line = 32 ∷ 45 ∷ 32 ∷ (basename ++ 58 ∷ (convert (pos line) ++ 10 ∷ []))

integer-Filled :
    (n : ℕ) (text : List ℕ) (b : FixedBuffer) (v : ℤ)
    → Filled n text b
    → abs v < 2 ^ 64
    → n + 48 ≤ 4000
    → Filled (n + length (convert v)) (text ++ convert v) (format_integer b v)
integer-Filled n text b v f k h = record {
  held = format_integer_fits small_buffer text b v f.held k (omega (arith, f.size, h));
  size = omega (arith, length-append text (convert v), f.size);
}

-- The same text in other words.
Filled-as :
    {n n' : ℕ} {text text' : List ℕ} {b : FixedBuffer}
    → n ≡ n'
    → text ≡ text'
    → Filled n text b
    → Filled n' text' b
Filled-as p q f = rw (sym p, sym q) f

append_all-Filled :
    (ms : List (List ℕ)) (n : ℕ) (text : List ℕ) (b : FixedBuffer)
    → Filled n text b
    → n + length (joined ms) < 4000
    → Filled (n + length (joined ms)) (text ++ joined ms) (append_all ms b)
unfolding joined append_all
append_all-Filled [] n text b f h = Filled-as (omega arith) (sym (append-nil text)) f
append_all-Filled (m ∷ ms) n text b f h =
    let l = length-append m (joined ms) in
    let f₁ = append-Filled n (length m) text b m f refl (omega (arith, h, l)) in
    Filled-as (omega (arith, l)) (append_assoc text m (joined ms))
      (append_all-Filled ms (n + length m) (text ++ m) (append b m) f₁ (omega (arith, h, l)))

append_errno-Filled :
    (strerror : ℤ → List ℕ) (errno : ℤ) (n : ℕ) (text : List ℕ) (b : FixedBuffer)
    → Filled n text b
    → abs errno < 2 ^ 64
    → n + length (errno_text strerror errno) + 48 ≤ 4000
    → Filled
        (n + length (errno_text strerror errno))
        (text ++ errno_text strerror errno)
        (append_errno strerror errno b)
unfolding errno_text append_errno
append_errno-Filled strerror errno n text b f k h = elim (Bool-cases (is_equal_ℤ errno (pos 0))) [
  | inl e ↦ rw e (Filled-as (omega arith) (sym (append-nil text)) f)
  | inr e ↦
      let digits = convert errno in
      let opened : List ℕ = 32 ∷ 40 ∷ 101 ∷ 114 ∷ 114 ∷ 110 ∷ 111 ∷ 61 ∷ [] in
      let l₁ = length-append (strerror errno) (opened ++ (digits ++ 41 ∷ 32 ∷ [])) in
      let l₂ = length-append digits (41 ∷ 32 ∷ []) in
      let h' = rw e at h in
      let f₁ =
        append-Filled n (length (strerror errno)) text b (strerror errno) f refl
          (omega (arith, h', l₁, l₂)) in
      let f₂ = append-Filled _ 8 _ _ opened f₁ refl (omega (arith, h', l₁, l₂)) in
      let f₃ = integer-Filled _ _ _ errno f₂ k (omega (arith, h', l₁, l₂)) in
      let f₄ = append-Filled _ 2 _ _ (41 ∷ 32 ∷ []) f₃ refl (omega (arith, h', l₁, l₂)) in
      rw e (Filled-as (omega (arith, l₁, l₂)) (simp append_assoc) f₄)
]

finish-Filled :
    (basename : List ℕ) (line n : ℕ) (text : List ℕ) (b : FixedBuffer)
    → Filled n text b
    → line < 2 ^ 64
    → n + length (tail_text basename line) + 48 ≤ 4000
    → Filled
        (n + length (tail_text basename line))
        (text ++ tail_text basename line)
        (finish basename line b)
unfolding tail_text finish abs
finish-Filled basename line n text b f k h =
    let digits = convert (pos line) in
    let l₁ = length-append basename (58 ∷ (digits ++ 10 ∷ [])) in
    let l₂ = length-append digits (10 ∷ []) in
    let f₁ = append-Filled n 3 text b (32 ∷ 45 ∷ 32 ∷ []) f refl (omega (arith, h, l₁, l₂)) in
    let f₂ = append-Filled _ (length basename) _ _ basename f₁ refl (omega (arith, h, l₁, l₂)) in
    let f₃ = append-Filled _ 1 _ _ (58 ∷ []) f₂ refl (omega (arith, h, l₁, l₂)) in
    let f₄ = integer-Filled _ _ _ (pos line) f₃ k (omega (arith, h, l₁, l₂)) in
    let f₅ = append-Filled _ 1 _ _ (10 ∷ []) f₄ refl (omega (arith, h, l₁, l₂)) in
    Filled-as (omega (arith, l₁, l₂)) (simp append_assoc) f₅

-- The whole line.
unfoldable pub line_text : List ℕ → List ℕ → Level → List ℕ → List (List ℕ) → List ℕ → ℕ → List ℕ
line_text time tid level errno messages filename line =
    time
    ++ (tid
        ++ (level_name level
            ++ (errno ++ (joined messages ++ tail_text (source_file filename) line))))

level_name-length : (level : Level) → length (level_name level) ≡ 6
unfolding level_name
level_name-length trace = refl
level_name-length debug = refl
level_name-length info = refl
level_name-length warn = refl
level_name-length error = refl
level_name-length fatal_level = refl

-- Over a cache that is fresh in its zone, a statement whose texts have at most 3900 bytes in all hands
-- one whole line to the output function, with the fields that the conversion of the code (toLocalTime or
-- toUTCTime) gives for its second and the name of its file, flushes and aborts if it is fatal, and leaves
-- the cache fresh. The time is from the second 1 on, and none of the fields has a sign or is longer than
-- its format.
pub log_line_lem :
    (tz : Option Data) (strerror : ℤ → List ℕ) (now : ℕ) (dt : DateTime) (tid : List ℕ)
    (level : Level) (errno : ℤ) (filename : List ℕ) (line : ℕ) (messages : List (List ℕ))
    (c : Cache)
    → IsFresh tz c
    → 1000000 ≤ now
    → date_time tz (pos (now / 1000000)) ≡ ok dt
    → IsShort dt
    → abs errno < 2 ^ 31
    → line < 2 ^ 31
    → length tid
        + length (errno_text strerror errno)
        + length (joined messages)
        + length (tail_text (source_file filename) line)
      ≤ 3900
    → (c' : Cache) × IsFresh tz c'
      × (log_line tz strerror (pos now) tid level errno filename line messages c
          ≡ ok (
            c',
            output (
                  line_text
                    (stamp tz dt now)
                    tid
                    level
                    (errno_text strerror errno)
                    messages
                    filename
                    line)
                ∷ after_output level,
          ))
unfolding log_line begin_line end_line line_text
log_line_lem tz strerror now dt tid level errno filename line messages c fresh late e short k l
      fits =
    let b = init small_buffer in
    let base = source_file filename in
    let zl = fraction_length-small (is_zoned tz) in
    let f : Filled 0 [] b = record { held = init-Holds small_buffer (omega arith); size = refl } in
    let t = format_time_lem tz now dt c b fresh late e short f in
    let f₁ = append-Filled _ (length tid) _ _ tid t.filled refl (omega (arith, fits, zl)) in
    let name_length = level_name-length level in
    let f₂ = append-Filled _ 6 _ _ (level_name level) f₁ name_length (omega (arith, fits, zl)) in
    let f₃ =
      append_errno-Filled strerror errno _ _ _ f₂ (omega (arith, k)) (omega (arith, fits, zl)) in
    let f₄ = append_all-Filled messages _ _ _ f₃ (omega (arith, fits, zl)) in
    let f₅ = finish-Filled base line _ _ _ f₄ (omega (arith, l)) (omega (arith, fits, zl)) in
    let known = append_known_lem (level_name level) 6 (append t.buffer tid) name_length in
    let whole : to_string (
          finish base line (
            append_all messages
              (append_errno strerror errno (append (append t.buffer tid) (level_name level)))))
        ≡ line_text (stamp tz dt now) tid level (errno_text strerror errno) messages filename line =
      f₅.held.content ∙ simp append_assoc in
    (
      t.cache,
      t.fresh,
      rw (t.returns, append_known_lem tid (length tid) t.buffer refl, known)
          (ap (λ text. ok (t.cache, output text ∷ after_output level)) whole),
    )
