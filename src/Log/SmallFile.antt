-- ===== src/Log/SmallFile.antt =====
-- Log/SmallFile models FileUtil::ReadSmallFile::readToString (src/base/src/FileUtil.cc): its loop over
-- read(2). `read at asked` is how many bytes the call at this offset gives, or none for an error; the
-- sizes and times of the file, which fstat tells, are not modelled.
mod Whole
mod Tests
use dws.Base.{
  ℕ, zero, suc, ◌-◌, ◌*◌, List, [], ◌++◌, length, slice, Option, none, some, Bool, true, false, not,
  if◌then◌else◌, ◌==◌, min, ltb, ◌>>=◌, ◌>>◌,
}

-- `sizeof(buf_)`
abbrev pub buffer_size : ℕ
buffer_size = 64 * 1024

-- The outcome: if errno is set, and the content.
pub record Outcome : Type 0 where
  pub failed : Bool
  pub content : List ℕ

unfoldable pub read_loop : ℕ → (ℕ → ℕ → Option ℕ) → List ℕ → ℕ → List ℕ → Option Outcome
read_loop zero read bytes limit content = none
read_loop (suc fuel) read bytes limit content =
    let asked = min (limit - length content) buffer_size in
    if not (ltb (length content) limit)
    then some (record { failed = false; content = content })
    else elim (read (length content) asked) [
      | none ↦ some (record { failed = true; content = content })
      | some n ↦
          let next = read_loop fuel read bytes limit (content ++ slice (length content) n bytes) in
          if n == 0 then some (record { failed = false; content = content }) else next
    ]

-- The call for a file that could be opened; an open that failed leaves the content as it was.
unfoldable pub read_to_string : ℕ → (ℕ → ℕ → Option ℕ) → List ℕ → ℕ → Option Outcome
unfolding read_loop
read_to_string fuel read bytes limit = read_loop fuel read bytes limit []
