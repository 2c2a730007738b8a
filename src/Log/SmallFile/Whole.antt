-- ===== src/Log/SmallFile/Whole.antt =====
-- ReadSmallFile::readToString (src/base/src/FileUtil.cc) ends, with the start of the file.
use dws.Log.SmallFile.{Outcome, read_loop, read_to_string, buffer_size}
use dws.Base.{
  ltb→lt, Option-cases, ℕ, zero, suc, ◌+◌, ◌-◌, ◌≤◌, ◌<◌, ◌≡◌, refl, ap, sym, ◌∙◌, arith, List, [],
  ◌++◌, length, take, slice, Option, some, true, false, if◌then◌else◌, ◌==◌, min, length-append,
  ltb, Bool-cases, inl, inr, slice-append, length-slice, take-all,
}

-- read(2) on a regular file: no more than was asked for and than is left, and something if there is
-- something and it was asked for. An error is possible everywhere.
pub record IsRead (size : ℕ) (read : ℕ → ℕ → Option ℕ) : Type 0 where
  pub asked_for : (at asked n : ℕ) → read at asked ≡ some n → n ≤ asked
  pub left : (at asked n : ℕ) → read at asked ≡ some n → n ≤ size - at
  pub some_left : (at asked n : ℕ) → 0 < asked → at < size → read at asked ≡ some n → 0 < n

-- The content is the start of the file, and all of it, up to the limit, if no read failed.
abbrev pub IsStart : ℕ → List ℕ → Outcome → Type 0
IsStart limit bytes o =
    (o.content ≡ take (length o.content) bytes)
    × (length o.content ≤ limit)
    × ((if o.failed then o.content else take limit bytes) ≡ o.content)

longer :
    (bytes content : List ℕ) (k n : ℕ)
    → content ≡ take k bytes
    → content ++ slice k n bytes ≡ take (k + n) bytes
longer bytes content k n e = rw e (sym (slice-append bytes 0 k n (k + n) k refl (omega arith)))

module _ (bytes : List ℕ) (read : ℕ → ℕ → Option ℕ) (law : IsRead (length bytes) read)
    (limit : ℕ) where
  at_limit : (k : ℕ) → ltb k limit ≡ false → k ≤ limit → k ≡ limit
  at_limit k full below = ground arith

  ends : (k asked n : ℕ) → 0 < asked → read k asked ≡ some n → (n == 0) ≡ true → length bytes ≤ k
  ends k asked n some_asked got done = elim (Bool-cases (ltb k (length bytes))) [
    | inl short ↦ absurd (ground (arith, law.some_left k asked n some_asked (ltb→lt _ _ short) got))
    | inr over ↦ ground arith
  ]

  at_end :
      (content : List ℕ)
      → content ≡ take (length content) bytes
      → length bytes ≤ length content
      → length content ≤ limit
      → take limit bytes ≡ content
  at_end content start over below =
      take-all limit bytes (omega arith) ∙ sym (start ∙ take-all (length content) bytes over)

  read_loop_lem :
      (fuel : ℕ) (content : List ℕ)
      → content ≡ take (length content) bytes
      → length content ≤ limit
      → limit - length content < fuel
      → (o : Outcome) × (read_loop fuel read bytes limit content ≡ some o) × IsStart limit bytes o
  unfolding read_loop
  read_loop_lem zero content start below enough = absurd (omega arith)
  read_loop_lem (suc fuel) content start below enough =
      let k = length content in
      let asked = min (limit - k) buffer_size in
      elim (Bool-cases (ltb k limit)) [
        | inr full ↦ (
          record { failed = false; content = content },
          rw full refl,
          (start, below, sym (start ∙ ap (λ (m : ℕ). take m bytes) (at_limit k full below))),
        )
        | inl room ↦ elim (Option-cases (read k asked)) [
          | inl error ↦ (
            record { failed = true; content = content },
            rw (room, error) refl,
            (start, below, refl),
          )
          | inr some_read ↦
              let (n, got) = some_read in
              elim (Bool-cases (n == 0)) [
                | inl done ↦ (
                  record { failed = false; content = content },
                  rw (room, got, done) refl,
                  (
                    start,
                    below,
                    at_end content start (ends k asked n (ground arith) got done) below,
                  ),
                )
                | inr more ↦
                    let next = content ++ slice k n bytes in
                    let size : length next ≡ k + n = omega (
                      arith,
                      length-append content (slice k n bytes),
                      length-slice k n bytes (ground (arith, law.left k asked n got)),
                    ) in
                    let (o, e, whole) =
                      read_loop_lem fuel next
                        (longer bytes content k n start ∙ ap (λ (m : ℕ). take m bytes) (sym size))
                        (ground (arith, size, law.asked_for k asked n got))
                        (ground (arith, size, enough)) in
                    (o, rw (room, got, more) e, whole)
              ]
        ]
      ]

-- readToString of an open file, by a read(2) that keeps to what is asked for and to what is left, and
-- gives something where there is something: the loop ends, within one turn more than the limit. Its
-- content is a start of the file no longer than the limit, and if no read failed it is all of the
-- file up to the limit.
pub read_to_string_lem :
    (bytes : List ℕ) (read : ℕ → ℕ → Option ℕ) (limit fuel : ℕ)
    → IsRead (length bytes) read
    → limit < fuel
    → (o : Outcome) × (read_to_string fuel read bytes limit ≡ some o)
      × (o.content ≡ take (length o.content) bytes)
      × (length o.content ≤ limit)
      × ((if o.failed then o.content else take limit bytes) ≡ o.content)
unfolding read_to_string
read_to_string_lem bytes read limit fuel law enough =
    let (o, e, whole) =
      read_loop_lem bytes read law limit fuel [] refl (omega arith) (omega arith) in
    (o, e, whole.0, whole.1, whole.2)
