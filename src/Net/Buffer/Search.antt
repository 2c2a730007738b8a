-- ===== src/Net/Buffer/Search.antt =====
-- `findCRLF` and `findEOL`. A result is an offset from the start of the search, for the pointer.
use mathlib.Core.Option
use dws.Base.{
  ℕ, zero, suc, ◌<◌, ◌≡◌, ◌≢◌, arith, List, [], ◌∷◌, length, slice, Option, none, some, ◌&&◌,
  if◌then◌else◌, ◌==◌, leb, Bool-cases, inl, inr, sub_size, Result, ok, ◌>>◌, assert,
}
use dws.Net.Buffer.{Buffer, to_string_piece}

-- `std::search` for the two bytes of `kCRLF`.
unfoldable pub search_crlf : List ℕ → Option ℕ
search_crlf [] = none
search_crlf (x ∷ []) = none
search_crlf (x ∷ y ∷ xs) =
    let rest = Option.map suc (search_crlf (y ∷ xs)) in if x == 13 && y == 10 then some 0 else rest

-- `memchr` for a line feed.
pub search_eol : List ℕ → Option ℕ
search_eol [] = none
search_eol (x ∷ xs) = let rest = Option.map suc (search_eol xs) in if x == 10 then some 0 else rest

unfoldable pub find_crlf : Buffer → Option ℕ
unfolding search_crlf
find_crlf b = search_crlf (to_string_piece b)

-- The overload from a pointer on; `start` is an offset into the storage.
pub find_crlf_from : Buffer → ℕ → Result (Option ℕ)
unfolding search_crlf
find_crlf_from b start = do
  assert (leb b.reader_index start)
  assert (leb start b.writer_index)
  ok (search_crlf (slice start (sub_size b.writer_index start) b.buffer))

pub find_eol : Buffer → Option ℕ
unfolding search_eol
find_eol b = search_eol (to_string_piece b)

pub find_eol_from : Buffer → ℕ → Result (Option ℕ)
unfolding search_eol
find_eol_from b start = do
  assert (leb b.reader_index start)
  assert (leb start b.writer_index)
  ok (search_eol (slice start (sub_size b.writer_index start) b.buffer))

-- `r` is the least offset at which `word` stands in `xs`, if there is one.
abbrev pub IsFirst : List ℕ → List ℕ → Option ℕ → Type 0
IsFirst word xs none = (j : ℕ) → slice j (length word) xs ≢ word
IsFirst word xs (some i) =
    (slice i (length word) xs ≡ word) × ((j : ℕ) → j < i → slice j (length word) xs ≢ word)

-- One byte further left.
IsFirst-cons :
    (word xs : List ℕ) (x : ℕ) (r : Option ℕ)
    → slice 0 (length word) (x ∷ xs) ≢ word
    → IsFirst word xs r
    → IsFirst word (x ∷ xs) (Option.map suc r)
IsFirst-cons word xs x none h p = later
  where
    later : (j : ℕ) → slice j (length word) (x ∷ xs) ≢ word
    later zero = h
    later (suc j) = p j
IsFirst-cons word xs x (some i) h p = (p.0, before)
  where
    before : (j : ℕ) → j < suc i → slice j (length word) (x ∷ xs) ≢ word
    before zero k = h
    before (suc j) k = p.1 j (omega arith)

slice-nil-ne : (j y : ℕ) (word : List ℕ) (n : ℕ) → slice j n [] ≢ y ∷ word
slice-nil-ne zero y word zero e = cc
slice-nil-ne zero y word (suc n) e = cc
slice-nil-ne (suc j) y word zero e = cc
slice-nil-ne (suc j) y word (suc n) e = cc

search_crlf-IsFirst : (xs : List ℕ) → IsFirst (13 ∷ 10 ∷ []) xs (search_crlf xs)
unfolding search_crlf
search_crlf-IsFirst [] = λ j. slice-nil-ne j _ _ 2
search_crlf-IsFirst (x ∷ []) =
    IsFirst-cons (13 ∷ 10 ∷ []) [] x none (λ e. cc) (λ j. slice-nil-ne j _ _ 2)
search_crlf-IsFirst (x ∷ y ∷ xs) = elim (Bool-cases (x == 13 && y == 10)) [
  | inl hit ↦ rw hit (ground arith, λ j k. absurd (omega arith))
  | inr miss ↦ rw miss (
      IsFirst-cons (13 ∷ 10 ∷ []) (y ∷ xs) x (search_crlf (y ∷ xs)) (λ e. ground arith)
        (search_crlf-IsFirst (y ∷ xs)))
]

search_eol-IsFirst : (xs : List ℕ) → IsFirst (10 ∷ []) xs (search_eol xs)
unfolding search_eol
search_eol-IsFirst [] = λ j. slice-nil-ne j _ _ 1
search_eol-IsFirst (x ∷ xs) = elim (Bool-cases (x == 10)) [
  | inl hit ↦ rw hit (ground arith, λ j k. absurd (omega arith))
  | inr miss ↦
      rw miss
        (IsFirst-cons (10 ∷ []) xs x (search_eol xs) (λ e. ground arith) (search_eol-IsFirst xs))
]

-- `findCRLF` returns the offset of the first CR LF among the readable bytes, and nothing exactly
-- when there is none.
pub find_crlf-IsFirst : (b : Buffer) → IsFirst (13 ∷ 10 ∷ []) (to_string_piece b) (find_crlf b)
unfolding find_crlf
find_crlf-IsFirst b = search_crlf-IsFirst (to_string_piece b)

-- `findEOL` does so for a line feed.
pub find_eol-IsFirst : (b : Buffer) → IsFirst (10 ∷ []) (to_string_piece b) (find_eol b)
unfolding find_eol
find_eol-IsFirst b = search_eol-IsFirst (to_string_piece b)
