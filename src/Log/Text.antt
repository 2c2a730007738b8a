-- ===== src/Log/Text.antt =====
-- Log/Text models class StringPiece (src/base/include/StringPiece.h): a pointer, as the bytes in
-- memory from there on, and a length, which is not negative. The result of memcmp is -1, 0 or 1.
pub mod Order
mod Tests
use dws.Base.Int.{ℤ, pos, negsuc, pos_part, neg_part}
use dws.Base.{
  ℕ, zero, suc, ◌+◌, ◌-◌, List, [], ◌∷◌, take, drop, Bool, true, false, ◌&&◌, ◌||◌, if◌then◌else◌,
  ◌==◌, ltb, leb, ◌>>=◌, ◌>>◌,
}

pub record StringPiece : Type 0 where
  pub memory : List ℕ
  pub size : ℕ

-- `as_string` and `CopyToString`
unfoldable pub as_string : StringPiece → List ℕ
as_string x = take x.size x.memory

unfoldable pub is_empty : StringPiece → Bool
is_empty x = x.size == 0

unfoldable pub clear : StringPiece → StringPiece
clear x = record { memory = []; size = 0 }

unfoldable pub set_piece : List ℕ → ℕ → StringPiece
set_piece buffer len = record { memory = buffer; size = len }

unfoldable pub remove_prefix : ℕ → StringPiece → StringPiece
remove_prefix n x = record { memory = drop n x.memory; size = x.size - n }

unfoldable pub remove_suffix : ℕ → StringPiece → StringPiece
remove_suffix n x = record x { size = x.size - n }

unfoldable pub memcmp : List ℕ → List ℕ → ℕ → ℤ
memcmp xs ys zero = pos 0
memcmp [] ys (suc n) = pos 0
memcmp (x ∷ xs) [] (suc n) = pos 0
memcmp (x ∷ xs) (y ∷ ys) (suc n) =
    if ltb x y then negsuc 0 else if ltb y x then pos 1 else memcmp xs ys n

abbrev pub is_zero : ℤ → Bool
is_zero r = pos_part r + neg_part r == 0

abbrev pub is_positive : ℤ → Bool
is_positive r = ltb 0 (pos_part r)

abbrev pub is_negative : ℤ → Bool
is_negative r = ltb 0 (neg_part r)

-- `memcmp` over the shorter length.
unfoldable pub common : StringPiece → StringPiece → ℤ
unfolding memcmp
common x y = memcmp x.memory y.memory (if ltb x.size y.size then x.size else y.size)

unfoldable pub piece_eq : StringPiece → StringPiece → Bool
unfolding memcmp
piece_eq x y = x.size == y.size && is_zero (memcmp x.memory y.memory x.size)

-- STRINGPIECE_BINARY_PREDICATE for `<`, `<=`, `>=` and `>`, with `<`, `<`, `>` and `>` for lengths.
unfoldable pub piece_lt : StringPiece → StringPiece → Bool
unfolding common
piece_lt x y = let r = common x y in if is_zero r then ltb x.size y.size else is_negative r

unfoldable pub piece_le : StringPiece → StringPiece → Bool
unfolding common
piece_le x y =
    let r = common x y in if is_zero r then ltb x.size y.size else (is_negative r || is_zero r)

unfoldable pub piece_ge : StringPiece → StringPiece → Bool
unfolding common
piece_ge x y =
    let r = common x y in if is_zero r then ltb y.size x.size else (is_positive r || is_zero r)

unfoldable pub piece_gt : StringPiece → StringPiece → Bool
unfolding common
piece_gt x y = let r = common x y in if is_zero r then ltb y.size x.size else is_positive r

unfoldable pub compare_pieces : StringPiece → StringPiece → ℤ
unfolding common
compare_pieces x y =
    let r = common x y in
    if is_zero r
    then if ltb x.size y.size then negsuc 0 else if ltb y.size x.size then pos 1 else r
    else r

unfoldable pub starts_with : StringPiece → StringPiece → Bool
unfolding memcmp
starts_with x y = leb y.size x.size && is_zero (memcmp x.memory y.memory y.size)
