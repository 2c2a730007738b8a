-- ===== src/Log/Text/Tests.antt =====
-- StringPiece (src/base/include/StringPiece.h) on concrete inputs.
use dws.Log.Text.{
  as_string, StringPiece, compare_pieces, piece_eq, piece_lt, piece_le, piece_ge, piece_gt,
  starts_with, is_zero, is_negative, is_positive,
}
use dws.Log.Text.Order.{lexical, compare_pieces_lem, piece_le-strict}
use dws.Base.{◌≡◌, refl, arith, [], ◌∷◌, true, false}

-- "ab" in "abc", and "abd".
abbrev short : StringPiece
short = record { memory = 97 ∷ 98 ∷ 99 ∷ []; size = 2 }

abbrev other : StringPiece
other = record { memory = 97 ∷ 98 ∷ 100 ∷ []; size = 3 }

compare_pieces_lem_runs :
    (compare_pieces short other ≡ lexical (97 ∷ 98 ∷ []) (97 ∷ 98 ∷ 100 ∷ []))
    × (piece_lt short other ≡ is_negative (lexical (97 ∷ 98 ∷ []) (97 ∷ 98 ∷ 100 ∷ [])))
    × (piece_gt short other ≡ is_positive (lexical (97 ∷ 98 ∷ []) (97 ∷ 98 ∷ 100 ∷ [])))
    × (piece_eq short other ≡ is_zero (lexical (97 ∷ 98 ∷ []) (97 ∷ 98 ∷ 100 ∷ [])))
unfolding as_string
compare_pieces_lem_runs = compare_pieces_lem short other (omega arith) (omega arith)

piece_le-strict_runs :
    (piece_le short other ≡ piece_lt short other)
    × (piece_ge short other ≡ piece_gt short other)
    × (piece_le short short ≡ false)
piece_le-strict_runs = piece_le-strict short other

prefix_found : starts_with other short ≡ true
unfolding starts_with
prefix_found = refl
