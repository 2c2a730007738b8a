-- ===== src/Log/Text/Order.antt =====
-- StringPiece (src/base/include/StringPiece.h): what its comparisons decide.
use dws.Base.Int.{ℤ, pos, negsuc}
use dws.Log.Text.{
  StringPiece, as_string, memcmp, common, compare_pieces, piece_eq, piece_lt, piece_le, piece_ge,
  piece_gt, is_zero, is_negative, is_positive,
}
use dws.Base.{
  ℕ, zero, suc, ◌≤◌, ◌≡◌, refl, ap, ◌∙◌, arith, List, [], ◌∷◌, length, take, true, false,
  if◌then◌else◌, ltb, Bool-cases, inl, inr,
}

-- The order of the dictionary.
unfoldable pub lexical : List ℕ → List ℕ → ℤ
lexical [] [] = pos 0
lexical [] (y ∷ ys) = negsuc 0
lexical (x ∷ xs) [] = pos 1
lexical (x ∷ xs) (y ∷ ys) = if ltb x y then negsuc 0 else if ltb y x then pos 1 else lexical xs ys

-- The memory has the length of the piece.
abbrev pub IsPiece : StringPiece → Type 0
IsPiece x = x.size ≤ length x.memory

compare_lem :
    (xs ys : List ℕ) (m n : ℕ)
    → m ≤ length xs
    → n ≤ length ys
    → compare_pieces (record { memory = xs; size = m }) (record { memory = ys; size = n })
      ≡ lexical (take m xs) (take n ys)
unfolding compare_pieces lexical common memcmp
compare_lem xs ys zero zero h k = refl
compare_lem xs [] zero (suc n) h k = absurd (omega arith)
compare_lem xs (y ∷ ys) zero (suc n) h k = ground arith
compare_lem [] ys (suc m) n h k = absurd (omega arith)
compare_lem (x ∷ xs) ys (suc m) zero h k = ground arith
compare_lem (x ∷ xs) [] (suc m) (suc n) h k = absurd (omega arith)
compare_lem (x ∷ xs) (y ∷ ys) (suc m) (suc n) h k =
    let rest = compare_lem xs ys m n (omega arith) (omega arith) in
    elim (Bool-cases (ltb m n)) [
      | inl less ↦
          let more : ltb (suc m) (suc n) ≡ true = ground arith in
          rw more (ground (arith, rest, less, more))
      | inr not_less ↦
          let more : ltb (suc m) (suc n) ≡ false = ground arith in
          rw more (ground (arith, rest, not_less, more))
    ]

lt-compare : (x y : StringPiece) → piece_lt x y ≡ is_negative (compare_pieces x y)
unfolding piece_lt compare_pieces
lt-compare x y = ground arith

gt-compare : (x y : StringPiece) → piece_gt x y ≡ is_positive (compare_pieces x y)
unfolding piece_gt compare_pieces
gt-compare x y = ground arith

eq-compare : (x y : StringPiece) → piece_eq x y ≡ is_zero (compare_pieces x y)
unfolding piece_eq compare_pieces common
eq-compare x y = elim (Bool-cases (ltb x.size y.size)) [
  | inl less ↦ rw less (ground arith)
  | inr not_less ↦ elim (Bool-cases (ltb y.size x.size)) [
    | inl more ↦ rw (not_less, more) (ground arith)
    | inr not_more ↦
        let same : x.size ≡ y.size = ground arith in rw (not_less, not_more, same) (ground arith)
  ]
]

memcmp_self : (xs : List ℕ) (n : ℕ) → memcmp xs xs n ≡ pos 0
unfolding memcmp
memcmp_self xs zero = refl
memcmp_self [] (suc n) = refl
memcmp_self (x ∷ xs) (suc n) = ground (arith, memcmp_self xs n)

-- Of two pieces whose memory has their lengths, `compare` gives the order of their strings in the
-- dictionary, and `<`, `>` and `==` agree with it.
pub compare_pieces_lem :
    (x y : StringPiece)
    → IsPiece x
    → IsPiece y
    → (let r = lexical (as_string x) (as_string y) in
        (compare_pieces x y ≡ r)
        × (piece_lt x y ≡ is_negative r)
        × (piece_gt x y ≡ is_positive r)
        × (piece_eq x y ≡ is_zero r))
unfolding as_string
compare_pieces_lem x y h k =
    let e = compare_lem x.memory y.memory x.size y.size h k in
    (
      e,
      lt-compare x y ∙ ap (λ (r : ℤ). is_negative r) e,
      gt-compare x y ∙ ap (λ (r : ℤ). is_positive r) e,
      eq-compare x y ∙ ap (λ (r : ℤ). is_zero r) e,
    )

-- `<=` is `<`, and `>=` is `>`: a piece is neither below nor above its equal.
pub piece_le-strict :
    (x y : StringPiece)
    → (piece_le x y ≡ piece_lt x y) × (piece_ge x y ≡ piece_gt x y) × (piece_le x x ≡ false)
unfolding piece_le piece_lt piece_ge piece_gt
piece_le-strict x y = (
  ground arith,
  ground arith,
  ground (arith, memcmp_self x.memory (if ltb x.size x.size then x.size else x.size)),
)
