-- ===== src/Log/Stream/Digits.antt =====
-- The digits that the loop of `convert` writes, and how digits are read.
use mathlib.Core.List.{reverse-cons}
use native.Mathlib.Nat.{mul_comm}
use native.Mathlib.Omega.{pow_step}
use dws.Base.{
  ℕ, zero, suc, ◌+◌, ◌-◌, ◌*◌, ◌/◌, ◌%◌, ◌^◌, ◌≤◌, ◌<◌, ◌≡◌, refl, ap, ◌∙◌, arith, List, [], ◌∷◌,
  ◌++◌, length, all_below, of-all_below, get_or, Bool, true, ◌&&◌, if◌then◌else◌, ◌==◌, reverse,
  length-append, ltb, leb, Bool-cases, inl, inr, ◌↔◌,
}
use dws.Base.Int.{ℤ, pos, negsuc, tdiv, tmod, sub_ℕ}
use dws.Log.Stream.{digits, digit, is_zero, convert_loop}

-- What a character stands for: a decimal digit, or a hexadecimal one from A to F.
unfoldable pub value_of : ℕ → ℕ
value_of c = if ltb c 65 then c - 48 else c - 55

-- The number that a text in base `b` denotes, read from the left.
unfoldable pub horner : ℕ → ℕ → List ℕ → ℕ
horner b acc [] = acc
horner b acc (c ∷ cs) = horner b (acc * b + value_of c) cs

unfoldable pub parse_hex : List ℕ → ℕ
parse_hex = horner 16 0

-- A decimal number, with `-` in front of a negative one.
unfoldable pub parse : List ℕ → ℤ
parse [] = pos 0
parse (c ∷ cs) = if c == 45 then sub_ℕ 0 (horner 10 0 cs) else pos (horner 10 0 (c ∷ cs))

-- The same number, read from the right.
unfoldable pub little : ℕ → List ℕ → ℕ
little b [] = 0
little b (c ∷ cs) = value_of c + b * little b cs

pub is_text : List ℕ → Bool
is_text [] = true
is_text (c ∷ cs) = leb 48 c && is_text cs

horner-append :
    (b acc : ℕ) (xs : List ℕ) (c : ℕ)
    → horner b acc (xs ++ c ∷ []) ≡ horner b acc xs * b + value_of c
unfolding horner
horner-append b acc [] c = refl
horner-append b acc (x ∷ xs) c = horner-append b (acc * b + value_of x) xs c

-- One digit.
unfoldable pub abs : ℤ → ℕ
abs (pos n) = n
abs (negsuc n) = suc n

digit_table :
    (d : ℕ) → d < 10 → (get_or digits (9 + d) 0 ≡ 48 + d) × (get_or digits (9 - d) 0 ≡ 48 + d)
unfolding all_below
digit_table d h = table d (checked d h)
  where
    holds : ℕ → Bool
    holds d = (get_or digits (9 + d) 0 == 48 + d) && (get_or digits (9 - d) 0 == 48 + d)

    checked : (d : ℕ) → d < 10 → holds d ≡ true
    checked d h = of-all_below holds h refl

    table :
        (d : ℕ)
        → holds d ≡ true
        → (get_or digits (9 + d) 0 ≡ 48 + d) × (get_or digits (9 - d) 0 ≡ 48 + d)
    table d e = ground (arith, e)

digit_lem : (i : ℤ) → digit (tmod i 10) ≡ 48 + abs i % 10
unfolding digit abs
digit_lem (pos n) = ground (arith, digit_table (n % 10))
digit_lem (negsuc n) = ground (arith, digit_table (suc n % 10))

abs-tdiv : (i : ℤ) → abs (tdiv i 10) ≡ abs i / 10
unfolding abs
abs-tdiv i = ground arith

is_zero_lem : (i : ℤ) → (is_zero i ≡ true) ↔ (abs i ≡ 0)
unfolding abs is_zero
is_zero_lem i = ground arith

pub horner-reverse : (b : ℕ) (xs : List ℕ) → horner b 0 (reverse xs) ≡ little b xs
unfolding horner little
horner-reverse b [] = refl
horner-reverse b (x ∷ xs) =
    ap (horner b 0) (reverse-cons x xs)
    ∙ horner-append b 0 (reverse xs) x
    ∙ ap (λ n. n * b + value_of x) (horner-reverse b xs)
    ∙ swapped (little b xs)
  where
    swapped : (n : ℕ) → n * b + value_of x ≡ value_of x + b * n
    swapped n = omega (arith, mul_comm n b)

is_text-append : (xs ys : List ℕ) → is_text (xs ++ ys) ≡ (is_text xs && is_text ys)
unfolding is_text
is_text-append [] ys = refl
is_text-append (x ∷ xs) ys = ground (arith, is_text-append xs ys)

pub is_text-reverse : (xs : List ℕ) → is_text (reverse xs) ≡ is_text xs
unfolding is_text
is_text-reverse [] = refl
is_text-reverse (x ∷ xs) =
    ap is_text (reverse-cons x xs)
    ∙ is_text-append (reverse xs) (x ∷ [])
    ∙ ground (arith, is_text-reverse xs)

value_of_digit : (n : ℕ) → n < 10 → value_of (48 + n) ≡ n
unfolding value_of
value_of_digit n h = ground arith

pub convert_loop-little :
    (fuel : ℕ) (i : ℤ) → abs i < 10 ^ fuel → little 10 (convert_loop fuel i) ≡ abs i
unfolding convert_loop little
convert_loop-little zero i h = omega arith
convert_loop-little (suc fuel) i h =
    let smaller : abs (tdiv i 10) < 10 ^ fuel = omega (arith, abs-tdiv i, pow_step 10 fuel) in
    let rest = convert_loop-little fuel (tdiv i 10) smaller in
    elim (Bool-cases (is_zero (tdiv i 10))) [
      | inl e ↦
          rw (e, digit_lem i, value_of_digit (abs i % 10) (omega arith))
            (omega (arith, abs-tdiv i, (is_zero_lem (tdiv i 10)).0 e))
      | inr e ↦
          rw (e, digit_lem i, value_of_digit (abs i % 10) (omega arith))
            (omega (arith, abs-tdiv i, rest))
    ]

pub convert_loop-is_text : (fuel : ℕ) (i : ℤ) → is_text (convert_loop fuel i) ≡ true
unfolding convert_loop is_text
convert_loop-is_text zero i = refl
convert_loop-is_text (suc fuel) i = elim (Bool-cases (is_zero (tdiv i 10))) [
  | inl e ↦ rw (e, digit_lem i) (ground arith)
  | inr e ↦ rw (e, digit_lem i) (ground (arith, convert_loop-is_text fuel (tdiv i 10)))
]

pub convert_loop-length : (fuel : ℕ) (i : ℤ) → length (convert_loop fuel i) ≤ fuel
unfolding convert_loop
convert_loop-length zero i = omega arith
convert_loop-length (suc fuel) i = elim (Bool-cases (is_zero (tdiv i 10))) [
  | inl e ↦ rw e (omega arith)
  | inr e ↦ rw e (omega (arith, convert_loop-length fuel (tdiv i 10)))
]

pub length-reverse : (xs : List ℕ) → length (reverse xs) ≡ length xs
length-reverse [] = refl
length-reverse (x ∷ xs) =
    ap length (reverse-cons x xs)
    ∙ omega (arith, length-append (reverse xs) (x ∷ []), length-reverse xs)

pub parse_text : (xs : List ℕ) → is_text xs ≡ true → parse xs ≡ pos (horner 10 0 xs)
unfolding parse is_text horner
parse_text [] h = refl
parse_text (x ∷ xs) h = ground (arith, h)
