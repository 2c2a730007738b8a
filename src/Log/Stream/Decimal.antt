-- ===== src/Log/Stream/Decimal.antt =====
-- `convert` and `convertHex` write the text of the number they are given.
use mathlib.Core.List.{reverse-append, append-nil}
use native.Mathlib.Omega.{pow_step}
use dws.Base.{
  ℕ, zero, suc, ◌/◌, ◌%◌, ◌^◌, ◌≤◌, ◌<◌, ◌≡◌, refl, ap, ◌∙◌, arith, List, [], ◌∷◌, length,
  all_below, of-all_below, ==_iff, get_or, true, ◌==◌, reverse, Bool-cases, inl, inr,
}
use dws.Base.Int.{ℤ, pos, negsuc}
use dws.Log.Stream.{
  digits_hex, is_negative, convert_loop, convert_turns, convert, convert_hex_loop,
  convert_hex_turns, convert_hex,
}
use dws.Log.Stream.Digits.{
  value_of, horner, parse, parse_hex, little, is_text, abs, horner-reverse, is_text-reverse,
  convert_loop-little, convert_loop-is_text, convert_loop-length, length-reverse, parse_text,
}

-- The decimal text of a number.
pub record Decimal (v : ℤ) (text : List ℕ) : Type 0 where
  pub reads : parse text ≡ v
  pub short : length text ≤ 21

convert_nonnegative : (n : ℕ) → n < 10 ^ convert_turns → Decimal (pos n) (convert (pos n))
unfolding convert is_negative abs
convert_nonnegative n h =
    let l = convert_loop convert_turns (pos n) in
    let t_lem : convert (pos n) ≡ reverse l = ap reverse (append-nil l) in
    let p : is_text (reverse l) ≡ true =
      is_text-reverse l ∙ convert_loop-is_text convert_turns (pos n) in
    record {
      reads =
          ap parse t_lem
          ∙ parse_text (reverse l) p
          ∙ ap pos (horner-reverse 10 l ∙ convert_loop-little convert_turns (pos n) h);
      short =
          omega
            (arith, ap length t_lem, length-reverse l, convert_loop-length convert_turns (pos n));
    }

convert_negative : (n : ℕ) → suc n < 10 ^ convert_turns → Decimal (negsuc n) (convert (negsuc n))
unfolding convert is_negative abs parse
convert_negative n h =
    let l = convert_loop convert_turns (negsuc n) in
    let t_lem : convert (negsuc n) ≡ 45 ∷ reverse l = reverse-append l (45 ∷ []) in
    let v_lem : horner 10 0 (reverse l) ≡ suc n =
      horner-reverse 10 l ∙ convert_loop-little convert_turns (negsuc n) h in
    record {
      reads = ap parse t_lem ∙ rw v_lem (ground arith);
      short =
          omega (
            arith,
            ap length t_lem,
            length-reverse l,
            convert_loop-length convert_turns (negsuc n),
          );
    }

-- Every number of 64 bits, signed or not, gets its decimal text: `convert` stops within its 20 turns,
-- writes at most 21 characters, and reading them gives the number again.
pub convert-Decimal : (v : ℤ) → abs v < 2 ^ 64 → Decimal v (convert v)
unfolding abs
convert-Decimal (pos n) h = convert_nonnegative n (omega arith)
convert-Decimal (negsuc n) h = convert_negative n (omega arith)

digit_hex_lem : (d : ℕ) → d < 16 → value_of (get_or digits_hex d 0) ≡ d
unfolding value_of all_below
digit_hex_lem d h =
    (==_iff _ d).0 (of-all_below (λ d. value_of (get_or digits_hex d 0) == d) h refl)

convert_hex_loop-little : (fuel i : ℕ) → i < 16 ^ fuel → little 16 (convert_hex_loop fuel i) ≡ i
unfolding convert_hex_loop little
convert_hex_loop-little zero i h = omega arith
convert_hex_loop-little (suc fuel) i h =
    let smaller : i / 16 < 16 ^ fuel = omega (arith, pow_step 16 fuel) in
    let rest = convert_hex_loop-little fuel (i / 16) smaller in
    elim (Bool-cases (i / 16 == 0)) [
      | inl e ↦
          rw (e, digit_hex_lem (i % 16) (omega arith)) (omega (arith, (==_iff (i / 16) 0).0 e))
      | inr e ↦ rw (e, digit_hex_lem (i % 16) (omega arith)) (omega (arith, rest))
    ]

convert_hex_loop-length : (fuel i : ℕ) → length (convert_hex_loop fuel i) ≤ fuel
unfolding convert_hex_loop
convert_hex_loop-length zero i = omega arith
convert_hex_loop-length (suc fuel) i = elim (Bool-cases (i / 16 == 0)) [
  | inl e ↦ rw e (omega arith)
  | inr e ↦ rw e (omega (arith, convert_hex_loop-length fuel (i / 16)))
]

-- Every address of 64 bits gets its hexadecimal text, of at most 16 characters.
pub parse_hex-convert_hex :
    (v : ℕ) → v < 2 ^ 64 → (parse_hex (convert_hex v) ≡ v) × (length (convert_hex v) ≤ 16)
unfolding convert_hex parse_hex
parse_hex-convert_hex v h =
    let l = convert_hex_loop convert_hex_turns v in
    (
      horner-reverse 16 l ∙ convert_hex_loop-little convert_hex_turns v (omega arith),
      omega (arith, length-reverse l, convert_hex_loop-length convert_hex_turns v),
    )
