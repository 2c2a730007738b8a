-- ===== src/Base/Int.antt =====
-- Signed integers over the native numbers, under the library's names (its ℤ stands on the unary ℕ).
-- Sums and orders go through the two parts of an integer, which are numbers that `omega` reads.
use Prim.Native.Nat.{ℕ, suc, ◌+◌, ◌-◌, ◌*◌, ◌/◌, ◌%◌, ◌^◌, ◌≤◌, ◌<◌}
use mathlib.Core.Path.{◌≡◌}
use mathlib.Core.Logic.{◌⊎◌}
use mathlib.Core.Bool.{Bool}
use native.Mathlib.Omega.{arith}
use dws.Base.Tests.{ltb, leb, if◌then◌else◌}

-- `negsuc n` is -(n + 1).
pub data ℤ : Type 0 where
  pos : ℕ → ℤ
  negsuc : ℕ → ℤ

abbrev pub pos_part : ℤ → ℕ
pos_part (pos n) = n
pos_part (negsuc n) = 0

abbrev pub neg_part : ℤ → ℕ
neg_part (pos n) = 0
neg_part (negsuc n) = suc n

-- a - b, as an integer.
abbrev pub sub_ℕ : ℕ → ℕ → ℤ
sub_ℕ a b = if leb b a then pos (a - b) else negsuc (b - a - 1)

infixl 65 ◌+ℤ◌ ◌-ℤ◌
infixl 70 ◌*ℤ◌
infix 50 ◌≤ℤ◌
unfoldable pub ◌+ℤ◌ : ℤ → ℤ → ℤ
a +ℤ b = sub_ℕ (pos_part a + pos_part b) (neg_part a + neg_part b)

unfoldable pub ◌-ℤ◌ : ℤ → ℤ → ℤ
a -ℤ b = sub_ℕ (pos_part a + neg_part b) (neg_part a + pos_part b)

unfoldable pub ◌*ℤ◌ : ℤ → ℤ → ℤ
a *ℤ b =
    sub_ℕ (pos_part a * pos_part b + neg_part a * neg_part b)
      (pos_part a * neg_part b + neg_part a * pos_part b)

abbrev pub ◌≤ℤ◌ : ℤ → ℤ → Type 0
a ≤ℤ b = pos_part a + neg_part b ≤ pos_part b + neg_part a

abbrev pub ltb_ℤ : ℤ → ℤ → Bool
ltb_ℤ a b = ltb (pos_part a + neg_part b) (pos_part b + neg_part a)

-- With the operations unfolded `ground` splits on the signs.
pub +ℤ_comm : (a b : ℤ) → a +ℤ b ≡ b +ℤ a
unfolding ◌+ℤ◌
+ℤ_comm a b = ground arith

pub +ℤ_assoc : (a b c : ℤ) → a +ℤ b +ℤ c ≡ a +ℤ (b +ℤ c)
unfolding ◌+ℤ◌
+ℤ_assoc a b c = ground arith

pub +ℤ_cancel : (a b : ℤ) → a +ℤ b -ℤ b ≡ a
unfolding ◌+ℤ◌ ◌-ℤ◌
+ℤ_cancel a b = ground arith

pub ≤ℤ_total : (a b : ℤ) → (a ≤ℤ b) ⊎ (b ≤ℤ a)
≤ℤ_total a b = omega arith

-- One lemma for each operation lets `omega` work with the operations shut, at any depth.
pub +ℤ_parts :
    (a b : ℤ)
    → pos_part (a +ℤ b) + neg_part a + neg_part b ≡ neg_part (a +ℤ b) + pos_part a + pos_part b
unfolding ◌+ℤ◌
+ℤ_parts a b = ground arith

pub -ℤ_parts :
    (a b : ℤ)
    → pos_part (a -ℤ b) + neg_part a + pos_part b ≡ neg_part (a -ℤ b) + pos_part a + neg_part b
unfolding ◌-ℤ◌
-ℤ_parts a b = ground arith

pub eq_of_parts : (a b : ℤ) → pos_part a + neg_part b ≡ pos_part b + neg_part a → a ≡ b
eq_of_parts a b h = ground arith

pub ruleset int_laws = (arith, +ℤ_parts, -ℤ_parts, eq_of_parts)

-- C's `/` and `%` by a positive number: the quotient is rounded towards zero, and the remainder
-- has the dividend's sign.
abbrev pub tdiv : ℤ → ℕ → ℤ
tdiv (pos a) b = pos (a / b)
tdiv (negsuc a) b = sub_ℕ 0 (suc a / b)

abbrev pub tmod : ℤ → ℕ → ℤ
tmod (pos a) b = pos (a % b)
tmod (negsuc a) b = sub_ℕ 0 (suc a % b)

pub +ℤ_pos : (a b : ℕ) → pos a +ℤ pos b ≡ pos (a + b)
unfolding ◌+ℤ◌
+ℤ_pos a b = ground arith

pub *ℤ_pos : (a b : ℕ) → pos a *ℤ pos b ≡ pos (a * b)
unfolding ◌*ℤ◌
*ℤ_pos a b = ground arith

pub -ℤ_pos : (a b : ℕ) → b ≤ a → pos a -ℤ pos b ≡ pos (a - b)
unfolding ◌-ℤ◌
-ℤ_pos a b h = ground arith

-- The remainder from 0 on, whatever the sign.
abbrev pub fmod : ℤ → ℕ → ℕ
fmod (pos a) b = a % b
fmod (negsuc a) b = b - 1 - a % b

-- Conversion to a signed type of 8 or 32 bits.
unfoldable pub cast8 : ℤ → ℤ
unfolding ◌+ℤ◌
cast8 x = sub_ℕ (fmod (x +ℤ pos 128) 256) 128

unfoldable pub cast32 : ℤ → ℤ
unfolding ◌+ℤ◌
cast32 x = sub_ℕ (fmod (x +ℤ pos (2 ^ 31)) (2 ^ 32)) (2 ^ 31)

pub cast8_pos : (a : ℕ) → a < 128 → cast8 (pos a) ≡ pos a
unfolding cast8
cast8_pos a h = ground arith

pub cast8_wrap : (a : ℕ) → 128 ≤ a → a < 256 → cast8 (pos a) ≡ negsuc (255 - a)
unfolding cast8
cast8_wrap a h k = ground arith

pub cast32_lem : (x : ℤ) → pos_part x < 2 ^ 31 → neg_part x ≤ 2 ^ 31 → cast32 x ≡ x
unfolding cast32
cast32_lem (pos a) h k = ground arith
cast32_lem (negsuc a) h k = ground arith

pub cast8_lem : (x : ℤ) → pos_part x < 128 → neg_part x ≤ 128 → cast8 x ≡ x
unfolding cast8
cast8_lem (pos a) h k = ground arith
cast8_lem (negsuc a) h k = ground arith

pub cast8_le : (x : ℤ) → (pos_part (cast8 x) ≤ 127) × (neg_part (cast8 x) ≤ 128)
unfolding cast8
cast8_le (pos a) = ground arith
cast8_le (negsuc a) = ground arith

pub *ℤ_numeral :
    (a : ℤ) (n : ℕ)
    → (pos_part (a *ℤ pos n) ≡ pos_part a * n) × (neg_part (a *ℤ pos n) ≡ neg_part a * n)
unfolding ◌*ℤ◌
*ℤ_numeral (pos a) n = ground arith
*ℤ_numeral (negsuc a) n = ground arith
