-- ===== src/Base/Slices.antt =====
-- Parts of a list: what `memcpy`, `std::copy` and a vector's `resize` do to it.
use Prim.Native.Nat.{ℕ, zero, suc, ◌+◌, ◌≤◌, ◌<◌}
use mathlib.Core.Path.{◌≡◌, refl, ap, ◌∙◌}
use mathlib.Core.List.{List, [], ◌∷◌, ◌++◌}
use mathlib.Core.Option.{some}
use native.Mathlib.Omega.{arith}
use dws.Base.Lists.{
  length, get_elem?, take, drop, replicate, length-take, length-drop, length-replicate,
}

module _ {ℓ} {A : Type ℓ} where
  -- The `n` items from index `i` on.
  abbrev pub slice : ℕ → ℕ → List A → List A
  slice i n xs = take n (drop i xs)

  -- `std::copy(src, src + n, xs + i)`; what would fall outside is not written.
  abbrev pub copy_at : List A → ℕ → List A → List A
  copy_at [] i src = []
  copy_at (x ∷ xs) zero [] = x ∷ xs
  copy_at (x ∷ xs) zero (y ∷ ys) = y ∷ copy_at xs zero ys
  copy_at (x ∷ xs) (suc i) src = x ∷ copy_at xs i src

  -- `std::vector::resize`
  abbrev pub resize : List A → ℕ → A → List A
  resize [] n a = replicate n a
  resize (x ∷ xs) zero a = []
  resize (x ∷ xs) (suc n) a = x ∷ resize xs n a

  pub length-copy_at : (xs : List A) (i : ℕ) (src : List A) → length (copy_at xs i src) ≡ length xs
  length-copy_at [] i src = refl
  length-copy_at (x ∷ xs) zero [] = refl
  length-copy_at (x ∷ xs) zero (y ∷ ys) = ap suc (length-copy_at xs zero ys)
  length-copy_at (x ∷ xs) (suc i) src = ap suc (length-copy_at xs i src)

  pub length-resize : (xs : List A) (n : ℕ) (a : A) → length (resize xs n a) ≡ n
  length-resize [] n a = length-replicate n a
  length-resize (x ∷ xs) zero a = refl
  length-resize (x ∷ xs) (suc n) a = ap suc (length-resize xs n a)

  pub take-all : (n : ℕ) (xs : List A) → length xs ≤ n → take n xs ≡ xs
  take-all zero [] h = refl
  take-all zero (x ∷ xs) h = absurd (omega arith)
  take-all (suc n) [] h = refl
  take-all (suc n) (x ∷ xs) h = ap (◌∷◌ x) (take-all n xs (omega arith))

  pub length-slice : (i n : ℕ) (xs : List A) → i + n ≤ length xs → length (slice i n xs) ≡ n
  length-slice i n xs h = omega (arith, length-take n (drop i xs), length-drop i xs)

  pub slice-copy_at_self :
      (xs : List A) (i : ℕ) (src : List A)
      → i + length src ≤ length xs
      → slice i (length src) (copy_at xs i src) ≡ src
  slice-copy_at_self [] zero [] h = refl
  slice-copy_at_self [] (suc i) [] h = refl
  slice-copy_at_self [] i (y ∷ ys) h = absurd (omega arith)
  slice-copy_at_self (x ∷ xs) zero [] h = refl
  slice-copy_at_self (x ∷ xs) zero (y ∷ ys) h =
      ap (◌∷◌ y) (slice-copy_at_self xs zero ys (omega arith))
  slice-copy_at_self (x ∷ xs) (suc i) src h = slice-copy_at_self xs i src (omega arith)

  pub slice-copy_at_before :
      (xs : List A) (i : ℕ) (src : List A) (j n : ℕ)
      → j + n ≤ i
      → slice j n (copy_at xs i src) ≡ slice j n xs
  slice-copy_at_before [] i src j n h = refl
  slice-copy_at_before (x ∷ xs) zero src zero zero h = refl
  slice-copy_at_before (x ∷ xs) zero src zero (suc n) h = absurd (omega arith)
  slice-copy_at_before (x ∷ xs) zero src (suc j) n h = absurd (omega arith)
  slice-copy_at_before (x ∷ xs) (suc i) src zero zero h = refl
  slice-copy_at_before (x ∷ xs) (suc i) src zero (suc n) h =
      ap (◌∷◌ x) (slice-copy_at_before xs i src zero n (omega arith))
  slice-copy_at_before (x ∷ xs) (suc i) src (suc j) n h =
      slice-copy_at_before xs i src j n (omega arith)

  pub slice-copy_at_after :
      (xs : List A) (i : ℕ) (src : List A) (j n : ℕ)
      → i + length src ≤ j
      → slice j n (copy_at xs i src) ≡ slice j n xs
  slice-copy_at_after [] i src j n h = refl
  slice-copy_at_after (x ∷ xs) zero [] j n h = refl
  slice-copy_at_after (x ∷ xs) zero (y ∷ ys) zero n h = absurd (omega arith)
  slice-copy_at_after (x ∷ xs) zero (y ∷ ys) (suc j) n h =
      slice-copy_at_after xs zero ys j n (omega arith)
  slice-copy_at_after (x ∷ xs) (suc i) src zero n h = absurd (omega arith)
  slice-copy_at_after (x ∷ xs) (suc i) src (suc j) n h =
      slice-copy_at_after xs i src j n (omega arith)

  take-split : (ys : List A) (n m t : ℕ) → t ≡ n + m → take t ys ≡ take n ys ++ take m (drop n ys)
  take-split ys zero m t e = ap (λ k. take k ys) (omega arith)
  take-split ys (suc n) m zero e = absurd (omega arith)
  take-split [] (suc n) zero (suc t) e = refl
  take-split [] (suc n) (suc m) (suc t) e = refl
  take-split (y ∷ ys) (suc n) m (suc t) e = ap (◌∷◌ y) (take-split ys n m t (omega arith))

  drop-take : (ys : List A) (n k m : ℕ) → n ≡ k + m → drop k (take n ys) ≡ take m (drop k ys)
  drop-take ys n zero m e = ap (λ t. take t ys) (omega arith)
  drop-take ys zero (suc k) m e = absurd (omega arith)
  drop-take [] (suc n) (suc k) zero e = refl
  drop-take [] (suc n) (suc k) (suc m) e = refl
  drop-take (y ∷ ys) (suc n) (suc k) m e = drop-take ys n k m (omega arith)

  take-take : (ys : List A) (n k : ℕ) → k ≤ n → take k (take n ys) ≡ take k ys
  take-take ys n zero h = refl
  take-take ys zero (suc k) h = absurd (omega arith)
  take-take [] (suc n) (suc k) h = refl
  take-take (y ∷ ys) (suc n) (suc k) h = ap (◌∷◌ y) (take-take ys n k (omega arith))

  pub drop-drop : (xs : List A) (i n j : ℕ) → j ≡ i + n → drop n (drop i xs) ≡ drop j xs
  drop-drop xs zero n j e = ap (λ k. drop k xs) (omega arith)
  drop-drop xs (suc i) n zero e = absurd (omega arith)
  drop-drop [] (suc i) zero (suc j) e = refl
  drop-drop [] (suc i) (suc n) (suc j) e = refl
  drop-drop (x ∷ xs) (suc i) n (suc j) e = drop-drop xs i n j (omega arith)

  pub slice-append :
      (xs : List A) (i n m t j : ℕ)
      → t ≡ n + m
      → j ≡ i + n
      → slice i t xs ≡ slice i n xs ++ slice j m xs
  slice-append xs i n m t j e f =
      take-split (drop i xs) n m t e
      ∙ ap (λ ys. take n (drop i xs) ++ take m ys) (drop-drop xs i n j f)

  pub drop-slice :
      (xs : List A) (i n k j m : ℕ) → n ≡ k + m → j ≡ i + k → drop k (slice i n xs) ≡ slice j m xs
  drop-slice xs i n k j m e f = drop-take (drop i xs) n k m e ∙ ap (take m) (drop-drop xs i k j f)

  pub take-slice : (xs : List A) (i n k : ℕ) → k ≤ n → take k (slice i n xs) ≡ slice i k xs
  take-slice xs i n k h = take-take (drop i xs) n k h

  pub slice-resize :
      (xs : List A) (n : ℕ) (a : A) (i m : ℕ)
      → i + m ≤ length xs
      → length xs ≤ n
      → slice i m (resize xs n a) ≡ slice i m xs
  slice-resize [] n a zero zero h k = refl
  slice-resize [] n a (suc i) m h k = absurd (omega arith)
  slice-resize [] n a zero (suc m) h k = absurd (omega arith)
  slice-resize (x ∷ xs) zero a i m h k = absurd (omega arith)
  slice-resize (x ∷ xs) (suc n) a zero zero h k = refl
  slice-resize (x ∷ xs) (suc n) a zero (suc m) h k =
      ap (◌∷◌ x) (slice-resize xs n a zero m (omega arith) (omega arith))
  slice-resize (x ∷ xs) (suc n) a (suc i) m h k =
      slice-resize xs n a i m (omega arith) (omega arith)

module _ {ℓ} {A : Type ℓ} where
  pub take-append_length : (xs ys : List A) (n : ℕ) → n ≡ length xs → take n (xs ++ ys) ≡ xs
  take-append_length [] ys n e = ap (λ k. take k ys) e
  take-append_length (x ∷ xs) ys zero e = absurd (omega arith)
  take-append_length (x ∷ xs) ys (suc n) e = ap (◌∷◌ x) (take-append_length xs ys n (omega arith))

  pub drop-append_length : (xs ys : List A) (n : ℕ) → n ≡ length xs → drop n (xs ++ ys) ≡ ys
  drop-append_length [] ys n e = ap (λ k. drop k ys) e
  drop-append_length (x ∷ xs) ys zero e = absurd (omega arith)
  drop-append_length (x ∷ xs) ys (suc n) e = drop-append_length xs ys n (omega arith)

module _ {ℓ} {A : Type ℓ} where
  pub get_elem?-some : (xs : List A) (i : ℕ) → i < length xs → (x : A) × (get_elem? xs i ≡ some x)
  get_elem?-some [] i h = absurd (omega arith)
  get_elem?-some (x ∷ xs) zero h = (x, refl)
  get_elem?-some (x ∷ xs) (suc i) h = get_elem?-some xs i (omega arith)

  pub lt_of_get_elem? : (xs : List A) (i : ℕ) (x : A) → get_elem? xs i ≡ some x → i < length xs
  lt_of_get_elem? [] i x e = cc
  lt_of_get_elem? (y ∷ xs) zero x e = omega arith
  lt_of_get_elem? (y ∷ xs) (suc i) x e = omega (arith, lt_of_get_elem? xs i x e)

module _ {ℓ} {A : Type ℓ} where
  pub get_elem?-append_last : (xs : List A) (y : A) → get_elem? (xs ++ y ∷ []) (length xs) ≡ some y
  get_elem?-append_last [] y = refl
  get_elem?-append_last (x ∷ xs) y = get_elem?-append_last xs y

  pub get_elem?-append_left :
      (xs ys : List A) (i : ℕ) → i < length xs → get_elem? (xs ++ ys) i ≡ get_elem? xs i
  get_elem?-append_left [] ys i h = absurd (omega arith)
  get_elem?-append_left (x ∷ xs) ys zero h = refl
  get_elem?-append_left (x ∷ xs) ys (suc i) h = get_elem?-append_left xs ys i (omega arith)

  pub get_elem?-take :
      (n : ℕ) (xs : List A) (i : ℕ) → i < n → get_elem? (take n xs) i ≡ get_elem? xs i
  get_elem?-take zero xs i h = absurd (omega arith)
  get_elem?-take (suc n) [] i h = refl
  get_elem?-take (suc n) (x ∷ xs) zero h = refl
  get_elem?-take (suc n) (x ∷ xs) (suc i) h = get_elem?-take n xs i (omega arith)
