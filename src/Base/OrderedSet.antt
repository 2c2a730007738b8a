-- ===== src/Base/OrderedSet.antt =====
-- `std::set` of pairs of numbers, as the ascending list of its items: pairs are compared by their
-- first parts, and by their second parts where those are equal.
use Prim.Native.Nat.{ℕ, suc}
use mathlib.Core.Path.{◌≡◌, refl}
use mathlib.Core.Bool.{Bool, true, false, ◌&&◌, ◌||◌}
use mathlib.Core.List.{List, [], ◌∷◌, ◌++◌}
use native.Mathlib.Omega.{arith}
use dws.Base.Tests.{ltb, ◌==◌, if◌then◌else◌}
use dws.Base.Lists.{length}

abbrev pub same : ℕ × ℕ → ℕ × ℕ → Bool
same x y = x.0 == y.0 && x.1 == y.1

abbrev pub less : ℕ × ℕ → ℕ × ℕ → Bool
less x y = ltb x.0 y.0 || x.0 == y.0 && ltb x.1 y.1

unfoldable pub contains : ℕ × ℕ → List (ℕ × ℕ) → Bool
contains x [] = false
contains x (y ∷ ys) = same x y || contains x ys

-- An item that is there already is not inserted again.
unfoldable pub insert : ℕ × ℕ → List (ℕ × ℕ) → List (ℕ × ℕ)
insert x [] = x ∷ []
insert x (y ∷ ys) = if less x y then x ∷ y ∷ ys else if same x y then y ∷ ys else y ∷ insert x ys

unfoldable pub erase : ℕ × ℕ → List (ℕ × ℕ) → List (ℕ × ℕ)
erase x [] = []
erase x (y ∷ ys) = if same x y then ys else y ∷ erase x ys

-- The items below `x`, and those from `lower_bound(x)` on.
unfoldable pub before : ℕ × ℕ → List (ℕ × ℕ) → List (ℕ × ℕ)
before x [] = []
before x (y ∷ ys) = if less y x then y ∷ before x ys else []

unfoldable pub from_bound : ℕ × ℕ → List (ℕ × ℕ) → List (ℕ × ℕ)
from_bound x [] = []
from_bound x (y ∷ ys) = if less y x then from_bound x ys else y ∷ ys

-- Every item is above `x`.
abbrev pub IsAbove : ℕ × ℕ → List (ℕ × ℕ) → Type 0
IsAbove x [] = Unit
IsAbove x (y ∷ ys) = (less x y ≡ true) × IsAbove x ys

abbrev pub IsAscending : List (ℕ × ℕ) → Type 0
IsAscending [] = Unit
IsAscending (x ∷ xs) = IsAbove x xs × IsAscending xs

pub same-eq : (x y : ℕ × ℕ) → same x y ≡ true → x ≡ y
same-eq x y h = ground arith

pub contains-insert :
    (x y : ℕ × ℕ) (s : List (ℕ × ℕ))
    → contains x (insert y s) ≡ (if same x y then true else contains x s)
unfolding contains insert
contains-insert x y [] = ground arith
contains-insert x y (z ∷ zs) = ground (arith, contains-insert x y zs)

pub IsAbove-trans : (x y : ℕ × ℕ) (s : List (ℕ × ℕ)) → less x y ≡ true → IsAbove y s → IsAbove x s
IsAbove-trans x y [] h a = tt
IsAbove-trans x y (z ∷ zs) h a = (ground arith, IsAbove-trans x y zs h a.1)

pub above_not : (x : ℕ × ℕ) (s : List (ℕ × ℕ)) → IsAbove x s → contains x s ≡ false
unfolding contains
above_not x [] h = refl
above_not x (y ∷ ys) h = ground (arith, above_not x ys h.1)

insert-IsAbove :
    (x y : ℕ × ℕ) (s : List (ℕ × ℕ)) → less x y ≡ true → IsAbove x s → IsAbove x (insert y s)
unfolding insert
insert-IsAbove x y [] h a = (h, tt)
insert-IsAbove x y (z ∷ zs) h a = ground (arith, insert-IsAbove x y zs h a.1)

pub insert-IsAscending : (x : ℕ × ℕ) (s : List (ℕ × ℕ)) → IsAscending s → IsAscending (insert x s)
unfolding insert
insert-IsAscending x [] h = (tt, tt)
insert-IsAscending x (y ∷ ys) h =
    ground
      (arith, insert-IsAscending x ys h.1, insert-IsAbove y x ys, IsAbove-trans x y ys, same-eq x y)

pub length-insert :
    (x : ℕ × ℕ) (s : List (ℕ × ℕ))
    → IsAscending s
    → length (insert x s) ≡ (if contains x s then length s else suc (length s))
unfolding insert contains
length-insert x [] h = refl
length-insert x (y ∷ ys) h =
    ground (arith, length-insert x ys h.1, above_not x ys, IsAbove-trans x y ys)

erase-IsAbove : (x y : ℕ × ℕ) (s : List (ℕ × ℕ)) → IsAbove x s → IsAbove x (erase y s)
unfolding erase
erase-IsAbove x y [] a = tt
erase-IsAbove x y (z ∷ zs) a = ground (arith, erase-IsAbove x y zs a.1)

pub erase-IsAscending : (x : ℕ × ℕ) (s : List (ℕ × ℕ)) → IsAscending s → IsAscending (erase x s)
unfolding erase
erase-IsAscending x [] h = tt
erase-IsAscending x (y ∷ ys) h =
    ground (arith, erase-IsAscending x ys h.1, erase-IsAbove y x ys h.0)

pub contains-erase :
    (x y : ℕ × ℕ) (s : List (ℕ × ℕ))
    → IsAscending s
    → contains x (erase y s) ≡ (if same x y then false else contains x s)
unfolding contains erase
contains-erase x y [] h = ground arith
contains-erase x y (z ∷ zs) h =
    ground
      (arith, contains-erase x y zs h.1, same-eq x y, same-eq y z, same-eq x z, above_not z zs h.0)

pub length-erase :
    (x : ℕ × ℕ) (s : List (ℕ × ℕ))
    → (if contains x s then suc (length (erase x s)) else length (erase x s)) ≡ length s
unfolding erase contains
length-erase x [] = refl
length-erase x (y ∷ ys) = ground (arith, length-erase x ys)

pub before-append-from_bound : (x : ℕ × ℕ) (s : List (ℕ × ℕ)) → before x s ++ from_bound x s ≡ s
unfolding before from_bound
before-append-from_bound x [] = refl
before-append-from_bound x (y ∷ ys) = ground (arith, before-append-from_bound x ys)

pub contains-append :
    (x : ℕ × ℕ) (s t : List (ℕ × ℕ)) → contains x (s ++ t) ≡ (contains x s || contains x t)
unfolding contains
contains-append x [] t = refl
contains-append x (y ∷ s) t = ground (arith, contains-append x s t)

pub append-IsAbove :
    (x : ℕ × ℕ) (s t : List (ℕ × ℕ)) → IsAbove x (s ++ t) → IsAbove x s × IsAbove x t
append-IsAbove x [] t h = (tt, h)
append-IsAbove x (y ∷ s) t h = let r = append-IsAbove x s t h.1 in ((h.0, r.0), r.1)

pub append-IsAscending : (s t : List (ℕ × ℕ)) → IsAscending (s ++ t) → IsAscending s × IsAscending t
append-IsAscending [] t h = (tt, h)
append-IsAscending (x ∷ s) t h =
    let r = append-IsAscending s t h.1 in (((append-IsAbove x s t h.0).0, r.0), r.1)

-- What is before a bound is not what comes from it on.
pub append_apart :
    (x : ℕ × ℕ) (s t : List (ℕ × ℕ))
    → IsAscending (s ++ t)
    → contains x s ≡ true
    → contains x t ≡ false
unfolding contains
append_apart x [] t h c = cc
append_apart x (y ∷ s) t h c =
    ground (arith, same-eq x y, above_not y t (append-IsAbove y s t h.0).1, append_apart x s t h.1)

pub contains-cons_self : (x : ℕ × ℕ) (s : List (ℕ × ℕ)) → contains x (x ∷ s) ≡ true
unfolding contains
contains-cons_self x s = ground arith
