-- ===== src/Base/Faults.antt =====
-- Calls that may not return: a failed `assert` aborts the process, a standard container throws.
use mathlib.Core.Path.{◌≡◌, refl, subst, sym, ◌∙◌}
use mathlib.Core.Bool.{Bool, true, false}

-- `dangling` is a read through a pointer to an object that was deleted.
pub data Fault : Type 0 where
  assertion length_error out_of_range logic_error fatal dangling : Fault

pub data Result {ℓ} (S : Type ℓ) : Type ℓ where
  -- the call did not return
  err : Fault → Result S
  ok : S → Result S

-- A sequence of calls: the first fault ends it.
infixl 5 ◌>>=◌
abbrev pub ◌>>=◌ {κ ℓ} : {S : Type κ} {T : Type ℓ} → Result S → (S → Result T) → Result T
err fault >>= next = err fault
ok s >>= next = next s

infixl 5 ◌>>◌
abbrev pub ◌>>◌ {κ} : {T : Type κ} → Result (Unit {0}) → Result T → Result T
first >> next = first >>= λ _. next

abbrev pub assert : Bool → Result (Unit {0})
assert true = ok tt
assert false = err assertion

-- The call returns, and its result has the property.
abbrev pub Returns {ℓ κ} : {A : Type ℓ} → Result A → (A → Type κ) → Type (ℓ ⊔ κ)
Returns {A = A} r P = (a : A) × (r ≡ ok a) × P a

-- What a sequence of two calls returned came from what the first one returned.
pub bind_ok {κ ℓ} :
    {S : Type κ} {T : Type ℓ} (call : Result S) (next : S → Result T) {t : T}
    → (call >>= next) ≡ ok t
    → (s : S) × (call ≡ ok s) × (next s ≡ ok t)
bind_ok (err fault) next e = cc
bind_ok (ok s) next e = (s, refl, e)

pub ok_inj {ℓ} : {A : Type ℓ} {a b : A} → (◌≡◌ {A = Result A} (ok a) (ok b)) → a ≡ b
ok_inj h = cc

-- A call has one result.
pub Returns-ok {ℓ κ} :
    {A : Type ℓ} {P : A → Type κ} {call : Result A} {a : A} → Returns call P → call ≡ ok a → P a
Returns-ok {P = P} (b, e, holds) h = subst P (ok_inj (sym e ∙ h)) holds
