-- ===== src/Time/Zone/Lookup.antt =====
-- Both `findLocalTime` of src/base/src/TimeZone.cc on sorted tables.
use dws.Base.{
  ℕ, suc, ◌-◌, ◌≤◌, ◌≡◌, refl, arith, List, [], ◌∷◌, length, get_elem?, Option, none, some, true,
  false, if◌then◌else◌, ltb, Bool-cases, inl, inr, Result, ok,
}
use dws.Base.Int.{ℤ, ◌≤ℤ◌, ltb_ℤ}
use dws.Time.Zone.{
  Transition, LocalTime, Data, local_time_at, transition_at, upper_bound, is_before,
  find_local_time,
}

-- The keys never fall along the list.
abbrev pub AllFrom : (Transition → ℤ) → ℤ → List Transition → Type 0
AllFrom key k [] = Unit {0}
AllFrom key k (t ∷ ts) = (k ≤ℤ key t) × AllFrom key k ts

abbrev pub IsSorted : (Transition → ℤ) → List Transition → Type 0
IsSorted key [] = Unit {0}
IsSorted key (t ∷ ts) = AllFrom key (key t) ts × IsSorted key ts

-- The last transition of the list that is not after `x`.
pub latest : (Transition → ℤ) → List Transition → ℤ → Option Transition
latest key [] x = none
latest key (t ∷ ts) x = elim (latest key ts x) [
  | some u ↦ some u
  | none ↦ if ltb_ℤ x (key t) then none else some t
]

module _ (key : Transition → ℤ) where
  latest_early :
      (ts : List Transition) (k x : ℤ)
      → AllFrom key k ts
      → ltb_ℤ x k ≡ true
      → latest key ts x ≡ none
  unfolding latest
  latest_early [] k x a h = refl
  latest_early (t ∷ ts) k x a h = ground (arith, latest_early ts k x a.1 h)

  -- Past the first transition the upper bound is just behind the latest one.
  latest-upper_bound :
      (t : Transition) (ts : List Transition) (x : ℤ)
      → IsSorted key (t ∷ ts)
      → ltb_ℤ x (key t) ≡ false
      → latest key (t ∷ ts) x ≡ get_elem? (t ∷ ts) (upper_bound key ts x)
  unfolding latest upper_bound
  latest-upper_bound t [] x s h = ground arith
  latest-upper_bound t (u ∷ ts) x s h = elim (Bool-cases (ltb_ℤ x (key u))) [
    | inl early ↦ ground (arith, latest_early ts (key u) x s.1.0 early)
    | inr late ↦ ground (arith, latest-upper_bound u ts x s.1 late)
  ]

  upper_bound-le : (ts : List Transition) (x : ℤ) → upper_bound key ts x ≤ length ts
  unfolding upper_bound
  upper_bound-le [] x = omega arith
  upper_bound-le (t ∷ ts) x = ground (arith, upper_bound-le ts x)

  get_elem?-upper_bound :
      (t : Transition) (ts : List Transition) (x : ℤ)
      → (u : Transition) × (get_elem? (t ∷ ts) (upper_bound key ts x) ≡ some u)
  unfolding upper_bound
  get_elem?-upper_bound t [] x = (t, refl)
  get_elem?-upper_bound t (u ∷ ts) x = elim (Bool-cases (ltb_ℤ x (key u))) [
    | inl early ↦ (t, ground arith)
    | inr late ↦ let (v, e) = get_elem?-upper_bound u ts x in (v, ground (arith, e))
  ]

-- The local time that is in force at `x` by the table: that of the latest transition, and the first
-- one where there is none.
abbrev pub in_force : List LocalTime → Option Transition → Result LocalTime
in_force locals none = local_time_at locals 0
in_force locals (some t) = local_time_at locals t.local_time_index

module _ (t : Transition) (ts : List Transition) (x : ℤ) (late : ltb_ℤ x t.utc_time ≡ false) where
  bound : ℕ
  bound = upper_bound (λ t. t.utc_time) (t ∷ ts) x

  bound_lem : bound ≡ suc (upper_bound (λ t. t.utc_time) ts x)
  unfolding bound upper_bound
  bound_lem = ground arith

  -- The transition that the code looks at is the latest one.
  found :
      (u : Transition)
      → get_elem? (t ∷ ts) (upper_bound (λ t. t.utc_time) ts x) ≡ some u
      → (if ltb bound (length (t ∷ ts))
          then transition_at (t ∷ ts) (bound - 1)
          else transition_at (t ∷ ts) (length (t ∷ ts) - 1))
        ≡ ok u
  found u e = elim (Bool-cases (ltb bound (length (t ∷ ts)))) [
    | inl inside ↦ rw inside (at (bound - 1) (omega (arith, bound_lem)))
    | inr last ↦ rw last (
        at (length (t ∷ ts) - 1) (ground (arith, bound_lem, upper_bound-le (λ t. t.utc_time) ts x)))
  ]
    where
      at : (i : ℕ) → i ≡ upper_bound (λ t. t.utc_time) ts x → transition_at (t ∷ ts) i ≡ ok u
      at i f = unfold transition_at in rw f (ground (arith, e))

find_in :
    (locals : List LocalTime) (ts : List Transition) (x : ℤ)
    → IsSorted (λ t. t.utc_time) ts
    → find_local_time (record { transitions = ts; local_times = locals }) x
      ≡ in_force locals (latest (λ t. t.utc_time) ts x)
unfolding find_local_time is_before latest bound
find_in locals [] x s = refl
find_in locals (t ∷ ts) x s = elim (Bool-cases (ltb_ℤ x t.utc_time)) [
  | inl early ↦ ground (arith, latest_early (λ t. t.utc_time) ts t.utc_time x s.0 early)
  | inr late ↦
      let (u, e) = get_elem?-upper_bound (λ t. t.utc_time) t ts x in
      ground (
        arith,
        e,
        found t ts x late u e,
        latest-upper_bound (λ t. t.utc_time) t ts x s late,
        bound_lem t ts x late,
      )
]

-- On a table sorted by UTC time the lookup returns the local time of the last transition that is not
-- after `x`, and the first local time where every transition is after it.
pub find_local_time_lem :
    (d : Data) (x : ℤ)
    → IsSorted (λ t. t.utc_time) d.transitions
    → find_local_time d x ≡ in_force d.local_times (latest (λ t. t.utc_time) d.transitions x)
find_local_time_lem d x s = find_in d.local_times d.transitions x s
