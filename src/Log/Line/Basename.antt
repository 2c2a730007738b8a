-- ===== src/Log/Line/Basename.antt =====
-- What the constructor of `SourceFile` keeps of a file's name.
use dws.Base.{
  ℕ, ◌≡◌, refl, ap, arith, List, [], ◌∷◌, ◌++◌, Option, none, some, Bool, false, ◌||◌, ◌==◌, ==_iff,
  Option-cases, Bool-cases, inl, inr, ◌⊎◌,
}
use dws.Log.Line.{behind_slash, source_file}

unfoldable pub has_slash : List ℕ → Bool
has_slash [] = false
has_slash (c ∷ cs) = (c == 47) || has_slash cs

-- No slash, or the name up to the last slash and what is behind it.
unfoldable pub Split : List ℕ → Option (List ℕ) → Type 0
unfolding has_slash
Split name none = has_slash name ≡ false
Split name (some rest) = (d : List ℕ) × (name ≡ d ++ 47 ∷ rest) × (has_slash rest ≡ false)

behind_slash-Split : (name : List ℕ) → Split name (behind_slash name)
unfolding Split behind_slash has_slash
behind_slash-Split [] = refl
behind_slash-Split (c ∷ cs) =
    let ih = behind_slash-Split cs in
    elim (Option-cases (behind_slash cs)) [
      | inr (rest, e) ↦ let (d, p, q) = rw e at ih in rw e ((c ∷ d, ap (λ t. c ∷ t) p, q))
      | inl e ↦
          let h = rw e at ih in
          elim (Bool-cases (c == 47)) [
            | inl f ↦ rw (e, f) (([], ap (λ n. n ∷ cs) ((==_iff c 47).0 f), h))
            | inr f ↦ rw (e, f) (ground (arith, f, h))
          ]
    ]

-- The name that is kept has no slash; it is the whole name, or what is behind the last slash.
pub source_file_lem :
    (name : List ℕ)
    → (has_slash (source_file name) ≡ false)
      × ((source_file name ≡ name) ⊎ ((d : List ℕ) × (name ≡ d ++ 47 ∷ source_file name)))
unfolding Split source_file
source_file_lem name =
    let s = behind_slash-Split name in
    elim (Option-cases (behind_slash name)) [
      | inr (rest, e) ↦ let (d, p, q) = rw e at s in rw (source_file, e) ((q, inr (d, p)))
      | inl e ↦ rw (source_file, e) ((rw e at s, inl refl))
    ]
