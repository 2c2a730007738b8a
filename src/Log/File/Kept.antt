-- ===== src/Log/File/Kept.antt =====
-- LogFile (src/base/src/LogFile.cc): what is logged is in its files.
use mathlib.Core.List.{append-nil, append_assoc}
use dws.Log.File.{
  period_of, after_append, AppendFile, LogFile, append_loop, append, flush, roll_file, check,
  append_unlocked, open_file,
}
use dws.Base.{
  ==_iff, ℕ, zero, suc, ◌+◌, ◌≡◌, refl, ap, sym, ◌∙◌, arith, List, [], ◌∷◌, ◌++◌, length, take,
  drop, if◌then◌else◌, ◌==◌, ltb, leb, Bool-cases, inl, inr, take-all,
}

drop-length : (xs : List ℕ) → drop (length xs) xs ≡ []
drop-length [] = refl
drop-length (x ∷ xs) = drop-length xs

take-nil : (n : ℕ) → take {A = ℕ} n [] ≡ []
take-nil zero = refl
take-nil (suc n) = refl

-- One call of fwrite ends the loop, whatever it takes.
pub append_lem :
    (takes : ℕ → ℕ) (logline : List ℕ) (f : AppendFile)
    → append takes logline f ≡ (
        let n = takes (length logline) in
        if length logline == 0
        then f
        else if n == length logline
        then record f {
          content = f.content ++ logline;
          written_bytes = f.written_bytes + length logline;
        }
        else record f { content = f.content ++ take n logline })
unfolding append append_loop
append_lem takes [] f = ground arith
append_lem takes (x ∷ xs) f =
    let line = x ∷ xs in
    elim (Bool-cases (takes (length line) == length line)) [
      | inl whole ↦
          let all : takes (length line) ≡ length line = (==_iff _ _).0 whole in
          rw (all, drop-length line, take-all (length line) line (omega arith)) (ground arith)
      | inr part ↦ rw part (ground arith)
    ]

-- The bytes of all files, from the first one on.
unfoldable pub contents : List AppendFile → List ℕ
contents [] = []
contents (f ∷ fs) = f.content ++ contents fs

unfoldable pub logged : LogFile → List ℕ
unfolding contents
logged l = contents l.closed ++ l.file.content

contents-append :
    (fs : List AppendFile) (f : AppendFile) → contents (fs ++ f ∷ []) ≡ contents fs ++ f.content
unfolding contents
contents-append [] f = append-nil f.content
contents-append (g ∷ fs) f =
    ap (λ (bs : List ℕ). g.content ++ bs) (contents-append fs f)
    ∙ sym (append_assoc g.content (contents fs) f.content)

roll_file-logged : (now : ℕ) (l : LogFile) → logged (roll_file now l).1 ≡ logged l
unfolding roll_file logged open_file flush
roll_file-logged now l = elim (Bool-cases (ltb l.last_roll now)) [
  | inl later ↦ rw later (append-nil _ ∙ contents-append l.closed (flush l.file))
  | inr same ↦ rw same refl
]

check-logged : (now now' : ℕ) (l : LogFile) → logged (check now now' l) ≡ logged l
unfolding check flush logged
check-logged now now' l = elim (Bool-cases (period_of now == l.start_of_period)) [
  | inr other ↦ rw other (roll_file-logged now' l)
  | inl today ↦ rw today (ground arith)
]

after_append-logged : (now now' : ℕ) (l : LogFile) → logged (after_append now now' l) ≡ logged l
unfolding after_append logged
after_append-logged now now' l = elim (Bool-cases (ltb l.roll_size l.file.written_bytes)) [
  | inl full ↦ rw full (roll_file-logged now' l)
  | inr room ↦ elim (Bool-cases (leb l.check_every_n (l.count + 1))) [
    | inl due ↦ rw (room, due) (check-logged now now' (record l { count = 0 }))
    | inr not_due ↦ rw (room, not_due) refl
  ]
]

append-content :
    (takes : ℕ → ℕ) (logline : List ℕ) (f : AppendFile)
    → (append takes logline f).content ≡ f.content ++ take (takes (length logline)) logline
append-content takes [] f =
    ap (λ (g : AppendFile). g.content) (append_lem takes [] f)
    ∙ sym (ap (λ (bs : List ℕ). f.content ++ bs) (take-nil (takes 0)) ∙ append-nil f.content)
append-content takes (x ∷ xs) f =
    let line = x ∷ xs in
    elim (Bool-cases (takes (length line) == length line)) [
      | inl whole ↦
          let all : takes (length line) ≡ length line = (==_iff _ _).0 whole in
          rw (append_lem takes line f, all, take-all (length line) line (omega arith))
            (ground arith)
      | inr part ↦ rw (append_lem takes line f, part) (ground arith)
    ]

-- After a line is appended, the bytes of all files are those there were and what fwrite took of the
-- line, behind them, whether the file is rolled, flushed or neither.
pub append_unlocked-logged :
    (takes : ℕ → ℕ) (now now' : ℕ) (logline : List ℕ) (l : LogFile)
    → logged (append_unlocked takes now now' logline l)
      ≡ logged l ++ take (takes (length logline)) logline
unfolding append_unlocked logged
append_unlocked-logged takes now now' logline l =
    after_append-logged now now' (record l { file = append takes logline l.file })
    ∙ ap (λ (bs : List ℕ). contents l.closed ++ bs) (append-content takes logline l.file)
    ∙ sym (append_assoc (contents l.closed) l.file.content (take (takes (length logline)) logline))
