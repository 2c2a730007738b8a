-- ===== src/Log/SmallFile/Tests.antt =====
-- ReadSmallFile (src/base/src/FileUtil.cc) on concrete inputs.
use dws.Log.SmallFile.{Outcome, read_to_string}
use dws.Log.SmallFile.Whole.{IsRead, read_to_string_lem}
use dws.Base.{
  ℕ, ◌-◌, ◌≤◌, ◌≡◌, refl, arith, List, [], ◌∷◌, length, take, Option, some, false, if◌then◌else◌,
  min,
}

abbrev five : List ℕ
five = 104 ∷ 101 ∷ 108 ∷ 108 ∷ 111 ∷ []

-- A device that gives at most two bytes at once.
abbrev pairs : ℕ → ℕ → Option ℕ
pairs at asked = some (min 2 (min asked (5 - at)))

pairs-IsRead : IsRead 5 pairs
pairs-IsRead = record {
  asked_for = λ at asked n got. ground arith;
  left = λ at asked n got. ground arith;
  some_left = λ at asked n room short got. ground arith;
}

read_to_string_lem_example :
    (o : Outcome) × (read_to_string 5 pairs five 4 ≡ some o)
    × (o.content ≡ take (length o.content) five)
    × (length o.content ≤ 4)
    × ((if o.failed then o.content else take 4 five) ≡ o.content)
read_to_string_lem_example = read_to_string_lem five pairs 4 5 pairs-IsRead (omega arith)

three_reads : read_to_string 9 pairs five 8 ≡ some (record { failed = false; content = five })
unfolding read_to_string
three_reads = refl
