-- ===== src/Log/Stream/Tests.antt =====
-- A buffer of 64 bytes that holds "n=".
use dws.Base.{ℕ, ◌+◌, ◌≡◌, refl, arith, List, [], ◌∷◌, ◌++◌, if◌then◌else◌, replicate, leb}
use dws.Base.Int.{negsuc}
use dws.Log.Stream.{FixedBuffer, to_string, append, format_integer, format_pointer}
use dws.Log.Stream.Digits.{parse, parse_hex, abs}
use dws.Log.Stream.Text.{Holds, append-Holds, format_integer_lem, format_pointer_lem}

abbrev start : FixedBuffer
start = record { array = 110 ∷ 61 ∷ replicate 62 0; cur = 2 }

start-Holds : Holds 64 (110 ∷ 61 ∷ []) start
unfolding to_string
start-Holds = record { whole = refl; room = omega arith; content = refl }

append-Holds_example : Holds 64 (110 ∷ 61 ∷ 55 ∷ []) (append start (55 ∷ []))
append-Holds_example = append-Holds 64 (110 ∷ 61 ∷ []) start (55 ∷ []) start-Holds

format_integer_lem_runs :
    (t : List ℕ) × (parse t ≡ negsuc 41)
    × Holds 64
        (if leb (2 + 48) 64 then (110 ∷ 61 ∷ []) ++ t else 110 ∷ 61 ∷ [])
        (format_integer start (negsuc 41))
unfolding abs
format_integer_lem_runs =
    format_integer_lem 64 (110 ∷ 61 ∷ []) start (negsuc 41) start-Holds (omega arith)

format_pointer_lem_runs :
    (t : List ℕ) × (parse_hex t ≡ 48879)
    × Holds 64
        (if leb (2 + 48) 64 then (110 ∷ 61 ∷ []) ++ 48 ∷ 120 ∷ t else 110 ∷ 61 ∷ [])
        (format_pointer start 48879)
format_pointer_lem_runs =
    format_pointer_lem 64 (110 ∷ 61 ∷ []) start 48879 start-Holds (omega arith)
