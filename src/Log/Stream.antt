-- ===== src/Log/Stream.antt =====
-- Log/Stream models class FixedBuffer and LogStream's integers and strings (src/base/include/LogStream.h
-- and src/base/src/LogStream.cc). A byte is a number below 256. Floating point numbers go through
-- snprintf, and are not modelled.
pub mod Digits
pub mod Decimal
pub mod Text
mod Tests
use dws.Base.{
  ℕ, zero, suc, ◌+◌, ◌-◌, ◌/◌, ◌%◌, List, [], ◌∷◌, ◌++◌, length, slice, get_or, Option, none, some,
  Bool, true, false, if◌then◌else◌, ◌==◌, reverse, replicate, ltb, leb, take, drop,
}
use dws.Base.Int.{ℤ, pos, negsuc, tdiv, tmod}

-- `array` is the whole array, `cur` the offset of `cur_` in it.
pub record FixedBuffer : Type 0 where
  pub array : List ℕ
  pub cur : ℕ

pub init : ℕ → FixedBuffer
init size = record { array = replicate size 0; cur = 0 }

pub avail : FixedBuffer → ℕ
avail b = length b.array - b.cur

-- `memcpy(cur_, bytes)`, with `cur_` left where it is. Bytes that are written past the end of the array
-- make the list longer than the array is.
pub write_current : FixedBuffer → List ℕ → FixedBuffer
write_current b bytes = record b {
  array = take b.cur b.array ++ (bytes ++ drop (b.cur + length bytes) b.array);
}

pub add : FixedBuffer → ℕ → FixedBuffer
add b n = record b { cur = b.cur + n }

pub append : FixedBuffer → List ℕ → FixedBuffer
append b bytes =
    if ltb (length bytes) (avail b) then add (write_current b bytes) (length bytes) else b

pub reset : FixedBuffer → FixedBuffer
reset b = record b { cur = 0 }

pub to_string : FixedBuffer → List ℕ
to_string b = slice 0 b.cur b.array

-- "9876543210123456789", of which `zero` is the tenth character.
abbrev pub digits : List ℕ
digits =
    57 ∷ 56 ∷ 55 ∷ 54 ∷ 53 ∷ 52 ∷ 51 ∷ 50 ∷ 49 ∷ 48 ∷ 49 ∷ 50 ∷ 51 ∷ 52 ∷ 53 ∷ 54 ∷ 55 ∷ 56 ∷ 57
    ∷ []

-- "0123456789ABCDEF"
abbrev pub digits_hex : List ℕ
digits_hex = 48 ∷ 49 ∷ 50 ∷ 51 ∷ 52 ∷ 53 ∷ 54 ∷ 55 ∷ 56 ∷ 57 ∷ 65 ∷ 66 ∷ 67 ∷ 68 ∷ 69 ∷ 70 ∷ []

-- `zero[lsd]`
unfoldable pub digit : ℤ → ℕ
digit (pos n) = get_or digits (9 + n) 0
digit (negsuc n) = get_or digits (9 - suc n) 0

unfoldable pub is_zero : ℤ → Bool
is_zero (pos n) = n == 0
is_zero (negsuc n) = false

unfoldable pub is_negative : ℤ → Bool
is_negative (pos n) = false
is_negative (negsuc n) = true

-- The loop of `convert`, least digit first. The argument is fuel: 20 turns, since a 64-bit number has
-- at most 20 digits.
unfoldable pub convert_loop : ℕ → ℤ → List ℕ
convert_loop zero i = []
convert_loop (suc fuel) i =
    let lsd = tmod i 10 in
    let i' = tdiv i 10 in
    let rest = convert_loop fuel i' in digit lsd ∷ (if is_zero i' then [] else rest)

abbrev pub convert_turns : ℕ
convert_turns = 20

-- The characters before the terminating 0.
unfoldable pub convert : ℤ → List ℕ
convert value =
    reverse (convert_loop convert_turns value ++ (if is_negative value then 45 ∷ [] else []))

pub convert_hex_loop : ℕ → ℕ → List ℕ
convert_hex_loop zero i = []
convert_hex_loop (suc fuel) i =
    let rest = convert_hex_loop fuel (i / 16) in
    get_or digits_hex (i % 16) 0 ∷ (if i / 16 == 0 then [] else rest)

abbrev pub convert_hex_turns : ℕ
convert_hex_turns = 16

pub convert_hex : ℕ → List ℕ
convert_hex value = reverse (convert_hex_loop convert_hex_turns value)

abbrev pub max_numeric_size : ℕ
max_numeric_size = 48

-- The text and the 0 behind it are written, the text is counted in.
pub format_integer : FixedBuffer → ℤ → FixedBuffer
format_integer b v =
    if leb max_numeric_size (avail b)
    then add (write_current b (convert v ++ 0 ∷ [])) (length (convert v))
    else b

-- "0x", then the address.
pub format_pointer : FixedBuffer → ℕ → FixedBuffer
format_pointer b v =
    if leb max_numeric_size (avail b)
    then add (write_current b ((48 ∷ 120 ∷ convert_hex v) ++ 0 ∷ [])) (length (convert_hex v) + 2)
    else b

-- "true" or "false"
pub format_bool : FixedBuffer → Bool → FixedBuffer
format_bool b v =
    append b (if v then 116 ∷ 114 ∷ 117 ∷ 101 ∷ [] else 102 ∷ 97 ∷ 108 ∷ 115 ∷ 101 ∷ [])

-- None stands for a null pointer, which prints "(null)".
pub format_string : FixedBuffer → Option (List ℕ) → FixedBuffer
format_string b (some s) = append b s
format_string b none = append b (40 ∷ 110 ∷ 117 ∷ 108 ∷ 108 ∷ 41 ∷ [])
