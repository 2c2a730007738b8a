-- ===== src/Time/ZoneFile.antt =====
-- Time/ZoneFile models the reading of zone files: class File, readDataBlock, readTimeZoneFile and
-- loadZoneFile of src/base/src/TimeZone.cc. A file is its bytes and a position; a call that throws is
-- an error. `beyond` is what stands in memory behind the buffer of `readBytes`, up to a zero byte:
-- the buffer is not terminated. Vectors never run out of memory, and the products of counts wrap.
pub mod Steps
pub mod Format
pub mod Tables
pub mod Blocks
pub mod RoundTrip
mod Tests
use dws.Base.Int.{ℤ, pos, negsuc, pos_part, neg_part, ◌+ℤ◌, ◌*ℤ◌, cast32}
use dws.Net.Buffer.Ints.{network_to_host}
use dws.Time.Zone.{Data, add_local_time, add_transition}
use dws.Base.{
  text_eq, ℕ, zero, suc, ◌+◌, ◌-◌, ◌*◌, ◌^◌, List, [], ◌∷◌, ◌++◌, length, drop, slice, Option, none,
  some, Bool, true, false, ◌&&◌, ◌||◌, not, if◌then◌else◌, ◌==◌, ltb, Result, ok, err, ◌>>=◌, ◌>>◌,
  length_error, logic_error, out_of_range,
}

pub record File : Type 0 where
  pub contents : List ℕ
  pub position : ℕ

-- `fread`, up to the end of the file.
unfoldable pub fread : ℕ → File → List ℕ × File
fread n f =
    let got = slice f.position n f.contents in
    (got, record f { position = f.position + length got })

-- A read that throws where bytes are missing.
unfoldable pub exactly : ℕ → File → Result (List ℕ × File)
unfolding fread
exactly n f = let (got, f') = fread n f in if length got == n then ok (got, f') else err logic_error

-- What a string is made of from a `const char *`.
unfoldable pub c_string : List ℕ → List ℕ
c_string [] = []
c_string (b ∷ bs) = if b == 0 then [] else b ∷ c_string bs

-- A vector of a negative size throws `std::length_error`.
unfoldable pub reserve : ℤ → Result (Unit {0})
reserve (pos n) = ok tt
reserve (negsuc n) = err length_error

-- The vector of no bytes has no data: a string that is made of a null pointer throws.
unfoldable pub read_bytes : List ℕ → ℤ → File → Result (List ℕ × File)
unfolding reserve exactly c_string
read_bytes beyond n f = do
  reserve n
  (buf, f') ← exactly (pos_part n) f
  if length buf == 0 then err logic_error else ok (c_string (buf ++ beyond), f')

-- The buffer of 4096 bytes is filled until nothing comes.
unfoldable pub read_to_end : File → List ℕ × File
read_to_end f = (drop f.position f.contents, record f { position = length f.contents })

-- The signed value of a bit pattern below `2 * half`.
unfoldable pub to_signed : ℕ → ℕ → ℤ
to_signed half x = if ltb x half then pos x else negsuc (2 * half - 1 - x)

unfoldable pub read_int64 : File → Result (ℤ × File)
unfolding exactly to_signed network_to_host
read_int64 f = do (x, f') ← exactly 8 f; ok (to_signed (2 ^ 63) (network_to_host 0 x), f')

unfoldable pub read_int32 : File → Result (ℤ × File)
unfolding exactly to_signed network_to_host
read_int32 f = do (x, f') ← exactly 4 f; ok (to_signed (2 ^ 31) (network_to_host 0 x), f')

unfoldable pub read_uint8 : File → Result (ℕ × File)
unfolding exactly network_to_host
read_uint8 f = do (x, f') ← exactly 1 f; ok (network_to_host 0 x, f')

-- `fseek` from the current position; before the start of the file it fails, and the position stays.
unfoldable pub skip : ℤ → File → File
skip n f =
    if ltb (f.position + pos_part n) (neg_part n)
    then f
    else record f { position = f.position + pos_part n - neg_part n }

pub record Counts : Type 0 where
  pub isutccnt : ℤ
  pub isstdcnt : ℤ
  pub leapcnt : ℤ
  pub timecnt : ℤ
  pub typecnt : ℤ
  pub charcnt : ℤ

unfoldable pub read_counts : File → Result (Counts × File)
unfolding read_int32
read_counts f = do
  (isutccnt, f1) ← read_int32 f
  (isstdcnt, f2) ← read_int32 f1
  (leapcnt, f3) ← read_int32 f2
  (timecnt, f4) ← read_int32 f3
  (typecnt, f5) ← read_int32 f4
  (charcnt, f6) ← read_int32 f5
  ok (
    record {
      isutccnt = isutccnt;
      isstdcnt = isstdcnt;
      leapcnt = leapcnt;
      timecnt = timecnt;
      typecnt = typecnt;
      charcnt = charcnt;
    },
    f6,
  )

-- The loop over `trans`.
unfoldable pub read_times : Bool → ℕ → File → Result (List ℤ × File)
unfolding read_int32 read_int64
read_times v1 zero f = ok ([], f)
read_times v1 (suc n) f = do
  (t, f1) ← if v1 then read_int32 f else read_int64 f
  (ts, f2) ← read_times v1 n f1
  ok (t ∷ ts, f2)

-- The loop over `localtimes`.
unfoldable pub read_indices : ℕ → File → Result (List ℕ × File)
unfolding read_uint8
read_indices zero f = ok ([], f)
read_indices (suc n) f = do
  (local, f1) ← read_uint8 f
  (locals, f2) ← read_indices n f1
  ok (local ∷ locals, f2)

-- The loop over `local_times`.
unfoldable pub read_local_times : ℕ → Data → File → Result (Data × File)
unfolding read_int32 read_uint8 add_local_time
read_local_times zero d f = ok (d, f)
read_local_times (suc n) d f = do
  (gmtoff, f1) ← read_int32 f
  (isdst, f2) ← read_uint8 f1
  (abbrind, f3) ← read_uint8 f2
  read_local_times n (add_local_time d gmtoff (not (isdst == 0)) abbrind) f3

-- The loop that adds `trans[i]` with `localtimes[i]`.
unfoldable pub add_transitions : List ℤ → List ℕ → Data → Result Data
unfolding add_transition
add_transitions [] locals d = ok d
add_transitions (t ∷ ts) [] d = err out_of_range
add_transitions (t ∷ ts) (local ∷ locals) d = do
  d' ← add_transition d t local
  add_transitions ts locals d'

-- `TimeZone::Data` with its two strings.
pub record ZoneData : Type 0 where
  pub tables : Data
  pub abbreviation : List ℕ
  pub time_zone_string : List ℕ

abbrev pub is_zero : ℤ → Bool
is_zero n = pos_part n + neg_part n == 0

abbrev pub same_count : ℤ → ℤ → Bool
same_count m n = pos_part m + neg_part n == pos_part n + neg_part m

-- The three tests that make `readDataBlock` return false.
unfoldable pub is_supported : Counts → Bool
is_supported c =
    is_zero c.leapcnt
    && (is_zero c.isutccnt || same_count c.isutccnt c.typecnt)
    && (is_zero c.isstdcnt || same_count c.isstdcnt c.typecnt)

abbrev pub no_data : Data
no_data = record { transitions = []; local_times = [] }

-- `readDataBlock` from its first loop on.
unfoldable pub read_tables : List ℕ → Bool → Counts → File → Result (Option ZoneData × File)
unfolding reserve read_times read_indices read_local_times add_transitions read_bytes skip
    read_to_end
read_tables beyond v1 c f = do
  reserve c.timecnt
  (trans, f1) ← read_times v1 (pos_part c.timecnt) f
  (localtimes, f2) ← read_indices (pos_part c.timecnt) f1
  reserve c.typecnt
  (d, f3) ← read_local_times (pos_part c.typecnt) no_data f2
  d' ← add_transitions trans localtimes d
  (abbreviation, f4) ← read_bytes beyond c.charcnt f3
  let f5 = skip (c.leapcnt *ℤ pos (if v1 then 8 else 12)) f4
  let f6 = skip c.isutccnt (skip c.isstdcnt f5)
  let (text, f7) = if v1 then ([], f6) else read_to_end f6
  ok (some (record { tables = d'; abbreviation = abbreviation; time_zone_string = text }), f7)

-- `none` where it returns false: the caller drops the data then.
unfoldable pub read_data_block : List ℕ → Bool → File → Result (Option ZoneData × File)
unfolding read_counts is_supported read_tables
read_data_block beyond v1 f = do
  (c, f1) ← read_counts f
  if is_supported c then read_tables beyond v1 c f1 else ok (none, f1)

-- "TZif"
abbrev pub magic : List ℕ
magic = 84 ∷ 90 ∷ 105 ∷ 102 ∷ []

unfoldable pub read_head : List ℕ → File → Result File
unfolding read_bytes text_eq
read_head beyond f = do
  (head, f1) ← read_bytes beyond (pos 4) f
  if text_eq head magic then ok f1 else err logic_error

-- The size of the version 1 block, as the argument of `skip`.
unfoldable pub skip_size : Counts → ℤ
unfolding ◌+ℤ◌ ◌*ℤ◌ cast32
skip_size c =
    pos 4 *ℤ c.timecnt
    +ℤ c.timecnt
    +ℤ cast32 (pos 6 *ℤ c.typecnt)
    +ℤ c.charcnt
    +ℤ cast32 (pos 8 *ℤ c.leapcnt)
    +ℤ c.isstdcnt
    +ℤ c.isutccnt

-- The body of the `try` of `readTimeZoneFile`.
unfoldable pub read_file : List ℕ → File → Result (Option ZoneData × File)
unfolding read_head read_bytes read_counts text_eq skip skip_size read_data_block
read_file beyond f = do
  f1 ← read_head beyond f
  (version, f2) ← read_bytes beyond (pos 1) f1
  (reserved, f3) ← read_bytes beyond (pos 15) f2
  (c, f4) ← read_counts f3
  if text_eq version (50 ∷ [])
      then (do
        f5 ← read_head beyond (skip (skip_size c) f4)
        read_data_block beyond false (skip (pos 16) f5))
      else read_data_block beyond true (skip (negsuc 23) f4)

-- The `catch`: what was read before the error is dropped by the caller.
unfoldable pub caught : Result (Option ZoneData × File) → Option ZoneData
caught (err fault) = none
caught (ok (d, f)) = d

-- `readTimeZoneFile` for a file that can be opened, or `none`; and `loadZoneFile`, whose zone is
-- valid if it has data.
unfoldable pub load_zone_file : List ℕ → Option (List ℕ) → Option ZoneData
unfolding read_file caught
load_zone_file beyond none = none
load_zone_file beyond (some bytes) =
    caught (read_file beyond (record { contents = bytes; position = 0 }))
