-- ===== src/Time/ZoneFile/Format.antt =====
-- The format that readTimeZoneFile (src/base/src/TimeZone.cc) reads: the bytes of a file for a given
-- zone, after RFC 8536. What follows is an argument, so that the parts join to the right.
use dws.Base.Int.{ℤ, pos, ◌+ℤ◌}
use dws.Time.Zone.{Data, Transition, LocalTime}
use dws.Time.ZoneFile.{Counts, magic}
use dws.Time.ZoneFile.Steps.{int32_bytes, int64_bytes, IsSigned}
use dws.Base.{
  ◌*◌, ◌+◌, ℕ, ◌^◌, ◌<◌, ◌≡◌, List, [], ◌∷◌, ◌++◌, length, get_elem?, none, some, Bool, true, false,
  not, if◌then◌else◌, ◌==◌, map, ◌⊎◌,
}

pub record LocalType : Type 0 where
  pub utc_offset : ℤ
  pub is_dst : ℕ
  pub abbreviation_index : ℕ

-- `indices` are the local types that begin at the `times`; `isstd` and `isut` are the indicators of
-- the types, or empty.
pub record Zone : Type 0 where
  pub times : List ℤ
  pub indices : List ℕ
  pub types : List LocalType
  pub characters : List ℕ
  pub isstd : List ℕ
  pub isut : List ℕ
  pub footer : List ℕ

unfoldable pub time_bytes : Bool → ℤ → List ℕ
unfolding int32_bytes int64_bytes
time_bytes v1 t = if v1 then int32_bytes t else int64_bytes t

unfoldable pub times_bytes : Bool → List ℤ → List ℕ → List ℕ
unfolding time_bytes
times_bytes v1 [] rest = rest
times_bytes v1 (t ∷ ts) rest = time_bytes v1 t ++ times_bytes v1 ts rest

unfoldable pub types_bytes : List LocalType → List ℕ → List ℕ
unfolding int32_bytes
types_bytes [] rest = rest
types_bytes (x ∷ xs) rest =
    int32_bytes x.utc_offset ++ x.is_dst ∷ x.abbreviation_index ∷ types_bytes xs rest

unfoldable pub counts_bytes : Counts → List ℕ → List ℕ
unfolding int32_bytes
counts_bytes c rest =
    int32_bytes c.isutccnt
    ++ (int32_bytes c.isstdcnt
        ++ (int32_bytes c.leapcnt
            ++ (int32_bytes c.timecnt
                ++ (int32_bytes c.typecnt ++ (int32_bytes c.charcnt ++ rest)))))

unfoldable pub counts_of : Zone → Counts
counts_of z = record {
  isutccnt = pos (length z.isut);
  isstdcnt = pos (length z.isstd);
  leapcnt = pos 0;
  timecnt = pos (length z.times);
  typecnt = pos (length z.types);
  charcnt = pos (length z.characters);
}

unfoldable pub tables_bytes : Bool → Zone → List ℕ
unfolding times_bytes types_bytes
tables_bytes v1 z =
    times_bytes v1 z.times
      (z.indices ++ types_bytes z.types (z.characters ++ (z.isstd ++ (z.isut ++ z.footer))))

-- A version 1 file: a header and one block.
unfoldable pub v1_file : List ℕ → Zone → List ℕ
unfolding counts_bytes counts_of tables_bytes
v1_file reserved z = magic ++ (0 ∷ (reserved ++ counts_bytes (counts_of z) (tables_bytes true z)))

-- The counts of the version 1 block of a version 2 file, and its size.
pub record Sizes : Type 0 where
  pub isut : ℕ
  pub isstd : ℕ
  pub leap : ℕ
  pub time : ℕ
  pub kinds : ℕ
  pub char : ℕ

unfoldable pub counts_of_sizes : Sizes → Counts
counts_of_sizes s = record {
  isutccnt = pos s.isut;
  isstdcnt = pos s.isstd;
  leapcnt = pos s.leap;
  timecnt = pos s.time;
  typecnt = pos s.kinds;
  charcnt = pos s.char;
}

abbrev pub block_size : Sizes → ℕ
block_size s = 4 * s.time + s.time + 6 * s.kinds + s.char + 8 * s.leap + s.isstd + s.isut

-- A version 2 file: a header, the counts and the block of version 1, and then both of version 2.
unfoldable pub v2_file : List ℕ → Sizes → List ℕ → List ℕ → Zone → List ℕ
unfolding counts_bytes counts_of tables_bytes counts_of_sizes
v2_file reserved s block header z =
    magic
    ++ (50
        ∷ (reserved
            ++ counts_bytes (counts_of_sizes s) (
                block ++ (magic ++ (header ++ counts_bytes (counts_of z) (tables_bytes false z))))))

abbrev pub AllSigned : ℕ → List ℤ → Type 0
AllSigned half [] = Unit
AllSigned half (t ∷ ts) = IsSigned half t × AllSigned half ts

abbrev pub AllBelow : ℕ → List ℕ → Type 0
AllBelow n [] = Unit
AllBelow n (i ∷ is) = (i < n) × AllBelow n is

abbrev pub AllOffsets : List LocalType → Type 0
AllOffsets [] = Unit
AllOffsets (x ∷ xs) = IsSigned (2 ^ 31) x.utc_offset × AllOffsets xs

-- What the tables of a zone stand for.
unfoldable pub local_time_of : LocalType → LocalTime
local_time_of x = record {
  utc_offset = x.utc_offset;
  is_dst = not (x.is_dst == 0);
  index = x.abbreviation_index;
}

unfoldable pub offset_at : List LocalTime → ℕ → ℤ
offset_at locals i = elim (get_elem? locals i) [ none ↦ pos 0 | some l ↦ l.utc_offset ]

unfoldable pub transitions_of : List LocalTime → List ℤ → List ℕ → List Transition
unfolding offset_at ◌+ℤ◌
transitions_of locals [] is = []
transitions_of locals (t ∷ ts) [] = []
transitions_of locals (t ∷ ts) (i ∷ is) =
    record { utc_time = t; local_time = t +ℤ offset_at locals i; local_time_index = i }
    ∷ transitions_of locals ts is

unfoldable pub tables_of : Zone → Data
unfolding local_time_of transitions_of
tables_of z =
    let locals = map local_time_of z.types in
    record { transitions = transitions_of locals z.times z.indices; local_times = locals }

-- The zone can be written down: its counts and numbers have the width of their fields, every index is
-- that of a type, each set of indicators is empty or complete, there is an abbreviation, and the local
-- times have 64 bits.
pub record IsZone (half : ℕ) (z : Zone) : Type 0 where
  pub times_signed : AllSigned half z.times
  pub paired : length z.indices ≡ length z.times
  pub indices_below : AllBelow (length z.types) z.indices
  pub offsets_signed : AllOffsets z.types
  pub times_count : length z.times < 2 ^ 31
  pub types_count : length z.types < 2 ^ 31
  pub characters_count : length z.characters < 2 ^ 31
  pub characters_some : 0 < length z.characters
  pub isstd_count : (length z.isstd ≡ 0) ⊎ (length z.isstd ≡ length z.types)
  pub locals_signed : AllSigned (2 ^ 63) (map (λ t. t.local_time) (tables_of z).transitions)
  pub isut_count : (length z.isut ≡ 0) ⊎ (length z.isut ≡ length z.types)
