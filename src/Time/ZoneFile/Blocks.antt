-- ===== src/Time/ZoneFile/Blocks.antt =====
-- The counts and one data block (src/base/src/TimeZone.cc) read back what stands ahead.
use mathlib.Core.List.{append-nil}
use dws.Base.Int.{pos, ◌*ℤ◌}
use dws.Time.ZoneFile.{
  File, Counts, ZoneData, read_counts, read_tables, read_data_block, read_head, is_supported, skip,
  c_string, no_data, magic, read_to_end,
}
use dws.Time.ZoneFile.Steps.{
  ahead, moved, ahead-moved, IsSigned, read_int32_lem, skip_lem, read_bytes_lem,
}
use dws.Time.ZoneFile.Format.{
  LocalType, Zone, counts_bytes, counts_of, tables_bytes, IsZone, tables_of, local_time_of,
  AllBelow,
}
use dws.Time.ZoneFile.Tables.{
  after_int32, half_of, read_times_lem, read_indices_lem, read_local_times_lem, add_transitions_lem,
}
use dws.Base.{
  text_eq, length-map, ℕ, ◌^◌, ◌≡◌, refl, arith, List, [], ◌∷◌, ◌++◌, length, some, Bool, true,
  false, if◌then◌else◌, map, ok,
}

abbrev pub AreCounts : Counts → Type 0
AreCounts c =
    IsSigned (2 ^ 31) c.isutccnt
    × IsSigned (2 ^ 31) c.isstdcnt
    × IsSigned (2 ^ 31) c.leapcnt
    × IsSigned (2 ^ 31) c.timecnt
    × IsSigned (2 ^ 31) c.typecnt
    × IsSigned (2 ^ 31) c.charcnt

unfoldable pub six : File → File
six f = moved 4 (moved 4 (moved 4 (moved 4 (moved 4 (moved 4 f)))))

pub read_counts_lem :
    (f : File) (c : Counts) (rest : List ℕ)
    → AreCounts c
    → ahead f ≡ counts_bytes c rest
    → (read_counts f ≡ ok (c, six f)) × (ahead (six f) ≡ rest)
unfolding read_counts counts_bytes six
read_counts_lem f c rest h a =
    let f1 = moved 4 f in
    let f2 = moved 4 f1 in
    let f3 = moved 4 f2 in
    let f4 = moved 4 f3 in
    let f5 = moved 4 f4 in
    let a1 = after_int32 f c.isutccnt _ a in
    let a2 = after_int32 f1 c.isstdcnt _ a1 in
    let a3 = after_int32 f2 c.leapcnt _ a2 in
    let a4 = after_int32 f3 c.timecnt _ a3 in
    let a5 = after_int32 f4 c.typecnt _ a4 in
    (
      rw
          (
            read_int32_lem f c.isutccnt _ h.0 a,
            read_int32_lem f1 c.isstdcnt _ h.1 a1,
            read_int32_lem f2 c.leapcnt _ h.2 a2,
            read_int32_lem f3 c.timecnt _ h.3 a3,
            read_int32_lem f4 c.typecnt _ h.4 a4,
            read_int32_lem f5 c.charcnt rest h.5 a5,
          )
          refl,
      after_int32 f5 c.charcnt rest a5,
    )

-- What is to be read: the tables, the abbreviations up to the first zero, and, in version 2, all that
-- follows.
unfoldable pub data_of : Bool → Zone → ZoneData
unfolding tables_of c_string
data_of v1 z = record {
  tables = tables_of z;
  abbreviation = c_string z.characters;
  time_zone_string = if v1 then [] else z.footer;
}

below_map :
    (xs : List LocalType) (is : List ℕ)
    → AllBelow (length xs) is
    → AllBelow (length (map local_time_of xs)) is
below_map xs [] h = tt
below_map xs (i ∷ is) h = (omega (arith, h.0, length-map xs local_time_of), below_map xs is h.1)

skip_none : (f : File) (k : ℕ) → skip (pos 0 *ℤ pos k) f ≡ f
unfolding skip ◌*ℤ◌
skip_none f k = ground arith

text_lem :
    (v1 : Bool) (z : Zone) (f : File)
    → ahead f ≡ z.footer
    → (if v1 then ([], f) else read_to_end f).0 ≡ (data_of v1 z).time_zone_string
unfolding data_of read_to_end
text_lem true z f a = refl
text_lem false z f a = a

read_tables_lem :
    (v1 : Bool) (f : File) (z : Zone)
    → IsZone (half_of v1) z
    → ahead f ≡ tables_bytes v1 z
    → (f' : File) × (read_tables [] v1 (counts_of z) f ≡ ok (some (data_of v1 z), f'))
unfolding read_tables tables_bytes counts_of data_of tables_of
read_tables_lem v1 f z v a =
    let (f1, e1, a1) = read_times_lem v1 z.times f _ v.times_signed a in
    let (f2, e2, a2) = read_indices_lem z.indices f1 _ a1 in
    let (f3, e3, a3) = read_local_times_lem z.types no_data f2 _ v.offsets_signed a2 in
    let e4 =
      add_transitions_lem z.times z.indices
        (record no_data { local_times = map local_time_of z.types }) v.paired
        (below_map z.types z.indices v.indices_below) in
    let e5 = read_bytes_lem [] f3 z.characters _ (length z.characters) v.characters_some refl a3 in
    let f4 = moved (length z.characters) f3 in
    let a4 = ahead-moved f3 z.characters _ (length z.characters) refl a3 in
    let f5 = moved (length z.isstd) f4 in
    let a5 = ahead-moved f4 z.isstd _ (length z.isstd) refl a4 in
    let f6 = moved (length z.isut) f5 in
    let a6 = ahead-moved f5 z.isut z.footer (length z.isut) refl a5 in
    (
      (if v1 then ([], f6) else read_to_end f6).1,
      rw
          (
            e1,
            ← v.paired,
            e2,
            e3,
            e4,
            e5,
            append-nil,
            skip_none f4,
            skip_lem f4,
            skip_lem f5,
            text_lem v1 z f6 a6,
          )
          refl,
    )

pub counts_of-AreCounts : {half : ℕ} (z : Zone) → IsZone half z → AreCounts (counts_of z)
unfolding counts_of
counts_of-AreCounts z v = ground arith

counts_of-supported : {half : ℕ} (z : Zone) → IsZone half z → is_supported (counts_of z) ≡ true
unfolding counts_of is_supported
counts_of-supported z v = ground arith

pub read_data_block_lem :
    (v1 : Bool) (f : File) (z : Zone)
    → IsZone (half_of v1) z
    → ahead f ≡ counts_bytes (counts_of z) (tables_bytes v1 z)
    → (f' : File) × (read_data_block [] v1 f ≡ ok (some (data_of v1 z), f'))
unfolding read_data_block
read_data_block_lem v1 f z v a =
    let (e1, a1) =
      read_counts_lem f (counts_of z) (tables_bytes v1 z) (counts_of-AreCounts z v) a in
    let (f', e2) = read_tables_lem v1 (six f) z v a1 in
    (f', rw (e1, counts_of-supported z v, e2) refl)

pub read_head_lem :
    (f : File) (rest : List ℕ)
    → ahead f ≡ magic ++ rest
    → (read_head [] f ≡ ok (moved 4 f)) × (ahead (moved 4 f) ≡ rest)
unfolding read_head c_string text_eq
read_head_lem f rest a = (
  rw (read_bytes_lem [] f magic rest 4 (omega arith) refl a) refl,
  ahead-moved f magic rest 4 refl a,
)
