-- ===== src/Time/ZoneFile/RoundTrip.antt =====
-- readTimeZoneFile (src/base/src/TimeZone.cc) reads back what stands in a file.
use dws.Base.Int.{negsuc}
use dws.Time.ZoneFile.{
  exactly, fread, File, ZoneData, read_head, read_file, skip, read_bytes, c_string, magic, caught,
  load_zone_file,
}
use dws.Time.ZoneFile.Steps.{ahead, moved, ahead-moved, read_bytes_lem}
use dws.Time.ZoneFile.Format.{Zone, counts_of, v1_file, IsZone}
use dws.Base.{
  text_eq, logic_error, Fault, ==_iff, ℕ, ◌^◌, ◌≡◌, ◌≢◌, refl, sym, arith, List, [], ◌∷◌, ◌++◌,
  length, Option, none, some, true, false, ◌==◌, Bool-cases, inl, inr, ok, err,
}
use dws.Time.ZoneFile.Blocks.{
  six, read_counts_lem, data_of, counts_of-AreCounts, read_data_block_lem, read_head_lem,
}

rewind : (f : File) → skip (negsuc 23) (six f) ≡ f
unfolding skip six moved
rewind f = ground arith

read_file_v1 :
    (f0 : File) (reserved : List ℕ) (z : Zone)
    → length reserved ≡ 15
    → IsZone (2 ^ 31) z
    → ahead f0 ≡ v1_file reserved z
    → (f' : File) × (read_file [] f0 ≡ ok (some (data_of true z), f'))
unfolding read_file v1_file c_string text_eq
read_file_v1 f0 reserved z n15 v a0 =
    let (e1, a1) = read_head_lem f0 _ a0 in
    let f1 = moved 4 f0 in
    let e2 = read_bytes_lem [] f1 (0 ∷ []) _ 1 (omega arith) refl a1 in
    let f2 = moved 1 f1 in
    let a2 = ahead-moved f1 (0 ∷ []) _ 1 refl a1 in
    let e3 = read_bytes_lem [] f2 reserved _ 15 (omega arith) (sym n15) a2 in
    let f3 = moved 15 f2 in
    let a3 = ahead-moved f2 reserved _ 15 (sym n15) a2 in
    let (e4, a4) = read_counts_lem f3 (counts_of z) _ (counts_of-AreCounts z v) a3 in
    let (f', e5) = read_data_block_lem true f3 z v a3 in
    (f', rw (e1, e2, e3, e4, rewind f3, e5) refl)

load_lem :
    (bytes : List ℕ) (d : ZoneData) (f' : File)
    → read_file [] (record { contents = bytes; position = 0 }) ≡ ok (some d, f')
    → load_zone_file [] (some bytes) ≡ some d
unfolding load_zone_file caught
load_lem bytes d f' e = rw e refl

-- loadZoneFile of a version 1 file, where a zero byte stands behind each buffer of readBytes: it goes
-- back over the counts and reads the one block, whose times have 32 bits.
pub load_zone_file-v1_file :
    (reserved : List ℕ) (z : Zone)
    → length reserved ≡ 15
    → IsZone (2 ^ 31) z
    → load_zone_file [] (some (v1_file reserved z)) ≡ some (data_of true z)
load_zone_file-v1_file reserved z n15 v =
    let (f', e) = read_file_v1 _ reserved z n15 v refl in
    load_lem (v1_file reserved z) (data_of true z) f' e

unterminated :
    (x : ℕ) (beyond bs : List ℕ)
    → x ≢ 0
    → length bs ≡ 4
    → text_eq (c_string (bs ++ x ∷ beyond)) magic ≡ false
unfolding text_eq c_string
unterminated x beyond [] h n = absurd (omega arith)
unterminated x beyond (a ∷ []) h n = absurd (omega arith)
unterminated x beyond (a ∷ b ∷ []) h n = absurd (omega arith)
unterminated x beyond (a ∷ b ∷ c ∷ []) h n = absurd (omega arith)
unterminated x beyond (a ∷ b ∷ c ∷ d ∷ []) h n = ground arith
unterminated x beyond (a ∷ b ∷ c ∷ d ∷ e ∷ bs) h n = absurd (omega arith)

read_head-fails :
    (x : ℕ) (beyond : List ℕ) (f : File)
    → x ≢ 0
    → (fault : Fault) × (read_head (x ∷ beyond) f ≡ err fault)
unfolding read_head read_bytes exactly
read_head-fails x beyond f h = elim (Bool-cases (length (fread 4 f).0 == 4)) [
  | inl whole ↦
      let filled : (length (fread 4 f).0 == 0) ≡ false = ground (arith, whole) in
      (
        logic_error,
        rw (whole, filled, unterminated x beyond (fread 4 f).0 h ((==_iff _ 4).0 whole)) refl,
      )
  | inr short ↦ (logic_error, rw short refl)
]

-- Where the byte behind the buffers of readBytes is not 0, no file at all is loaded: the first four
-- bytes never compare equal to the magic number, since the string runs on behind them.
pub load_zone_file-unterminated :
    (x : ℕ) (beyond : List ℕ) (contents : Option (List ℕ))
    → x ≢ 0
    → load_zone_file (x ∷ beyond) contents ≡ none
unfolding load_zone_file read_file caught
load_zone_file-unterminated x beyond none h = refl
load_zone_file-unterminated x beyond (some bytes) h =
    let (fault, e) = read_head-fails x beyond (record { contents = bytes; position = 0 }) h in
    rw e refl
