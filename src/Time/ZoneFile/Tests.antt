-- ===== src/Time/ZoneFile/Tests.antt =====
-- Zone files (src/base/src/TimeZone.cc) on concrete inputs.
use dws.Base.Int.{pos, negsuc}
use dws.Time.ZoneFile.{load_zone_file}
use dws.Time.ZoneFile.Format.{Zone, Sizes, v1_file, v2_file, IsZone, tables_of}
use dws.Time.ZoneFile.Blocks.{data_of}
use dws.Time.ZoneFile.RoundTrip.{load_zone_file-v1_file, load_zone_file-unterminated}
use dws.Base.{◌^◌, ◌≡◌, refl, arith, [], ◌∷◌, none, some, true, replicate, inl, inr}

-- Standard time an hour behind UTC, and summer time from -100 to 5000.
abbrev small_zone : Zone
small_zone = record {
  times = negsuc 99 ∷ pos 5000 ∷ [];
  indices = 1 ∷ 0 ∷ [];
  types =
      record { utc_offset = negsuc 3599; is_dst = 0; abbreviation_index = 0 }
      ∷ record { utc_offset = pos 0; is_dst = 1; abbreviation_index = 2 }
      ∷ [];
  characters = 65 ∷ 0 ∷ 66 ∷ 0 ∷ [];
  isstd = 0 ∷ 0 ∷ [];
  isut = [];
  footer = 10 ∷ 65 ∷ 10 ∷ [];
}

abbrev no_block : Sizes
no_block = record { isut = 0; isstd = 0; leap = 1; time = 0; kinds = 0; char = 2 }

small_zone-IsZone32 : IsZone (2 ^ 31) small_zone
unfolding tables_of
small_zone-IsZone32 = record {
  times_signed = omega arith;
  paired = refl;
  indices_below = omega arith;
  offsets_signed = omega arith;
  times_count = omega arith;
  types_count = omega arith;
  characters_count = omega arith;
  characters_some = omega arith;
  locals_signed = omega arith;
  isstd_count = inr refl;
  isut_count = inl refl;
}

load_zone_file-v1_file_runs :
    load_zone_file [] (some (v1_file (replicate 15 0) small_zone)) ≡ some (data_of true small_zone)
load_zone_file-v1_file_runs =
    load_zone_file-v1_file (replicate 15 0) small_zone refl small_zone-IsZone32

load_zone_file-unterminated_example :
    load_zone_file (1 ∷ []) (some (v1_file (replicate 15 0) small_zone)) ≡ none
load_zone_file-unterminated_example =
    load_zone_file-unterminated 1 [] (some (v1_file (replicate 15 0) small_zone))
      (λ e. omega (arith, e))

-- The model runs: the file of version 2, read byte by byte.
v2_runs :
    load_zone_file []
      (some (v2_file (replicate 15 0) no_block (replicate 10 7) (replicate 16 0) small_zone))
    ≡ some (record {
      tables = tables_of small_zone;
      abbreviation = 65 ∷ [];
      time_zone_string = 10 ∷ 65 ∷ 10 ∷ [];
    })
unfolding load_zone_file v2_file tables_of
v2_runs = refl

-- A file that ends too early is refused.
short_refused : load_zone_file [] (some (84 ∷ 90 ∷ 105 ∷ [])) ≡ none
unfolding load_zone_file
short_refused = refl
