-- ===== src/Time/ZoneFile/Tables.antt =====
-- The loops of readDataBlock (src/base/src/TimeZone.cc) read the tables that stand ahead.
use mathlib.Core.List.{append-nil, append_assoc}
use dws.Base.Int.{ℤ, ◌+ℤ◌}
use dws.Time.Zone.{Data, Transition, LocalTime, add_local_time, add_transition, local_time_at}
use dws.Time.ZoneFile.{
  File, read_times, read_indices, read_local_times, add_transitions, read_int32, read_int64,
}
use dws.Time.ZoneFile.Steps.{
  ahead, moved, ahead-moved, IsSigned, read_int32_lem, read_int64_lem, read_uint8_lem, int32_bytes,
  int64_bytes, length-int32_bytes, length-int64_bytes,
}
use dws.Time.ZoneFile.Format.{
  LocalType, time_bytes, times_bytes, types_bytes, AllSigned, AllBelow, AllOffsets, local_time_of,
  offset_at, transitions_of,
}
use dws.Base.{
  get_elem?-some, ℕ, ◌^◌, ◌<◌, ◌≡◌, refl, sym, arith, List, [], ◌∷◌, ◌++◌, length, Bool, true,
  false, not, if◌then◌else◌, ◌==◌, map, Result, ok,
}

-- A read that gives `x` and leaves `rest` ahead.
abbrev pub Reads {ℓ} : {A : Type ℓ} → Result (A × File) → A → List ℕ → Type ℓ
Reads call x rest = (f : File) × (call ≡ ok (x, f)) × (ahead f ≡ rest)

pub after_int32 :
    (f : File) (z : ℤ) (rest : List ℕ) → ahead f ≡ int32_bytes z ++ rest → ahead (moved 4 f) ≡ rest
after_int32 f z rest a = ahead-moved f (int32_bytes z) rest 4 (sym (length-int32_bytes z)) a

-- The bound of the times of a version.
abbrev pub half_of : Bool → ℕ
half_of v1 = if v1 then 2 ^ 31 else 2 ^ 63

read_time :
    (v1 : Bool) (f : File) (t : ℤ) (rest : List ℕ)
    → IsSigned (half_of v1) t
    → ahead f ≡ time_bytes v1 t ++ rest
    → Reads (if v1 then read_int32 f else read_int64 f) t rest
unfolding time_bytes
read_time true f t rest h a = (moved 4 f, read_int32_lem f t rest h a, after_int32 f t rest a)
read_time false f t rest h a = (
  moved 8 f,
  read_int64_lem f t rest h a,
  ahead-moved f (int64_bytes t) rest 8 (sym (length-int64_bytes t)) a,
)

pub read_times_lem :
    (v1 : Bool) (ts : List ℤ) (f : File) (rest : List ℕ)
    → AllSigned (half_of v1) ts
    → ahead f ≡ times_bytes v1 ts rest
    → Reads (read_times v1 (length ts) f) ts rest
unfolding read_times times_bytes
read_times_lem v1 [] f rest h a = (f, refl, a)
read_times_lem v1 (t ∷ ts) f rest h a =
    let (f1, e1, a1) = read_time v1 f t (times_bytes v1 ts rest) h.0 a in
    let (f2, e2, a2) = read_times_lem v1 ts f1 rest h.1 a1 in (f2, rw (e1, e2) refl, a2)

pub read_indices_lem :
    (is : List ℕ) (f : File) (rest : List ℕ)
    → ahead f ≡ is ++ rest
    → Reads (read_indices (length is) f) is rest
unfolding read_indices
read_indices_lem [] f rest a = (f, refl, a)
read_indices_lem (i ∷ is) f rest a =
    let (f2, e2, a2) =
      read_indices_lem is (moved 1 f) rest (ahead-moved f (i ∷ []) (is ++ rest) 1 refl a) in
    (f2, rw (read_uint8_lem f i (is ++ rest) a, e2) refl, a2)

pub read_local_times_lem :
    (xs : List LocalType) (d : Data) (f : File) (rest : List ℕ)
    → AllOffsets xs
    → ahead f ≡ types_bytes xs rest
    → Reads
        (read_local_times (length xs) d f)
        (record d { local_times = d.local_times ++ map local_time_of xs })
        rest
unfolding read_local_times types_bytes add_local_time local_time_of
read_local_times_lem [] d f rest h a = (f, rw append-nil refl, a)
read_local_times_lem (x ∷ xs) d f rest h a =
    let after = types_bytes xs rest in
    let f1 = moved 4 f in
    let a1 = after_int32 f x.utc_offset (x.is_dst ∷ x.abbreviation_index ∷ after) a in
    let a2 = ahead-moved f1 (x.is_dst ∷ []) (x.abbreviation_index ∷ after) 1 refl a1 in
    let a3 = ahead-moved (moved 1 f1) (x.abbreviation_index ∷ []) after 1 refl a2 in
    let d1 = add_local_time d x.utc_offset (not (x.is_dst == 0)) x.abbreviation_index in
    let (f4, e4, a4) = read_local_times_lem xs d1 (moved 1 (moved 1 f1)) rest h.1 a3 in
    (
      f4,
      rw
          (
            read_int32_lem f x.utc_offset _ h.0 a,
            read_uint8_lem f1 x.is_dst _ a1,
            read_uint8_lem (moved 1 f1) x.abbreviation_index after a2,
            e4,
            append_assoc d.local_times (local_time_of x ∷ []) (map local_time_of xs),
          )
          refl,
      a4,
    )

transition_of : List LocalTime → ℤ → ℕ → Transition
transition_of locals t i = record {
  utc_time = t;
  local_time = t +ℤ offset_at locals i;
  local_time_index = i;
}

add_transition_lem :
    (d : Data) (t : ℤ) (i : ℕ)
    → i < length d.local_times
    → add_transition d t i
      ≡ ok (record d { transitions = d.transitions ++ transition_of d.local_times t i ∷ [] })
unfolding add_transition local_time_at offset_at transition_of
add_transition_lem d t i h = let (l, e) = get_elem?-some d.local_times i h in ground (arith, e)

pub add_transitions_lem :
    (ts : List ℤ) (is : List ℕ) (d : Data)
    → length is ≡ length ts
    → AllBelow (length d.local_times) is
    → add_transitions ts is d
      ≡ ok (record d { transitions = d.transitions ++ transitions_of d.local_times ts is })
unfolding add_transitions transitions_of transition_of
add_transitions_lem [] is d e h = rw append-nil refl
add_transitions_lem (t ∷ ts) [] d e h = absurd (omega arith)
add_transitions_lem (t ∷ ts) (i ∷ is) d e h =
    let one = transition_of d.local_times t i in
    let d1 = record d { transitions = d.transitions ++ one ∷ [] } in
    rw
      (
        add_transition_lem d t i h.0,
        add_transitions_lem ts is d1 (omega arith) h.1,
        append_assoc d.transitions (one ∷ []) (transitions_of d.local_times ts is),
      )
      refl
