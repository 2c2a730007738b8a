-- ===== src/Time/ZoneFile/Steps.antt =====
-- What each read of class File (src/base/src/TimeZone.cc) takes from the bytes that are ahead.
use dws.Base.Int.{ℤ, pos, negsuc, pos_part, neg_part}
use dws.Base.{◌==◌, take-append_length, drop-append_length, drop-drop}
use dws.Net.Buffer.Ints.{
  network_to_host, host_to_network, length-host_to_network, network_to_host-host_to_network,
}
use dws.Time.ZoneFile.{
  File, exactly, read_int32, read_int64, read_uint8, to_signed, skip, read_bytes, c_string,
}
use dws.Base.{
  ℕ, ◌+◌, ◌-◌, ◌*◌, ◌^◌, ◌≤◌, ◌<◌, ◌≡◌, refl, ap, sym, ◌∙◌, arith, List, [], ◌∷◌, ◌++◌, length,
  take, drop, ok, false,
}

-- The bytes from the position on.
abbrev pub ahead : File → List ℕ
ahead f = drop f.position f.contents

unfoldable pub moved : ℕ → File → File
moved n f = record f { position = f.position + n }

pub ahead-moved :
    (f : File) (xs rest : List ℕ) (n : ℕ)
    → n ≡ length xs
    → ahead f ≡ xs ++ rest
    → ahead (moved n f) ≡ rest
unfolding moved
ahead-moved f xs rest n e a =
    sym (drop-drop f.contents f.position n _ refl) ∙ ap (drop n) a ∙ drop-append_length xs rest n e

pub exactly_lem :
    (f : File) (xs rest : List ℕ) (n : ℕ)
    → n ≡ length xs
    → ahead f ≡ xs ++ rest
    → exactly n f ≡ ok (xs, moved n f)
unfolding exactly moved
exactly_lem f xs rest n e a =
    let got : take n (drop f.position f.contents) ≡ xs =
      ap (take n) a ∙ take-append_length xs rest n e in
    rw got (ground (arith, e))

-- The bit pattern of a signed value, below `2 * half`.
unfoldable pub of_signed : ℕ → ℤ → ℕ
of_signed half (pos n) = n
of_signed half (negsuc n) = 2 * half - 1 - n

-- `z` is a value of the signed type with `half` values from 0 on.
abbrev pub IsSigned : ℕ → ℤ → Type 0
IsSigned half z = (pos_part z < half) × (neg_part z ≤ half)

to_signed-of_signed : (half : ℕ) (z : ℤ) → IsSigned half z → to_signed half (of_signed half z) ≡ z
unfolding to_signed of_signed
to_signed-of_signed half (pos n) h = ground arith
to_signed-of_signed half (negsuc n) h = ground arith

unfoldable pub int32_bytes : ℤ → List ℕ
unfolding host_to_network of_signed
int32_bytes z = host_to_network 4 (of_signed (2 ^ 31) z)

unfoldable pub int64_bytes : ℤ → List ℕ
unfolding host_to_network of_signed
int64_bytes z = host_to_network 8 (of_signed (2 ^ 63) z)

of_signed-lt : (half : ℕ) (z : ℤ) → IsSigned half z → of_signed half z < 2 * half
unfolding of_signed
of_signed-lt half (pos n) h = ground arith
of_signed-lt half (negsuc n) h = ground arith

pub read_int32_lem :
    (f : File) (z : ℤ) (rest : List ℕ)
    → IsSigned (2 ^ 31) z
    → ahead f ≡ int32_bytes z ++ rest
    → read_int32 f ≡ ok (z, moved 4 f)
unfolding read_int32 int32_bytes
read_int32_lem f z rest h a =
    let bits = of_signed (2 ^ 31) z in
    rw (
      exactly_lem f (host_to_network 4 bits) rest 4 (sym (length-host_to_network 4 bits)) a,
      network_to_host-host_to_network 4 bits (of_signed-lt (2 ^ 31) z h),
      to_signed-of_signed (2 ^ 31) z h,
    )

pub read_int64_lem :
    (f : File) (z : ℤ) (rest : List ℕ)
    → IsSigned (2 ^ 63) z
    → ahead f ≡ int64_bytes z ++ rest
    → read_int64 f ≡ ok (z, moved 8 f)
unfolding read_int64 int64_bytes
read_int64_lem f z rest h a =
    let bits = of_signed (2 ^ 63) z in
    rw (
      exactly_lem f (host_to_network 8 bits) rest 8 (sym (length-host_to_network 8 bits)) a,
      network_to_host-host_to_network 8 bits (of_signed-lt (2 ^ 63) z h),
      to_signed-of_signed (2 ^ 63) z h,
    )

pub read_uint8_lem :
    (f : File) (b : ℕ) (rest : List ℕ) → ahead f ≡ b ∷ rest → read_uint8 f ≡ ok (b, moved 1 f)
unfolding read_uint8 network_to_host
read_uint8_lem f b rest a = rw (exactly_lem f (b ∷ []) rest 1 refl a) (ground arith)

pub skip_lem : (f : File) (n : ℕ) → skip (pos n) f ≡ moved n f
unfolding skip moved
skip_lem f n = ground arith

pub read_bytes_lem :
    (beyond : List ℕ) (f : File) (xs rest : List ℕ) (n : ℕ)
    → 0 < n
    → n ≡ length xs
    → ahead f ≡ xs ++ rest
    → read_bytes beyond (pos n) f ≡ ok (c_string (xs ++ beyond), moved n f)
unfolding read_bytes
read_bytes_lem beyond f xs rest n some e a =
    let filled : (length xs == 0) ≡ false = ground (arith, some, e) in
    rw (exactly_lem f xs rest n e a, filled)

pub length-int32_bytes : (z : ℤ) → length (int32_bytes z) ≡ 4
unfolding int32_bytes
length-int32_bytes z = length-host_to_network 4 (of_signed (2 ^ 31) z)

pub length-int64_bytes : (z : ℤ) → length (int64_bytes z) ≡ 8
unfolding int64_bytes
length-int64_bytes z = length-host_to_network 8 (of_signed (2 ^ 63) z)
