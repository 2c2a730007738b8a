-- ===== src/Net/Buffer/Ints.antt =====
-- Integers in network order: the append, read, peek and prepend families of class Buffer, and
-- src/net/include/Endian.h. The first argument is the width in bytes, 8, 4, 2 or 1; a value is its
-- bit pattern, below `256 ^ w`.
use native.Mathlib.Nat.{pow-suc}
use mathlib.Core.List.{append-nil}
use dws.Base.{Returns, take-append_length, drop-append_length}
use dws.Base.{
  ℕ, zero, suc, ◌+◌, ◌*◌, ◌/◌, ◌%◌, ◌^◌, ◌≤◌, ◌<◌, ◌≡◌, refl, ap, sym, ◌∙◌, arith, List, [], ◌∷◌,
  ◌++◌, length, take, drop, length-append, leb, take-slice, max_size, Result, ok, ◌>>=◌, ◌>>◌,
  assert,
}
use dws.Net.Buffer.{
  Buffer, readable_bytes, prependable_bytes, peek, to_string_piece, retrieve, append, prepend,
}
use dws.Net.Buffer.Inv.{IsValid, Holds, length-contents}
use dws.Net.Buffer.Retrieve.{retrieve_lem}
use dws.Net.Buffer.Append.{append_lem}
use dws.Net.Buffer.Prepend.{prepend_lem}

-- `hostToNetwork`, as the bytes that the result has in memory: most significant first.
unfoldable pub host_to_network : ℕ → ℕ → List ℕ
host_to_network zero x = []
host_to_network (suc w) x = host_to_network w (x / 256) ++ (x % 256) ∷ []

-- `networkToHost` of a value with these bytes in memory.
unfoldable pub network_to_host : ℕ → List ℕ → ℕ
network_to_host acc [] = acc
network_to_host acc (x ∷ xs) = network_to_host (acc * 256 + x) xs

pub append_int : ℕ → Buffer → ℕ → Result Buffer
unfolding append host_to_network
append_int w b x = append b (host_to_network w x)

pub peek_int : ℕ → Buffer → Result ℕ
unfolding network_to_host
peek_int w b = do assert (leb w (readable_bytes b)); ok (network_to_host 0 (peek b w))

pub retrieve_int : ℕ → Buffer → Result Buffer
unfolding retrieve
retrieve_int w b = retrieve b w

pub read_int : ℕ → Buffer → Result (ℕ × Buffer)
unfolding peek_int retrieve_int
read_int w b = do result ← peek_int w b; b' ← retrieve_int w b; ok (result, b')

pub prepend_int : ℕ → Buffer → ℕ → Result Buffer
unfolding prepend host_to_network
prepend_int w b x = prepend b (host_to_network w x)

pub length-host_to_network : (w x : ℕ) → length (host_to_network w x) ≡ w
unfolding host_to_network
length-host_to_network zero x = refl
length-host_to_network (suc w) x = omega (
  arith,
  length-append (host_to_network w (x / 256)) ((x % 256) ∷ []),
  length-host_to_network w (x / 256),
)

network_to_host-append :
    (acc : ℕ) (xs : List ℕ) (y : ℕ)
    → network_to_host acc (xs ++ y ∷ []) ≡ network_to_host acc xs * 256 + y
unfolding network_to_host
network_to_host-append acc [] y = refl
network_to_host-append acc (x ∷ xs) y = network_to_host-append (acc * 256 + x) xs y

-- The two conversions are inverse on values of the width.
pub network_to_host-host_to_network :
    (w x : ℕ) → x < 256 ^ w → network_to_host 0 (host_to_network w x) ≡ x
unfolding host_to_network
network_to_host-host_to_network zero x h = unfold network_to_host in omega arith
network_to_host-host_to_network (suc w) x h = omega (
  arith,
  network_to_host-append 0 (host_to_network w (x / 256)) (x % 256),
  network_to_host-host_to_network w (x / 256) smaller,
)
  where
    smaller : x / 256 < 256 ^ w
    smaller = omega (arith, pow-suc 256 w)

-- `readInt` returns the number whose bytes stand in front, and drops them.
pub read_int_lem :
    {b : Buffer} (w x : ℕ) (rest : List ℕ)
    → IsValid b
    → x < 256 ^ w
    → to_string_piece b ≡ host_to_network w x ++ rest
    → Returns (read_int w b) (λ r. (r.0 ≡ x) × Holds rest r.1)
unfolding read_int peek_int retrieve_int
read_int_lem {b} w x rest v h e =
    let (b', f, p) = retrieve_lem w v enough in
    (
      (x, b'),
      rw f (ground (arith, front)),
      (
        refl,
        record {
          valid = p.valid;
          content =
              p.content
              ∙ ap (drop w) e
              ∙ drop-append_length (host_to_network w x) rest w (sym (length-host_to_network w x));
        },
      ),
    )
  where
    enough : w ≤ readable_bytes b
    enough = omega (
      arith,
      length-contents v,
      ap length e,
      length-append (host_to_network w x) rest,
      length-host_to_network w x,
    )

    front : network_to_host 0 (peek b w) ≡ x
    front =
        ap (network_to_host 0) (
          sym (take-slice b.buffer b.reader_index (readable_bytes b) w enough)
          ∙ ap (take w) e
          ∙ take-append_length (host_to_network w x) rest w (sym (length-host_to_network w x)))
        ∙ network_to_host-host_to_network w x h

-- On a valid buffer with `w` prependable bytes, what `prependInt` put in front, `readInt` takes off
-- again, for a number of `w` bytes, and the rest is as it was.
pub read_int-prepend_int :
    {b : Buffer} (w x : ℕ)
    → IsValid b
    → w ≤ prependable_bytes b
    → x < 256 ^ w
    → Returns (prepend_int w b x >>= read_int w) (λ r. (r.0 ≡ x) × Holds (to_string_piece b) r.1)
unfolding prepend_int
read_int-prepend_int {b} w x v h k =
    let (b', e, p) =
      prepend_lem (host_to_network w x) v (omega (arith, length-host_to_network w x)) in
    let (r, f, q) = read_int_lem w x (to_string_piece b) p.valid k p.content in (r, rw e f, q)

-- On a valid buffer with `w` bytes to spare within the largest vector, what `appendInt` put behind
-- the readable bytes, `readInt` returns once those are retrieved, for a number of `w` bytes.
pub read_int-append_int :
    {b : Buffer} (w x : ℕ)
    → IsValid b
    → b.writer_index + w ≤ max_size
    → x < 256 ^ w
    → Returns
        (append_int w b x >>= λ b1. retrieve b1 (readable_bytes b) >>= read_int w)
        (λ r. (r.0 ≡ x) × Holds [] r.1)
unfolding append_int
read_int-append_int {b} w x v h k =
    let (b1, e, p) =
      append_lem (host_to_network w x) v (omega (arith, length-host_to_network w x)) in
    let (b2, f, q) = retrieve_lem (readable_bytes b) p.valid (
      omega (
        arith,
        length-contents p.valid,
        ap length p.content,
        length-append (to_string_piece b) (host_to_network w x),
        length-contents v,
      )) in
    let behind : to_string_piece b2 ≡ host_to_network w x ++ [] =
      q.content
      ∙ ap (drop (readable_bytes b)) p.content
      ∙ drop-append_length (to_string_piece b) (host_to_network w x) (readable_bytes b)
          (sym (length-contents v))
      ∙ sym (append-nil (host_to_network w x)) in
    let (r, g, s) = read_int_lem w x [] q.valid k behind in (r, rw e (rw f g), s)
