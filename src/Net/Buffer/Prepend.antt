-- ===== src/Net/Buffer/Prepend.antt =====
-- Writing in front of the readable bytes: `prepend`; and taking back the last ones: `unwrite`.
use dws.Base.{
  Returns, ℕ, ◌-◌, ◌≤◌, ◌≡◌, ap, ap₂, sym, ◌∙◌, arith, List, ◌++◌, length, take, slice, copy_at,
  length-copy_at, slice-copy_at_self, slice-copy_at_after, slice-append, take-slice, sub_size,
}
use dws.Net.Buffer.{Buffer, readable_bytes, prependable_bytes, to_string_piece, unwrite, prepend}
use dws.Net.Buffer.Inv.{IsValid, Holds}

-- On a valid buffer `prepend` puts bytes that fit in the prependable area in front of those that
-- were readable.
pub prepend_lem :
    {b : Buffer} (bytes : List ℕ)
    → IsValid b
    → length bytes ≤ prependable_bytes b
    → Returns (prepend b bytes) (Holds (bytes ++ to_string_piece b))
unfolding prepend
prepend_lem {b} bytes v h = (
  record { buffer = stored; reader_index = start; writer_index = b.writer_index },
  ground arith,
  record {
    valid = omega (arith, same);
    content =
        slice-append stored start (length bytes) (readable_bytes b) _ b.reader_index (omega arith)
          (omega arith)
        ∙ ap₂ ◌++◌ (slice-copy_at_self b.buffer start bytes (omega arith)) (
            slice-copy_at_after b.buffer start bytes b.reader_index (readable_bytes b)
              (omega arith));
  },
)
  where
    start : ℕ
    start = sub_size b.reader_index (length bytes)

    stored : List ℕ
    stored = copy_at b.buffer start bytes

    same : length stored ≡ length b.buffer
    same = length-copy_at b.buffer start bytes

-- `unwrite(n)` drops the last `n` readable bytes.
pub unwrite_lem :
    {b : Buffer} (n : ℕ)
    → IsValid b
    → n ≤ readable_bytes b
    → Returns (unwrite b n) (Holds (take (readable_bytes b - n) (to_string_piece b)))
unfolding unwrite
unwrite_lem {b} n v h = (
  record b { writer_index = sub_size b.writer_index n },
  ground arith,
  record {
    valid = omega arith;
    content =
        ap (λ k. slice b.reader_index k b.buffer) (omega arith)
        ∙ sym (
            take-slice b.buffer b.reader_index (readable_bytes b) (readable_bytes b - n)
              (omega arith));
  },
)
