-- ===== src/Net/Buffer/Append.antt =====
-- Writing at the end: `append`, and `shrink`, which appends to a fresh buffer.
use dws.Base.{
  Returns, ℕ, ◌+◌, ◌≤◌, ◌≡◌, ap₂, ◌∙◌, arith, List, ◌++◌, length, copy_at, length-copy_at,
  slice-copy_at_self, slice-copy_at_before, slice-append, add_size, max_size,
}
use dws.Net.Buffer.{
  Buffer, cheap_prepend, initial_size, init, swap, readable_bytes, writable_bytes, to_string_piece,
  ensure_writable_bytes, has_written, append, shrink,
}
use dws.Net.Buffer.Inv.{IsValid, Holds, length-contents, init-IsValid}
use dws.Net.Buffer.Space.{HasRoom, ensure_writable_bytes_lem}

-- Bytes written where they fit, then counted in.
pub write_end :
    {b : Buffer} {xs : List ℕ} (bytes : List ℕ) (extra : ℕ)
    → HasRoom xs (length bytes + extra) b
    → Returns
        (has_written (record b { buffer = copy_at b.buffer b.writer_index bytes }) (length bytes))
        (HasRoom (xs ++ bytes) extra)
unfolding has_written
write_end {b} {xs} bytes extra p = (
  record {
    buffer = stored;
    reader_index = b.reader_index;
    writer_index = add_size b.writer_index (length bytes);
  },
  ground (arith, same),
  record {
    holds = record {
      valid = omega (arith, same, p.room, p.holds.valid);
      content =
          slice-append stored b.reader_index (readable_bytes b) (length bytes) _ b.writer_index
            (omega (arith, p.room, p.holds.valid)) (omega (arith, p.holds.valid))
          ∙ ap₂ ◌++◌
              (slice-copy_at_before b.buffer b.writer_index bytes b.reader_index (readable_bytes b)
                  (omega (arith, p.holds.valid))
                ∙ p.holds.content)
              (slice-copy_at_self b.buffer b.writer_index bytes
                (omega (arith, p.room, p.holds.valid)));
    };
    room = omega (arith, same, p.room, p.holds.valid);
  },
)
  where
    stored : List ℕ
    stored = copy_at b.buffer b.writer_index bytes

    same : length stored ≡ length b.buffer
    same = length-copy_at b.buffer b.writer_index bytes

-- Where the bytes fit, `append` leaves the rest of the room.
append_room :
    {b : Buffer} {xs : List ℕ} (bytes : List ℕ) (extra : ℕ)
    → HasRoom xs (length bytes + extra) b
    → Returns (append b bytes) (HasRoom (xs ++ bytes) extra)
unfolding append ensure_writable_bytes
append_room {b} {xs} bytes extra p = let (b', e, q) = write_end bytes extra p in (b', enough ∙ e, q)
  where
    fits : length bytes ≤ writable_bytes b
    fits = omega (arith, p.room)

    enough :
        append b bytes
        ≡ has_written (record b { buffer = copy_at b.buffer b.writer_index bytes }) (length bytes)
    enough = ground (arith, fits)

-- On a valid buffer, if the bytes fit within the largest vector, `append` returns with them behind
-- those that were readable.
pub append_lem :
    {b : Buffer} (bytes : List ℕ)
    → IsValid b
    → b.writer_index + length bytes ≤ max_size
    → Returns (append b bytes) (Holds (to_string_piece b ++ bytes))
unfolding append
append_lem {b} bytes v h =
    let (b', e, p) = ensure_writable_bytes_lem (length bytes) v h in
    let (b'', e', q) =
      write_end bytes 0 (record { holds = p.holds; room = omega (arith, p.room) }) in
    (b'', rw e e', q.holds)

-- `shrink(reserve)` keeps what is readable and leaves room for `reserve` bytes.
pub shrink_lem :
    {b : Buffer} (reserve : ℕ)
    → IsValid b
    → cheap_prepend + readable_bytes b + reserve ≤ max_size
    → Returns (shrink b reserve) (HasRoom (to_string_piece b) reserve)
unfolding shrink swap init
shrink_lem {b} reserve v h =
    let (other, e, p) =
      ensure_writable_bytes_lem (add_size (readable_bytes b) reserve)
        (init-IsValid initial_size (omega arith)) (omega arith) in
    let (other', e', q) =
      append_room (to_string_piece b) reserve
        (record { holds = p.holds; room = omega (arith, p.room, length-contents v) }) in
    (other', rw (e, e'), q)
