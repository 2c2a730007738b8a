-- ===== src/Net/Buffer.antt =====
-- Net/Buffer models class Buffer: src/net/include/Buffer.h and src/net/src/Buffer.cc.
-- A byte is a number; a signed integer that the source reads or writes is its bit pattern.
pub mod Search
pub mod Inv
pub mod Space
pub mod Retrieve
pub mod Append
pub mod Prepend
pub mod Ints
pub mod ReadFd
mod Tests
use dws.Base.{
  ℕ, suc, true, false, List, ltb, leb, ◌==◌, if◌then◌else◌, length, slice, copy_at, resize,
  replicate, add_size, sub_size, max_size, Result, ok, err, length_error, assert, ◌>>=◌, ◌>>◌,
}

abbrev pub cheap_prepend : ℕ
cheap_prepend = 8

abbrev pub initial_size : ℕ
initial_size = 1024

pub record Buffer : Type 0 where
  pub buffer : List ℕ
  pub reader_index : ℕ
  pub writer_index : ℕ

-- The constructor.
unfoldable pub init : ℕ → Buffer
init initial_size = record {
  buffer = replicate (add_size cheap_prepend initial_size) 0;
  reader_index = cheap_prepend;
  writer_index = cheap_prepend;
}

-- Both buffers after `a.swap(b)`.
unfoldable pub swap : Buffer → Buffer → Buffer × Buffer
swap a b = (b, a)

abbrev pub readable_bytes : Buffer → ℕ
readable_bytes b = sub_size b.writer_index b.reader_index

abbrev pub writable_bytes : Buffer → ℕ
writable_bytes b = sub_size (length b.buffer) b.writer_index

abbrev pub prependable_bytes : Buffer → ℕ
prependable_bytes b = b.reader_index

-- What `peek()` points to, `n` bytes of it.
abbrev pub peek : Buffer → ℕ → List ℕ
peek b n = slice b.reader_index n b.buffer

-- `toStringPiece`: the readable bytes. The cast of their number to int changes nothing below 2 ^ 31
-- of them; beyond, the piece of the source would have a negative length, which is not modelled.
abbrev pub to_string_piece : Buffer → List ℕ
to_string_piece b = peek b (readable_bytes b)

unfoldable pub retrieve_all : Buffer → Buffer
retrieve_all b = record b { reader_index = cheap_prepend; writer_index = cheap_prepend }

unfoldable pub retrieve : Buffer → ℕ → Result Buffer
unfolding retrieve_all
retrieve b len = do
  assert (leb len (readable_bytes b))
  if ltb len (readable_bytes b)
      then ok (record b { reader_index = add_size b.reader_index len })
      else ok (retrieve_all b)

-- `end` is an offset into the storage, as the pointer is.
unfoldable pub retrieve_until : Buffer → ℕ → Result Buffer
unfolding retrieve
retrieve_until b end = do
  assert (leb b.reader_index end)
  assert (leb end b.writer_index)
  retrieve b (sub_size end b.reader_index)

unfoldable pub retrieve_as_string : Buffer → ℕ → Result (List ℕ × Buffer)
unfolding retrieve
retrieve_as_string b len = do
  assert (leb len (readable_bytes b))
  b' ← retrieve b len
  ok (peek b len, b')

unfoldable pub retrieve_all_as_string : Buffer → Result (List ℕ × Buffer)
unfolding retrieve_as_string
retrieve_all_as_string b = retrieve_as_string b (readable_bytes b)

-- `std::vector::resize` throws beyond `max_size`.
unfoldable pub vector_resize : List ℕ → ℕ → Result (List ℕ)
vector_resize xs n = if ltb max_size n then err length_error else ok (resize xs n 0)

-- `makeSpace` where the storage has to grow.
unfoldable pub grow : Buffer → ℕ → Result Buffer
unfolding vector_resize
grow b len = do
  grown ← vector_resize b.buffer (add_size b.writer_index len)
  ok (record b { buffer = grown })

-- `makeSpace` where moving the readable bytes to the front is enough.
unfoldable pub slide : Buffer → Result Buffer
slide b = do
  assert (ltb cheap_prepend b.reader_index)
  let readable = readable_bytes b
  let writer = add_size cheap_prepend readable
  assert (readable == sub_size writer cheap_prepend)
  ok (record {
    buffer = copy_at b.buffer cheap_prepend (peek b readable);
    reader_index = cheap_prepend;
    writer_index = writer;
  })

unfoldable pub make_space : Buffer → ℕ → Result Buffer
unfolding grow slide
make_space b len =
    if ltb (add_size (writable_bytes b) (prependable_bytes b)) (add_size len cheap_prepend)
    then grow b len
    else slide b

unfoldable pub ensure_writable_bytes : Buffer → ℕ → Result Buffer
unfolding make_space
ensure_writable_bytes b len = do
  b' ← if ltb (writable_bytes b) len then make_space b len else ok b
  assert (leb len (writable_bytes b'))
  ok b'

unfoldable pub has_written : Buffer → ℕ → Result Buffer
has_written b len = do
  assert (leb len (writable_bytes b))
  ok (record b { writer_index = add_size b.writer_index len })

unfoldable pub unwrite : Buffer → ℕ → Result Buffer
unwrite b len = do
  assert (leb len (readable_bytes b))
  ok (record b { writer_index = sub_size b.writer_index len })

-- `append(data, len)`, with `len` the length of the list.
unfoldable pub append : Buffer → List ℕ → Result Buffer
unfolding ensure_writable_bytes has_written
append b bytes = do
  b' ← ensure_writable_bytes b (length bytes)
  has_written (record b' { buffer = copy_at b'.buffer b'.writer_index bytes }) (length bytes)

unfoldable pub prepend : Buffer → List ℕ → Result Buffer
prepend b bytes = do
  assert (leb (length bytes) (prependable_bytes b))
  let start = sub_size b.reader_index (length bytes)
  ok (record b { buffer = copy_at b.buffer start bytes; reader_index = start })

unfoldable pub shrink : Buffer → ℕ → Result Buffer
unfolding ensure_writable_bytes append swap init
shrink b reserve = do
  other ← ensure_writable_bytes (init initial_size) (add_size (readable_bytes b) reserve)
  other' ← append other (to_string_piece b)
  ok (swap b other').0
