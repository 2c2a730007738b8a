-- ===== src/Net/Buffer/Inv.antt =====
-- The representation invariant of class Buffer (src/net/include/Buffer.h), and how results are stated.
use dws.Base.{ℕ, zero, add_size, ◌+◌, ◌-◌, ◌≤◌, ◌≡◌, arith, List, length, slice, length-slice}
use dws.Base.{ap, length-replicate, max_size}
use dws.Net.Buffer.{Buffer, cheap_prepend, init, readable_bytes, to_string_piece}

-- 0 <= readerIndex <= writerIndex <= size, as the class comment draws it; the storage holds the
-- cheap prepend area, and is no larger than a vector may be.
pub record IsValid (b : Buffer) : Type 0 where
  pub ordered : b.reader_index ≤ b.writer_index
  pub inside : b.writer_index ≤ length b.buffer
  pub roomy : cheap_prepend ≤ length b.buffer
  pub bounded : length b.buffer ≤ max_size

-- A valid buffer whose readable bytes are `xs`.
pub record Holds (xs : List ℕ) (b : Buffer) : Type 0 where
  pub valid : IsValid b
  pub content : to_string_piece b ≡ xs

pub readable : {b : Buffer} → IsValid b → readable_bytes b ≡ b.writer_index - b.reader_index
readable v = omega arith

pub contents :
    {b : Buffer}
    → IsValid b
    → to_string_piece b ≡ slice b.reader_index (b.writer_index - b.reader_index) b.buffer
contents {b} v = ap (λ n. slice b.reader_index n b.buffer) (readable v)

pub length-contents : {b : Buffer} → IsValid b → length (to_string_piece b) ≡ readable_bytes b
length-contents {b} v =
    omega (arith, readable v, length-slice b.reader_index (readable_bytes b) b.buffer)

-- A new buffer is valid and has nothing to read.
pub init-IsValid : (n : ℕ) → cheap_prepend + n ≤ max_size → IsValid (init n)
unfolding init
init-IsValid n h = omega (arith, length-replicate (add_size cheap_prepend n) zero)
