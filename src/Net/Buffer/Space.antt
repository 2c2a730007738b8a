-- ===== src/Net/Buffer/Space.antt =====
-- Making room: `makeSpace` and `ensureWritableBytes`.
use dws.Base.{
  Returns, ℕ, ◌+◌, ◌≤◌, ◌<◌, ◌≡◌, refl, ap, ◌∙◌, arith, List, length, slice, ltb, Bool-cases, inl,
  inr, copy_at, length-copy_at, slice-copy_at_self, slice-resize, length-resize, resize, add_size,
  max_size,
}
use dws.Net.Buffer.{
  Buffer, cheap_prepend, readable_bytes, writable_bytes, prependable_bytes, to_string_piece,
  vector_resize, grow, slide, make_space, ensure_writable_bytes,
}
use dws.Net.Buffer.Inv.{IsValid, Holds, length-contents}

-- The readable bytes are as before, and `len` more can be written.
pub record HasRoom (xs : List ℕ) (len : ℕ) (b : Buffer) : Type 0 where
  pub holds : Holds xs b
  pub room : len ≤ writable_bytes b

module _ {b : Buffer} (len : ℕ) (v : IsValid b) where
  grow_lem :
      writable_bytes b < len
      → b.writer_index + len ≤ max_size
      → Returns (grow b len) (HasRoom (to_string_piece b) len)
  unfolding grow vector_resize
  grow_lem h k = (
    record b { buffer = bigger },
    ground arith,
    record {
      holds = record {
        valid = ground (arith, length-resize b.buffer (add_size b.writer_index len) 0);
        content =
            slice-resize b.buffer _ 0 b.reader_index (readable_bytes b) (omega arith) (omega arith);
      };
      room = ground (arith, length-resize b.buffer (add_size b.writer_index len) 0);
    },
  )
    where
      bigger : List ℕ
      bigger = resize b.buffer (add_size b.writer_index len) 0

  length-peek : length (to_string_piece b) ≡ readable_bytes b
  length-peek = length-contents v

  slide_lem :
      cheap_prepend < b.reader_index
      → len + cheap_prepend ≤ writable_bytes b + prependable_bytes b
      → Returns (slide b) (HasRoom (to_string_piece b) len)
  unfolding slide
  slide_lem h k = (
    record {
      buffer = copy_at b.buffer cheap_prepend (to_string_piece b);
      reader_index = cheap_prepend;
      writer_index = add_size cheap_prepend (readable_bytes b);
    },
    ground arith,
    record {
      holds = record {
        valid = omega (arith, length-copy_at b.buffer cheap_prepend (to_string_piece b));
        content =
            ap (λ n. slice cheap_prepend n (copy_at b.buffer cheap_prepend (to_string_piece b)))
              (omega (arith, length-peek))
            ∙ slice-copy_at_self b.buffer cheap_prepend (to_string_piece b)
                (omega (arith, length-peek));
      };
      room = omega (arith, length-copy_at b.buffer cheap_prepend (to_string_piece b));
    },
  )

  -- `makeSpace(len)`, called where fewer than `len` bytes are writable: its assertions hold.
  make_space_lem :
      writable_bytes b < len
      → b.writer_index + len ≤ max_size
      → Returns (make_space b len) (HasRoom (to_string_piece b) len)
  unfolding make_space
  make_space_lem h k =
      elim (Bool-cases
        (ltb (add_size (writable_bytes b) (prependable_bytes b)) (add_size len cheap_prepend))) [
          | inl small ↦ rw small (grow_lem h k)
          | inr large ↦ rw large (slide_lem (ground arith) (ground arith))
        ]

  -- On a valid buffer whose bytes and `len` more stay within the largest vector,
  -- `ensureWritableBytes(len)` returns with the readable bytes as before and room for `len` more,
  -- also where it has to make space.
  pub ensure_writable_bytes_lem :
      b.writer_index + len ≤ max_size
      → Returns (ensure_writable_bytes b len) (HasRoom (to_string_piece b) len)
  unfolding ensure_writable_bytes
  ensure_writable_bytes_lem k = elim (Bool-cases (ltb (writable_bytes b) len)) [
    | inl small ↦
        let (b', e, p) = make_space_lem (ground arith) k in (b', ground (arith, p.room), p)
    | inr enough ↦ (
      b,
      ground arith,
      record { holds = record { valid = v; content = refl }; room = ground arith },
    )
  ]
