-- ===== src/Net/Buffer/ReadFd.antt =====
-- `Buffer::readFd` (src/net/src/Buffer.cc): readv(2) into the writable bytes and a spare 64 KiB.
-- What the kernel delivers is an argument: an errno, or the bytes, no more than the iovec takes.
use mathlib.Core.List.{append_assoc}
use dws.Base.{
  Returns, ℕ, ◌+◌, ◌≤◌, ◌≡◌, ap, ap₂, ◌∙◌, arith, List, ◌++◌, length, take, drop, if◌then◌else◌,
  min, length-take, length-drop, take-append-drop, ltb, leb, Bool-cases, inl, inr, copy_at,
  length-copy_at, slice-copy_at_self, slice-copy_at_before, slice-append, take-all, add_size,
  max_size, Result, ok,
}
use dws.Net.Buffer.{Buffer, readable_bytes, writable_bytes, to_string_piece, append}
use dws.Net.Buffer.Inv.{IsValid, Holds}
use dws.Net.Buffer.Append.{append_lem}

pub data Readv : Type 0 where
  failed : ℕ → Readv
  received : List ℕ → Readv

abbrev pub extra_size : ℕ
extra_size = 65536

-- The room that the iovec offers: the second part is left out where the first is large.
abbrev pub iov_room : Buffer → ℕ
iov_room b =
    if ltb (writable_bytes b) extra_size then writable_bytes b + extra_size else writable_bytes b

-- The buffer after the call; its `n` and `savedErrno` are those of readv.
unfoldable pub read_fd : Buffer → Readv → Result Buffer
unfolding append
read_fd b (failed errno) = ok b
read_fd b (received bytes) =
    let scattered = copy_at b.buffer b.writer_index (take (writable_bytes b) bytes) in
    if leb (length bytes) (writable_bytes b)
    then ok (record b { buffer = scattered; writer_index = add_size b.writer_index (length bytes) })
    else append (record b { buffer = scattered; writer_index = length scattered })
        (drop (writable_bytes b) bytes)

module _ {b : Buffer} (bytes : List ℕ) (v : IsValid b) where
  first : List ℕ
  first = take (writable_bytes b) bytes

  length-first : length first ≡ min (writable_bytes b) (length bytes)
  unfolding first
  length-first = length-take (writable_bytes b) bytes

  scattered : List ℕ
  unfolding first
  scattered = copy_at b.buffer b.writer_index first

  length-scattered : length scattered ≡ length b.buffer
  unfolding scattered
  length-scattered = length-copy_at b.buffer b.writer_index first

  -- The bytes that went to the first part of the iovec stand behind the readable ones.
  scattered-Holds :
      (w : ℕ)
      → w ≡ b.writer_index + length first
      → Holds (to_string_piece b ++ first) (record b { buffer = scattered; writer_index = w })
  unfolding scattered
  scattered-Holds w e = record {
    valid = omega (arith, length-scattered, length-first);
    content =
        slice-append scattered b.reader_index (readable_bytes b) (length first) _ b.writer_index
          (omega (arith, length-first)) (omega arith)
        ∙ ap₂ ◌++◌
            (slice-copy_at_before b.buffer b.writer_index first b.reader_index (readable_bytes b)
              (omega arith))
            (slice-copy_at_self b.buffer b.writer_index first (omega (arith, length-first)));
  }

  -- On a valid buffer, if the kernel delivers no more bytes than the iovec has room for and the
  -- vector may grow by 64 KiB, `readFd` returns with all of them behind the readable bytes, in
  -- order.
  pub read_fd_lem :
      length bytes ≤ iov_room b
      → length b.buffer + extra_size ≤ max_size
      → Returns (read_fd b (received bytes)) (Holds (to_string_piece b ++ bytes))
  unfolding read_fd scattered first
  read_fd_lem h k = elim (Bool-cases (leb (length bytes) (writable_bytes b))) [
    | inl fits ↦ (
      record b { buffer = scattered; writer_index = add_size b.writer_index (length bytes) },
      ground arith,
      let p =
            scattered-Holds (add_size b.writer_index (length bytes))
              (ground (arith, length-first)) in
          record {
            valid = p.valid;
            content =
                p.content
                ∙ ap (λ xs. to_string_piece b ++ xs)
                    (take-all (writable_bytes b) bytes (ground arith));
          },
    )
    | inr more ↦
        let p =
          scattered-Holds (length scattered) (ground (arith, length-first, length-scattered)) in
        let (b', e, q) =
          append_lem (drop (writable_bytes b) bytes) p.valid
            (ground (arith, length-scattered, length-drop (writable_bytes b) bytes)) in
        (
          b',
          rw more e,
          record {
            valid = q.valid;
            content =
                q.content
                ∙ ap (λ xs. xs ++ drop (writable_bytes b) bytes) p.content
                ∙ append_assoc (to_string_piece b) first (drop (writable_bytes b) bytes)
                ∙ ap (λ xs. to_string_piece b ++ xs) (take-append-drop (writable_bytes b) bytes);
          },
        )
  ]
