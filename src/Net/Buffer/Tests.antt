-- ===== src/Net/Buffer/Tests.antt =====
-- The results on class Buffer at small buffers.
use dws.Base.{Returns, ℕ, ◌≡◌, refl, arith, List, [], ◌∷◌, ◌++◌, take, drop, some, ◌>>=◌}
use dws.Net.Buffer.{
  Buffer, readable_bytes, to_string_piece, retrieve, retrieve_as_string, ensure_writable_bytes,
  append, prepend,
}
use dws.Net.Buffer.Inv.{IsValid, Holds}
use dws.Net.Buffer.Space.{HasRoom, ensure_writable_bytes_lem}
use dws.Net.Buffer.Retrieve.{retrieve_as_string_lem}
use dws.Net.Buffer.Append.{append_lem}
use dws.Net.Buffer.Prepend.{prepend_lem}
use dws.Net.Buffer.Search.{IsFirst, find_crlf, find_crlf-IsFirst}
use dws.Net.Buffer.Ints.{
  append_int, prepend_int, read_int, read_int-append_int, read_int-prepend_int,
}
use dws.Net.Buffer.ReadFd.{received, read_fd, read_fd_lem}

-- "a", CR, LF, "b", and room for two more bytes.
abbrev line : Buffer
line = record {
  buffer = 0 ∷ 0 ∷ 0 ∷ 0 ∷ 0 ∷ 0 ∷ 0 ∷ 0 ∷ 97 ∷ 13 ∷ 10 ∷ 98 ∷ 0 ∷ 0 ∷ [];
  reader_index = 8;
  writer_index = 12;
}

line-IsValid : IsValid line
line-IsValid = omega arith

-- Five bytes that do not fit.
abbrev more : List ℕ
more = 99 ∷ 100 ∷ 101 ∷ 102 ∷ 103 ∷ []

append_lem_example : Returns (append line more) (Holds (to_string_piece line ++ more))
append_lem_example = append_lem more line-IsValid (omega arith)

read_fd_lem_example : Returns (read_fd line (received more)) (Holds (to_string_piece line ++ more))
read_fd_lem_example = read_fd_lem more line-IsValid (omega arith) (omega arith)

retrieve_as_string_lem_example :
    Returns
      (retrieve_as_string line 3)
      (λ r. (r.0 ≡ take 3 (to_string_piece line)) × Holds (drop 3 (to_string_piece line)) r.1)
retrieve_as_string_lem_example = retrieve_as_string_lem 3 line-IsValid (omega arith)

ensure_writable_bytes_lem_runs :
    Returns (ensure_writable_bytes line 5) (HasRoom (to_string_piece line) 5)
ensure_writable_bytes_lem_runs = ensure_writable_bytes_lem 5 line-IsValid (omega arith)

prepend_lem_runs : Returns (prepend line (1 ∷ 2 ∷ [])) (Holds (1 ∷ 2 ∷ to_string_piece line))
prepend_lem_runs = prepend_lem (1 ∷ 2 ∷ []) line-IsValid (omega arith)

find_crlf-IsFirst_runs : IsFirst (13 ∷ 10 ∷ []) (to_string_piece line) (find_crlf line)
find_crlf-IsFirst_runs = find_crlf-IsFirst line

find_crlf-line : find_crlf line ≡ some 1
unfolding find_crlf
find_crlf-line = refl

read_int-append_int_runs :
    Returns
      (append_int 4 line 70000 >>= λ b1. retrieve b1 (readable_bytes line) >>= read_int 4)
      (λ r. (r.0 ≡ 70000) × Holds [] r.1)
read_int-append_int_runs = read_int-append_int 4 70000 line-IsValid (omega arith) (omega arith)

read_int-prepend_int_runs :
    Returns
      (prepend_int 8 line 70000 >>= read_int 8)
      (λ r. (r.0 ≡ 70000) × Holds (to_string_piece line) r.1)
read_int-prepend_int_runs = read_int-prepend_int 8 70000 line-IsValid (omega arith) (omega arith)
