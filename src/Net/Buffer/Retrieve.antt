-- ===== src/Net/Buffer/Retrieve.antt =====
-- Reading from the front: `retrieve` and its callers.
use dws.Base.{
  Returns, ℕ, zero, suc, ◌-◌, ◌≤◌, ◌≡◌, refl, ap, sym, ◌∙◌, arith, List, [], ◌∷◌, length, take,
  drop, drop-slice, ltb, Bool-cases, inl, inr, take-slice, take-all, add_size, sub_size,
}
use dws.Net.Buffer.{
  Buffer, readable_bytes, peek, to_string_piece, retrieve, retrieve_all, retrieve_until,
  retrieve_as_string, retrieve_all_as_string,
}
use dws.Net.Buffer.Inv.{IsValid, Holds, length-contents}

pub retrieve_all_lem : {b : Buffer} → IsValid b → Holds [] (retrieve_all b)
unfolding retrieve_all
retrieve_all_lem v = record { valid = omega arith; content = refl }

drop-all : (n : ℕ) (xs : List ℕ) → length xs ≤ n → drop n xs ≡ []
drop-all zero [] h = refl
drop-all zero (x ∷ xs) h = absurd (omega arith)
drop-all (suc n) [] h = refl
drop-all (suc n) (x ∷ xs) h = drop-all n xs (omega arith)

retrieve_part :
    {b : Buffer} (n : ℕ)
    → IsValid b
    → n ≤ readable_bytes b
    → Holds (drop n (to_string_piece b)) (record b { reader_index = add_size b.reader_index n })
retrieve_part {b} n v h = record {
  valid = omega arith;
  content =
      sym (drop-slice b.buffer b.reader_index (readable_bytes b) n _ _ (omega arith) (omega arith));
}

-- `retrieve(n)` drops the first `n` readable bytes.
pub retrieve_lem :
    {b : Buffer} (n : ℕ)
    → IsValid b
    → n ≤ readable_bytes b
    → Returns (retrieve b n) (Holds (drop n (to_string_piece b)))
unfolding retrieve
retrieve_lem {b} n v h = elim (Bool-cases (ltb n (readable_bytes b))) [
  | inl less ↦
      (record b { reader_index = add_size b.reader_index n }, ground arith, retrieve_part n v h)
  | inr all ↦ (
    retrieve_all b,
    ground arith,
    record {
      valid = (retrieve_all_lem v).valid;
      content =
          (retrieve_all_lem v).content
          ∙ sym (drop-all n (to_string_piece b) (ground (arith, length-contents v)));
    },
  )
]

-- On a valid buffer with at least `n` readable bytes, `retrieveAsString(n)` returns the first `n`
-- of them and drops them.
pub retrieve_as_string_lem :
    {b : Buffer} (n : ℕ)
    → IsValid b
    → n ≤ readable_bytes b
    → Returns
        (retrieve_as_string b n)
        (λ r. (r.0 ≡ take n (to_string_piece b)) × Holds (drop n (to_string_piece b)) r.1)
unfolding retrieve_as_string
retrieve_as_string_lem {b} n v h =
    let (b', e, p) = retrieve_lem n v h in
    (
      (peek b n, b'),
      rw e (ground arith),
      (sym (take-slice b.buffer b.reader_index (readable_bytes b) n h), p),
    )

-- `retrieveAllAsString` returns all readable bytes and leaves none.
pub retrieve_all_as_string_lem :
    {b : Buffer}
    → IsValid b
    → Returns (retrieve_all_as_string b) (λ r. (r.0 ≡ to_string_piece b) × Holds [] r.1)
unfolding retrieve_all_as_string
retrieve_all_as_string_lem {b} v =
    let (r, e, p) = retrieve_as_string_lem (readable_bytes b) v (omega arith) in
    (
      r,
      e,
      (
        p.0 ∙ take-all (readable_bytes b) (to_string_piece b) (omega (arith, length-contents v)),
        record {
          valid = p.1.valid;
          content =
              p.1.content
              ∙ drop-all (readable_bytes b) (to_string_piece b) (omega (arith, length-contents v));
        },
      ),
    )

-- `retrieveUntil(end)` drops the readable bytes before `end`.
pub retrieve_until_lem :
    {b : Buffer} (end : ℕ)
    → IsValid b
    → b.reader_index ≤ end
    → end ≤ b.writer_index
    → Returns (retrieve_until b end) (Holds (drop (end - b.reader_index) (to_string_piece b)))
unfolding retrieve_until
retrieve_until_lem {b} end v h k =
    let (b', e, p) = retrieve_lem (sub_size end b.reader_index) v (omega arith) in
    (
      b',
      ground (arith, e),
      record {
        valid = p.valid;
        content = p.content ∙ ap (λ n. drop n (to_string_piece b)) (omega arith);
      },
    )
