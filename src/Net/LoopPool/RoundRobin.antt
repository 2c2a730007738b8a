-- ===== src/Net/LoopPool/RoundRobin.antt =====
-- `getNextLoop` hands the loops out in turn; `getLoopForHash` may leave the table.
use Prim.Native.Nat.{bit_and}
use dws.Base.{
  ℕ, zero, suc, ◌+◌, ◌%◌, ◌≤◌, ◌<◌, ◌≡◌, refl, ap, ap₂, sym, ◌∙◌, arith, List, [], ◌∷◌, length,
  get_or, get_elem?, none, some, true, if◌then◌else◌, ◌==◌, leb, Bool-cases, inl, inr, Result, ok,
  err, ◌>>=◌, out_of_range,
}
use dws.Base.{all_below, of-all_below, ==_iff}
use native.Mathlib.Nat.{mod-eq_of_lt, add-mod_left}
use dws.Net.LoopPool.{LoopPool, get_next_loop, get_loop_for_hash}

pub record IsValid (p : LoopPool) : Type 0 where
  pub running : p.started ≡ true
  pub in_range : p.next < length p.loops

-- The loops that `n` calls return.
pub next_loops : ℕ → LoopPool → Result (List ℕ)
next_loops zero p = ok []
next_loops (suc n) p = do r ← get_next_loop p; rest ← next_loops n r.1; ok (r.0 ∷ rest)

-- The table repeated for ever, `n` entries from index `i` on.
pub cycle : List ℕ → ℕ → ℕ → List ℕ
cycle ls i zero = []
cycle ls i (suc n) = get_or ls (i % length ls) 0 ∷ cycle ls (i + 1) n

cycle_wrap : (ls : List ℕ) (i n : ℕ) → cycle ls (length ls + i) n ≡ cycle ls i n
unfolding cycle
cycle_wrap ls i zero = refl
cycle_wrap ls i (suc n) =
    ap₂ ◌∷◌ (ap (λ k. get_or ls k 0) (add-mod_left (length ls) i))
      (ap (λ k. cycle ls k n) (omega arith) ∙ cycle_wrap ls (i + 1) n)

get_elem?-get_or : (ls : List ℕ) (i : ℕ) → i < length ls → get_elem? ls i ≡ some (get_or ls i 0)
get_elem?-get_or [] i h = absurd (omega arith)
get_elem?-get_or (l ∷ ls) zero h = refl
get_elem?-get_or (l ∷ ls) (suc i) h = get_elem?-get_or ls i (omega arith)

advance : LoopPool → ℕ
advance p = if leb (length p.loops) (p.next + 1) then 0 else p.next + 1

get_next_loop_lem :
    (p : LoopPool)
    → IsValid p
    → get_next_loop p ≡ ok (get_or p.loops p.next 0, record p { next = advance p })
unfolding get_next_loop advance
get_next_loop_lem p v = ground (arith, get_elem?-get_or p.loops p.next)

-- A started pool that has loops returns them in turn, from the next one on, over and over.
pub next_loops_lem :
    (n : ℕ) (p : LoopPool) → IsValid p → next_loops n p ≡ ok (cycle p.loops p.next n)
unfolding next_loops cycle
next_loops_lem zero p v = refl
next_loops_lem (suc n) p v =
    rw (get_next_loop_lem p v, next_loops_lem n (record p { next = advance p }) kept)
      (ap₂ (λ a b. ok (a ∷ b)) (ap (λ k. get_or p.loops k 0) (sym (mod-eq_of_lt v.in_range))) wraps)
  where
    kept : IsValid (record p { next = advance p })
    kept = unfold advance in record { running = v.running; in_range = ground (arith, v.in_range) }

    wraps : cycle p.loops (advance p) n ≡ cycle p.loops (p.next + 1) n
    wraps = elim (Bool-cases (leb (length p.loops) (p.next + 1))) [
      | inl last ↦
          unfold advance in
          rw last (
            sym (cycle_wrap p.loops 0 n) ∙ ap (λ k. cycle p.loops k n) (ground (arith, v.in_range)))
      | inr inner ↦ unfold advance in rw inner
    ]

get_elem?-length : (ls : List ℕ) → get_elem? ls (length ls) ≡ none
get_elem?-length [] = refl
get_elem?-length (l ∷ ls) = get_elem?-length ls

hash_table : all_below 65 (λ n. bit_and n n == n) ≡ true
unfolding all_below
hash_table = refl

-- Of a pool of at most 64 loops, a hash equal to their number asks for an entry behind the table.
pub get_loop_for_hash-out_of_range :
    (p : LoopPool)
    → 0 < length p.loops
    → length p.loops ≤ 64
    → get_loop_for_hash p (length p.loops) ≡ err out_of_range
unfolding get_loop_for_hash
get_loop_for_hash-out_of_range p h k = rw same (ground (arith, get_elem?-length p.loops))
  where
    same : bit_and (length p.loops) (length p.loops) ≡ length p.loops
    same =
        (==_iff _ (length p.loops)).0
          (of-all_below (λ n. bit_and n n == n) {bound = 65} (omega arith) hash_table)
