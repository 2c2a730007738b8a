-- ===== src/Net/TcpServer/Names.antt =====
-- TcpServer::newConnection (src/net/src/TcpServer.cc): the names of connections differ.
use mathlib.Core.List.{append-nil}
use native.Mathlib.Nat.{pow-suc}
use dws.Base.Int.{pos, pos_part}
use dws.Log.Stream.{convert, convert_loop, is_zero, is_negative, convert_turns}
use dws.Log.Stream.Digits.{parse, length-reverse, abs}
use dws.Log.Stream.Decimal.{convert-Decimal}
use dws.Net.TcpServer.{TcpServer, conn_name}
use dws.Base.{
  drop-append_length, ℕ, zero, suc, ◌/◌, ◌^◌, ◌≤◌, ◌<◌, ◌≡◌, refl, ap, sym, ◌∙◌, arith, List, ◌∷◌,
  ◌++◌, length, drop, true, ◌==◌, reverse, length-append, take-all,
}

convert_loop_short : (fuel k n : ℕ) → n < 10 ^ suc k → length (convert_loop fuel (pos n)) ≤ suc k
unfolding convert_loop is_zero
convert_loop_short zero k n h = omega arith
convert_loop_short (suc fuel) zero n h =
    let last : (n / 10 == 0) ≡ true = ground arith in rw last (omega arith)
convert_loop_short (suc fuel) (suc k) n h =
    ground (arith, convert_loop_short fuel k (n / 10) (omega (arith, pow-suc 10 (suc k))))

convert_short : (n : ℕ) → n < 10 ^ 10 → length (convert (pos n)) ≤ 10
unfolding convert is_negative
convert_short n h =
    let l = convert_loop convert_turns (pos n) in
    let e : convert (pos n) ≡ reverse l = ap reverse (append-nil l) in
    omega (arith, ap length e, length-reverse l, convert_loop_short convert_turns 9 n h)

append_cancel : (xs ys zs : List ℕ) → xs ++ ys ≡ xs ++ zs → ys ≡ zs
append_cancel xs ys zs e =
    sym (drop-append_length xs ys (length xs) refl)
    ∙ ap (drop (length xs)) e
    ∙ drop-append_length xs zs (length xs) refl

-- The part of the name behind that of the server fits the buffer.
whole :
    (s : TcpServer) (id : ℕ)
    → length s.ip_port ≤ 51
    → id < 2 ^ 31
    → conn_name s id ≡ s.name ++ (45 ∷ (s.ip_port ++ (35 ∷ convert (pos id))))
unfolding conn_name
whole s id h k =
    let suffix = 35 ∷ convert (pos id) in
    ap (λ (t : List ℕ). s.name ++ t)
      (take-all 63 (45 ∷ (s.ip_port ++ suffix))
        (omega (arith, length-append s.ip_port suffix, convert_short id (omega arith))))

pub conn_name_inj :
    (s : TcpServer) (i j : ℕ)
    → length s.ip_port ≤ 51
    → i < 2 ^ 31
    → j < 2 ^ 31
    → conn_name s i ≡ conn_name s j
    → i ≡ j
unfolding abs
conn_name_inj s i j h hi hj e =
    let tails = append_cancel s.name _ _ (sym (whole s i h hi) ∙ e ∙ whole s j h hj) in
    let texts = ap (λ (t : List ℕ). drop 1 t) (append_cancel (45 ∷ s.ip_port) _ _ tails) in
    let di = convert-Decimal (pos i) (below i hi) in
    let dj = convert-Decimal (pos j) (below j hj) in
    ap pos_part (sym di.reads ∙ ap parse texts ∙ dj.reads)
  where
    below : (n : ℕ) → n < 2 ^ 31 → abs (pos n) < 2 ^ 64
    below n h = omega arith
