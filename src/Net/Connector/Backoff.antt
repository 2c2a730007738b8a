-- ===== src/Net/Connector/Backoff.antt =====
-- The delays between attempts.
use dws.Base.{ℕ, zero, suc, ◌*◌, ◌^◌, ◌≡◌, arith, [], ◌∷◌, true, min}
use dws.Net.Connector.{
  Connector, closes, runs_after, retry, max_retry_delay_ms, init_retry_delay_ms,
}
use native.Mathlib.Nat.{pow-suc}

-- The connector after `n` failures in a row, each on a new socket.
pub fail : ℕ → Connector → Connector
fail zero c = c
fail (suc n) c = (retry (fail n c) n).0

-- The delay before attempt `n`: it starts at 500 ms and doubles, up to 30 s.
abbrev pub backoff : ℕ → ℕ
backoff n = min (init_retry_delay_ms * 2 ^ n) max_retry_delay_ms

fail_lem :
    (n : ℕ) (c : Connector)
    → c.connect ≡ true
    → c.retry_delay_ms ≡ init_retry_delay_ms
    → ((fail n c).connect ≡ true) × ((fail n c).retry_delay_ms ≡ backoff n)
unfolding fail retry
fail_lem zero c h k = (h, omega arith)
fail_lem (suc n) c h k = let p = fail_lem n c h k in ground (arith, p, pow-suc 2 n)

-- Of a connector that is to connect, and whose delay is the initial one, after `n` failures in a row the
-- next one closes its socket and is followed by another attempt,
-- 500 ms, 1 s, 2 s and so on later, never more than 30 s.
pub retry-backoff :
    (n sockfd : ℕ) (c : Connector)
    → c.connect ≡ true
    → c.retry_delay_ms ≡ init_retry_delay_ms
    → (retry (fail n c) sockfd).1 ≡ closes sockfd ∷ runs_after (backoff n) ∷ []
unfolding retry
retry-backoff n sockfd c h k = let p = fail_lem n c h k in ground (arith, p)
