-- ===== src/Threads/Latch.antt =====
-- Threads/Latch models class CountDownLatch (src/base/src/CountDownLatch.cc). A call is one step under
-- the mutex; `count_` is an int that no caller counts down 2 ^ 31 times below zero.
pub mod Release
mod Tests
use dws.Base.{ℕ, zero, suc, Bool, true, false, if◌then◌else◌, ◌==◌, ltb}
use dws.Base.Int.{ℤ, pos, negsuc}

pub record Latch : Type 0 where
  pub count : ℤ
  -- The calls of `condition_.notify_all`.
  pub notified : ℕ

pub init : ℤ → Latch
init count = record { count = count; notified = 0 }

pub pred : ℤ → ℤ
pred (pos zero) = negsuc 0
pred (pos (suc n)) = pos n
pred (negsuc n) = negsuc (suc n)

pub is_positive : ℤ → Bool
is_positive (pos n) = ltb 0 n
is_positive (negsuc n) = false

pub is_zero : ℤ → Bool
is_zero (pos n) = n == 0
is_zero (negsuc n) = false

-- Whether `wait` goes on waiting.
pub waits : Latch → Bool
waits l = is_positive l.count

pub count_down : Latch → Latch
count_down l =
    let c = pred l.count in
    record { count = c; notified = if is_zero c then suc l.notified else l.notified }

pub get_count : Latch → ℤ
get_count l = l.count
