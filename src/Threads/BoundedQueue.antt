-- ===== src/Threads/BoundedQueue.antt =====
-- Threads/BoundedQueue models class BoundedBlockingQueue (src/base/include/BoundedBlockQueue.h). A
-- call holds the mutex from the end of its wait on, so it is one step; a caller that has to wait,
-- however often it is woken, has made none. The class is modelled without the constructor's call of
-- `queue_.reserve`: std::deque has no such member, so that with it no queue can be constructed, and
-- the call would only set memory aside.
pub mod Fifo
mod Tests
use dws.Base.{
  ℕ, zero, suc, List, [], ◌∷◌, ◌++◌, length, Option, none, some, Bool, true, false, if◌then◌else◌,
  ◌==◌, leb, max_size,
}

pub record Queue {ℓ} (A : Type ℓ) : Type ℓ where
  pub max_size : ℕ
  pub queue : List A

module _ {ℓ} {A : Type ℓ} where
  -- The constructor without `queue_.reserve(maxSize_)`, which does not compile.
  pub init : ℕ → Queue A
  init max_size = record { max_size = max_size; queue = [] }

  -- None while the caller waits on `notFull_`.
  pub put : Queue A → A → Option (Queue A)
  put q x =
      if leb q.max_size (length q.queue)
      then none
      else some (record q { queue = q.queue ++ x ∷ [] })

  -- None while the caller waits on `notEmpty_`.
  pub get : Queue A → Option (A × Queue A)
  get q = elim (q.queue) [ [] ↦ none | x ∷ xs ↦ some (x, record q { queue = xs }) ]

  pub empty : Queue A → Bool
  empty q = length q.queue == 0

  pub full : Queue A → Bool
  full q = leb q.max_size (length q.queue)

  pub size : Queue A → ℕ
  size q = length q.queue
