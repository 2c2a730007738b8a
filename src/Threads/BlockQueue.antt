-- ===== src/Threads/BlockQueue.antt =====
-- Threads/BlockQueue models class BlockQueue (src/base/include/BlockQueue.h). A call holds the mutex
-- from the end of its wait on, so it is one step; a caller that waits has made none.
pub mod Fifo
mod Tests
use dws.Base.{ℕ, zero, suc, List, [], ◌∷◌, ◌++◌, length, Option, none, some, true, false}

-- `queue_`, oldest first.
pub record BlockQueue {ℓ} (A : Type ℓ) : Type ℓ where
  pub queue : List A

module _ {ℓ} {A : Type ℓ} where
  pub init : BlockQueue A
  init = record { queue = [] }

  pub put : BlockQueue A → A → BlockQueue A
  put q x = record { queue = q.queue ++ x ∷ [] }

  -- None while the caller waits on `notEmpty_`.
  pub take_front : BlockQueue A → Option (A × BlockQueue A)
  take_front q = elim (q.queue) [ [] ↦ none | x ∷ xs ↦ some (x, record { queue = xs }) ]

  pub drain : BlockQueue A → List A × BlockQueue A
  drain q = (q.queue, record { queue = [] })

  pub size : BlockQueue A → ℕ
  size q = length q.queue
