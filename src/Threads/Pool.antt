-- ===== src/Threads/Pool.antt =====
-- Threads/Pool models class ThreadPool (src/base/src/ThreadPool.cc). A call of run or take holds the
-- mutex from the end of its wait on, so it is one step; the loop of runInThread tests `running_` without
-- it, in a step before that of take. A task is a value of a type `T`: running it is outside the pool.
-- `threadInitCallback_` and the handlers that abort the process when a task throws are not modelled.
pub mod Order
mod Tests
use dws.Base.{
  ℕ, zero, suc, List, [], ◌∷◌, ◌++◌, length, Option, none, some, Bool, true, false, ◌&&◌, not,
  if◌then◌else◌, ◌==◌, leb, Result, ok, ◌>>=◌, ◌>>◌, assert,
}

-- `max_queue_size` is `maxQueueSize_`, `threads` the number of `threads_`.
pub record ThreadPool {ℓ} (T : Type ℓ) : Type ℓ where
  pub queue : List T
  pub max_queue_size : ℕ
  pub running : Bool
  pub threads : ℕ

-- What `run` does with a task.
pub data Submitted {ℓ} (T : Type ℓ) : Type ℓ where
  -- It is run by the caller, in a pool with no thread.
  ran_here : Submitted T
  waits : Submitted T
  refused : Submitted T
  -- The assertion that there is room failed.
  fails : Submitted T
  queued : ThreadPool T → Submitted T

module _ {ℓ} {T : Type ℓ} where
  pub init : ThreadPool T
  init = record { queue = []; max_queue_size = 0; running = false; threads = 0 }

  pub set_max_queue_size : ThreadPool T → ℕ → ThreadPool T
  set_max_queue_size p n = record p { max_queue_size = n }

  pub start : ThreadPool T → ℕ → Result (ThreadPool T)
  start p n = do assert (p.threads == 0); ok (record p { running = true; threads = n })

  -- The state in which `stop` joins the threads.
  pub stop : ThreadPool T → ThreadPool T
  stop p = record p { running = false }

  pub queue_size : ThreadPool T → ℕ
  queue_size p = length p.queue

  -- The comparison of `isFull`; its assertion, that the mutex cannot be locked, is about the caller,
  -- which holds it.
  pub is_full : ThreadPool T → Bool
  is_full p = leb p.max_queue_size (length p.queue)

  pub run : ThreadPool T → T → Submitted T
  run p t =
      if p.threads == 0
      then ran_here
      else if is_full p && p.running
      then waits
      else if not p.running
      then refused
      else if is_full p
      then fails
      else queued (record p { queue = p.queue ++ t ∷ [] })

  -- None while the caller waits on `notEmpty_`; an empty task when the pool has been stopped.
  pub take_task : ThreadPool T → Option (Option T × ThreadPool T)
  take_task p = elim (p.queue) [
    | [] ↦ if p.running then none else some (none, p)
    | t ∷ ts ↦ some (some t, record p { queue = ts })
  ]

  -- The test of the loop of `runInThread`, which holds no mutex.
  pub goes_on : ThreadPool T → Bool
  goes_on p = p.running
