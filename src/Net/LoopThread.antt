-- ===== src/Net/LoopThread.antt =====
-- Net/LoopThread models class EventLoopThread (src/net/src/EventLoopThread.cc): how the thread hands
-- the address of its loop to the caller of startLoop. A section that holds `mutex_` is one step; the
-- loop and the callback are arguments.
pub mod HandOver
mod Tests
use dws.Base.{ℕ, Option, none, some, Bool, true, false, Result, ok, ◌>>=◌, ◌>>◌, assert}

-- `running` has the address of the loop that is published.
pub data Thread : Type 0 where
  absent : Thread
  created : Thread
  running : ℕ → Thread
  ended : Thread

-- Where the caller of startLoop is: about to look at `loop_`, or asleep in `cond_.wait`.
pub data Starter : Type 0 where
  idle : Starter
  looking : Starter
  asleep : Starter
  returned : ℕ → Starter

pub record LoopThread : Type 0 where
  pub exiting : Bool
  pub loop : Option ℕ
  pub thread : Thread
  pub starter : Starter

unfoldable pub init : LoopThread
init = record { exiting = false; loop = none; thread = absent; starter = idle }

unfoldable pub is_absent : Thread → Bool
is_absent absent = true
is_absent created = false
is_absent (running l) = false
is_absent ended = false

-- `startLoop` up to the mutex.
unfoldable pub start_thread : LoopThread → Result LoopThread
unfolding is_absent
start_thread s = do
  assert (is_absent s.thread)
  ok (record s { thread = created; starter = looking })

-- One turn of the loop under the mutex.
unfoldable pub look : LoopThread → LoopThread
look s = record s { starter = elim s.loop [ none ↦ asleep | some l ↦ returned l ] }

-- `notify_one`, or a wake-up without cause.
unfoldable pub wake : Starter → Starter
wake idle = idle
wake looking = looking
wake asleep = looking
wake (returned l) = returned l

-- What `threadFunc` does before the loop runs.
unfoldable pub publish : ℕ → LoopThread → LoopThread
unfolding wake
publish l s = record s { loop = some l; thread = running l; starter = wake s.starter }

-- What it does after the loop has ended.
unfoldable pub finish : LoopThread → LoopThread
finish s = record s { loop = none; thread = ended }

-- The destructor: whether it quits the loop and joins the thread.
unfoldable pub destroy : LoopThread → Bool × LoopThread
destroy s = (elim s.loop [ none ↦ false | some l ↦ true ], record s { exiting = true })
