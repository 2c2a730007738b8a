-- ===== src/Net/EventLoop.antt =====
-- Net/EventLoop models the functors that are queued in class EventLoop (src/net/src/EventLoop.cc) and
-- the eventfd that wakes it. A functor is a value of a type `F`. What the loop's thread does between
-- two accesses of the shared queue is one step; queueInLoop is two, since it calls `wakeup` when it
-- has let go of the mutex.
pub mod Wakeup
mod Tests
use dws.Base.{
  ℕ, zero, suc, List, [], ◌∷◌, ◌++◌, length, Option, none, some, Bool, true, false, ◌||◌, not,
  if◌then◌else◌, Result, ok, ◌>>=◌, ◌>>◌, assert,
}

pub record EventLoop {ℓ} (F : Type ℓ) : Type ℓ where
  pub looping : Bool
  pub quit_flag : Bool
  pub event_handling : Bool
  pub calling_pending_functors : Bool
  pub pending_functors : List F
  -- The local of `doPendingFunctors`: what it still has to call.
  pub functors : List F
  -- The counter of `wakeupFd_`: poll returns while it is not 0.
  pub wakeup_count : ℕ

module _ {ℓ} {F : Type ℓ} where
  pub init : EventLoop F
  init = record {
    looping = false;
    quit_flag = false;
    event_handling = false;
    calling_pending_functors = false;
    pending_functors = [];
    functors = [];
    wakeup_count = 0;
  }

  -- `loop` up to its first test of `quit_`.
  pub start_loop : EventLoop F → Result (EventLoop F)
  start_loop l = do assert (not l.looping); ok (record l { looping = true; quit_flag = false })

  pub wakeup : EventLoop F → EventLoop F
  wakeup l = record l { wakeup_count = suc l.wakeup_count }

  -- eventfd(2): a read sets the counter to 0.
  pub handle_read : EventLoop F → EventLoop F
  handle_read l = record l { wakeup_count = 0 }

  -- `quit` up to its call of `wakeup`.
  pub set_quit : EventLoop F → EventLoop F
  set_quit l = record l { quit_flag = true }

  pub quit : Bool → EventLoop F → EventLoop F
  quit in_loop_thread l = if in_loop_thread then set_quit l else wakeup (set_quit l)

  -- The part of `queueInLoop` that holds the mutex.
  pub push_functor : EventLoop F → F → EventLoop F
  push_functor l cb = record l { pending_functors = l.pending_functors ++ cb ∷ [] }

  -- What follows it.
  pub wake_after : Bool → EventLoop F → EventLoop F
  wake_after in_loop_thread l =
      if not in_loop_thread || l.calling_pending_functors then wakeup l else l

  -- The call, where nothing comes between its two parts.
  pub queue_in_loop : Bool → EventLoop F → F → EventLoop F
  queue_in_loop in_loop_thread l cb = wake_after in_loop_thread (push_functor l cb)

  -- The functor that is called at once, if it is.
  pub run_in_loop : Bool → EventLoop F → F → Option F × EventLoop F
  run_in_loop in_loop_thread l cb =
      if in_loop_thread then (some cb, l) else (none, queue_in_loop in_loop_thread l cb)

  pub queue_size : EventLoop F → ℕ
  queue_size l = length l.pending_functors

  -- poll has returned, and the active channels are being handled.
  pub poll_returns : EventLoop F → EventLoop F
  poll_returns l = record l { event_handling = true }

  -- The active channels have been handled.
  pub events_handled : EventLoop F → EventLoop F
  events_handled l = record l { event_handling = false }

  -- `doPendingFunctors` up to its loop.
  pub take_functors : EventLoop F → EventLoop F
  take_functors l = record l {
    calling_pending_functors = true;
    functors = l.pending_functors;
    pending_functors = [];
  }

  -- The next functor, or the end of `doPendingFunctors`.
  pub call_functor : EventLoop F → Option F × EventLoop F
  call_functor l = elim (l.functors) [
    | [] ↦ (none, record l { calling_pending_functors = false })
    | f ∷ fs ↦ (some f, record l { functors = fs })
  ]
