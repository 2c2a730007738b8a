-- ===== src/Net/Timers.antt =====
-- Net/Timers models class TimerQueue, class Timer and class TimerId (src/net/src/TimerQueue.cc and
-- src/net/src/Timer.cc). A `Timer *` is a number, and the objects stand in a heap. A `Timestamp` is
-- its microseconds, from 0 on. `interval` is what `interval_ * 1000000` gives as an int64_t, and
-- `repeat` is `interval_ > 0.0`. The callbacks are in the steps of `History` (Net/Timers/Run).
pub mod Inv
pub mod Insert
pub mod Cancel
pub mod Expire
pub mod Reset
pub mod Safe
pub mod Run
mod Tests
use dws.Base.OrderedSet.{contains, insert, erase, before, from_bound}
use dws.Base.{
  ℕ, zero, suc, ◌+◌, ◌-◌, ◌*◌, ◌/◌, ◌%◌, ◌^◌, List, [], ◌∷◌, length, Option, none, some, Bool, true,
  false, ◌&&◌, not, if◌then◌else◌, ◌==◌, ltb, Result, ok, err, ◌>>=◌, ◌>>◌, assert, dangling,
}

pub record Timer : Type 0 where
  pub expiration : ℕ
  pub interval : ℕ
  pub repeat : Bool
  pub sequence : ℕ

-- (expiration, timer)
abbrev pub Entry : Type 0
Entry = ℕ × ℕ

-- (timer, sequence)
abbrev pub ActiveTimer : Type 0
ActiveTimer = ℕ × ℕ

pub record TimerQueue : Type 0 where
  pub timers : List Entry
  pub active_timers : List ActiveTimer
  pub calling_expired_timers : Bool
  pub canceling_timers : List ActiveTimer
  -- The objects that are not deleted.
  pub heap : ℕ → Option Timer
  -- `s_numCreated_`
  pub num_created : ℕ
  -- What `timerfd_` was last set to: seconds and nanoseconds from then on.
  pub timerfd : Option (ℕ × ℕ)

-- UINTPTR_MAX
abbrev pub uintptr_max : ℕ
uintptr_max = 2 ^ 64 - 1

pub init : TimerQueue
init = record {
  timers = [];
  active_timers = [];
  calling_expired_timers = false;
  canceling_timers = [];
  heap = λ p. none;
  num_created = 0;
  timerfd = none;
}

abbrev pub update : (ℕ → Option Timer) → ℕ → Option Timer → ℕ → Option Timer
update heap p o r = if p == r then o else heap r

-- A read through a pointer.
unfoldable pub deref : TimerQueue → ℕ → Result Timer
deref q p = elim (q.heap p) [ none ↦ err dangling | some t ↦ ok t ]

-- `delete`
unfoldable pub free : ℕ → TimerQueue → TimerQueue
free p q = record q { heap = update q.heap p none }

unfoldable pub restart : ℕ → Timer → Timer
restart now t = record t { expiration = if t.repeat then now + t.interval else 0 }

-- The least that is set is 100 microseconds: 0 would disarm the timer.
unfoldable pub how_much_time_from_now : ℕ → ℕ → ℕ × ℕ
how_much_time_from_now when now =
    let microseconds = if ltb (when - now) 100 then 100 else when - now in
    (microseconds / 1000000, microseconds % 1000000 * 1000)

-- The `now` of `resetTimerfd` is read from the clock by itself.
unfoldable pub reset_timerfd : ℕ → ℕ → TimerQueue → TimerQueue
unfolding how_much_time_from_now
reset_timerfd expiration now q = record q { timerfd = some (how_much_time_from_now expiration now) }

unfoldable pub is_earliest : ℕ → List Entry → Bool
is_earliest when [] = true
is_earliest when (e ∷ es) = ltb when e.0

unfoldable pub insert_timer : ℕ → TimerQueue → Result (Bool × TimerQueue)
unfolding deref is_earliest
insert_timer p q = do
  assert (length q.timers == length q.active_timers)
  t ← deref q p
  let earliest_changed = is_earliest t.expiration q.timers
  assert (not (contains (t.expiration, p) q.timers))
  assert (not (contains (p, t.sequence) q.active_timers))
  let q' = record q {
    timers = insert (t.expiration, p) q.timers;
    active_timers = insert (p, t.sequence) q.active_timers;
  }
  assert (length q'.timers == length q'.active_timers)
  ok (earliest_changed, q')

-- `new Timer(cb, when, interval)` at the address `p` that the allocator gives.
unfoldable pub new_timer : ℕ → ℕ → ℕ → Bool → TimerQueue → TimerQueue
new_timer p when interval repeat q = record q {
  heap = update q.heap p (
      some (record {
        expiration = when;
        interval = interval;
        repeat = repeat;
        sequence = q.num_created;
      }));
  num_created = suc q.num_created;
}

unfoldable pub add_timer_in_loop : ℕ → ℕ → TimerQueue → Result TimerQueue
unfolding insert_timer deref reset_timerfd
add_timer_in_loop now p q = do
  (earliest_changed, q') ← insert_timer p q
  t ← deref q' p
  ok (if earliest_changed then reset_timerfd t.expiration now q' else q')

-- The branch of `cancelInLoop` for a timer that is found.
unfoldable pub remove_active : ActiveTimer → TimerQueue → Result TimerQueue
unfolding deref free
remove_active id q = do
  t ← deref q id.0
  assert (contains (t.expiration, id.0) q.timers)
  ok (
      free id.0 (record q {
        timers = erase (t.expiration, id.0) q.timers;
        active_timers = erase id q.active_timers;
      }))

unfoldable pub cancel_in_loop : ActiveTimer → TimerQueue → Result TimerQueue
unfolding remove_active
cancel_in_loop id q = do
  assert (length q.timers == length q.active_timers)
  q' ←
      (if contains id q.active_timers
        then remove_active id q
        else ok (
            if q.calling_expired_timers
            then record q { canceling_timers = insert id q.canceling_timers }
            else q))
  assert (length q'.timers == length q'.active_timers)
  ok q'

-- The loop of `getExpired` over the entries that are due.
unfoldable pub deactivate : List Entry → TimerQueue → Result TimerQueue
unfolding deref
deactivate [] q = ok q
deactivate (e ∷ es) q = do
  t ← deref q e.1
  assert (contains (e.1, t.sequence) q.active_timers)
  deactivate es (record q { active_timers = erase (e.1, t.sequence) q.active_timers })

unfoldable pub is_past : ℕ → List Entry → Bool
is_past now [] = true
is_past now (e ∷ es) = ltb now e.0

abbrev pub sentry : ℕ → Entry
sentry now = (now, uintptr_max)

unfoldable pub get_expired : ℕ → TimerQueue → Result (List Entry × TimerQueue)
unfolding deactivate is_past
get_expired now q = do
  assert (length q.timers == length q.active_timers)
  assert (is_past now (from_bound (sentry now) q.timers))
  let expired = before (sentry now) q.timers
  q' ← deactivate expired (record q { timers = from_bound (sentry now) q.timers })
  assert (length q'.timers == length q'.active_timers)
  ok (expired, q')

-- The object of an expired timer runs out again, or is deleted.
unfoldable pub reinsert_one : ℕ → Entry → Timer → TimerQueue → Result TimerQueue
unfolding restart insert_timer free
reinsert_one now e t q =
    if t.repeat && not (contains (e.1, t.sequence) q.canceling_timers)
    then (insert_timer e.1 (record q { heap = update q.heap e.1 (some (restart now t)) }) >>= λ r.
        ok r.1)
    else ok (free e.1 q)

-- The loop of `reset`.
unfoldable pub reinsert : ℕ → List Entry → TimerQueue → Result TimerQueue
unfolding deref reinsert_one
reinsert now [] q = ok q
reinsert now (e ∷ es) q = do t ← deref q e.1; q' ← reinsert_one now e t q; reinsert now es q'

-- The end of `reset`: the descriptor is set for the earliest timer, if there is one. An expiration
-- of 0 is not valid.
unfoldable pub rearm : ℕ → List Entry → TimerQueue → Result TimerQueue
unfolding deref reset_timerfd
rearm clock [] q = ok q
rearm clock (e ∷ es) q = do
  t ← deref q e.1
  ok (if ltb 0 t.expiration then reset_timerfd t.expiration clock q else q)

unfoldable pub reset : List Entry → ℕ → ℕ → TimerQueue → Result TimerQueue
unfolding reinsert rearm
reset expired now clock q = do q' ← reinsert now expired q; rearm clock q'.timers q'

-- `handleRead` up to its loop over the callbacks.
unfoldable pub begin_read : ℕ → TimerQueue → Result (List Entry × TimerQueue)
unfolding get_expired
begin_read now q = do
  (expired, q') ← get_expired now q
  ok (expired, record q' { calling_expired_timers = true; canceling_timers = [] })

-- `handleRead` after its loop.
unfoldable pub end_read : List Entry → ℕ → ℕ → TimerQueue → Result TimerQueue
unfolding reset
end_read expired now clock q = reset expired now clock (record q { calling_expired_timers = false })

-- The destructor's loop.
unfoldable pub destroy : List Entry → TimerQueue → TimerQueue
unfolding free
destroy [] q = q
destroy (e ∷ es) q = destroy es (free e.1 q)
