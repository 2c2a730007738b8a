-- ===== src/Net/Timers/Tests.antt =====
-- TimerQueue (src/net/src/TimerQueue.cc) on concrete inputs.
use dws.Base.OrderedSet.{contains, insert, erase, same, same-eq}
use dws.Net.Timers.{
  Timer, Entry, ActiveTimer, TimerQueue, init, add_timer_in_loop, new_timer, cancel_in_loop, update,
  get_expired, reset, how_much_time_from_now,
}
use dws.Net.Timers.Inv.{IsValid}
use dws.Net.Timers.Insert.{add_timer_in_loop_lem, all_later, created}
use dws.Net.Timers.Cancel.{cancel_in_loop_lem}
use dws.Net.Timers.Expire.{AreOut, get_expired_lem, all_due}
use dws.Net.Timers.Reset.{reset_lem, object_after, active_after, is_named, armed_for}
use dws.Net.Timers.Safe.{idle}
use dws.Net.Timers.Run.{Later, here, added, NextReturns, run_never_fails, canceled_stays_out}
use dws.Base.{
  Returns, ℕ, ◌≡◌, refl, arith, [], ◌∷◌, ◌++◌, none, some, true, false, ◌&&◌, not, if◌then◌else◌,
  ◌==◌, ok,
}

-- A repeating timer at address 16, which expires at 500.
abbrev tick : Timer
tick = record { expiration = 500; interval = 1000; repeat = true; sequence = 0 }

abbrev one_timer : TimerQueue
one_timer = record {
  timers = (500, 16) ∷ [];
  active_timers = (16, 0) ∷ [];
  calling_expired_timers = false;
  canceling_timers = [];
  heap = update (λ p. none) 16 (some tick);
  num_created = 1;
  timerfd = some (0, 400000);
}

one_timer-IsValid : IsValid one_timer
unfolding contains
one_timer-IsValid = record {
  timers_sorted = (tt, tt);
  active_sorted = (tt, tt);
  sizes = refl;
  timers_live = λ e there. (
    tick,
    ground (arith, same-eq e (500, 16)),
    ground (arith, same-eq e (500, 16)),
    ground (arith, same-eq e (500, 16)),
  );
  active_live = λ a there. (
    tick,
    ground (arith, same-eq a (16, 0)),
    ground (arith, same-eq a (16, 0)),
    ground (arith, same-eq a (16, 0)),
  );
  addresses = λ e there. ground (arith, same-eq e (500, 16));
}

first_added : add_timer_in_loop 100 16 (new_timer 16 500 1000 true init) ≡ ok one_timer
unfolding add_timer_in_loop init new_timer contains insert
first_added = refl

one_history : Later idle init idle one_timer
unfolding init
one_history = added 16 500 1000 true 100 here (init_empty 16) (omega arith) first_added
  where
    init_empty : (p : ℕ) → init.heap p ≡ none
    init_empty p = refl

add_timer_in_loop_lem_example :
    Returns (add_timer_in_loop 100 32 (new_timer 32 300 0 false one_timer)) λ r.
      IsValid r
      × ((e : Entry)
          → contains e r.timers ≡ (if same e (300, 32) then true else contains e one_timer.timers))
      × ((a : ActiveTimer)
          → contains a r.active_timers
            ≡ (if same a (32, 1) then true else contains a one_timer.active_timers))
      × ((x : ℕ)
          → r.heap x ≡ (if 32 == x then some (created 300 0 false one_timer) else one_timer.heap x))
      × (r.num_created ≡ 2)
      × (r.timerfd ≡ (
          if all_later 300 one_timer.timers
          then some (how_much_time_from_now 300 100)
          else one_timer.timerfd))
add_timer_in_loop_lem_example =
    add_timer_in_loop_lem 32 300 0 false 100 one_timer one_timer-IsValid refl (omega arith)

cancel_in_loop_lem_runs : Returns (cancel_in_loop (16, 0) one_timer) λ r.
    IsValid r
    × ((a : ActiveTimer)
        → contains a r.active_timers
          ≡ (if same a (16, 0) then false else contains a one_timer.active_timers))
    × ((p : ℕ)
        → r.heap p ≡ (
            if contains (16, 0) one_timer.active_timers && p == 16 then none else one_timer.heap p))
    × (r.canceling_timers ≡ (
        if not (contains (16, 0) one_timer.active_timers) && false then insert (16, 0) [] else []))
    × (r.num_created ≡ 1)
cancel_in_loop_lem_runs = cancel_in_loop_lem (16, 0) one_timer one_timer-IsValid

get_expired_lem_example : Returns (get_expired 600 one_timer) λ r.
    (r.0 ++ r.1.timers ≡ one_timer.timers)
    × (all_due 600 r.0 ≡ true)
    × (all_later 600 r.1.timers ≡ true)
    × IsValid r.1
    × AreOut r.0 r.1.active_timers r.1.heap
    × (r.1.heap ≡ one_timer.heap)
    × (r.1.num_created ≡ 1)
get_expired_lem_example = get_expired_lem 600 one_timer one_timer-IsValid

-- The timer has expired, and its callback has run.
abbrev ran : TimerQueue
ran = record one_timer { timers = []; active_timers = [] }

ran-IsValid : IsValid ran
unfolding contains
ran-IsValid = record {
  timers_sorted = tt;
  active_sorted = tt;
  sizes = refl;
  timers_live = λ e there. cc;
  active_live = λ a there. cc;
  addresses = λ e there. cc;
}

ran-AreOut : AreOut ((500, 16) ∷ []) ran.active_timers ran.heap
unfolding contains
ran-AreOut = ((tick, refl), (λ s. refl), omega arith, (λ when. refl), tt)

reset_lem_example : Returns (reset ((500, 16) ∷ []) 600 601 ran) λ r.
    IsValid r
    × ((p : ℕ)
        → r.heap p ≡ (
            if is_named p ((500, 16) ∷ []) then object_after 600 [] p (ran.heap p) else ran.heap p))
    × ((a : ActiveTimer)
        → contains a r.active_timers ≡ (
            if is_named a.0 ((500, 16) ∷ [])
            then active_after [] a (ran.heap a.0)
            else contains a []))
    × (r.timerfd ≡ armed_for 601 r.timers ran.timerfd)
    × (r.num_created ≡ 1)
reset_lem_example = reset_lem ((500, 16) ∷ []) 600 601 ran ran-IsValid ran-AreOut

run_never_fails_example :
    IsValid one_timer
    × NextReturns idle one_timer 600
    × ((r : TimerQueue) × (cancel_in_loop (16, 0) one_timer ≡ ok r))
    × ((r : TimerQueue) × (add_timer_in_loop 600 32 (new_timer 32 700 0 false one_timer) ≡ ok r))
run_never_fails_example = run_never_fails one_history 600 (16, 0) 32 700 0 false refl (omega arith)

abbrev canceled_one : TimerQueue
canceled_one = record one_timer {
  timers = [];
  active_timers = [];
  heap = update one_timer.heap 16 none;
}

one_canceled : cancel_in_loop (16, 0) one_timer ≡ ok canceled_one
unfolding cancel_in_loop contains erase
one_canceled = refl

-- The address is used again.
abbrev used_again : TimerQueue
used_again = record canceled_one {
  timers = (900, 16) ∷ [];
  active_timers = (16, 1) ∷ [];
  heap =
      update canceled_one.heap 16
        (some (record { expiration = 900; interval = 0; repeat = false; sequence = 1 }));
  num_created = 2;
  timerfd = some (0, 300000);
}

again_added : add_timer_in_loop 600 16 (new_timer 16 900 0 false canceled_one) ≡ ok used_again
unfolding add_timer_in_loop new_timer contains insert
again_added = refl

there : contains (16, 0) one_timer.active_timers ≡ true
unfolding contains
there = refl

canceled_stays_out_example : contains (16, 0) used_again.active_timers ≡ false
canceled_stays_out_example =
    canceled_stays_out (16, 0) one_history there one_canceled
      (added 16 900 0 false 600 here refl (omega arith) again_added)
