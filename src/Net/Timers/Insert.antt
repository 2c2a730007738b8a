-- ===== src/Net/Timers/Insert.antt =====
-- TimerQueue::insert and TimerQueue::addTimerInLoop (src/net/src/TimerQueue.cc): what a new timer
-- changes.
use dws.Base.OrderedSet.{contains, insert, IsAscending, IsAbove, same, contains-insert}
use dws.Net.Timers.{
  ActiveTimer, Timer, Entry, TimerQueue, uintptr_max, insert_timer, new_timer, add_timer_in_loop,
  is_earliest, how_much_time_from_now, reset_timerfd,
}
use dws.Net.Timers.Inv.{IsValid, IsOut, out_timers, update-Mirror, insert-Mirror}
use dws.Base.{
  ◌==◌, suc, Returns, ℕ, ◌<◌, ◌≡◌, refl, arith, List, [], ◌∷◌, none, some, Bool, true, ◌&&◌,
  if◌then◌else◌, ltb, Bool-cases, inl, inr, ok,
}

-- Every entry expires after `when`.
unfoldable pub all_later : ℕ → List Entry → Bool
all_later when [] = true
all_later when (e ∷ es) = ltb when e.0 && all_later when es

pub later_above :
    (when : ℕ) (e : Entry) (es : List Entry) → when < e.0 → IsAbove e es → all_later when es ≡ true
unfolding all_later
later_above when e [] h above = refl
later_above when e (f ∷ es) h above = ground (arith, later_above when e es h above.1)

pub is_earliest_lem :
    (when : ℕ) (timers : List Entry)
    → IsAscending timers
    → is_earliest when timers ≡ all_later when timers
unfolding is_earliest all_later
is_earliest_lem when [] sorted = refl
is_earliest_lem when (e ∷ es) sorted = ground (arith, later_above when e es)

-- The sets with one more timer.
unfoldable pub inserted : ℕ → Timer → TimerQueue → TimerQueue
inserted p t q = record q {
  timers = insert (t.expiration, p) q.timers;
  active_timers = insert (p, t.sequence) q.active_timers;
}

module _ (p : ℕ) (t : Timer) (q : TimerQueue) (v : IsValid q) (live : q.heap p ≡ some t)
    (below : p < uintptr_max) (out : IsOut p q.active_timers) where
  pub inserted-IsValid : IsValid (inserted p t q)
  unfolding inserted
  inserted-IsValid = insert-Mirror v p out t live below

  pub insert_timer_lem : insert_timer p q ≡ ok (is_earliest t.expiration q.timers, inserted p t q)
  unfolding insert_timer inserted
  insert_timer_lem =
      let m = insert-Mirror v p out t live below in
      ground (arith, live, v.sizes, out_timers v p out t.expiration, out t.sequence, m.sizes)

pub fresh-IsOut : (p : ℕ) (q : TimerQueue) → IsValid q → q.heap p ≡ none → IsOut p q.active_timers
fresh-IsOut p q v fresh s = elim (Bool-cases (contains (p, s) q.active_timers)) [
  | inl there ↦ let (t, live, x, e) = v.active_live (p, s) there in cc
  | inr out ↦ out
]

-- The object that `new Timer` makes.
unfoldable pub created : ℕ → ℕ → Bool → TimerQueue → Timer
created when interval repeat q = record {
  expiration = when;
  interval = interval;
  repeat = repeat;
  sequence = q.num_created;
}

-- addTimer, run in the loop's thread, with a new object at an address that no object has: no
-- assertion fails, exactly the new timer is added to each of the two sets, with the number of timers
-- created before it as its sequence, and the descriptor is set for it exactly if it expires before
-- every other timer.
pub add_timer_in_loop_lem :
    (p when interval : ℕ) (repeat : Bool) (now : ℕ) (q : TimerQueue)
    → IsValid q
    → q.heap p ≡ none
    → p < uintptr_max
    → Returns (add_timer_in_loop now p (new_timer p when interval repeat q)) λ r.
      IsValid r
      × ((e : Entry)
          → contains e r.timers ≡ (if same e (when, p) then true else contains e q.timers))
      × ((a : ActiveTimer)
          → contains a r.active_timers
            ≡ (if same a (p, q.num_created) then true else contains a q.active_timers))
      × ((x : ℕ) → r.heap x ≡ (if p == x then some (created when interval repeat q) else q.heap x))
      × (r.num_created ≡ suc q.num_created)
      × (r.timerfd
          ≡ (if all_later when q.timers then some (how_much_time_from_now when now) else q.timerfd))
unfolding add_timer_in_loop new_timer inserted created
add_timer_in_loop_lem p when interval repeat now q v fresh below =
    let out = fresh-IsOut p q v fresh in
    let q1 = new_timer p when interval repeat q in
    let t = created when interval repeat q in
    let v1 : IsValid q1 = update-Mirror v p out (some t) in
    let live : q1.heap p ≡ some t = ground arith in
    let step = insert_timer_lem p t q1 v1 live below out in
    let earliest = is_earliest_lem when q.timers v.timers_sorted in
    let kept = inserted-IsValid p t q1 v1 live below out in
    let entries = λ (e : Entry). contains-insert e (when, p) q.timers in
    let actives = λ (a : ActiveTimer). contains-insert a (p, q.num_created) q.active_timers in
    let q2 = inserted p t q1 in
    elim (Bool-cases (all_later when q.timers)) [
      | inl first ↦ (
        reset_timerfd when now q2,
        ground (arith, step, earliest),
        (kept, entries, actives, (λ x. refl), refl, ground arith),
      )
      | inr later ↦ (
        q2,
        ground (arith, step, earliest),
        (kept, entries, actives, (λ x. refl), refl, ground arith),
      )
    ]
