-- ===== src/Net/Timers/Cancel.antt =====
-- TimerQueue::cancelInLoop (src/net/src/TimerQueue.cc).
use dws.Base.OrderedSet.{contains, insert, erase, same, contains-erase, same-eq}
use dws.Net.Timers.{Timer, ActiveTimer, TimerQueue, cancel_in_loop, free, update}
use dws.Net.Timers.Inv.{Mirror, IsValid, update-Mirror, erase-Mirror, erase-IsOut}
use mathlib.Core.Path.{subst, refl}
use dws.Base.{
  Returns, ℕ, ◌≡◌, arith, none, some, true, false, ◌&&◌, not, if◌then◌else◌, ◌==◌, Bool-cases, inl,
  inr,
}

-- The sets and the heap without an active timer.
pub removed : ActiveTimer → ℕ → TimerQueue → TimerQueue
unfolding free
removed id when q =
    free id.0
      (record q { timers = erase (when, id.0) q.timers; active_timers = erase id q.active_timers })

pub removed-IsValid :
    (id : ActiveTimer) (t : Timer) (q : TimerQueue)
    → IsValid q
    → q.heap id.0 ≡ some t
    → t.sequence ≡ id.1
    → contains id q.active_timers ≡ true
    → IsValid (removed id t.expiration q)
unfolding removed
removed-IsValid id t q v live same_seq there =
    let there' : contains (id.0, t.sequence) q.active_timers ≡ true = rw same_seq there in
    subst
      (λ s.
        Mirror (erase (t.expiration, id.0) q.timers) (erase (id.0, s) q.active_timers)
          (update q.heap id.0 none))
      same_seq
      (update-Mirror (erase-Mirror v id.0 t live there') id.0 (erase-IsOut v id.0 t live there')
        none)

-- cancelInLoop with any id: no assertion fails, and the sets still mirror one another. An active
-- timer leaves both sets and its object is deleted, with every other timer kept. An id that is not
-- active is recorded while the expired timers are called, and changes nothing otherwise.
pub cancel_in_loop_lem :
    (id : ActiveTimer) (q : TimerQueue)
    → IsValid q
    → Returns (cancel_in_loop id q) λ r.
      IsValid r
      × ((a : ActiveTimer)
          → contains a r.active_timers ≡ (if same a id then false else contains a q.active_timers))
      × ((p : ℕ) → r.heap p ≡ (if contains id q.active_timers && p == id.0 then none else q.heap p))
      × (r.canceling_timers ≡ (
          if not (contains id q.active_timers) && q.calling_expired_timers
          then insert id q.canceling_timers
          else q.canceling_timers))
      × (r.num_created ≡ q.num_created)
unfolding cancel_in_loop removed
cancel_in_loop_lem id q v = elim (Bool-cases (contains id q.active_timers)) [
  | inl there ↦
      let (t, live, seq, entry) = v.active_live id there in
      let v' = removed-IsValid id t q v live seq there in
      (
        removed id t.expiration q,
        ground (arith, v.sizes, v'.sizes),
        (
          v',
          (λ a. contains-erase a id q.active_timers v.active_sorted),
          (λ p. ground arith),
          ground arith,
          refl,
        ),
      )
  | inr absent ↦ (
    record q {
      canceling_timers =
          if q.calling_expired_timers then insert id q.canceling_timers else q.canceling_timers;
    },
    ground (arith, v.sizes),
    (v, (λ a. ground (arith, same-eq a id)), (λ p. ground arith), ground arith, refl),
  )
]
