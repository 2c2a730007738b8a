-- ===== src/Net/Timers/Run.antt =====
-- TimerQueue (src/net/src/TimerQueue.cc) over time: handleRead, in whose callbacks, as between its
-- calls, timers are added and canceled. What runs is in the loop's thread.
use dws.Base.OrderedSet.{contains}
use dws.Net.Timers.{
  Timer, Entry, ActiveTimer, TimerQueue, init, deref, begin_read, end_read, add_timer_in_loop,
  new_timer, cancel_in_loop, uintptr_max,
}
use dws.Net.Timers.Inv.{IsValid}
use dws.Net.Timers.Cancel.{cancel_in_loop_lem}
use dws.Base.{
  Returns-ok, ℕ, ◌<◌, ◌≡◌, refl, arith, List, [], ◌∷◌, Option, none, some, Bool, true, false,
  Bool-cases, inl, inr, ok,
}
use dws.Net.Timers.Safe.{
  Phase, idle, calling, IsSafe, Ages, Ages-trans, add_timer-IsSafe, cancel-IsSafe,
  begin_read-IsSafe, end_read-IsSafe,
}

-- The states that follow from `q0`. `new` gives an address that no object has.
pub data Later (ph0 : Phase) (q0 : TimerQueue) : Phase → TimerQueue → Type 0 where
  here : Later ph0 q0 ph0 q0
  added :
      {ph : Phase} {q r : TimerQueue} (p when interval : ℕ) (repeat : Bool) (now : ℕ)
      → Later ph0 q0 ph q
      → q.heap p ≡ none
      → p < uintptr_max
      → add_timer_in_loop now p (new_timer p when interval repeat q) ≡ ok r
      → Later ph0 q0 ph r
  canceled :
      {ph : Phase} {q r : TimerQueue} (id : ActiveTimer)
      → Later ph0 q0 ph q
      → cancel_in_loop id q ≡ ok r
      → Later ph0 q0 ph r
  began :
      {q r : TimerQueue} {expired : List Entry} (now : ℕ)
      → Later ph0 q0 idle q
      → begin_read now q ≡ ok (expired, r)
      → Later ph0 q0 (calling expired expired now) r
  called :
      {q : TimerQueue} {expired rest : List Entry} {now : ℕ} (e : Entry) (t : Timer)
      → Later ph0 q0 (calling expired (e ∷ rest) now) q
      → deref q e.1 ≡ ok t
      → Later ph0 q0 (calling expired rest now) q
  ended :
      {q r : TimerQueue} {expired : List Entry} {now : ℕ} (clock : ℕ)
      → Later ph0 q0 (calling expired [] now) q
      → end_read expired now clock q ≡ ok r
      → Later ph0 q0 idle r

-- From a safe state every later one is safe, and aged from it.
Later-IsSafe :
    {ph0 : Phase} {q0 : TimerQueue} {ph : Phase} {q : TimerQueue}
    → IsSafe ph0 q0
    → Later ph0 q0 ph q
    → IsSafe ph q × Ages q0 q
Later-IsSafe s here = (s, (omega arith, λ p t live. inr (t, live, refl)))
Later-IsSafe {q0 = q0} s (added {q = q} {r = r} p when interval repeat now h fresh below step) =
    let (t, age) = Later-IsSafe s h in
    let (u, age') = Returns-ok (add_timer-IsSafe p when interval repeat now t fresh below) step in
    (u, Ages-trans q0 q r age age')
Later-IsSafe {q0 = q0} s (canceled {q = q} {r = r} id h step) =
    let (t, age) = Later-IsSafe s h in
    let (u, age') = Returns-ok (cancel-IsSafe id t) step in (u, Ages-trans q0 q r age age')
Later-IsSafe {q0 = q0} s (began {q = q} {r = r} now h step) =
    let (t, age) = Later-IsSafe s h in
    let (u, age') = Returns-ok (begin_read-IsSafe now t) step in (u, Ages-trans q0 q r age age')
Later-IsSafe s (called e t h step) =
    let (u, age) = Later-IsSafe s h in
    (
      record { valid = u.valid; outs = u.outs; rest_outs = u.rest_outs.4; numbered = u.numbered },
      age,
    )
Later-IsSafe {q0 = q0} s (ended {q = q} {r = r} clock h step) =
    let (t, age) = Later-IsSafe s h in
    let (u, age') = Returns-ok (end_read-IsSafe clock t) step in (u, Ages-trans q0 q r age age')

init-IsSafe : IsSafe idle init
unfolding init contains
init-IsSafe = record {
  valid = record {
    timers_sorted = tt;
    active_sorted = tt;
    sizes = refl;
    timers_live = λ e there. cc;
    active_live = λ a there. cc;
    addresses = λ e there. cc;
  };
  outs = tt;
  rest_outs = tt;
  numbered = λ p t live. cc;
}

-- The next step of handleRead returns.
abbrev pub NextReturns : Phase → TimerQueue → ℕ → Type 0
NextReturns idle q now = (x : List Entry × TimerQueue) × (begin_read now q ≡ ok x)
NextReturns (calling expired [] at) q now = (r : TimerQueue) × (end_read expired at now q ≡ ok r)
NextReturns (calling expired (e ∷ rest) at) q now = (t : Timer) × (deref q e.1 ≡ ok t)

next_returns : {ph : Phase} {q : TimerQueue} (now : ℕ) → IsSafe ph q → NextReturns ph q now
unfolding deref
next_returns {ph = idle} now s = let (x, step, done) = begin_read-IsSafe now s in (x, step)
next_returns {ph = calling expired [] at} now s =
    let (r, step, done) = end_read-IsSafe now s in (r, step)
next_returns {ph = calling expired (e ∷ rest) at} now s =
    let (t, live) = s.rest_outs.0 in (t, ground (arith, live))

-- In every state that the queue comes to by adding and canceling timers, also in callbacks, and by
-- handleRead: the two sets mirror one another, and no call fails an assertion or reads a deleted
-- object, be it the next step of handleRead, a cancel with any id, or an add at an address that
-- no object has.
pub run_never_fails :
    {ph : Phase} {q : TimerQueue}
    → Later idle init ph q
    → (now : ℕ) (id : ActiveTimer) (p when interval : ℕ) (repeat : Bool) → q.heap p ≡ none
    → p < uintptr_max
    → IsValid q
      × NextReturns ph q now
      × ((r : TimerQueue) × (cancel_in_loop id q ≡ ok r))
      × ((r : TimerQueue) × (add_timer_in_loop now p (new_timer p when interval repeat q) ≡ ok r))
run_never_fails h now id p when interval repeat fresh below =
    let (s, age) = Later-IsSafe init-IsSafe h in
    let (r, stepped, done) = cancel-IsSafe id s in
    let (r', added_it, done') = add_timer-IsSafe p when interval repeat now s fresh below in
    (s.valid, next_returns now s, (r, stepped), (r', added_it))

-- A timer that is active when it is canceled is active in no later state, whatever is added,
-- canceled or called in between, even where its address is used again.
pub canceled_stays_out :
    {ph ph' : Phase} {q r s : TimerQueue} (id : ActiveTimer)
    → Later idle init ph q
    → contains id q.active_timers ≡ true
    → cancel_in_loop id q ≡ ok r
    → Later ph r ph' s
    → contains id s.active_timers ≡ false
canceled_stays_out {q} {r} {s} id h there step later =
    let (safe, age) = Later-IsSafe init-IsSafe h in
    let (v, actives, heap, canceling, counted) =
      Returns-ok (cancel_in_loop_lem id q safe.valid) step in
    let (safe', age') = Returns-ok (cancel-IsSafe id safe) step in
    let (safe'', age'') = Later-IsSafe safe' later in
    let (t, live, seq, entry) = safe.valid.active_live id there in
    let below = safe.numbered id.0 t live in
    elim (Bool-cases (contains id s.active_timers)) [
      | inr out ↦ out
      | inl back ↦
          let (u, live', seq', entry') = safe''.valid.active_live id back in
          elim (age''.1 id.0 u live') [
            | inl new ↦ absurd (omega (arith, below, new, seq, seq', counted))
            | inr old ↦ absurd (gone r.heap id.0 old.0 (ground (arith, heap id.0)) old.1)
          ]
    ]
  where
    gone : (h : ℕ → Option Timer) (p : ℕ) (u : Timer) → h p ≡ none → h p ≡ some u → ⊥
    gone h p u e f = cc
