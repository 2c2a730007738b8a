-- ===== src/Net/Timers/Reset.antt =====
-- TimerQueue::reset and Timer::restart (src/net/src/TimerQueue.cc, src/net/src/Timer.cc): what becomes
-- of the timers whose callbacks have run.
use dws.Base.OrderedSet.{contains, same-eq, contains-insert, contains-cons_self}
use dws.Net.Timers.{
  Timer, Entry, ActiveTimer, TimerQueue, free, restart, reinsert_one, reinsert, rearm, reset,
  uintptr_max, update, how_much_time_from_now,
}
use dws.Net.Timers.Inv.{IsValid, IsOut, update-Mirror}
use dws.Net.Timers.Insert.{inserted, inserted-IsValid, insert_timer_lem}
use dws.Net.Timers.Expire.{AreOut}
use dws.Base.{
  Returns, ℕ, ◌+◌, ◌<◌, ◌≡◌, refl, ap, ◌∙◌, arith, List, [], ◌∷◌, Option, none, some, Bool, false,
  ◌&&◌, ◌||◌, not, if◌then◌else◌, ◌==◌, ltb, Bool-cases, inl, inr, ok,
}

-- A timer goes on if it repeats and was not canceled while the expired timers were called.
unfoldable pub goes_on : List ActiveTimer → ℕ → Timer → Bool
goes_on canceling p t = t.repeat && not (contains (p, t.sequence) canceling)

-- The object of an expired timer, after `reset`.
unfoldable pub object_after : ℕ → List ActiveTimer → ℕ → Option Timer → Option Timer
unfolding goes_on
object_after now canceling p none = none
object_after now canceling p (some t) =
    if goes_on canceling p t then some (record t { expiration = now + t.interval }) else none

-- If an expired timer with this id is active after `reset`.
unfoldable pub active_after : List ActiveTimer → ActiveTimer → Option Timer → Bool
unfolding goes_on
active_after canceling a none = false
active_after canceling a (some t) = goes_on canceling a.0 t && a.1 == t.sequence

-- One of the entries has this address.
unfoldable pub is_named : ℕ → List Entry → Bool
is_named p [] = false
is_named p (e ∷ es) = p == e.1 || is_named p es

not_named :
    (p : ℕ) (es : List Entry) → ((when : ℕ) → contains (when, p) es ≡ false) → is_named p es ≡ false
unfolding is_named contains
not_named p [] h = refl
not_named p (e ∷ es) h = ground (arith, h e.0, not_named p es (λ when. ground (arith, h when)))

-- What one round of the loop makes of the heap and of the active timers.
abbrev Turned : ℕ → ℕ → TimerQueue → TimerQueue → Type 0
Turned now p q r =
    ((s : ℕ)
      → r.heap s ≡ (if s == p then object_after now q.canceling_timers p (q.heap p) else q.heap s))
    × ((a : ActiveTimer)
        → contains a r.active_timers ≡ (
            if a.0 == p
            then active_after q.canceling_timers a (q.heap p)
            else contains a q.active_timers))

AreOut-Turned :
    (now p : ℕ) (q r : TimerQueue) (es : List Entry)
    → Turned now p q r
    → is_named p es ≡ false
    → AreOut es q.active_timers q.heap
    → AreOut es r.active_timers r.heap
unfolding is_named
AreOut-Turned now p q r [] turned apart outs = tt
AreOut-Turned now p q r (e ∷ es) turned apart outs = (
  (outs.0.0, ground (arith, turned.0 e.1, outs.0.1)),
  (λ s. ground (arith, turned.1 (e.1, s), outs.1 s)),
  outs.2,
  outs.3,
  AreOut-Turned now p q r es turned (ground arith) outs.4,
)

reinsert_one_lem :
    (now : ℕ) (e : Entry) (t : Timer) (q : TimerQueue)
    → IsValid q
    → q.heap e.1 ≡ some t
    → IsOut e.1 q.active_timers
    → e.1 < uintptr_max
    → Returns (reinsert_one now e t q) λ r.
      IsValid r
      × Turned now e.1 q r
      × (r.canceling_timers ≡ q.canceling_timers)
      × (r.timerfd ≡ q.timerfd)
      × (r.num_created ≡ q.num_created)
unfolding reinsert_one object_after active_after goes_on inserted
reinsert_one_lem now e t q v live out below =
    elim (Bool-cases (t.repeat && not (contains (e.1, t.sequence) q.canceling_timers))) [
      | inl on ↦
          let u = restart now t in
          let q1 : TimerQueue = record q { heap = update q.heap e.1 (some u) } in
          let v1 : IsValid q1 = update-Mirror v e.1 out (some u) in
          let live1 : q1.heap e.1 ≡ some u = ground arith in
          (
            inserted e.1 u q1,
            ground (arith, insert_timer_lem e.1 u q1 v1 live1 below out),
            (
              inserted-IsValid e.1 u q1 v1 live1 below out,
              (
                (λ s. ground arith),
                (λ a. ground (
                  arith,
                  contains-insert a (e.1, t.sequence) q.active_timers,
                  out a.1,
                  same-eq a (e.1, a.1),
                )),
              ),
              refl,
              refl,
              refl,
            ),
          )
      | inr off ↦ (
        free e.1 q,
        ground arith,
        (
          update-Mirror v e.1 out none,
          ((λ s. ground arith), (λ a. ground (arith, out a.1, same-eq a (e.1, a.1)))),
          refl,
          refl,
          refl,
        ),
      )
    ]

-- What the whole loop makes of the heap and of the active timers.
abbrev TurnedAll : ℕ → List Entry → TimerQueue → TimerQueue → Type 0
TurnedAll now es q r =
    ((s : ℕ)
      → r.heap s
        ≡ (if is_named s es then object_after now q.canceling_timers s (q.heap s) else q.heap s))
    × ((a : ActiveTimer)
        → contains a r.active_timers ≡ (
            if is_named a.0 es
            then active_after q.canceling_timers a (q.heap a.0)
            else contains a q.active_timers))

reinsert_lem :
    (now : ℕ) (es : List Entry) (q : TimerQueue)
    → IsValid q
    → AreOut es q.active_timers q.heap
    → Returns (reinsert now es q) λ r.
      IsValid r × TurnedAll now es q r × (r.timerfd ≡ q.timerfd) × (r.num_created ≡ q.num_created)
unfolding reinsert is_named
reinsert_lem now [] q v outs = (q, refl, (v, ((λ s. refl), (λ a. refl)), refl, refl))
reinsert_lem now (e ∷ es) q v outs =
    let (t, live) = outs.0 in
    let (q', step, (v', turned, canceling, armed, created)) =
      reinsert_one_lem now e t q v live outs.1 outs.2 in
    let apart = not_named e.1 es outs.3 in
    let (r, rest, (w, all, armed', created')) =
      reinsert_lem now es q' v' (AreOut-Turned now e.1 q q' es turned apart outs.4) in
    (
      r,
      ground (arith, step, rest),
      (
        w,
        (
          (λ s. ground (arith, all.0 s, turned.0 s, apart, canceling)),
          (λ a. ground (arith, all.1 a, turned.1 a, turned.0 a.0, apart, canceling)),
        ),
        armed' ∙ armed,
        created' ∙ created,
      ),
    )

-- What the descriptor is set to for the first of the timers.
unfoldable pub armed_for : ℕ → List Entry → Option (ℕ × ℕ) → Option (ℕ × ℕ)
armed_for clock [] before = before
armed_for clock (e ∷ es) before =
    if ltb 0 e.0 then some (how_much_time_from_now e.0 clock) else before

rearm_lem :
    (clock : ℕ) (timers : List Entry) (q : TimerQueue)
    → IsValid q
    → timers ≡ q.timers
    → rearm clock timers q ≡ ok (record q { timerfd = armed_for clock timers q.timerfd })
unfolding rearm armed_for
rearm_lem clock [] q v eq = refl
rearm_lem clock (e ∷ es) q v eq =
    let (t, live, when, there) = v.timers_live e (rw (← eq) (contains-cons_self e es)) in
    ground (arith, live, when)

-- reset, for expired timers in neither set: no assertion fails. A timer that repeats and was not
-- canceled in the meantime is active again and expires one interval after `now`; every other expired
-- timer is deleted; the timers that had not expired are as before. The descriptor is set for the
-- first timer there is, and stays as it was if there is none.
pub reset_lem :
    (expired : List Entry) (now clock : ℕ) (q : TimerQueue)
    → IsValid q
    → AreOut expired q.active_timers q.heap
    → Returns (reset expired now clock q) λ r.
      IsValid r
      × ((p : ℕ)
          → r.heap p ≡ (
              if is_named p expired
              then object_after now q.canceling_timers p (q.heap p)
              else q.heap p))
      × ((a : ActiveTimer)
          → contains a r.active_timers ≡ (
              if is_named a.0 expired
              then active_after q.canceling_timers a (q.heap a.0)
              else contains a q.active_timers))
      × (r.timerfd ≡ armed_for clock r.timers q.timerfd)
      × (r.num_created ≡ q.num_created)
unfolding reset
reset_lem expired now clock q v outs =
    let (r, step, (w, turned, armed, created)) = reinsert_lem now expired q v outs in
    (
      record r { timerfd = armed_for clock r.timers r.timerfd },
      ground (arith, step, rearm_lem clock r.timers r w refl),
      (w, turned.0, turned.1, ap (armed_for clock r.timers) armed, created),
    )
