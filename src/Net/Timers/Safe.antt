-- ===== src/Net/Timers/Safe.antt =====
-- TimerQueue (src/net/src/TimerQueue.cc): what handleRead, add and cancel keep while the expired timers
-- are called.
use dws.Base.OrderedSet.{contains, same}
use dws.Net.Timers.{
  Timer, Entry, ActiveTimer, TimerQueue, begin_read, end_read, add_timer_in_loop, new_timer,
  cancel_in_loop, uintptr_max,
}
use dws.Net.Timers.Inv.{IsValid}
use dws.Net.Timers.Insert.{add_timer_in_loop_lem, created}
use dws.Net.Timers.Cancel.{cancel_in_loop_lem}
use dws.Net.Timers.Expire.{AreOut, get_expired_lem}
use dws.Net.Timers.Reset.{reset_lem, object_after, is_named}
use dws.Base.{
  Returns, ℕ, ◌≤◌, ◌<◌, ◌≡◌, refl, ap, sym, ◌∙◌, arith, List, [], ◌∷◌, Option, none, some, Bool,
  true, false, ◌&&◌, if◌then◌else◌, ◌==◌, Bool-cases, inl, inr, ◌⊎◌,
}

-- Where handleRead is: not running, or with these entries expired at `now` and the callbacks of the
-- rest still to run.
pub data Phase : Type 0 where
  idle : Phase
  calling : (expired rest : List Entry) (now : ℕ) → Phase

abbrev pub expired_of : Phase → List Entry
expired_of idle = []
expired_of (calling expired rest now) = expired

abbrev pub rest_of : Phase → List Entry
rest_of idle = []
rest_of (calling expired rest now) = rest

-- The sets mirror one another, the expired timers are out of them, and no object has a sequence that
-- is still to be given.
pub record IsSafe (ph : Phase) (q : TimerQueue) : Type 0 where
  pub valid : IsValid q
  pub outs : AreOut (expired_of ph) q.active_timers q.heap
  pub rest_outs : AreOut (rest_of ph) q.active_timers q.heap
  pub numbered : (p : ℕ) (t : Timer) → q.heap p ≡ some t → t.sequence < q.num_created

AreOut-added :
    (es : List Entry) (p n : ℕ) (t : Timer) (q r : TimerQueue)
    → q.heap p ≡ none
    → ((x : ℕ) → r.heap x ≡ (if p == x then some t else q.heap x))
    → ((a : ActiveTimer)
        → contains a r.active_timers ≡ (if same a (p, n) then true else contains a q.active_timers))
    → AreOut es q.active_timers q.heap
    → AreOut es r.active_timers r.heap
AreOut-added [] p n t q r fresh heap active outs = tt
AreOut-added (e ∷ es) p n t q r fresh heap active outs =
    let (u, live) = outs.0 in
    (
      (u, ground (arith, heap e.1)),
      (λ s. ground (arith, active (e.1, s), outs.1 s)),
      outs.2,
      outs.3,
      AreOut-added es p n t q r fresh heap active outs.4,
    )

AreOut-canceled :
    (es : List Entry) (id : ActiveTimer) (q r : TimerQueue)
    → ((a : ActiveTimer)
        → contains a r.active_timers ≡ (if same a id then false else contains a q.active_timers))
    → ((p : ℕ) → r.heap p ≡ (if contains id q.active_timers && p == id.0 then none else q.heap p))
    → AreOut es q.active_timers q.heap
    → AreOut es r.active_timers r.heap
AreOut-canceled [] id q r active heap outs = tt
AreOut-canceled (e ∷ es) id q r active heap outs =
    let (u, live) = outs.0 in
    (
      (u, ground (arith, heap e.1, outs.1 id.1)),
      (λ s. ground (arith, active (e.1, s), outs.1 s)),
      outs.2,
      outs.3,
      AreOut-canceled es id q r active heap outs.4,
    )

-- What holds from one state to a later one: each object is there already, with its sequence, or its
-- sequence is given since.
abbrev pub Ages : TimerQueue → TimerQueue → Type 0
Ages q r =
    (q.num_created ≤ r.num_created)
    × ((p : ℕ) (t : Timer)
        → r.heap p ≡ some t
        → (q.num_created ≤ t.sequence)
          ⊎ ((u : Timer) × (q.heap p ≡ some u) × (u.sequence ≡ t.sequence)))

pub add_timer-IsSafe :
    {ph : Phase} {q : TimerQueue} (p when interval : ℕ) (repeat : Bool) (now : ℕ)
    → IsSafe ph q
    → q.heap p ≡ none
    → p < uintptr_max
    → Returns
        (add_timer_in_loop now p (new_timer p when interval repeat q))
        λ r. IsSafe ph r × Ages q r
unfolding created
add_timer-IsSafe {ph} {q} p when interval repeat now s fresh below =
    let (r, step, (v, entries, actives, heap, counted, armed)) =
      add_timer_in_loop_lem p when interval repeat now q s.valid fresh below in
    let t = created when interval repeat q in
    (
      r,
      step,
      (
        record {
          valid = v;
          outs = AreOut-added (expired_of ph) p q.num_created t q r fresh heap actives s.outs;
          rest_outs =
              AreOut-added (rest_of ph) p q.num_created t q r fresh heap actives s.rest_outs;
          numbered = λ x u live. ground (arith, heap x, s.numbered x u, counted);
        },
        (
          omega (arith, counted),
          λ x u live. elim (Bool-cases (p == x)) [
            | inl new ↦ inl (ground (arith, heap x))
            | inr old ↦ inr (u, ground (arith, heap x), refl)
          ],
        ),
      ),
    )

pub cancel-IsSafe :
    {ph : Phase} {q : TimerQueue} (id : ActiveTimer)
    → IsSafe ph q
    → Returns (cancel_in_loop id q) λ r. IsSafe ph r × Ages q r
cancel-IsSafe {ph} {q} id s =
    let (r, step, (v, actives, heap, canceling, created)) = cancel_in_loop_lem id q s.valid in
    (
      r,
      step,
      (
        record {
          valid = v;
          outs = AreOut-canceled (expired_of ph) id q r actives heap s.outs;
          rest_outs = AreOut-canceled (rest_of ph) id q r actives heap s.rest_outs;
          numbered = λ x u live. ground (arith, heap x, s.numbered x u, created);
        },
        (omega (arith, created), λ x u live. inr (u, ground (arith, heap x), refl)),
      ),
    )

pub begin_read-IsSafe :
    {q : TimerQueue} (now : ℕ)
    → IsSafe idle q
    → Returns (begin_read now q) λ x. IsSafe (calling x.0 x.0 now) x.1 × Ages q x.1
unfolding begin_read
begin_read-IsSafe {q} now s =
    let (x, step, (whole, due, later, v, outs, heap, created)) = get_expired_lem now q s.valid in
    (
      (x.0, record x.1 { calling_expired_timers = true; canceling_timers = [] }),
      ground (arith, step),
      (
        record {
          valid = v;
          outs = outs;
          rest_outs = outs;
          numbered = λ p t live.
              ground (arith, s.numbered p t, ap (λ (h : ℕ → Option Timer). h p) heap, created);
        },
        (
          omega (arith, created),
          λ p t live. inr (t, ground (arith, ap (λ (h : ℕ → Option Timer). h p) heap), refl),
        ),
      ),
    )

-- What `reset` leaves of an object keeps its sequence.
same_object :
    (now : ℕ) (canceling : List ActiveTimer) (p : ℕ) (named : Bool) (old : Option Timer) (t : Timer)
    → (if named then object_after now canceling p old else old) ≡ some t
    → (u : Timer) × (old ≡ some u) × (u.sequence ≡ t.sequence)
unfolding object_after
same_object now canceling p false old t e = (t, e, refl)
same_object now canceling p true none t e = cc
same_object now canceling p true (some u) t e = (u, refl, ground arith)

pub end_read-IsSafe :
    {q : TimerQueue} {expired : List Entry} {now : ℕ} (clock : ℕ)
    → IsSafe (calling expired [] now) q
    → Returns (end_read expired now clock q) λ r. IsSafe idle r × Ages q r
unfolding end_read
end_read-IsSafe {q} {expired} {now} clock s =
    let q0 : TimerQueue = record q { calling_expired_timers = false } in
    let (r, step, (v, heap, actives, armed, created)) =
      reset_lem expired now clock q0 s.valid s.outs in
    let kept = λ (p : ℕ) (t : Timer) (live : r.heap p ≡ some t).
      same_object now q.canceling_timers p (is_named p expired) (q.heap p) t
        (sym (heap p) ∙ live) in
    (
      r,
      step,
      (
        record {
          valid = v;
          outs = tt;
          rest_outs = tt;
          numbered = λ p t live.
              let (u, old, seq) = kept p t live in omega (arith, s.numbered p u old, seq, created);
        },
        (omega (arith, created), λ p t live. inr (kept p t live)),
      ),
    )

pub Ages-trans : (q r s : TimerQueue) → Ages q r → Ages r s → Ages q s
Ages-trans q r s qr rs = (
  omega (arith, qr.0, rs.0),
  λ p t live. elim (rs.1 p t live) [
    | inl new ↦ inl (omega (arith, qr.0))
    | inr old ↦ elim (qr.1 p old.0 old.1) [
      | inl mid ↦ inl (omega (arith, mid, old.2))
      | inr first ↦ inr (first.0, first.1, first.2 ∙ old.2)
    ]
  ],
)
