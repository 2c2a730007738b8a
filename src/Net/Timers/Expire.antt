-- ===== src/Net/Timers/Expire.antt =====
-- TimerQueue::getExpired (src/net/src/TimerQueue.cc): which timers are taken out.
use mathlib.Core.Path.{subst}
use dws.Base.OrderedSet.{
  contains, erase, before, from_bound, contains-erase, IsAscending, before-append-from_bound,
  contains-append,
}
use dws.Net.Timers.{
  Timer, Entry, ActiveTimer, TimerQueue, deactivate, get_expired, sentry, is_past, uintptr_max,
}
use dws.Net.Timers.Inv.{Mirror, IsValid, IsOut, out_timers, erase-Mirror, erase-IsOut}
use dws.Net.Timers.Insert.{all_later, later_above}
use dws.Base.{
  Returns, ℕ, ◌<◌, ◌≡◌, refl, sym, arith, List, [], ◌∷◌, ◌++◌, Option, some, Bool, true, false,
  ◌&&◌, leb, ok,
}

-- The objects of the expired timers are there, each in neither set and each of one entry.
abbrev pub AreOut : List Entry → List ActiveTimer → (ℕ → Option Timer) → Type 0
AreOut [] active heap = Unit
AreOut (e ∷ es) active heap =
    ((t : Timer) × (heap e.1 ≡ some t))
    × IsOut e.1 active
    × (e.1 < uintptr_max)
    × ((when : ℕ) → contains (when, e.1) es ≡ false)
    × AreOut es active heap

abbrev Fewer : List ActiveTimer → List ActiveTimer → Type 0
Fewer less_active active =
    (a : ActiveTimer) → contains a active ≡ false → contains a less_active ≡ false

erase_head : (e : Entry) (when : ℕ) (es : List Entry) → when ≡ e.0 → erase (when, e.1) (e ∷ es) ≡ es
unfolding erase
erase_head e when es h = ground arith

pub deactivate_lem :
    (es : List Entry) (q : TimerQueue)
    → Mirror (es ++ q.timers) q.active_timers q.heap
    → (active : List ActiveTimer) × (deactivate es q ≡ ok (record q { active_timers = active }))
      × Mirror q.timers active q.heap
      × Fewer active q.active_timers
      × AreOut es active q.heap
unfolding deactivate contains
deactivate_lem [] q m = (q.active_timers, refl, m, (λ a h. h), tt)
deactivate_lem (e ∷ es) q m =
    let here : contains e (e ∷ es ++ q.timers) ≡ true = ground arith in
    let (t, live, when, there) = m.timers_live e here in
    let fewer = erase (e.1, t.sequence) q.active_timers in
    let m' : Mirror (es ++ q.timers) fewer q.heap =
      subst (λ ts. Mirror ts fewer q.heap) (erase_head e t.expiration (es ++ q.timers) when)
        (erase-Mirror m e.1 t live there) in
    let out = erase-IsOut m e.1 t live there in
    let (active, step, v, gone, outs) = deactivate_lem es (record q { active_timers = fewer }) m' in
    (
      active,
      ground (arith, step),
      v,
      (λ a h.
          gone a
            (ground (arith, contains-erase a (e.1, t.sequence) q.active_timers m.active_sorted))),
      (
        (t, live),
        (λ s. gone (e.1, s) (out s)),
        m.addresses e here,
        (λ when'.
            ground (arith, out_timers m' e.1 out when', contains-append (when', e.1) es q.timers)),
        outs,
      ),
    )

-- Every entry has expired.
unfoldable pub all_due : ℕ → List Entry → Bool
all_due now [] = true
all_due now (e ∷ es) = leb e.0 now && all_due now es

before-due : (now : ℕ) (s : List Entry) → all_due now (before (sentry now) s) ≡ true
unfolding all_due before
before-due now [] = refl
before-due now (e ∷ es) = ground (arith, before-due now es)

from_bound-later :
    (now : ℕ) (s : List Entry)
    → IsAscending s
    → ((e : Entry) → contains e s ≡ true → e.1 < uintptr_max)
    → all_later now (from_bound (sentry now) s) ≡ true
unfolding all_later from_bound contains
from_bound-later now [] sorted below = refl
from_bound-later now (e ∷ es) sorted below = ground (
  arith,
  below e,
  from_bound-later now es sorted.1 (λ f there. below f (ground arith)),
  later_above now e es,
)

later-past : (now : ℕ) (s : List Entry) → all_later now s ≡ true → is_past now s ≡ true
unfolding all_later is_past
later-past now [] h = refl
later-past now (e ∷ es) h = ground arith

-- getExpired: no assertion fails. What it returns and what stays in the set are together the set
-- there was, in its order; all that it returns has expired by `now`, and nothing that stays has.
-- Each returned timer's object is there and in neither set.
pub get_expired_lem :
    (now : ℕ) (q : TimerQueue)
    → IsValid q
    → Returns (get_expired now q) λ r.
      (r.0 ++ r.1.timers ≡ q.timers)
      × (all_due now r.0 ≡ true)
      × (all_later now r.1.timers ≡ true)
      × IsValid r.1
      × AreOut r.0 r.1.active_timers r.1.heap
      × (r.1.heap ≡ q.heap)
      × (r.1.num_created ≡ q.num_created)
unfolding get_expired
get_expired_lem now q v =
    let expired = before (sentry now) q.timers in
    let rest = from_bound (sentry now) q.timers in
    let whole = before-append-from_bound (sentry now) q.timers in
    let later = from_bound-later now q.timers v.timers_sorted v.addresses in
    let (active, step, m, fewer, outs) =
      deactivate_lem expired (record q { timers = rest })
        (subst (λ ts. Mirror ts q.active_timers q.heap) (sym whole) v) in
    (
      (expired, record q { timers = rest; active_timers = active }),
      ground (arith, step, later-past now rest later, v.sizes, m.sizes),
      (whole, before-due now q.timers, later, m, outs, refl, refl),
    )
