-- ===== src/Net/Timers/Inv.antt =====
-- TimerQueue (src/net/src/TimerQueue.cc): the two sets hold the same timers, and what changes one
-- timer in both keeps this so.
use dws.Base.OrderedSet.{
  contains, insert, erase, IsAscending, same, same-eq, contains-insert, contains-erase,
  insert-IsAscending, erase-IsAscending, length-insert, length-erase,
}
use dws.Net.Timers.{Timer, Entry, ActiveTimer, TimerQueue, uintptr_max, update}
use dws.Base.{ℕ, ◌<◌, ◌≡◌, arith, List, length, Option, some, true, false, Bool-cases, inl, inr}

-- `timers_` and `activeTimers_` are ascending, of one size, and mirror one another through the
-- objects that their pointers lead to.
pub record Mirror (timers : List Entry) (active : List ActiveTimer) (heap : ℕ → Option Timer)
    : Type 0 where
  pub timers_sorted : IsAscending timers
  pub active_sorted : IsAscending active
  pub sizes : length timers ≡ length active
  pub timers_live :
      (e : Entry)
      → contains e timers ≡ true
      → (t : Timer) × (heap e.1 ≡ some t)
        × (t.expiration ≡ e.0)
        × (contains (e.1, t.sequence) active ≡ true)
  pub active_live :
      (a : ActiveTimer)
      → contains a active ≡ true
      → (t : Timer) × (heap a.0 ≡ some t)
        × (t.sequence ≡ a.1)
        × (contains (t.expiration, a.0) timers ≡ true)
  pub addresses : (e : Entry) → contains e timers ≡ true → e.1 < uintptr_max

abbrev pub IsValid : TimerQueue → Type 0
IsValid q = Mirror q.timers q.active_timers q.heap

-- The timer at `p` is in neither set.
abbrev pub IsOut : ℕ → List ActiveTimer → Type 0
IsOut p active = (s : ℕ) → contains (p, s) active ≡ false

pub out_timers :
    {timers : List Entry} {active : List ActiveTimer} {heap : ℕ → Option Timer}
    → Mirror timers active heap
    → (p : ℕ) → IsOut p active
    → (when : ℕ) → contains (when, p) timers ≡ false
out_timers {timers} m p out when = elim (Bool-cases (contains (when, p) timers)) [
  | inl there ↦
      let (t, live, when_of_t, active_t) = m.timers_live (when, p) there in cc (out t.sequence)
  | inr not_there ↦ not_there
]

module _ {timers : List Entry} {active : List ActiveTimer} {heap : ℕ → Option Timer}
    (m : Mirror timers active heap) (p : ℕ) (out : IsOut p active) where
  -- The object of a timer that is in neither set can change.
  pub update-Mirror : (o : Option Timer) → Mirror timers active (update heap p o)
  update-Mirror o = record {
    timers_sorted = m.timers_sorted;
    active_sorted = m.active_sorted;
    sizes = m.sizes;
    timers_live = λ e there.
        let (t, h, x, a) = m.timers_live e there in (t, ground (arith, out t.sequence), x, a);
    active_live =
        λ a there. let (t, h, x, e) = m.active_live a there in (t, ground (arith, out a.1), x, e);
    addresses = m.addresses;
  }

  pub insert-Mirror :
      (t : Timer)
      → heap p ≡ some t
      → p < uintptr_max
      → Mirror (insert (t.expiration, p) timers) (insert (p, t.sequence) active) heap
  insert-Mirror t live below = record {
    timers_sorted = insert-IsAscending _ timers m.timers_sorted;
    active_sorted = insert-IsAscending _ active m.active_sorted;
    sizes = ground (
      arith,
      m.sizes,
      length-insert (t.expiration, p) timers m.timers_sorted,
      length-insert (p, t.sequence) active m.active_sorted,
      out t.sequence,
      out_timers m p out t.expiration,
    );
    timers_live = λ e there. elim (Bool-cases (same e (t.expiration, p))) [
      | inl new ↦
          let eq = same-eq e (t.expiration, p) new in
          (
            t,
            ground (arith, eq),
            ground (arith, eq),
            ground (arith, contains-insert (e.1, t.sequence) (p, t.sequence) active),
          )
      | inr old ↦
          let (u, h, x, a) =
            m.timers_live e (ground (arith, contains-insert e (t.expiration, p) timers)) in
          (u, h, x, ground (arith, contains-insert (e.1, u.sequence) (p, t.sequence) active))
    ];
    active_live = λ a there. elim (Bool-cases (same a (p, t.sequence))) [
      | inl new ↦
          let eq = same-eq a (p, t.sequence) new in
          (
            t,
            ground (arith, eq),
            ground (arith, eq),
            ground (arith, contains-insert (t.expiration, a.0) (t.expiration, p) timers),
          )
      | inr old ↦
          let (u, h, x, e) =
            m.active_live a (ground (arith, contains-insert a (p, t.sequence) active)) in
          (u, h, x, ground (arith, contains-insert (u.expiration, a.0) (t.expiration, p) timers))
    ];
    addresses =
        λ e there. ground (arith, contains-insert e (t.expiration, p) timers, m.addresses e);
  }

module _ {timers : List Entry} {active : List ActiveTimer} {heap : ℕ → Option Timer}
    (m : Mirror timers active heap) (p : ℕ) (t : Timer) (live : heap p ≡ some t)
    (there : contains (p, t.sequence) active ≡ true) where
  -- The entry of an active timer is where its object says.
  pub active_entry : contains (t.expiration, p) timers ≡ true
  active_entry = let (u, h, x, e) = m.active_live (p, t.sequence) there in ground (arith, e)

  pub erase-IsOut : IsOut p (erase (p, t.sequence) active)
  erase-IsOut s = elim (Bool-cases (contains (p, s) active)) [
    | inl old ↦
        let (u, h, x, e) = m.active_live (p, s) old in
        ground (arith, contains-erase (p, s) (p, t.sequence) active m.active_sorted)
    | inr new ↦ ground (arith, contains-erase (p, s) (p, t.sequence) active m.active_sorted)
  ]

  -- A timer can leave both sets.
  pub erase-Mirror : Mirror (erase (t.expiration, p) timers) (erase (p, t.sequence) active) heap
  erase-Mirror = record {
    timers_sorted = erase-IsAscending _ timers m.timers_sorted;
    active_sorted = erase-IsAscending _ active m.active_sorted;
    sizes = ground (
      arith,
      m.sizes,
      active_entry,
      there,
      length-erase (t.expiration, p) timers,
      length-erase (p, t.sequence) active,
    );
    timers_live = λ e kept.
        let old : (contains e timers ≡ true) × (same e (t.expiration, p) ≡ false) =
          ground (arith, contains-erase e (t.expiration, p) timers m.timers_sorted) in
        let (u, h, x, a) = m.timers_live e old.0 in
        (
          u,
          h,
          x,
          ground (
            arith,
            contains-erase (e.1, u.sequence) (p, t.sequence) active m.active_sorted,
            old.1,
          ),
        );
    active_live = λ a kept.
        let old : (contains a active ≡ true) × (same a (p, t.sequence) ≡ false) =
          ground (arith, contains-erase a (p, t.sequence) active m.active_sorted) in
        let (u, h, x, e) = m.active_live a old.0 in
        (
          u,
          h,
          x,
          ground (
            arith,
            contains-erase (u.expiration, a.0) (t.expiration, p) timers m.timers_sorted,
            old.1,
          ),
        );
    addresses = λ e kept.
        m.addresses e (ground (arith, contains-erase e (t.expiration, p) timers m.timers_sorted));
  }
