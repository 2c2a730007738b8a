-- ===== src/Net/LoopThread/HandOver.antt =====
-- The steps of an EventLoopThread, and what startLoop returns.
use mathlib.Core.Path.{subst}
use dws.Base.{
  ℕ, ◌⊎◌, inl, inr, ◌≡◌, refl, ap, ◌∙◌, Option, none, some, Result, ok, ok_inj, bind_ok, assert,
}
use dws.Net.LoopThread.{
  Thread, absent, created, running, ended, Starter, idle, looking, asleep, returned, LoopThread,
  init, is_absent, start_thread, look, wake, publish, finish,
}

-- The states that the thread and the caller come to, in any order of their steps.
pub data Reachable : LoopThread → Type 0 where
  begun : Reachable init
  started : {s s' : LoopThread} → Reachable s → start_thread s ≡ ok s' → Reachable s'
  looked : {s : LoopThread} → Reachable s → s.starter ≡ looking → Reachable (look s)
  woken : {s : LoopThread} → Reachable s → Reachable (record s { starter = wake s.starter })
  published : {s : LoopThread} (l : ℕ) → Reachable s → s.thread ≡ created → Reachable (publish l s)
  finished : {s : LoopThread} {l : ℕ} → Reachable s → s.thread ≡ running l → Reachable (finish s)

unfoldable pub loop_of : Thread → Option ℕ
loop_of absent = none
loop_of created = none
loop_of (running l) = some l
loop_of ended = none

-- The caller sleeps only while there is no loop, and has no other loop than the thread's.
unfoldable pub Agrees : Starter → Thread → Type 0
Agrees idle absent = Unit {0}
Agrees idle created = ⊥
Agrees idle (running l) = ⊥
Agrees idle ended = ⊥
Agrees looking t = Unit {0}
Agrees asleep absent = Unit {0}
Agrees asleep created = Unit {0}
Agrees asleep (running l) = ⊥
Agrees asleep ended = Unit {0}
Agrees (returned k) absent = ⊥
Agrees (returned k) created = ⊥
Agrees (returned k) (running l) = k ≡ l
Agrees (returned k) ended = Unit {0}

record IsAgreed (s : LoopThread) : Type 0 where
  same : s.loop ≡ loop_of s.thread
  agrees : Agrees s.starter s.thread

look-Agrees : (t : Thread) → Agrees (elim (loop_of t) [ none ↦ asleep | some l ↦ returned l ]) t
unfolding Agrees loop_of
look-Agrees absent = tt
look-Agrees created = tt
look-Agrees (running l) = refl
look-Agrees ended = tt

wake-Agrees : (st : Starter) (t : Thread) → Agrees st t → Agrees (wake st) t
unfolding Agrees wake
wake-Agrees idle t a = a
wake-Agrees looking t a = tt
wake-Agrees asleep t a = tt
wake-Agrees (returned k) t a = a

publish-Agrees : (l : ℕ) (st : Starter) → Agrees st created → Agrees (wake st) (running l)
unfolding Agrees wake
publish-Agrees l idle a = absurd a
publish-Agrees l looking a = tt
publish-Agrees l asleep a = tt
publish-Agrees l (returned k) a = absurd a

finish-Agrees : (l : ℕ) (st : Starter) → Agrees st (running l) → Agrees st ended
unfolding Agrees
finish-Agrees l idle a = absurd a
finish-Agrees l looking a = tt
finish-Agrees l asleep a = absurd a
finish-Agrees l (returned k) a = tt

no_loop : (t : Thread) (u : Unit {0}) → assert (is_absent t) ≡ ok u → loop_of t ≡ none
unfolding is_absent loop_of
no_loop absent u e = refl
no_loop created u e = refl
no_loop (running l) u e = cc
no_loop ended u e = refl

start_thread-IsAgreed : (s s' : LoopThread) → IsAgreed s → start_thread s ≡ ok s' → IsAgreed s'
unfolding start_thread is_absent loop_of Agrees
start_thread-IsAgreed s s' a e =
    let next : Unit {0} → Result LoopThread =
      λ _. ok (record s { thread = created; starter = looking }) in
    let (u, e₁, e₂) = bind_ok (assert (is_absent s.thread)) next e in
    subst IsAgreed (ok_inj e₂) (record { same = a.same ∙ no_loop s.thread u e₁; agrees = tt })

Reachable-IsAgreed : {s : LoopThread} → Reachable s → IsAgreed s
unfolding init look publish finish loop_of Agrees
Reachable-IsAgreed begun = record { same = refl; agrees = tt }
Reachable-IsAgreed (started {s} {s'} r e) = start_thread-IsAgreed s s' (Reachable-IsAgreed r) e
Reachable-IsAgreed (looked {s} r e) =
    let a = Reachable-IsAgreed r in
    record { same = a.same; agrees = rw a.same (look-Agrees s.thread) }
Reachable-IsAgreed (woken {s} r) =
    let a = Reachable-IsAgreed r in
    record { same = a.same; agrees = wake-Agrees s.starter s.thread a.agrees }
Reachable-IsAgreed (published {s} l r e) =
    let a = Reachable-IsAgreed r in
    record { same = refl; agrees = publish-Agrees l s.starter (rw e at a.agrees) }
Reachable-IsAgreed (finished {s} {l} r e) =
    let a = Reachable-IsAgreed r in
    record { same = refl; agrees = finish-Agrees l s.starter (rw e at a.agrees) }

handed : (l : ℕ) (st : Starter) → Agrees st (running l) → (st ≡ returned l) ⊎ (st ≡ looking)
unfolding Agrees
handed l idle a = absurd a
handed l looking a = inr refl
handed l asleep a = absurd a
handed l (returned k) a = inl (ap returned a)

-- From the moment the thread has published its loop until the loop ends, in any order of the steps, the
-- caller of startLoop has returned with that loop, or is awake and returns with it when it looks.
pub running-returns :
    {s : LoopThread} (l : ℕ)
    → Reachable s
    → s.thread ≡ running l
    → (s.starter ≡ returned l) ⊎ ((s.starter ≡ looking) × ((look s).starter ≡ returned l))
unfolding look loop_of
running-returns {s} l r e =
    let a = Reachable-IsAgreed r in
    elim (handed l s.starter (rw e at a.agrees)) [
      | inl k ↦ inl k
      | inr k ↦ inr (k, rw (a.same, e) refl)
    ]
