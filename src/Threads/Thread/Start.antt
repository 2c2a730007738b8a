-- ===== src/Threads/Thread/Start.antt =====
-- What becomes of the ThreadData while a thread starts.
use mathlib.Core.Path.{subst}
use dws.Base.{
  ℕ, ◌<◌, ◌≡◌, ◌≢◌, refl, sym, ◌∙◌, arith, suc, List, true, false, not, Bool, Result, ok, ok_inj,
  bind_ok, err, dangling, ◌-◌, ◌>>◌, assert, ltb,
}
use dws.Threads.Thread.{
  Thread, before, waiting, behind, Worker, absent, created, wrote_tid, posted, called, gone, init,
  use_data, start, finish_start, write_tid, post, call, delete_data,
}

-- The states that the two come to without a fault, for a thread with the id `id`.
pub data Reachable (id : ℕ) : Thread → Type 0 where
  begun : (num : ℕ) (name : List ℕ) → Reachable id (init num name)
  starts : {t t' : Thread} → Reachable id t → t.caller ≡ before → start t ≡ ok t' → Reachable id t'
  writes :
      {t t' : Thread}
      → Reachable id t
      → t.worker ≡ created
      → write_tid id t ≡ ok t'
      → Reachable id t'
  posts : {t t' : Thread} → Reachable id t → t.worker ≡ wrote_tid → post t ≡ ok t' → Reachable id t'
  calls : {t t' : Thread} → Reachable id t → t.worker ≡ posted → call t ≡ ok t' → Reachable id t'
  deletes :
      {t t' : Thread} → Reachable id t → t.worker ≡ called → delete_data t ≡ ok t' → Reachable id t'
  goes_on :
      {t t' : Thread}
      → Reachable id t
      → t.caller ≡ waiting
      → 0 < t.sem
      → finish_start t ≡ ok t'
      → Reachable id t'

unfoldable pub has_posted : Worker → Bool
has_posted absent = false
has_posted created = false
has_posted wrote_tid = false
has_posted posted = true
has_posted called = true
has_posted gone = true

-- What holds of the two between the steps.
record IsOrdered (id : ℕ) (t : Thread) : Type 0 where
  -- The semaphore was posted by a thread that had stored its id.
  signal : 0 < t.sem → has_posted t.worker ≡ true
  stored : has_posted t.worker ≡ true → t.tid ≡ id
  wrote : t.worker ≡ wrote_tid → t.tid ≡ id
  past :
      t.caller ≡ behind
      → (t.data_alive ≡ false) × (t.tid ≡ id) × (t.worker ≢ gone) × (has_posted t.worker ≡ true)
  deleted : t.worker ≡ gone → t.data_alive ≡ false
  fresh : t.caller ≡ before → t.worker ≡ absent

use_data_ok : (b : Bool) (u : Unit {0}) → use_data b ≡ ok u → b ≡ true
unfolding use_data
use_data_ok true u e = refl
use_data_ok false u e = cc

-- A step of the thread reads the ThreadData, so that the caller cannot be behind its start.
worker_step :
    (id : ℕ) (t s : Thread)
    → IsOrdered id t
    → t.data_alive ≡ true
    → s.caller ≡ t.caller
    → t.worker ≢ absent
    → (0 < s.sem → has_posted s.worker ≡ true)
    → (has_posted s.worker ≡ true → s.tid ≡ id)
    → (s.worker ≡ wrote_tid → s.tid ≡ id)
    → (s.worker ≡ gone → s.data_alive ≡ false)
    → IsOrdered id s
worker_step id t s o alive same there signal stored wrote deleted = record {
  signal = signal;
  stored = stored;
  wrote = wrote;
  past = λ h. absurd (apart (sym alive ∙ (o.past (sym same ∙ h)).0));
  deleted = deleted;
  fresh = λ h. absurd (there (o.fresh (sym same ∙ h)));
}
  where
    apart : true ≢ false
    apart h = cc

-- The ThreadData was alive where a step has used it.
used :
    (t done t' : Thread)
    → (use_data t.data_alive >> ok done) ≡ ok t'
    → (t.data_alive ≡ true) × (done ≡ t')
used t done t' e =
    let next : Unit {0} → Result Thread = λ _. ok done in
    let (u, e₁, e₂) = bind_ok (use_data t.data_alive) next e in
    (use_data_ok t.data_alive u e₁, ok_inj e₂)

write_tid-IsOrdered :
    (id : ℕ) (t t' : Thread)
    → IsOrdered id t
    → t.worker ≡ created
    → write_tid id t ≡ ok t'
    → IsOrdered id t'
unfolding write_tid has_posted
write_tid-IsOrdered id t t' o w e =
    let done : Thread = record t { tid = id; worker = wrote_tid } in
    let (alive, d) = used t done t' e in
    subst (IsOrdered id) d (
      worker_step id t done o alive refl (λ h. cc) (λ h. absurd (early (rw w at (o.signal h))))
        (λ h. refl) (λ h. refl) (λ h. cc))
  where
    early : has_posted created ≢ true
    early h = cc

post-IsOrdered :
    (id : ℕ) (t t' : Thread)
    → IsOrdered id t
    → t.worker ≡ wrote_tid
    → post t ≡ ok t'
    → IsOrdered id t'
unfolding post has_posted
post-IsOrdered id t t' o w e =
    let done : Thread = record t { sem = suc t.sem; worker = posted } in
    let (alive, d) = used t done t' e in
    subst (IsOrdered id) d (
      worker_step id t done o alive refl (λ h. cc) (λ h. refl) (λ h. o.wrote w) (λ h. cc) (λ h. cc))

call-IsOrdered :
    (id : ℕ) (t t' : Thread) → IsOrdered id t → t.worker ≡ posted → call t ≡ ok t' → IsOrdered id t'
unfolding call has_posted
call-IsOrdered id t t' o w e =
    let done : Thread = record t { worker = called } in
    let (alive, d) = used t done t' e in
    subst (IsOrdered id) d (
      worker_step id t done o alive refl (λ h. cc) (λ h. refl) (λ h. o.stored (rw w refl)) (λ h. cc)
        (λ h. cc))

delete_data-IsOrdered :
    (id : ℕ) (t t' : Thread)
    → IsOrdered id t
    → t.worker ≡ called
    → delete_data t ≡ ok t'
    → IsOrdered id t'
unfolding delete_data has_posted
delete_data-IsOrdered id t t' o w e =
    let done : Thread = record t { data_alive = false; worker = gone } in
    let (alive, d) = used t done t' e in
    subst (IsOrdered id) d (
      worker_step id t done o alive refl (λ h. cc) (λ h. refl) (λ h. o.stored (rw w refl)) (λ h. cc)
        (λ h. refl))

start-IsOrdered :
    (id : ℕ) (t t' : Thread)
    → IsOrdered id t
    → t.caller ≡ before
    → start t ≡ ok t'
    → IsOrdered id t'
unfolding start has_posted
start-IsOrdered id t t' o w e =
    let done : Thread = record t {
      started = true;
      data_alive = true;
      caller = waiting;
      worker = created;
    } in
    let next : Unit {0} → Result Thread = λ _. ok done in
    let (u, e₁, e₂) = bind_ok (assert (not t.started)) next e in
    subst (IsOrdered id) (ok_inj e₂) (record {
      signal = λ h. rw (o.fresh w) at (o.signal h);
      stored = λ h. cc;
      wrote = λ h. cc;
      past = λ h. absurd (apart h);
      deleted = λ h. cc;
      fresh = λ h. cc;
    })
  where
    apart : waiting ≢ behind
    apart h = cc

finish_start-IsOrdered :
    (id : ℕ) (t t' : Thread) → IsOrdered id t → 0 < t.sem → finish_start t ≡ ok t' → IsOrdered id t'
unfolding finish_start
finish_start-IsOrdered id t t' o h e =
    let done : Thread = record t { sem = t.sem - 1; data_alive = false; caller = behind } in
    let rest : Unit {0} → Result Thread = λ _. use_data t.data_alive >> ok done in
    let (u, e₁, e₂) = bind_ok (assert (ltb 0 t.tid)) rest e in
    let (alive, d) = used t done t' e₂ in
    let id_stored = o.stored (o.signal h) in
    subst (IsOrdered id) d (record {
      signal = λ k. o.signal h;
      stored = o.stored;
      wrote = o.wrote;
      past = λ k. (refl, id_stored, (λ g. apart (sym alive ∙ o.deleted g)), o.signal h);
      deleted = λ k. refl;
      fresh = λ k. absurd (other k);
    })
  where
    apart : true ≢ false
    apart k = cc

    other : behind ≢ before
    other k = cc

Reachable-IsOrdered : {id : ℕ} {t : Thread} → Reachable id t → IsOrdered id t
unfolding init has_posted
Reachable-IsOrdered {id} (begun num name) = record {
  signal = λ h. absurd (omega arith);
  stored = λ h. cc;
  wrote = λ h. cc;
  past = λ h. absurd (apart h);
  deleted = λ h. refl;
  fresh = λ h. refl;
}
  where
    apart : before ≢ behind
    apart h = cc
Reachable-IsOrdered {id} (starts {t} {t'} r w e) =
    start-IsOrdered id t t' (Reachable-IsOrdered r) w e
Reachable-IsOrdered {id} (writes {t} {t'} r w e) =
    write_tid-IsOrdered id t t' (Reachable-IsOrdered r) w e
Reachable-IsOrdered {id} (posts {t} {t'} r w e) = post-IsOrdered id t t' (Reachable-IsOrdered r) w e
Reachable-IsOrdered {id} (calls {t} {t'} r w e) = call-IsOrdered id t t' (Reachable-IsOrdered r) w e
Reachable-IsOrdered {id} (deletes {t} {t'} r w e) =
    delete_data-IsOrdered id t t' (Reachable-IsOrdered r) w e
Reachable-IsOrdered {id} (goes_on {t} {t'} r w h e) =
    finish_start-IsOrdered id t t' (Reachable-IsOrdered r) h e

-- Where start has returned without a fault, the id of the thread is stored, the thread has not ended,
-- and its next step, whichever it is, reads or deletes a ThreadData that is deleted.
pub start-dangles :
    {id : ℕ} {t : Thread}
    → Reachable id t
    → t.caller ≡ behind
    → (t.tid ≡ id) × (t.worker ≢ gone) × (call t ≡ err dangling) × (delete_data t ≡ err dangling)
unfolding call delete_data use_data
start-dangles {id} {t} r h =
    let (dead, stored, running, signal) = (Reachable-IsOrdered r).past h in
    (stored, running, rw dead refl, rw dead refl)
