-- ===== src/Threads/Pool/Order.antt =====
-- Callers and threads of one pool, in any interleaving of their steps.
use mathlib.Core.List.{append_assoc}
use dws.Base.{
  ℕ, ◌≤◌, ◌<◌, ◌≡◌, ◌≢◌, refl, ap, sym, ◌∙◌, arith, List, [], ◌∷◌, ◌++◌, length, none, some, suc,
  if◌then◌else◌, true, false, length-append, ◌⊎◌, ok,
}
use dws.Threads.Pool.{
  ThreadPool, ran_here, waits, refused, queued, init, start, stop, is_full, run, take_task, goes_on,
}

-- The histories of a pool from its start on, with the tasks accepted and those that threads have taken.
-- `inside` threads have seen `running_` set and are on their way into take, or wait there.
pub data History {ℓ} {T : Type ℓ} (p : ThreadPool T)
    : ThreadPool T → ℕ → List T → List T → Type ℓ where
  begin : History p p 0 [] []
  accepts :
      {q r : ThreadPool T} {inside : ℕ} {ins outs : List T} (t : T)
      → History p q inside ins outs
      → run q t ≡ queued r
      → History p r inside (ins ++ t ∷ []) outs
  enters :
      {q : ThreadPool T} {inside : ℕ} {ins outs : List T}
      → History p q inside ins outs
      → goes_on q ≡ true
      → History p q (suc inside) ins outs
  takes :
      {q r : ThreadPool T} {inside : ℕ} {ins outs : List T} (t : T)
      → History p q (suc inside) ins outs
      → take_task q ≡ some (some t, r)
      → History p r inside ins (outs ++ t ∷ [])
  takes_nothing :
      {q r : ThreadPool T} {inside : ℕ} {ins outs : List T}
      → History p q (suc inside) ins outs
      → take_task q ≡ some (none, r)
      → History p r inside ins outs
  stops :
      {q : ThreadPool T} {inside : ℕ} {ins outs : List T}
      → History p q inside ins outs
      → History p (stop q) inside ins outs

pub record InOrder {ℓ} {T : Type ℓ} (max_size threads : ℕ) (p : ThreadPool T) (ins outs : List T)
    : Type ℓ where
  pub order : ins ≡ outs ++ p.queue
  pub bound : length p.queue ≤ max_size
  pub capacity : p.max_queue_size ≡ max_size
  pub same : p.threads ≡ threads

module _ {ℓ} {T : Type ℓ} where
  run-queued :
      (p q : ThreadPool T) (t : T)
      → run p t ≡ queued q
      → (q ≡ record p { queue = p.queue ++ t ∷ [] }) × (length p.queue < p.max_queue_size)
  unfolding run is_full
  run-queued p q t e = ground arith

  take_task-some :
      (p q : ThreadPool T) (l : List T) (t : T)
      → p.queue ≡ l
      → take_task p ≡ some (some t, q)
      → (ts : List T) × (p.queue ≡ t ∷ ts) × (q ≡ record p { queue = ts })
  unfolding take_task
  take_task-some p q [] t k e = ground arith
  take_task-some p q (x ∷ xs) t k e =
      let x_lem : x ≡ t = ground arith in
      let q_lem : q ≡ record p { queue = xs } = ground arith in
      (xs, k ∙ ap (λ y. y ∷ xs) x_lem, q_lem)

  take_task-nothing :
      (p q : ThreadPool T) (l : List T) → p.queue ≡ l → take_task p ≡ some (none, q) → q ≡ p
  unfolding take_task
  take_task-nothing p q [] k e = ground arith
  take_task-nothing p q (x ∷ xs) k e = ground arith

  accepts-InOrder :
      (m n : ℕ) (q r : ThreadPool T) (ins outs : List T) (t : T)
      → InOrder m n q ins outs
      → run q t ≡ queued r
      → InOrder m n r (ins ++ t ∷ []) outs
  accepts-InOrder m n q r ins outs t v e =
      let s = run-queued q r t e in
      rw s.0 (record {
        order = ap (λ l. l ++ t ∷ []) v.order ∙ append_assoc outs q.queue (t ∷ []);
        bound = ground (arith, s.1, v.capacity, length-append q.queue (t ∷ []));
        capacity = v.capacity;
        same = v.same;
      })

  takes-InOrder :
      (m n : ℕ) (q r : ThreadPool T) (ins outs : List T) (t : T)
      → InOrder m n q ins outs
      → take_task q ≡ some (some t, r)
      → InOrder m n r ins (outs ++ t ∷ [])
  takes-InOrder m n q r ins outs t v e =
      let s = take_task-some q r q.queue t refl e in
      rw s.2 (record {
        order = v.order ∙ ap (λ l. outs ++ l) s.1 ∙ sym (append_assoc outs (t ∷ []) s.0);
        bound = ground (arith, v.bound, s.1);
        capacity = v.capacity;
        same = v.same;
      })

  takes_nothing-InOrder :
      (m n : ℕ) (q r : ThreadPool T) (ins outs : List T)
      → InOrder m n q ins outs
      → take_task q ≡ some (none, r)
      → InOrder m n r ins outs
  takes_nothing-InOrder m n q r ins outs v e = rw (take_task-nothing q r q.queue refl e) v

  -- From a pool with an empty queue on, however the callers, the threads and `stop` take turns: the
  -- threads take the accepted tasks in the order of their acceptance, each once, those not taken yet are
  -- in the queue, and the queue is never longer than `maxQueueSize_`.
  pub History-InOrder :
      {p q : ThreadPool T} {inside : ℕ} {ins outs : List T}
      → p.queue ≡ []
      → History p q inside ins outs
      → InOrder p.max_queue_size p.threads q ins outs
  unfolding stop
  History-InOrder {p} k begin = record {
    order = sym k;
    bound = ground (arith, k);
    capacity = refl;
    same = refl;
  }
  History-InOrder k (accepts t h e) = accepts-InOrder _ _ _ _ _ _ t (History-InOrder k h) e
  History-InOrder k (enters h e) = History-InOrder k h
  History-InOrder k (takes t h e) = takes-InOrder _ _ _ _ _ _ t (History-InOrder k h) e
  History-InOrder k (takes_nothing h e) = takes_nothing-InOrder _ _ _ _ _ _ (History-InOrder k h) e
  History-InOrder k (stops h) =
      let v = History-InOrder k h in
      record { order = v.order; bound = v.bound; capacity = v.capacity; same = v.same }

  -- After `stop` nobody waits in the pool: a caller of `run` comes back at once without having added
  -- a task, a thread that is about to test `running_` leaves, and one that is inside `take` comes
  -- back from it.
  pub stop-releases :
      (p : ThreadPool T) (t : T)
      → ((run (stop p) t ≡ ran_here) ⊎ (run (stop p) t ≡ refused))
        × (goes_on (stop p) ≡ false)
        × (take_task (stop p) ≢ none)
  unfolding run stop goes_on take_task
  stop-releases p t = releases p p.queue refl
    where
      releases :
          (p : ThreadPool T) (l : List T)
          → p.queue ≡ l
          → ((run (stop p) t ≡ ran_here) ⊎ (run (stop p) t ≡ refused))
            × (goes_on (stop p) ≡ false)
            × (take_task (stop p) ≢ none)
      releases p [] k = ground arith
      releases p (x ∷ xs) k = ground arith

  nothing_accepted :
      {p q : ThreadPool T} {inside : ℕ} {ins outs : List T}
      → p.max_queue_size ≡ 0
      → p.queue ≡ []
      → History p q inside ins outs
      → ins ≡ []
  nothing_accepted z k begin = refl
  nothing_accepted z k (accepts t h e) =
      let v = History-InOrder k h in
      let s = run-queued _ _ t e in absurd (ground (arith, s.1, v.capacity, z))
  nothing_accepted z k (enters h e) = nothing_accepted z k h
  nothing_accepted z k (takes t h e) = nothing_accepted z k h
  nothing_accepted z k (takes_nothing h e) = nothing_accepted z k h
  nothing_accepted z k (stops h) = nothing_accepted z k h

  starved_run :
      (q : ThreadPool T) (n : ℕ) (t : T)
      → 0 < n
      → q.max_queue_size ≡ 0
      → q.threads ≡ n
      → run q t ≡ (if q.running then waits else refused)
  unfolding run is_full
  starved_run q n t h z k = ground (arith, h, z, k)

  -- A pool that is started with threads and with the default size 0 of its queue never accepts a task
  -- and its threads never take one, however long it lives: in every state that it comes to, `run` waits
  -- while the pool runs, and refuses the task once it has been stopped.
  pub start-starves :
      {p q : ThreadPool T} {inside : ℕ} {ins outs : List T} (n : ℕ)
      → 0 < n
      → start init n ≡ ok p
      → History p q inside ins outs
      → (ins ≡ []) × (outs ≡ []) × ((t : T) → run q t ≡ (if q.running then waits else refused))
  unfolding start init
  start-starves {p} {q} {inside} {ins} {outs} n h e k =
      let p_lem : p ≡ record { queue = []; max_queue_size = 0; running = true; threads = n } =
        ground arith in
      let i = nothing_accepted (ap (λ p. p.max_queue_size) p_lem) (ap (λ p. p.queue) p_lem) k in
      let v = History-InOrder (ap (λ p. p.queue) p_lem) k in
      let z = v.capacity ∙ ap (λ p. p.max_queue_size) p_lem in
      let s = v.same ∙ ap (λ p. p.threads) p_lem in
      (i, ground (arith, i, v.order), λ t. starved_run q n t h z s)
