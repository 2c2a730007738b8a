-- ===== src/Net/EventLoop/Wakeup.antt =====
-- The runs of a loop with other threads: where its functors are, and what wakes it.
use mathlib.Core.List.{append_assoc, append-nil}
use dws.Base.{
  ℕ, suc, ◌<◌, ◌≡◌, refl, ap, sym, ◌∙◌, arith, List, [], ◌∷◌, ◌++◌, length, none, some, Bool, true,
  false, ◌||◌, Bool-cases, inl, inr, ◌⊎◌, ok,
}
use dws.Net.EventLoop.{
  EventLoop, init, start_loop, wakeup, handle_read, quit, push_functor, wake_after, set_quit,
  poll_returns, take_functors, events_handled, call_functor,
}

-- A run of a loop, with the functors that were queued and those that were called. `others` is how many
-- other threads are between the two parts of queueInLoop or quit, and `inside` says whether the loop's
-- own thread is. That thread queues while it handles events or calls functors, any other at any time.
pub data History {ℓ} {F : Type ℓ} : EventLoop F → ℕ → Bool → List F → List F → Type ℓ where
  starts : {l : EventLoop F} → start_loop init ≡ ok l → History l 0 false [] []
  pushes_outside :
      {l : EventLoop F} {others : ℕ} {inside : Bool} {queued called : List F} (f : F)
      → History l others inside queued called
      → History (push_functor l f) (suc others) inside (queued ++ f ∷ []) called
  quits_outside :
      {l : EventLoop F} {others : ℕ} {inside : Bool} {queued called : List F}
      → History l others inside queued called
      → History (set_quit l) (suc others) inside queued called
  wakes_outside :
      {l : EventLoop F} {others : ℕ} {inside : Bool} {queued called : List F}
      → History l (suc others) inside queued called
      → History (wake_after false l) others inside queued called
  pushes_inside :
      {l : EventLoop F} {others : ℕ} {queued called : List F} (f : F)
      → History l others false queued called
      → (l.event_handling || l.calling_pending_functors) ≡ true
      → History (push_functor l f) others true (queued ++ f ∷ []) called
  wakes_inside :
      {l : EventLoop F} {others : ℕ} {queued called : List F}
      → History l others true queued called
      → History (wake_after true l) others false queued called
  quits_inside :
      {l : EventLoop F} {others : ℕ} {queued called : List F}
      → History l others false queued called
      → History (quit true l) others false queued called
  polls :
      {l : EventLoop F} {others : ℕ} {queued called : List F}
      → History l others false queued called
      → l.calling_pending_functors ≡ false
      → History (poll_returns l) others false queued called
  reads :
      {l : EventLoop F} {others : ℕ} {queued called : List F}
      → History l others false queued called
      → l.event_handling ≡ true
      → History (handle_read l) others false queued called
  takes :
      {l : EventLoop F} {others : ℕ} {queued called : List F}
      → History l others false queued called
      → l.event_handling ≡ true
      → History (take_functors (events_handled l)) others false queued called
  calls :
      {l l' : EventLoop F} {others : ℕ} {queued called : List F} (f : F)
      → History l others false queued called
      → call_functor l ≡ (some f, l')
      → History l' others false queued (called ++ f ∷ [])
  ends :
      {l l' : EventLoop F} {others : ℕ} {queued called : List F}
      → History l others false queued called
      → l.calling_pending_functors ≡ true
      → call_functor l ≡ (none, l')
      → History l' others false queued called

pub record Awake {ℓ} {F : Type ℓ} (l : EventLoop F) (others : ℕ) (inside : Bool)
    (queued called : List F) : Type ℓ where
  -- Each functor is called once, in the order of the queue.
  pub order : queued ≡ called ++ (l.functors ++ l.pending_functors)
  -- Where the loop is on its way into poll with functors queued, something wakes it, or another thread
  -- is about to.
  pub awake :
      (l.event_handling ≡ true)
      ⊎ ((length l.pending_functors ≡ 0)
          ⊎ ((0 < l.wakeup_count) ⊎ ((0 < others) ⊎ (inside ≡ true))))
  -- The loop's own thread queues outside of poll.
  pub busy : (inside ≡ false) ⊎ ((l.event_handling || l.calling_pending_functors) ≡ true)
  pub apart : (l.calling_pending_functors ≡ true) ⊎ (length l.functors ≡ 0)
  pub phases : (l.event_handling ≡ false) ⊎ (l.calling_pending_functors ≡ false)

module _ {ℓ} {F : Type ℓ} where
  nil_of_length : (xs : List F) → length xs ≡ 0 → xs ≡ []
  nil_of_length [] h = refl
  nil_of_length (x ∷ xs) h = absurd (omega arith)

  queue-order :
      (called functors pending : List F) (f : F) (queued : List F)
      → queued ≡ called ++ (functors ++ pending)
      → queued ++ f ∷ [] ≡ called ++ (functors ++ (pending ++ f ∷ []))
  queue-order called functors pending f queued e =
      ap (λ l. l ++ f ∷ []) e
      ∙ append_assoc called (functors ++ pending) (f ∷ [])
      ∙ ap (λ l. called ++ l) (append_assoc functors pending (f ∷ []))

  push_functor-Awake :
      (l : EventLoop F) (others n : ℕ) (inside b : Bool) (queued called : List F) (f : F)
      → Awake l others inside queued called
      → (0 < n) ⊎ (b ≡ true)
      → (b ≡ false) ⊎ ((l.event_handling || l.calling_pending_functors) ≡ true)
      → Awake (push_functor l f) n b (queued ++ f ∷ []) called
  unfolding push_functor
  push_functor-Awake l others n inside b queued called f v h k = record {
    order = queue-order called l.functors l.pending_functors f queued v.order;
    awake = inr (inr (inr h));
    busy = k;
    apart = v.apart;
    phases = v.phases;
  }

  wakes_outside-Awake :
      (l : EventLoop F) (others : ℕ) (inside : Bool) (queued called : List F)
      → Awake l (suc others) inside queued called
      → Awake (wake_after false l) others inside queued called
  unfolding wake_after wakeup
  wakes_outside-Awake l others inside queued called v = record {
    order = v.order;
    awake = inr (inr (inl (omega arith)));
    busy = v.busy;
    apart = v.apart;
    phases = v.phases;
  }

  wakes_inside-Awake :
      (l : EventLoop F) (others : ℕ) (queued called : List F)
      → Awake l others true queued called
      → Awake (wake_after true l) others false queued called
  unfolding wake_after wakeup
  wakes_inside-Awake l others queued called v = elim (Bool-cases l.calling_pending_functors) [
    | inl e ↦ simp e (record {
      order = v.order;
      awake = inr (inr (inl (omega arith)));
      busy = inl refl;
      apart = inl refl;
      phases = inl (ground (arith, e, v.phases));
    })
    | inr e ↦ simp e (record {
      order = v.order;
      awake = inl (ground (arith, e, v.busy));
      busy = inl refl;
      apart = inr (ground (arith, e, v.apart));
      phases = inr e;
    })
  ]

  take_functors-Awake :
      (l : EventLoop F) (others : ℕ) (queued called : List F)
      → Awake l others false queued called
      → l.event_handling ≡ true
      → Awake (take_functors (events_handled l)) others false queued called
  unfolding take_functors events_handled
  take_functors-Awake l others queued called v h =
      let c : l.calling_pending_functors ≡ false = ground (arith, v.phases, h) in
      let n : length l.functors ≡ 0 = ground (arith, v.apart, c) in
      record {
        order =
            v.order
            ∙ ap (λ fs. called ++ (fs ++ l.pending_functors)) (nil_of_length l.functors n)
            ∙ ap (λ fs. called ++ fs) (sym (append-nil l.pending_functors));
        awake = inr (inl refl);
        busy = inl refl;
        apart = inl refl;
        phases = inl refl;
      }

  calls-Awake :
      (l l' : EventLoop F) (others : ℕ) (fs queued called : List F) (f : F)
      → l.functors ≡ fs
      → Awake l others false queued called
      → call_functor l ≡ (some f, l')
      → Awake l' others false queued (called ++ f ∷ [])
  unfolding call_functor
  calls-Awake l l' others [] queued called f k v e = ground (arith, k, e)
  calls-Awake l l' others (g ∷ gs) queued called f k v e =
      let l_lem : l' ≡ record l { functors = gs } = ground (arith, k, e) in
      let g_lem : f ≡ g = ground (arith, k, e) in
      let c : l.calling_pending_functors ≡ true = ground (arith, v.apart, k) in
      rw l_lem (
        rw g_lem (record {
          order =
              v.order
              ∙ ap (λ xs. called ++ (xs ++ l.pending_functors)) k
              ∙ sym (append_assoc called (g ∷ []) (gs ++ l.pending_functors));
          awake = v.awake;
          busy = inl refl;
          apart = inl c;
          phases = v.phases;
        }))

  ends-Awake :
      (l l' : EventLoop F) (others : ℕ) (fs queued called : List F)
      → l.functors ≡ fs
      → Awake l others false queued called
      → l.calling_pending_functors ≡ true
      → call_functor l ≡ (none, l')
      → Awake l' others false queued called
  unfolding call_functor
  ends-Awake l l' others [] queued called k v c e =
      let l_lem : l' ≡ record l { calling_pending_functors = false } = ground (arith, k, e) in
      rw l_lem (record {
        order = v.order;
        awake = v.awake;
        busy = inl refl;
        apart = inr (ap length k);
        phases = inr refl;
      })
  ends-Awake l l' others (g ∷ gs) queued called k v c e = ground (arith, k, e)

  -- Whatever the other threads and the loop's own functors do: each queued functor is called once and in
  -- the order of queueing, or is still waiting, and whenever the loop is on its way into poll, or in it,
  -- with functors waiting, the counter of its eventfd is not 0, so that poll returns at once, or another
  -- thread has queued and not yet called `wakeup`.
  pub History-Awake :
      {l : EventLoop F} {others : ℕ} {inside : Bool} {queued called : List F}
      → History l others inside queued called
      → Awake l others inside queued called
  unfolding init start_loop quit set_quit handle_read poll_returns
  History-Awake (starts {l} e) =
      let l_lem : l ≡ record init { looping = true } = ground (arith, e) in
      rw l_lem (record {
        order = refl;
        awake = inr (inl refl);
        busy = inl refl;
        apart = inr refl;
        phases = inl refl;
      })
  History-Awake (pushes_outside {inside = inside} f h) =
      let v = History-Awake h in
      push_functor-Awake _ _ _ _ inside _ _ f v (inl (omega arith)) v.busy
  History-Awake (quits_outside h) =
      let v = History-Awake h in
      record {
        order = v.order;
        awake = inr (inr (inr (inl (omega arith))));
        busy = v.busy;
        apart = v.apart;
        phases = v.phases;
      }
  History-Awake (wakes_outside h) = wakes_outside-Awake _ _ _ _ _ (History-Awake h)
  History-Awake (pushes_inside f h e) =
      push_functor-Awake _ _ _ _ true _ _ f (History-Awake h) (inr refl) (inr e)
  History-Awake (wakes_inside h) = wakes_inside-Awake _ _ _ _ (History-Awake h)
  History-Awake (quits_inside h) =
      let v = History-Awake h in
      record {
        order = v.order;
        awake = v.awake;
        busy = inl refl;
        apart = v.apart;
        phases = v.phases;
      }
  History-Awake (polls h c) =
      let v = History-Awake h in
      record { order = v.order; awake = inl refl; busy = inl refl; apart = v.apart; phases = inr c }
  History-Awake (reads h c) =
      let v = History-Awake h in
      record { order = v.order; awake = inl c; busy = inl refl; apart = v.apart; phases = v.phases }
  History-Awake (takes h c) = take_functors-Awake _ _ _ _ (History-Awake h) c
  History-Awake (calls f h e) = calls-Awake _ _ _ _ _ _ f refl (History-Awake h) e
  History-Awake (ends h c e) = ends-Awake _ _ _ _ _ _ refl (History-Awake h) c e
