-- ===== src/Threads/BoundedQueue/Fifo.antt =====
-- Producers and consumers on one queue, in any interleaving of their steps.
use mathlib.Core.List.{append_assoc}
use dws.Base.{
  ℕ, ◌≤◌, ◌<◌, ◌≡◌, refl, ap, sym, ◌∙◌, arith, List, [], ◌∷◌, ◌++◌, length, some, length-append,
  inl, inr, ◌⊎◌,
}
use dws.Threads.BoundedQueue.{Queue, init, put, get}

-- A history of the queue, with the items put into it and those taken out, oldest first.
pub data History {ℓ} {A : Type ℓ} (q : Queue A) : Queue A → List A → List A → Type ℓ where
  start : History q q [] []
  puts :
      {r s : Queue A} {ins outs : List A} (x : A)
      → History q r ins outs
      → put r x ≡ some s
      → History q s (ins ++ x ∷ []) outs
  gets :
      {r s : Queue A} {ins outs : List A} (x : A)
      → History q r ins outs
      → get r ≡ some (x, s)
      → History q s ins (outs ++ x ∷ [])

-- What holds of a queue that started empty: it is a FIFO of at most `max_size` items.
pub record IsFifo {ℓ} {A : Type ℓ} (max_size : ℕ) (q : Queue A) (ins outs : List A) : Type ℓ where
  pub order : ins ≡ outs ++ q.queue
  pub bound : length q.queue ≤ max_size
  pub capacity : q.max_size ≡ max_size

module _ {ℓ} {A : Type ℓ} (max_size : ℕ) where
  put-IsFifo :
      (r s : Queue A) (ins outs : List A) (x : A)
      → IsFifo max_size r ins outs
      → put r x ≡ some s
      → IsFifo max_size s (ins ++ x ∷ []) outs
  unfolding put
  put-IsFifo r s ins outs x v e =
      let s_lem : s ≡ record r { queue = r.queue ++ x ∷ [] } = ground arith in
      rw s_lem (record {
        order = ap (λ l. l ++ x ∷ []) v.order ∙ append_assoc outs r.queue (x ∷ []);
        bound = ground (arith, v.bound, v.capacity, length-append r.queue (x ∷ []));
        capacity = v.capacity;
      })

  get-IsFifo :
      (r : Queue A) (l : List A) (s : Queue A) (ins outs : List A) (x : A)
      → r.queue ≡ l
      → IsFifo max_size r ins outs
      → get r ≡ some (x, s)
      → IsFifo max_size s ins (outs ++ x ∷ [])
  unfolding get
  get-IsFifo r [] s ins outs x k v e = ground arith
  get-IsFifo r (y ∷ ys) s ins outs x k v e =
      let s_lem : s ≡ record r { queue = ys } = ground arith in
      let x_lem : x ≡ y = ground arith in
      rw s_lem (
        rw x_lem (record {
          order = v.order ∙ ap (λ l. outs ++ l) k ∙ sym (append_assoc outs (y ∷ []) ys);
          bound = ground (arith, v.bound, v.capacity, k);
          capacity = v.capacity;
        }))

  -- However producers and consumers take turns, the items come out in the order in which they were
  -- put in, none is lost or made up, and the queue never holds more than `max_size`. The class is
  -- taken without the constructor's call of `queue_.reserve`, which does not compile.
  pub History-IsFifo :
      {q : Queue A} {ins outs : List A}
      → History (init max_size) q ins outs
      → IsFifo max_size q ins outs
  unfolding init
  History-IsFifo start = record { order = refl; bound = omega arith; capacity = refl }
  History-IsFifo (puts x h e) = put-IsFifo _ _ _ _ x (History-IsFifo h) e
  History-IsFifo (gets x h e) = get-IsFifo _ _ _ _ _ x refl (History-IsFifo h) e

progress_of {ℓ} :
    {A : Type ℓ} (q : Queue A) (l : List A) (x : A)
    → q.queue ≡ l
    → 0 < q.max_size
    → ((s : Queue A) × (put q x ≡ some s)) ⊎ ((y : A) × (s : Queue A) × (get q ≡ some (y, s)))
unfolding put get
progress_of q [] x k h = inl (record q { queue = q.queue ++ x ∷ [] }, ground (arith, k, h))
progress_of q (y ∷ ys) x k h = inr (y, record q { queue = ys }, ground (arith, k))

-- A producer waits exactly on a full queue, and a consumer exactly on an empty one: with room for one
-- item at least, one of them can always go on.
pub progress {ℓ} :
    {A : Type ℓ} (q : Queue A) (x : A)
    → 0 < q.max_size
    → ((s : Queue A) × (put q x ≡ some s)) ⊎ ((y : A) × (s : Queue A) × (get q ≡ some (y, s)))
progress q x h = progress_of q q.queue x refl h
