-- ===== src/Threads/BlockQueue/Fifo.antt =====
-- Producers, consumers and drains on one BlockQueue, in any interleaving of their steps.
use mathlib.Core.List.{append_assoc, append-nil}
use dws.Base.{◌≡◌, refl, ap, sym, ◌∙◌, arith, List, [], ◌∷◌, ◌++◌, some}
use dws.Threads.BlockQueue.{BlockQueue, init, put, take_front, drain}

-- A history of a queue that starts empty, with the items put into it and those taken out of it.
pub data History {ℓ} {A : Type ℓ} : BlockQueue A → List A → List A → Type ℓ where
  start : History init [] []
  puts :
      {r : BlockQueue A} {ins outs : List A} (x : A)
      → History r ins outs
      → History (put r x) (ins ++ x ∷ []) outs
  takes :
      {r s : BlockQueue A} {ins outs : List A} (x : A)
      → History r ins outs
      → take_front r ≡ some (x, s)
      → History s ins (outs ++ x ∷ [])
  drains :
      {r s : BlockQueue A} {ins outs xs : List A}
      → History r ins outs
      → drain r ≡ (xs, s)
      → History s ins (outs ++ xs)

module _ {ℓ} {A : Type ℓ} where
  takes_lem :
      (r : BlockQueue A) (l : List A) (s : BlockQueue A) (ins outs : List A) (x : A)
      → r.queue ≡ l
      → ins ≡ outs ++ r.queue
      → take_front r ≡ some (x, s)
      → ins ≡ (outs ++ x ∷ []) ++ s.queue
  unfolding take_front
  takes_lem r [] s ins outs x k v e = ground arith
  takes_lem r (y ∷ ys) s ins outs x k v e =
      let s_lem : s ≡ record { queue = ys } = ground arith in
      let x_lem : x ≡ y = ground arith in
      rw s_lem (rw x_lem (v ∙ ap (λ l. outs ++ l) k ∙ sym (append_assoc outs (y ∷ []) ys)))

  drains_lem :
      (r s : BlockQueue A) (ins outs xs : List A)
      → ins ≡ outs ++ r.queue
      → drain r ≡ (xs, s)
      → ins ≡ (outs ++ xs) ++ s.queue
  unfolding drain
  drains_lem r s ins outs xs v e =
      let s_lem : s.queue ≡ [] = ap (λ p. p.1.queue) (sym e) in
      let xs_lem : xs ≡ r.queue = ap (λ p. p.0) (sym e) in
      rw s_lem (rw xs_lem (v ∙ sym (append-nil (outs ++ r.queue))))

  -- However the calls of `put`, `take` and `drain` take turns, what has been put in is what has come
  -- out, in the same order, followed by what the queue holds.
  pub History-order :
      {q : BlockQueue A} {ins outs : List A} → History q ins outs → ins ≡ outs ++ q.queue
  unfolding init put
  History-order start = refl
  History-order (puts x h) = ap (λ l. l ++ x ∷ []) (History-order h) ∙ append_assoc _ _ (x ∷ [])
  History-order (takes x h e) = takes_lem _ _ _ _ _ x refl (History-order h) e
  History-order (drains h e) = drains_lem _ _ _ _ _ (History-order h) e
