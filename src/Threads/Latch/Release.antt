-- ===== src/Threads/Latch/Release.antt =====
-- When a CountDownLatch lets its waiters go.
use dws.Base.{
  ℕ, zero, suc, ◌-◌, ◌≤◌, ◌<◌, ◌≡◌, refl, ap, ◌∙◌, arith, true, if◌then◌else◌, ltb, leb, Bool-cases,
  inl, inr, ◌⊎◌,
}
use dws.Base.Int.{pos, negsuc}
use dws.Threads.Latch.{Latch, init, pred, is_positive, is_zero, waits, count_down, get_count}

pub count_down_times : ℕ → Latch → Latch
count_down_times zero l = l
count_down_times (suc k) l = count_down (count_down_times k l)

-- The state of a latch of `n` after `k` calls of `countDown`.
pub record After (n k : ℕ) (l : Latch) : Type 0 where
  pub before : k < n → (l.count ≡ pos (n - k)) × (l.notified ≡ 0)
  pub reached : k ≡ n → l.count ≡ pos 0
  pub beyond : n < k → l.count ≡ negsuc (k - n - 1)
  pub once : n ≤ k → l.notified ≡ 1

count_down_below :
    (l : Latch) (m : ℕ)
    → l.count ≡ pos (suc (suc m))
    → ((count_down l).count ≡ pos (suc m)) × ((count_down l).notified ≡ l.notified)
unfolding count_down pred is_zero
count_down_below l m e = ground (arith, e)

count_down_last :
    (l : Latch)
    → l.count ≡ pos 1
    → ((count_down l).count ≡ pos 0) × ((count_down l).notified ≡ suc l.notified)
unfolding count_down pred is_zero
count_down_last l e = ground (arith, e)

count_down_at_zero :
    (l : Latch)
    → l.count ≡ pos 0
    → ((count_down l).count ≡ negsuc 0) × ((count_down l).notified ≡ l.notified)
unfolding count_down pred is_zero
count_down_at_zero l e = ground (arith, e)

count_down_beyond :
    (l : Latch) (m : ℕ)
    → l.count ≡ negsuc m
    → ((count_down l).count ≡ negsuc (suc m)) × ((count_down l).notified ≡ l.notified)
unfolding count_down pred is_zero
count_down_beyond l m e = ground (arith, e)

count_down-After : (n k : ℕ) (l : Latch) → After n k l → 0 < n → After n (suc k) (count_down l)
count_down-After n k l v p = record {
  before = λ h.
      let c = v.before (omega arith) in
      let s = count_down_below l (n - k - 2) (ground (arith, c, h)) in ground (arith, s, c, h);
  reached = λ h.
      let c = v.before (omega arith) in
      let s = count_down_last l (ground (arith, c, h)) in ground (arith, s, c, h);
  beyond = λ h. beyond_of h;
  once = λ h. once_of h;
}
  where
    at_zero : k ≡ n → ((count_down l).count ≡ negsuc 0) × ((count_down l).notified ≡ l.notified)
    at_zero e = count_down_at_zero l (v.reached e)

    past :
        n < k
        → ((count_down l).count ≡ negsuc (suc (k - n - 1))) × ((count_down l).notified ≡ l.notified)
    past lt = count_down_beyond l (k - n - 1) (v.beyond lt)

    last : suc k ≡ n → ((count_down l).count ≡ pos 0) × ((count_down l).notified ≡ suc l.notified)
    last e = let c = v.before (omega arith) in count_down_last l (ground (arith, c, e))

    split : n < suc k → (k ≡ n) ⊎ (n < k)
    split h = omega arith

    beyond_of : n < suc k → (count_down l).count ≡ negsuc (suc k - n - 1)
    beyond_of h = elim (split h) [
      | inl e ↦ ground (arith, at_zero e, e)
      | inr lt ↦ ground (arith, past lt, lt)
    ]

    split_once : n ≤ suc k → (suc k ≡ n) ⊎ ((k ≡ n) ⊎ (n < k))
    split_once h = omega arith

    once_of : n ≤ suc k → (count_down l).notified ≡ 1
    once_of h = elim (split_once h) [
      | inl e ↦ (last e).1 ∙ ap suc (v.before (omega (arith, e))).1
      | inr (inl e) ↦ (at_zero e).1 ∙ v.once (omega arith)
      | inr (inr lt) ↦ (past lt).1 ∙ v.once (omega arith)
    ]

iterated : (n k : ℕ) → 0 < n → After n k (count_down_times k (init (pos n)))
unfolding init count_down_times
iterated n zero p = record {
  before = λ h. (ap pos (omega arith), refl);
  reached = λ h. ground (arith, h, p);
  beyond = λ h. absurd (omega arith);
  once = λ h. absurd (omega arith);
}
iterated n (suc k) p = count_down-After n k _ (iterated n k p) p

-- A latch of `n`, n positive, lets nobody past `wait` before the n-th call of `countDown` and everybody
-- from then on, and the n-th call is the only one to notify the waiters.
pub count_down_times-waits :
    (n k : ℕ)
    → 0 < n
    → let l = count_down_times k (init (pos n)) in
      (waits l ≡ ltb k n)
      × (l.notified ≡ (if ltb k n then 0 else 1))
      × (get_count l ≡ (if leb k n then pos (n - k) else negsuc (k - n - 1)))
unfolding waits is_positive get_count
count_down_times-waits n k p = of_After (iterated n k p)
  where
    of_After :
        {l : Latch}
        → After n k l
        → (waits l ≡ ltb k n)
          × (l.notified ≡ (if ltb k n then 0 else 1))
          × (get_count l ≡ (if leb k n then pos (n - k) else negsuc (k - n - 1)))
    of_After {l} v = elim (Bool-cases (ltb k n)) [
      | inl e ↦
          let b = v.before (ground (arith, e)) in
          let f : leb k n ≡ true = ground (arith, e) in ground (arith, b, e, f)
      | inr e ↦
          let o = v.once (ground (arith, e)) in
          elim (Bool-cases (leb k n)) [
            | inl f ↦
                let r = v.reached (ground (arith, e, f)) in
                let z : n - k ≡ 0 = ground (arith, e, f) in ground (arith, o, r, e, f, z)
            | inr f ↦ let r = v.beyond (ground (arith, e, f)) in ground (arith, o, r, e, f)
          ]
    ]
