-- ===== src/Net/Acceptor/Balance.antt =====
-- Acceptor (src/net/src/Acceptor.cc): no descriptor is lost.
use dws.Net.Acceptor.{
  Accepted, connection, failed, Effect, opens, closes, hands_over, Acceptor, is_expected, is_emfile,
  accept_socket, close_fd, open_fd, drain, handle_read,
}
use dws.Base.{
  Returns, ℕ, ◌+◌, ◌≡◌, refl, arith, List, [], ◌∷◌, ◌++◌, Option, none, some, true, if◌then◌else◌,
  ◌==◌, Bool-cases, inl, inr, Result, ok, ◌>>=◌,
}

-- How often a descriptor was opened, closed and handed over.
unfoldable pub opened : ℕ → List Effect → ℕ
opened fd [] = 0
opened fd (opens n ∷ es) = (if n == fd then 1 else 0) + opened fd es
opened fd (closes n ∷ es) = opened fd es
opened fd (hands_over n ∷ es) = opened fd es

unfoldable pub let_go : ℕ → List Effect → ℕ
let_go fd [] = 0
let_go fd (opens n ∷ es) = let_go fd es
let_go fd (closes n ∷ es) = (if n == fd then 1 else 0) + let_go fd es
let_go fd (hands_over n ∷ es) = (if n == fd then 1 else 0) + let_go fd es

-- The acceptor holds the descriptor.
unfoldable pub held : ℕ → Option ℕ → ℕ
held fd none = 0
held fd (some n) = if n == fd then 1 else 0

opened-append : (fd : ℕ) (xs ys : List Effect) → opened fd (xs ++ ys) ≡ opened fd xs + opened fd ys
unfolding opened
opened-append fd [] ys = omega arith
opened-append fd (opens n ∷ xs) ys = omega (arith, opened-append fd xs ys)
opened-append fd (closes n ∷ xs) ys = opened-append fd xs ys
opened-append fd (hands_over n ∷ xs) ys = opened-append fd xs ys

let_go-append : (fd : ℕ) (xs ys : List Effect) → let_go fd (xs ++ ys) ≡ let_go fd xs + let_go fd ys
unfolding let_go
let_go-append fd [] ys = omega arith
let_go-append fd (opens n ∷ xs) ys = let_go-append fd xs ys
let_go-append fd (closes n ∷ xs) ys = omega (arith, let_go-append fd xs ys)
let_go-append fd (hands_over n ∷ xs) ys = omega (arith, let_go-append fd xs ys)

close_fd_lem :
    (fd : ℕ) (o : Option ℕ) → (opened fd (close_fd o) ≡ 0) × (let_go fd (close_fd o) ≡ held fd o)
unfolding close_fd opened let_go held
close_fd_lem fd none = (refl, refl)
close_fd_lem fd (some n) = (refl, omega arith)

open_fd_lem :
    (fd : ℕ) (o : Option ℕ) → (opened fd (open_fd o) ≡ held fd o) × (let_go fd (open_fd o) ≡ 0)
unfolding open_fd opened let_go held
open_fd_lem fd none = (refl, refl)
open_fd_lem fd (some n) = (omega arith, refl)

-- What happened accounts for the descriptors held before and after.
abbrev Balanced : Acceptor → List Effect × Acceptor → Type 0
Balanced a r = (fd : ℕ) → opened fd r.0 + held fd a.idle_fd ≡ let_go fd r.0 + held fd r.1.idle_fd

drain-Balanced :
    (pending reopened : Option ℕ) (a : Acceptor) → Balanced a (drain pending reopened a)
unfolding drain
drain-Balanced pending reopened a fd =
    let tail = close_fd pending ++ open_fd reopened in
    omega (
      arith,
      opened-append fd (close_fd a.idle_fd) (open_fd pending ++ tail),
      opened-append fd (open_fd pending) tail,
      opened-append fd (close_fd pending) (open_fd reopened),
      let_go-append fd (close_fd a.idle_fd) (open_fd pending ++ tail),
      let_go-append fd (open_fd pending) tail,
      let_go-append fd (close_fd pending) (open_fd reopened),
      close_fd_lem fd a.idle_fd,
      open_fd_lem fd pending,
      close_fd_lem fd pending,
      open_fd_lem fd reopened,
    )

-- One call of handleRead: the results of accept, of the second accept and of open.
pub record Input : Type 0 where
  pub accepted : Accepted
  pub pending : Option ℕ
  pub reopened : Option ℕ

abbrev pub IsExpected : Accepted → Type 0
IsExpected (connection fd) = Unit
IsExpected (failed e) = is_expected e ≡ true

handle_read-Balanced :
    (accepted : Accepted) (pending reopened : Option ℕ) (a : Acceptor)
    → IsExpected accepted
    → Returns (handle_read accepted pending reopened a) (Balanced a)
unfolding handle_read accept_socket opened let_go
handle_read-Balanced (connection fd) pending reopened a h = (
  (opens fd ∷ (if a.new_connection_callback then hands_over fd else closes fd) ∷ [], a),
  refl,
  λ n. ground arith,
)
handle_read-Balanced (failed e) pending reopened a h = elim (Bool-cases (is_emfile e)) [
  | inl full ↦ (drain pending reopened a, rw (h, full) refl, drain-Balanced pending reopened a)
  | inr other ↦ (([], a), rw (h, other) refl, λ n. refl)
]

unfoldable pub run : List Input → Acceptor → Result (List Effect × Acceptor)
unfolding handle_read
run [] a = ok ([], a)
run (i ∷ is) a = do
  (es, a1) ← handle_read i.accepted i.pending i.reopened a
  (fs, a2) ← run is a1
  ok (es ++ fs, a2)

abbrev pub AllExpected : List Input → Type 0
AllExpected [] = Unit
AllExpected (i ∷ is) = IsExpected i.accepted × AllExpected is

-- Over any number of calls of handleRead in which accept fails with expected errors only, each call
-- returns, and every descriptor was opened, or held before, as often as it was closed or handed over,
-- or is held after: connections are handed over or closed, and the idle descriptor is closed before
-- another takes its place.
pub run-balanced :
    (is : List Input) (a : Acceptor)
    → AllExpected is
    → Returns
        (run is a)
        λ r. (fd : ℕ) → opened fd r.0 + held fd a.idle_fd ≡ let_go fd r.0 + held fd r.1.idle_fd
unfolding run opened let_go
run-balanced [] a h = (([], a), refl, λ fd. refl)
run-balanced (i ∷ is) a h =
    let ((es, a1), e1, b1) = handle_read-Balanced i.accepted i.pending i.reopened a h.0 in
    let ((fs, a2), e2, b2) = run-balanced is a1 h.1 in
    (
      (es ++ fs, a2),
      rw (e1, e2) refl,
      λ fd. omega (arith, b1 fd, b2 fd, opened-append fd es fs, let_go-append fd es fs),
    )
