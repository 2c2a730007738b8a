-- ===== src/Net/Acceptor/Tests.antt =====
-- Acceptor (src/net/src/Acceptor.cc) on concrete inputs.
use dws.Net.Acceptor.{is_expected, emfile, connection, failed, opens, closes, hands_over, Acceptor}
use dws.Net.Acceptor.Balance.{Input, run, opened, let_go, held, run-balanced}
use dws.Base.{Returns, ℕ, ◌+◌, ◌≡◌, refl, List, [], ◌∷◌, none, some, true, ok}

abbrev listener : Acceptor
listener = record {
  listening = true;
  reading = true;
  new_connection_callback = true;
  idle_fd = some 5;
}

-- A connection, then no descriptor is left, and one comes back.
abbrev inputs : List Input
inputs =
    record { accepted = connection 7; pending = none; reopened = none }
    ∷ record { accepted = failed emfile; pending = some 5; reopened = some 5 }
    ∷ []

expected : is_expected emfile ≡ true
unfolding is_expected
expected = refl

run-balanced_example :
    Returns
      (run inputs listener)
      λ r. (fd : ℕ) → opened fd r.0 + held fd (some 5) ≡ let_go fd r.0 + held fd r.1.idle_fd
run-balanced_example = run-balanced inputs listener (tt, (expected, tt))

drained :
    run inputs listener
    ≡ ok (opens 7 ∷ hands_over 7 ∷ closes 5 ∷ opens 5 ∷ closes 5 ∷ opens 5 ∷ [], listener)
unfolding run
drained = refl
