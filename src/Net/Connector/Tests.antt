-- ===== src/Net/Connector/Tests.antt =====
-- A connector that fails twice and then connects.
use dws.Base.{◌≡◌, refl, List, [], ◌∷◌, none, true, false, Result, ok, err}
use dws.Net.Connector.{
  Connector, disconnected, Effect, closes, runs_after, in_progress, refused, retry, connecting_on,
  connect, start_in_loop, start, remove_and_reset_channel, reset_channel, finish, handle_write,
  is_state, init_retry_delay_ms,
}
use dws.Net.Connector.Backoff.{fail, backoff, retry-backoff}
use dws.Net.Connector.Sockets.{
  Op, starts, starts_in_loop, resets, writes, step, run, Balanced, IsOrderly, run-Balanced,
}

abbrev history : List Op
history =
    starts true 5 refused
    ∷ starts_in_loop 6 in_progress
    ∷ writes 111 false
    ∷ resets
    ∷ starts_in_loop 7 in_progress
    ∷ writes 0 false
    ∷ []

abbrev value {ℓ} : {A : Type ℓ} → Result A → A → A
value (ok a) d = a
value (err e) d = d

abbrev idle : Connector
idle = record {
  connect = false;
  state = disconnected;
  channel = none;
  retry_delay_ms = init_retry_delay_ms;
}

abbrev final : Connector × List Effect
final = value (run idle history) (idle, [])

history_runs : run idle history ≡ ok final
unfolding run step start start_in_loop connect connecting_on retry handle_write
    remove_and_reset_channel reset_channel finish is_state
history_runs = refl

history-IsOrderly : IsOrderly idle history
unfolding IsOrderly step start start_in_loop connect connecting_on retry handle_write
    remove_and_reset_channel reset_channel finish is_state
history-IsOrderly = (tt, (tt, (tt, (refl, (tt, (tt, tt))))))

run-Balanced_example : Balanced 7 idle final
run-Balanced_example = run-Balanced history idle final 7 history-IsOrderly history_runs

retry-backoff_example :
    (retry (fail 7 (record idle { connect = true })) 9).1 ≡ closes 9 ∷ runs_after (backoff 7) ∷ []
retry-backoff_example = retry-backoff 7 9 (record idle { connect = true }) refl refl
