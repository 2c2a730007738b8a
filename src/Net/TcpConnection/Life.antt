-- ===== src/Net/TcpConnection/Life.antt =====
-- The life of a connection: its state only moves on, and it is closed at most once, whatever calls
-- and events come in whatever order.
use dws.Base.{
  bind_ok, ℕ, zero, suc, ◌+◌, ◌/◌, ◌≤◌, ◌≡◌, arith, List, [], ◌∷◌, ◌++◌, length, drop, Bool, ◌&&◌,
  if◌then◌else◌, ◌==◌, add_size, sub_size, ok, ◌>>=◌,
}
use dws.Net.TcpConnection.{
  TcpConnection, State, disconnected, connecting, connected, disconnecting, Effect,
  connection_callback, message_callback, close_callback, queue_write_complete, queue_force_close,
  queue_shutdown, queue_force_close_delayed, queue_high_water_mark, queue_send, shutdown_write,
  remove_channel, log_error, WriteResult, wrote, write_failed, Outcome, keep_rest, after_write,
  send_in_loop, send, shutdown_in_loop, shutdown, force_close, force_close_with_delay, handle_close,
  force_close_in_loop, start_read_in_loop, stop_read_in_loop, connect_established,
  connect_destroyed, handle_read, after_drain, finish_drain, handle_write,
}
use dws.Net.Buffer.{readable_bytes}
use dws.Net.Buffer.ReadFd.{Readv, failed, received}

-- The calls of the owner and the loop, and the events of the channel.
pub data Op : Type 0 where
  sends : Bool → List ℕ → WriteResult → Op
  sends_in_loop : List ℕ → WriteResult → Op
  shuts_down : Bool → Op
  shuts_down_in_loop force_closes force_closes_delayed force_closes_in_loop : Op
  starts_reading stops_reading established destroyed : Op
  reads : Readv → Op
  writes : WriteResult → Op

unfoldable pub step : TcpConnection → Op → Outcome
step c (sends in_loop message w) = send c in_loop message w
step c (sends_in_loop message w) = send_in_loop c message w
step c (shuts_down in_loop) = shutdown c in_loop
step c shuts_down_in_loop = shutdown_in_loop c
step c force_closes = force_close c
step c force_closes_delayed = force_close_with_delay c
step c force_closes_in_loop = force_close_in_loop c
step c starts_reading = start_read_in_loop c
step c stops_reading = stop_read_in_loop c
step c established = connect_established c
step c destroyed = connect_destroyed c
step c (reads r) = handle_read c r
step c (writes w) = handle_write c w

-- A history of calls, with all their effects; a failed assertion ends it.
unfoldable pub run : TcpConnection → List Op → Outcome
run c [] = ok (c, [])
run c (op ∷ ops) = step c op >>= λ r. run r.0 ops >>= λ s. ok (s.0, r.1 ++ s.1)

-- The order of the states.
abbrev pub rank : State → ℕ
rank connecting = 0
rank connected = 1
rank disconnecting = 2
rank disconnected = 3

-- How often the close callback was called.
unfoldable pub closes : List Effect → ℕ
closes [] = 0
closes (close_callback ∷ es) = suc (closes es)
closes (_ ∷ es) = closes es

-- 1 for a connection that is closed.
abbrev pub closed : TcpConnection → ℕ
closed c = rank c.state / 3

-- What one call may do: the state moves on or stays, and the close callback is called only on the
-- way into the last one.
pub record MovesOn (c : TcpConnection) (r : TcpConnection × List Effect) : Type 0 where
  pub forward : rank c.state ≤ rank r.0.state
  pub once : closes r.1 + closed c ≤ closed r.0

closes-append : (es fs : List Effect) → closes (es ++ fs) ≡ closes es + closes fs
unfolding closes
closes-append [] fs = omega arith
closes-append (close_callback ∷ es) fs = omega (arith, closes-append es fs)
closes-append (connection_callback ∷ es) fs = closes-append es fs
closes-append (message_callback ∷ es) fs = closes-append es fs
closes-append (queue_write_complete ∷ es) fs = closes-append es fs
closes-append (queue_force_close ∷ es) fs = closes-append es fs
closes-append (queue_shutdown ∷ es) fs = closes-append es fs
closes-append (queue_force_close_delayed ∷ es) fs = closes-append es fs
closes-append (queue_high_water_mark n ∷ es) fs = closes-append es fs
closes-append (queue_send m ∷ es) fs = closes-append es fs
closes-append (shutdown_write ∷ es) fs = closes-append es fs
closes-append (remove_channel ∷ es) fs = closes-append es fs
closes-append (log_error ∷ es) fs = closes-append es fs

module _ (c : TcpConnection) (r : TcpConnection × List Effect) where
  keep_rest-MovesOn :
      (rest : List ℕ) (effects : List Effect)
      → closes effects ≡ 0
      → keep_rest c rest effects ≡ ok r
      → MovesOn c r
  unfolding keep_rest closes
  keep_rest-MovesOn rest effects z e = ground (
    arith,
    closes-append effects
        (queue_high_water_mark (add_size (readable_bytes c.output_buffer) (length rest)) ∷ []),
  )

  after_write-MovesOn :
      (message : List ℕ) (w : WriteResult) → after_write c message w ≡ ok r → MovesOn c r
  unfolding after_write closes
  after_write-MovesOn message (wrote n) e = ground (
    arith,
    keep_rest-MovesOn (drop n message) (
        if sub_size (length message) n == 0 && c.write_complete_callback
        then queue_write_complete ∷ []
        else []),
  )
  after_write-MovesOn message (write_failed x) e = ground (arith, keep_rest-MovesOn message [])

  send_in_loop-MovesOn :
      (message : List ℕ) (w : WriteResult) → send_in_loop c message w ≡ ok r → MovesOn c r
  unfolding send_in_loop closes
  send_in_loop-MovesOn message w e =
      ground (arith, keep_rest-MovesOn message [], after_write-MovesOn message w)

  handle_close-MovesOn : handle_close c ≡ ok r → MovesOn c r
  unfolding handle_close closes
  handle_close-MovesOn e = ground arith

  shutdown_in_loop-MovesOn : shutdown_in_loop c ≡ ok r → MovesOn c r
  unfolding shutdown_in_loop closes
  shutdown_in_loop-MovesOn e = ground arith

  handle_write-MovesOn : (w : WriteResult) → handle_write c w ≡ ok r → MovesOn c r
  unfolding handle_write after_drain finish_drain shutdown_in_loop closes
  handle_write-MovesOn (wrote zero) e = ground arith
  handle_write-MovesOn (wrote (suc n)) e = ground arith
  handle_write-MovesOn (write_failed x) e = ground arith

  handle_read-MovesOn : (x : Readv) → handle_read c x ≡ ok r → MovesOn c r
  unfolding handle_read handle_close closes
  handle_read-MovesOn (failed n) e = ground arith
  handle_read-MovesOn (received []) e = ground arith
  handle_read-MovesOn (received (x ∷ xs)) e = ground arith

  step-MovesOn : (op : Op) → step c op ≡ ok r → MovesOn c r
  unfolding step send shutdown shutdown_in_loop force_close force_close_with_delay
      force_close_in_loop start_read_in_loop stop_read_in_loop connect_established connect_destroyed
      closes
  step-MovesOn (sends in_loop message w) e = ground (arith, send_in_loop-MovesOn message w)
  step-MovesOn (sends_in_loop message w) e = send_in_loop-MovesOn message w e
  step-MovesOn (shuts_down in_loop) e = ground arith
  step-MovesOn shuts_down_in_loop e = ground arith
  step-MovesOn force_closes e = ground arith
  step-MovesOn force_closes_delayed e = ground arith
  step-MovesOn force_closes_in_loop e = ground (arith, handle_close-MovesOn)
  step-MovesOn starts_reading e = ground arith
  step-MovesOn stops_reading e = ground arith
  step-MovesOn established e = ground arith
  step-MovesOn destroyed e = ground arith
  step-MovesOn (reads x) e = handle_read-MovesOn x e
  step-MovesOn (writes w) e = handle_write-MovesOn w e

-- Through any history the state only moves on, from connecting to connected, disconnecting and
-- disconnected, and the close callback is called at most once, and never on a connection that is
-- already closed.
pub run-MovesOn :
    (ops : List Op) (c : TcpConnection) (r : TcpConnection × List Effect)
    → run c ops ≡ ok r
    → MovesOn c r
unfolding run
run-MovesOn [] c r e = unfold closes in ground arith
run-MovesOn (op ∷ ops) c r e =
    let (first, f, g) = bind_ok (step c op) (λ x. run x.0 ops >>= λ s. ok (s.0, x.1 ++ s.1)) e in
    let (rest, h, k) = bind_ok (run first.0 ops) (λ s. ok (s.0, first.1 ++ s.1)) g in
    let a = step-MovesOn c first op f in
    let b = run-MovesOn ops first.0 rest h in ground (arith, a, b, k, closes-append first.1 rest.1)
