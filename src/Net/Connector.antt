-- ===== src/Net/Connector.antt =====
-- Net/Connector models class Connector (src/net/include/Connector.h, src/net/src/Connector.cc). What
-- it does to sockets, to its channel and to the loop is the list of effects of a call; results of
-- system calls are arguments.
pub mod Sockets
pub mod Backoff
mod Tests
use dws.Base.{
  ℕ, zero, suc, ◌*◌, List, [], ◌∷◌, Option, none, some, Bool, true, false, if◌then◌else◌, min, ltb,
  Result, ok, err, ◌>>=◌, ◌>>◌, assert, fatal, assertion,
}

pub data State : Type 0 where
  disconnected connecting connected : State

-- `channel` is the descriptor of the channel that `channel_` points to.
pub record Connector : Type 0 where
  pub connect : Bool
  pub state : State
  pub channel : Option ℕ
  pub retry_delay_ms : ℕ

abbrev pub max_retry_delay_ms : ℕ
max_retry_delay_ms = 30000

abbrev pub init_retry_delay_ms : ℕ
init_retry_delay_ms = 500

pub data Effect : Type 0 where
  opens closes hands_over : ℕ → Effect
  runs_after : ℕ → Effect
  queue_start queue_stop queue_reset enable_writing remove_channel : Effect

abbrev pub Outcome : Type 0
Outcome = Result (Connector × List Effect)

pub init : Connector
init = record {
  connect = false;
  state = disconnected;
  channel = none;
  retry_delay_ms = init_retry_delay_ms;
}

-- `errno` after connect(2), by the cases of the switch.
pub data ConnectResult : Type 0 where
  success in_progress interrupted is_connected : ConnectResult
  again address_in_use address_not_available refused unreachable : ConnectResult
  access not_permitted family already bad_descriptor fault not_socket : ConnectResult
  unexpected : ConnectResult

-- `retry`
pub retry : Connector → ℕ → Connector × List Effect
retry c sockfd =
    if c.connect
    then (
      record c {
        state = disconnected;
        retry_delay_ms = min (c.retry_delay_ms * 2) max_retry_delay_ms;
      },
      closes sockfd ∷ runs_after c.retry_delay_ms ∷ [],
    )
    else (record c { state = disconnected }, closes sockfd ∷ [])

-- `connecting`
pub connecting_on : Connector → ℕ → Outcome
connecting_on c sockfd = elim (c.channel) [
  | some fd ↦ err assertion
  | none ↦ ok (record c { state = connecting; channel = some sockfd }, enable_writing ∷ [])
]

abbrev with_first : Effect → Outcome → Outcome
with_first e (ok (c, es)) = ok (c, e ∷ es)
with_first e (err f) = err f

-- `connect`: a new socket, and what connect(2) says.
pub connect : Connector → ℕ → ConnectResult → Outcome
unfolding connecting_on retry
connect c sockfd success = with_first (opens sockfd) (connecting_on c sockfd)
connect c sockfd in_progress = with_first (opens sockfd) (connecting_on c sockfd)
connect c sockfd interrupted = with_first (opens sockfd) (connecting_on c sockfd)
connect c sockfd is_connected = with_first (opens sockfd) (connecting_on c sockfd)
connect c sockfd again = with_first (opens sockfd) (ok (retry c sockfd))
connect c sockfd address_in_use = with_first (opens sockfd) (ok (retry c sockfd))
connect c sockfd address_not_available = with_first (opens sockfd) (ok (retry c sockfd))
connect c sockfd refused = with_first (opens sockfd) (ok (retry c sockfd))
connect c sockfd unreachable = with_first (opens sockfd) (ok (retry c sockfd))
connect c sockfd _ = ok (c, opens sockfd ∷ closes sockfd ∷ [])

pub is_state : State → State → Bool
is_state disconnected disconnected = true
is_state connecting connecting = true
is_state connected connected = true
is_state _ _ = false

pub start_in_loop : Connector → ℕ → ConnectResult → Outcome
unfolding connect is_state
start_in_loop c sockfd r = do
  assert (is_state c.state disconnected)
  if c.connect then connect c sockfd r else ok (c, [])

-- `start`, in the loop's thread or from another.
pub start : Connector → Bool → ℕ → ConnectResult → Outcome
unfolding start_in_loop
start c in_loop sockfd r =
    let started : Connector = record c { connect = true } in
    if in_loop then start_in_loop started sockfd r else ok (started, queue_start ∷ [])

pub stop : Connector → Connector × List Effect
stop c = (record c { connect = false }, queue_stop ∷ [])

-- `removeAndResetChannel`, followed by what its caller does with the descriptor.
pub remove_and_reset_channel : Connector → (ℕ → Connector × List Effect) → Outcome
remove_and_reset_channel c next = elim (c.channel) [
  | none ↦ err fatal
  | some fd ↦ let (c', es) = next fd in ok (c', remove_channel ∷ queue_reset ∷ es)
]

pub stop_in_loop : Connector → Outcome
unfolding remove_and_reset_channel retry is_state
stop_in_loop c =
    if is_state c.state connecting
    then remove_and_reset_channel c (λ fd. retry (record c { state = disconnected }) fd)
    else ok (c, [])

-- The functor that `removeAndResetChannel` queues.
pub reset_channel : Connector → Connector
reset_channel c = record c { channel = none }

-- The connection is up.
pub finish : Connector → ℕ → Connector × List Effect
finish c fd =
    (record c { state = connected }, if c.connect then hands_over fd ∷ [] else closes fd ∷ [])

-- `handleWrite`, with what SO_ERROR and `isSelfConnect` say.
pub handle_write : Connector → ℕ → Bool → Outcome
unfolding remove_and_reset_channel retry finish is_state
handle_write c so_error self_connect =
    if is_state c.state connecting
    then remove_and_reset_channel c (λ fd.
      if ltb 0 so_error then retry c fd else if self_connect then retry c fd else finish c fd)
    else (assert (is_state c.state disconnected) >> ok (c, []))

pub handle_error : Connector → Outcome
unfolding remove_and_reset_channel retry is_state
handle_error c =
    if is_state c.state connecting
    then remove_and_reset_channel c (λ fd. retry c fd)
    else ok (c, [])

pub restart : Connector → ℕ → ConnectResult → Outcome
unfolding start_in_loop
restart c sockfd r =
    start_in_loop
      (record c { state = disconnected; retry_delay_ms = init_retry_delay_ms; connect = true })
      sockfd r
