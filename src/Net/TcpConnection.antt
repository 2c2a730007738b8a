-- ===== src/Net/TcpConnection.antt =====
-- Net/TcpConnection models class TcpConnection (src/net/src/TcpConnection.cc). What the connection
-- asks of others, callbacks and functors included, is the list of effects that a call returns. What
-- a system call returns is an argument of the call that makes it.
pub mod Send
pub mod Write
pub mod Life
mod Tests
use dws.Base.{
  ℕ, zero, suc, ◌*◌, List, [], ◌∷◌, ◌++◌, length, drop, Bool, true, false, ◌&&◌, ◌||◌, not,
  if◌then◌else◌, ◌==◌, ltb, leb, add_size, sub_size, Result, ok, ◌>>=◌, ◌>>◌, assert,
}
use dws.Net.Channel.{
  Channel, is_none_event, is_writing, is_reading, enable_reading, disable_reading, enable_writing,
  disable_writing, disable_all,
}
use dws.Net.Channel as ChannelOps
use dws.Net.Buffer.{Buffer, readable_bytes, append, retrieve}
use dws.Net.Buffer as BufferOps
use dws.Net.Buffer.ReadFd.{Readv, failed, received, read_fd}

-- `StateE`
pub data State : Type 0 where
  disconnected connecting connected disconnecting : State

pub record TcpConnection : Type 0 where
  pub state : State
  pub reading : Bool
  pub channel : Channel
  pub input_buffer : Buffer
  pub output_buffer : Buffer
  pub high_water_mark : ℕ
  -- Whether the callback is set.
  pub write_complete_callback : Bool
  pub high_water_mark_callback : Bool

pub data Effect : Type 0 where
  -- callbacks that are called at once
  connection_callback message_callback close_callback : Effect
  -- functors that are queued in the loop
  queue_write_complete queue_force_close queue_shutdown queue_force_close_delayed : Effect
  queue_high_water_mark : ℕ → Effect
  queue_send : List ℕ → Effect
  -- calls on the socket and the channel
  shutdown_write remove_channel log_error : Effect

-- The outcome of write(2).
pub data Errno : Type 0 where
  would_block broken_pipe connection_reset other : Errno

pub data WriteResult : Type 0 where
  wrote : ℕ → WriteResult
  write_failed : Errno → WriteResult

abbrev pub Outcome : Type 0
Outcome = Result (TcpConnection × List Effect)

-- The constructor, for a connected socket.
pub init : ℕ → TcpConnection
unfolding ChannelOps.init BufferOps.init
init sockfd = record {
  state = connecting;
  reading = true;
  channel = record (ChannelOps.init sockfd) { tied = false };
  input_buffer = BufferOps.init BufferOps.initial_size;
  output_buffer = BufferOps.init BufferOps.initial_size;
  high_water_mark = 64 * 1024 * 1024;
  write_complete_callback = false;
  high_water_mark_callback = false;
}

-- `errno == EPIPE || errno == ECONNRESET`
abbrev pub is_fault : Errno → Bool
is_fault broken_pipe = true
is_fault connection_reset = true
is_fault would_block = false
is_fault other = false

-- The second half of `sendInLoop`: `rest` is what write(2) has left of the message.
pub keep_rest : TcpConnection → List ℕ → List Effect → Outcome
unfolding enable_writing
keep_rest c rest effects =
    let old_len = readable_bytes c.output_buffer in
    let size = add_size old_len (length rest) in
    let keep = append c.output_buffer rest >>= λ b. ok (
      record c {
        output_buffer = b;
        channel = if is_writing c.channel then c.channel else enable_writing c.channel;
      },
      effects ++ queue_high_water_mark size ∷ [],
    ) in
    if ltb 0 (length rest)
      && (leb c.high_water_mark size && ltb old_len c.high_water_mark && c.high_water_mark_callback)
    then keep
    else ok (c, effects)

-- After a direct write.
pub after_write : TcpConnection → List ℕ → WriteResult → Outcome
unfolding keep_rest
after_write c message (wrote n) = do
  assert (leb (sub_size (length message) n) (length message))
  keep_rest c (drop n message) (
      if sub_size (length message) n == 0 && c.write_complete_callback
      then queue_write_complete ∷ []
      else [])
after_write c message (write_failed e) = if is_fault e then ok (c, []) else keep_rest c message []

pub is_disconnected : State → Bool
is_disconnected disconnected = true
is_disconnected _ = false

pub is_connected : State → Bool
is_connected connected = true
is_connected _ = false

pub is_disconnecting : State → Bool
is_disconnecting disconnecting = true
is_disconnecting _ = false

pub is_connecting : State → Bool
is_connecting connecting = true
is_connecting _ = false

-- `sendInLoop`; `w` is what write(2) returns, if it is called.
pub send_in_loop : TcpConnection → List ℕ → WriteResult → Outcome
unfolding after_write keep_rest is_disconnected
send_in_loop c message w =
    if is_disconnected c.state
    then ok (c, [])
    else if not (is_writing c.channel) && readable_bytes c.output_buffer == 0
    then after_write c message w
    else keep_rest c message []

-- `send`, in the loop's thread or from another.
pub send : TcpConnection → Bool → List ℕ → WriteResult → Outcome
unfolding send_in_loop is_connected
send c in_loop message w =
    if is_connected c.state
    then (if in_loop then send_in_loop c message w else ok (c, queue_send message ∷ []))
    else ok (c, [])

pub shutdown_in_loop : TcpConnection → Outcome
shutdown_in_loop c = ok (c, if is_writing c.channel then [] else shutdown_write ∷ [])

pub shutdown : TcpConnection → Bool → Outcome
unfolding shutdown_in_loop is_connected
shutdown c in_loop =
    if is_connected c.state
    then (if in_loop
        then shutdown_in_loop (record c { state = disconnecting })
        else ok (record c { state = disconnecting }, queue_shutdown ∷ []))
    else ok (c, [])

-- `state_ == kConnected || state_ == kDisconnecting`
abbrev pub is_open : State → Bool
is_open connected = true
is_open disconnecting = true
is_open connecting = false
is_open disconnected = false

pub force_close : TcpConnection → Outcome
force_close c =
    if is_open c.state
    then ok (record c { state = disconnecting }, queue_force_close ∷ [])
    else ok (c, [])

pub force_close_with_delay : TcpConnection → Outcome
force_close_with_delay c =
    if is_open c.state
    then ok (record c { state = disconnecting }, queue_force_close_delayed ∷ [])
    else ok (c, [])

pub handle_close : TcpConnection → Outcome
unfolding disable_all
handle_close c = do
  assert (is_open c.state)
  ok (
    record c { state = disconnected; channel = disable_all c.channel },
    connection_callback ∷ close_callback ∷ [],
  )

pub force_close_in_loop : TcpConnection → Outcome
unfolding handle_close
force_close_in_loop c = if is_open c.state then handle_close c else ok (c, [])

pub start_read_in_loop : TcpConnection → Outcome
unfolding enable_reading
start_read_in_loop c =
    if not c.reading || not (is_reading c.channel)
    then ok (record c { channel = enable_reading c.channel; reading = true }, [])
    else ok (c, [])

pub stop_read_in_loop : TcpConnection → Outcome
unfolding disable_reading
stop_read_in_loop c =
    if c.reading || is_reading c.channel
    then ok (record c { channel = disable_reading c.channel; reading = false }, [])
    else ok (c, [])

pub connect_established : TcpConnection → Outcome
unfolding enable_reading is_connecting
connect_established c = do
  assert (is_connecting c.state)
  ok (
    record c { state = connected; channel = enable_reading (record (c.channel) { tied = true }) },
    connection_callback ∷ [],
  )

-- `Channel::remove` asserts that the channel waits for no event.
pub connect_destroyed : TcpConnection → Outcome
unfolding disable_all is_connected
connect_destroyed c =
    if is_connected c.state
    then ok (
      record c { state = disconnected; channel = disable_all c.channel },
      connection_callback ∷ remove_channel ∷ [],
    )
    else (assert (is_none_event c.channel) >> ok (c, remove_channel ∷ []))

-- `handleRead`, on what readv(2) gives: nothing where the peer has closed.
pub handle_read : TcpConnection → Readv → Outcome
unfolding handle_close
handle_read c (failed errno) = ok (c, log_error ∷ [])
handle_read c (received []) = handle_close c
handle_read c (received (x ∷ xs)) = do
  b ← read_fd c.input_buffer (received (x ∷ xs))
  ok (record c { input_buffer = b }, message_callback ∷ [])

-- `handleWrite` once the output buffer has become empty, which is then `b`.
pub finish_drain : TcpConnection → Buffer → Outcome
unfolding disable_writing shutdown_in_loop is_disconnecting
finish_drain c b = do
  let idle = record c { output_buffer = b; channel = disable_writing c.channel }
  let completes = if c.write_complete_callback then queue_write_complete ∷ [] else []
  r ← if is_disconnecting c.state then shutdown_in_loop idle else ok (idle, [])
  ok (r.0, completes ++ r.1)

-- `handleWrite` once `n > 0` bytes are written.
pub after_drain : TcpConnection → ℕ → Outcome
unfolding finish_drain
after_drain c n = do
  b ← retrieve c.output_buffer n
  if readable_bytes b == 0 then finish_drain c b else ok (record c { output_buffer = b }, [])

pub handle_write : TcpConnection → WriteResult → Outcome
unfolding after_drain
handle_write c (wrote zero) = ok (c, if is_writing c.channel then log_error ∷ [] else [])
handle_write c (wrote (suc n)) = if is_writing c.channel then after_drain c (suc n) else ok (c, [])
handle_write c (write_failed e) = ok (c, if is_writing c.channel then log_error ∷ [] else [])
