-- ===== src/Net/TcpConnection/Tests.antt =====
-- A connection through its life, with messages that write(2) takes only in part.
use dws.Base.{
  Returns, ◌*◌, ◌≡◌, refl, arith, List, [], ◌∷◌, true, false, replicate, inl, Result, ok, err,
}
use dws.Net.Channel.{Channel, is_writing, enable_reading, disable_all}
use dws.Base.Int.{negsuc}
use dws.Net.Channel as ChannelOps
use dws.Net.Buffer.Inv.{Holds}
use dws.Net.Buffer.ReadFd.{received}
use dws.Net.TcpConnection.{
  TcpConnection, connecting, connected, disconnecting, Effect, queue_write_complete, shutdown_write,
  wrote, send_in_loop, shutdown, force_close, shutdown_in_loop, handle_close, force_close_in_loop,
  connect_established, connect_destroyed, handle_read, handle_write, is_disconnecting, is_connected,
  is_connecting,
}
use dws.Net.TcpConnection.Send.{send_in_loop-Below}
use dws.Net.TcpConnection.Write.{handle_write_lem}
use dws.Net.TcpConnection.Life.{
  Op, shuts_down, shuts_down_in_loop, established, destroyed, reads, force_closes,
  force_closes_in_loop, step, run, MovesOn, run-MovesOn,
}

abbrev made : TcpConnection
made = record {
  state = connecting;
  reading = true;
  channel = record {
    fd = 5;
    events = ChannelOps.none_event;
    revents = ChannelOps.none_event;
    index = negsuc 0;
    tied = false;
    event_handling = false;
    added_to_loop = false;
  };
  input_buffer = record { buffer = replicate 12 0; reader_index = 8; writer_index = 8 };
  output_buffer = record { buffer = replicate 12 0; reader_index = 8; writer_index = 8 };
  high_water_mark = 64 * 1024 * 1024;
  write_complete_callback = true;
  high_water_mark_callback = false;
}

-- The peer closes, and a close that was queued meanwhile comes too late.
abbrev history : List Op
history =
    established
    ∷ shuts_down false
    ∷ shuts_down_in_loop
    ∷ force_closes
    ∷ reads (received [])
    ∷ force_closes_in_loop
    ∷ destroyed
    ∷ []

abbrev value {ℓ} : {A : Type ℓ} → Result A → A → A
value (ok a) d = a
value (err e) d = d

abbrev final : TcpConnection × List Effect
final = value (run made history) (made, [])

history_runs : run made history ≡ ok final
unfolding run step connect_established shutdown shutdown_in_loop force_close handle_read
    handle_close force_close_in_loop connect_destroyed enable_reading disable_all is_connected
    is_connecting
history_runs = refl

run-MovesOn_example : MovesOn made final
run-MovesOn_example = run-MovesOn history made final history_runs

-- Three bytes wait in the output buffer of a connection that is being shut down.
abbrev sending : TcpConnection
sending = record made {
  state = disconnecting;
  channel = record (made.channel) { events = record ChannelOps.none_event { pollout = true } };
  output_buffer = record {
    buffer = 0 ∷ 0 ∷ 0 ∷ 0 ∷ 0 ∷ 0 ∷ 0 ∷ 0 ∷ 97 ∷ 98 ∷ 99 ∷ 0 ∷ [];
    reader_index = 8;
    writer_index = 11;
  };
}

handle_write_lem_example : Returns (handle_write sending (wrote 3)) (λ r.
    Holds [] r.0.output_buffer
    × (is_writing r.0.channel ≡ false)
    × (r.1 ≡ queue_write_complete ∷ shutdown_write ∷ []))
unfolding is_disconnecting
handle_write_lem_example = handle_write_lem sending 3 (omega arith) refl (omega arith) (omega arith)

send_in_loop-Below_example :
    Returns
      (send_in_loop (record made { state = connected }) (97 ∷ 98 ∷ 99 ∷ []) (wrote 1))
      (λ r. r.0 ≡ record made { state = connected })
send_in_loop-Below_example =
    send_in_loop-Below (record made { state = connected }) (97 ∷ 98 ∷ 99 ∷ []) (wrote 1)
      (omega arith) (omega arith) (inl refl)
