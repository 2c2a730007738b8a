-- ===== src/Net/TcpClient/Tests.antt =====
-- TcpClient (src/net/src/TcpClient.cc) on concrete inputs.
use dws.Base.{◌≡◌, refl, [], ◌∷◌, none, some, true, false, ok, err, dangling, Returns, replicate}
use dws.Log.Stream.{convert, convert_loop, is_zero, is_negative, digit}
use dws.Net.TcpClient.{
  Connection, establishes, restarts, sets_close_callback, TcpClient, init, enable_retry,
  new_connection, conn_name, handle_close, run_pending, destroy,
}
use dws.Net.TcpClient.Close.{
  History, begun, retrying, accepted, has_destroys, History-never_destroys,
}

-- The client "c", with retries.
abbrev client : TcpClient
unfolding init enable_retry
client = enable_retry (init (99 ∷ []))

-- "c:p#1"
abbrev first : Connection
first = record { id = 5; name = 99 ∷ 58 ∷ 112 ∷ 35 ∷ 49 ∷ []; socket = 7 }

abbrev open_client : TcpClient
open_client = record client { next_conn_id = 2; connection = some first }

first_accepted : new_connection 5 7 (112 ∷ []) client ≡ (establishes first ∷ [], open_client)
unfolding new_connection convert convert_loop is_zero is_negative digit init enable_retry
first_accepted = refl

open_history : History (establishes first ∷ []) open_client
unfolding new_connection convert convert_loop is_zero is_negative digit init enable_retry
open_history = accepted {es = []} 5 7 (112 ∷ []) (retrying (begun (99 ∷ [])))

History-never_destroys_example :
    (has_destroys (establishes first ∷ []) ≡ false)
    × Returns
        (handle_close first open_client)
        (λ r. (r.1.connection ≡ none) × (run_pending r.1 ≡ err dangling))
History-never_destroys_example = History-never_destroys first open_history refl

closed_restarts :
    handle_close first open_client
    ≡ ok (restarts ∷ [], record open_client { connection = none; next_frame = 1; pending = 0 ∷ [] })
unfolding handle_close init enable_retry
closed_restarts = refl

destroyed_in_loop : destroy false true open_client ≡ sets_close_callback first ∷ []
unfolding destroy
destroyed_in_loop = refl

-- The name is cut before the number where the peer's address has 30 characters.
names_repeat : conn_name (99 ∷ []) (replicate 30 97) 1 ≡ conn_name (99 ∷ []) (replicate 30 97) 2
unfolding conn_name
names_repeat = refl
