-- ===== src/Net/TcpServer/Tests.antt =====
-- TcpServer (src/net/src/TcpServer.cc) on concrete inputs.
use dws.Net.LoopPool.{LoopPool}
use dws.Net.TcpServer.{
  Connection, Effect, establishes, destroys, TcpServer, init, start, new_connection,
  remove_connection_in_loop, destroy,
}
use dws.Net.TcpServer.Map.{present, established, destroyed}
use dws.Net.TcpServer.Once.{History, begun, accepted, History-once}
use dws.Log.Stream.{convert_loop, is_zero, is_negative, digit}
use dws.Base.{text_eq, ℕ, ◌+◌, ◌≤◌, ◌≡◌, refl, arith, List, [], ◌∷◌, ◌++◌, true, false, ok}

abbrev pool : LoopPool
pool = record { base_loop = 10; started = false; num_threads = 2; next = 0; loops = [] }

abbrev loops : ℕ → ℕ
loops i = 20 + i

-- The server "s" at "a", with loops 20 and 21.
abbrev server : TcpServer
server = record {
  name = 115 ∷ [];
  ip_port = 97 ∷ [];
  thread_pool = record pool { started = true; loops = 20 ∷ 21 ∷ [] };
  started = true;
  next_conn_id = 1;
  connections = [];
}

server_starts : start loops (init (115 ∷ []) (97 ∷ []) pool) ≡ ok server
unfolding start init
server_starts = refl

-- "s-a#1"
abbrev first : Connection
first = record { name = 115 ∷ 45 ∷ 97 ∷ 35 ∷ 49 ∷ []; io_loop = 20; socket = 7 }

abbrev one_connection : TcpServer
one_connection = record server {
  thread_pool = record pool { started = true; next = 1; loops = 20 ∷ 21 ∷ [] };
  next_conn_id = 2;
  connections = (115 ∷ 45 ∷ 97 ∷ 35 ∷ 49 ∷ [], first) ∷ [];
}

first_accepted : new_connection 7 server ≡ ok (establishes first ∷ [], one_connection)
unfolding new_connection convert_loop is_zero is_negative digit
first_accepted = refl

one_history : History (establishes first ∷ []) one_connection
one_history =
    accepted {es = []} 7 (begun (115 ∷ []) (97 ∷ []) pool loops (omega arith) refl server_starts)
      (omega arith) first_accepted

History-once_example :
    (established first.name (establishes first ∷ []) ≤ 1)
    × (established first.name (establishes first ∷ [])
        ≡ destroyed first.name (establishes first ∷ [])
          + present first.name one_connection.connections)
    × (established first.name (establishes first ∷ [])
        ≡ destroyed first.name (establishes first ∷ [] ++ destroy one_connection.connections))
    × ((r : List Effect × TcpServer) × (new_connection 8 one_connection ≡ ok r))
History-once_example = History-once one_history first.name 8 (omega arith)

-- The connection goes, and its name is not used again.
first_removed :
    remove_connection_in_loop first one_connection
    ≡ ok (destroys first ∷ [], record one_connection { connections = [] })
unfolding remove_connection_in_loop text_eq
first_removed = refl
