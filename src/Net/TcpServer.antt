-- ===== src/Net/TcpServer.antt =====
-- Net/TcpServer models the connections of class TcpServer (src/net/src/TcpServer.cc), over its pool of
-- loops (Net/LoopPool). A loop is the number of its address. What runs in the loop of a connection is
-- an effect; what the connection does then is in Net/TcpConnection.
pub mod Names
pub mod Map
pub mod Once
mod Tests
use dws.Base.Int.{pos}
use dws.Log.Stream.{convert}
use dws.Net.LoopPool.{LoopPool, get_next_loop, start as start_pool}
use dws.Base.{
  text_eq, ℕ, zero, suc, ◌+◌, List, [], ◌∷◌, ◌++◌, take, Bool, true, false, ◌||◌, if◌then◌else◌,
  Result, ok, ◌>>=◌, ◌>>◌, assert,
}

pub record Connection : Type 0 where
  pub name : List ℕ
  pub io_loop : ℕ
  pub socket : ℕ

pub data Effect : Type 0 where
  -- `connectEstablished` is run in the loop of the connection.
  establishes : Connection → Effect
  -- `connectDestroyed` is run in the loop of the connection.
  destroys : Connection → Effect

abbrev pub ConnectionMap : Type 0
ConnectionMap = List (List ℕ × Connection)

pub record TcpServer : Type 0 where
  pub name : List ℕ
  pub ip_port : List ℕ
  pub thread_pool : LoopPool
  pub started : Bool
  pub next_conn_id : ℕ
  pub connections : ConnectionMap

unfoldable pub init : List ℕ → List ℕ → LoopPool → TcpServer
init name ip_port thread_pool = record {
  name = name;
  ip_port = ip_port;
  thread_pool = thread_pool;
  started = false;
  next_conn_id = 1;
  connections = [];
}

-- `start`; the acceptor listens then. `start_loop` gives the loop that each thread starts.
unfoldable pub start : (ℕ → ℕ) → TcpServer → Result TcpServer
unfolding start_pool
start start_loop s = do
  pool ← start_pool s.thread_pool start_loop
  ok (record s { started = true; thread_pool = pool })

-- `snprintf` of "-%s#%d" into 64 bytes, behind the name of the server.
unfoldable pub conn_name : TcpServer → ℕ → List ℕ
unfolding convert
conn_name s id = s.name ++ take 63 (45 ∷ (s.ip_port ++ (35 ∷ convert (pos id))))

unfoldable pub has : List ℕ → ConnectionMap → Bool
has k [] = false
has k (e ∷ m) = text_eq e.0 k || has k m

unfoldable pub put : List ℕ → Connection → ConnectionMap → ConnectionMap
put k c [] = (k, c) ∷ []
put k c (e ∷ m) = if text_eq e.0 k then (k, c) ∷ m else e ∷ put k c m

unfoldable pub erase : List ℕ → ConnectionMap → ConnectionMap
erase k [] = []
erase k (e ∷ m) = if text_eq e.0 k then m else e ∷ erase k m

unfoldable pub new_connection : ℕ → TcpServer → Result (List Effect × TcpServer)
unfolding get_next_loop conn_name put
new_connection sockfd s = do
  (io_loop, pool) ← get_next_loop s.thread_pool
  let name = conn_name s s.next_conn_id
  let conn : Connection = record { name = name; io_loop = io_loop; socket = sockfd }
  ok (
    establishes conn ∷ [],
    record s {
      thread_pool = pool;
      next_conn_id = s.next_conn_id + 1;
      connections = put name conn s.connections;
    },
  )

unfoldable pub remove_connection_in_loop : Connection → TcpServer → Result (List Effect × TcpServer)
unfolding has erase
remove_connection_in_loop conn s = do
  assert (has conn.name s.connections)
  ok (destroys conn ∷ [], record s { connections = erase conn.name s.connections })

-- The destructor's loop.
unfoldable pub destroy : ConnectionMap → List Effect
destroy [] = []
destroy (e ∷ m) = destroys e.1 ∷ destroy m
