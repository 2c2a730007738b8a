-- ===== src/Net/TcpClient.antt =====
-- Net/TcpClient models class TcpClient (src/net/src/TcpClient.cc), with the end of
-- TcpConnection::handleClose (src/net/src/TcpConnection.cc), which calls the client back. What it asks
-- of its Connector and of its connection is an effect. A functor that captures a `TcpConnectionPtr` by
-- reference holds the number of the frame in which that pointer lives.
pub mod Close
mod Tests
use dws.Base.{
  ℕ, ◌+◌, List, [], ◌∷◌, ◌++◌, Option, none, some, Bool, true, false, ◌&&◌, if◌then◌else◌, ◌==◌,
  take, Result, ok, err, ◌>>=◌, ◌>>◌, assert, dangling,
}
use dws.Base.Int.{pos}
use dws.Log.Stream.{convert}

-- `id` is its address.
pub record Connection : Type 0 where
  pub id : ℕ
  pub name : List ℕ
  pub socket : ℕ

pub data Effect : Type 0 where
  -- `start`, `stop` and `restart` of the connector.
  starts : Effect
  stops : Effect
  restarts : Effect
  -- Calls of the connection.
  establishes : Connection → Effect
  destroys : Connection → Effect
  shuts_down : Connection → Effect
  forces_close : Connection → Effect
  sets_close_callback : Connection → Effect
  -- The same from another thread: a functor that refers to locals of the destructor is queued.
  queues_close_callback : Connection → Effect
  -- The connector is kept for a second more.
  keeps_connector : Effect

-- `frames` has the live pointers that a call has on its stack, `pending` the frames that the functors
-- in the loop refer to.
pub record TcpClient : Type 0 where
  pub name : List ℕ
  pub retry : Bool
  pub connect_flag : Bool
  pub next_conn_id : ℕ
  pub connection : Option Connection
  pub frames : List (ℕ × Connection)
  pub next_frame : ℕ
  pub pending : List ℕ

unfoldable pub init : List ℕ → TcpClient
init name = record {
  name = name;
  retry = false;
  connect_flag = true;
  next_conn_id = 1;
  connection = none;
  frames = [];
  next_frame = 0;
  pending = [];
}

unfoldable pub enable_retry : TcpClient → TcpClient
enable_retry s = record s { retry = true }

unfoldable pub connect : TcpClient → List Effect × TcpClient
connect s = (starts ∷ [], record s { connect_flag = true })

unfoldable pub disconnect : TcpClient → List Effect × TcpClient
disconnect s = (
  elim s.connection [ none ↦ [] | some conn ↦ shuts_down conn ∷ [] ],
  record s { connect_flag = false },
)

unfoldable pub stop : TcpClient → List Effect × TcpClient
stop s = (stops ∷ [], record s { connect_flag = false })

-- `snprintf` of ":%s#%d" into 32 bytes, behind the name of the client.
unfoldable pub conn_name : List ℕ → List ℕ → ℕ → List ℕ
conn_name name peer id = name ++ take 31 (58 ∷ (peer ++ 35 ∷ convert (pos id)))

-- `id` is the address of the new connection, `peer` the text of the peer's address.
unfoldable pub new_connection : ℕ → ℕ → List ℕ → TcpClient → List Effect × TcpClient
unfolding conn_name
new_connection id sockfd peer s =
    let conn : Connection = record {
      id = id;
      name = conn_name s.name peer s.next_conn_id;
      socket = sockfd;
    } in
    (establishes conn ∷ [], record s { next_conn_id = s.next_conn_id + 1; connection = some conn })

-- The pointer in a frame.
unfoldable pub read_frame : ℕ → List (ℕ × Connection) → Result Connection
read_frame f [] = err dangling
read_frame f (e ∷ es) = if e.0 == f then ok e.1 else read_frame f es

unfoldable pub is_current : Connection → Option Connection → Bool
is_current conn none = false
is_current conn (some c) = c.id == conn.id

-- `conn` is the pointer in frame `f`.
unfoldable pub remove_connection : ℕ → TcpClient → Result (List Effect × TcpClient)
unfolding read_frame is_current
remove_connection f s = do
  conn ← read_frame f s.frames
  assert (is_current conn s.connection)
  ok (
    if s.retry && s.connect_flag then restarts ∷ [] else [],
    record s { connection = none; pending = s.pending ++ f ∷ [] },
  )

-- `guardThis` lives while the callback runs.
unfoldable pub handle_close : Connection → TcpClient → Result (List Effect × TcpClient)
unfolding remove_connection
handle_close conn s = do
  (es, s') ←
      remove_connection s.next_frame
        (record s { frames = (s.next_frame, conn) ∷ s.frames; next_frame = s.next_frame + 1 })
  ok (es, record s' { frames = s.frames })

-- The functors that `removeConnection` has queued, when the loop calls them.
unfoldable pub call_functors : List ℕ → List (ℕ × Connection) → Result (List Effect)
unfolding read_frame
call_functors [] frames = ok []
call_functors (f ∷ fs) frames = do
  conn ← read_frame f frames
  es ← call_functors fs frames
  ok (destroys conn ∷ es)

unfoldable pub run_pending : TcpClient → Result (List Effect × TcpClient)
unfolding call_functors
run_pending s = do es ← call_functors s.pending s.frames; ok (es, record s { pending = [] })

-- The destructor: whether the connector has no other owner, and whether it runs in the loop's thread.
unfoldable pub destroy : Bool → Bool → TcpClient → List Effect
destroy unique in_loop s = elim s.connection [
  | none ↦ stops ∷ keeps_connector ∷ []
  | some conn ↦
      (if in_loop then sets_close_callback conn else queues_close_callback conn)
      ∷ (if unique then forces_close conn ∷ [] else [])
]
