-- ===== src/Net/Acceptor.antt =====
-- Net/Acceptor models class Acceptor (src/net/src/Acceptor.cc) and sockets::accept
-- (src/net/src/SocketsOps.cc). What accept(2) and open(2) give are arguments, and what is done to
-- descriptors is a list of effects.
mod Balance
mod Tests
use dws.Base.{
  ℕ, zero, suc, List, [], ◌∷◌, ◌++◌, Option, none, some, Bool, true, false, if◌then◌else◌, Result,
  ok, err, ◌>>=◌, ◌>>◌, fatal, assertion,
}

-- The errors of accept(2) that are expected, and all others.
pub data Errno : Type 0 where
  eagain econnaborted eintr eproto eperm emfile unexpected : Errno

pub data Accepted : Type 0 where
  connection : ℕ → Accepted
  failed : Errno → Accepted

pub data Effect : Type 0 where
  -- a call gave this descriptor
  opens : ℕ → Effect
  closes : ℕ → Effect
  -- the callback has it
  hands_over : ℕ → Effect

pub record Acceptor : Type 0 where
  pub listening : Bool
  pub reading : Bool
  pub new_connection_callback : Bool
  pub idle_fd : Option ℕ

unfoldable pub is_expected : Errno → Bool
is_expected unexpected = false
is_expected eagain = true
is_expected econnaborted = true
is_expected eintr = true
is_expected eproto = true
is_expected eperm = true
is_expected emfile = true

unfoldable pub is_emfile : Errno → Bool
is_emfile emfile = true
is_emfile eagain = false
is_emfile econnaborted = false
is_emfile eintr = false
is_emfile eproto = false
is_emfile eperm = false
is_emfile unexpected = false

-- `sockets::accept`: an unexpected error ends the process.
unfoldable pub accept_socket : Accepted → Result Accepted
unfolding is_expected
accept_socket (connection fd) = ok (connection fd)
accept_socket (failed e) = if is_expected e then ok (failed e) else err fatal

-- The constructor; the idle descriptor must be there.
unfoldable pub init : Option ℕ → Result (List Effect × Acceptor)
init none = err assertion
init (some fd) = ok (
  opens fd ∷ [],
  record { listening = false; reading = false; new_connection_callback = false; idle_fd = some fd },
)

unfoldable pub listen : Acceptor → Acceptor
listen a = record a { listening = true; reading = true }

unfoldable pub close_fd : Option ℕ → List Effect
close_fd none = []
close_fd (some fd) = closes fd ∷ []

unfoldable pub open_fd : Option ℕ → List Effect
open_fd none = []
open_fd (some fd) = opens fd ∷ []

-- The idle descriptor makes room to take the connection that waits, and to close it.
unfoldable pub drain : Option ℕ → Option ℕ → Acceptor → List Effect × Acceptor
unfolding close_fd open_fd
drain pending reopened a = (
  close_fd a.idle_fd ++ (open_fd pending ++ (close_fd pending ++ open_fd reopened)),
  record a { idle_fd = reopened },
)

-- `handleRead` with the result of its accept; `pending` and `reopened` are what the second accept and
-- open give, if there are no descriptors left.
unfoldable pub handle_read :
    Accepted → Option ℕ → Option ℕ → Acceptor → Result (List Effect × Acceptor)
unfolding accept_socket is_emfile drain
handle_read accepted pending reopened a = accept_socket accepted >>= λ outcome. elim outcome [
  | connection fd ↦
      ok (opens fd ∷ (if a.new_connection_callback then hands_over fd else closes fd) ∷ [], a)
  | failed e ↦ ok (if is_emfile e then drain pending reopened a else ([], a))
]

-- The destructor.
unfoldable pub destroy : Acceptor → List Effect
unfolding close_fd
destroy a = close_fd a.idle_fd
