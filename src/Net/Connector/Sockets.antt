-- ===== src/Net/Connector/Sockets.antt =====
-- The account of the sockets of a Connector, descriptor by descriptor.
use dws.Base.{
  if◌then◌else◌, ◌==◌, Option, none, some, err, ℕ, ◌+◌, ◌≡◌, arith, List, [], ◌∷◌, ◌++◌, Bool, true,
  false, ok, ◌>>=◌, bind_ok,
}
use dws.Net.Connector.{
  Connector, disconnected, connecting, Effect, opens, closes, hands_over, runs_after, queue_start,
  queue_stop, queue_reset, enable_writing, remove_channel, Outcome, ConnectResult, success, retry,
  connecting_on, connect, is_state, start_in_loop, start, stop, remove_and_reset_channel,
  stop_in_loop, reset_channel, finish, handle_write, handle_error, restart,
}

-- How often descriptor `d` was opened, and how often it was closed or handed over.
pub opened : ℕ → List Effect → ℕ
opened d [] = 0
opened d (opens fd ∷ es) = (if fd == d then 1 else 0) + opened d es
opened d (_ ∷ es) = opened d es

pub released : ℕ → List Effect → ℕ
released d [] = 0
released d (closes fd ∷ es) = (if fd == d then 1 else 0) + released d es
released d (hands_over fd ∷ es) = (if fd == d then 1 else 0) + released d es
released d (_ ∷ es) = released d es

abbrev pub counts : ℕ → Option ℕ → ℕ
counts d none = 0
counts d (some fd) = if fd == d then 1 else 0

-- 1 for the descriptor of an attempt under way.
abbrev pub held : ℕ → Connector → ℕ
held d c = elim (c.state) [ connecting ↦ counts d c.channel | _ ↦ 0 ]

abbrev pub Balanced : ℕ → Connector → Connector × List Effect → Type 0
Balanced d c r = held d c + opened d r.1 ≡ held d r.0 + released d r.1

module _ (d : ℕ) (c : Connector) (r : Connector × List Effect) where
  start_in_loop-Balanced :
      (sockfd : ℕ) (x : ConnectResult) → start_in_loop c sockfd x ≡ ok r → Balanced d c r
  unfolding start_in_loop connect connecting_on retry is_state opened released
  start_in_loop-Balanced sockfd success e = ground arith
  start_in_loop-Balanced sockfd x e = ground arith

  handle_write-Balanced :
      (so_error : ℕ) (self_connect : Bool)
      → handle_write c so_error self_connect ≡ ok r
      → Balanced d c r
  unfolding handle_write remove_and_reset_channel retry finish is_state opened released
  handle_write-Balanced so_error self_connect e = ground arith

  handle_error-Balanced : handle_error c ≡ ok r → Balanced d c r
  unfolding handle_error remove_and_reset_channel retry is_state opened released
  handle_error-Balanced e = ground arith

  stop_in_loop-Balanced : stop_in_loop c ≡ ok r → Balanced d c r
  unfolding stop_in_loop remove_and_reset_channel retry is_state opened released
  stop_in_loop-Balanced e = ground arith

-- The calls of the owner and the loop, and the events of the channel.
pub data Op : Type 0 where
  starts : Bool → ℕ → ConnectResult → Op
  starts_in_loop restarts : ℕ → ConnectResult → Op
  stops stops_in_loop resets fails : Op
  writes : ℕ → Bool → Op

unfoldable pub step : Connector → Op → Outcome
step c (starts in_loop sockfd x) = start c in_loop sockfd x
step c (starts_in_loop sockfd x) = start_in_loop c sockfd x
step c (restarts sockfd x) = restart c sockfd x
step c stops = ok (stop c)
step c stops_in_loop = stop_in_loop c
step c resets = ok (reset_channel c, [])
step c fails = handle_error c
step c (writes so_error self_connect) = handle_write c so_error self_connect

-- A history, with its effects; a failed assertion ends it.
unfoldable pub run : Connector → List Op → Outcome
run c [] = ok (c, [])
run c (op ∷ ops) = step c op >>= λ r. run r.0 ops >>= λ s. ok (s.0, r.1 ++ s.1)

-- `restart` is only called when no attempt is under way: the client calls it for a connection that
-- was handed over to it, and is now down. Nor does the functor that `removeAndResetChannel` queues
-- come after the start of the next attempt: `connecting` asserts that the channel has been reset.
unfoldable pub Allowed : Connector → Op → Type 0
Allowed c (restarts sockfd x) = is_state c.state connecting ≡ false
Allowed c resets = is_state c.state connecting ≡ false
Allowed c (starts in_loop sockfd x) = Unit
Allowed c (starts_in_loop sockfd x) = Unit
Allowed c stops = Unit
Allowed c stops_in_loop = Unit
Allowed c fails = Unit
Allowed c (writes so_error self_connect) = Unit

unfoldable pub After : (Connector → Type 0) → Outcome → Type 0
After next (ok r) = next r.0
After next (err fault) = Unit

unfoldable pub IsOrderly : Connector → List Op → Type 0
unfolding Allowed After step
IsOrderly c [] = Unit
IsOrderly c (op ∷ ops) = Allowed c op × After (λ c'. IsOrderly c' ops) (step c op)

opened-append : (d : ℕ) (es fs : List Effect) → opened d (es ++ fs) ≡ opened d es + opened d fs
unfolding opened
opened-append d [] fs = omega arith
opened-append d (opens n ∷ es) fs = omega (arith, opened-append d es fs)
opened-append d (closes n ∷ es) fs = opened-append d es fs
opened-append d (hands_over n ∷ es) fs = opened-append d es fs
opened-append d (runs_after n ∷ es) fs = opened-append d es fs
opened-append d (queue_start ∷ es) fs = opened-append d es fs
opened-append d (queue_stop ∷ es) fs = opened-append d es fs
opened-append d (queue_reset ∷ es) fs = opened-append d es fs
opened-append d (enable_writing ∷ es) fs = opened-append d es fs
opened-append d (remove_channel ∷ es) fs = opened-append d es fs

released-append :
    (d : ℕ) (es fs : List Effect) → released d (es ++ fs) ≡ released d es + released d fs
unfolding released
released-append d [] fs = omega arith
released-append d (opens n ∷ es) fs = released-append d es fs
released-append d (closes n ∷ es) fs = omega (arith, released-append d es fs)
released-append d (hands_over n ∷ es) fs = omega (arith, released-append d es fs)
released-append d (runs_after n ∷ es) fs = released-append d es fs
released-append d (queue_start ∷ es) fs = released-append d es fs
released-append d (queue_stop ∷ es) fs = released-append d es fs
released-append d (queue_reset ∷ es) fs = released-append d es fs
released-append d (enable_writing ∷ es) fs = released-append d es fs
released-append d (remove_channel ∷ es) fs = released-append d es fs

-- One call that is allowed keeps the account of each descriptor.
pub step-Balanced :
    (d : ℕ) (c : Connector) (op : Op) (r : Connector × List Effect)
    → Allowed c op
    → step c op ≡ ok r
    → Balanced d c r
unfolding step start restart stop reset_channel Allowed
step-Balanced d c (starts true sockfd x) r h e =
    start_in_loop-Balanced d (record c { connect = true }) r sockfd x e
step-Balanced d c (starts false sockfd x) r h e = unfold opened released in ground arith
step-Balanced d c (starts_in_loop sockfd x) r h e = start_in_loop-Balanced d c r sockfd x e
step-Balanced d c (restarts sockfd x) r h e =
    unfold is_state in
    ground (
      arith,
      h,
      start_in_loop-Balanced d
          (record c { state = disconnected; retry_delay_ms = 500; connect = true }) r sockfd x e,
    )
step-Balanced d c stops r h e = unfold opened released in ground arith
step-Balanced d c stops_in_loop r h e = stop_in_loop-Balanced d c r e
step-Balanced d c resets r h e = unfold opened released is_state in ground (arith, h, e)
step-Balanced d c fails r h e = handle_error-Balanced d c r e
step-Balanced d c (writes so_error self_connect) r h e =
    handle_write-Balanced d c r so_error self_connect e

-- Over a history in which no restart and no late reset of the channel comes during an attempt, every
-- descriptor was opened, or held before, as often as it was closed, handed over, or is held by the
-- attempt under way after.
pub run-Balanced :
    (ops : List Op) (c : Connector) (r : Connector × List Effect) (d : ℕ)
    → IsOrderly c ops
    → run c ops ≡ ok r
    → Balanced d c r
unfolding run IsOrderly After
run-Balanced [] c r d h e = unfold opened released in ground arith
run-Balanced (op ∷ ops) c r d h e =
    let (first, f, g) = bind_ok (step c op) (λ x. run x.0 ops >>= λ s. ok (s.0, x.1 ++ s.1)) e in
    let (rest, k, l) = bind_ok (run first.0 ops) (λ s. ok (s.0, first.1 ++ s.1)) g in
    let a = step-Balanced d c op first h.0 f in
    let later = rw f at h.1 in
    let b = run-Balanced ops first.0 rest d later k in
    ground (arith, a, b, l, opened-append d first.1 rest.1, released-append d first.1 rest.1)
