-- ===== src/Net/TcpClient/Close.antt =====
-- What comes of the connections of a TcpClient that are closed.
use mathlib.Core.Path.{subst}
use dws.Base.{
  ℕ, ◌+◌, ◌≡◌, refl, sym, ◌∙◌, List, [], ◌∷◌, ◌++◌, Option, none, some, Bool, true, false, ◌&&◌,
  if◌then◌else◌, ==_iff, Result, ok, err, ok_inj, bind_ok, Returns, Bool-cases, inl, inr, ◌≢◌,
  Fault, assertion, dangling,
}
use dws.Net.TcpClient.{
  starts, stops, establishes, shuts_down, forces_close, sets_close_callback, queues_close_callback,
  keeps_connector, Connection, Effect, restarts, destroys, TcpClient, init, enable_retry, connect,
  disconnect, stop, new_connection, read_frame, is_current, remove_connection, handle_close,
  call_functors, run_pending,
}

-- The states that a client comes to, with all that it has asked for.
pub data History : List Effect → TcpClient → Type 0 where
  begun : (name : List ℕ) → History [] (init name)
  retrying : {es : List Effect} {s : TcpClient} → History es s → History es (enable_retry s)
  connecting :
      {es : List Effect} {s : TcpClient}
      → History es s
      → History (es ++ (connect s).0) (connect s).1
  disconnecting :
      {es : List Effect} {s : TcpClient}
      → History es s
      → History (es ++ (disconnect s).0) (disconnect s).1
  stopping :
      {es : List Effect} {s : TcpClient} → History es s → History (es ++ (stop s).0) (stop s).1
  accepted :
      {es : List Effect} {s : TcpClient} (id sockfd : ℕ) (peer : List ℕ)
      → History es s
      → History (es ++ (new_connection id sockfd peer s).0) (new_connection id sockfd peer s).1
  closed :
      {es fs : List Effect} {s s' : TcpClient} (conn : Connection)
      → History es s
      → handle_close conn s ≡ ok (fs, s')
      → History (es ++ fs) s'
  ran :
      {es fs : List Effect} {s s' : TcpClient}
      → History es s
      → run_pending s ≡ ok (fs, s')
      → History (es ++ fs) s'

-- Whether `connectDestroyed` is called.
unfoldable pub has_destroys : List Effect → Bool
has_destroys [] = false
has_destroys (destroys conn ∷ es) = true
has_destroys (e ∷ es) = has_destroys es

has_destroys-append :
    (es fs : List Effect)
    → has_destroys es ≡ false
    → has_destroys fs ≡ false
    → has_destroys (es ++ fs) ≡ false
unfolding has_destroys
has_destroys-append [] fs h k = k
has_destroys-append (destroys conn ∷ es) fs h k = cc
has_destroys-append (starts ∷ es) fs h k = has_destroys-append es fs h k
has_destroys-append (stops ∷ es) fs h k = has_destroys-append es fs h k
has_destroys-append (restarts ∷ es) fs h k = has_destroys-append es fs h k
has_destroys-append (establishes conn ∷ es) fs h k = has_destroys-append es fs h k
has_destroys-append (shuts_down conn ∷ es) fs h k = has_destroys-append es fs h k
has_destroys-append (forces_close conn ∷ es) fs h k = has_destroys-append es fs h k
has_destroys-append (sets_close_callback conn ∷ es) fs h k = has_destroys-append es fs h k
has_destroys-append (queues_close_callback conn ∷ es) fs h k = has_destroys-append es fs h k
has_destroys-append (keeps_connector ∷ es) fs h k = has_destroys-append es fs h k

-- Between calls no frame is left, and nothing was destroyed.
record IsQuiet (es : List Effect) (s : TcpClient) : Type 0 where
  left : s.frames ≡ []
  quiet : has_destroys es ≡ false

add-IsQuiet :
    (es fs : List Effect) (s s' : TcpClient)
    → IsQuiet es s
    → s'.frames ≡ s.frames
    → has_destroys fs ≡ false
    → IsQuiet (es ++ fs) s'
add-IsQuiet es fs s s' q same none_destroyed = record {
  left = same ∙ q.left;
  quiet = has_destroys-append es fs q.quiet none_destroyed;
}

abbrev reconnect : TcpClient → List Effect
reconnect s = if s.retry && s.connect_flag then restarts ∷ [] else []

reconnect_quiet : (s : TcpClient) → has_destroys (reconnect s) ≡ false
unfolding has_destroys
reconnect_quiet s = elim (Bool-cases (s.retry && s.connect_flag)) [
  | inl e ↦ rw e refl
  | inr e ↦ rw e refl
]

-- The state behind a close: its functor refers to a frame that is gone.
abbrev after_close : TcpClient → TcpClient
after_close s = record s {
  connection = none;
  next_frame = s.next_frame + 1;
  pending = s.pending ++ s.next_frame ∷ [];
}

handle_close_lem :
    (conn : Connection) (s : TcpClient)
    → is_current conn s.connection ≡ true
    → handle_close conn s ≡ ok (reconnect s, after_close s)
unfolding handle_close remove_connection read_frame
handle_close_lem conn s current = rw ((==_iff s.next_frame s.next_frame).1 refl, current) refl

handle_close-other :
    (conn : Connection) (s : TcpClient)
    → is_current conn s.connection ≡ false
    → handle_close conn s ≡ err assertion
unfolding handle_close remove_connection read_frame
handle_close-other conn s other = rw ((==_iff s.next_frame s.next_frame).1 refl, other) refl

handle_close-IsQuiet :
    (conn : Connection) (es : List Effect) (s : TcpClient) (r : List Effect × TcpClient)
    → IsQuiet es s
    → handle_close conn s ≡ ok r
    → IsQuiet (es ++ r.0) r.1
handle_close-IsQuiet conn es s r q e = elim (Bool-cases (is_current conn s.connection)) [
  | inl current ↦
      subst (λ r. IsQuiet (es ++ r.0) r.1) (ok_inj (sym (handle_close_lem conn s current) ∙ e))
        (add-IsQuiet es (reconnect s) s (after_close s) q refl (reconnect_quiet s))
  | inr other ↦ absurd (err_apart (sym (handle_close-other conn s other) ∙ e))
]
  where
    err_apart : {fault : Fault} → ◌≢◌ {A = Result (List Effect × TcpClient)} (err fault) (ok r)
    err_apart h = cc

call_functors-dangles : (fs : List ℕ) (f : ℕ) → call_functors (fs ++ f ∷ []) [] ≡ err dangling
unfolding call_functors read_frame
call_functors-dangles [] f = refl
call_functors-dangles (g ∷ fs) f = refl

call_functors-none : (fs : List ℕ) (es : List Effect) → call_functors fs [] ≡ ok es → es ≡ []
unfolding call_functors read_frame
call_functors-none [] es e = sym (ok_inj e)
call_functors-none (f ∷ fs) es e = cc

run_pending-IsQuiet :
    (es : List Effect) (s : TcpClient) (r : List Effect × TcpClient)
    → IsQuiet es s
    → run_pending s ≡ ok r
    → IsQuiet (es ++ r.0) r.1
unfolding run_pending has_destroys
run_pending-IsQuiet es s r q e =
    let next : List Effect → Result (List Effect × TcpClient) =
      λ fs. ok (fs, record s { pending = [] }) in
    let (fs, e₁, e₂) = bind_ok (call_functors s.pending s.frames) next e in
    let none_called : fs ≡ [] = call_functors-none s.pending fs (rw q.left at e₁) in
    subst (λ r. IsQuiet (es ++ r.0) r.1) (ok_inj e₂)
      (add-IsQuiet es fs s (record s { pending = [] }) q refl (rw none_called refl))

History-IsQuiet : {es : List Effect} {s : TcpClient} → History es s → IsQuiet es s
unfolding init enable_retry connect disconnect stop new_connection has_destroys
History-IsQuiet (begun name) = record { left = refl; quiet = refl }
History-IsQuiet (retrying {es} {s} h) =
    let q = History-IsQuiet h in record { left = q.left; quiet = q.quiet }
History-IsQuiet (connecting {es} {s} h) =
    add-IsQuiet es _ s (connect s).1 (History-IsQuiet h) refl refl
History-IsQuiet (disconnecting {es} {s} h) =
    add-IsQuiet es _ s (disconnect s).1 (History-IsQuiet h) refl (shut s.connection)
  where
    shut :
        (c : Option Connection)
        → has_destroys (elim c [ none ↦ [] | some conn ↦ shuts_down conn ∷ [] ]) ≡ false
    shut none = refl
    shut (some conn) = refl
History-IsQuiet (stopping {es} {s} h) = add-IsQuiet es _ s (stop s).1 (History-IsQuiet h) refl refl
History-IsQuiet (accepted {es} {s} id sockfd peer h) =
    add-IsQuiet es _ s (new_connection id sockfd peer s).1 (History-IsQuiet h) refl refl
History-IsQuiet (closed {es} {fs} {s} {s'} conn h e) =
    handle_close-IsQuiet conn es s (fs, s') (History-IsQuiet h) e
History-IsQuiet (ran {es} {fs} {s} {s'} h e) =
    run_pending-IsQuiet es s (fs, s') (History-IsQuiet h) e

-- In every history of a client whose connection is open, no connection has been destroyed so far, and
-- closing the open one leaves no connection, and a functor that reads a dangling pointer when the loop
-- calls it.
pub History-never_destroys :
    {es : List Effect} {s : TcpClient} (conn : Connection)
    → History es s
    → s.connection ≡ some conn
    → (has_destroys es ≡ false)
      × Returns
          (handle_close conn s)
          (λ r. (r.1.connection ≡ none) × (run_pending r.1 ≡ err dangling))
unfolding is_current run_pending
History-never_destroys {s = s} conn h current =
    let q = History-IsQuiet h in
    let t : is_current conn s.connection ≡ true = rw current ((==_iff conn.id conn.id).1 refl) in
    (
      q.quiet,
      (
        (reconnect s, after_close s),
        handle_close_lem conn s t,
        (refl, rw (q.left, call_functors-dangles s.pending s.next_frame) refl),
      ),
    )
