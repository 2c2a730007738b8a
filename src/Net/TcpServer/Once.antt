-- ===== src/Net/TcpServer/Once.antt =====
-- TcpServer (src/net/src/TcpServer.cc): every connection is established once and destroyed once.
use dws.Net.LoopPool.{LoopPool, get_next_loop, start as start_pool, start_loops}
use dws.Net.TcpServer.{
  Connection, Effect, establishes, destroys, TcpServer, init, start, conn_name, put, erase,
  new_connection, remove_connection_in_loop, destroy,
}
use dws.Net.TcpServer.Names.{conn_name_inj}
use dws.Net.TcpServer.Map.{
  present, established, destroyed, IsKeyed, present-put, put-IsKeyed, present-erase, erase-IsKeyed,
  has_of_present, destroyed-append, established-append, destroyed-destroy,
}
use dws.Base.{
  bind_ok, bind_ok, text_eq, text_eq-eq, get_elem?-some, Returns-ok, Returns, ℕ, zero, suc, ◌+◌,
  ◌^◌, ◌≤◌, ◌<◌, ◌≡◌, refl, ap, sym, ◌∙◌, arith, List, [], ◌∷◌, ◌++◌, length, true, if◌then◌else◌,
  leb, Bool-cases, inl, inr, ◌⊎◌, ok,
}

-- A started server, with the connections that were accepted and those that were removed while they
-- were in the map; the effects so far.
pub data History : List Effect → TcpServer → Type 0 where
  begun :
      (name ip_port : List ℕ) (pool : LoopPool) (start_loop : ℕ → ℕ) {s : TcpServer}
      → length ip_port ≤ 51
      → pool.next ≡ 0
      → start start_loop (init name ip_port pool) ≡ ok s
      → History [] s
  accepted :
      {es fs : List Effect} {s r : TcpServer} (sockfd : ℕ)
      → History es s
      → s.next_conn_id < 2 ^ 31
      → new_connection sockfd s ≡ ok (fs, r)
      → History (es ++ fs) r
  removed :
      {es fs : List Effect} {s r : TcpServer} (conn : Connection)
      → History es s
      → 0 < present conn.name s.connections
      → remove_connection_in_loop conn s ≡ ok (fs, r)
      → History (es ++ fs) r

-- The pool has been started, and its next loop is there, or it has none.
abbrev IsReady : LoopPool → Type 0
IsReady p = (p.started ≡ true) × ((length p.loops ≡ 0) ⊎ (p.next < length p.loops))

get_next_loop-IsReady : (p : LoopPool) → IsReady p → Returns (get_next_loop p) (λ r. IsReady r.1)
unfolding get_next_loop
get_next_loop-IsReady p (on, inl none_there) =
    ((p.base_loop, p), ground (arith, on, none_there), (on, inl none_there))
get_next_loop-IsReady p (on, inr inside) =
    let (l, e) = get_elem?-some p.loops p.next inside in
    (
      (l, record p { next = if leb (length p.loops) (p.next + 1) then 0 else p.next + 1 }),
      ground (arith, on, e),
      (on, inr (ground arith)),
    )

record IsOnce (es : List Effect) (s : TcpServer) : Type 0 where
  ready : IsReady s.thread_pool
  short : length s.ip_port ≤ 51
  keyed : IsKeyed s.connections
  once : (k : List ℕ) → established k es ≡ destroyed k es + present k s.connections
  older : (i : ℕ) → s.next_conn_id ≤ i → i < 2 ^ 31 → established (conn_name s i) es ≡ 0
  most : (k : List ℕ) → established k es ≤ 1

module _ (es : List Effect) (s : TcpServer) (o : IsOnce es s) (small : s.next_conn_id < 2 ^ 31)
    (conn : Connection) (named : conn.name ≡ conn_name s s.next_conn_id) where
  fresh : established conn.name es ≡ 0
  fresh = rw named (o.older s.next_conn_id (omega arith) small)

  absent : present conn.name s.connections ≡ 0
  absent = omega (arith, o.once conn.name, fresh)

  most_lem : (k : List ℕ) → established k (es ++ establishes conn ∷ []) ≤ 1
  unfolding established
  most_lem k =
      let grown = established-append k es (establishes conn ∷ []) in
      elim (Bool-cases (text_eq conn.name k)) [
        | inl same ↦ ground (
          arith,
          grown,
          same,
          fresh,
          ap (λ (t : List ℕ). established t es) (text_eq-eq conn.name k same),
        )
        | inr other ↦ ground (arith, grown, other, o.most k)
      ]

  older_lem :
      (i : ℕ)
      → s.next_conn_id + 1 ≤ i
      → i < 2 ^ 31
      → established (conn_name s i) (es ++ establishes conn ∷ []) ≡ 0
  unfolding established
  older_lem i later below =
      let grown = established-append (conn_name s i) es (establishes conn ∷ []) in
      elim (Bool-cases (text_eq conn.name (conn_name s i))) [
        | inl same ↦
            let eq =
              conn_name_inj s s.next_conn_id i o.short small below
                (sym named ∙ text_eq-eq conn.name (conn_name s i) same) in
            absurd (omega (arith, eq))
        | inr other ↦ ground (arith, grown, other, o.older i (omega arith) below)
      ]

  once_lem :
      (k : List ℕ)
      → established k (es ++ establishes conn ∷ [])
        ≡ destroyed k (es ++ establishes conn ∷ []) + present k (put conn.name conn s.connections)
  unfolding established destroyed
  once_lem k = omega (
    arith,
    established-append k es (establishes conn ∷ []),
    destroyed-append k es (establishes conn ∷ []),
    o.once k,
    present-put k conn.name conn s.connections absent,
  )

new_connection-IsOnce :
    (sockfd : ℕ) (es : List Effect) (s : TcpServer)
    → IsOnce es s
    → s.next_conn_id < 2 ^ 31
    → Returns (new_connection sockfd s) (λ r. IsOnce (es ++ r.0) r.1)
unfolding new_connection conn_name
new_connection-IsOnce sockfd es s o small =
    let (got, e, ready) = get_next_loop-IsReady s.thread_pool o.ready in
    let name = conn_name s s.next_conn_id in
    let conn : Connection = record { name = name; io_loop = got.0; socket = sockfd } in
    (
      (
        establishes conn ∷ [],
        record s {
          thread_pool = got.1;
          next_conn_id = s.next_conn_id + 1;
          connections = put name conn s.connections;
        },
      ),
      rw e refl,
      record {
        ready = ready;
        short = o.short;
        keyed = put-IsKeyed conn s.connections o.keyed;
        once = once_lem es s o small conn refl;
        older = older_lem es s o small conn refl;
        most = most_lem es s o small conn refl;
      },
    )

remove-IsOnce :
    (conn : Connection) (es : List Effect) (s : TcpServer)
    → IsOnce es s
    → 0 < present conn.name s.connections
    → Returns (remove_connection_in_loop conn s) (λ r. IsOnce (es ++ r.0) r.1)
unfolding remove_connection_in_loop established destroyed conn_name
remove-IsOnce conn es s o there =
    let has_it = has_of_present conn.name s.connections there in
    (
      (destroys conn ∷ [], record s { connections = erase conn.name s.connections }),
      rw has_it refl,
      record {
        ready = o.ready;
        short = o.short;
        keyed = erase-IsKeyed conn.name s.connections o.keyed;
        once = λ k. omega (
          arith,
          established-append k es (destroys conn ∷ []),
          destroyed-append k es (destroys conn ∷ []),
          o.once k,
          present-erase k conn.name s.connections has_it,
        );
        older = λ i later below. omega (
          arith,
          established-append (conn_name s i) es (destroys conn ∷ []),
          o.older i later below,
        );
        most = λ k. omega (arith, established-append k es (destroys conn ∷ []), o.most k);
      },
    )

zero_or_less : (n : ℕ) → (n ≡ 0) ⊎ (0 < n)
zero_or_less zero = inl refl
zero_or_less (suc n) = inr (omega arith)

start_pool-IsReady :
    (pool p : LoopPool) (start_loop : ℕ → ℕ)
    → pool.next ≡ 0
    → start_pool pool start_loop ≡ ok p
    → IsReady p
unfolding start_pool
start_pool-IsReady pool p start_loop zero_next e = elim (Bool-cases pool.started) [
  | inl on ↦ absurd (never on e)
  | inr off ↦
      Returns-ok {P = IsReady}
        (
          record pool {
            started = true;
            loops = pool.loops ++ start_loops pool.num_threads start_loop 0;
          },
          rw off refl,
          (refl, rw zero_next (zero_or_less _)),
        )
        e
]
  where
    never : pool.started ≡ true → start_pool pool start_loop ≡ ok p → ⊥
    never on e = ground (arith, on, e)

start-IsOnce :
    (name ip_port : List ℕ) (pool : LoopPool) (start_loop : ℕ → ℕ) (s : TcpServer)
    → length ip_port ≤ 51
    → pool.next ≡ 0
    → start start_loop (init name ip_port pool) ≡ ok s
    → IsOnce [] s
unfolding start init established destroyed present
start-IsOnce name ip_port pool start_loop s short zero_next e =
    let (p, started, made) = bind_ok (start_pool pool start_loop) _ e in
    let first : TcpServer = record (init name ip_port pool) { started = true; thread_pool = p } in
    Returns-ok {P = IsOnce []}
      (
        first,
        refl,
        record {
          ready = start_pool-IsReady pool p start_loop zero_next started;
          short = short;
          keyed = tt;
          once = λ k. refl;
          older = λ i later below. refl;
          most = λ k. omega arith;
        },
      )
      made

History-IsOnce : {es : List Effect} {s : TcpServer} → History es s → IsOnce es s
History-IsOnce (begun name ip_port pool start_loop {s = s} short zero_next e) =
    start-IsOnce name ip_port pool start_loop s short zero_next e
History-IsOnce (accepted {es = es} {s = s} sockfd h small e) =
    Returns-ok (new_connection-IsOnce sockfd es s (History-IsOnce h) small) e
History-IsOnce (removed {es = es} {s = s} conn h there e) =
    Returns-ok (remove-IsOnce conn es s (History-IsOnce h) there) e

-- In every history of a started server whose address has at most 51 characters: a connection name is
-- established at most once; it has been destroyed exactly if it was established and is no longer in
-- the map; and once the server is destroyed, each established connection has been destroyed once.
-- While there are ids left, a new connection is accepted.
pub History-once :
    {es : List Effect} {s : TcpServer}
    → History es s
    → (k : List ℕ) (sockfd : ℕ) → s.next_conn_id < 2 ^ 31
    → (established k es ≤ 1)
      × (established k es ≡ destroyed k es + present k s.connections)
      × (established k es ≡ destroyed k (es ++ destroy s.connections))
      × ((r : List Effect × TcpServer) × (new_connection sockfd s ≡ ok r))
History-once {es} {s} h k sockfd small =
    let o = History-IsOnce h in
    let (r, e, kept) = new_connection-IsOnce sockfd es s o small in
    (
      o.most k,
      o.once k,
      omega (
        arith,
        o.once k,
        destroyed-append k es (destroy s.connections),
        destroyed-destroy k s.connections o.keyed,
      ),
      (r, e),
    )
