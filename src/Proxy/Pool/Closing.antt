-- ===== src/Proxy/Pool/Closing.antt =====
-- Opening and closing connections: what each does to the maps and to the sockets.
use amazon_gamelift_toolkit.Base.{
  ℕ, ◌≡◌, refl, sym, ap, subst, ◌∙◌, ◌⊎◌, inl, inr, List, [], ◌∷◌, Option, none, some, arith,
  if◌then◌else◌, Option-cases,
}
use amazon_gamelift_toolkit.Base.Int.{ℤ}
use amazon_gamelift_toolkit.Base.Eq.{nat_eq, int_eq, int_beq, int_beq_iff}
use amazon_gamelift_toolkit.Base.Dict.{lookup, lookup-insert}
use amazon_gamelift_toolkit.Base.Elem.{Elem}
use amazon_gamelift_toolkit.Proxy.{UdpAddr}
use amazon_gamelift_toolkit.Proxy.Pool.{
  ClientConnectionInfo, ClientConnectionPool, create_at, get_or_create_client_connection,
  get_source_addr_from_client_connection_port, get_player_number_from_client_connection_port,
  close_socket, forget_connection, close_client_connection, close_all,
}
use amazon_gamelift_toolkit.Proxy.Pool.Invariant.{
  IsPaired, port_at, player_at, port_of, create_at-IsPaired, created-port_at, closed-player_at,
  closed-socket, closed-connections, forgotten-port_at,
}

-- The two cases of a connection that is asked for.
get_or_create_cases {ℓ} :
    (P : ClientConnectionPool → Type ℓ) (pool : ClientConnectionPool) (socket : Option ℕ) (p : ℤ)
    (a : UdpAddr)
    → P pool
    → ((port : ℕ) → socket ≡ some port → port_at pool p ≡ none → P (create_at pool port p a))
    → P (get_or_create_client_connection pool socket p a).0
unfolding get_or_create_client_connection port_at
get_or_create_cases P pool none p a same new =
    elim (Option-cases (lookup p pool.client_connection_map)) [
      | inl e ↦ rw (e, get_or_create_client_connection) same
      | inr (c, e) ↦ rw (e, get_or_create_client_connection) same
    ]
get_or_create_cases P pool (some port) p a same new =
    elim (Option-cases (lookup p pool.client_connection_map)) [
      | inl e ↦ rw (e, get_or_create_client_connection) (new port refl (ap port_of e))
      | inr (c, e) ↦ rw (e, get_or_create_client_connection) same
    ]

-- GetOrCreateClientConnection keeps the maps inverse to each other and the sockets in step with
-- them, if the port of a new socket is not the port of a connection.
pub get_or_create_client_connection-IsPaired :
    (pool : ClientConnectionPool) (socket : Option ℕ) (p : ℤ) (a : UdpAddr)
    → IsPaired pool
    → ((port : ℕ) → socket ≡ some port → player_at pool port ≡ none)
    → IsPaired (get_or_create_client_connection pool socket p a).0
get_or_create_client_connection-IsPaired pool socket p a v free =
    get_or_create_cases IsPaired pool socket p a v
      (λ port is no_player. create_at-IsPaired pool port p a v no_player (free port is))

closed_none :
    (pool : ClientConnectionPool) (p : ℤ)
    → port_at pool p ≡ none
    → close_client_connection pool p ≡ pool
unfolding close_client_connection port_at
closed_none pool p h = elim (Option-cases (lookup p pool.client_connection_map)) [
  | inl e ↦ rw (e, close_client_connection) refl
  | inr (c, e) ↦ absurd (ground arith)
]

closed_some :
    (pool : ClientConnectionPool) (p : ℤ) (port : ℕ)
    → port_at pool p ≡ some port
    → close_client_connection pool p ≡ forget_connection (close_socket pool port) p
unfolding close_client_connection port_at
closed_some pool p port h = elim (Option-cases (lookup p pool.client_connection_map)) [
  | inl e ↦ absurd (ground arith)
  | inr (c, e) ↦
      rw (e, close_client_connection)
        (ap (λ z. forget_connection (close_socket pool z) p) (ground arith))
]

closed-port_at :
    (pool : ClientConnectionPool) (port : ℕ) (q : ℤ)
    → port_at (close_socket pool port) q ≡ port_at pool q
unfolding port_at
closed-port_at pool port q = ap (λ z. port_of (lookup q z)) (closed-connections pool port)

forgotten-player_at :
    (pool : ClientConnectionPool) (p : ℤ) (r : ℕ)
    → player_at (forget_connection pool p) r ≡ player_at pool r
unfolding player_at forget_connection
forgotten-player_at pool p r = refl

forgotten-socket :
    (pool : ClientConnectionPool) (p : ℤ) (r : ℕ)
    → lookup r (forget_connection pool p).open_sockets ≡ lookup r pool.open_sockets
unfolding forget_connection
forgotten-socket pool p r = refl

-- The pool after a connection is closed.
closed-IsPaired :
    (pool : ClientConnectionPool) (p : ℤ) (port : ℕ)
    → IsPaired pool
    → port_at pool p ≡ some port
    → IsPaired (forget_connection (close_socket pool port) p)
closed-IsPaired pool p port v at = record {
  paired = λ q r. ground (
    arith,
    forgotten-port_at (close_socket pool port) p q,
    closed-port_at pool port q,
    forgotten-player_at (close_socket pool port) p r,
    closed-player_at pool port r,
    int_beq_iff p q,
    v.paired p port,
    v.paired q r,
    v.paired q port,
    v.paired p r,
  );
  socketed = λ r. ground (
    arith,
    forgotten-socket (close_socket pool port) p r,
    forgotten-player_at (close_socket pool port) p r,
    closed-socket pool port r p ((v.paired p port).0 at),
    closed-player_at pool port r,
    v.socketed r,
  );
}

-- CloseClientConnection keeps the maps inverse to each other and the sockets in step with them.
-- Whether or not the player had a connection, afterwards the player has none and every other
-- player has the same port as before.
pub close_client_connection-IsPaired :
    (pool : ClientConnectionPool) (p : ℤ)
    → IsPaired pool
    → IsPaired (close_client_connection pool p)
      × ((q : ℤ)
          → port_at (close_client_connection pool p) q
            ≡ (if int_beq p q then none else port_at pool q))
close_client_connection-IsPaired pool p v = elim (Option-cases (port_at pool p)) [
  | inl e ↦ (
    subst IsPaired (sym (closed_none pool p e)) v,
    λ q. ap (λ z. port_at z q) (closed_none pool p e) ∙ ground (arith, int_beq_iff p q),
  )
  | inr (port, e) ↦ (
    subst IsPaired (sym (closed_some pool p port e)) (closed-IsPaired pool p port v e),
    λ q.
        ap (λ z. port_at z q) (closed_some pool p port e)
        ∙ forgotten-port_at (close_socket pool port) p q
        ∙ ap (λ z. if int_beq p q then none else z) (closed-port_at pool port q),
  )
]

close_all_keeps :
    (pool : ClientConnectionPool) (order : List ℤ)
    → IsPaired pool
    → ((p : ℤ) → port_at pool p ≡ none ⊎ Elem p order)
    → IsPaired (close_all pool order) × ((p : ℤ) → port_at (close_all pool order) p ≡ none)
unfolding close_all
close_all_keeps pool [] v all = (v, λ p. elim (all p) [ inl e ↦ e | inr e ↦ absurd e ])
close_all_keeps pool (p ∷ order) v all =
    let (w, ports) = close_client_connection-IsPaired pool p v in
    close_all_keeps (close_client_connection pool p) order w (λ q. elim (all q) [
      | inl e ↦ inl (ground (arith, ports q))
      | inr (inl e) ↦ inl (ground (arith, ports q, int_beq_iff p q))
      | inr (inr e) ↦ inr e
    ])

-- The loop of Proxy.Close, in any order of the players that leaves out none who has a connection,
-- leaves no connection, no port and no open socket.
pub close_all_closes :
    (pool : ClientConnectionPool) (order : List ℤ)
    → IsPaired pool
    → ((p : ℤ) → port_at pool p ≡ none ⊎ Elem p order)
    → ((p : ℤ) → port_at (close_all pool order) p ≡ none)
      × ((port : ℕ) → player_at (close_all pool order) port ≡ none)
      × ((port : ℕ) → lookup port (close_all pool order).open_sockets ≡ none)
close_all_closes pool order v all =
    let (w, ports) = close_all_keeps pool order v all in
    let players : (port : ℕ) → player_at (close_all pool order) port ≡ none = λ port.
      elim (Option-cases (player_at (close_all pool order) port)) [
        | inl e ↦ e
        | inr (p, e) ↦ absurd (ground (arith, ports p, w.paired p port))
      ] in
    (ports, players, λ port. (w.socketed port).1 (players port))

new_connection :
    (pool : ClientConnectionPool) (port : ℕ) (p : ℤ) (a : UdpAddr)
    → port_at pool p ≡ none
    → (get_or_create_client_connection pool (some port) p a).0 ≡ create_at pool port p a
unfolding get_or_create_client_connection port_at
new_connection pool port p a h = elim (Option-cases (lookup p pool.client_connection_map)) [
  | inl e ↦ rw (e, get_or_create_client_connection) refl
  | inr (c, e) ↦ absurd (ground arith)
]

same_connection :
    (pool : ClientConnectionPool) (socket : Option ℕ) (p : ℤ) (port : ℕ) (a : UdpAddr)
    → port_at pool p ≡ some port
    → (get_or_create_client_connection pool socket p a).0 ≡ pool
unfolding get_or_create_client_connection port_at
same_connection pool socket p port a h = elim (Option-cases (lookup p pool.client_connection_map)) [
  | inl e ↦ absurd (ground arith)
  | inr (c, e) ↦ rw (e, get_or_create_client_connection) refl
]

created_info :
    (pool : ClientConnectionPool) (port : ℕ) (p : ℤ) (a : UdpAddr)
    → (get_source_addr_from_client_connection_port (create_at pool port p a) port ≡ some a)
      × (get_player_number_from_client_connection_port (create_at pool port p a) port ≡ some p)
unfolding get_source_addr_from_client_connection_port get_player_number_from_client_connection_port
    create_at
created_info pool port p a =
    let info : ClientConnectionInfo = record { client_addr = a; player_number = p } in
    let at = lookup-insert port port info pool.client_connection_port_map in
    (ground arith, ground arith)

-- The address for replies to a player is the one from which the player's connection was created: a
-- later packet of the player from another address creates no connection and changes no address.
first_address_stays :
    (pool : ClientConnectionPool) (port : ℕ) (later : Option ℕ) (p : ℤ) (a b : UdpAddr)
    → port_at pool p ≡ none
    → (let created = (get_or_create_client_connection pool (some port) p a).0 in
        let again = (get_or_create_client_connection created later p b).0 in
        (get_source_addr_from_client_connection_port again port ≡ some a)
        × (get_player_number_from_client_connection_port again port ≡ some p)
        × (again ≡ created))
first_address_stays pool port later p a b h =
    let created = create_at pool port p a in
    let first = new_connection pool port p a h in
    let at : port_at created p ≡ some port =
      ground (arith, created-port_at pool port p p a, int_beq_iff p p) in
    let again =
      ap (λ z. (get_or_create_client_connection z later p b).0) first
      ∙ same_connection created later p port b at in
    let (addr, player) = created_info pool port p a in
    (
      ap (λ z. get_source_addr_from_client_connection_port z port) again ∙ addr,
      ap (λ z. get_player_number_from_client_connection_port z port) again ∙ player,
      again ∙ sym first,
    )
