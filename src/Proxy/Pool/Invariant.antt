-- ===== src/Proxy/Pool/Invariant.antt =====
-- The two maps and the sockets of the pool agree, and its operations keep that.
use amazon_gamelift_toolkit.Base.{
  ℕ, ◌≡◌, inl, inr, ◌↔◌, [], Option, none, some, arith, ◌==◌, if◌then◌else◌, Option-cases,
}
use amazon_gamelift_toolkit.Base.Int.{ℤ}
use amazon_gamelift_toolkit.Base.Eq.{nat_eq, int_eq, int_beq, int_beq_iff}
use amazon_gamelift_toolkit.Base.Dict.{lookup, lookup-insert, lookup-delete}
use amazon_gamelift_toolkit.Proxy.{UdpAddr}
use amazon_gamelift_toolkit.Proxy.Pool.{
  ClientConnection, ClientConnectionPool, new_pool, create_at, close_socket, forget_connection,
  EventChan, player_of_info,
}

abbrev pub port_of : Option ClientConnection → Option ℕ
port_of none = none
port_of (some c) = some c.return_traffic_port

-- The port of a player's connection, and the player of a port.
unfoldable pub port_at : ClientConnectionPool → ℤ → Option ℕ
port_at pool p = port_of (lookup p pool.client_connection_map)

unfoldable pub player_at : ClientConnectionPool → ℕ → Option ℤ
player_at pool port = player_of_info (lookup port pool.client_connection_port_map)

-- The two maps are inverse to each other, and the open sockets are the ports of the connections.
pub record IsPaired (pool : ClientConnectionPool) : Type 0 where
  pub paired : (p : ℤ) (port : ℕ) → (port_at pool p ≡ some port) ↔ (player_at pool port ≡ some p)
  pub socketed : (port : ℕ) → (lookup port pool.open_sockets ≡ none) ↔ (player_at pool port ≡ none)

pub new_pool-IsPaired : (chan : EventChan) → IsPaired (new_pool chan)
unfolding new_pool lookup port_at player_at
new_pool-IsPaired chan = record { paired = λ p port. ground arith; socketed = λ port. ground arith }

pub created-port_at :
    (pool : ClientConnectionPool) (port : ℕ) (p q : ℤ) (a : UdpAddr)
    → port_at (create_at pool port p a) q ≡ (if int_beq p q then some port else port_at pool q)
unfolding create_at port_at
created-port_at pool port p q a = ground (
  arith,
  lookup-insert p q (record { return_traffic_port = port; server_bound_traffic_chan = [] })
      pool.client_connection_map,
)

pub created-player_at :
    (pool : ClientConnectionPool) (port r : ℕ) (p : ℤ) (a : UdpAddr)
    → player_at (create_at pool port p a) r ≡ (if port == r then some p else player_at pool r)
unfolding create_at player_at
created-player_at pool port r p a = ground (
  arith,
  lookup-insert port r (record { client_addr = a; player_number = p })
      pool.client_connection_port_map,
)

created-socket :
    (pool : ClientConnectionPool) (port r : ℕ) (p : ℤ) (a : UdpAddr)
    → lookup r (create_at pool port p a).open_sockets
      ≡ (if port == r then some tt else lookup r pool.open_sockets)
unfolding create_at
created-socket pool port r p a = ground (arith, lookup-insert port r tt pool.open_sockets)

pub create_at-IsPaired :
    (pool : ClientConnectionPool) (port : ℕ) (p : ℤ) (a : UdpAddr)
    → IsPaired pool
    → port_at pool p ≡ none
    → player_at pool port ≡ none
    → IsPaired (create_at pool port p a)
create_at-IsPaired pool port p a v no_player no_port = record {
  paired = λ q r. ground (
    arith,
    created-port_at pool port p q a,
    created-player_at pool port r p a,
    int_beq_iff p q,
    v.paired q r,
    v.paired p r,
    v.paired q port,
  );
  socketed = λ r.
      ground
        (arith, created-socket pool port r p a, created-player_at pool port r p a, v.socketed r);
}

pub closed-player_at :
    (pool : ClientConnectionPool) (port r : ℕ)
    → player_at (close_socket pool port) r ≡ (if port == r then none else player_at pool r)
unfolding close_socket player_at
closed-player_at pool port r = elim (Option-cases (lookup port pool.client_connection_port_map)) [
  | inl e ↦ ground arith
  | inr (info, e) ↦ ground (arith, lookup-delete port r pool.client_connection_port_map)
]

pub closed-socket :
    (pool : ClientConnectionPool) (port r : ℕ) (p : ℤ)
    → player_at pool port ≡ some p
    → lookup r (close_socket pool port).open_sockets
      ≡ (if port == r then none else lookup r pool.open_sockets)
unfolding close_socket player_at
closed-socket pool port r p e = elim (Option-cases (lookup port pool.client_connection_port_map)) [
  | inl e' ↦ absurd (ground arith)
  | inr (info, e') ↦ ground (arith, lookup-delete port r pool.open_sockets)
]

pub closed-connections :
    (pool : ClientConnectionPool) (port : ℕ)
    → (close_socket pool port).client_connection_map ≡ pool.client_connection_map
unfolding close_socket
closed-connections pool port = ground arith

pub forgotten-port_at :
    (pool : ClientConnectionPool) (p q : ℤ)
    → port_at (forget_connection pool p) q ≡ (if int_beq p q then none else port_at pool q)
unfolding forget_connection port_at
forgotten-port_at pool p q = ground (arith, lookup-delete p q pool.client_connection_map)
