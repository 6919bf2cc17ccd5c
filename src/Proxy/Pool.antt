-- ===== src/Proxy/Pool.antt =====
-- player-gateway-testing-app/internal/proxy/client_connection.go: the connections of a proxy, one for
-- each player, each with a socket of its own. What the operating system does is an argument: the port
-- of a new socket, or none where it cannot be opened. An open socket is its port.
pub mod Invariant
pub mod Closing
pub mod Reach
use amazon_gamelift_toolkit.Base.{
  ℕ, Bool, true, false, List, [], ◌∷◌, ◌++◌, Option, none, some, ltb, if◌then◌else◌, length,
}
use amazon_gamelift_toolkit.Base.Int.{ℤ, pos}
use amazon_gamelift_toolkit.Base.Eq.{nat_eq, int_eq}
use amazon_gamelift_toolkit.Base.Dict.{Dict, lookup, insert, delete}
use amazon_gamelift_toolkit.Go.Text.{Bytes}
use amazon_gamelift_toolkit.Stats.{
  StatsEventType, StatsEvent, event_player_connected, event_player_disconnected,
  publish_stats_event,
}
use amazon_gamelift_toolkit.Proxy.{UdpAddr}

-- The channel of the collector holds 100 events.
abbrev pub event_chan_capacity : ℕ
event_chan_capacity = 100

abbrev pub EventChan : Type 0
EventChan = Option (List StatsEvent)

abbrev pub buffer_size : ℕ
buffer_size = 8192

pub record ClientConnection : Type 0 where
  pub return_traffic_port : ℕ
  pub server_bound_traffic_chan : List Bytes

pub record ClientConnectionInfo : Type 0 where
  pub client_addr : UdpAddr
  pub player_number : ℤ

pub record ClientConnectionPool : Type 0 where
  pub client_connection_map : Dict ℤ ClientConnection
  pub client_connection_port_map : Dict ℕ ClientConnectionInfo
  -- the sockets of the connections that are open
  pub open_sockets : Dict ℕ (Unit {0})
  pub stats_event_chan : EventChan

unfoldable pub new_pool : EventChan → ClientConnectionPool
new_pool stats_event_chan = record {
  client_connection_map = [];
  client_connection_port_map = [];
  open_sockets = [];
  stats_event_chan = stats_event_chan;
}

abbrev pub get_client_connection : ClientConnectionPool → ℤ → Option ClientConnection
get_client_connection pool player_number = lookup player_number pool.client_connection_map

abbrev pub connection_event : StatsEventType → ℤ → StatsEvent
connection_event event_type player_number = record {
  event_type = event_type;
  port = 0;
  player_number = player_number;
  degradation_percent = pos 0;
}

-- CreateClientConnection with a socket at `port`.
unfoldable pub create_at : ClientConnectionPool → ℕ → ℤ → UdpAddr → ClientConnectionPool
create_at pool port player_number source_addr = record {
  client_connection_map =
      insert player_number (record { return_traffic_port = port; server_bound_traffic_chan = [] })
        pool.client_connection_map;
  client_connection_port_map =
      insert port (record { client_addr = source_addr; player_number = player_number })
        pool.client_connection_port_map;
  open_sockets = insert port tt pool.open_sockets;
  stats_event_chan =
      publish_stats_event event_chan_capacity pool.stats_event_chan
        (connection_event event_player_connected player_number);
}

-- The result is whether there is a connection now.
unfoldable pub create_client_connection :
    ClientConnectionPool → Option ℕ → ℤ → UdpAddr → ClientConnectionPool × Bool
unfolding create_at
create_client_connection pool none player_number source_addr = (pool, false)
create_client_connection pool (some port) player_number source_addr =
    (create_at pool port player_number source_addr, true)

unfoldable pub get_or_create_client_connection :
    ClientConnectionPool → Option ℕ → ℤ → UdpAddr → ClientConnectionPool × Bool
unfolding create_client_connection
get_or_create_client_connection pool socket player_number source_addr =
    elim (get_client_connection pool player_number) [
      | some client_conn ↦ (pool, true)
      | none ↦ create_client_connection pool socket player_number source_addr
    ]

abbrev pub addr_of_info : Option ClientConnectionInfo → Option UdpAddr
addr_of_info none = none
addr_of_info (some info) = some info.client_addr

abbrev pub player_of_info : Option ClientConnectionInfo → Option ℤ
player_of_info none = none
player_of_info (some info) = some info.player_number

unfoldable pub get_source_addr_from_client_connection_port :
    ClientConnectionPool → ℕ → Option UdpAddr
get_source_addr_from_client_connection_port pool port =
    addr_of_info (lookup port pool.client_connection_port_map)

unfoldable pub get_player_number_from_client_connection_port : ClientConnectionPool → ℕ → Option ℤ
get_player_number_from_client_connection_port pool port =
    player_of_info (lookup port pool.client_connection_port_map)

-- `info.Socket.Close()` and the deletion from the map of ports, if the port is there.
unfoldable pub close_socket : ClientConnectionPool → ℕ → ClientConnectionPool
close_socket pool port = elim (lookup port pool.client_connection_port_map) [
  | none ↦ pool
  | some info ↦ record pool {
    open_sockets = delete port pool.open_sockets;
    client_connection_port_map = delete port pool.client_connection_port_map;
  }
]

unfoldable pub forget_connection : ClientConnectionPool → ℤ → ClientConnectionPool
forget_connection pool player_number = record pool {
  client_connection_map = delete player_number pool.client_connection_map;
  stats_event_chan =
      publish_stats_event event_chan_capacity pool.stats_event_chan
        (connection_event event_player_disconnected player_number);
}

unfoldable pub close_client_connection : ClientConnectionPool → ℤ → ClientConnectionPool
unfolding close_socket forget_connection
close_client_connection pool player_number =
    elim (lookup player_number pool.client_connection_map) [
      | none ↦ pool
      | some client_conn ↦
          forget_connection (close_socket pool client_conn.return_traffic_port) player_number
    ]

-- The loop of Proxy.Close over the players, in the order that the map gives.
unfoldable pub close_all : ClientConnectionPool → List ℤ → ClientConnectionPool
close_all pool [] = pool
close_all pool (player_number ∷ players) =
    close_all (close_client_connection pool player_number) players

-- A non-blocking send to the channel of a connection: a full channel drops the packet.
unfoldable pub send_server_bound : ClientConnectionPool → ℤ → Bytes → ClientConnectionPool
send_server_bound pool player_number packet =
    elim (lookup player_number pool.client_connection_map) [
      | none ↦ pool
      | some conn ↦
          if ltb (length conn.server_bound_traffic_chan) buffer_size
          then record pool {
            client_connection_map =
                insert player_number
                  (record conn {
                    server_bound_traffic_chan = conn.server_bound_traffic_chan ++ packet ∷ [];
                  })
                  pool.client_connection_map;
          }
          else pool
    ]
