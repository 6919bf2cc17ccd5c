-- ===== src/Proxy/Forwarding/Socket.antt =====
-- handleSocketTraffic of player-gateway-testing-app/internal/proxy/client_connection.go: the goroutine
-- that serves the socket of one connection. It shares the channel of the connection with the proxy,
-- so a run is a row of turns of both. What is written and what is forwarded are lists.
use amazon_gamelift_toolkit.Base.{
  Bool, true, false, List, [], ◌∷◌, ◌++◌, Option, none, some, ltb, if◌then◌else◌, length,
}
use amazon_gamelift_toolkit.Base.Result.{Result, ok, err}
use amazon_gamelift_toolkit.Go.Text.{Bytes}
use amazon_gamelift_toolkit.Proxy.Pool.{ClientConnection, buffer_size}
use amazon_gamelift_toolkit.Proxy.Forwarding.{ClientBoundData}

pub record Socket : Type 0 where
  pub client_conn : ClientConnection
  -- what has been written to the destination
  pub written : List Bytes
  -- what has been put into the channel of the proxy
  pub forward_to_player_chan : List ClientBoundData

pub data SocketRead : Type 0 where
  bytes_read : Bytes → SocketRead
  deadline_exceeded : SocketRead
  read_failed : SocketRead

pub data SocketError : Type 0 where
  writing_failed reading_failed : SocketError

-- A packet that the proxy puts into the channel, or a round of the loop: it finds the context done, or
-- it writes or reads, where `writes` is whether a write succeeds.
pub data SocketTurn : Type 0 where
  puts : Bytes → SocketTurn
  context_done : SocketTurn
  round : (writes : Bool) → SocketRead → SocketTurn

abbrev pub Outcome : Type 0
Outcome = Option (Result {0, 0} SocketError Unit)

-- A full channel drops the packet.
unfoldable pub put : Socket → Bytes → Socket
put s packet =
    if ltb (length s.client_conn.server_bound_traffic_chan) buffer_size
    then record s {
      client_conn = record s.client_conn {
        server_bound_traffic_chan = s.client_conn.server_bound_traffic_chan ++ packet ∷ [];
      };
    }
    else s

unfoldable pub write_next : Socket → Bool → Bytes → List Bytes → Socket × Outcome
write_next s true packet queue = (
  record s {
    client_conn = record s.client_conn { server_bound_traffic_chan = queue };
    written = s.written ++ packet ∷ [];
  },
  none,
)
write_next s false packet queue = (
  record s { client_conn = record s.client_conn { server_bound_traffic_chan = queue } },
  some (err writing_failed),
)

unfoldable pub read_next : Socket → SocketRead → Socket × Outcome
read_next s deadline_exceeded = (s, none)
read_next s read_failed = (s, some (err reading_failed))
read_next s (bytes_read packet) = (
  record s {
    forward_to_player_chan =
        s.forward_to_player_chan
        ++ record { packet = packet; client_connection_port = s.client_conn.return_traffic_port }
          ∷ [];
  },
  none,
)

-- The select: the socket is read only if no packet waits in the channel.
unfoldable pub take_next : Socket → Bool → SocketRead → List Bytes → Socket × Outcome
unfolding write_next read_next
take_next s writes read [] = read_next s read
take_next s writes read (packet ∷ queue) = write_next s writes packet queue

abbrev pub serve : Socket → Bool → SocketRead → Socket × Outcome
serve s writes read = take_next s writes read s.client_conn.server_bound_traffic_chan

abbrev pub turn : Socket → SocketTurn → Socket × Outcome
turn s (puts packet) = (put s packet, none)
turn s context_done = (s, some (ok tt))
turn s (round writes read) = serve s writes read

-- The loop goes on if the round returns nothing.
unfoldable pub unless_returned : Socket → Outcome → Socket × Outcome → Socket × Outcome
unless_returned s none rest = rest
unless_returned s (some result) rest = (s, some result)

-- What the loop returned, or none while it runs.
unfoldable pub handle_socket_traffic : Socket → List SocketTurn → Socket × Outcome
unfolding put take_next unless_returned
handle_socket_traffic s [] = (s, none)
handle_socket_traffic s (t ∷ turns) =
    let (s', outcome) = turn s t in unless_returned s' outcome (handle_socket_traffic s' turns)
