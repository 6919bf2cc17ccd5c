-- ===== src/Proxy/Forwarding.antt =====
-- player-gateway-testing-app/internal/proxy/proxy.go: the loop of a proxy over the connection pool and
-- a traffic handler, and the queue of packet_logger.go. The main socket's writes are a list; what
-- the operating system answers is an argument. The proxy's event channel is the pool's.
pub mod Handlers
pub mod Safety
pub mod Delivery
pub mod Socket
pub mod Order
pub mod Examples
use amazon_gamelift_toolkit.Base.{
  ℕ, zero, suc, Bool, true, false, List, [], ◌∷◌, ◌++◌, Option, none, some, ltb, if◌then◌else◌,
  length,
}
use amazon_gamelift_toolkit.Base.Int.{ℤ, pos}
use amazon_gamelift_toolkit.Base.Result.{Result, ok, err, panic}
use amazon_gamelift_toolkit.Go.Text.{Bytes}
use amazon_gamelift_toolkit.Stats.{
  StatsEventType, StatsEvent, event_valid_packet_processed, event_malformed_packet_processed,
  event_degradation_update, publish_stats_event,
}
use amazon_gamelift_toolkit.Proxy.{
  UdpAddr, ConfigCommandResult, degradation_result, generic_command_result,
  get_player_connection_details_result, PreprocessServerBoundTrafficResult, HandlerError,
  missing_command_name, missing_parameter, unrecognized_command, invalid_replace_token_format,
  invalid_player_number_text, invalid_percentage, packet_dropped, token_error, wrong_endpoint,
}
use amazon_gamelift_toolkit.Proxy.Pool.{
  ClientConnectionPool, event_chan_capacity, get_or_create_client_connection, send_server_bound,
  close_all,
}

pub record ClientBoundData : Type 0 where
  pub packet : Bytes
  pub client_connection_port : ℕ

-- The interface TrafficHandler, over the handler's state `H` and what it asks of the outside, `E`.
-- Its reply is what HandleClientBoundTraffic writes to the socket.
pub record TrafficHandler (H E : Type 0) : Type 0 where
  pub preprocess :
      H → E → Bytes → UdpAddr → H × Result HandlerError PreprocessServerBoundTrafficResult
  pub reply :
      H
      → E
      → ClientConnectionPool
      → ClientBoundData
      → H × Result HandlerError (Option (UdpAddr × Bytes))

pub record FailedPacket : Type 0 where
  pub source_addr : UdpAddr
  pub packet : Bytes
  pub error : HandlerError

-- The packet logger's channel holds 1000 packets.
abbrev pub packet_chan_capacity : ℕ
packet_chan_capacity = 1000

-- A non-blocking send to the logger's channel.
unfoldable pub log_failed_packet : List FailedPacket → FailedPacket → List FailedPacket
log_failed_packet packet_chan packet =
    if ltb (length packet_chan) packet_chan_capacity
    then packet_chan ++ packet ∷ []
    else packet_chan

pub record Proxy (H : Type 0) : Type 0 where
  pub port : ℕ
  pub client_connection_pool : ClientConnectionPool
  pub traffic_handler : H
  pub packet_logger : List FailedPacket
  -- what has been written to the main socket
  pub written : List (UdpAddr × Bytes)

pub data ReadResult : Type 0 where
  received : Bytes → UdpAddr → ReadResult
  deadline_exceeded : ReadResult
  read_failed : ReadResult

-- What the outside does in one round: the handler's part, the port of a new socket if one is asked
-- for and can be opened, and whether a write to the main socket succeeds.
pub record Outside (E : Type 0) : Type 0 where
  pub for_handler : E
  pub new_socket : Option ℕ
  pub writes : Bool

pub data ProxyError : Type 0 where
  timed_out reading_failed writing_failed no_socket : ProxyError
  handler_failed : HandlerError → ProxyError

abbrev pub is_dropped : HandlerError → Bool
is_dropped packet_dropped = true
is_dropped _ = false

module _ {H : Type 0} where
  unfoldable pub publish : Proxy H → StatsEventType → ℤ → Proxy H
  publish p event_type percent = record p {
    client_connection_pool = record p.client_connection_pool {
      stats_event_chan =
          publish_stats_event event_chan_capacity p.client_connection_pool.stats_event_chan
            (record {
              event_type = event_type;
              port = p.port;
              player_number = pos 0;
              degradation_percent = percent;
            });
    };
  }

  -- A packet that the handler refuses.
  unfoldable pub refuse : Proxy H → Bytes → UdpAddr → HandlerError → Proxy H
  unfolding publish
  refuse p packet source_addr e =
      let logged = record p {
        packet_logger =
            log_failed_packet p.packet_logger
              (record { source_addr = source_addr; packet = packet; error = e });
      } in
      if is_dropped e then logged else publish logged event_malformed_packet_processed (pos 0)

  abbrev pub write_to : Proxy H → Bool → UdpAddr → Bytes → Proxy H × Result ProxyError (Unit {0})
  write_to p true addr packet = (record p { written = p.written ++ (addr, packet) ∷ [] }, ok tt)
  write_to p false addr packet = (p, err writing_failed)

  -- A configuration command that succeeded. `response` is the text for the requested players.
  unfoldable pub answer :
      Proxy H
      → Bool
      → (List ℤ → Bytes)
      → UdpAddr
      → ConfigCommandResult
      → Proxy H × Result ProxyError (Unit {0})
  unfolding publish
  answer p writes response source_addr (degradation_result percent) =
      (publish p event_degradation_update percent, ok tt)
  answer p writes response source_addr generic_command_result = (p, ok tt)
  answer p writes response source_addr (get_player_connection_details_result players) =
      write_to p writes source_addr (response players)

  abbrev pub with_pool : Proxy H → ClientConnectionPool → Proxy H
  with_pool p pool = record p { client_connection_pool = pool }

  -- The connection of the player, and the packet put into its channel.
  abbrev pub send_to :
      Proxy H → ClientConnectionPool × Bool → ℤ → Bytes → Proxy H × Result ProxyError (Unit {0})
  send_to p (pool, false) player packet = (with_pool p pool, err no_socket)
  send_to p (pool, true) player packet = (with_pool p (send_server_bound pool player packet), ok tt)

  unfoldable pub forward :
      Proxy H → Option ℕ → ℤ → Bytes → UdpAddr → Proxy H × Result ProxyError (Unit {0})
  unfolding publish
  forward p new_socket player packet source_addr =
      let counted = publish p event_valid_packet_processed (pos 0) in
      send_to counted
        (get_or_create_client_connection counted.client_connection_pool new_socket player
          source_addr)
        player packet

  abbrev pub act_on :
      Proxy H
      → Option ℕ
      → Bool
      → (List ℤ → Bytes)
      → UdpAddr
      → PreprocessServerBoundTrafficResult
      → Option ConfigCommandResult
      → Proxy H × Result ProxyError (Unit {0})
  act_on p new_socket writes response source_addr out (some command) =
      answer p writes response source_addr command
  act_on p new_socket writes response source_addr out none =
      forward p new_socket out.player_number out.packet source_addr

  -- handleIncomingTraffic behind the read, for what the handler returned.
  unfoldable pub process :
      Proxy H
      → Option ℕ
      → Bool
      → (List ℤ → Bytes)
      → Bytes
      → UdpAddr
      → Result HandlerError PreprocessServerBoundTrafficResult
      → Proxy H × Result ProxyError (Unit {0})
  unfolding refuse answer forward
  process p new_socket writes response packet source_addr (err e) =
      (refuse p packet source_addr e, ok tt)
  process p new_socket writes response packet source_addr panic = (p, panic)
  process p new_socket writes response packet source_addr (ok out) =
      act_on p new_socket writes response source_addr out out.config_command

-- One round of the loop of Start: the context is done, a packet of the game server is there, or the
-- main socket is read.
pub data Turn (E : Type 0) : Type 0 where
  context_done : Turn E
  client_bound : Outside E → ClientBoundData → Turn E
  idle : Outside E → ReadResult → Turn E

abbrev pub keeps_running : Result ProxyError (Unit {0}) → Bool
keeps_running (ok _) = true
keeps_running (err timed_out) = true
keeps_running _ = false

module _ {H E : Type 0} (handler : TrafficHandler H E) (response : List ℤ → Bytes) where
  unfoldable pub handle_incoming_traffic :
      Proxy H → Outside E → ReadResult → Proxy H × Result ProxyError (Unit {0})
  unfolding process
  handle_incoming_traffic p o deadline_exceeded = (p, err timed_out)
  handle_incoming_traffic p o read_failed = (p, err reading_failed)
  handle_incoming_traffic p o (received packet source_addr) =
      let (h, result) = handler.preprocess p.traffic_handler o.for_handler packet source_addr in
      process (record p { traffic_handler = h }) o.new_socket o.writes response packet source_addr
        result

  abbrev pub write_reply :
      Proxy H
      → Bool
      → Result HandlerError (Option (UdpAddr × Bytes))
      → Proxy H × Result ProxyError (Unit {0})
  write_reply p writes (ok none) = (p, ok tt)
  write_reply p writes (ok (some (addr, packet))) = write_to p writes addr packet
  write_reply p writes (err e) = (p, if is_dropped e then ok tt else err (handler_failed e))
  write_reply p writes panic = (p, panic)

  -- A packet of the game server, in the loop of Start: a dropped packet is no error there.
  unfoldable pub handle_client_bound :
      Proxy H → Outside E → ClientBoundData → Proxy H × Result ProxyError (Unit {0})
  handle_client_bound p o bound =
      let (h, result) =
        handler.reply p.traffic_handler o.for_handler p.client_connection_pool bound in
      write_reply (record p { traffic_handler = h }) o.writes result

  -- Start over a row of rounds: what it returned, or none while it runs.
  unfoldable pub start : Proxy H → List (Turn E) → Proxy H × Option (Result ProxyError (Unit {0}))
  unfolding handle_incoming_traffic handle_client_bound
  start p [] = (p, none)
  start p (context_done ∷ turns) = (p, some (ok tt))
  start p (client_bound o bound ∷ turns) =
      let (p', r) = handle_client_bound p o bound in
      let rest = start p' turns in if keeps_running r then rest else (p', some r)
  start p (idle o read ∷ turns) =
      let (p', r) = handle_incoming_traffic p o read in
      let rest = start p' turns in if keeps_running r then rest else (p', some r)
