-- ===== src/Proxy.antt =====
-- player-gateway-testing-app/internal/proxy: what the traffic handlers return, from
-- traffic_handler.go, and the errors of the client-side handler.
pub mod ClientSide
pub mod ServerSide
pub mod Pool
pub mod Forwarding
pub mod Details
pub mod Examples
use amazon_gamelift_toolkit.Base.{ℕ, ◌≡◌, ◌↔◌, Bool, true, ◌&&◌, List, Option, arith, ◌==◌}
use amazon_gamelift_toolkit.Base.Eq.{bytes_beq, bytes_beq_iff}
use amazon_gamelift_toolkit.Base.Int.{ℤ}
use amazon_gamelift_toolkit.Go.Text.{Bytes}
use amazon_gamelift_toolkit.Token.{TokenError}

-- A net.UDPAddr as String() prints it: the host and the port. Equal prints are equal addresses.
pub record UdpAddr : Type 0 where
  pub host : Bytes
  pub port : ℕ

abbrev pub udp_addr_beq : UdpAddr → UdpAddr → Bool
udp_addr_beq a b = bytes_beq a.host b.host && a.port == b.port

pub udp_addr_beq_iff : (a b : UdpAddr) → (udp_addr_beq a b ≡ true) ↔ (a ≡ b)
udp_addr_beq_iff a b = ground (arith, bytes_beq_iff a.host b.host)

pub data ConfigCommandResult : Type 0 where
  degradation_result : ℤ → ConfigCommandResult
  generic_command_result : ConfigCommandResult
  get_player_connection_details_result : List ℤ → ConfigCommandResult

pub record PreprocessServerBoundTrafficResult : Type 0 where
  pub player_number : ℤ
  pub packet : Bytes
  pub config_command : Option ConfigCommandResult

pub data HandlerError : Type 0 where
  -- configuration commands
  missing_command_name missing_parameter unrecognized_command : HandlerError
  invalid_replace_token_format invalid_player_number_text invalid_percentage : HandlerError
  -- ErrPacketDropped
  packet_dropped : HandlerError
  -- an error of the token manager
  token_error : TokenError → HandlerError
  -- the player who sent the packet, and the player of the endpoint
  wrong_endpoint : ℕ → ℕ → HandlerError
