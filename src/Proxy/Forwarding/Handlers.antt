-- ===== src/Proxy/Forwarding/Handlers.antt =====
-- The two traffic handlers as implementations of the interface, with the pool's answers that they
-- ask for: the client side looks up the client's address, the server side the player.
use amazon_gamelift_toolkit.Base.{
  ℕ, ◌≡◌, refl, true, Option, none, some, arith, inl, inr, Bool-cases,
}
use amazon_gamelift_toolkit.Base.Int.{ℤ}
use amazon_gamelift_toolkit.Base.Result.{Result, ok, err, panic}
use amazon_gamelift_toolkit.Go.Text.{Bytes}
use amazon_gamelift_toolkit.Token.{TokenManager, TokenError}
use amazon_gamelift_toolkit.Proxy.{UdpAddr, HandlerError, token_error}
use amazon_gamelift_toolkit.Proxy.ClientSide
use amazon_gamelift_toolkit.Proxy.ClientSide.{ClientSideProxyTrafficHandler, should_drop_packet}
use amazon_gamelift_toolkit.Proxy.ServerSide
use amazon_gamelift_toolkit.Proxy.ServerSide.{
  ServerSideProxyTrafficHandler, forget_player, send_round_robin, addr_of,
}
use amazon_gamelift_toolkit.Proxy.Pool.{
  ClientConnectionPool, get_source_addr_from_client_connection_port,
  get_player_number_from_client_connection_port,
}
use amazon_gamelift_toolkit.Proxy.Forwarding.{TrafficHandler, ClientBoundData, is_dropped}

-- The handler with the shared token manager; the outside gives the draw of rng.Intn(100).
abbrev pub client_side : TrafficHandler (ClientSideProxyTrafficHandler × TokenManager) ℕ
client_side = record {
  preprocess = λ h draw packet source_addr.
      let (h', tm', result) = ClientSide.preprocess_server_bound_traffic h.0 h.1 draw packet in
      ((h', tm'), result);
  reply = λ h draw pool bound. (
    h,
    ClientSide.handle_client_bound_traffic h.0 draw
        (get_source_addr_from_client_connection_port pool bound.client_connection_port)
        bound.packet,
  );
}

abbrev pub as_handler_error {ℓ} : {A : Type ℓ} → Result TokenError A → Result HandlerError A
as_handler_error (ok a) = ok a
as_handler_error (err e) = err (token_error e)
as_handler_error panic = panic

-- The packet with the address that the round robin gives.
abbrev pub addressed :
    Bytes → Result TokenError (Option UdpAddr) → Result HandlerError (Option (UdpAddr × Bytes))
addressed packet (ok none) = ok none
addressed packet (ok (some addr)) = ok (some (addr, packet))
addressed packet (err e) = err (token_error e)
addressed packet panic = panic

-- The outside gives the time.
abbrev pub server_side : TrafficHandler ServerSideProxyTrafficHandler ℕ
server_side = record {
  preprocess = λ h now packet source_addr.
      let (h', result) = ServerSide.preprocess_server_bound_traffic h now packet source_addr in
      (h', as_handler_error result);
  reply = λ h now pool bound.
      let (h', result) =
        ServerSide.handle_client_bound_traffic h now
          (get_player_number_from_client_connection_port pool bound.client_connection_port) in
      (h', addressed bound.packet result);
}

-- A law of the interface that the loop relies on: a reply fails in the handler only by dropping.
pub record OnlyDrops {H E : Type 0} (handler : TrafficHandler H E) : Type 0 where
  pub only_drops :
      (h : H) (e : E) (pool : ClientConnectionPool) (bound : ClientBoundData) (er : HandlerError)
      → (handler.reply h e pool bound).1 ≡ err er
      → is_dropped er ≡ true

client_reply_drops :
    (h : ClientSideProxyTrafficHandler) (draw : ℕ) (addr : Option UdpAddr) (packet : Bytes)
    (er : HandlerError)
    → ClientSide.handle_client_bound_traffic h draw addr packet ≡ err er
    → is_dropped er ≡ true
unfolding ClientSide.handle_client_bound_traffic
client_reply_drops h draw none packet er e = absurd (cc)
client_reply_drops h draw (some addr) packet er e = elim (Bool-cases (should_drop_packet h draw)) [
  | inl d ↦ ground arith
  | inr k ↦ absurd (ground arith)
]

pub client_side-OnlyDrops : OnlyDrops client_side
client_side-OnlyDrops = record {
  only_drops = λ h draw pool bound er e.
      client_reply_drops h.0 draw
        (get_source_addr_from_client_connection_port pool bound.client_connection_port) bound.packet
        er e;
}

server_reply_no_error :
    (h : ServerSideProxyTrafficHandler) (now : ℕ) (player : Option ℤ) (e : TokenError)
    → (ServerSide.handle_client_bound_traffic h now player).1 ≡ err e
    → ⊥
unfolding ServerSide.handle_client_bound_traffic send_round_robin
server_reply_no_error h now none e is = absurd (cc)
server_reply_no_error h now (some p) e is = ground arith

addressed_error :
    (packet : Bytes) (r : Result TokenError (Option UdpAddr)) (er : HandlerError)
    → addressed packet r ≡ err er
    → (e : TokenError) × (r ≡ err e)
addressed_error packet (ok none) er is = absurd (cc)
addressed_error packet (ok (some a)) er is = absurd (cc)
addressed_error packet (err e) er is = (e, refl)
addressed_error packet panic er is = absurd (cc)

pub server_side-OnlyDrops : OnlyDrops server_side
server_side-OnlyDrops = record {
  only_drops = λ h now pool bound er is.
      let player =
        get_player_number_from_client_connection_port pool bound.client_connection_port in
      let (e, fails) =
        addressed_error bound.packet (ServerSide.handle_client_bound_traffic h now player).1 er
          is in
      absurd (server_reply_no_error h now player e fails);
}
