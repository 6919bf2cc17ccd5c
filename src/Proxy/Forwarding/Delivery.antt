-- ===== src/Proxy/Forwarding/Delivery.antt =====
-- What the loop of a proxy does with a packet that its handler accepts.
use amazon_gamelift_toolkit.Base.{
  ℕ, ◌≡◌, refl, sym, ap, ◌∙◌, inl, inr, Bool, true, false, List, [], ◌∷◌, ◌++◌, Option, none, some,
  arith, ltb, length, if◌then◌else◌, Option-cases,
}
use amazon_gamelift_toolkit.Base.Int.{ℤ, pos}
use amazon_gamelift_toolkit.Base.Eq.{nat_eq, int_eq, int_beq, int_beq_iff}
use amazon_gamelift_toolkit.Base.Dict.{lookup, lookup-insert}
use amazon_gamelift_toolkit.Base.Result.{ok}
use amazon_gamelift_toolkit.Go.Text.{Bytes}
use amazon_gamelift_toolkit.Stats.{StatsEventType, event_valid_packet_processed}
use amazon_gamelift_toolkit.Proxy.{UdpAddr, PreprocessServerBoundTrafficResult}
use amazon_gamelift_toolkit.Proxy.Pool.{
  ClientConnection, ClientConnectionPool, buffer_size, create_at, send_server_bound,
  get_or_create_client_connection,
}
use amazon_gamelift_toolkit.Proxy.Pool.Invariant.{IsPaired, port_at, player_at}
use amazon_gamelift_toolkit.Proxy.Forwarding.{
  Proxy, Outside, TrafficHandler, received, publish, forward, send_to, act_on, process,
  handle_incoming_traffic,
}

abbrev pub queue_of : Option ClientConnection → List Bytes
queue_of none = []
queue_of (some c) = c.server_bound_traffic_chan

-- The packets that wait to be sent to the game server for a player.
unfoldable pub queue_at : ClientConnectionPool → ℤ → List Bytes
queue_at pool p = queue_of (lookup p pool.client_connection_map)

-- A packet behind the others, if there is room.
abbrev pub queued : List Bytes → Bytes → List Bytes
queued queue packet = if ltb (length queue) buffer_size then queue ++ packet ∷ [] else queue

send_server_bound-port_at :
    (pool : ClientConnectionPool) (p q : ℤ) (packet : Bytes)
    → port_at (send_server_bound pool p packet) q ≡ port_at pool q
unfolding send_server_bound port_at
send_server_bound-port_at pool p q packet =
    elim (Option-cases (lookup p pool.client_connection_map)) [
      | inl e ↦ ground arith
      | inr (c, e) ↦ ground (
        arith,
        lookup-insert p q
            (record c { server_bound_traffic_chan = c.server_bound_traffic_chan ++ packet ∷ [] })
            pool.client_connection_map,
        int_beq_iff p q,
      )
    ]

send_server_bound-player_at :
    (pool : ClientConnectionPool) (p : ℤ) (port : ℕ) (packet : Bytes)
    → player_at (send_server_bound pool p packet) port ≡ player_at pool port
unfolding send_server_bound player_at
send_server_bound-player_at pool p port packet = ground arith

send_server_bound-sockets :
    (pool : ClientConnectionPool) (p : ℤ) (packet : Bytes)
    → (send_server_bound pool p packet).open_sockets ≡ pool.open_sockets
unfolding send_server_bound
send_server_bound-sockets pool p packet = ground arith

send_server_bound-IsPaired :
    (pool : ClientConnectionPool) (p : ℤ) (packet : Bytes)
    → IsPaired pool
    → IsPaired (send_server_bound pool p packet)
send_server_bound-IsPaired pool p packet v = record {
  paired = λ q port. ground (
    arith,
    send_server_bound-port_at pool p q packet,
    send_server_bound-player_at pool p port packet,
    v.paired q port,
  );
  socketed = λ port. ground (
    arith,
    ap (lookup port) (send_server_bound-sockets pool p packet),
    send_server_bound-player_at pool p port packet,
    v.socketed port,
  );
}

send_server_bound-queue_at :
    (pool : ClientConnectionPool) (p q : ℤ) (packet : Bytes) (c : ClientConnection)
    → lookup p pool.client_connection_map ≡ some c
    → queue_at (send_server_bound pool p packet) q
      ≡ (if int_beq p q then queued (queue_at pool p) packet else queue_at pool q)
unfolding send_server_bound queue_at
send_server_bound-queue_at pool p q packet c e = ground (
  arith,
  lookup-insert p q
      (record c { server_bound_traffic_chan = c.server_bound_traffic_chan ++ packet ∷ [] })
      pool.client_connection_map,
  int_beq_iff p q,
)

-- Asking for a connection changes no queue, and where it succeeds there is one.
get_or_create-queue_at :
    (pool : ClientConnectionPool) (socket : Option ℕ) (p q : ℤ) (a : UdpAddr)
    → queue_at (get_or_create_client_connection pool socket p a).0 q ≡ queue_at pool q
unfolding get_or_create_client_connection create_at queue_at
get_or_create-queue_at pool none p q a = ground arith
get_or_create-queue_at pool (some port) p q a = ground (
  arith,
  lookup-insert p q (record { return_traffic_port = port; server_bound_traffic_chan = [] })
      pool.client_connection_map,
  int_beq_iff p q,
)

get_or_create_connected :
    (pool : ClientConnectionPool) (socket : Option ℕ) (p : ℤ) (a : UdpAddr)
    → (get_or_create_client_connection pool socket p a).1 ≡ true
    → (c : ClientConnection) × (lookup p
          (get_or_create_client_connection pool socket p a).0.client_connection_map
        ≡ some c)
unfolding get_or_create_client_connection create_at
get_or_create_connected pool socket p a h =
    elim (Option-cases (lookup p pool.client_connection_map)) [
      | inl e ↦ opened socket h e
      | inr (c, e) ↦ (c, ground arith)
    ]
  where
    opened :
        (socket : Option ℕ)
        → (get_or_create_client_connection pool socket p a).1 ≡ true
        → lookup p pool.client_connection_map ≡ none
        → (c : ClientConnection) × (lookup p
              (get_or_create_client_connection pool socket p a).0.client_connection_map
            ≡ some c)
    opened none h e = absurd (ground arith)
    opened (some port) h e =
        let c : ClientConnection = record {
          return_traffic_port = port;
          server_bound_traffic_chan = [];
        } in
        (c, ground (arith, lookup-insert p p c pool.client_connection_map, int_beq_iff p p))

sent-queue_at :
    {H : Type 0} (p : Proxy H) (r : ClientConnectionPool × Bool) (player q : ℤ) (packet : Bytes)
    (c : ClientConnection)
    → (send_to p r player packet).1 ≡ ok tt
    → (r.1 ≡ true → lookup player r.0.client_connection_map ≡ some c)
    → queue_at (send_to p r player packet).0.client_connection_pool q
      ≡ (if int_beq player q then queued (queue_at r.0 player) packet else queue_at r.0 q)
sent-queue_at p (pool, false) player q packet c h at = absurd (cc)
sent-queue_at p (pool, true) player q packet c h at =
    send_server_bound-queue_at pool player q packet c (at refl)

sent_connected :
    {H : Type 0} (p : Proxy H) (r : ClientConnectionPool × Bool) (player : ℤ) (packet : Bytes)
    → (send_to p r player packet).1 ≡ ok tt
    → r.1 ≡ true
sent_connected p (pool, false) player packet h = absurd (cc)
sent_connected p (pool, true) player packet h = refl

-- The proxy after the event of a valid packet.
counted : {H : Type 0} → Proxy H → Proxy H
counted p = publish p event_valid_packet_processed (pos 0)

counted-queue_at :
    {H : Type 0} (p : Proxy H) (q : ℤ)
    → queue_at (counted p).client_connection_pool q ≡ queue_at p.client_connection_pool q
unfolding counted publish queue_at
counted-queue_at p q = refl

forward-queue_at :
    {H : Type 0} (p : Proxy H) (socket : Option ℕ) (player q : ℤ) (packet : Bytes) (a : UdpAddr)
    → (forward p socket player packet a).1 ≡ ok tt
    → queue_at (forward p socket player packet a).0.client_connection_pool q ≡ (
        if int_beq player q
        then queued (queue_at p.client_connection_pool player) packet
        else queue_at p.client_connection_pool q)
unfolding forward counted
forward-queue_at p socket player q packet a h =
    let pool = (counted p).client_connection_pool in
    let r = get_or_create_client_connection pool socket player a in
    let (c, at) =
      get_or_create_connected pool socket player a (sent_connected (counted p) r player packet h) in
    let same : (z : ℤ) → queue_at r.0 z ≡ queue_at p.client_connection_pool z =
      λ z. get_or_create-queue_at pool socket player z a ∙ counted-queue_at p z in
    sent-queue_at (counted p) r player q packet c h (λ _. at)
    ∙ ap (λ z. if int_beq player q then queued z packet else queue_at r.0 q) (same player)
    ∙ ap
        (λ z.
          if int_beq player q then queued (queue_at p.client_connection_pool player) packet else z)
        (same q)

-- A packet that the handler accepts as game traffic is put behind the other packets that wait for
-- the game server in the queue of its player, if that has room, and no other queue changes. The
-- proxy could open a socket if the player had no connection.
pub accepted_packet_is_queued :
    {H E : Type 0} (handler : TrafficHandler H E) (response : List ℤ → Bytes) (p : Proxy H)
    (o : Outside E) (packet : Bytes) (a : UdpAddr) (h : H)
    (out : PreprocessServerBoundTrafficResult) (q : ℤ)
    → handler.preprocess p.traffic_handler o.for_handler packet a ≡ (h, ok out)
    → out.config_command ≡ none
    → (handle_incoming_traffic handler response p o (received packet a)).1 ≡ ok tt
    → queue_at
        (handle_incoming_traffic handler response p o (received packet a)).0.client_connection_pool
        q
      ≡ (if int_beq out.player_number q
          then queued (queue_at p.client_connection_pool out.player_number) out.packet
          else queue_at p.client_connection_pool q)
unfolding handle_incoming_traffic process
accepted_packet_is_queued handler response p o packet a h out q accepted plain done =
    let moved : Proxy _ = record p { traffic_handler = h } in
    let does : handle_incoming_traffic handler response p o (received packet a)
        ≡ forward moved o.new_socket out.player_number out.packet a =
      rw (accepted) (ap (act_on moved o.new_socket o.writes response a out) plain) in
    ap (λ z. queue_at z.0.client_connection_pool q) does
    ∙ forward-queue_at moved o.new_socket out.player_number q out.packet a
        (sym (ap (λ z. z.1) does) ∙ done)

-- The loop keeps the pool paired.
publish-IsPaired :
    {H : Type 0} (p : Proxy H) (kind : StatsEventType) (percent : ℤ)
    → IsPaired p.client_connection_pool
    → IsPaired (publish p kind percent).client_connection_pool
unfolding publish port_at player_at
publish-IsPaired p kind percent v = record { paired = v.paired; socketed = v.socketed }
