-- ===== src/Proxy/Forwarding/Examples.antt =====
-- Runs of the loop of a proxy with each of the handlers, and the theorems there.
use amazon_gamelift_toolkit.Base.{
  ℕ, ◌≡◌, refl, sym, Bool-cases, ◌⊎◌, inl, inr, true, List, [], ◌∷◌, none, some, arith, length,
}
use amazon_gamelift_toolkit.Base.Int.{ℤ, pos}
use amazon_gamelift_toolkit.Base.Eq.{nat_eq, int_eq, int_beq, int_beq_iff}
use amazon_gamelift_toolkit.Base.Dict.{lookup, insert}
use amazon_gamelift_toolkit.Base.Elem.{Elem}
use amazon_gamelift_toolkit.Base.Result.{ok}
use amazon_gamelift_toolkit.Go.Text.{Bytes, codes, has_prefix}
use amazon_gamelift_toolkit.Token.{TokenManager, parse_client_side_token}
use amazon_gamelift_toolkit.Token.Parse.{forwarded}
use amazon_gamelift_toolkit.Token.Examples.{duo}
use amazon_gamelift_toolkit.Proxy.ClientSide.{
  ClientSideProxyTrafficHandler, should_drop_packet, preprocess_server_bound_traffic,
}
use amazon_gamelift_toolkit.Proxy.ClientSide.Traffic.{accepted}
use amazon_gamelift_toolkit.Proxy.Examples.{third_dropped, left, move}
use amazon_gamelift_toolkit.Proxy.Pool.{
  ClientConnectionPool, new_pool, create_at, get_or_create_client_connection,
  close_client_connection, close_all, get_source_addr_from_client_connection_port,
  get_player_number_from_client_connection_port,
}
use amazon_gamelift_toolkit.Proxy.Pool
use amazon_gamelift_toolkit.Proxy.Pool.Invariant.{IsPaired, port_at, player_at, new_pool-IsPaired}
use amazon_gamelift_toolkit.Proxy.Pool.Closing.{
  get_or_create_client_connection-IsPaired, close_all_closes,
}
use amazon_gamelift_toolkit.Proxy.Forwarding.{
  Proxy, Outside, received, deadline_exceeded, context_done, idle, handle_incoming_traffic, start,
  forward, process, publish,
}
use amazon_gamelift_toolkit.Proxy.Forwarding.Socket.{
  Socket, SocketTurn, puts, round, bytes_read, handle_socket_traffic, put, take_next, write_next,
  unless_returned,
}
use amazon_gamelift_toolkit.Proxy.Forwarding.Order.{
  puts_of, queue_of, flush, queued_packets_are_written,
}
use amazon_gamelift_toolkit.Proxy.Forwarding.Handlers.{client_side, client_side-OnlyDrops}
use amazon_gamelift_toolkit.Proxy.Forwarding.Delivery.{queue_at, queued, accepted_packet_is_queued}
use amazon_gamelift_toolkit.Proxy.Forwarding.Safety.{HasNoError, start-HasNoError}

abbrev empty_pool : ClientConnectionPool
empty_pool = new_pool (some [])

no_player : (p : ℤ) → port_at empty_pool p ≡ none
unfolding new_pool port_at lookup
no_player p = refl

no_port : (port : ℕ) → player_at empty_pool port ≡ none
unfolding new_pool player_at lookup
no_port port = refl

-- Player 1 at port 40000.
one_player : ClientConnectionPool
one_player = (get_or_create_client_connection empty_pool (some 40000) (pos 1) left).0

one_player-IsPaired : IsPaired one_player
unfolding one_player
one_player-IsPaired =
    get_or_create_client_connection-IsPaired empty_pool (some 40000) (pos 1) left
      (new_pool-IsPaired (some [])) (λ port _. no_port port)

all_listed : (p : ℤ) → port_at one_player p ≡ none ⊎ Elem p (pos 1 ∷ [])
unfolding one_player get_or_create_client_connection new_pool create_at port_at lookup insert
all_listed p = elim (Bool-cases (int_beq (pos 1) p)) [
  | inl same ↦ inr (inl (sym ((int_beq_iff (pos 1) p).0 same)))
  | inr other ↦ inl (ground arith)
]

-- Player 1 asks for a connection, and it is closed.
open_and_closed : Pool.Reach.Reach empty_pool (close_client_connection one_player (pos 1))
unfolding one_player
open_and_closed =
    Pool.Reach.next
      (Pool.Reach.next Pool.Reach.here
        (Pool.Reach.ask empty_pool (some 40000) (pos 1) left (λ port _. no_port port)))
      (Pool.Reach.close _ (pos 1))

reachable-IsPaired_example : IsPaired (close_client_connection one_player (pos 1))
reachable-IsPaired_example = Pool.Reach.reachable-IsPaired (some []) open_and_closed

close_all_closes_example :
    ((p : ℤ) → port_at (close_all one_player (pos 1 ∷ [])) p ≡ none)
    × ((port : ℕ) → player_at (close_all one_player (pos 1 ∷ [])) port ≡ none)
    × ((port : ℕ) → lookup port (close_all one_player (pos 1 ∷ [])).open_sockets ≡ none)
close_all_closes_example = close_all_closes one_player (pos 1 ∷ []) one_player-IsPaired all_listed

abbrev endpoint : Proxy (ClientSideProxyTrafficHandler × TokenManager)
endpoint = record {
  port = 8000;
  client_connection_pool = empty_pool;
  traffic_handler = (third_dropped, duo);
  packet_logger = [];
  written = [];
}

abbrev no_details : List ℤ → Bytes
no_details players = codes "{}"

-- The draw is 50, and a socket can be opened at port 40000.
abbrev outside : Outside ℕ
outside = record { for_handler = 50; new_socket = some 40000; writes = true }

handler_accepts :
    client_side.preprocess (third_dropped, duo) 50 move left
    ≡ ((third_dropped, duo), ok (accepted 1 (codes "move")))
unfolding preprocess_server_bound_traffic has_prefix should_drop_packet parse_client_side_token
    lookup
handler_accepts = refl

loop_accepts :
    (handle_incoming_traffic client_side no_details endpoint outside (received move left)).1 ≡ ok tt
unfolding handle_incoming_traffic process forward publish get_or_create_client_connection new_pool
    preprocess_server_bound_traffic has_prefix should_drop_packet parse_client_side_token lookup
loop_accepts = refl

accepted_packet_is_queued_example :
    queue_at
      (handle_incoming_traffic client_side no_details endpoint outside
        (received move left)).0.client_connection_pool
      (pos 1)
    ≡ queued (queue_at empty_pool (pos 1)) (forwarded 1 (codes "move"))
accepted_packet_is_queued_example =
    accepted_packet_is_queued client_side no_details endpoint outside move left (third_dropped, duo)
      (accepted 1 (codes "move")) (pos 1) handler_accepts refl loop_accepts

start-HasNoError_example :
    HasNoError
      (start client_side no_details endpoint
        (idle outside (received move left) ∷ idle outside deadline_exceeded ∷ context_done ∷ [])).1
start-HasNoError_example =
    start-HasNoError client_side no_details endpoint
      (idle outside (received move left) ∷ idle outside deadline_exceeded ∷ context_done ∷ [])
      client_side-OnlyDrops
      ((refl, (40000, refl), λ e. absurd (cc)), ((refl, (40000, refl), λ e. absurd (cc)), (tt, tt)))

-- A connection in whose channel one packet waits.
abbrev socket : Socket
socket = record {
  client_conn = record { return_traffic_port = 9000; server_bound_traffic_chan = codes "a" ∷ [] };
  written = [];
  forward_to_player_chan = [];
}

-- The proxy puts in two packets, one round writes, and another packet comes.
abbrev socket_turns : List SocketTurn
socket_turns =
    puts (codes "b")
    ∷ puts (codes "c")
    ∷ round true (bytes_read (codes "x"))
    ∷ puts (codes "d")
    ∷ []

queued_packets_are_written_example :
    let now = (handle_socket_traffic socket socket_turns).0 in
    let after = handle_socket_traffic now (flush (length (queue_of now))) in
    (after.1 ≡ none)
    × (after.0.written ≡ codes "a" ∷ codes "b" ∷ codes "c" ∷ codes "d" ∷ [])
    × (queue_of after.0 ≡ [])
unfolding handle_socket_traffic put take_next write_next unless_returned puts_of
queued_packets_are_written_example =
    queued_packets_are_written socket socket_turns (omega arith) refl
