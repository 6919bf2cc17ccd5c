-- ===== src/Proxy/Examples.antt =====
-- Runs of both handlers on small inputs, and the theorems about them there.
use amazon_gamelift_toolkit.Base.{
  ℕ, ◌≤◌, ◌<◌, ◌≡◌, ◌≢◌, ◌*◌, refl, subst, ◌↔◌, false, [], ◌∷◌, ◌++◌, none, some, arith, length,
  get_elem?,
}
use amazon_gamelift_toolkit.Base.Int.{ℤ, pos}
use amazon_gamelift_toolkit.Base.Eq.{nat_eq, int_eq, bytes_eq}
use amazon_gamelift_toolkit.Base.Result.{ok, panic}
use amazon_gamelift_toolkit.Base.Dict.{lookup, insert}
use amazon_gamelift_toolkit.Base.Elem.{Elem}
use amazon_gamelift_toolkit.Go.Text.{Bytes, codes, has_prefix, trim_space, cut}
use amazon_gamelift_toolkit.Go.Decimal.{atoi}
use amazon_gamelift_toolkit.Token.{parse_client_side_token}
use amazon_gamelift_toolkit.Token.Parse.{CarriesToken, forwarded}
use amazon_gamelift_toolkit.Token.Examples.{duo, duo-IsConsistent, first_token}
use amazon_gamelift_toolkit.Proxy.{UdpAddr, degradation_result}
use amazon_gamelift_toolkit.Proxy.ClientSide.{
  set_degradation, parse_config_command, run_command, config_command_prefix,
  ClientSideProxyTrafficHandler, should_drop_packet, preprocess_server_bound_traffic,
}
use amazon_gamelift_toolkit.Proxy.ClientSide.Degradation.{
  IsPercentage, preprocess_server_bound_traffic-IsPercentage,
}
use amazon_gamelift_toolkit.Proxy.ClientSide.Traffic.{
  accepted, Unchanged, preprocess_game_traffic, client_to_server,
}
use amazon_gamelift_toolkit.Proxy.ServerSide
use amazon_gamelift_toolkit.Proxy.ServerSide.{
  ServerSideProxyTrafficHandler, new_handler, record_source, sources_of, second, addr_of,
  handle_client_bound_traffic, send_round_robin, targets_of, find_client_info, stamp,
}
use amazon_gamelift_toolkit.Proxy.ServerSide.View.{view, seen}
use amazon_gamelift_toolkit.Proxy.ServerSide.Invariant.{
  IsLinked, new_handler-IsLinked, handle_client_bound_traffic-IsLinked,
}
use amazon_gamelift_toolkit.Proxy.ServerSide.Sources.{record_source-IsLinked, record_source-view}
use amazon_gamelift_toolkit.Proxy.ServerSide.RoundRobin.{
  IsFresh, index_of, handle_client_bound_traffic-panic_iff,
  handle_client_bound_traffic_sends_to_source,
}
use amazon_gamelift_toolkit.Proxy.ServerSide.Rotation.{replies, IsSteady, replies_reach_all}

abbrev pub left : UdpAddr
left = record { host = codes "127.0.0.1"; port = 6000 }

abbrev pub right : UdpAddr
right = record { host = codes "127.0.0.1"; port = 6001 }

-- Player 1 is heard of through two proxies at time 0.
abbrev two_sources : ServerSideProxyTrafficHandler
two_sources = record {
  infos =
      record { source_addr = left; last_received_timestamp = 0 }
      ∷ record { source_addr = right; last_received_timestamp = 0 }
      ∷ [];
  client_side_proxy_sources = (pos 1, 0 ∷ 1 ∷ []) ∷ [];
  last_used_source = (pos 1, 1) ∷ [];
  next_source_index = [];
}

two_sources_reached :
    record_source (record_source new_handler 0 (pos 1) left) 0 (pos 1) right ≡ two_sources
unfolding new_handler record_source find_client_info insert lookup
two_sources_reached = refl

two_sources-IsLinked : IsLinked two_sources
two_sources-IsLinked = subst IsLinked two_sources_reached (
    record_source-IsLinked (record_source new_handler 0 (pos 1) left) 0 (pos 1) right
      (record_source-IsLinked new_handler 0 (pos 1) left new_handler-IsLinked))

-- A reply goes to the first source, and two seconds later only that one is heard of.
abbrev one_silent : ServerSideProxyTrafficHandler
one_silent = record {
  infos =
      record { source_addr = left; last_received_timestamp = 2 * second }
      ∷ record { source_addr = right; last_received_timestamp = 0 }
      ∷ [];
  client_side_proxy_sources = (pos 1, 0 ∷ 1 ∷ []) ∷ [];
  last_used_source = (pos 1, 0) ∷ [];
  next_source_index = (pos 1, 1) ∷ [];
}

replied : ServerSideProxyTrafficHandler
replied = (handle_client_bound_traffic two_sources 1 (some (pos 1))).0

one_silent_reached : record_source replied (2 * second) (pos 1) left ≡ one_silent
unfolding replied handle_client_bound_traffic record_source find_client_info insert lookup
    ServerSide.filter_active_sources stamp
one_silent_reached = refl

one_silent-IsLinked : IsLinked one_silent
unfolding replied
one_silent-IsLinked = subst IsLinked one_silent_reached (
    record_source-IsLinked replied (2 * second) (pos 1) left
      (handle_client_bound_traffic-IsLinked two_sources 1 (some (pos 1)) two_sources-IsLinked))

one_silent-IsFresh : IsFresh one_silent (2 * second) (pos 1) 0
unfolding lookup
one_silent-IsFresh = record { info = _; known = refl; is_at = refl; recent = omega arith }

two_sources-IsFresh : IsFresh two_sources 1 (pos 1) 1
unfolding lookup
two_sources-IsFresh = record { info = _; known = refl; is_at = refl; recent = omega arith }

-- The handler panics in a run from its start.
round_robin_panics : (handle_client_bound_traffic one_silent (2 * second) (some (pos 1))).1 ≡ panic
unfolding handle_client_bound_traffic lookup ServerSide.filter_active_sources
round_robin_panics = refl

-- A packet of player 1 and a reply.
abbrev server_bound : Bytes
server_bound = codes "1|move"

run_of_two :
    ServerSide.Reach.Reach new_handler
      (handle_client_bound_traffic
        (ServerSide.preprocess_server_bound_traffic new_handler 0 server_bound left).0
        5
        (some (pos 1))).0
run_of_two =
    ServerSide.Reach.next
      (ServerSide.Reach.next ServerSide.Reach.here
        (ServerSide.Reach.arrive new_handler 0 server_bound left))
      (ServerSide.Reach.reply _ 5 (some (pos 1)))

reachable-IsLinked_example :
    IsLinked
      (handle_client_bound_traffic
        (ServerSide.preprocess_server_bound_traffic new_handler 0 server_bound left).0
        5
        (some (pos 1))).0
reachable-IsLinked_example = ServerSide.Reach.reachable-IsLinked run_of_two

record_source-view_example :
    (view (record_source two_sources 5 (pos 1) left) (pos 1)
      ≡ seen left 5 (view two_sources (pos 1)))
    × ((q : ℤ) → q ≢ pos 1 → view (record_source two_sources 5 (pos 1) left) q ≡ view two_sources q)
record_source-view_example = record_source-view two_sources 5 (pos 1) left two_sources-IsLinked

handle_client_bound_traffic-panic_iff_example :
    ((handle_client_bound_traffic one_silent (2 * second) (some (pos 1))).1 ≡ panic)
    ↔ (length (targets_of one_silent (2 * second) (pos 1) 0) ≤ index_of one_silent (pos 1))
handle_client_bound_traffic-panic_iff_example =
    handle_client_bound_traffic-panic_iff one_silent (2 * second) (pos 1) 0 one_silent-IsLinked
      one_silent-IsFresh

sent_left : (handle_client_bound_traffic two_sources 1 (some (pos 1))).1 ≡ ok (some left)
unfolding handle_client_bound_traffic lookup ServerSide.filter_active_sources
sent_left = refl

handle_client_bound_traffic_sends_to_source_example :
    ((last_used : ℕ) × IsFresh two_sources 1 (pos 1) last_used)
    × (ptr : ℕ) × (info : ServerSide.ClientSideProxyInfo) × (Elem ptr
        (sources_of two_sources (pos 1)))
    × (get_elem? two_sources.infos ptr ≡ some info)
    × (info.source_addr ≡ left)
handle_client_bound_traffic_sends_to_source_example =
    handle_client_bound_traffic_sends_to_source two_sources 1 (pos 1) left two_sources-IsLinked
      sent_left

two_sources-IsSteady : IsSteady two_sources (pos 1) (0 ∷ 1 ∷ []) (1 ∷ 1 ∷ 1 ∷ [])
unfolding lookup ServerSide.filter_active_sources
two_sources-IsSteady = (steady, (steady, (steady, tt)))
  where
    steady :
        (last_used : ℕ) × IsFresh two_sources 1 (pos 1) last_used
        × (targets_of two_sources 1 (pos 1) last_used ≡ 0 ∷ 1 ∷ [])
    steady = (1, two_sources-IsFresh, refl)

index_of-two_sources : index_of two_sources (pos 1) < 2
unfolding lookup
index_of-two_sources = omega arith

replies_reach_all_example :
    (i : ℕ) × (i < 2)
    × (get_elem? (replies two_sources (pos 1) (1 ∷ 1 ∷ 1 ∷ [])) i
        ≡ some (addr_of two_sources.infos (get_elem? (0 ∷ 1 ∷ []) 1)))
replies_reach_all_example =
    replies_reach_all two_sources (pos 1) (0 ∷ 1 ∷ []) (1 ∷ 1 ∷ 1 ∷ []) 1 index_of-two_sources
      two_sources-IsSteady (omega arith) (omega arith)

abbrev pub third_dropped : ClientSideProxyTrafficHandler
third_dropped = record {
  degradation_percentage = pos 33;
  expected_player_number = 1;
  requested_player_numbers = [];
}

too_much :
    (preprocess_server_bound_traffic third_dropped duo 0
      (codes "PlayerGateway:SetDegradation:101")).2
    ≡ ok (record {
      player_number = pos 0;
      packet = [];
      config_command = some (degradation_result (pos 100));
    })
unfolding preprocess_server_bound_traffic parse_config_command run_command has_prefix trim_space cut
    set_degradation atoi
too_much = refl

preprocess_server_bound_traffic-IsPercentage_example :
    IsPercentage
      (preprocess_server_bound_traffic third_dropped duo 0
        (codes "PlayerGateway:SetDegradation:101")).0
preprocess_server_bound_traffic-IsPercentage_example =
    preprocess_server_bound_traffic-IsPercentage third_dropped duo 0
      (codes "PlayerGateway:SetDegradation:101") (omega arith, omega arith)

abbrev pub move : Bytes
move = first_token ++ codes "move"

-- The draw 50 is not below 33.
moved :
    (preprocess_server_bound_traffic third_dropped duo 50 move).2 ≡ ok (accepted 1 (codes "move"))
unfolding preprocess_server_bound_traffic lookup has_prefix should_drop_packet
    parse_client_side_token
moved = refl

move_plain : has_prefix move config_command_prefix ≡ false
unfolding has_prefix
move_plain = refl

preprocess_game_traffic_example :
    Unchanged third_dropped duo 50 move
    × (((preprocess_server_bound_traffic third_dropped duo 50 move).2
          ≡ ok (accepted 1 (codes "move")))
        ↔ ((should_drop_packet third_dropped 50 ≡ false)
            × (game : Bytes) × CarriesToken duo move 1 game
            × (accepted 1 (codes "move") ≡ accepted 1 game)))
preprocess_game_traffic_example =
    preprocess_game_traffic third_dropped duo 50 move (accepted 1 (codes "move")) duo-IsConsistent
      move_plain

client_to_server_example :
    (game : Bytes) × CarriesToken duo move 1 game
    × (ServerSide.preprocess_server_bound_traffic two_sources 7 (forwarded 1 (codes "move")) left
        ≡ (
          record_source two_sources 7 (pos 1) left,
          ok (record { player_number = pos 1; packet = game; config_command = none }),
        ))
client_to_server_example =
    client_to_server third_dropped duo 50 move (accepted 1 (codes "move")) two_sources 7 left
      duo-IsConsistent move_plain (omega arith) moved
