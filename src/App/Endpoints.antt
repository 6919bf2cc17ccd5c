-- ===== src/App/Endpoints.antt =====
-- The endpoints that the set-up creates, and the ports that the collector tells the players.
use amazon_gamelift_toolkit.Base.{
  ℕ, zero, suc, ◌+◌, ◌≡◌, refl, ap, ◌∙◌, Bool, false, List, [], ◌∷◌, ◌++◌, arith, ◌==◌,
  if◌then◌else◌,
}
use amazon_gamelift_toolkit.Base.Int.{pos}
use amazon_gamelift_toolkit.Base.Eq.{int_eq, nat_eq}
use amazon_gamelift_toolkit.Base.Dict.{lookup, insert, lookup-insert}
use amazon_gamelift_toolkit.Go.Text.{Bytes}
use amazon_gamelift_toolkit.Stats.{
  PortLoop, ports_or_nil, fresh_stats, add_endpoints, add_players, new_stats_collector,
}
use amazon_gamelift_toolkit.App.{
  ClientSideEndpoint, EndpointLoop, create_proxy, create_proxies, create_for_players,
  create_client_side_proxies,
}

-- The ports of the endpoints that a player has to use, in the order of their creation.
unfoldable pub ports_for : ℕ → List ClientSideEndpoint → List ℕ
ports_for player [] = []
ports_for player (endpoint ∷ endpoints) =
    let rest = ports_for player endpoints in
    if endpoint.expected_player_number == player then endpoint.port ∷ rest else rest

ports_for-snoc :
    (player : ℕ) (endpoints : List ClientSideEndpoint) (endpoint : ClientSideEndpoint)
    → ports_for player (endpoints ++ endpoint ∷ []) ≡ (
        if endpoint.expected_player_number == player
        then ports_for player endpoints ++ endpoint.port ∷ []
        else ports_for player endpoints)
unfolding ports_for
ports_for-snoc player [] endpoint = ground arith
ports_for-snoc player (e ∷ endpoints) endpoint =
    ground (arith, ports_for-snoc player endpoints endpoint)

-- The loop over the proxies and the loop of the collector are at the same place.
record InStep (loop : EndpointLoop) (ports : PortLoop) : Type 0 where
  same_port : loop.next_port ≡ ports.next_port
  same_ports :
      (player : ℕ)
      → ports_for player loop.client_side_proxies
        ≡ ports_or_nil (lookup (pos player) ports.ports_by_player)

created_more :
    (creates : ℕ → Bool) (player : ℕ) (loop : EndpointLoop)
    → (create_proxy creates player loop).failed ≡ false
    → (loop.failed ≡ false)
      × ((create_proxy creates player loop).next_port ≡ loop.next_port + 1)
      × ((create_proxy creates player loop).client_side_proxies
          ≡ loop.client_side_proxies
            ++ record { port = loop.next_port; expected_player_number = player } ∷ [])
unfolding create_proxy
created_more creates player loop h = ground arith

-- One round of the collector's inner loop.
abbrev next_ports : ℕ → PortLoop → PortLoop
next_ports player ports = record {
  next_port = ports.next_port + 1;
  stats_by_port = insert ports.next_port (fresh_stats ports.next_port) ports.stats_by_port;
  ports_by_player =
      insert (pos player)
        (ports_or_nil (lookup (pos player) ports.ports_by_player) ++ ports.next_port ∷ [])
        ports.ports_by_player;
}

create_proxy-InStep :
    (creates : ℕ → Bool) (player : ℕ) (loop : EndpointLoop) (ports : PortLoop)
    → (create_proxy creates player loop).failed ≡ false
    → InStep loop ports
    → InStep (create_proxy creates player loop) (next_ports player ports)
create_proxy-InStep creates player loop ports h s =
    let (_, next, created) = created_more creates player loop h in
    record {
      same_port = next ∙ ap (λ z. z + 1) s.same_port;
      same_ports = λ q.
          ap (ports_for q) created
          ∙ ports_for-snoc q loop.client_side_proxies
              (record { port = loop.next_port; expected_player_number = player })
          ∙ stored q;
    }
  where
    stored :
        (q : ℕ)
        → (if player == q
            then ports_for q loop.client_side_proxies ++ loop.next_port ∷ []
            else ports_for q loop.client_side_proxies)
          ≡ ports_or_nil (lookup (pos q) (next_ports player ports).ports_by_player)
    stored q = ground (
      arith,
      lookup-insert (pos player) (pos q)
          (ports_or_nil (lookup (pos player) ports.ports_by_player) ++ ports.next_port ∷ [])
          ports.ports_by_player,
      s.same_ports q,
      s.same_ports player,
      s.same_port,
    )

-- A failure stays: a loop that has not failed had not failed before.
proxies_unfailed :
    (creates : ℕ → Bool) (rounds player : ℕ) (loop : EndpointLoop)
    → (create_proxies creates rounds player loop).failed ≡ false
    → loop.failed ≡ false
unfolding create_proxies
proxies_unfailed creates zero player loop h = h
proxies_unfailed creates (suc rounds) player loop h =
    (created_more creates player loop
      (proxies_unfailed creates rounds player (create_proxy creates player loop) h)).0

players_unfailed :
    (creates : ℕ → Bool) (n rounds player : ℕ) (loop : EndpointLoop)
    → (create_for_players creates n rounds player loop).failed ≡ false
    → loop.failed ≡ false
unfolding create_for_players
players_unfailed creates n zero player loop h = h
players_unfailed creates n (suc rounds) player loop h =
    proxies_unfailed creates n player loop
      (players_unfailed creates n rounds (suc player) (create_proxies creates n player loop) h)

create_proxies-InStep :
    (creates : ℕ → Bool) (rounds player : ℕ) (loop : EndpointLoop) (ports : PortLoop)
    → (create_proxies creates rounds player loop).failed ≡ false
    → InStep loop ports
    → InStep (create_proxies creates rounds player loop) (add_endpoints rounds (pos player) ports)
unfolding create_proxies add_endpoints
create_proxies-InStep creates zero player loop ports h s = s
create_proxies-InStep creates (suc rounds) player loop ports h s =
    let next = create_proxy creates player loop in
    create_proxies-InStep creates rounds player next (next_ports player ports) h (
      create_proxy-InStep creates player loop ports (proxies_unfailed creates rounds player next h)
        s)

create_for_players-InStep :
    (creates : ℕ → Bool) (n rounds player : ℕ) (loop : EndpointLoop) (ports : PortLoop)
    → (create_for_players creates n rounds player loop).failed ≡ false
    → InStep loop ports
    → InStep (create_for_players creates n rounds player loop) (add_players n rounds player ports)
unfolding create_for_players add_players
create_for_players-InStep creates n zero player loop ports h s = s
create_for_players-InStep creates n (suc rounds) player loop ports h s =
    let next = create_proxies creates n player loop in
    create_for_players-InStep creates n rounds (suc player) next
      (add_endpoints n (pos player) ports) h
      (create_proxies-InStep creates n player loop ports
        (players_unfailed creates n rounds (suc player) next h) s)

-- If every client-side proxy can be created, the ports at which the proxies of a player listen are,
-- in order, the ports that the collector of the same start port, endpoint count and player count
-- holds for that player.
pub create_client_side_proxies_match :
    (creates : ℕ → Bool) (n count start_port player : ℕ) (ip : Bytes)
    → (create_client_side_proxies creates n count start_port).failed ≡ false
    → ports_for player (create_client_side_proxies creates n count start_port).client_side_proxies
      ≡ ports_or_nil
          (lookup (pos player) (new_stats_collector start_port n count ip).player_endpoints)
unfolding create_client_side_proxies new_stats_collector
create_client_side_proxies_match creates n count start_port player ip h =
    let s =
      create_for_players-InStep creates n count 1
        (record { next_port = start_port; client_side_proxies = []; failed = false })
        (record { next_port = start_port; stats_by_port = []; ports_by_player = [] }) h
        (record { same_port = refl; same_ports = λ q. unfold ports_for lookup in refl }) in
    s.same_ports player
