-- ===== src/Proxy/ClientSide/Traffic.antt =====
-- Game traffic at a client-side endpoint, and its way through both proxies to the game server.
use amazon_gamelift_toolkit.Base.{
  ℕ, ◌≤◌, ◌≡◌, refl, ap, ◌∙◌, inl, inr, ◌↔◌, false, none, arith, Bool-cases, ◌==◌,
}
use amazon_gamelift_toolkit.Base.Int.{pos}
use amazon_gamelift_toolkit.Base.Result.{Result, ok, err, panic}
use amazon_gamelift_toolkit.Go.Text.{Bytes, has_prefix}
use amazon_gamelift_toolkit.Go.Decimal.{max_int}
use amazon_gamelift_toolkit.Token.{TokenManager, TokenError, parse_client_side_token}
use amazon_gamelift_toolkit.Token.Invariant.{IsConsistent}
use amazon_gamelift_toolkit.Token.Parse.{
  CarriesToken, forwarded, parse_client_side_token-ok_iff, parse_server_side_token-forwarded,
}
use amazon_gamelift_toolkit.Proxy.{UdpAddr, PreprocessServerBoundTrafficResult}
use amazon_gamelift_toolkit.Proxy.ClientSide.{
  ClientSideProxyTrafficHandler, checked, should_drop_packet, preprocess_server_bound_traffic,
  config_command_prefix,
}
use amazon_gamelift_toolkit.Proxy.ServerSide
use amazon_gamelift_toolkit.Proxy.ServerSide.{ServerSideProxyTrafficHandler, record_source}

-- What is handed on for a packet of player `n`.
abbrev pub accepted : ℕ → Bytes → PreprocessServerBoundTrafficResult
accepted n game = record { player_number = pos n; packet = forwarded n game; config_command = none }

-- An outcome of the handler that leaves its state and the tokens alone.
abbrev pub Unchanged : ClientSideProxyTrafficHandler → TokenManager → ℕ → Bytes → Type 0
Unchanged h tm draw packet =
    ((preprocess_server_bound_traffic h tm draw packet).0 ≡ h)
    × ((preprocess_server_bound_traffic h tm draw packet).1 ≡ tm)

checked_ok :
    (expected : ℕ) (r : Result TokenError (ℕ × Bytes)) {out : PreprocessServerBoundTrafficResult}
    → checked expected r ≡ ok out
    → (bytes : Bytes) × (r ≡ ok (expected, bytes))
      × (out ≡ record { player_number = pos expected; packet = bytes; config_command = none })
unfolding checked
checked_ok expected (err e) h = absurd (cc)
checked_ok expected panic h = absurd (cc)
checked_ok expected (ok (n, bytes)) h = elim (Bool-cases (n == expected)) [
  | inl same ↦ (bytes, ground arith, ground arith)
  | inr other ↦ absurd (ground arith)
]

checked_expected :
    (n : ℕ) (bytes : Bytes)
    → checked n (ok (n, bytes))
      ≡ ok (record { player_number = pos n; packet = bytes; config_command = none })
unfolding checked
checked_expected n bytes = ground arith

-- With a consistent manager, a packet that is no configuration command changes neither the endpoint nor the tokens. It is
-- handed on exactly if it is not dropped and starts with the token of the player to whom the
-- endpoint belongs; what is handed on is the player's number, the delimiter and the game data.
pub preprocess_game_traffic :
    (h : ClientSideProxyTrafficHandler) (tm : TokenManager) (draw : ℕ) (packet : Bytes)
    (out : PreprocessServerBoundTrafficResult)
    → IsConsistent tm
    → has_prefix packet config_command_prefix ≡ false
    → Unchanged h tm draw packet
      × (((preprocess_server_bound_traffic h tm draw packet).2 ≡ ok out) ↔ (
          (should_drop_packet h draw ≡ false)
          × (game : Bytes) × CarriesToken tm packet h.expected_player_number game
          × (out ≡ accepted h.expected_player_number game)))
unfolding preprocess_server_bound_traffic
preprocess_game_traffic h tm draw packet out v plain =
    let n = h.expected_player_number in
    let r = parse_client_side_token tm packet in
    elim (Bool-cases (should_drop_packet h draw)) [
      | inl dropped ↦
          ((ground arith, ground arith), (λ e. absurd (ground arith), λ k. absurd (ground arith)))
      | inr keep ↦ (
        (ground arith, ground arith),
        (
          λ e.
              let (bytes, parsed, is) = checked_ok n r {out = out} (ground arith) in
              let (game, carries, sends) =
                (parse_client_side_token-ok_iff tm packet bytes n v).0 parsed in
              (keep, game, carries, ground arith),
          λ (_, game, carries, is).
              let parsed =
                (parse_client_side_token-ok_iff tm packet (forwarded n game) n v).1
                  (game, carries, refl) in
              ground (arith, parsed, is),
        ),
      )
    ]

received :
    (s : ServerSideProxyTrafficHandler) (now : ℕ) (a : UdpAddr) (n : ℕ) (game : Bytes)
    → n ≤ max_int
    → ServerSide.preprocess_server_bound_traffic s now (forwarded n game) a ≡ (
      record_source s now (pos n) a,
      ok (record { player_number = pos n; packet = game; config_command = none }),
    )
unfolding ServerSide.preprocess_server_bound_traffic
received s now a n game fits = ground (arith, parse_server_side_token-forwarded n game fits)

-- With a consistent manager, a packet of game traffic that the client side hands on for a player, sent to the server side, is taken for that
-- player there, with the same game data, and the client-side proxy becomes a source of the player.
-- The number of the player has to fit in an `int`.
pub client_to_server :
    (h : ClientSideProxyTrafficHandler) (tm : TokenManager) (draw : ℕ) (packet : Bytes)
    (out : PreprocessServerBoundTrafficResult) (s : ServerSideProxyTrafficHandler) (now : ℕ)
    (proxy_addr : UdpAddr)
    → IsConsistent tm
    → has_prefix packet config_command_prefix ≡ false
    → h.expected_player_number ≤ max_int
    → (preprocess_server_bound_traffic h tm draw packet).2 ≡ ok out
    → (game : Bytes) × CarriesToken tm packet h.expected_player_number game
      × (ServerSide.preprocess_server_bound_traffic s now out.packet proxy_addr ≡ (
        record_source s now (pos h.expected_player_number) proxy_addr,
        ok (record {
          player_number = pos h.expected_player_number;
          packet = game;
          config_command = none;
        }),
      ))
client_to_server h tm draw packet out s now proxy_addr v plain fits e =
    let (_, game, carries, is) = (preprocess_game_traffic h tm draw packet out v plain).1.0 e in
    (
      game,
      carries,
      ap
            (λ (o : PreprocessServerBoundTrafficResult).
              ServerSide.preprocess_server_bound_traffic s now o.packet proxy_addr)
            is
          ∙ received s now proxy_addr h.expected_player_number game fits,
    )
