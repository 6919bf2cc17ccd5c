-- ===== src/Proxy/Details/Examples.antt =====
-- Connection details of two players.
use amazon_gamelift_toolkit.Base.{◌≡◌, refl, [], ◌∷◌}
use amazon_gamelift_toolkit.Base.Int.{pos}
use amazon_gamelift_toolkit.Base.Elem.{Elem}
use amazon_gamelift_toolkit.Go.Text.{codes}
use amazon_gamelift_toolkit.Go.Decimal.{itoa, itoa_ℕ}
use amazon_gamelift_toolkit.Base.Eq.{nat_eq}
use amazon_gamelift_toolkit.Base.Dict.{lookup}
use amazon_gamelift_toolkit.Stats.Snapshot.{StatsSnapshot}
use amazon_gamelift_toolkit.Proxy.Details.{
  PlayerConnectionDetail, build_connection_details, details_from, detail_of, endpoints_of,
  is_requested,
}

abbrev snapshot : StatsSnapshot
snapshot = record {
  ip_address = codes "127.0.0.1";
  endpoint_stats = [];
  player_connections = [];
  valid_tokens = (1, codes "YQ==") ∷ (2, codes "Yg==") ∷ [];
  player_endpoints = (pos 1, 8000 ∷ []) ∷ (pos 2, 8001 ∷ []) ∷ [];
}

abbrev second_player_details : PlayerConnectionDetail
second_player_details = record {
  player_number = codes "2";
  endpoints = record { ip_address = codes "127.0.0.1"; port = 8001 } ∷ [];
  player_gateway_token = codes "Yg==";
  expiration = 1180;
}

only_the_second : build_connection_details snapshot 1000 (pos 2 ∷ []) ≡ second_player_details ∷ []
unfolding build_connection_details details_from detail_of endpoints_of is_requested itoa itoa_ℕ
    lookup
only_the_second = refl
