-- ===== src/App/Setup.antt =====
-- What a set-up that succeeds has built.
use amazon_gamelift_toolkit.Base.{ℕ, ◌≡◌, refl, inl, inr, true, false, some, arith, Bool-cases}
use amazon_gamelift_toolkit.Base.Int.{pos, pos_part, ltb_ℤ}
use amazon_gamelift_toolkit.Base.Eq.{int_eq}
use amazon_gamelift_toolkit.Base.Dict.{lookup}
use amazon_gamelift_toolkit.Base.Result.{Result, ok, err, panic}
use amazon_gamelift_toolkit.Token.{new_token_manager}
use amazon_gamelift_toolkit.Stats.{new_stats_collector, ports_or_nil}
use amazon_gamelift_toolkit.App.{
  Config, Machine, App, AppError, setup_from, setup_proxies, find_clientside_proxy_port_range_start,
}
use amazon_gamelift_toolkit.App.Endpoints.{ports_for, create_client_side_proxies_match}

-- The proxies, the collector and the token manager of a set-up with a start port.
pub record IsSetUp (machine : Machine) (c : Config) (app : App) (start_port : ℕ) : Type 0 where
  pub has_tokens :
      app.token_manager ≡ some (new_token_manager machine.draws (pos_part c.player_count))
  pub has_server : app.has_server_side_proxy ≡ true
  pub has_stats :
      app.stats_collector
      ≡ some (
          new_stats_collector start_port
            (pos_part c.udp_endpoint_count)
            (pos_part c.player_count)
            c.ip_address)
  pub same_ports :
      (player : ℕ)
      → ports_for player app.client_side_proxies
        ≡ ports_or_nil (
            lookup
              (pos player)
              (new_stats_collector start_port
                (pos_part c.udp_endpoint_count)
                (pos_part c.player_count)
                c.ip_address).player_endpoints)

setup_from-IsSetUp :
    (machine : Machine) (c : Config) (start_port : ℕ)
    → (setup_from machine c
        (new_token_manager machine.draws (pos_part c.player_count))
        start_port).1
      ≡ ok tt
    → IsSetUp machine c
        (setup_from machine c
          (new_token_manager machine.draws (pos_part c.player_count))
          start_port).0
        start_port
unfolding setup_from
setup_from-IsSetUp machine c start_port h =
    let n = pos_part c.udp_endpoint_count in
    let count = pos_part c.player_count in
    elim (Bool-cases machine.creates_server) [
      | inr e ↦ absurd (ground arith)
      | inl created ↦
          rw (created, setup_from)
            (record {
              has_tokens = refl;
              has_server = refl;
              has_stats = refl;
              same_ports = λ player.
                  create_client_side_proxies_match machine.creates n count start_port player
                    c.ip_address (ground arith);
            })
    ]

-- A set-up that succeeds has a player, a start port, the server-side proxy, a token manager for all
-- players, and a collector; and the proxies of every player listen, in order, at the ports that the
-- collector tells that player.
pub setup_proxies-IsSetUp :
    (machine : Machine) (c : Config)
    → (setup_proxies machine c).1 ≡ ok tt
    → (start_port : ℕ) × (find_clientside_proxy_port_range_start machine.available c
        ≡ ok start_port)
      × (ltb_ℤ c.player_count (pos 1) ≡ false)
      × IsSetUp machine c (setup_proxies machine c).0 start_port
unfolding setup_proxies
setup_proxies-IsSetUp machine c h = elim (Bool-cases (ltb_ℤ c.player_count (pos 1))) [
  | inl few ↦ absurd (ground arith)
  | inr enough ↦ split (find_clientside_proxy_port_range_start machine.available c) refl enough
]
  where
    split :
        (r : Result AppError ℕ)
        → find_clientside_proxy_port_range_start machine.available c ≡ r
        → ltb_ℤ c.player_count (pos 1) ≡ false
        → (start_port : ℕ) × (find_clientside_proxy_port_range_start machine.available c
            ≡ ok start_port)
          × (ltb_ℤ c.player_count (pos 1) ≡ false)
          × IsSetUp machine c (setup_proxies machine c).0 start_port
    split (err e) is enough = absurd (ground arith)
    split panic is enough = absurd (ground arith)
    split (ok start_port) is enough = (
      start_port,
      is,
      enough,
      rw (enough, is) (setup_from-IsSetUp machine c start_port (ground arith)),
    )
