-- ===== src/App/Examples.antt =====
-- A set-up of two players with two endpoints each, and port ranges.
use amazon_gamelift_toolkit.Base.{ℕ, ◌+◌, ◌≤◌, ◌≡◌, refl, true, false, [], ◌∷◌, arith}
use amazon_gamelift_toolkit.Base.Int.{pos, ltb_ℤ}
use amazon_gamelift_toolkit.Base.Result.{ok, err}
use amazon_gamelift_toolkit.Go.Text.{codes, cut, split}
use amazon_gamelift_toolkit.Go.Decimal.{atoi}
use amazon_gamelift_toolkit.Common.{
  parse_port_range, matches_port_range, part_number, validate_number_within_bounds,
}
use amazon_gamelift_toolkit.Token.Examples.{draw}
use amazon_gamelift_toolkit.App.{
  Config, Machine, validate_port_range, validate_flags, find_clientside_proxy_port_range_start,
  setup_proxies, mul_int, insufficient_ports, create_client_side_proxies, create_for_players,
  create_proxies, create_proxy,
}
use amazon_gamelift_toolkit.App.Flags.{validate_port_range_suffices}
use amazon_gamelift_toolkit.App.Endpoints.{ports_for}
use amazon_gamelift_toolkit.App.Setup.{IsSetUp, setup_proxies-IsSetUp}

abbrev config : Config
config = record {
  ip_address = codes "127.0.0.1";
  port_range = codes "5000-5003";
  server_ip_address = codes "127.0.0.1";
  server_port = pos 7777;
  player_count = pos 2;
  udp_endpoint_count = pos 2;
}

range_valid : validate_port_range (codes "5000-5003") (pos 2) (pos 2) ≡ ok tt
unfolding validate_port_range parse_port_range matches_port_range part_number atoi cut split
    validate_number_within_bounds mul_int
range_valid = refl

range_too_small : validate_port_range (codes "5000-5002") (pos 2) (pos 2) ≡ err insufficient_ports
unfolding validate_port_range parse_port_range matches_port_range part_number atoi cut split
    validate_number_within_bounds mul_int
range_too_small = refl

config_valid : validate_flags (λ text. true) config ≡ ok tt
unfolding validate_flags parse_port_range matches_port_range part_number atoi cut split
    validate_number_within_bounds mul_int
config_valid = refl

abbrev machine : Machine
machine = record {
  draws = draw;
  available = λ port. true;
  creates_server = true;
  creates = λ port. true;
}

set_up : (setup_proxies machine config).1 ≡ ok tt
unfolding setup_proxies find_clientside_proxy_port_range_start parse_port_range matches_port_range
    part_number atoi cut split create_client_side_proxies create_for_players create_proxies
    create_proxy
set_up = refl

second_player : ports_for 2 (setup_proxies machine config).0.client_side_proxies ≡ 5002 ∷ 5003 ∷ []
unfolding setup_proxies find_clientside_proxy_port_range_start parse_port_range matches_port_range
    part_number atoi cut split create_client_side_proxies create_for_players create_proxies
    create_proxy ports_for
second_player = refl

validate_port_range_suffices_example :
    (start_port : ℕ) × (end_port : ℕ) × (parse_port_range (codes "5000-5003")
      ≡ ok (pos start_port, pos end_port))
    × (1 ≤ start_port)
    × (end_port ≤ 65535)
    × (start_port + 4 ≤ end_port + 1)
validate_port_range_suffices_example =
    validate_port_range_suffices (codes "5000-5003") 2 2 (λ e. absurd (cc)) (omega arith)
      (omega arith) (omega arith) range_valid

setup_proxies-IsSetUp_example :
    (start_port : ℕ) × (find_clientside_proxy_port_range_start machine.available config
      ≡ ok start_port)
    × (ltb_ℤ config.player_count (pos 1) ≡ false)
    × IsSetUp machine config (setup_proxies machine config).0 start_port
setup_proxies-IsSetUp_example = setup_proxies-IsSetUp machine config set_up
