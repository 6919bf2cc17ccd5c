-- ===== src/App.antt =====
-- player-gateway-testing-app/cmd/flags.go and internal/app/app.go: the validation of the flags, and
-- the set-up of the proxies. An `int` product wraps at 64 bits. Outside answers are arguments: which
-- texts net.ParseIP reads, which ports are free, and at which ports a proxy can be created.
pub mod Endpoints
pub mod Flags
pub mod Setup
pub mod Examples
use amazon_gamelift_toolkit.Base.{
  ℕ, zero, suc, ◌+◌, ◌-◌, ◌*◌, ◌%◌, Bool, true, false, List, [], ◌∷◌, ◌++◌, Option, none, some, ltb,
  ◌==◌, if◌then◌else◌,
}
use amazon_gamelift_toolkit.Base.Int.{ℤ, pos, negsuc, pos_part, ltb_ℤ}
use amazon_gamelift_toolkit.Base.Eq.{bytes_beq}
use amazon_gamelift_toolkit.Base.Result.{Result, ok, err, panic}
use amazon_gamelift_toolkit.Go.Text.{Bytes}
use amazon_gamelift_toolkit.Common.{
  CommonError, min_port, max_port, parse_port_range, validate_number_within_bounds,
  find_available_port_range,
}
use amazon_gamelift_toolkit.Token.{TokenManager, new_token_manager}
use amazon_gamelift_toolkit.Stats.{StatsCollector, new_stats_collector, word_size}

pub record Config : Type 0 where
  pub ip_address : Bytes
  pub port_range : Bytes
  pub server_ip_address : Bytes
  pub server_port : ℤ
  pub player_count : ℤ
  pub udp_endpoint_count : ℤ

pub data AppError : Type 0 where
  invalid_ip_address invalid_server_ip_address : AppError
  endpoint_count_out_of_bounds server_port_out_of_bounds : AppError
  invalid_port_range : CommonError → AppError
  start_above_end start_port_out_of_bounds end_port_out_of_bounds insufficient_ports : AppError
  player_count_too_small no_start_port : AppError
  server_side_proxy_failed client_side_proxy_failed : AppError

-- A 64-bit word read as an `int`, and back.
abbrev pub of_word : ℕ → ℤ
of_word n = if ltb (n + n) word_size then pos n else negsuc (word_size - 1 - n)

abbrev pub to_word : ℤ → ℕ
to_word (pos n) = n % word_size
to_word (negsuc n) = word_size - 1 - n % word_size

unfoldable pub mul_int : ℤ → ℤ → ℤ
mul_int a b = of_word (to_word a * to_word b % word_size)

-- The number of ports between two ports, both included.
abbrev pub available_ports : ℤ → ℤ → ℤ
available_ports start_port end_port = pos (pos_part end_port - pos_part start_port + 1)

-- validatePortRange for the bounds that were read.
unfoldable pub validate_ports : ℤ → ℤ → ℤ → Result AppError (Unit {0})
unfolding validate_number_within_bounds
validate_ports start_port end_port total_endpoints =
    if ltb_ℤ end_port start_port
    then err start_above_end
    else (elim (validate_number_within_bounds start_port min_port max_port) [
      | err _ ↦ err start_port_out_of_bounds
      | panic ↦ panic
      | ok _ ↦ elim (validate_number_within_bounds end_port min_port max_port) [
        | err _ ↦ err end_port_out_of_bounds
        | panic ↦ panic
        | ok _ ↦
            if ltb_ℤ (available_ports start_port end_port) total_endpoints
            then err insufficient_ports
            else ok tt
      ]
    ])

unfoldable pub validate_port_range : Bytes → ℤ → ℤ → Result AppError (Unit {0})
unfolding validate_ports
validate_port_range port_range endpoint_count player_count =
    if bytes_beq port_range [] then ok tt else (elim (parse_port_range port_range) [
      | err e ↦ err (invalid_port_range e)
      | panic ↦ panic
      | ok ports ↦ validate_ports ports.0 ports.1 (mul_int endpoint_count player_count)
    ])

-- `parse_ip` says which texts net.ParseIP reads.
unfoldable pub validate_flags : (Bytes → Bool) → Config → Result AppError (Unit {0})
unfolding validate_port_range
validate_flags parse_ip cfg =
    if parse_ip cfg.ip_address
    then (if parse_ip cfg.server_ip_address
        then (elim (validate_number_within_bounds cfg.udp_endpoint_count (pos 1) (pos 10)) [
          | err _ ↦ err endpoint_count_out_of_bounds
          | panic ↦ panic
          | ok _ ↦ elim (validate_number_within_bounds cfg.server_port min_port max_port) [
            | err _ ↦ err server_port_out_of_bounds
            | panic ↦ panic
            | ok _ ↦ validate_port_range cfg.port_range cfg.udp_endpoint_count cfg.player_count
          ]
        ])
        else err invalid_server_ip_address)
    else err invalid_ip_address

-- A client-side proxy: its port and the player who has to use it.
pub record ClientSideEndpoint : Type 0 where
  pub port : ℕ
  pub expected_player_number : ℕ

-- What the loops of createClientSideProxies carry. After a failure they do nothing more.
pub record EndpointLoop : Type 0 where
  pub next_port : ℕ
  pub client_side_proxies : List ClientSideEndpoint
  pub failed : Bool

unfoldable pub create_proxy : (ℕ → Bool) → ℕ → EndpointLoop → EndpointLoop
create_proxy creates player_num loop =
    if loop.failed
    then loop
    else if creates loop.next_port
    then record {
      next_port = loop.next_port + 1;
      client_side_proxies =
          loop.client_side_proxies
          ++ record { port = loop.next_port; expected_player_number = player_num } ∷ [];
      failed = false;
    }
    else record loop { failed = true }

unfoldable pub create_proxies : (ℕ → Bool) → ℕ → ℕ → EndpointLoop → EndpointLoop
create_proxies creates zero player_num loop = loop
create_proxies creates (suc rounds) player_num loop =
    create_proxies creates rounds player_num (create_proxy creates player_num loop)

unfoldable pub create_for_players : (ℕ → Bool) → ℕ → ℕ → ℕ → EndpointLoop → EndpointLoop
create_for_players creates endpoint_count zero player_num loop = loop
create_for_players creates endpoint_count (suc rounds) player_num loop =
    create_for_players creates endpoint_count rounds (suc player_num)
      (create_proxies creates endpoint_count player_num loop)

unfoldable pub create_client_side_proxies : (ℕ → Bool) → ℕ → ℕ → ℕ → EndpointLoop
create_client_side_proxies creates endpoint_count player_count start_port =
    create_for_players creates endpoint_count player_count 1
      (record { next_port = start_port; client_side_proxies = []; failed = false })

unfoldable pub find_clientside_proxy_port_range_start : (ℕ → Bool) → Config → Result AppError ℕ
find_clientside_proxy_port_range_start available c =
    if bytes_beq c.port_range []
    then (elim (find_available_port_range available 8000
        (pos_part (mul_int c.udp_endpoint_count c.player_count)) 65535) [
          | ok start_port ↦ ok start_port
          | err _ ↦ err no_start_port
          | panic ↦ panic
        ])
    else (elim (parse_port_range c.port_range) [
      | ok ports ↦ ok (pos_part ports.0)
      | err e ↦ err (invalid_port_range e)
      | panic ↦ panic
    ])

pub record App : Type 0 where
  pub client_side_proxies : List ClientSideEndpoint
  pub has_server_side_proxy : Bool
  pub token_manager : Option TokenManager
  pub stats_collector : Option StatsCollector

-- The outside of the set-up: the random draws, the free ports, and whether proxies can be created.
pub record Machine : Type 0 where
  pub draws : ℕ → Bytes
  pub available : ℕ → Bool
  pub creates_server : Bool
  pub creates : ℕ → Bool

-- setupProxies from the start port on.
unfoldable pub setup_from : Machine → Config → TokenManager → ℕ → App × Result AppError (Unit {0})
unfolding create_client_side_proxies
setup_from machine c tm start_port =
    let sc =
      new_stats_collector start_port (pos_part c.udp_endpoint_count) (pos_part c.player_count)
        c.ip_address in
    if machine.creates_server
    then (let loop =
          create_client_side_proxies machine.creates (pos_part c.udp_endpoint_count)
            (pos_part c.player_count) start_port in
        (
          record {
            client_side_proxies = loop.client_side_proxies;
            has_server_side_proxy = true;
            token_manager = some tm;
            stats_collector = some sc;
          },
          if loop.failed then err client_side_proxy_failed else ok tt,
        ))
    else (
      record {
        client_side_proxies = [];
        has_server_side_proxy = false;
        token_manager = some tm;
        stats_collector = some sc;
      },
      err server_side_proxy_failed,
    )

abbrev pub started_with : Option TokenManager → App
started_with tm = record {
  client_side_proxies = [];
  has_server_side_proxy = false;
  token_manager = tm;
  stats_collector = none;
}

unfoldable pub setup_proxies : Machine → Config → App × Result AppError (Unit {0})
unfolding setup_from
setup_proxies machine c =
    if ltb_ℤ c.player_count (pos 1)
    then (started_with none, err player_count_too_small)
    else (let tm = new_token_manager machine.draws (pos_part c.player_count) in
        elim (find_clientside_proxy_port_range_start machine.available c) [
          | ok start_port ↦ setup_from machine c tm start_port
          | err e ↦ (started_with (some tm), err e)
          | panic ↦ (started_with (some tm), panic)
        ])
