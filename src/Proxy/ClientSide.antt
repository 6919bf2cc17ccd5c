-- ===== src/Proxy/ClientSide.antt =====
-- player-gateway-testing-app/internal/proxy/client_side_traffic_handler.go: configuration commands,
-- degradation, and the check of the token. The token manager is shared by the handlers of all
-- endpoints, so it is passed beside the handler; what rng.Intn(100) returns is an argument.
pub mod Degradation
pub mod Traffic
use amazon_gamelift_toolkit.Base.{
  ℕ, zero, suc, ◌+◌, Bool, true, false, ◌&&◌, not, List, [], ◌∷◌, ◌++◌, Option, none, some, ◌==◌,
  if◌then◌else◌, length, drop,
}
use amazon_gamelift_toolkit.Base.Int.{ℤ, pos, ltb_ℤ, max_ℤ, min_ℤ}
use amazon_gamelift_toolkit.Base.Eq.{bytes_beq, int_beq}
use amazon_gamelift_toolkit.Base.Result.{Result, ok, err, panic}
use amazon_gamelift_toolkit.Go.Text.{Bytes, codes, has_prefix, cut, split, trim_space}
use amazon_gamelift_toolkit.Go.Decimal.{atoi}
use amazon_gamelift_toolkit.Token.{TokenManager, TokenError, replace_token, parse_client_side_token}
use amazon_gamelift_toolkit.Proxy.{
  ConfigCommandResult, degradation_result, generic_command_result,
  get_player_connection_details_result, PreprocessServerBoundTrafficResult, HandlerError,
  missing_command_name, missing_parameter, unrecognized_command, invalid_replace_token_format,
  invalid_player_number_text, invalid_percentage, packet_dropped, token_error, wrong_endpoint,
}

abbrev pub minimum_degradation_percentage : ℤ
minimum_degradation_percentage = pos 0

abbrev pub maximum_degradation_percentage : ℤ
maximum_degradation_percentage = pos 100

abbrev pub config_command_delimiter : ℕ
config_command_delimiter = b':'

abbrev pub set_degradation_command : Bytes
set_degradation_command = codes "SetDegradation"

abbrev pub replace_token_command : Bytes
replace_token_command = codes "ReplaceToken"

abbrev pub list_tokens_command : Bytes
list_tokens_command = codes "ListTokens"

abbrev pub get_player_connection_details_command : Bytes
get_player_connection_details_command = codes "GetPlayerConnectionDetails"

abbrev pub config_command_prefix : Bytes
config_command_prefix = codes "PlayerGateway:"

pub record ClientSideProxyTrafficHandler : Type 0 where
  pub degradation_percentage : ℤ
  pub expected_player_number : ℕ
  pub requested_player_numbers : List ℤ

-- A method changes the handler and the shared token manager, and returns a result.
abbrev pub Step : Type 0 → Type 0
Step A = ClientSideProxyTrafficHandler × TokenManager × Result HandlerError A

unfoldable pub set_degradation :
    ClientSideProxyTrafficHandler → TokenManager → Bytes → Step (Unit {0})
set_degradation h tm requested_percentage = elim (atoi requested_percentage) [
  | none ↦ (h, tm, err invalid_percentage)
  | some percentage ↦ (
    record h {
      degradation_percentage =
          max_ℤ minimum_degradation_percentage (min_ℤ percentage maximum_degradation_percentage);
    },
    tm,
    ok tt,
  )
]

-- The arguments are the result of TokenManager.ReplaceToken and the manager before.
abbrev pub replaced_by :
    ClientSideProxyTrafficHandler → TokenManager → Result TokenError TokenManager → Step (Unit {0})
replaced_by h tm (ok tm') = (h, tm', ok tt)
replaced_by h tm (err e) = (h, tm, err (token_error e))
replaced_by h tm panic = (h, tm, panic)

-- The arguments are what strings.Cut returns: the text before the delimiter, the text behind it, and
-- whether it was found.
unfoldable pub replace_token_by_parts :
    ClientSideProxyTrafficHandler → TokenManager → Bytes × Bytes × Bool → Step (Unit {0})
replace_token_by_parts h tm (player_number_text, token_text, false) =
    (h, tm, err invalid_replace_token_format)
replace_token_by_parts h tm (player_number_text, token_text, true) =
    elim (atoi player_number_text) [
      | none ↦ (h, tm, err invalid_player_number_text)
      | some player_number ↦ replaced_by h tm (replace_token tm player_number token_text)
    ]

unfoldable pub replace_token_of :
    ClientSideProxyTrafficHandler → TokenManager → Bytes → Step (Unit {0})
unfolding replace_token_by_parts
replace_token_of h tm cmd_parameter =
    replace_token_by_parts h tm (cut cmd_parameter config_command_delimiter)

-- The numbers that parse, in order; the others are skipped with a warning.
unfoldable pub parsed_numbers : List Bytes → List ℤ
parsed_numbers [] = []
parsed_numbers (text ∷ texts) = elim (atoi (trim_space text)) [
  | none ↦ parsed_numbers texts
  | some number ↦ number ∷ parsed_numbers texts
]

unfoldable pub parse_player_numbers :
    ClientSideProxyTrafficHandler → Bytes → ClientSideProxyTrafficHandler
unfolding parsed_numbers
parse_player_numbers h cmd_parameter = record h {
  requested_player_numbers = parsed_numbers (split cmd_parameter b',');
}

-- slices.Contains(ParameterRequiringCommands, cmdName)
unfoldable pub requires_parameter : Bytes → Bool
requires_parameter name =
    if bytes_beq name set_degradation_command
    then true
    else if bytes_beq name replace_token_command
    then true
    else bytes_beq name get_player_connection_details_command

abbrev pub named : Bytes → Step (Unit {0}) → Step Bytes
named name (h, tm, ok _) = (h, tm, ok name)
named name (h, tm, err e) = (h, tm, err e)
named name (h, tm, panic) = (h, tm, panic)

-- The switch of parseConfigCommand. ListTokens only logs.
unfoldable pub run_command :
    ClientSideProxyTrafficHandler → TokenManager → Bytes → Bytes → Step Bytes
unfolding requires_parameter
run_command h tm name parameter =
    if bytes_beq parameter [] && requires_parameter name
    then (h, tm, err missing_parameter)
    else if bytes_beq name set_degradation_command
    then named name (set_degradation h tm parameter)
    else if bytes_beq name replace_token_command
    then named name (replace_token_of h tm parameter)
    else if bytes_beq name get_player_connection_details_command
    then (parse_player_numbers h parameter, tm, ok name)
    else if bytes_beq name list_tokens_command
    then (h, tm, ok name)
    else (h, tm, err unrecognized_command)

unfoldable pub parse_config_command :
    ClientSideProxyTrafficHandler → TokenManager → Bytes → Step Bytes
parse_config_command h tm packet =
    let rest = drop (length config_command_prefix) packet in
    if bytes_beq rest []
    then (h, tm, err missing_command_name)
    else let (cmd_name, cmd_parameter, _) = cut rest config_command_delimiter in
      run_command h tm (trim_space cmd_name) (trim_space cmd_parameter)

-- `draw` is what rng.Intn(100) returns, if it is called.
unfoldable pub should_drop_packet : ClientSideProxyTrafficHandler → ℕ → Bool
should_drop_packet h draw =
    if int_beq h.degradation_percentage minimum_degradation_percentage
    then false
    else if int_beq h.degradation_percentage maximum_degradation_percentage
    then true
    else ltb_ℤ (pos draw) h.degradation_percentage

-- What PreprocessServerBoundTraffic makes of the result of a command.
unfoldable pub command_result : Step Bytes → Step PreprocessServerBoundTrafficResult
command_result (h, tm, err e) = (h, tm, err e)
command_result (h, tm, panic) = (h, tm, panic)
command_result (h, tm, ok name) = (
  h,
  tm,
  ok (record {
    player_number = pos 0;
    packet = [];
    config_command = some (
        if bytes_beq name set_degradation_command
        then degradation_result h.degradation_percentage
        else if bytes_beq name get_player_connection_details_command
        then get_player_connection_details_result h.requested_player_numbers
        else generic_command_result);
  }),
)

-- The token check of PreprocessServerBoundTraffic.
unfoldable pub checked :
    ℕ → Result TokenError (ℕ × Bytes) → Result HandlerError PreprocessServerBoundTrafficResult
checked expected (err e) = err (token_error e)
checked expected panic = panic
checked expected (ok (player_number, modified)) =
    if player_number == expected
    then ok (record { player_number = pos player_number; packet = modified; config_command = none })
    else err (wrong_endpoint player_number expected)

unfoldable pub preprocess_server_bound_traffic :
    ClientSideProxyTrafficHandler
    → TokenManager
    → ℕ
    → Bytes
    → Step PreprocessServerBoundTrafficResult
unfolding checked command_result
preprocess_server_bound_traffic h tm draw packet =
    if has_prefix packet config_command_prefix
    then command_result (parse_config_command h tm packet)
    else if should_drop_packet h draw
    then (h, tm, err packet_dropped)
    else (h, tm, checked h.expected_player_number (parse_client_side_token tm packet))

-- HandleClientBoundTraffic up to the socket: the client's address is looked up in the pool.
unfoldable pub handle_client_bound_traffic {ℓ} :
    {Addr : Type ℓ}
    → ClientSideProxyTrafficHandler
    → ℕ
    → Option Addr
    → Bytes
    → Result HandlerError (Option (Addr × Bytes))
handle_client_bound_traffic h draw none packet = ok none
handle_client_bound_traffic h draw (some source_addr) packet =
    if should_drop_packet h draw then err packet_dropped else ok (some (source_addr, packet))
