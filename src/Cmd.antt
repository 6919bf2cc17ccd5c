-- ===== src/Cmd.antt =====
-- player-gateway-testing-app/cmd: the subcommands set-degradation, replace-token and
-- get-player-connection-details, up to the socket.
-- A result is the port and the message that common.SendUDPMessage sends.
pub mod Effect
pub mod Details
pub mod Examples
use amazon_gamelift_toolkit.Base.{
  ℕ, Bool, true, false, Option, none, some, List, [], ◌∷◌, ◌++◌, ltb, if◌then◌else◌,
}
use amazon_gamelift_toolkit.Base.Int.{ℤ, pos, ltb_ℤ}
use amazon_gamelift_toolkit.Base.Result.{Result, ok, err, panic}
use amazon_gamelift_toolkit.Go.Text.{Bytes, split, trim_space}
use amazon_gamelift_toolkit.Go.Decimal.{itoa, atoi}
use amazon_gamelift_toolkit.Common.{min_port, max_port, validate_number_within_bounds}
use amazon_gamelift_toolkit.Token.{generate_random_token}
use amazon_gamelift_toolkit.Proxy.ClientSide.{
  config_command_prefix, config_command_delimiter, set_degradation_command, replace_token_command,
  get_player_connection_details_command, minimum_degradation_percentage,
  maximum_degradation_percentage,
}

pub data CmdError : Type 0 where
  invalid_percentage invalid_port invalid_player_number no_player_numbers : CmdError

-- fmt.Sprintf("%s%s:%s", prefix, command, parameter)
abbrev pub command_message : Bytes → Bytes → Bytes
command_message name parameter =
    config_command_prefix ++ (name ++ config_command_delimiter ∷ parameter)

unfoldable pub run_set_degradation : ℤ → ℤ → Result CmdError (ℤ × Bytes)
run_set_degradation degradation_percentage port =
    elim (validate_number_within_bounds degradation_percentage minimum_degradation_percentage
      maximum_degradation_percentage) [
        | ok _ ↦ elim (validate_number_within_bounds port min_port max_port) [
          | ok _ ↦ ok (port, command_message set_degradation_command (itoa degradation_percentage))
          | err _ ↦ err invalid_port
          | panic ↦ panic
        ]
        | err _ ↦ err invalid_percentage
        | panic ↦ panic
      ]

-- The last argument is what rand.Read wrote for the new token.
unfoldable pub run_replace_token : ℤ → ℤ → Bytes → Result CmdError (ℤ × Bytes)
run_replace_token player_number port hash_bytes =
    if ltb_ℤ player_number (pos 1)
    then err invalid_player_number
    else (elim (validate_number_within_bounds port min_port max_port) [
      | ok _ ↦ ok (
        port,
        command_message replace_token_command
            (itoa player_number ++ config_command_delimiter ∷ generate_random_token hash_bytes),
      )
      | err _ ↦ err invalid_port
      | panic ↦ panic
    ])

unfoldable pub are_numbers : List Bytes → Bool
are_numbers [] = true
are_numbers (text ∷ texts) = elim (atoi (trim_space text)) [
  | none ↦ false
  | some number ↦ are_numbers texts
]

-- The check of the numbers; a text without numbers is split into one empty text.
abbrev pub checked_numbers : List Bytes → Result {0, 0} CmdError Unit
checked_numbers ([] ∷ []) = err no_player_numbers
checked_numbers texts = if are_numbers texts then ok tt else err invalid_player_number

unfoldable pub run_get_player_connection_details : Bytes → ℤ → Result CmdError (ℤ × Bytes)
unfolding are_numbers
run_get_player_connection_details player_numbers port =
    elim (validate_number_within_bounds port min_port max_port) [
      | ok _ ↦ elim (checked_numbers (split player_numbers b',')) [
        | ok _ ↦ ok (port, command_message get_player_connection_details_command player_numbers)
        | err e ↦ err e
        | panic ↦ panic
      ]
      | err _ ↦ err invalid_port
      | panic ↦ panic
    ]
