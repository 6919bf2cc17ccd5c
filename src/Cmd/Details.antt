-- ===== src/Cmd/Details.antt =====
-- What the message of get-player-connection-details does when it reaches a client-side endpoint.
use amazon_gamelift_toolkit.Base.{
  ℕ, ◌≡◌, ◌≢◌, refl, ap, ◌∙◌, inl, inr, true, List, [], ◌∷◌, some, map, arith, Option-cases,
}
use amazon_gamelift_toolkit.Base.Int.{ℤ, pos}
use amazon_gamelift_toolkit.Base.Result.{ok}
use amazon_gamelift_toolkit.Go.Text.{Bytes, codes, All, IsGraphic, split, trim_space}
use amazon_gamelift_toolkit.Go.Decimal.{atoi}
use amazon_gamelift_toolkit.Common.{validate_number_within_bounds}
use amazon_gamelift_toolkit.Token.{TokenManager}
use amazon_gamelift_toolkit.Proxy.{get_player_connection_details_result}
use amazon_gamelift_toolkit.Proxy.ClientSide.{
  ClientSideProxyTrafficHandler, parsed_numbers, parse_player_numbers, run_command, command_result,
  preprocess_server_bound_traffic, get_player_connection_details_command,
}
use amazon_gamelift_toolkit.Cmd.{
  are_numbers, checked_numbers, command_message, run_get_player_connection_details,
}
use amazon_gamelift_toolkit.Cmd.Effect.{preprocess_command_message, bytes_beq-nil}

-- Numbers that are all accepted are all read.
parsed_numbers-all :
    (texts : List Bytes)
    → are_numbers texts ≡ true
    → map some (parsed_numbers texts) ≡ map (λ text. atoi (trim_space text)) texts
unfolding are_numbers parsed_numbers
parsed_numbers-all [] h = refl
parsed_numbers-all (text ∷ texts) h = elim (Option-cases (atoi (trim_space text))) [
  | inl e ↦ absurd (ground arith)
  | inr (number, e) ↦
      rw (e, parsed_numbers) (ap (◌∷◌ (some number)) (parsed_numbers-all texts (ground arith)))
]

checked_numbers_ok :
    (texts : List Bytes)
    → checked_numbers texts ≡ ok tt
    → (are_numbers texts ≡ true) × (texts ≢ [] ∷ [])
checked_numbers_ok [] h = (ground arith, λ e. absurd (ground arith))
checked_numbers_ok ([] ∷ []) h = absurd (ground arith)
checked_numbers_ok ([] ∷ t ∷ ts) h = (ground arith, λ e. absurd (ground arith))
checked_numbers_ok ((c ∷ s) ∷ ts) h = (ground arith, λ e. absurd (ground arith))

accepted_numbers :
    (s : Bytes) (port : ℤ) {r : ℤ × Bytes}
    → run_get_player_connection_details s port ≡ ok r
    → (checked_numbers (split s b',') ≡ ok tt)
      × (r.1 ≡ command_message get_player_connection_details_command s)
unfolding run_get_player_connection_details validate_number_within_bounds
accepted_numbers s port h = ground arith

split_nil : split [] b',' ≡ [] ∷ []
unfolding split
split_nil = refl

run_command-details :
    (h : ClientSideProxyTrafficHandler) (tm : TokenManager) (s : Bytes)
    → s ≢ []
    → run_command h tm get_player_connection_details_command s
      ≡ (parse_player_numbers h s, tm, ok get_player_connection_details_command)
unfolding run_command
run_command-details h tm s n = rw (bytes_beq-nil s n) refl

-- The message that `get-player-connection-details` sends makes the endpoint that receives it ask
-- for the details of all the players named, in order: no number is skipped. Nothing else changes.
-- The text of the numbers has to be without spaces.
get_player_connection_details_message_effect :
    (h : ClientSideProxyTrafficHandler) (tm : TokenManager) (draw : ℕ) (s : Bytes) (port : ℤ)
    (message : Bytes)
    → All IsGraphic s
    → run_get_player_connection_details s port ≡ ok (port, message)
    → (numbers : List ℤ) × (map some numbers ≡ map (λ text. atoi (trim_space text)) (split s b','))
      × (preprocess_server_bound_traffic h tm draw message ≡ (
        record h { requested_player_numbers = numbers },
        tm,
        ok (record {
          player_number = pos 0;
          packet = [];
          config_command = some (get_player_connection_details_result numbers);
        }),
      ))
get_player_connection_details_message_effect h tm draw s port message g e =
    let (checks, sends) = accepted_numbers s port e in
    let (all, several) = checked_numbers_ok (split s b',') checks in
    let given : s ≢ [] = λ q. several (ap (λ t. split t b',') q ∙ split_nil) in
    (
      parsed_numbers (split s b','),
      parsed_numbers-all (split s b',') all,
      rw sends (
          preprocess_command_message h tm draw b'G' (codes "etPlayerConnectionDetails") s
            (omega arith) (omega arith) g
          ∙ ap command_result (run_command-details h tm s given)
          ∙ unfold command_result parse_player_numbers in refl),
    )
