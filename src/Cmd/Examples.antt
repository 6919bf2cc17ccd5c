-- ===== src/Cmd/Examples.antt =====
-- The messages of the subcommands, written out, and what they do at an endpoint.
use amazon_gamelift_toolkit.Base.{◌≡◌, refl, [], ◌++◌, some, arith}
use amazon_gamelift_toolkit.Base.Int.{pos, negsuc}
use amazon_gamelift_toolkit.Base.Result.{ok, err}
use amazon_gamelift_toolkit.Go.Text.{Bytes, codes}
use amazon_gamelift_toolkit.Go.Decimal.{itoa, itoa_ℕ}
use amazon_gamelift_toolkit.Go.Base64.{encode, hex_encode}
use amazon_gamelift_toolkit.Common.{validate_number_within_bounds}
use amazon_gamelift_toolkit.Token.{TokenManager, TokenError, replace_token, generate_random_token}
use amazon_gamelift_toolkit.Token.Examples.{duo, draw, draw-IsDraw, second_base64}
use amazon_gamelift_toolkit.Proxy.{degradation_result, generic_command_result, token_error}
use amazon_gamelift_toolkit.Proxy.ClientSide.{preprocess_server_bound_traffic}
use amazon_gamelift_toolkit.Proxy.Examples.{third_dropped}
use amazon_gamelift_toolkit.Cmd.{
  run_set_degradation, run_replace_token, invalid_percentage, invalid_port, invalid_player_number,
}
use amazon_gamelift_toolkit.Cmd.Effect.{
  set_degradation_message_effect, replace_token_message_effect,
}

abbrev degrade : Bytes
degrade = codes "PlayerGateway:SetDegradation:40"

degrade_sent : run_set_degradation (pos 40) (pos 5000) ≡ ok (pos 5000, degrade)
unfolding run_set_degradation validate_number_within_bounds itoa itoa_ℕ
degrade_sent = refl

too_much_refused : run_set_degradation (pos 101) (pos 5000) ≡ err invalid_percentage
unfolding run_set_degradation validate_number_within_bounds
too_much_refused = refl

no_port : run_set_degradation (pos 40) (pos 0) ≡ err invalid_port
unfolding run_set_degradation validate_number_within_bounds
no_port = refl

abbrev renew : Bytes
renew = codes "PlayerGateway:ReplaceToken:2:" ++ second_base64

renew_sent : run_replace_token (pos 2) (pos 5000) (draw 1) ≡ ok (pos 5000, renew)
unfolding run_replace_token validate_number_within_bounds itoa itoa_ℕ generate_random_token encode
    hex_encode
renew_sent = refl

no_player : run_replace_token (negsuc 0) (pos 5000) (draw 1) ≡ err invalid_player_number
unfolding run_replace_token
no_player = refl

set_degradation_message_effect_example :
    preprocess_server_bound_traffic third_dropped duo 7 degrade ≡ (
      record third_dropped { degradation_percentage = pos 40 },
      duo,
      ok (record {
        player_number = pos 0;
        packet = [];
        config_command = some (degradation_result (pos 40));
      }),
    )
set_degradation_message_effect_example =
    set_degradation_message_effect third_dropped duo 7 (pos 40) (pos 5000) degrade degrade_sent

replace_token_message_effect_example :
    ((tm' : TokenManager)
      → replace_token duo (pos 2) (generate_random_token (draw 1)) ≡ ok tm'
      → preprocess_server_bound_traffic third_dropped duo 7 renew ≡ (
        third_dropped,
        tm',
        ok (record {
          player_number = pos 0;
          packet = [];
          config_command = some generic_command_result;
        }),
      ))
    × ((e : TokenError)
        → replace_token duo (pos 2) (generate_random_token (draw 1)) ≡ err e
        → preprocess_server_bound_traffic third_dropped duo 7 renew
          ≡ (third_dropped, duo, err (token_error e)))
replace_token_message_effect_example =
    replace_token_message_effect third_dropped duo 7 (pos 2) (pos 5000) (draw 1) renew
      (draw-IsDraw 1 (omega arith)) (omega arith) renew_sent
