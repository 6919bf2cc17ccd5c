-- ===== src/Proxy/ClientSide/Degradation.antt =====
-- The degradation of an endpoint: its range, and how many of the draws drop a packet.
use amazon_gamelift_toolkit.Base.{
  ℕ, zero, suc, ◌+◌, ◌≤◌, ◌<◌, ◌≡◌, refl, ◌∙◌, arith, ltb, min, drop, length, if◌then◌else◌,
}
use amazon_gamelift_toolkit.Base.Int.{pos, ◌≤ℤ◌}
use amazon_gamelift_toolkit.Base.Result.{Result, ok, err, panic}
use amazon_gamelift_toolkit.Go.Text.{Bytes, cut, trim_space}
use amazon_gamelift_toolkit.Token.{TokenManager, TokenError}
use amazon_gamelift_toolkit.Proxy.ClientSide.{
  ClientSideProxyTrafficHandler, Step, set_degradation, replace_token_of, replaced_by,
  parse_player_numbers, run_command, named, parse_config_command, command_result,
  should_drop_packet, preprocess_server_bound_traffic,
}
use amazon_gamelift_toolkit.Proxy.ClientSide.{config_command_prefix, config_command_delimiter}

-- The percentage is one.
abbrev pub IsPercentage : ClientSideProxyTrafficHandler → Type 0
IsPercentage h = (pos 0 ≤ℤ h.degradation_percentage) × (h.degradation_percentage ≤ℤ pos 100)

set_degradation-IsPercentage :
    (h : ClientSideProxyTrafficHandler) (tm : TokenManager) (text : Bytes)
    → IsPercentage h
    → IsPercentage (set_degradation h tm text).0
unfolding set_degradation
set_degradation-IsPercentage h tm text v = ground arith

replaced_by-IsPercentage :
    (h : ClientSideProxyTrafficHandler) (tm : TokenManager) (r : Result TokenError TokenManager)
    → (replaced_by h tm r).0 ≡ h
replaced_by-IsPercentage h tm (ok t) = refl
replaced_by-IsPercentage h tm (err e) = refl
replaced_by-IsPercentage h tm panic = refl

replace_token_of-handler :
    (h : ClientSideProxyTrafficHandler) (tm : TokenManager) (text : Bytes)
    → (replace_token_of h tm text).0 ≡ h
unfolding replace_token_of
replace_token_of-handler h tm text = ground arith

named-handler : (name : Bytes) (s : Step (Unit {0})) → (named name s).0 ≡ s.0
named-handler name (h, tm, ok _) = refl
named-handler name (h, tm, err e) = refl
named-handler name (h, tm, panic) = refl

command_result-handler : (s : Step Bytes) → (command_result s).0 ≡ s.0
unfolding command_result
command_result-handler (h, tm, ok _) = refl
command_result-handler (h, tm, err e) = refl
command_result-handler (h, tm, panic) = refl

run_command-IsPercentage :
    (h : ClientSideProxyTrafficHandler) (tm : TokenManager) (name parameter : Bytes)
    → IsPercentage h
    → IsPercentage (run_command h tm name parameter).0
unfolding run_command parse_player_numbers
run_command-IsPercentage h tm name parameter v = ground (
  arith,
  set_degradation-IsPercentage h tm parameter v,
  named-handler name (set_degradation h tm parameter),
  named-handler name (replace_token_of h tm parameter),
  replace_token_of-handler h tm parameter,
)

parse_config_command-IsPercentage :
    (h : ClientSideProxyTrafficHandler) (tm : TokenManager) (packet : Bytes)
    → IsPercentage h
    → IsPercentage (parse_config_command h tm packet).0
unfolding parse_config_command
parse_config_command-IsPercentage h tm packet v =
    let parts = cut (drop (length config_command_prefix) packet) config_command_delimiter in
    ground (arith, run_command-IsPercentage h tm (trim_space parts.0) (trim_space parts.1) v)

-- Whatever a packet holds, a degradation percentage between 0 and 100 stays there.
pub preprocess_server_bound_traffic-IsPercentage :
    (h : ClientSideProxyTrafficHandler) (tm : TokenManager) (draw : ℕ) (packet : Bytes)
    → IsPercentage h
    → IsPercentage (preprocess_server_bound_traffic h tm draw packet).0
unfolding preprocess_server_bound_traffic
preprocess_server_bound_traffic-IsPercentage h tm draw packet v = ground (
  arith,
  command_result-handler (parse_config_command h tm packet),
  parse_config_command-IsPercentage h tm packet v,
)

-- The draws below `n` that drop a packet.
unfoldable pub drops_below : ClientSideProxyTrafficHandler → ℕ → ℕ
drops_below h zero = 0
drops_below h (suc n) = (if should_drop_packet h n then 1 else 0) + drops_below h n

should_drop_packet_lem :
    (h : ClientSideProxyTrafficHandler) (p draw : ℕ)
    → h.degradation_percentage ≡ pos p
    → p ≤ 100
    → draw < 100
    → should_drop_packet h draw ≡ ltb draw p
unfolding should_drop_packet
should_drop_packet_lem h p draw e hp hd = rw e (ground arith)

drops_below-min :
    (h : ClientSideProxyTrafficHandler) (p n : ℕ)
    → h.degradation_percentage ≡ pos p
    → p ≤ 100
    → n ≤ 100
    → drops_below h n ≡ min n p
unfolding drops_below
drops_below-min h p zero e hp hn = omega arith
drops_below-min h p (suc n) e hp hn =
    rw (should_drop_packet_lem h p n e hp (omega arith), drops_below-min h p n e hp (omega arith))
      (ground arith)

-- At a degradation of `p` percent exactly `p` of the 100 values that rng.Intn(100) can return drop
-- the packet: none at 0, all at 100.
drops_below_hundred :
    (h : ClientSideProxyTrafficHandler) (p : ℕ)
    → h.degradation_percentage ≡ pos p
    → p ≤ 100
    → drops_below h 100 ≡ p
drops_below_hundred h p e hp = drops_below-min h p 100 e hp (omega arith) ∙ omega arith
