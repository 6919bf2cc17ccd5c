-- ===== src/Cmd/Effect.antt =====
-- What the messages of the subcommands do when they reach a client-side endpoint.
use amazon_gamelift_toolkit.Base.{
  ℕ, ◌≤◌, ◌≡◌, ◌≢◌, refl, sym, ap, subst, ◌∙◌, false, [], ◌∷◌, ◌++◌, some, arith,
}
use amazon_gamelift_toolkit.Base.Int.{ℤ, pos, negsuc, ◌≤ℤ◌}
use amazon_gamelift_toolkit.Base.Eq.{bytes_beq}
use amazon_gamelift_toolkit.Base.Result.{ok, err}
use amazon_gamelift_toolkit.Go.Text.{
  Bytes, codes, All, All-mono, All-append, IsGraphic, Lacks, has_prefix-append, cut-append,
  trim_space-graphic,
}
use amazon_gamelift_toolkit.Go.Decimal.{
  max_int, IsDigit, itoa, itoa_ℕ, itoa_ℕ-IsDigit, itoa_ℕ-ne-nil, atoi-itoa_ℕ,
}
use amazon_gamelift_toolkit.Go.Base64.{hex_encode, hex_encode-IsByte}
use amazon_gamelift_toolkit.Go.Base64.RoundTrip.{encode-IsGraphic}
use amazon_gamelift_toolkit.Common.{validate_number_within_bounds}
use amazon_gamelift_toolkit.Token.{TokenManager, TokenError, replace_token, generate_random_token}
use amazon_gamelift_toolkit.Token.Issue.{IsDraw}
use amazon_gamelift_toolkit.Proxy.{degradation_result, generic_command_result, token_error}
use amazon_gamelift_toolkit.Proxy.ClientSide.{
  ClientSideProxyTrafficHandler, set_degradation, replace_token_of, replaced_by, run_command, named,
  parse_config_command, command_result, preprocess_server_bound_traffic, config_command_prefix,
  config_command_delimiter, set_degradation_command, replace_token_command,
}
use amazon_gamelift_toolkit.Cmd.{command_message, run_set_degradation, run_replace_token}

-- A command whose name and parameter hold no spaces arrives as it was sent.
parse_command_message :
    (h : ClientSideProxyTrafficHandler) (tm : TokenManager) (c : ℕ) (name parameter : Bytes)
    → All IsGraphic (c ∷ name)
    → Lacks config_command_delimiter (c ∷ name)
    → All IsGraphic parameter
    → parse_config_command h tm (command_message (c ∷ name) parameter)
      ≡ run_command h tm (c ∷ name) parameter
unfolding parse_config_command
parse_command_message h tm c name parameter gn ln gp = rw (
  cut-append (c ∷ name) parameter config_command_delimiter ln,
  trim_space-graphic (c ∷ name) gn,
  trim_space-graphic parameter gp,
)

pub preprocess_command_message :
    (h : ClientSideProxyTrafficHandler) (tm : TokenManager) (draw c : ℕ) (name parameter : Bytes)
    → All IsGraphic (c ∷ name)
    → Lacks config_command_delimiter (c ∷ name)
    → All IsGraphic parameter
    → preprocess_server_bound_traffic h tm draw (command_message (c ∷ name) parameter)
      ≡ command_result (run_command h tm (c ∷ name) parameter)
unfolding preprocess_server_bound_traffic
preprocess_command_message h tm draw c name parameter gn ln gp = rw (
  has_prefix-append config_command_prefix ((c ∷ name) ++ config_command_delimiter ∷ parameter),
  parse_command_message h tm c name parameter gn ln gp,
)

digits-IsGraphic : (n : ℕ) → All IsGraphic (itoa_ℕ n)
digits-IsGraphic n =
    All-mono IsDigit IsGraphic (itoa_ℕ n) (λ c g. (omega arith, omega arith)) (itoa_ℕ-IsDigit n)

digits-Lacks : (n : ℕ) → Lacks config_command_delimiter (itoa_ℕ n)
digits-Lacks n =
    All-mono IsDigit (λ c. c ≢ config_command_delimiter) (itoa_ℕ n) (λ c g. omega arith)
      (itoa_ℕ-IsDigit n)

pub bytes_beq-nil : (s : Bytes) → s ≢ [] → bytes_beq s [] ≡ false
bytes_beq-nil [] h = absurd (h refl)
bytes_beq-nil (c ∷ s) h = refl

run_set_degradation_ok :
    (p port : ℤ) {r : ℤ × Bytes}
    → run_set_degradation p port ≡ ok r
    → (n : ℕ) × (p ≡ pos n) × (n ≤ 100) × (r.1 ≡ command_message set_degradation_command (itoa_ℕ n))
unfolding run_set_degradation validate_number_within_bounds itoa
run_set_degradation_ok (pos n) port h = (n, refl, ground arith, ground arith)
run_set_degradation_ok (negsuc n) port h = absurd (ground arith)

run_command-set_degradation :
    (h : ClientSideProxyTrafficHandler) (tm : TokenManager) (n : ℕ)
    → n ≤ 100
    → run_command h tm set_degradation_command (itoa_ℕ n)
      ≡ (record h { degradation_percentage = pos n }, tm, ok set_degradation_command)
unfolding run_command set_degradation
run_command-set_degradation h tm n le =
    rw (bytes_beq-nil (itoa_ℕ n) (itoa_ℕ-ne-nil n)) (ground (arith, atoi-itoa_ℕ n (omega arith)))

-- The message that `set-degradation` sends makes the endpoint that receives it drop exactly the
-- requested percentage. Nothing else of the endpoint changes, and no token does. The percentage and
-- the port are those that the subcommand accepts.
pub set_degradation_message_effect :
    (h : ClientSideProxyTrafficHandler) (tm : TokenManager) (draw : ℕ) (p port : ℤ)
    (message : Bytes)
    → run_set_degradation p port ≡ ok (port, message)
    → preprocess_server_bound_traffic h tm draw message ≡ (
      record h { degradation_percentage = p },
      tm,
      ok (record {
        player_number = pos 0;
        packet = [];
        config_command = some (degradation_result p);
      }),
    )
set_degradation_message_effect h tm draw p port message e =
    let (n, is, le, sends) = run_set_degradation_ok p port e in
    rw (sends, is)
      (preprocess_command_message h tm draw b'S' (codes "etDegradation") (itoa_ℕ n) (omega arith)
          (omega arith) (digits-IsGraphic n)
        ∙ ap command_result (run_command-set_degradation h tm n le)
        ∙ unfold command_result in refl)

generated-IsGraphic : (draw : Bytes) → IsDraw draw → All IsGraphic (generate_random_token draw)
unfolding generate_random_token
generated-IsGraphic draw (_, b) = encode-IsGraphic (hex_encode draw) (hex_encode-IsByte draw b)

append-ne-nil : (s t : Bytes) → s ≢ [] → s ++ t ≢ []
append-ne-nil [] t h = absurd (h refl)
append-ne-nil (c ∷ s) t h = cc

run_command-replace_token :
    (h : ClientSideProxyTrafficHandler) (tm : TokenManager) (n : ℕ) (t : Bytes)
    → n ≤ max_int
    → run_command h tm replace_token_command (itoa_ℕ n ++ config_command_delimiter ∷ t)
      ≡ named replace_token_command (replaced_by h tm (replace_token tm (pos n) t))
unfolding run_command replace_token_of
run_command-replace_token h tm n t le =
    let rest = config_command_delimiter ∷ t in
    rw (bytes_beq-nil (itoa_ℕ n ++ rest) (append-ne-nil (itoa_ℕ n) rest (itoa_ℕ-ne-nil n))) (
      rw (cut-append (itoa_ℕ n) t config_command_delimiter (digits-Lacks n))
        (ground (arith, atoi-itoa_ℕ n le)))

run_replace_token_ok :
    (p port : ℤ) (draw : Bytes) {r : ℤ × Bytes}
    → run_replace_token p port draw ≡ ok r
    → (n : ℕ) × (p ≡ pos n)
      × (r.1
          ≡ command_message replace_token_command
              (itoa_ℕ n ++ config_command_delimiter ∷ generate_random_token draw))
unfolding run_replace_token validate_number_within_bounds itoa
run_replace_token_ok (pos n) port draw h = (n, refl, ground arith)
run_replace_token_ok (negsuc n) port draw h = absurd (ground arith)

replace_token_message :
    (h : ClientSideProxyTrafficHandler) (tm : TokenManager) (d n : ℕ) (draw : Bytes)
    → IsDraw draw
    → n ≤ max_int
    → preprocess_server_bound_traffic h tm d (
        command_message replace_token_command
          (itoa_ℕ n ++ config_command_delimiter ∷ generate_random_token draw))
      ≡ command_result (
          named replace_token_command
            (replaced_by h tm (replace_token tm (pos n) (generate_random_token draw))))
replace_token_message h tm d n draw random le =
    let t = generate_random_token draw in
    preprocess_command_message h tm d b'R' (codes "eplaceToken")
      (itoa_ℕ n ++ config_command_delimiter ∷ t) (omega arith) (omega arith)
      (All-append IsGraphic (itoa_ℕ n) (config_command_delimiter ∷ t) (digits-IsGraphic n)
        ((omega arith, omega arith), generated-IsGraphic draw random))
    ∙ ap command_result (run_command-replace_token h tm n t le)

-- The message that `replace-token` sends makes the endpoint that receives it call ReplaceToken with
-- the requested player and the generated token, whatever the degradation: where that succeeds, the
-- shared token manager is the new one and the command succeeds, and where it fails, nothing changes
-- and the command reports the error. The player's number has to fit in an `int`, and the generated
-- token comes from 14 random bytes.
pub replace_token_message_effect :
    (h : ClientSideProxyTrafficHandler) (tm : TokenManager) (d : ℕ) (p port : ℤ)
    (draw message : Bytes)
    → IsDraw draw
    → p ≤ℤ pos max_int
    → run_replace_token p port draw ≡ ok (port, message)
    → ((tm' : TokenManager)
        → replace_token tm p (generate_random_token draw) ≡ ok tm'
        → preprocess_server_bound_traffic h tm d message ≡ (
          h,
          tm',
          ok (record {
            player_number = pos 0;
            packet = [];
            config_command = some generic_command_result;
          }),
        ))
      × ((e : TokenError)
          → replace_token tm p (generate_random_token draw) ≡ err e
          → preprocess_server_bound_traffic h tm d message ≡ (h, tm, err (token_error e)))
replace_token_message_effect h tm d p port draw message random fits e =
    let (n, is, sends) = run_replace_token_ok p port draw e in
    let fits' = subst (λ q. q ≤ℤ pos max_int) is fits in
    let le : n ≤ max_int = omega arith in
    let effect =
      ap (preprocess_server_bound_traffic h tm d) sends
      ∙ replace_token_message h tm d n draw random le
      ∙ ap
          (λ q. command_result (
            named replace_token_command
              (replaced_by h tm (replace_token tm q (generate_random_token draw)))))
          (sym is) in
    (
      λ tm' r. effect ∙ unfold command_result in rw r,
      λ e' r. effect ∙ unfold command_result in rw r,
    )
