-- ===== src/Token/Examples.antt =====
-- A manager of two players, runs of its operations, and the theorems at concrete inputs.
use amazon_gamelift_toolkit.Base.{
  ℕ, ◌<◌, ◌≡◌, ◌≢◌, refl, sym, subst, ◌↔◌, false, [], ◌∷◌, ◌++◌, some, arith, replicate,
}
use amazon_gamelift_toolkit.Base.Int.{ℤ, pos}
use amazon_gamelift_toolkit.Base.Eq.{nat_eq, bytes_eq, bytes_beq, bytes_beq_iff}
use amazon_gamelift_toolkit.Base.Dict.{lookup, insert, delete}
use amazon_gamelift_toolkit.Base.Result.{ok, err, panic}
use amazon_gamelift_toolkit.Go.Text.{Bytes, codes}
use amazon_gamelift_toolkit.Go.Base64.{hex_encode, encode, decode}
use amazon_gamelift_toolkit.Token.{
  TokenManager, issue_from, issue, replace_token, new_token_manager, generate_random_token,
  decode_base64_token, get_token_for_player, get_decoded_token_for_player, parse_client_side_token,
  invalid_player_number, token_already_exists, invalid_base64, base64_token_in_packet,
}
use amazon_gamelift_toolkit.Token.Invariant.{IsConsistent}
use amazon_gamelift_toolkit.Token.Reach.{Reach, here, next, replaces, fails, reachable-IsConsistent}
use amazon_gamelift_toolkit.Token.Replace.{replace_token_succeeds_iff, IsReplaceable}
use amazon_gamelift_toolkit.Token.Effect.{replace_token_effect}
use amazon_gamelift_toolkit.Token.Issue.{IsDraw, new_token_manager-IsConsistent}
use amazon_gamelift_toolkit.Token.Parse.{
  CarriesToken, forwarded, parse_client_side_token-ok_iff, parse_client_side_token-ne-panic,
}
use amazon_gamelift_toolkit.Token.Revoke.{replaced_token_refused, short_token_panics}

differs : (x y : Bytes) → bytes_beq x y ≡ false → x ≢ y
differs x y apart e = ground (arith, bytes_beq_iff x y)

-- The draw of a player is one byte fourteen times.
abbrev pub draw : ℕ → Bytes
draw i = replicate 14 i

pub draw-IsDraw : (i : ℕ) → i < 2 → IsDraw (draw i)
draw-IsDraw i h = (refl, omega arith)

draw_distinct : (i j : ℕ) → i < 2 → j < 2 → draw i ≡ draw j → i ≡ j
draw_distinct i j hi hj e = cc

abbrev pub first_token : Bytes
first_token = codes "0000000000000000000000000000"

abbrev pub second_token : Bytes
second_token = codes "0101010101010101010101010101"

abbrev pub first_base64 : Bytes
first_base64 = codes "MDAwMDAwMDAwMDAwMDAwMDAwMDAwMDAwMDAwMA=="

abbrev pub second_base64 : Bytes
second_base64 = codes "MDEwMTAxMDEwMTAxMDEwMTAxMDEwMTAxMDEwMQ=="

abbrev pub duo : TokenManager
duo = record {
  token_to_player = (first_token, 1) ∷ (second_token, 2) ∷ [];
  base64_tokens = first_base64 ∷ second_base64 ∷ [];
  decoded_tokens = first_token ∷ second_token ∷ [];
  player_count = 2;
}

duo_built : new_token_manager draw 2 ≡ duo
unfolding new_token_manager issue_from issue decode_base64_token decode generate_random_token encode
    hex_encode insert
duo_built = refl

pub duo-IsConsistent : IsConsistent duo
duo-IsConsistent =
    subst IsConsistent duo_built (new_token_manager-IsConsistent draw 2 draw-IsDraw draw_distinct).0

-- The base64 form of "ab".
abbrev short_token : Bytes
short_token = codes "YWI="

abbrev pub renamed : TokenManager
renamed = record {
  token_to_player = (second_token, 2) ∷ (codes "ab", 1) ∷ [];
  base64_tokens = short_token ∷ second_base64 ∷ [];
  decoded_tokens = codes "ab" ∷ second_token ∷ [];
  player_count = 2;
}

replaced : replace_token duo (pos 1) short_token ≡ ok renamed
unfolding replace_token decode lookup insert delete
replaced = refl

out_of_range : replace_token duo (pos 3) short_token ≡ err invalid_player_number
unfolding replace_token decode
out_of_range = refl

of_another_player : replace_token duo (pos 1) second_base64 ≡ err token_already_exists
unfolding replace_token decode lookup
of_another_player = refl

no_padding : replace_token duo (pos 1) (codes "YWI") ≡ err invalid_base64
unfolding replace_token decode
no_padding = refl

refused_after : replace_token renamed (pos 3) short_token ≡ err invalid_player_number
unfolding replace_token decode
refused_after = refl

-- A replacement, and then a call that is refused.
abbrev renamed_run : Reach (new_token_manager draw 2) renamed
renamed_run =
    subst (λ s. Reach s renamed) (sym duo_built)
      (next (next here (replaces renamed (pos 1) short_token replaced))
        (fails (pos 3) short_token invalid_player_number refused_after))

reachable-IsConsistent_example : IsConsistent renamed × (renamed.player_count ≡ 2)
reachable-IsConsistent_example = reachable-IsConsistent draw 2 draw-IsDraw draw_distinct renamed_run

base64_sent : parse_client_side_token duo first_base64 ≡ err base64_token_in_packet
unfolding parse_client_side_token lookup
base64_sent = refl

replace_token_succeeds_iff_example :
    ((tm' : TokenManager) × (replace_token duo (pos 1) short_token ≡ ok tm'))
    ↔ IsReplaceable duo (pos 1) short_token
replace_token_succeeds_iff_example =
    replace_token_succeeds_iff duo (pos 1) short_token duo-IsConsistent

replace_token_effect_example :
    (get_token_for_player renamed (pos 1) ≡ short_token)
    × (decode short_token ≡ some (get_decoded_token_for_player renamed (pos 1)))
    × ((q : ℤ) → q ≢ pos 1 → get_token_for_player renamed q ≡ get_token_for_player duo q)
    × ((q : ℤ)
        → q ≢ pos 1
        → get_decoded_token_for_player renamed q ≡ get_decoded_token_for_player duo q)
    × (renamed.player_count ≡ duo.player_count)
replace_token_effect_example =
    replace_token_effect duo renamed (pos 1) short_token duo-IsConsistent replaced

parse_client_side_token-ok_iff_example :
    (parse_client_side_token duo (second_token ++ codes "hi") ≡ ok (2, codes "2|hi")) ↔ (
      (game : Bytes) × CarriesToken duo (second_token ++ codes "hi") 2 game
      × (codes "2|hi" ≡ forwarded 2 game))
parse_client_side_token-ok_iff_example =
    parse_client_side_token-ok_iff duo (second_token ++ codes "hi") (codes "2|hi") 2
      duo-IsConsistent

parse_client_side_token-ne-panic_example : parse_client_side_token duo (replicate 30 b'x') ≢ panic
parse_client_side_token-ne-panic_example =
    parse_client_side_token-ne-panic duo (replicate 30 b'x') (omega arith)

replaced_token_refused_example :
    parse_client_side_token renamed (first_token ++ codes "hi") ≢ ok (1, codes "1|hi")
unfolding decode
replaced_token_refused_example =
    replaced_token_refused duo renamed 1 short_token first_token (codes "hi") (1, codes "1|hi")
      duo-IsConsistent refl refl (cc) replaced

short_token_panics_example : parse_client_side_token renamed (replicate 28 b'x') ≡ panic
unfolding lookup
short_token_panics_example =
    short_token_panics renamed (replicate 28 b'x') short_token 1 refl (omega arith) (omega arith)
      refl (differs _ _ refl, (differs _ _ refl, tt))
