-- ===== src/Token.antt =====
-- player-gateway-testing-app/internal/token/token_manager.go: the tokens of the players, their
-- replacement, and the token in front of a packet on its way to the game server. Random bytes are
-- arguments; the locks guard whole operations, which are single steps here.
pub mod Invariant
pub mod Replace
pub mod Effect
pub mod Issue
pub mod Parse
pub mod Revoke
pub mod Reach
pub mod Examples
use amazon_gamelift_toolkit.Base.{
  ℕ, zero, suc, ◌+◌, ◌-◌, ◌*◌, ◌≡◌, refl, Bool, true, false, ◌||◌, not, ◌&&◌, List, [], ◌∷◌, ◌++◌,
  Option, none, some, ltb, leb, ◌==◌, if◌then◌else◌, length, get_elem?, get_or, set, take, drop,
  replicate,
}
use amazon_gamelift_toolkit.Base.Int.{ℤ, pos, negsuc}
use amazon_gamelift_toolkit.Base.Eq.{nat_eq, bytes_eq, bytes_beq}
use amazon_gamelift_toolkit.Base.Result.{Result, ok, err, panic, ◌>>=◌}
use amazon_gamelift_toolkit.Base.Dict.{Dict, lookup, insert, delete}
use amazon_gamelift_toolkit.Go.Text.{Bytes, index_byte}
use amazon_gamelift_toolkit.Go.Decimal.{itoa_ℕ, atoi}
use amazon_gamelift_toolkit.Go.Base64.{hex_encode, encode, decode}

abbrev pub token_delimiter : ℕ
token_delimiter = b'|'

abbrev pub generated_token_length : ℕ
generated_token_length = 28

pub data TokenError : Type 0 where
  missing_delimiter hash_mismatch packet_too_short invalid_base64 base64_token_in_packet :
      TokenError
  zero_length_token token_already_exists invalid_player_number : TokenError

pub record TokenManager : Type 0 where
  pub token_to_player : Dict Bytes ℕ
  pub base64_tokens : List Bytes
  pub decoded_tokens : List Bytes
  pub player_count : ℕ

-- The argument is what rand.Read wrote.
unfoldable pub generate_random_token : Bytes → Bytes
generate_random_token hash_bytes = encode (hex_encode hash_bytes)

unfoldable pub decode_base64_token : Bytes → Result TokenError Bytes
decode_base64_token base64_token = elim (decode base64_token) [
  | some decoded ↦ ok decoded
  | none ↦ err invalid_base64
]

-- `decoded, _ := DecodeBase64Token(…)`: the text is empty where decoding fails.
abbrev or_empty : Result TokenError Bytes → Bytes
or_empty (ok decoded) = decoded
or_empty (err _) = []
or_empty panic = []

-- One round of the loop in NewTokenManager.
unfoldable pub issue : (ℕ → Bytes) → ℕ → TokenManager → TokenManager
issue draw i tm =
    let base64_token = generate_random_token (draw i) in
    let decoded = or_empty (decode_base64_token base64_token) in
    record tm {
      token_to_player = insert decoded (i + 1) tm.token_to_player;
      base64_tokens = set tm.base64_tokens i base64_token;
      decoded_tokens = set tm.decoded_tokens i decoded;
    }

unfoldable pub issue_from : (ℕ → Bytes) → ℕ → ℕ → TokenManager → TokenManager
issue_from draw zero i tm = tm
issue_from draw (suc rounds) i tm = issue_from draw rounds (suc i) (issue draw i tm)

-- `draw i` is what the i-th call of rand.Read wrote.
unfoldable pub new_token_manager : (ℕ → Bytes) → ℕ → TokenManager
new_token_manager draw player_count = issue_from draw player_count 0 (record {
  token_to_player = [];
  base64_tokens = replicate player_count [];
  decoded_tokens = replicate player_count [];
  player_count = player_count;
})

-- `existingPlayer, exists := …; exists && existingPlayer != playerNumber`
unfoldable pub is_taken : TokenManager → ℕ → Bytes → Bool
is_taken tm player_number decoded = elim (lookup decoded tm.token_to_player) [
  | some existing ↦ not (existing == player_number)
  | none ↦ false
]

-- The writes of ReplaceToken, behind its checks.
unfoldable pub install : TokenManager → ℕ → Bytes → Bytes → Result TokenError TokenManager
install tm player_number base64_token decoded =
    let idx = player_number - 1 in
    elim (get_elem? tm.decoded_tokens idx) [
      | none ↦ panic
      | some old_decoded ↦ ok (record tm {
        token_to_player = insert decoded player_number (delete old_decoded tm.token_to_player);
        base64_tokens = set tm.base64_tokens idx base64_token;
        decoded_tokens = set tm.decoded_tokens idx decoded;
      })
    ]

-- ReplaceToken from the lock on.
unfoldable pub replace_decoded : TokenManager → ℤ → Bytes → Bytes → Result TokenError TokenManager
unfolding is_taken install
replace_decoded tm (negsuc n) base64_token decoded = err invalid_player_number
replace_decoded tm (pos n) base64_token decoded =
    if ltb n 1 || ltb tm.player_count n
    then err invalid_player_number
    else if is_taken tm n decoded
    then err token_already_exists
    else install tm n base64_token decoded

unfoldable pub replace_token : TokenManager → ℤ → Bytes → Result TokenError TokenManager
unfolding replace_decoded decode_base64_token
replace_token tm player_number base64_token =
    if bytes_beq base64_token []
    then err zero_length_token
    else (elim (decode_base64_token base64_token) [
      | ok decoded ↦ replace_decoded tm player_number base64_token decoded
      | err e ↦ err e
      | panic ↦ panic
    ])

abbrev pub token_at : List Bytes → ℤ → Bytes
token_at tokens (pos zero) = []
token_at tokens (pos (suc idx)) = get_or tokens idx []
token_at tokens (negsuc n) = []

unfoldable pub get_token_for_player : TokenManager → ℤ → Bytes
get_token_for_player tm player_number = token_at tm.base64_tokens player_number

unfoldable pub get_decoded_token_for_player : TokenManager → ℤ → Bytes
get_decoded_token_for_player tm player_number = token_at tm.decoded_tokens player_number

unfoldable pub number_tokens : ℕ → List Bytes → Dict ℕ Bytes → Dict ℕ Bytes
number_tokens i [] result = result
number_tokens i (token ∷ tokens) result = number_tokens (suc i) tokens (insert (i + 1) token result)

unfoldable pub get_valid_tokens : TokenManager → Dict ℕ Bytes
unfolding number_tokens
get_valid_tokens tm = number_tokens 0 tm.base64_tokens []

-- The loop over the base64 tokens in ParseClientSideToken: `b64[:28]` panics on a shorter token.
unfoldable pub reject_unknown : Bytes → List Bytes → Result TokenError (ℕ × Bytes)
reject_unknown hash [] = err hash_mismatch
reject_unknown hash (b64 ∷ tokens) =
    if ltb (length b64) generated_token_length
    then panic
    else if bytes_beq hash (take generated_token_length b64)
    then err base64_token_in_packet
    else reject_unknown hash tokens

-- `packet[:n]` and `packet[n:]`, which panic beyond the end.
unfoldable pub slice_before : ℕ → Bytes → Result TokenError Bytes
slice_before n s = if leb n (length s) then ok (take n s) else panic

unfoldable pub slice_from : ℕ → Bytes → Result TokenError Bytes
slice_from n s = if leb n (length s) then ok (drop n s) else panic

abbrev pub accept_or_reject : TokenManager → Bytes → Bytes → Result TokenError (ℕ × Bytes)
accept_or_reject tm hash game_data = elim (lookup hash tm.token_to_player) [
  | some player_number ↦ ok (player_number, itoa_ℕ player_number ++ token_delimiter ∷ game_data)
  | none ↦ reject_unknown hash tm.base64_tokens
]

unfoldable pub parse_client_side_token : TokenManager → Bytes → Result TokenError (ℕ × Bytes)
unfolding reject_unknown slice_before slice_from
parse_client_side_token tm packet =
    if ltb (length packet) generated_token_length
    then err packet_too_short
    else (slice_before generated_token_length packet >>= (λ hash.
        slice_from generated_token_length packet
        >>= (λ game_data. accept_or_reject tm hash game_data)))

unfoldable pub parse_server_side_token : Bytes → Result TokenError (ℤ × Bytes)
parse_server_side_token packet =
    if ltb (length packet) 2
    then err packet_too_short
    else (elim (index_byte packet token_delimiter) [
      | none ↦ err missing_delimiter
      | some delimiter_index ↦ elim (atoi (take delimiter_index packet)) [
        | none ↦ err missing_delimiter
        | some player_number ↦ ok (player_number, drop (delimiter_index + 1) packet)
      ]
    ])
