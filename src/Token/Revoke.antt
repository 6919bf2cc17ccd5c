-- ===== src/Token/Revoke.antt =====
-- What a replacement does to the packets that arrive afterwards: the old token is refused, and a
-- short new token makes unknown packets panic.
use amazon_gamelift_toolkit.Base.{
  ℕ, zero, suc, ◌≤◌, ◌<◌, ◌≡◌, ◌≢◌, sym, ap, ◌∙◌, List, [], ◌∷◌, ◌++◌, none, some, arith, length,
  get_elem?, set, nth, take,
}
use amazon_gamelift_toolkit.Base.Int.{pos}
use amazon_gamelift_toolkit.Base.Eq.{nat_eq, bytes_eq, bytes_beq_iff}
use amazon_gamelift_toolkit.Base.Result.{ok, panic}
use amazon_gamelift_toolkit.Base.Dict.{lookup}
use amazon_gamelift_toolkit.Go.Text.{Bytes, All, take-append}
use amazon_gamelift_toolkit.Token.{
  TokenManager, reject_unknown, parse_client_side_token, generated_token_length,
}
use amazon_gamelift_toolkit.Token.Invariant.{IsConsistent}
use amazon_gamelift_toolkit.Base.{nth-set}
use amazon_gamelift_toolkit.Go.Base64.{decode}
use amazon_gamelift_toolkit.Token.{replace_token}
use amazon_gamelift_toolkit.Token.Replace.{replace_token_ok, replace_token-IsConsistent}
use amazon_gamelift_toolkit.Token.Parse.{client_accepted}

-- Two texts of one length at the head of equal packets are equal.
same_head : (t u g k : Bytes) → length t ≡ length u → t ++ g ≡ u ++ k → t ≡ u
same_head t u g k e h = sym (take-append t g) ∙ ap (take (length t)) h ∙ rw e (take-append u k)

-- After a successful ReplaceToken in a consistent manager, of a token of 28 bytes by a token with
-- another decoding, no packet that starts with the
-- player's old token is accepted, for that player or any other.
pub replaced_token_refused :
    (tm tm' : TokenManager) (n : ℕ) (b t game : Bytes) (r : ℕ × Bytes)
    → IsConsistent tm
    → nth tm.decoded_tokens n ≡ some t
    → length t ≡ generated_token_length
    → decode b ≢ some t
    → replace_token tm (pos n) b ≡ ok tm'
    → parse_client_side_token tm' (t ++ game) ≢ ok r
replaced_token_refused tm tm' n b t game (m, out) v held len other h accepted =
    let q = replace_token_ok tm tm' (pos n) b h in
    let w = replace_token-IsConsistent tm tm' (pos n) b v h in
    let ((u, held', len', eq), _) = client_accepted tm' (t ++ game) out m w accepted in
    let same = same_head t u game _ (len ∙ sym len') eq in
    let now : nth (set tm.decoded_tokens q.idx q.decoded) m ≡ some t =
      ap (λ (z : TokenManager). nth z.decoded_tokens m) (sym q.result)
      ∙ held'
      ∙ ap some (sym same) in
    other (
      ground (
        arith,
        nth-set tm.decoded_tokens q.idx m q.decoded q.held,
        q.is_player,
        q.decoding,
        (v.owned t m).1,
        (v.owned t n).1 held,
        now,
      ))

unknown_panics :
    (hash : Bytes) (tokens : List Bytes) (i : ℕ) (b : Bytes)
    → get_elem? tokens i ≡ some b
    → length b < generated_token_length
    → All (λ c. take generated_token_length c ≢ hash) tokens
    → reject_unknown hash tokens ≡ panic
unfolding reject_unknown
unknown_panics hash [] i b at short h = absurd (cc)
unknown_panics hash (c ∷ tokens) zero b at short (_, _) = ground arith
unknown_panics hash (c ∷ tokens) (suc i) b at short (hc, hs) = ground (
  arith,
  unknown_panics hash tokens i b at short hs,
  bytes_beq_iff hash (take generated_token_length c),
)

-- ParseClientSideToken slices every base64 token at byte 28, and ReplaceToken sets no length: while
-- a player holds a base64 token shorter than that, every packet of 28 bytes or more panics, if its
-- first 28 bytes are neither a decoded token nor the head of a base64 token.
pub short_token_panics :
    (tm : TokenManager) (packet b : Bytes) (n : ℕ)
    → nth tm.base64_tokens n ≡ some b
    → length b < generated_token_length
    → generated_token_length ≤ length packet
    → lookup (take generated_token_length packet) tm.token_to_player ≡ none
    → All (λ c. take generated_token_length c ≢ take generated_token_length packet) tm.base64_tokens
    → parse_client_side_token tm packet ≡ panic
unfolding parse_client_side_token
short_token_panics tm packet b zero at short long unknown fresh = absurd (cc)
short_token_panics tm packet b (suc i) at short long unknown fresh =
    ground (
      arith,
      unknown_panics (take generated_token_length packet) tm.base64_tokens i b at short fresh,
    )
