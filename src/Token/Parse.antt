-- ===== src/Token/Parse.antt =====
-- ParseClientSideToken and ParseServerSideToken: which packets are accepted, and that the server
-- side reads back what the client side forwards.
use amazon_gamelift_toolkit.Base.{
  ℕ, suc, ◌+◌, ◌≤◌, ◌≡◌, ◌≢◌, refl, sym, inl, inr, ◌↔◌, List, [], ◌∷◌, ◌++◌, some, arith, length,
  nth, take, drop, length-take, take-append-drop, length-append, Option-cases,
}
use amazon_gamelift_toolkit.Base.Int.{pos}
use amazon_gamelift_toolkit.Base.Eq.{nat_eq, bytes_eq}
use amazon_gamelift_toolkit.Base.Result.{ok, panic}
use amazon_gamelift_toolkit.Base.Dict.{lookup}
use amazon_gamelift_toolkit.Go.Text.{
  Bytes, All, All-mono, Lacks, index_byte-append, drop-append, take-append,
}
use amazon_gamelift_toolkit.Go.Decimal.{
  max_int, IsDigit, itoa_ℕ, itoa_ℕ-IsDigit, itoa_ℕ-ne-nil, atoi-itoa_ℕ,
}
use amazon_gamelift_toolkit.Token.{
  TokenManager, reject_unknown, parse_client_side_token, parse_server_side_token, token_delimiter,
  generated_token_length,
}
use amazon_gamelift_toolkit.Token.Invariant.{IsConsistent}

reject_unknown-ne-ok :
    (hash : Bytes) (tokens : List Bytes) (r : ℕ × Bytes) → reject_unknown hash tokens ≢ ok r
unfolding reject_unknown
reject_unknown-ne-ok hash [] r = cc
reject_unknown-ne-ok hash (b ∷ tokens) r = ground (arith, reject_unknown-ne-ok hash tokens r)

-- A packet that starts with the token of a player, followed by game data.
abbrev pub CarriesToken : TokenManager → Bytes → ℕ → Bytes → Type 0
CarriesToken tm packet n game =
    (t : Bytes) × (nth tm.decoded_tokens n ≡ some t)
    × (length t ≡ generated_token_length)
    × (packet ≡ t ++ game)

-- What the client side forwards: the player's number in decimal, the delimiter, the game data.
abbrev pub forwarded : ℕ → Bytes → Bytes
forwarded n game = itoa_ℕ n ++ token_delimiter ∷ game

client_accepts :
    (tm : TokenManager) (packet game : Bytes) (n : ℕ)
    → IsConsistent tm
    → CarriesToken tm packet n game
    → parse_client_side_token tm packet ≡ ok (n, forwarded n game)
unfolding parse_client_side_token
client_accepts tm packet game n v (t, held, len, is) =
    rw is (ground (arith, length-append t game, cut_hash t game len, (v.owned t n).1 held))
  where
    cut_hash :
        (t game : Bytes)
        → length t ≡ generated_token_length
        → (take generated_token_length (t ++ game) ≡ t)
          × (drop generated_token_length (t ++ game) ≡ game)
    cut_hash t game e = rw (sym e) (take-append t game, drop-append t game)

pub client_accepted :
    (tm : TokenManager) (packet out : Bytes) (n : ℕ)
    → IsConsistent tm
    → parse_client_side_token tm packet ≡ ok (n, out)
    → CarriesToken tm packet n (drop generated_token_length packet)
      × (out ≡ forwarded n (drop generated_token_length packet))
unfolding parse_client_side_token
client_accepted tm packet out n v h =
    let hash = take generated_token_length packet in
    elim (Option-cases (lookup hash tm.token_to_player)) [
      | inl e ↦ absurd (ground (arith, reject_unknown-ne-ok hash tm.base64_tokens (n, out)))
      | inr (m, e) ↦
          let long : generated_token_length ≤ length packet = ground arith in
          let is : m ≡ n = ground arith in
          (
            (
              hash,
              rw (sym is) ((v.owned hash m).0 e),
              omega (arith, length-take generated_token_length packet),
              sym (take-append-drop generated_token_length packet),
            ),
            ground arith,
          )
    ]

-- With a consistent manager the client side accepts exactly the packets that start with the token of a player, as that
-- player's, and forwards the number, the delimiter and the rest of the packet.
pub parse_client_side_token-ok_iff :
    (tm : TokenManager) (packet out : Bytes) (n : ℕ)
    → IsConsistent tm
    → (parse_client_side_token tm packet ≡ ok (n, out))
      ↔ ((game : Bytes) × CarriesToken tm packet n game × (out ≡ forwarded n game))
parse_client_side_token-ok_iff tm packet out n v = (
  λ h.
      let a = client_accepted tm packet out n v h in (drop generated_token_length packet, a.0, a.1),
  λ (game, c, is). rw is (client_accepts tm packet game n v c),
)

digits-Lacks : (n : ℕ) → Lacks token_delimiter (itoa_ℕ n)
digits-Lacks n =
    All-mono IsDigit (λ c. c ≢ token_delimiter) (itoa_ℕ n) (λ c h. omega arith) (itoa_ℕ-IsDigit n)

length-forwarded : (n : ℕ) (game : Bytes) → 2 ≤ length (forwarded n game)
length-forwarded n game = omega (
  arith,
  length-append (itoa_ℕ n) (token_delimiter ∷ game),
  length_pos (itoa_ℕ n) (itoa_ℕ-ne-nil n),
)
  where
    length_pos : (s : Bytes) → s ≢ [] → 1 ≤ length s
    length_pos [] h = absurd (h refl)
    length_pos (c ∷ s) h = omega arith

drop_behind : (p s : Bytes) (c : ℕ) → drop (length p + 1) (p ++ c ∷ s) ≡ s
drop_behind [] s c = refl
drop_behind (b ∷ p) s c = rw (add_suc_one (length p)) (drop_behind p s c)
  where
    add_suc_one : (n : ℕ) → suc n + 1 ≡ suc (n + 1)
    add_suc_one n = omega arith

-- What the client side forwards for a player is read back on the server side: the same player, and
-- the game data byte for byte. The player's number has to fit in an `int`.
pub parse_server_side_token-forwarded :
    (n : ℕ) (game : Bytes)
    → n ≤ max_int
    → parse_server_side_token (forwarded n game) ≡ ok (pos n, game)
unfolding parse_server_side_token
parse_server_side_token-forwarded n game h = ground (
  arith,
  length-forwarded n game,
  index_byte-append (itoa_ℕ n) game token_delimiter (digits-Lacks n),
  take-append (itoa_ℕ n) (token_delimiter ∷ game),
  drop_behind (itoa_ℕ n) game token_delimiter,
  atoi-itoa_ℕ n h,
)

-- No packet makes the client side panic while every base64 token has at least 28 bytes.
pub parse_client_side_token-ne-panic :
    (tm : TokenManager) (packet : Bytes)
    → All (λ b. generated_token_length ≤ length b) tm.base64_tokens
    → parse_client_side_token tm packet ≢ panic
unfolding parse_client_side_token
parse_client_side_token-ne-panic tm packet h =
    ground (arith, rejects (take generated_token_length packet) tm.base64_tokens h)
  where
    rejects :
        (hash : Bytes) (tokens : List Bytes)
        → All (λ b. generated_token_length ≤ length b) tokens
        → reject_unknown hash tokens ≢ panic
    rejects hash [] h = unfold reject_unknown in cc
    rejects hash (b ∷ tokens) (hb, hs) =
        unfold reject_unknown in ground (arith, rejects hash tokens hs)
