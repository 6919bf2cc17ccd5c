-- ===== src/Token/Invariant.antt =====
-- The invariant of the token manager: its map and its two slices say the same thing, so no two
-- players share a token.
use amazon_gamelift_toolkit.Base.{
  ℕ, suc, ◌≡◌, ◌∙◌, ◌↔◌, false, some, arith, length, get_elem?, set, nth, nth-set, length-set,
}
use amazon_gamelift_toolkit.Base.Eq.{nat_eq, bytes_eq, bytes_beq_iff}
use amazon_gamelift_toolkit.Base.Dict.{lookup, insert, delete, lookup-insert, lookup-delete}
use amazon_gamelift_toolkit.Go.Text.{Bytes}
use amazon_gamelift_toolkit.Go.Base64.{decode}
use amazon_gamelift_toolkit.Token.{TokenManager, is_taken}

pub record IsConsistent (tm : TokenManager) : Type 0 where
  pub base64_counted : length tm.base64_tokens ≡ tm.player_count
  pub decoded_counted : length tm.decoded_tokens ≡ tm.player_count
  -- The map sends a token to the player who holds it, and has no other entry.
  pub owned :
      (d : Bytes) (n : ℕ)
      → (lookup d tm.token_to_player ≡ some n) ↔ (nth tm.decoded_tokens n ≡ some d)
  -- Each decoded token is the decoding of the base64 token beside it.
  pub decodes :
      (n : ℕ) (b : Bytes) → nth tm.base64_tokens n ≡ some b → decode b ≡ nth tm.decoded_tokens n

-- What a successful `install` returns.
abbrev pub installed : TokenManager → ℕ → Bytes → Bytes → Bytes → TokenManager
installed tm idx base64_token decoded old = record tm {
  token_to_player = insert decoded (suc idx) (delete old tm.token_to_player);
  base64_tokens = set tm.base64_tokens idx base64_token;
  decoded_tokens = set tm.decoded_tokens idx decoded;
}

pub is_taken-false :
    (tm : TokenManager) (n m : ℕ) (d : Bytes)
    → is_taken tm n d ≡ false
    → lookup d tm.token_to_player ≡ some m
    → m ≡ n
unfolding is_taken
is_taken-false tm n m d h e = ground arith

module _ (tm : TokenManager) (v : IsConsistent tm) (idx : ℕ) (b d old b0 : Bytes)
    (free : is_taken tm (suc idx) d ≡ false) (at : get_elem? tm.decoded_tokens idx ≡ some old)
    (at64 : get_elem? tm.base64_tokens idx ≡ some b0) (dec : decode b ≡ some d) where
  installed_to :
      (d' : Bytes) (n : ℕ)
      → lookup d' (installed tm idx b d old).token_to_player ≡ some n
      → nth (installed tm idx b d old).decoded_tokens n ≡ some d'
  installed_to d' n = ground (
    arith,
    lookup-insert d d' (suc idx) (delete old tm.token_to_player),
    lookup-delete old d' tm.token_to_player,
    nth-set tm.decoded_tokens idx n d at,
    (v.owned d' n).0,
    bytes_beq_iff d d',
    bytes_beq_iff old d',
  )

  installed_from :
      (d' : Bytes) (n : ℕ)
      → nth (installed tm idx b d old).decoded_tokens n ≡ some d'
      → lookup d' (installed tm idx b d old).token_to_player ≡ some n
  installed_from d' n = ground (
    arith,
    lookup-insert d d' (suc idx) (delete old tm.token_to_player),
    lookup-delete old d' tm.token_to_player,
    nth-set tm.decoded_tokens idx n d at,
    (v.owned d' n).1,
    (v.owned old (suc idx)).1 at,
    is_taken-false tm (suc idx) n d free,
    bytes_beq_iff d d',
    bytes_beq_iff old d',
  )

  installed_decodes :
      (n : ℕ) (b' : Bytes)
      → nth (installed tm idx b d old).base64_tokens n ≡ some b'
      → decode b' ≡ nth (installed tm idx b d old).decoded_tokens n
  installed_decodes n b' = ground (
    arith,
    nth-set tm.decoded_tokens idx n d at,
    nth-set tm.base64_tokens idx n b at64,
    v.decodes n b',
  )

  pub installed-IsConsistent : IsConsistent (installed tm idx b d old)
  installed-IsConsistent = record {
    base64_counted = length-set tm.base64_tokens idx b ∙ v.base64_counted;
    decoded_counted = length-set tm.decoded_tokens idx d ∙ v.decoded_counted;
    owned = λ d' n. (installed_to d' n, installed_from d' n);
    decodes = installed_decodes;
  }
