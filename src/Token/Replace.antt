-- ===== src/Token/Replace.antt =====
-- ReplaceToken: when it succeeds, what it changes, and that it keeps the invariant.
use amazon_gamelift_toolkit.Base.{
  ℕ, zero, suc, ◌≤◌, ◌≡◌, ◌≢◌, refl, ap, ◌∙◌, inl, inr, ◌↔◌, false, [], some, arith, get_elem?, nth,
  get_elem?-some, Bool-cases, Option-cases,
}
use amazon_gamelift_toolkit.Base.Int.{ℤ, pos, negsuc}
use amazon_gamelift_toolkit.Base.Eq.{nat_eq, bytes_eq, bytes_beq, bytes_beq_iff}
use amazon_gamelift_toolkit.Base.Result.{ok}
use amazon_gamelift_toolkit.Base.Dict.{lookup}
use amazon_gamelift_toolkit.Go.Text.{Bytes}
use amazon_gamelift_toolkit.Go.Base64.{decode}
use amazon_gamelift_toolkit.Token.{TokenManager, is_taken, install, replace_decoded, replace_token}
use amazon_gamelift_toolkit.Token.Invariant.{
  IsConsistent, installed, installed-IsConsistent, is_taken-false,
}

-- Everything that a successful call has found out and done.
pub record Replaced (tm : TokenManager) (p : ℤ) (b : Bytes) (tm' : TokenManager) : Type 0 where
  pub idx : ℕ
  pub decoded : Bytes
  pub old : Bytes
  pub is_player : p ≡ pos (suc idx)
  pub in_range : suc idx ≤ tm.player_count
  pub not_empty : b ≢ []
  pub decoding : decode b ≡ some decoded
  pub not_taken : is_taken tm (suc idx) decoded ≡ false
  pub held : get_elem? tm.decoded_tokens idx ≡ some old
  pub result : tm' ≡ installed tm idx b decoded old

install_ok :
    (tm tm' : TokenManager) (idx : ℕ) (b d : Bytes)
    → install tm (suc idx) b d ≡ ok tm'
    → (old : Bytes) × (get_elem? tm.decoded_tokens idx ≡ some old)
      × (tm' ≡ installed tm idx b d old)
unfolding install
install_ok tm tm' idx b d h = elim (Option-cases (get_elem? tm.decoded_tokens idx)) [
  | inl e ↦ absurd (ground arith)
  | inr (old, e) ↦ (old, e, ground arith)
]

replace_decoded_ok :
    (tm tm' : TokenManager) (p : ℤ) (b d : Bytes)
    → b ≢ []
    → decode b ≡ some d
    → replace_decoded tm p b d ≡ ok tm'
    → Replaced tm p b tm'
unfolding replace_decoded
replace_decoded_ok tm tm' (negsuc n) b d hb hd h = absurd (cc)
replace_decoded_ok tm tm' (pos zero) b d hb hd h = absurd (ground arith)
replace_decoded_ok tm tm' (pos (suc idx)) b d hb hd h =
    elim (Bool-cases (is_taken tm (suc idx) d)) [
      | inl t ↦ absurd (ground arith)
      | inr free ↦
          let (old, at, res) = install_ok tm tm' idx b d (ground arith) in
          record {
            idx = idx;
            decoded = d;
            old = old;
            is_player = refl;
            in_range = ground arith;
            not_empty = hb;
            decoding = hd;
            not_taken = free;
            held = at;
            result = res;
          }
    ]

pub replace_token_ok :
    (tm tm' : TokenManager) (p : ℤ) (b : Bytes)
    → replace_token tm p b ≡ ok tm'
    → Replaced tm p b tm'
unfolding replace_token
replace_token_ok tm tm' p b h = elim (Bool-cases (bytes_beq b [])) [
  | inl e ↦ absurd (ground arith)
  | inr e ↦ elim (Option-cases (decode b)) [
    | inl n ↦ absurd (ground arith)
    | inr (d, s) ↦
        replace_decoded_ok tm tm' p b d (λ z. ground (arith, bytes_beq_iff b [])) s (ground arith)
  ]
]

pub held_base64 :
    (tm : TokenManager) (idx : ℕ)
    → IsConsistent tm
    → suc idx ≤ tm.player_count
    → (b : Bytes) × (get_elem? tm.base64_tokens idx ≡ some b)
held_base64 tm idx v h =
    get_elem?-some tm.base64_tokens idx (let e = v.base64_counted in omega arith)

-- A successful ReplaceToken keeps the invariant: the map and the slices agree, and no two players
-- share a token.
pub replace_token-IsConsistent :
    (tm tm' : TokenManager) (p : ℤ) (b : Bytes)
    → IsConsistent tm
    → replace_token tm p b ≡ ok tm'
    → IsConsistent tm'
replace_token-IsConsistent tm tm' p b v h =
    let r = replace_token_ok tm tm' p b h in
    let (b0, at64) =
      get_elem?-some tm.base64_tokens r.idx
        (let q = r.in_range in let e = v.base64_counted in omega arith) in
    rw (r.result)
      (installed-IsConsistent tm v r.idx b r.decoded r.old b0 r.not_taken r.held at64 r.decoding)

-- When a replacement is allowed: a player of the game, a token that is not empty and decodes, and
-- no other player holds its decoding.
abbrev pub IsReplaceable : TokenManager → ℤ → Bytes → Type 0
IsReplaceable tm p b =
    (n : ℕ) × (d : Bytes) × (p ≡ pos n)
    × (1 ≤ n)
    × (n ≤ tm.player_count)
    × (b ≢ [])
    × (decode b ≡ some d)
    × ((m : ℕ) → nth tm.decoded_tokens m ≡ some d → m ≡ n)

is_taken_free :
    (tm : TokenManager) (n : ℕ) (d : Bytes)
    → IsConsistent tm
    → ((m : ℕ) → nth tm.decoded_tokens m ≡ some d → m ≡ n)
    → is_taken tm n d ≡ false
unfolding is_taken
is_taken_free tm n d v free = elim (Option-cases (lookup d tm.token_to_player)) [
  | inl e ↦ ground arith
  | inr (m, e) ↦ ground (arith, free m ((v.owned d m).0 e))
]

replace_token_at :
    (tm : TokenManager) (idx : ℕ) (b d old : Bytes)
    → suc idx ≤ tm.player_count
    → b ≢ []
    → decode b ≡ some d
    → is_taken tm (suc idx) d ≡ false
    → get_elem? tm.decoded_tokens idx ≡ some old
    → replace_token tm (pos (suc idx)) b ≡ ok (installed tm idx b d old)
unfolding replace_token
replace_token_at tm idx b d old high ne dec free at = ground (arith, bytes_beq_iff b [])

IsReplaceable-ok :
    (tm : TokenManager) (p : ℤ) (b : Bytes)
    → IsConsistent tm
    → IsReplaceable tm p b
    → (tm' : TokenManager) × (replace_token tm p b ≡ ok tm')
IsReplaceable-ok tm p b v (zero, d, is, low, high, ne, dec, free) = absurd (omega arith)
IsReplaceable-ok tm p b v (suc idx, d, is, low, high, ne, dec, free) =
    let (old, at) =
      get_elem?-some tm.decoded_tokens idx (let e = v.decoded_counted in omega arith) in
    let not_taken = is_taken_free tm (suc idx) d v free in
    (
      installed tm idx b d old,
      ap (λ q. replace_token tm q b) is ∙ replace_token_at tm idx b d old high ne dec not_taken at,
    )

ok-IsReplaceable :
    (tm tm' : TokenManager) (p : ℤ) (b : Bytes)
    → IsConsistent tm
    → replace_token tm p b ≡ ok tm'
    → IsReplaceable tm p b
ok-IsReplaceable tm tm' p b v h =
    let r = replace_token_ok tm tm' p b h in
    (
      suc r.idx,
      r.decoded,
      r.is_player,
      omega arith,
      r.in_range,
      r.not_empty,
      r.decoding,
      λ m at. is_taken-false tm (suc r.idx) m r.decoded r.not_taken ((v.owned r.decoded m).1 at),
    )

-- For a consistent manager, ReplaceToken succeeds exactly for a player of the game and a token that is not empty, is valid
-- base64, and does not decode to the token of another player.
pub replace_token_succeeds_iff :
    (tm : TokenManager) (p : ℤ) (b : Bytes)
    → IsConsistent tm
    → ((tm' : TokenManager) × (replace_token tm p b ≡ ok tm')) ↔ IsReplaceable tm p b
replace_token_succeeds_iff tm p b v =
    (λ s. ok-IsReplaceable tm s.0 p b v s.1, IsReplaceable-ok tm p b v)
