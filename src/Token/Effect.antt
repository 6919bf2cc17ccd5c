-- ===== src/Token/Effect.antt =====
-- ReplaceToken: who has which token afterwards.
use amazon_gamelift_toolkit.Base.{
  ℕ, zero, suc, ◌≡◌, ◌≢◌, refl, sym, ap, ◌∙◌, inl, inr, List, [], some, arith, get_elem?,
  get_or-set, set, if◌then◌else◌, Bool-cases,
}
use amazon_gamelift_toolkit.Base.Int.{ℤ, pos, negsuc}
use amazon_gamelift_toolkit.Base.Eq.{nat_eq, bytes_eq, int_beq, int_beq_iff}
use amazon_gamelift_toolkit.Base.Result.{ok}
use amazon_gamelift_toolkit.Go.Text.{Bytes}
use amazon_gamelift_toolkit.Go.Base64.{decode}
use amazon_gamelift_toolkit.Token.{
  TokenManager, replace_token, get_token_for_player, get_decoded_token_for_player, token_at,
}
use amazon_gamelift_toolkit.Token.Invariant.{IsConsistent}
use amazon_gamelift_toolkit.Token.Replace.{replace_token_ok, held_base64}

token_at-set :
    (xs : List Bytes) (idx : ℕ) (v : Bytes) {old : Bytes} (q : ℤ)
    → get_elem? xs idx ≡ some old
    → token_at (set xs idx v) q ≡ (if int_beq (pos (suc idx)) q then v else token_at xs q)
token_at-set xs idx v (pos zero) h = ground arith
token_at-set xs idx v (pos (suc j)) h = ground (arith, get_or-set xs idx j v [] h)
token_at-set xs idx v (negsuc n) h = refl

token_at-set_ne :
    (xs : List Bytes) (idx : ℕ) (v : Bytes) {old : Bytes} (p q : ℤ)
    → get_elem? xs idx ≡ some old
    → p ≡ pos (suc idx)
    → q ≢ p
    → token_at (set xs idx v) q ≡ token_at xs q
token_at-set_ne xs idx v p q h is ne = elim (Bool-cases (int_beq (pos (suc idx)) q)) [
  | inl e ↦ absurd (ne (sym ((int_beq_iff (pos (suc idx)) q).0 e) ∙ sym is))
  | inr e ↦ token_at-set xs idx v q h ∙ rw e
]

token_at-set_self :
    (xs : List Bytes) (idx : ℕ) (v : Bytes) {old : Bytes} (p : ℤ)
    → get_elem? xs idx ≡ some old
    → p ≡ pos (suc idx)
    → token_at (set xs idx v) p ≡ v
token_at-set_self xs idx v p h is =
    ap (token_at (set xs idx v)) is ∙ token_at-set xs idx v (pos (suc idx)) h ∙ ground arith

-- What a successful ReplaceToken changes in a consistent manager: the player now has the new token, base64 and decoded,
-- every other player keeps both, and the number of players stays.
pub replace_token_effect :
    (tm tm' : TokenManager) (p : ℤ) (b : Bytes)
    → IsConsistent tm
    → replace_token tm p b ≡ ok tm'
    → (get_token_for_player tm' p ≡ b)
      × (decode b ≡ some (get_decoded_token_for_player tm' p))
      × ((q : ℤ) → q ≢ p → get_token_for_player tm' q ≡ get_token_for_player tm q)
      × ((q : ℤ) → q ≢ p → get_decoded_token_for_player tm' q ≡ get_decoded_token_for_player tm q)
      × (tm'.player_count ≡ tm.player_count)
unfolding get_token_for_player get_decoded_token_for_player
replace_token_effect tm tm' p b v h =
    let r = replace_token_ok tm tm' p b h in
    let (b0, at64) = held_base64 tm r.idx v r.in_range in
    let is = r.is_player in
    rw (r.result) (
      token_at-set_self tm.base64_tokens r.idx b p at64 is,
      r.decoding ∙ ap some (sym (token_at-set_self tm.decoded_tokens r.idx r.decoded p r.held is)),
      λ q. token_at-set_ne tm.base64_tokens r.idx b p q at64 is,
      λ q. token_at-set_ne tm.decoded_tokens r.idx r.decoded p q r.held is,
      refl,
    )
