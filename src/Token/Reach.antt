-- ===== src/Token/Reach.antt =====
-- The token manager in any run: a new manager, and then calls of ReplaceToken.
use amazon_gamelift_toolkit.Base.{ℕ, ◌<◌, ◌≡◌, ◌∙◌}
use amazon_gamelift_toolkit.Base.Int.{ℤ}
use amazon_gamelift_toolkit.Base.Result.{ok, err}
use amazon_gamelift_toolkit.Go.Text.{Bytes}
use amazon_gamelift_toolkit.Token.{TokenManager, TokenError, new_token_manager, replace_token}
use amazon_gamelift_toolkit.Token.Invariant.{IsConsistent}
use amazon_gamelift_toolkit.Token.Issue.{IsDraw, new_token_manager-IsConsistent}
use amazon_gamelift_toolkit.Token.Replace.{replace_token-IsConsistent}
use amazon_gamelift_toolkit.Token.Effect.{replace_token_effect}

-- A call that fails leaves the manager as it is.
pub data Step (tm : TokenManager) : TokenManager → Type 0 where
  replaces : (tm' : TokenManager) (p : ℤ) (b : Bytes) → replace_token tm p b ≡ ok tm' → Step tm tm'
  fails : (p : ℤ) (b : Bytes) (e : TokenError) → replace_token tm p b ≡ err e → Step tm tm

pub data Reach (s : TokenManager) : TokenManager → Type 0 where
  here : Reach s s
  next : {t u : TokenManager} → Reach s t → Step t u → Reach s u

abbrev Holds : ℕ → TokenManager → Type 0
Holds count tm = IsConsistent tm × (tm.player_count ≡ count)

Step-Holds : (count : ℕ) {t u : TokenManager} → Step t u → Holds count t → Holds count u
Step-Holds count {t = t} (replaces u p b e) (v, c) =
    let (_, _, _, _, same) = replace_token_effect t u p b v e in
    (replace_token-IsConsistent t u p b v e, same ∙ c)
Step-Holds count (fails p b e h) v = v

-- After any run of a new token manager, in which ReplaceToken is called for any players with any
-- tokens, successfully or not, the map and the two lists of tokens agree, no two players share a
-- token, and the number of players is that of the start. The random source has to write 14 bytes
-- at each draw, and no two draws may agree.
pub reachable-IsConsistent :
    (draw : ℕ → Bytes) (count : ℕ)
    → ((i : ℕ) → i < count → IsDraw (draw i))
    → ((i j : ℕ) → i < count → j < count → draw i ≡ draw j → i ≡ j)
    → {tm : TokenManager} → Reach (new_token_manager draw count) tm
    → IsConsistent tm × (tm.player_count ≡ count)
reachable-IsConsistent draw count random distinct here =
    let (v, _, c) = new_token_manager-IsConsistent draw count random distinct in (v, c)
reachable-IsConsistent draw count random distinct (next run step) =
    Step-Holds count step (reachable-IsConsistent draw count random distinct run)
