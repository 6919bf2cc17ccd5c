-- ===== src/Proxy/Details/Requested.antt =====
-- Which details the answer to a GetPlayerConnectionDetails command holds.
use amazon_gamelift_toolkit.Base.{ℕ, ◌≡◌, ◌⊎◌, List, [], ◌+◌, ◌≢◌, some, map}
use amazon_gamelift_toolkit.Base.Int.{ℤ, pos}
use amazon_gamelift_toolkit.Base.Eq.{nat_eq}
use amazon_gamelift_toolkit.Base.Dict.{Dict, lookup}
use amazon_gamelift_toolkit.Base.Elem.{Elem}
use amazon_gamelift_toolkit.Go.Text.{Bytes}
use amazon_gamelift_toolkit.Go.Decimal.{itoa}
use amazon_gamelift_toolkit.Stats.Snapshot.{StatsSnapshot}
use amazon_gamelift_toolkit.Proxy.Details.{PlayerConnectionDetail}

-- The player is asked for, or no numbers are given.
abbrev pub IsAsked : List ℤ → ℤ → Type 0
IsAsked numbers player = (numbers ≡ []) ⊎ Elem player numbers

-- The token that the answer gives for a player: the player's valid one, or an empty text.
pub record HasToken (valid_tokens : Dict ℕ Bytes) (player : ℤ) (token : Bytes) : Type 0 where
  pub valid : (n : ℕ) (t : Bytes) → player ≡ pos n → lookup n valid_tokens ≡ some t → token ≡ t
  pub missing : ((n : ℕ) (t : Bytes) → player ≡ pos n → lookup n valid_tokens ≢ some t) → token ≡ []

-- What a detail says of its player. The token expires in three minutes.
pub record Describes (snapshot : StatsSnapshot) (now : ℕ) (player : ℤ) (ports : List ℕ)
    (d : PlayerConnectionDetail) : Type 0 where
  pub number : d.player_number ≡ itoa player
  pub endpoints :
      d.endpoints ≡ map (λ port. record { ip_address = snapshot.ip_address; port = port }) ports
  pub token : HasToken snapshot.valid_tokens player d.player_gateway_token
  pub expires : d.expiration ≡ now + 180

-- A detail of a player who is asked for.
abbrev pub IsDetail : StatsSnapshot → ℕ → List ℤ → Dict ℤ (List ℕ) → PlayerConnectionDetail → Type 0
IsDetail snapshot now numbers entries d =
    (player : ℤ) × (ports : List ℕ) × Elem (player, ports) entries
    × IsAsked numbers player
    × Describes snapshot now player ports d
