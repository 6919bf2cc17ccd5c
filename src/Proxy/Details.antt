-- ===== src/Proxy/Details.antt =====
-- player-gateway-testing-app/internal/proxy/proxy.go: the connection details that answer a
-- GetPlayerConnectionDetails command, before they are written as JSON.
pub mod Requested
pub mod Examples
use amazon_gamelift_toolkit.Base.{
  ℕ, ◌+◌, ◌*◌, ◌≡◌, refl, sym, ap, subst, ◌∙◌, ◌⊎◌, inl, inr, ◌↔◌, Bool, true, false, List, [], ◌∷◌,
  Option, none, some, arith, if◌then◌else◌, Bool-cases,
}
use amazon_gamelift_toolkit.Base.Int.{ℤ, pos, negsuc}
use amazon_gamelift_toolkit.Base.Eq.{nat_eq, int_beq, int_beq_iff}
use amazon_gamelift_toolkit.Base.Dict.{Dict, lookup}
use amazon_gamelift_toolkit.Base.Elem.{Elem}
use amazon_gamelift_toolkit.Go.Text.{Bytes}
use amazon_gamelift_toolkit.Go.Decimal.{itoa}
use amazon_gamelift_toolkit.Stats.Snapshot.{StatsSnapshot}

abbrev pub token_expiration_minutes : ℕ
token_expiration_minutes = 3

pub record PlayerConnectionEndpoint : Type 0 where
  pub ip_address : Bytes
  pub port : ℕ

pub record PlayerConnectionDetail : Type 0 where
  pub player_number : Bytes
  pub endpoints : List PlayerConnectionEndpoint
  pub player_gateway_token : Bytes
  pub expiration : ℕ

abbrev pub or_no_token : Option Bytes → Bytes
or_no_token none = []
or_no_token (some token) = token

abbrev pub token_of : Dict ℕ Bytes → ℤ → Bytes
token_of valid_tokens (pos n) = or_no_token (lookup n valid_tokens)
token_of valid_tokens (negsuc n) = []

unfoldable pub endpoints_of : Bytes → List ℕ → List PlayerConnectionEndpoint
endpoints_of ip [] = []
endpoints_of ip (port ∷ ports) = record { ip_address = ip; port = port } ∷ endpoints_of ip ports

unfoldable pub is_requested : ℤ → List ℤ → Bool
is_requested player [] = false
is_requested player (number ∷ numbers) =
    let rest = is_requested player numbers in if int_beq number player then true else rest

-- `len(requestedNumbers) > 0 && !requestedNumbers[playerNum]` skips a player.
abbrev pub is_skipped : List ℤ → ℤ → Bool
is_skipped [] player = false
is_skipped (number ∷ numbers) player =
    if is_requested player (number ∷ numbers) then false else true

-- The loop's detail of a player. `now` is the Unix time.
unfoldable pub detail_of : StatsSnapshot → ℕ → ℤ → List ℕ → PlayerConnectionDetail
detail_of snapshot now player_num ports = record {
  player_number = itoa player_num;
  endpoints = endpoints_of snapshot.ip_address ports;
  player_gateway_token = token_of snapshot.valid_tokens player_num;
  expiration = now + token_expiration_minutes * 60;
}

unfoldable pub details_from :
    StatsSnapshot → ℕ → List ℤ → Dict ℤ (List ℕ) → List PlayerConnectionDetail
details_from snapshot now player_numbers [] = []
details_from snapshot now player_numbers ((player_num, ports) ∷ entries) =
    let rest = details_from snapshot now player_numbers entries in
    if is_skipped player_numbers player_num
    then rest
    else detail_of snapshot now player_num ports ∷ rest

-- buildConnectionDetailsJSON up to json.Marshal, over the entries in the order that the map gives.
unfoldable pub build_connection_details : StatsSnapshot → ℕ → List ℤ → List PlayerConnectionDetail
unfolding details_from
build_connection_details snapshot now player_numbers =
    details_from snapshot now player_numbers snapshot.player_endpoints
