-- ===== src/Fleet/Client/Ending.antt =====
-- GetInstances returns if the service ends its pages, whatever the pages hold and whether or not a
-- call fails.
use amazon_gamelift_toolkit.Base.{ℕ, zero, suc, ◌≡◌, refl, List, [], ◌∷◌, Option, none, some, arith}
use amazon_gamelift_toolkit.Base.Result.{Result, ok, err, panic, ◌>>=◌}
use amazon_gamelift_toolkit.Go.Text.{Bytes}
use amazon_gamelift_toolkit.Fleet.{
  ServiceError, unsupported_region, invalid_request, other_error, FleetError,
}
use amazon_gamelift_toolkit.Fleet.Client.{
  Page, Instance, Service, each_page, continue_with, for_each, add_instance, location_page,
  location_of, fetch_instances, turned, get_instances_internal, get_locations, in_locations,
  get_instances, wrapped, then_locations, filtered, in_found_locations,
}

-- At most `n` pages come from a token on, until the last one or an error.
unfoldable pub Ends :
    {A : Type 0} → (Option Bytes → Result ServiceError (Page A)) → ℕ → Option Bytes → Type 0
Ends describe zero token = ⊥
Ends describe (suc n) token =
    (page : Page _) (next : Bytes)
    → describe token ≡ ok page
    → page.next_token ≡ some next
    → Ends describe n (some next)

-- A fetch that goes on only to the token of the page it read.
abbrev FollowsPages :
    {S A : Type 0}
    → (Option Bytes → Result ServiceError (Page A))
    → (S → Option Bytes → Result FleetError (S × Option Bytes))
    → Type 0
FollowsPages {S = S} describe fetch =
    (s s' : S) (token : Option Bytes) (next : Bytes)
    → fetch s token ≡ ok (s', some next)
    → (page : Page _) × (describe token ≡ ok page) × (page.next_token ≡ some next)

abbrev Returns : {B : Type 0} → Option B → Type 0
Returns o = (b : _) × (o ≡ some b)

each_page-Returns :
    {S A : Type 0} (describe : Option Bytes → Result ServiceError (Page A))
    (fetch : S → Option Bytes → Result FleetError (S × Option Bytes))
    → FollowsPages describe fetch
    → (fuel : ℕ) (s : S) (token : Option Bytes) → Ends describe fuel token
    → Returns (each_page fetch fuel s token)
unfolding each_page Ends
each_page-Returns describe fetch follows zero s token h = elim h [ ]
each_page-Returns {S = S} describe fetch follows (suc fuel) s token h =
    step (fetch s token) (λ s' next e.
      let p = follows s s' token next e in
      each_page-Returns describe fetch follows fuel s' (some next) (h p.0 next p.1 p.2))
  where
    step :
        (r : Result FleetError (S × Option Bytes))
        → ((s' : S) (next : Bytes)
            → r ≡ ok (s', some next)
            → Returns (each_page fetch fuel s' (some next)))
        → Returns (continue_with (each_page fetch fuel) r)
    step (ok (s', none)) rest = (_, refl)
    step (ok (s', some next)) rest = rest s' next refl
    step (err e) rest = (_, refl)
    step panic rest = (_, refl)

for_each-snd :
    {S A : Type 0} (r : Result FleetError S) (page : Page A) (s' : S) (next : Bytes)
    → (r >>= turned page) ≡ ok (s', some next)
    → page.next_token ≡ some next
for_each-snd (ok s) page s' next h = ground arith
for_each-snd (err e) page s' next h = absurd (ground arith)
for_each-snd panic page s' next h = absurd (ground arith)

get_locations-Returns :
    (service : Service) (fuel : ℕ) (fleet : Bytes)
    → Ends (service.describe_fleet_location_attributes fleet) fuel none
    → Returns (get_locations service fuel fleet [] none)
unfolding get_locations
get_locations-Returns service fuel fleet h =
    each_page-Returns (service.describe_fleet_location_attributes fleet) _
      (λ s s' token next e.
        follows s s' next (service.describe_fleet_location_attributes fleet token) e)
      fuel [] none h
  where
    follows :
        (s s' : List Bytes) (next : Bytes) (r : Result ServiceError (Page _))
        → location_page s r ≡ ok (s', some next)
        → (page : Page _) × (r ≡ ok page) × (page.next_token ≡ some next)
    follows s s' next (ok page) e = (page, refl, for_each-snd _ page s' next e)
    follows s s' next (err unsupported_region) e = absurd (ground arith)
    follows s s' next (err (invalid_request m)) e = absurd (ground arith)
    follows s s' next (err (other_error m)) e = absurd (ground arith)
    follows s s' next panic e = absurd (ground arith)

get_instances_internal-Returns :
    (service : Service) (fuel : ℕ) (fleet location : Bytes) (found : List Instance)
    → Ends (service.describe_instances fleet (location_of location)) fuel none
    → Returns (get_instances_internal service fuel fleet location found none)
unfolding get_instances_internal
get_instances_internal-Returns service fuel fleet location found h =
    each_page-Returns (service.describe_instances fleet (location_of location))
      (fetch_instances service fleet location)
      (λ s s' token next e.
        unfold fetch_instances in
        follows s s' next (service.describe_instances fleet (location_of location) token) e)
      fuel found none h
  where
    follows :
        (s s' : List Instance) (next : Bytes) (r : Result ServiceError (Page _))
        → (wrapped r >>= (λ page. for_each (add_instance fleet) s page.items >>= turned page))
          ≡ ok (s', some next)
        → (page : Page _) × (r ≡ ok page) × (page.next_token ≡ some next)
    follows s s' next (ok page) e = (page, refl, for_each-snd _ page s' next e)
    follows s s' next (err x) e = absurd (ground arith)
    follows s s' next panic e = absurd (ground arith)

in_locations-Returns :
    (service : Service) (fuel : ℕ) (fleet : Bytes) (locations : List Bytes) (found : List Instance)
    → ((location : Bytes)
        → Ends (service.describe_instances fleet (location_of location)) fuel none)
    → Returns (in_locations service fuel fleet locations found)
unfolding in_locations
in_locations-Returns service fuel fleet [] found h = (_, refl)
in_locations-Returns service fuel fleet (l ∷ ls) found h =
    let r = get_instances_internal-Returns service fuel fleet l found (h l) in
    step (get_instances_internal service fuel fleet l found none) r
      (λ s. in_locations-Returns service fuel fleet ls s h)
  where
    step :
        (o : Option (Result FleetError (List Instance)))
        → Returns o
        → ((s : List Instance) → Returns (in_locations service fuel fleet ls s))
        → Returns (then_locations (in_locations service fuel fleet ls) o)
    step none (b, e) rest = absurd (ground arith)
    step (some (ok s)) r rest = rest s
    step (some (err e)) r rest = (_, refl)
    step (some panic) r rest = (_, refl)

-- If the service ends the locations of the fleet and the instances of every location after at
-- most `fuel` pages, then GetInstances returns, with instances, an error or a panic, whatever the
-- pages hold.
pub get_instances_returns :
    (service : Service) (fuel : ℕ) (fleet : Bytes) (allowed : List Bytes)
    → Ends (service.describe_fleet_location_attributes fleet) fuel none
    → ((location : Bytes)
        → Ends (service.describe_instances fleet (location_of location)) fuel none)
    → (r : Result FleetError (List Instance)) × (get_instances service fuel fleet allowed ≡ some r)
unfolding get_instances
get_instances_returns service fuel fleet allowed hl hi =
    step (get_locations service fuel fleet [] none) (get_locations-Returns service fuel fleet hl)
  where
    closes : (o : Option _) → Returns o → Returns (filtered allowed o)
    closes none (b, e) = absurd (ground arith)
    closes (some r) h = (_, refl)

    step :
        (o : Option (Result FleetError (List Bytes)))
        → Returns o
        → Returns (filtered allowed (in_found_locations service fuel fleet o))
    step none (b, e) = absurd (ground arith)
    step (some (err e)) h = (_, refl)
    step (some panic) h = (_, refl)
    step (some (ok [])) h =
        closes _ (get_instances_internal-Returns service fuel fleet [] [] (hi []))
    step (some (ok (l ∷ ls))) h = closes _ (in_locations-Returns service fuel fleet (l ∷ ls) [] hi)
