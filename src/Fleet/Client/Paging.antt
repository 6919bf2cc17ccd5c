-- ===== src/Fleet/Client/Paging.antt =====
-- getLocations, getInstancesInternal and GetInstances over a service that ends its pages.
use amazon_gamelift_toolkit.Base.{
  ℕ, zero, suc, ◌≤◌, ◌≡◌, refl, sym, ◌∙◌, List, [], ◌∷◌, ◌++◌, Option, none, some, arith, length,
}
use amazon_gamelift_toolkit.Base.Result.{Result, ok, err, panic, ◌>>=◌, bind_cong, bind_assoc}
use amazon_gamelift_toolkit.Go.Text.{Bytes}
use amazon_gamelift_toolkit.Fleet.{ServiceError, FleetError}
use amazon_gamelift_toolkit.Fleet.Client.{
  Page, Instance, RemoteInstance, Service, LocationState, each_page, continue_with, for_each,
  add_instance, add_location, location_of, fetch_instances, get_instances_internal, get_locations,
}

-- The pages that a service hands out from a token on, each naming the token of the page after it.
Serves :
    {A : Type 0}
    → (Option Bytes → Result ServiceError (Page A))
    → Option Bytes
    → List (List A)
    → Type 0
Serves describe token [] = ⊥
Serves describe token (p ∷ []) = describe token ≡ ok (record { items = p; next_token = none })
Serves describe token (p ∷ q ∷ pages) =
    (next : Bytes) × (describe token ≡ ok (record { items = p; next_token = some next }))
    × Serves describe (some next) (q ∷ pages)

abbrev concat : {A : Type 0} → List (List A) → List A
concat [] = []
concat (p ∷ pages) = p ++ concat pages

for_each-append :
    {S A : Type 0} (add : S → A → Result FleetError S) (s : S) (xs ys : List A)
    → for_each add s (xs ++ ys) ≡ (for_each add s xs >>= (λ s'. for_each add s' ys))
unfolding for_each
for_each-append add s [] ys = refl
for_each-append add s (x ∷ xs) ys =
    bind_cong (add s x) _ _ (λ s'. for_each-append add s' xs ys)
    ∙ sym (bind_assoc (add s x) (λ s'. for_each add s' xs) (λ s'. for_each add s' ys))

-- A fetch that adds the items of a page one by one.
abbrev page_of :
    {S A : Type 0}
    → (S → A → Result FleetError S)
    → S
    → List A
    → Option Bytes
    → Result FleetError (S × Option Bytes)
page_of add s items next = for_each add s items >>= (λ found. ok (found, next))

each_page-concat :
    {S A : Type 0} (describe : Option Bytes → Result ServiceError (Page A))
    (add : S → A → Result FleetError S)
    (fetch : S → Option Bytes → Result FleetError (S × Option Bytes))
    → ((s : S) (token : Option Bytes) (page : Page A)
        → describe token ≡ ok page
        → fetch s token ≡ page_of add s page.items page.next_token)
    → (fuel : ℕ) (s : S) (token : Option Bytes) (pages : List (List A))
    → Serves describe token pages
    → length pages ≤ fuel
    → each_page fetch fuel s token ≡ some (for_each add s (concat pages))
unfolding each_page Serves
each_page-concat describe add fetch reads fuel s token [] h le = elim h [ ]
each_page-concat describe add fetch reads zero s token (p ∷ pages) h le = absurd (omega arith)
each_page-concat describe add fetch reads (suc fuel) s token (p ∷ []) h le =
    rw (reads s token _ h, for_each-append add s p []) (last (for_each add s p))
  where
    last :
        (r : Result FleetError _)
        → continue_with (each_page fetch fuel) (r >>= (λ found. ok (found, none)))
          ≡ some (r >>= (λ s'. for_each add s' []))
    last (ok s') = unfold for_each in refl
    last (err e) = refl
    last panic = refl
each_page-concat describe add fetch reads (suc fuel) s token (p ∷ q ∷ pages) (next, h, more) le =
    rw (reads s token _ h, for_each-append add s p (concat (q ∷ pages)))
      (step (for_each add s p) (λ s'.
        each_page-concat describe add fetch reads fuel s' (some next) (q ∷ pages) more
          (omega arith)))
  where
    step :
        (r : Result FleetError _)
        → ((s' : _)
            → each_page fetch fuel s' (some next) ≡ some (for_each add s' (concat (q ∷ pages))))
        → continue_with (each_page fetch fuel) (r >>= (λ found. ok (found, some next)))
          ≡ some (r >>= (λ s'. for_each add s' (concat (q ∷ pages))))
    step (ok s') rest = rest s'
    step (err e) rest = refl
    step panic rest = refl

-- If the service ends the instances of a location after some pages, a fuel of as many pages is
-- enough for getInstancesInternal: it returns, and reads the instances of all pages in order.
get_instances_internal-concat :
    (service : Service) (fuel : ℕ) (fleet location : Bytes) (found : List Instance)
    (pages : List (List RemoteInstance))
    → Serves (service.describe_instances fleet (location_of location)) none pages
    → length pages ≤ fuel
    → get_instances_internal service fuel fleet location found none
      ≡ some (for_each (add_instance fleet) found (concat pages))
unfolding get_instances_internal
get_instances_internal-concat service fuel fleet location found pages h le =
    each_page-concat (service.describe_instances fleet (location_of location)) (add_instance fleet)
      (fetch_instances service fleet location)
      (λ s token page e. unfold fetch_instances in rw (e) refl) fuel found none pages h le

get_locations-concat :
    (service : Service) (fuel : ℕ) (fleet : Bytes) (pages : List (List (Option LocationState)))
    → Serves (service.describe_fleet_location_attributes fleet) none pages
    → length pages ≤ fuel
    → get_locations service fuel fleet [] none ≡ some (for_each add_location [] (concat pages))
unfolding get_locations
get_locations-concat service fuel fleet pages h le =
    each_page-concat (service.describe_fleet_location_attributes fleet) add_location _
      (λ s token page e. rw (e) refl) fuel [] none pages h le
