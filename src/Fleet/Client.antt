-- ===== src/Fleet/Client.antt =====
-- fast-build-update-tool/internal/gamelift: what the tool asks Amazon GameLift. The service is a
-- parameter, a function of the request; pointers of its answers are options, and reading a nil one
-- panics. Fuel bounds the number of pages.
pub mod Paging
pub mod Ending
pub mod Filter
pub mod Launch
use amazon_gamelift_toolkit.Base.{
  ℕ, zero, suc, ◌≡◌, refl, Bool, true, false, ◌&&◌, ◌||◌, List, [], ◌∷◌, ◌++◌, Option, none, some,
  map, leb, ◌==◌, ◌+◌, if◌then◌else◌, length,
}
use amazon_gamelift_toolkit.Base.Int.{ℤ}
use amazon_gamelift_toolkit.Base.Eq.{bytes_beq}
use amazon_gamelift_toolkit.Base.Result.{Result, ok, err, panic, ◌>>=◌}
use amazon_gamelift_toolkit.Go.Text.{Bytes, codes}
use amazon_gamelift_toolkit.Go.Replace.{has_substring}
use amazon_gamelift_toolkit.Fleet.{
  OperatingSystem, linux, windows, ServiceError, unsupported_region, invalid_request, FleetError,
  argument_error, service_error, fleet_not_found, instances_not_found, invalid_argument,
}

-- unicode.ToLower on ASCII, which the compared words are made of
unfoldable pub lower : ℕ → ℕ
lower c = if leb b'A' c && leb c b'Z' then c + 32 else c

unfoldable pub to_lower : Bytes → Bytes
unfolding lower
to_lower s = map lower s

-- strings.EqualFold against a word in ASCII
unfoldable pub equal_fold : Bytes → Bytes → Bool
unfolding to_lower
equal_fold a b = bytes_beq (to_lower a) (to_lower b)

unfoldable pub operating_system_lookup : Bytes → Result FleetError OperatingSystem
unfolding has_substring to_lower
operating_system_lookup os =
    if has_substring (to_lower os) (codes "windows")
    then ok windows
    else if has_substring (to_lower os) (codes "linux")
    then ok linux
    else err (argument_error (invalid_argument (codes "operatingSystem") (to_lower os)))

abbrev pub deref {ℓ κ} : {E : Type ℓ} {A : Type κ} → Option A → Result E A
deref none = panic
deref (some a) = ok a

abbrev pub wrapped {ℓ} : {A : Type ℓ} → Result ServiceError A → Result FleetError A
wrapped (ok a) = ok a
wrapped (err e) = err (service_error e)
wrapped panic = panic

pub record Page (A : Type 0) : Type 0 where
  pub items : List A
  pub next_token : Option Bytes

pub record LocationState : Type 0 where
  pub status : Bytes
  pub location : Option Bytes

pub record RemoteInstance : Type 0 where
  pub instance_status : Bytes
  pub os_name : Bytes
  pub ip : Option Bytes
  pub id : Option Bytes
  pub region : Option Bytes

pub record Instance : Type 0 where
  pub ip_address : Bytes
  pub instance_id : Bytes
  pub region : Bytes
  pub fleet_id : Bytes
  pub operating_system : OperatingSystem

-- The calls of the service: a fleet, a location and a token are the request.
pub record Service : Type 0 where
  pub describe_fleet_location_attributes :
      Bytes → Option Bytes → Result ServiceError (Page (Option LocationState))
  pub describe_instances :
      Bytes → Option Bytes → Option Bytes → Result ServiceError (Page RemoteInstance)
  pub describe_fleet_attributes : Bytes → Result ServiceError (List Bytes)
  pub describe_runtime_configuration : Bytes → Result ServiceError (List (Option Bytes))
  pub update_fleet_port_settings : Bytes → ℤ → Bytes → Result {0, 0} ServiceError Unit

-- Call for a page, add its items, and go on with the page after it: the recursion of getLocations
-- and getInstancesInternal. `none` means that the fuel did not suffice.
abbrev pub continue_with :
    {S : Type 0}
    → (S → Option Bytes → Option (Result FleetError S))
    → Result FleetError (S × Option Bytes)
    → Option (Result FleetError S)
continue_with next (ok (s, none)) = some (ok s)
continue_with next (ok (s, some token)) = next s (some token)
continue_with next (err e) = some (err e)
continue_with next panic = some panic

unfoldable pub each_page :
    {S : Type 0}
    → (S → Option Bytes → Result FleetError (S × Option Bytes))
    → ℕ
    → S
    → Option Bytes
    → Option (Result FleetError S)
each_page fetch zero s token = none
each_page fetch (suc fuel) s token = continue_with (each_page fetch fuel) (fetch s token)

abbrev pub active : Bytes
active = codes "ACTIVE"

unfoldable pub add_location : List Bytes → Option LocationState → Result FleetError (List Bytes)
unfolding equal_fold
add_location locations none = panic
add_location locations (some state) =
    if equal_fold state.status active
    then deref state.location >>= (λ location. ok (locations ++ location ∷ []))
    else ok locations

unfoldable pub add_instance :
    Bytes → List Instance → RemoteInstance → Result FleetError (List Instance)
unfolding equal_fold operating_system_lookup
add_instance fleet instances remote =
    if equal_fold remote.instance_status active
    then operating_system_lookup remote.os_name >>= (λ os. deref remote.ip >>= (λ ip.
      deref remote.id >>= (λ id. deref remote.region >>= (λ region. ok (
        instances
        ++ record {
          ip_address = ip;
          instance_id = id;
          region = region;
          fleet_id = fleet;
          operating_system = os;
        }
          ∷ [])))))
    else elim remote.id [ none ↦ panic | some id ↦ ok instances ]

-- A loop over a slice that stops at the first error.
unfoldable pub for_each :
    {S A : Type 0} → (S → A → Result FleetError S) → S → List A → Result FleetError S
for_each add s [] = ok s
for_each add s (x ∷ xs) = add s x >>= (λ s'. for_each add s' xs)

-- What was found so far, with the token of the page after this one.
abbrev pub turned : {S A : Type 0} → Page A → S → Result FleetError (S × Option Bytes)
turned page found = ok (found, page.next_token)

abbrev pub location_page :
    List Bytes
    → Result ServiceError (Page (Option LocationState))
    → Result FleetError (List Bytes × Option Bytes)
location_page locations (err unsupported_region) = ok ([], none)
location_page locations (err e) = err (service_error e)
location_page locations panic = panic
location_page locations (ok page) = for_each add_location locations page.items >>= turned page

unfoldable pub get_locations :
    Service → ℕ → Bytes → List Bytes → Option Bytes → Option (Result FleetError (List Bytes))
unfolding for_each add_location
get_locations service fuel fleet =
    each_page
      (λ found token. location_page found (service.describe_fleet_location_attributes fleet token))
      fuel

abbrev pub location_of : Bytes → Option Bytes
location_of [] = none
location_of (c ∷ s) = some (c ∷ s)

unfoldable pub fetch_instances :
    Service
    → Bytes
    → Bytes
    → List Instance
    → Option Bytes
    → Result FleetError (List Instance × Option Bytes)
unfolding for_each add_instance
fetch_instances service fleet location instances token =
    wrapped (service.describe_instances fleet (location_of location) token)
    >>= (λ page. for_each (add_instance fleet) instances page.items >>= turned page)

unfoldable pub get_instances_internal :
    Service
    → ℕ
    → Bytes
    → Bytes
    → List Instance
    → Option Bytes
    → Option (Result FleetError (List Instance))
unfolding each_page fetch_instances
get_instances_internal service fuel fleet location =
    each_page (fetch_instances service fleet location) fuel

-- The instances of one location after another.
abbrev pub then_locations :
    (List Instance → Option (Result FleetError (List Instance)))
    → Option (Result FleetError (List Instance))
    → Option (Result FleetError (List Instance))
then_locations next (some (ok found)) = next found
then_locations next other = other

unfoldable pub in_locations :
    Service → ℕ → Bytes → List Bytes → List Instance → Option (Result FleetError (List Instance))
unfolding get_instances_internal
in_locations service fuel fleet [] found = some (ok found)
in_locations service fuel fleet (location ∷ locations) found =
    then_locations (in_locations service fuel fleet locations)
      (get_instances_internal service fuel fleet location found none)

-- filterInstances
abbrev pub matches : Instance → List Bytes → List Instance
matches i [] = []
matches i (a ∷ allowed) =
    if bytes_beq i.instance_id a then i ∷ matches i allowed else matches i allowed

unfoldable pub all_matches : List Instance → List Bytes → List Instance
all_matches [] allowed = []
all_matches (i ∷ instances) allowed = matches i allowed ++ all_matches instances allowed

unfoldable pub filter_instances : List Instance → List Bytes → Result FleetError (List Instance)
unfolding all_matches
filter_instances instances [] = ok instances
filter_instances instances (a ∷ allowed) =
    let result = all_matches instances (a ∷ allowed) in
    if length result == length (a ∷ allowed)
    then ok result
    else err (instances_not_found (a ∷ allowed))

abbrev pub filtered :
    List Bytes
    → Option (Result FleetError (List Instance))
    → Option (Result FleetError (List Instance))
filtered allowed none = none
filtered allowed (some found) = some (found >>= (λ instances. filter_instances instances allowed))

abbrev pub in_found_locations :
    Service
    → ℕ
    → Bytes
    → Option (Result FleetError (List Bytes))
    → Option (Result FleetError (List Instance))
in_found_locations service fuel fleet none = none
in_found_locations service fuel fleet (some (err e)) = some (err e)
in_found_locations service fuel fleet (some panic) = some panic
in_found_locations service fuel fleet (some (ok [])) =
    get_instances_internal service fuel fleet [] [] none
in_found_locations service fuel fleet (some (ok (l ∷ ls))) =
    in_locations service fuel fleet (l ∷ ls) []

unfoldable pub get_instances :
    Service → ℕ → Bytes → List Bytes → Option (Result FleetError (List Instance))
unfolding get_locations get_instances_internal in_locations filter_instances
get_instances service fuel fleet allowed =
    filtered allowed
      (in_found_locations service fuel fleet (get_locations service fuel fleet [] none))

pub record Fleet : Type 0 where
  pub fleet : Bytes
  pub operating_system : OperatingSystem
  pub executable_paths : List Bytes

unfoldable pub contains : List Bytes → Bytes → Bool
contains [] lookup = false
contains (v ∷ values) lookup = if bytes_beq v lookup then true else contains values lookup

-- The launch paths of the processes, each once.
unfoldable pub add_path : List Bytes → Option Bytes → Result FleetError (List Bytes)
unfolding contains
add_path paths none = panic
add_path paths (some path) = ok (if contains paths path then paths else paths ++ path ∷ [])

abbrev pub first_os : Bytes → List Bytes → Result FleetError OperatingSystem
first_os fleet [] = err (fleet_not_found fleet)
first_os fleet (os ∷ more) = operating_system_lookup os

unfoldable pub get_fleet : Service → Bytes → Result FleetError Fleet
unfolding operating_system_lookup for_each add_path
get_fleet service fleet =
    wrapped (service.describe_fleet_attributes fleet) >>= first_os fleet >>= (λ os.
      wrapped (service.describe_runtime_configuration fleet)
      >>= for_each add_path []
      >>= (λ paths. ok (record { fleet = fleet; operating_system = os; executable_paths = paths })))

-- The error of a permission that exists already is no error.
abbrev pub unless_duplicate : Result {0, 0} ServiceError Unit → Result {0, 0} FleetError Unit
unless_duplicate (err (invalid_request message)) =
    if has_substring message (codes "InvalidPermission.Duplicate")
    then ok tt
    else err (service_error (invalid_request message))
unless_duplicate other = wrapped other

unfoldable pub open_port_for_fleet : Service → Bytes → ℤ → Bytes → Result {0, 0} FleetError Unit
unfolding has_substring
open_port_for_fleet service fleet port range =
    unless_duplicate (service.update_fleet_port_settings fleet port range)
