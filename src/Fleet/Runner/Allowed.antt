-- ===== src/Fleet/Runner/Allowed.antt =====
-- The runner on the client of Amazon GameLift: only instances that were asked for are touched.
use amazon_gamelift_toolkit.Base.{
  ℕ, ◌≡◌, ◌≢◌, refl, sym, ap, subst, ◌∙◌, inl, inr, List, [], ◌∷◌, Option, none, some, arith,
  if◌then◌else◌, Bool-cases,
}
use amazon_gamelift_toolkit.Base.Eq.{bytes_beq, bytes_beq_iff}
use amazon_gamelift_toolkit.Base.Elem.{Elem, Elem-append}
use amazon_gamelift_toolkit.Base.Result.{Result, ok, err, panic}
use amazon_gamelift_toolkit.Go.Text.{Bytes}
use amazon_gamelift_toolkit.Fleet.{FleetError}
use amazon_gamelift_toolkit.Fleet.Arguments.{CliArgs}
use amazon_gamelift_toolkit.Fleet.Client.{
  Instance, Service, location_of, matches, all_matches, filter_instances, filtered, get_fleet,
  get_instances, in_found_locations, open_port_for_fleet,
}
use amazon_gamelift_toolkit.Fleet.Client.Ending.{Ends, get_instances_returns}
use amazon_gamelift_toolkit.Fleet.Instance.{UpdateStep}
use amazon_gamelift_toolkit.Fleet.Runner.{GameLiftClient, Environment, takes_step, update_instances}
use amazon_gamelift_toolkit.Fleet.Runner.Safety.{update_instances-IsPrepared}

-- A service that ends its pages, with a fuel that is enough for them.
pub record EndingService : Type 0 where
  pub service : Service
  pub fuel : ℕ
  pub locations_end :
      (fleet : Bytes) → Ends (service.describe_fleet_location_attributes fleet) fuel none
  pub instances_end :
      (fleet location : Bytes)
      → Ends (service.describe_instances fleet (location_of location)) fuel none

pub none-ne-some : {A : Type 0} (a : A) → none ≢ some a
none-ne-some a e = ground arith

-- The value of a call that returns.
abbrev value_of : {A : Type 0} (o : Option A) → ((a : A) × (o ≡ some a)) → A
value_of none (a, e) = absurd (none-ne-some a e)
value_of (some a) h = a

value_of_lem : {A : Type 0} (o : Option A) (h : (a : A) × (o ≡ some a)) → o ≡ some (value_of o h)
value_of_lem none (a, e) = absurd (ground arith)
value_of_lem (some a) h = refl

pub listed :
    (s : EndingService) (fleet : Bytes) (allowed : List Bytes)
    → (r : Result FleetError (List Instance)) × (get_instances s.service s.fuel fleet allowed
        ≡ some r)
listed s fleet allowed =
    get_instances_returns s.service s.fuel fleet allowed (s.locations_end fleet)
      (s.instances_end fleet)

-- The runner's interface, filled by the client.
abbrev pub client_of : EndingService → GameLiftClient
client_of s = record {
  get_fleet = get_fleet s.service;
  get_instances = λ fleet allowed.
      value_of (get_instances s.service s.fuel fleet allowed) (listed s fleet allowed);
  open_port_for_fleet = open_port_for_fleet s.service;
}

matches-Elem :
    (i : Instance) (allowed : List Bytes) (target : Instance)
    → Elem target (matches i allowed)
    → Elem target.instance_id allowed
matches-Elem i [] target h = elim h [ ]
matches-Elem i (a ∷ allowed) target h = elim (Bool-cases (bytes_beq i.instance_id a)) [
  | inl e ↦
      elim (subst (λ b. Elem target (if b then i ∷ matches i allowed else matches i allowed)) e h) [
        | inl q ↦ inl (ap (λ (t : Instance). t.instance_id) q ∙ (bytes_beq_iff i.instance_id a).0 e)
        | inr m ↦ inr (matches-Elem i allowed target m)
      ]
  | inr e ↦ inr (
      matches-Elem i allowed target
        (subst (λ b. Elem target (if b then i ∷ matches i allowed else matches i allowed)) e h))
]

all_matches-Elem :
    (instances : List Instance) (allowed : List Bytes) (target : Instance)
    → Elem target (all_matches instances allowed)
    → Elem target.instance_id allowed
unfolding all_matches
all_matches-Elem [] allowed target h = elim h [ ]
all_matches-Elem (i ∷ instances) allowed target h =
    elim (Elem-append target (matches i allowed) (all_matches instances allowed) h) [
      | inl m ↦ matches-Elem i allowed target m
      | inr m ↦ all_matches-Elem instances allowed target m
    ]

filter_instances-Elem :
    (instances targets : List Instance) (allowed : List Bytes)
    → allowed ≢ []
    → filter_instances instances allowed ≡ ok targets
    → (target : Instance) → Elem target targets
    → Elem target.instance_id allowed
unfolding filter_instances
filter_instances-Elem instances targets [] n e target h = absurd (n refl)
filter_instances-Elem instances targets (a ∷ allowed) n e target h =
    let q : all_matches instances (a ∷ allowed) ≡ targets = ground arith in
    all_matches-Elem instances (a ∷ allowed) target (subst (Elem target) (sym q) h)

get_instances-Elem :
    (service : Service) (fuel : ℕ) (fleet : Bytes) (allowed : List Bytes) (targets : List Instance)
    → allowed ≢ []
    → get_instances service fuel fleet allowed ≡ some (ok targets)
    → (target : Instance) → Elem target targets
    → Elem target.instance_id allowed
unfolding get_instances
get_instances-Elem service fuel fleet allowed targets n e =
    of (in_found_locations service fuel fleet _) e
  where
    of :
        (o : Option (Result FleetError (List Instance)))
        → filtered allowed o ≡ some (ok targets)
        → (target : Instance) → Elem target targets
        → Elem target.instance_id allowed
    of none q = absurd (ground arith)
    of (some (err x)) q = absurd (ground arith)
    of (some panic) q = absurd (ground arith)
    of (some (ok found)) q =
        let p : filter_instances found allowed ≡ ok targets = ground arith in
        filter_instances-Elem found targets allowed n p

-- If instance ids are given on the command line, the runner on the client of a service that ends
-- its pages takes steps only on instances with these ids.
pub update_instances_touches_allowed :
    {Signer Key : Type 0} (s : EndingService) (env : Environment Signer Key) (args : CliArgs)
    (id : Bytes) (step : UpdateStep)
    → env.client ≡ client_of s
    → args.instance_ids ≢ []
    → Elem (takes_step id step) (update_instances env args).0
    → Elem id args.instance_ids
update_instances_touches_allowed s env args id step c n h =
    let p = update_instances-IsPrepared env args id step h in
    let q : (client_of s).get_instances args.fleet_id args.instance_ids ≡ ok p.targets =
      subst (λ (k : GameLiftClient). k.get_instances args.fleet_id args.instance_ids ≡ ok p.targets)
        c p.has_targets in
    subst (λ i. Elem i args.instance_ids) p.same_id
      (get_instances-Elem s.service s.fuel args.fleet_id args.instance_ids p.targets n
        (value_of_lem _ (listed s args.fleet_id args.instance_ids) ∙ ap some q) p.target
        p.is_target)
