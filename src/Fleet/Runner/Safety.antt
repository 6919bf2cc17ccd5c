-- ===== src/Fleet/Runner/Safety.antt =====
-- UpdateInstances: no instance is touched before everything is in place.
use amazon_gamelift_toolkit.Base.{
  ◌≡◌, refl, subst, ◌⊎◌, inl, inr, true, List, [], ◌∷◌, map, arith, Bool-cases,
}
use amazon_gamelift_toolkit.Base.Int.{ℤ}
use amazon_gamelift_toolkit.Base.Elem.{Elem, Elem-append}
use amazon_gamelift_toolkit.Base.Result.{Result, ok, err, panic}
use amazon_gamelift_toolkit.Go.Text.{Bytes}
use amazon_gamelift_toolkit.Fleet.{ServiceError}
use amazon_gamelift_toolkit.Fleet.Arguments.{CliArgs}
use amazon_gamelift_toolkit.Fleet.Client.{Fleet, Instance}
use amazon_gamelift_toolkit.Fleet.Tools.{determine_port, validate_zip}
use amazon_gamelift_toolkit.Fleet.Instance.{UpdateStep}
use amazon_gamelift_toolkit.Fleet.Runner.{
  Event, opens_port, generates_script, takes_step, Environment, Run, FleetUpdateResults, counted,
  update_instance, update_each, reported, update_all, validate_zip_file, update_instances, ◌>>>◌,
}

-- All that precedes the first step on an instance.
pub record IsPrepared {Signer Key : Type 0} (env : Environment Signer Key) (args : CliArgs)
    (id : Bytes) : Type 0 where
  pub fleet : Fleet
  pub has_fleet : env.client.get_fleet args.fleet_id ≡ ok fleet
  pub has_archive :
      (args.restart ≡ true) ⊎ (validate_zip env.archive fleet.executable_paths ≡ ok tt)
  pub port : ℤ
  pub has_port : determine_port args.ssh_port fleet.operating_system ≡ ok port
  pub is_open : env.client.open_port_for_fleet args.fleet_id port args.ip_range ≡ ok tt
  pub script : Bytes
  pub has_script : env.generate_script fleet.operating_system fleet.executable_paths ≡ ok script
  pub key : Signer
  pub has_key : env.load_key ≡ ok key
  pub targets : List Instance
  pub has_targets : env.client.get_instances args.fleet_id args.instance_ids ≡ ok targets
  pub target : Instance
  pub is_target : Elem target targets
  pub same_id : target.instance_id ≡ id

-- An event of a composed run comes from the first part, or from the second after the first gave
-- a value.
Elem-then :
    {A B : Type 0} (event : Event) (p : Run A) (f : A → Run B)
    → Elem event (p >>> f).0
    → Elem event p.0 ⊎ ((a : A) × (p.1 ≡ ok a) × Elem event (f a).0)
unfolding ◌>>>◌
Elem-then event (trace, ok a) f h = elim (Elem-append event trace (f a).0 h) [
  | inl l ↦ inl l
  | inr r ↦ inr (a, refl, r)
]
Elem-then event (trace, err e) f h = inl h
Elem-then event (trace, panic) f h = inl h

-- An event that is none of the first part's.
then_only :
    {A B : Type 0} (event : Event) (p : Run A) (f : A → Run B)
    → ¬ Elem event p.0
    → Elem event (p >>> f).0
    → (a : A) × (p.1 ≡ ok a) × Elem event (f a).0
then_only event p f n h = elim (Elem-then event p f h) [ inl l ↦ absurd (n l) | inr r ↦ r ]

-- The steps of one update are steps on its instance.
IsOwn : Instance → Event → Type 0
IsOwn target event = (step : UpdateStep) × (event ≡ takes_step target.instance_id step)

taken-IsOwn :
    (target : Instance) (steps : List UpdateStep) (event : Event)
    → Elem event (map (takes_step target.instance_id) steps)
    → IsOwn target event
unfolding IsOwn
taken-IsOwn target [] event h = elim h [ ]
taken-IsOwn target (step ∷ steps) event (inl e) = (step, e)
taken-IsOwn target (step ∷ steps) event (inr h) = taken-IsOwn target steps event h

update_instance-IsOwn :
    {Signer Key : Type 0} (env : Environment Signer Key) (args : CliArgs) (key : Signer) (port : ℤ)
    (script : Bytes) (target : Instance) (event : Event)
    → Elem event (update_instance env args key port script target).0
    → IsOwn target event
unfolding update_instance
update_instance-IsOwn env args key port script target event h =
    let (u, e, m) = then_only event _ _ (λ l. l) h in taken-IsOwn target _ event m

counted_events :
    (r : FleetUpdateResults) (target : Instance) (p : Run Unit) → (counted r target p).0 ≡ p.0
counted_events r target (trace, ok _) = refl
counted_events r target (trace, err e) = refl
counted_events r target (trace, panic) = refl

update_each-IsOwn :
    (one : Instance → Run Unit)
    → ((target : Instance) (event : Event) → Elem event (one target).0 → IsOwn target event)
    → (targets : List Instance) (r : FleetUpdateResults) (event : Event)
    → Elem event (update_each one r targets).0
    → (target : Instance) × Elem target targets × IsOwn target event
unfolding update_each
update_each-IsOwn one own [] r event h = elim h [ ]
update_each-IsOwn one own (target ∷ targets) r event h =
    elim (Elem-then event (counted r target (one target)) _ h) [
      | inl l ↦ (
        target,
        inl refl,
        own target event (subst (Elem event) (counted_events r target (one target)) l),
      )
      | inr (r', e, m) ↦
          let (t, i, o) = update_each-IsOwn one own targets r' event m in (t, inr i, o)
    ]

update_all-IsOwn :
    (one : Instance → Run Unit)
    → ((target : Instance) (event : Event) → Elem event (one target).0 → IsOwn target event)
    → (targets : List Instance) (event : Event) → Elem event (update_all one targets).0
    → (target : Instance) × Elem target targets × IsOwn target event
unfolding update_all
update_all-IsOwn one own targets event h = elim (Elem-then event _ reported h) [
  | inl l ↦ update_each-IsOwn one own targets _ event l
  | inr (r, e, m) ↦ elim m [ ]
]

zip_cases :
    (args : CliArgs) (archive : Result ServiceError (List Bytes)) (paths : List Bytes)
    → validate_zip_file args archive paths ≡ ok tt
    → (args.restart ≡ true) ⊎ (validate_zip archive paths ≡ ok tt)
unfolding validate_zip_file
zip_cases args archive paths h = elim (Bool-cases args.restart) [
  | inl e ↦ inl e
  | inr e ↦ inr (ground arith)
]

not_port :
    (id : Bytes) (step : UpdateStep) (port : ℤ) → ¬ Elem (takes_step id step) (opens_port port ∷ [])
not_port id step port (inl e) = absurd (ground arith)
not_port id step port (inr m) = m

not_script : (id : Bytes) (step : UpdateStep) → ¬ Elem (takes_step id step) (generates_script ∷ [])
not_script id step (inl e) = absurd (ground arith)
not_script id step (inr m) = m

same_instance :
    (target : Instance) (id : Bytes) (step : UpdateStep)
    → IsOwn target (takes_step id step)
    → target.instance_id ≡ id
unfolding IsOwn
same_instance target id step (step', e) = ground arith

-- A step on an instance is taken only after all of this has succeeded: the fleet was found; its
-- archive was checked, unless the processes are only restarted; the port was determined and opened;
-- the script was generated; the key was loaded; and the instances were listed, the one of the step
-- among them.
pub update_instances-IsPrepared :
    {Signer Key : Type 0} (env : Environment Signer Key) (args : CliArgs) (id : Bytes)
    (step : UpdateStep)
    → Elem (takes_step id step) (update_instances env args).0
    → IsPrepared env args id
unfolding update_instances
update_instances-IsPrepared env args id step h =
    let event = takes_step id step in
    let (fleet, has_fleet, h₁) = then_only event _ _ (λ l. l) h in
    let (_, has_archive, h₂) = then_only event _ _ (λ l. l) h₁ in
    let (port, has_port, h₃) = then_only event _ _ (λ l. l) h₂ in
    let (_, is_open, h₄) = then_only event _ _ (not_port id step port) h₃ in
    let (script, has_script, h₅) = then_only event _ _ (not_script id step) h₄ in
    let (key, has_key, h₆) = then_only event _ _ (λ l. l) h₅ in
    let (targets, has_targets, h₇) = then_only event _ _ (λ l. l) h₆ in
    let (target, is_target, own) =
      update_all-IsOwn (update_instance env args key port script)
        (update_instance-IsOwn env args key port script) targets event h₇ in
    record {
      fleet = fleet;
      has_fleet = has_fleet;
      has_archive = zip_cases args env.archive fleet.executable_paths has_archive;
      port = port;
      has_port = has_port;
      is_open = is_open;
      script = script;
      has_script = has_script;
      key = key;
      has_key = has_key;
      targets = targets;
      has_targets = has_targets;
      target = target;
      is_target = is_target;
      same_id = same_instance target id step own;
    }
