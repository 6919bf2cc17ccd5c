-- ===== src/Fleet/Runner.antt =====
-- fast-build-update-tool/internal/runner/fleet_updater.go: the update of a fleet. The clients and
-- tools are its environment; what is kept of a run is the row of the changes it makes outside.
pub mod Counts
pub mod Safety
pub mod Allowed
use amazon_gamelift_toolkit.Base.{
  ℕ, ◌+◌, ◌≡◌, refl, Bool, true, false, List, [], ◌∷◌, ◌++◌, map, Option, none, some, length,
  if◌then◌else◌,
}
use amazon_gamelift_toolkit.Base.Int.{ℤ}
use amazon_gamelift_toolkit.Base.Result.{Result, ok, err, panic}
use amazon_gamelift_toolkit.Go.Text.{Bytes}
use amazon_gamelift_toolkit.Fleet.{OperatingSystem, ServiceError, FleetError, update_failed}
use amazon_gamelift_toolkit.Fleet.Arguments.{CliArgs, get_update_operation}
use amazon_gamelift_toolkit.Fleet.Client.{Fleet, Instance}
use amazon_gamelift_toolkit.Fleet.Tools.{determine_port, validate_zip}
use amazon_gamelift_toolkit.Fleet.Instance.{
  UpdateStep, UpdateOutcome, InstanceUpdater, Programs, Remote, create, steps_of, update,
}

-- The calls of Amazon GameLift that the runner makes.
pub record GameLiftClient : Type 0 where
  pub get_fleet : Bytes → Result FleetError Fleet
  pub get_instances : Bytes → List Bytes → Result FleetError (List Instance)
  pub open_port_for_fleet : Bytes → ℤ → Bytes → Result {0, 0} FleetError Unit

-- A change made outside of the program, or an attempt at it.
pub data Event : Type 0 where
  opens_port : ℤ → Event
  generates_script : Event
  takes_step : Bytes → UpdateStep → Event

pub record Environment (Signer : Type 0) (Key : Type 0) : Type 0 where
  pub client : GameLiftClient
  pub archive : Result ServiceError (List Bytes)
  pub generate_script : OperatingSystem → List Bytes → Result FleetError Bytes
  pub load_key : Result FleetError Signer
  pub public_key : Signer → Bytes
  pub programs : Programs
  pub remote : Signer → Instance → Remote Key

-- A part of a run: the events, and the value, the error or the panic.
abbrev pub Run : Type 0 → Type 0
Run A = List Event × Result FleetError A

infixl 5 ◌>>>◌
unfoldable pub ◌>>>◌ : {A B : Type 0} → Run A → (A → Run B) → Run B
(trace, ok a) >>> f = let rest = f a in (trace ++ rest.0, rest.1)
(trace, err e) >>> f = (trace, err e)
(trace, panic) >>> f = (trace, panic)

pub record FleetUpdateResults : Type 0 where
  pub instances_found : ℕ
  pub instances_updated : ℕ
  pub instances_failed_update : List Bytes

abbrev pub taken : Instance → UpdateOutcome → Run Unit
taken target o = (map (takes_step target.instance_id) o.steps, o.result)

abbrev pub update_with : {Key : Type 0} → Remote Key → Instance → InstanceUpdater → Run Unit
update_with remote target u = taken target (update (steps_of remote u) u.progress_tracker)

unfoldable pub update_instance :
    {Signer Key : Type 0}
    → Environment Signer Key
    → CliArgs
    → Signer
    → ℤ
    → Bytes
    → Instance
    → Run Unit
unfolding create steps_of update get_update_operation
update_instance env args key port script target =
    (
      [],
      create env.programs (get_update_operation args) args.build_zip_path args.private_key_path
          args.verbose (env.public_key key) script port target,
    )
    >>> update_with (env.remote key target) target

-- Count an instance that was updated, and name one that failed; a panic ends the run.
abbrev pub counted : FleetUpdateResults → Instance → Run Unit → Run FleetUpdateResults
counted r target (trace, ok _) =
    (trace, ok (record r { instances_updated = r.instances_updated + 1 }))
counted r target (trace, err e) = (
  trace,
  ok (record r { instances_failed_update = r.instances_failed_update ++ target.instance_id ∷ [] }),
)
counted r target (trace, panic) = (trace, panic)

unfoldable pub update_each :
    (Instance → Run Unit) → FleetUpdateResults → List Instance → Run FleetUpdateResults
update_each one r [] = ([], ok r)
update_each one r (target ∷ targets) =
    counted r target (one target) >>> (λ r'. update_each one r' targets)

abbrev pub error_of : List Bytes → Option FleetError
error_of [] = none
error_of (id ∷ ids) = some update_failed

-- The results, with the error that some instance has failed.
abbrev pub reported : FleetUpdateResults → Run (FleetUpdateResults × Option FleetError)
reported r = ([], ok (r, error_of r.instances_failed_update))

unfoldable pub update_all :
    (Instance → Run Unit) → List Instance → Run (FleetUpdateResults × Option FleetError)
unfolding update_each
update_all one targets =
    update_each one
      (record {
        instances_found = length targets;
        instances_updated = 0;
        instances_failed_update = [];
      })
      targets
    >>> reported

unfoldable pub validate_zip_file :
    CliArgs → Result ServiceError (List Bytes) → List Bytes → Result {0, 0} FleetError Unit
unfolding validate_zip
validate_zip_file args archive paths =
    let r = validate_zip archive paths in if args.restart then ok tt else r

abbrev quietly : {A : Type 0} → Result FleetError A → Run A
quietly r = ([], r)

abbrev pub lookup_fleet : {Signer Key : Type 0} → Environment Signer Key → CliArgs → Run Fleet
lookup_fleet env args = quietly (env.client.get_fleet args.fleet_id)

abbrev pub ensure_ssh_port_is_set : CliArgs → OperatingSystem → Run ℤ
ensure_ssh_port_is_set args os = quietly (determine_port args.ssh_port os)

abbrev pub ensure_ssh_port_is_open_for_fleet :
    {Signer Key : Type 0} → Environment Signer Key → CliArgs → ℤ → Run Unit
ensure_ssh_port_is_open_for_fleet env args port =
    (opens_port port ∷ [], env.client.open_port_for_fleet args.fleet_id port args.ip_range)

abbrev pub generate_update_script :
    {Signer Key : Type 0} → Environment Signer Key → Fleet → Run Bytes
generate_update_script env fleet =
    (generates_script ∷ [], env.generate_script fleet.operating_system fleet.executable_paths)

abbrev pub load_ssh_key : {Signer Key : Type 0} → Environment Signer Key → Run Signer
load_ssh_key env = quietly env.load_key

abbrev pub fetch_targets :
    {Signer Key : Type 0} → Environment Signer Key → CliArgs → Run (List Instance)
fetch_targets env args = quietly (env.client.get_instances args.fleet_id args.instance_ids)

-- FleetUpdater.UpdateInstances; an error before the instances are reached comes without results.
unfoldable pub update_instances :
    {Signer Key : Type 0}
    → Environment Signer Key
    → CliArgs
    → Run (FleetUpdateResults × Option FleetError)
unfolding update_instance update_all validate_zip_file determine_port
update_instances env args = lookup_fleet env args >>> (λ fleet.
    quietly (validate_zip_file args env.archive fleet.executable_paths) >>> (λ _.
      ensure_ssh_port_is_set args fleet.operating_system >>> (λ port.
        ensure_ssh_port_is_open_for_fleet env args port >>> (λ _.
          generate_update_script env fleet >>> (λ script. load_ssh_key env >>> (λ key.
            fetch_targets env args
            >>> (λ targets. update_all (update_instance env args key port script) targets)))))))
