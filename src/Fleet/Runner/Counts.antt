-- ===== src/Fleet/Runner/Counts.antt =====
-- updateInstances: what the results count, and that every instance has its turn.
use amazon_gamelift_toolkit.Base.{
  ◌+◌, ◌≡◌, ◌≢◌, ◌↔◌, refl, sym, ap, ◌∙◌, List, [], ◌∷◌, ◌++◌, append-nil, append_assoc, Option,
  none, arith, length,
}
use amazon_gamelift_toolkit.Base.Result.{Result, ok, err, panic}
use amazon_gamelift_toolkit.Go.Text.{Bytes, All}
use amazon_gamelift_toolkit.Fleet.{FleetError}
use amazon_gamelift_toolkit.Fleet.Client.{Instance}
use amazon_gamelift_toolkit.Fleet.Runner.{
  Event, Run, FleetUpdateResults, counted, update_each, error_of, update_all, ◌>>>◌,
}

-- The id of an instance whose update gives an error.
abbrev failed_id : Instance → Result {0, 0} FleetError Unit → List Bytes
failed_id target (err e) = target.instance_id ∷ []
failed_id target other = []

pub failed_ids : (Instance → Run Unit) → List Instance → List Bytes
failed_ids one [] = []
failed_ids one (target ∷ targets) = failed_id target (one target).1 ++ failed_ids one targets

-- The events of all instances, one after another.
pub all_events : (Instance → Run Unit) → List Instance → List Event
all_events one [] = []
all_events one (target ∷ targets) = (one target).0 ++ all_events one targets

record IsCounted (one : Instance → Run Unit) (r : FleetUpdateResults) (targets : List Instance)
    (r' : FleetUpdateResults) : Type 0 where
  found : r'.instances_found ≡ r.instances_found
  failed : r'.instances_failed_update ≡ r.instances_failed_update ++ failed_ids one targets
  updated :
      r'.instances_updated + length (failed_ids one targets) ≡ r.instances_updated + length targets

-- One instance, and the rest.
counted_once :
    (one : Instance → Run Unit) (r : FleetUpdateResults) (target : Instance)
    (targets : List Instance) (p : Run Unit)
    → p.1 ≢ panic
    → one target ≡ p
    → ((r₁ : FleetUpdateResults)
        → (r' : FleetUpdateResults) × (update_each one r₁ targets ≡ (all_events one targets, ok r'))
          × IsCounted one r₁ targets r')
    → (r' : FleetUpdateResults) × (counted r target p >>> (λ r₁. update_each one r₁ targets)
        ≡ (p.0 ++ all_events one targets, ok r'))
      × IsCounted one r (target ∷ targets) r'
unfolding failed_ids all_events ◌>>>◌
counted_once one r target targets (trace, ok _) h e rest =
    let (r', q, c) = rest (record r { instances_updated = r.instances_updated + 1 }) in
    (
      r',
      rw q refl,
      record { found = c.found; failed = rw e c.failed; updated = rw e (omega (arith, c.updated)) },
    )
counted_once one r target targets (trace, err x) h e rest =
    let (r', q, c) = rest (record r {
      instances_failed_update = r.instances_failed_update ++ target.instance_id ∷ [];
    }) in
    (
      r',
      rw q refl,
      record {
        found = c.found;
        failed = rw e (
            c.failed
            ∙ append_assoc r.instances_failed_update (target.instance_id ∷ [])
                (failed_ids one targets));
        updated = rw e (omega (arith, c.updated));
      },
    )
counted_once one r target targets (trace, panic) h e rest = absurd (h refl)

update_each-IsCounted :
    (one : Instance → Run Unit) (r : FleetUpdateResults) (targets : List Instance)
    → All (λ target. (one target).1 ≢ panic) targets
    → (r' : FleetUpdateResults) × (update_each one r targets ≡ (all_events one targets, ok r'))
      × IsCounted one r targets r'
unfolding update_each all_events ◌>>>◌
update_each-IsCounted one r [] h = (
  r,
  refl,
  unfold failed_ids in
      record { found = refl; failed = sym (append-nil r.instances_failed_update); updated = refl },
)
update_each-IsCounted one r (target ∷ targets) (h, hs) =
    counted_once one r target targets (one target) h refl
      (λ r₁. update_each-IsCounted one r₁ targets hs)

-- The results of a fleet: every instance is found, and either updated or failed.
pub record HasCounts (one : Instance → Run Unit) (targets : List Instance) (r : FleetUpdateResults)
    (error : Option FleetError) : Type 0 where
  pub all_found : r.instances_found ≡ length targets
  pub each_once : r.instances_updated + length r.instances_failed_update ≡ r.instances_found
  pub failed_in_order : r.instances_failed_update ≡ failed_ids one targets
  pub no_error_iff : (error ≡ none) ↔ (failed_ids one targets ≡ [])

error_of_iff : (ids : List Bytes) → (error_of ids ≡ none) ↔ (ids ≡ [])
error_of_iff [] = ground arith
error_of_iff (id ∷ ids) = ground arith

-- If the update of no instance panics, the update of all instances goes through every one of them
-- in order, whatever happened to those before. The number found is the number of instances, each
-- is counted as updated or named as failed, the failed ones are named in order, and there is an
-- error exactly if one is named.
pub update_all-HasCounts :
    (one : Instance → Run Unit) (targets : List Instance)
    → All (λ target. (one target).1 ≢ panic) targets
    → (r : FleetUpdateResults) × (error : Option FleetError) × (update_all one targets
        ≡ (all_events one targets, ok (r, error)))
      × HasCounts one targets r error
unfolding update_all ◌>>>◌
update_all-HasCounts one targets h =
    let (r, e, c) =
      update_each-IsCounted one
        (record {
          instances_found = length targets;
          instances_updated = 0;
          instances_failed_update = [];
        })
        targets h in
    (
      r,
      error_of r.instances_failed_update,
      rw e (
          ap (λ t. (t, ok (r, error_of r.instances_failed_update)))
            (append-nil (all_events one targets))),
      record {
        all_found = c.found;
        each_once = rw (c.found, c.failed) (omega (arith, c.updated));
        failed_in_order = c.failed;
        no_error_iff = rw c.failed (error_of_iff (failed_ids one targets));
      },
    )
