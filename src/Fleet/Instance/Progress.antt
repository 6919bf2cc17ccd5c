-- ===== src/Fleet/Instance/Progress.antt =====
-- What the update of one instance leaves: its steps in order, and a progress bar that agrees.
use amazon_gamelift_toolkit.Base.{
  ℕ, ◌+◌, ◌≡◌, refl, true, false, List, [], ◌∷◌, arith, take, length,
}
use amazon_gamelift_toolkit.Base.Result.{Result, ok, err, panic}
use amazon_gamelift_toolkit.Fleet.{FleetError}
use amazon_gamelift_toolkit.Fleet.Instance.{
  new_instance_progress_writer, update_state, update_failed_of, enabling, copying, running, Steps,
  UpdateOutcome, process_error, after_run, after_copy, after_enable, update, update_state_count,
}

abbrev pub sum : List ℕ → ℕ
sum [] = 0
sum (a ∷ as') = a + sum as'

-- All three steps answered without an error.
pub record AllSucceed {Key : Type 0} (s : Steps Key) : Type 0 where
  pub key : Key
  pub enabled : s.enable ≡ ok key
  pub copied : s.copy key ≡ ok tt
  pub ran : s.run key ≡ ok tt

-- The bar is filled by the number of the state; a success has filled it, a failure has stopped it
-- at the step that failed.
pub record IsReported {Key : Type 0} (s : Steps Key) (o : UpdateOutcome) : Type 0 where
  pub filled : sum o.progress.added ≡ o.progress.instance_update_state
  pub in_order : o.steps ≡ take (length o.steps) (enabling ∷ copying ∷ running ∷ [])
  pub done :
      o.result ≡ ok tt
      → (o.progress.instance_update_state ≡ update_state_count)
        × (o.progress.succeeded ≡ true)
        × (o.progress.is_stopped ≡ false)
        × AllSucceed s
  pub failed :
      (e : FleetError)
      → o.result ≡ err e
      → (o.progress.instance_update_state ≡ length o.steps)
        × (o.progress.succeeded ≡ false)
        × (o.progress.is_stopped ≡ true)
  pub succeeds : AllSucceed s → o.result ≡ ok tt

at_run :
    {Key : Type 0} (s : Steps Key) (key : Key) (r : Result {0, 0} FleetError Unit)
    → s.enable ≡ ok key
    → s.copy key ≡ ok tt
    → s.run key ≡ r
    → IsReported s (
        after_run
          (update_state (update_state (update_state (new_instance_progress_writer false) 1) 2) 3)
          r)
unfolding after_run process_error update_failed_of update_state
at_run s key (ok _) a b c = record {
  filled = refl;
  in_order = refl;
  done = λ e. (refl, refl, refl, record { key = key; enabled = a; copied = b; ran = c });
  failed = λ e h. absurd (ground arith);
  succeeds = λ h. refl;
}
at_run s key (err x) a b c = record {
  filled = refl;
  in_order = refl;
  done = λ e. absurd (ground arith);
  failed = λ e h. (refl, refl, refl);
  succeeds = λ h. let q = h.enabled in let t = h.ran in absurd (ground arith);
}
at_run s key panic a b c = record {
  filled = refl;
  in_order = refl;
  done = λ e. absurd (ground arith);
  failed = λ e h. absurd (ground arith);
  succeeds = λ h. let q = h.enabled in let t = h.ran in absurd (ground arith);
}

at_copy :
    {Key : Type 0} (s : Steps Key) (key : Key) (r : Result {0, 0} FleetError Unit)
    → s.enable ≡ ok key
    → s.copy key ≡ r
    → IsReported s
        (after_copy s key (update_state (update_state (new_instance_progress_writer false) 1) 2) r)
unfolding after_copy process_error update_failed_of update_state
at_copy s key (ok _) a b = at_run s key (s.run key) a b refl
at_copy s key (err x) a b = record {
  filled = refl;
  in_order = refl;
  done = λ e. absurd (ground arith);
  failed = λ e h. (refl, refl, refl);
  succeeds = λ h. let q = h.enabled in let t = h.copied in absurd (ground arith);
}
at_copy s key panic a b = record {
  filled = refl;
  in_order = refl;
  done = λ e. absurd (ground arith);
  failed = λ e h. absurd (ground arith);
  succeeds = λ h. let q = h.enabled in let t = h.copied in absurd (ground arith);
}

at_enable :
    {Key : Type 0} (s : Steps Key) (r : Result FleetError Key)
    → s.enable ≡ r
    → IsReported s (after_enable s (update_state (new_instance_progress_writer false) 1) r)
unfolding after_enable process_error update_failed_of update_state
at_enable s (ok key) a = at_copy s key (s.copy key) a refl
at_enable s (err x) a = record {
  filled = refl;
  in_order = refl;
  done = λ e. absurd (ground arith);
  failed = λ e h. (refl, refl, refl);
  succeeds = λ h. let q = h.enabled in absurd (ground arith);
}
at_enable s panic a = record {
  filled = refl;
  in_order = refl;
  done = λ e. absurd (ground arith);
  failed = λ e h. absurd (ground arith);
  succeeds = λ h. let q = h.enabled in absurd (ground arith);
}

-- The update of an instance that shows its progress takes its steps in order (enabling SSH,
-- copying the files, running the script), and succeeds exactly if all three do. The amounts added
-- to the bar make up the state reached. A success has reached the last state and is announced; a
-- failure stops the bar at the state of the step that failed.
pub update-IsReported :
    {Key : Type 0} (s : Steps Key) → IsReported s (update s (new_instance_progress_writer false))
unfolding update
update-IsReported s = at_enable s s.enable refl
