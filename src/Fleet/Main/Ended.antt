-- ===== src/Fleet/Main/Ended.antt =====
-- How main of fast-build-update-tool/cmd/main.go ends.
use amazon_gamelift_toolkit.Base.{
  ◌≤◌, ◌≡◌, ◌↔◌, ◌⊎◌, inl, inr, refl, sym, ap, ◌≢◌, subst, true, false, List, [], ◌∷◌, Option, none,
  some, arith,
}
use amazon_gamelift_toolkit.Base.Result.{Result, ok, err, panic}
use amazon_gamelift_toolkit.Fleet.{FleetError, ArgumentError}
use amazon_gamelift_toolkit.Go.Text.{Bytes}
use amazon_gamelift_toolkit.Fleet.Arguments.{
  CliArgs, Checks, IsValid, validate, validate-nil_iff, ParsedArgs, parsed_args, help, bad_flags,
  parse_args, AsksHelp, Gives, parse_args-help_iff, parse_args-parsed_iff,
}
use amazon_gamelift_toolkit.Fleet.Runner.{
  Environment, Event, Run, FleetUpdateResults, update_instances,
}
use amazon_gamelift_toolkit.Fleet.Main.{MainOutcome, finish, after_checks, after_parse, main}

module _ {Signer Key : Type 0} (flags : List Bytes → ParsedArgs) (checks : Checks)
    (env : Environment Signer Key) where
  -- Valid arguments with which the update of the fleet ends as `P` says.
  pub Updates :
      List Bytes → (Result FleetError (FleetUpdateResults × Option FleetError) → Type 0) → Type 0
  Updates os_args P =
      (args : CliArgs) × Gives flags os_args args
      × IsValid checks args
      × P (update_instances env args).1

  abbrev pub Succeeds : Result FleetError (FleetUpdateResults × Option FleetError) → Type 0
  Succeeds p = (r : FleetUpdateResults) × (p ≡ ok (r, none))

  abbrev pub Panics : Result FleetError (FleetUpdateResults × Option FleetError) → Type 0
  Panics p = p ≡ panic

  -- How main ends, by what comes before.
  pub record IsEnded (os_args : List Bytes) (o : MainOutcome) : Type 0 where
    pub zero_iff : (o.exit_code ≡ 0) ↔ (AsksHelp flags os_args ⊎ Updates os_args Succeeds)
    pub two_iff : (o.exit_code ≡ 2) ↔ Updates os_args Panics
    pub at_most_two : o.exit_code ≤ 2
    pub cleaned_iff : (o.is_cleaned_up ≡ true) ↔ (Updates os_args Succeeds ⊎ Updates os_args Panics)
    pub changes :
        (o.trace ≡ [])
        ⊎ ((args : CliArgs) × Gives flags os_args args
            × IsValid checks args
            × (o.trace ≡ (update_instances env args).0))

  updates_iff :
      (os_args : List Bytes) (c : CliArgs)
      (P : Result FleetError (FleetUpdateResults × Option FleetError) → Type 0)
      → parse_args flags os_args ≡ parsed_args c
      → Updates os_args P ↔ (IsValid checks c × P (update_instances env c).1)
  unfolding Updates
  updates_iff os_args c P e = (
    λ (args, gives, valid, holds).
        let same : args ≡ c =
          let q = (parse_args-parsed_iff flags os_args args).1 gives in ground arith in
        (subst (IsValid checks) same valid, subst (λ a. P (update_instances env a).1) same holds),
    λ (valid, holds). (c, (parse_args-parsed_iff flags os_args c).0 e, valid, holds),
  )

  unparsed :
      (os_args : List Bytes)
      (P : Result FleetError (FleetUpdateResults × Option FleetError) → Type 0)
      → ((c : CliArgs) → parse_args flags os_args ≢ parsed_args c)
      → ¬ (Updates os_args P)
  unfolding Updates
  unparsed os_args P n (args, gives, _, _) =
      n args ((parse_args-parsed_iff flags os_args args).1 gives)

  -- What main did outside, if it did anything.
  abbrev HasChanges : List Bytes → List Event → Type 0
  HasChanges os_args trace =
      (trace ≡ [])
      ⊎ ((args : CliArgs) × Gives flags os_args args
          × IsValid checks args
          × (trace ≡ (update_instances env args).0))

  -- An exit with code 1.
  failed-IsEnded :
      (os_args : List Bytes) (trace : List Event)
      → HasChanges os_args trace
      → ¬ (AsksHelp flags os_args)
      → ¬ (Updates os_args Succeeds)
      → ¬ (Updates os_args Panics)
      → IsEnded os_args (record { trace = trace; exit_code = 1; is_cleaned_up = false })
  failed-IsEnded os_args trace changes no_help no_success no_panic = record {
    zero_iff = (
      λ e. absurd (omega arith),
      λ h. elim h [ inl k ↦ absurd (no_help k) | inr u ↦ absurd (no_success u) ],
    );
    two_iff = (λ e. absurd (omega arith), λ u. absurd (no_panic u));
    at_most_two = omega arith;
    cleaned_iff = (
      λ e. absurd (ground arith),
      λ h. elim h [ inl u ↦ absurd (no_success u) | inr u ↦ absurd (no_panic u) ],
    );
    changes = changes;
  }

  help-IsEnded :
      (os_args : List Bytes)
      → parse_args flags os_args ≡ help
      → IsEnded os_args (after_parse checks env none none help)
  help-IsEnded os_args e =
      let none_runs : (P : Result FleetError (FleetUpdateResults × Option FleetError) → Type 0)
          → ¬ (Updates os_args P) =
        λ P. unparsed os_args P (λ c q. absurd (ground arith)) in
      record {
        zero_iff = (λ q. inl ((parse_args-help_iff flags os_args).0 e), λ h. refl);
        two_iff = (λ q. absurd (omega arith), λ u. absurd (none_runs Panics u));
        at_most_two = omega arith;
        cleaned_iff = (
          λ q. absurd (ground arith),
          λ h. elim h [
            | inl u ↦ absurd (none_runs Succeeds u)
            | inr u ↦ absurd (none_runs Panics u)
          ],
        );
        changes = inl refl;
      }

  -- What is given to main is parsed as these arguments.
  parsed-ne-help :
      (os_args : List Bytes) (c : CliArgs)
      → parse_args flags os_args ≡ parsed_args c
      → ¬ (AsksHelp flags os_args)
  parsed-ne-help os_args c e h =
      let q = (parse_args-help_iff flags os_args).1 h in absurd (ground arith)

  has_changes :
      (os_args : List Bytes) (c : CliArgs) (p : Run (FleetUpdateResults × Option FleetError))
      → parse_args flags os_args ≡ parsed_args c
      → IsValid checks c
      → update_instances env c ≡ p
      → HasChanges os_args p.0
  has_changes os_args c p e valid same =
      inr (c, (parse_args-parsed_iff flags os_args c).0 e, valid, ap (λ z. z.0) (sym same))

  -- How an update whose result is known ends as `P` says.
  updates_known :
      (os_args : List Bytes) (c : CliArgs) (p : Run (FleetUpdateResults × Option FleetError))
      (P : Result FleetError (FleetUpdateResults × Option FleetError) → Type 0)
      → parse_args flags os_args ≡ parsed_args c
      → IsValid checks c
      → update_instances env c ≡ p
      → Updates os_args P ↔ P p.1
  updates_known os_args c p P e valid same =
      let (there, back) = updates_iff os_args c P e in
      (λ u. subst (λ z. P z.1) same (there u).1, λ h. back (valid, subst (λ z. P z.1) (sym same) h))

  finish-IsEnded :
      (os_args : List Bytes) (c : CliArgs) (p : Run (FleetUpdateResults × Option FleetError))
      → parse_args flags os_args ≡ parsed_args c
      → IsValid checks c
      → update_instances env c ≡ p
      → IsEnded os_args (finish p)
  finish-IsEnded os_args c (trace, ok (r, none)) e valid same =
      let success =
        (updates_known os_args c (trace, ok (r, none)) Succeeds e valid same).1 (r, refl) in
      let no_panic : ¬ (Updates os_args Panics) = λ u.
        let q = (updates_known os_args c (trace, ok (r, none)) Panics e valid same).0 u in
        absurd (ground arith) in
      record {
        zero_iff = (λ q. inr success, λ h. refl);
        two_iff = (λ q. absurd (omega arith), λ u. absurd (no_panic u));
        at_most_two = omega arith;
        cleaned_iff = (λ q. inl success, λ h. refl);
        changes = has_changes os_args c (trace, ok (r, none)) e valid same;
      }
  finish-IsEnded os_args c (trace, ok (r, some x)) e valid same =
      failed-IsEnded os_args trace (has_changes os_args c (trace, ok (r, some x)) e valid same)
        (parsed-ne-help os_args c e)
        (λ u.
          let (r', q) =
            (updates_known os_args c (trace, ok (r, some x)) Succeeds e valid same).0 u in
          absurd (ground arith))
        (λ u.
          let q = (updates_known os_args c (trace, ok (r, some x)) Panics e valid same).0 u in
          absurd (ground arith))
  finish-IsEnded os_args c (trace, err x) e valid same =
      failed-IsEnded os_args trace (has_changes os_args c (trace, err x) e valid same)
        (parsed-ne-help os_args c e)
        (λ u.
          let (r', q) = (updates_known os_args c (trace, err x) Succeeds e valid same).0 u in
          absurd (ground arith))
        (λ u.
          let q = (updates_known os_args c (trace, err x) Panics e valid same).0 u in
          absurd (ground arith))
  finish-IsEnded os_args c (trace, panic) e valid same =
      let panics = (updates_known os_args c (trace, panic) Panics e valid same).1 refl in
      record {
        zero_iff = (
          λ q. absurd (omega arith),
          λ h. elim h [
            | inl k ↦ absurd (parsed-ne-help os_args c e k)
            | inr u ↦
                let (r', q) = (updates_known os_args c (trace, panic) Succeeds e valid same).0 u in
                absurd (ground arith)
          ],
        );
        two_iff = (λ q. panics, λ u. refl);
        at_most_two = omega arith;
        cleaned_iff = (λ q. inr panics, λ h. refl);
        changes = has_changes os_args c (trace, panic) e valid same;
      }

  checked-IsEnded :
      (os_args : List Bytes) (c : CliArgs) (errors : List ArgumentError)
      → parse_args flags os_args ≡ parsed_args c
      → (errors ≡ []) ↔ IsValid checks c
      → IsEnded os_args (after_checks env c none none errors)
  checked-IsEnded os_args c [] e v =
      finish-IsEnded os_args c (update_instances env c) e (v.0 refl) refl
  checked-IsEnded os_args c (x ∷ errors) e v =
      let invalid : ¬ (IsValid checks c) = λ valid. let q = v.1 valid in absurd (ground arith) in
      failed-IsEnded os_args [] (inl refl) (parsed-ne-help os_args c e)
        (λ u. invalid ((updates_iff os_args c Succeeds e).0 u).0)
        (λ u. invalid ((updates_iff os_args c Panics e).0 u).0)

  parsed-IsEnded :
      (os_args : List Bytes) (p : ParsedArgs)
      → parse_args flags os_args ≡ p
      → IsEnded os_args (after_parse checks env none none p)
  parsed-IsEnded os_args help e = help-IsEnded os_args e
  parsed-IsEnded os_args (parsed_args c) e =
      checked-IsEnded os_args c (validate checks c) e (validate-nil_iff checks c)
  parsed-IsEnded os_args bad_flags e =
      failed-IsEnded os_args [] (inl refl)
        (λ h. let q = (parse_args-help_iff flags os_args).1 h in absurd (ground arith))
        (unparsed os_args Succeeds (λ c q. absurd (ground arith)))
        (unparsed os_args Panics (λ c q. absurd (ground arith)))

-- If the logger and the client can be set up, main ends with exit code 0 exactly if no argument is
-- given, or the flags ask for help, or the arguments are valid and the update of the fleet gives
-- results without an error; with 2 exactly if the update panics; and else with 1. The clean-up, which
-- removes the script, runs exactly after an update without an error, or one that panics. Nothing is changed outside but by the update of valid arguments.
pub main-IsEnded :
    {Signer Key : Type 0} (flags : List Bytes → ParsedArgs) (checks : Checks)
    (env : Environment Signer Key) (os_args : List Bytes)
    → IsEnded flags checks env os_args (main flags checks env none none os_args)
unfolding main
main-IsEnded flags checks env os_args =
    parsed-IsEnded flags checks env os_args (parse_args flags os_args) refl
