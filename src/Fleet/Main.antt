-- ===== src/Fleet/Main.antt =====
-- fast-build-update-tool/cmd/main.go and the clean-up of runner/fleet_updater.go: the exit code, and
-- whether the deferred clean-up runs. A call of os.Exit skips what was deferred.
pub mod Ended
use amazon_gamelift_toolkit.Base.{
  ℕ, ◌≤◌, ◌≡◌, ◌↔◌, ◌⊎◌, inl, inr, refl, sym, ap, ◌≢◌, subst, Bool, true, false, List, [], ◌∷◌,
  Option, none, some, arith,
}
use amazon_gamelift_toolkit.Base.Result.{Result, ok, err, panic}
use amazon_gamelift_toolkit.Fleet.{FleetError, ServiceError, ArgumentError}
use amazon_gamelift_toolkit.Go.Text.{Bytes}
use amazon_gamelift_toolkit.Fleet.Arguments.{
  CliArgs, Checks, IsValid, validate, validate-nil_iff, ParsedArgs, parsed_args, help, bad_flags,
  parse_args, AsksHelp, Gives, parse_args-help_iff, parse_args-parsed_iff,
}
use amazon_gamelift_toolkit.Fleet.Runner.{
  Environment, Event, Run, FleetUpdateResults, update_instances,
}

pub record MainOutcome : Type 0 where
  pub trace : List Event
  pub exit_code : ℕ
  pub is_cleaned_up : Bool

-- A return from main runs the deferred clean-up; an exit code of 2 is that of a panic, which runs
-- it too.
abbrev pub finish : Run (FleetUpdateResults × Option FleetError) → MainOutcome
finish (trace, ok (r, none)) = record { trace = trace; exit_code = 0; is_cleaned_up = true }
finish (trace, ok (r, some e)) = record { trace = trace; exit_code = 1; is_cleaned_up = false }
finish (trace, err e) = record { trace = trace; exit_code = 1; is_cleaned_up = false }
finish (trace, panic) = record { trace = trace; exit_code = 2; is_cleaned_up = true }

abbrev pub refused : MainOutcome
refused = record { trace = []; exit_code = 1; is_cleaned_up = false }

abbrev pub with_updater :
    {Signer Key : Type 0}
    → Environment Signer Key
    → CliArgs
    → Option ServiceError
    → Option ServiceError
    → MainOutcome
with_updater env args (some e) updater = refused
with_updater env args none (some e) = refused
with_updater env args none none = finish (update_instances env args)

abbrev pub after_checks :
    {Signer Key : Type 0}
    → Environment Signer Key
    → CliArgs
    → Option ServiceError
    → Option ServiceError
    → List ArgumentError
    → MainOutcome
after_checks env args logger updater [] = with_updater env args logger updater
after_checks env args logger updater (e ∷ es) = refused

abbrev pub after_parse :
    {Signer Key : Type 0}
    → Checks
    → Environment Signer Key
    → Option ServiceError
    → Option ServiceError
    → ParsedArgs
    → MainOutcome
after_parse checks env logger updater help = record {
  trace = [];
  exit_code = 0;
  is_cleaned_up = false;
}
after_parse checks env logger updater bad_flags = refused
after_parse checks env logger updater (parsed_args args) =
    after_checks env args logger updater (validate checks args)

-- The set-up of the logger and of the client may fail.
unfoldable pub main :
    {Signer Key : Type 0}
    → (List Bytes → ParsedArgs)
    → Checks
    → Environment Signer Key
    → Option ServiceError
    → Option ServiceError
    → List Bytes
    → MainOutcome
unfolding parse_args validate update_instances
main flags checks env logger updater os_args =
    after_parse checks env logger updater (parse_args flags os_args)
