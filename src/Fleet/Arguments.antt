-- ===== src/Fleet/Arguments.antt =====
-- fast-build-update-tool/internal/config/cli_args.go: the arguments and their validation. The
-- parsing of the flags is Go's package `flag`; whether a file exists and whether a text is a CIDR
-- range are parameters.
use amazon_gamelift_toolkit.Base.{
  ◌≡◌, ◌≢◌, ◌↔◌, ◌≤◌, ◌<◌, ◌⊎◌, inl, inr, refl, sym, ap, ◌∙◌, length, drop, Bool, true, false, List,
  [], ◌∷◌, ◌++◌, arith, if◌then◌else◌,
}
use amazon_gamelift_toolkit.Base.Int.{ℤ}
use amazon_gamelift_toolkit.Go.Text.{Bytes, codes, split}
use amazon_gamelift_toolkit.Fleet.{
  ArgumentError, missing_argument, invalid_argument, missing_file_error, UpdateOperation,
  replace_build, restart_process,
}

pub record CliArgs : Type 0 where
  pub fleet_id : Bytes
  pub ip_range : Bytes
  pub build_zip_path : Bytes
  pub private_key_path : Bytes
  pub ssh_port : ℤ
  pub instance_ids : List Bytes
  pub restart : Bool
  pub lock_name : Bytes
  pub verbose : Bool
  pub instance_ids_raw : Bytes

abbrev pub arg_fleet_id : Bytes
arg_fleet_id = codes "fleet-id"

abbrev pub arg_ip_range : Bytes
arg_ip_range = codes "ip-range"

abbrev pub arg_build_zip_path : Bytes
arg_build_zip_path = codes "zip-path"

abbrev pub arg_private_key : Bytes
arg_private_key = codes "private-key"

abbrev pub is_empty : Bytes → Bool
is_empty [] = true
is_empty (c ∷ s) = false

-- The flags as parsed, with the list of instance ids split.
unfoldable pub split_instance_ids : CliArgs → CliArgs
split_instance_ids c =
    if is_empty c.instance_ids_raw
    then c
    else record c { instance_ids = split c.instance_ids_raw b',' }

-- What the package `flag` gives: the values of the flags, a call for help, or another error.
pub data ParsedArgs : Type 0 where
  parsed_args : CliArgs → ParsedArgs
  help bad_flags : ParsedArgs

abbrev pub with_ids : ParsedArgs → ParsedArgs
with_ids (parsed_args c) = parsed_args (split_instance_ids c)
with_ids help = help
with_ids bad_flags = bad_flags

-- Without any argument behind the name of the program, the usage is shown.
unfoldable pub parse_args : (List Bytes → ParsedArgs) → List Bytes → ParsedArgs
unfolding split_instance_ids
parse_args flags [] = help
parse_args flags (app ∷ []) = help
parse_args flags (app ∷ first ∷ args) = with_ids (flags (first ∷ args))

unfoldable pub get_update_operation : CliArgs → UpdateOperation
get_update_operation c = if c.restart then restart_process else replace_build

-- What the file system and `net.ParseCIDR` say.
pub record Checks : Type 0 where
  pub does_file_exist : Bytes → Bool
  pub is_valid_ip_range : Bytes → Bool

unfoldable check_fleet_id : CliArgs → List ArgumentError
check_fleet_id c = if is_empty c.fleet_id then missing_argument arg_fleet_id ∷ [] else []

unfoldable check_ip_range : Checks → CliArgs → List ArgumentError
check_ip_range checks c =
    if is_empty c.ip_range
    then missing_argument arg_ip_range ∷ []
    else if checks.is_valid_ip_range c.ip_range
    then []
    else invalid_argument arg_ip_range (codes "must be a valid IP range") ∷ []

abbrev check_file : Checks → Bytes → Bytes → List ArgumentError
check_file checks arg path =
    if is_empty path
    then missing_argument arg ∷ []
    else if checks.does_file_exist path
    then []
    else missing_file_error arg ∷ []

unfoldable check_build_zip : Checks → CliArgs → List ArgumentError
check_build_zip checks c =
    if c.restart
    then (if is_empty c.build_zip_path
        then []
        else invalid_argument arg_build_zip_path
            (codes "zip file provided along with restart process flag")
          ∷ [])
    else check_file checks arg_build_zip_path c.build_zip_path

-- The joined errors, in order; none stands for nil.
unfoldable pub validate : Checks → CliArgs → List ArgumentError
unfolding check_fleet_id check_ip_range check_build_zip
validate checks c =
    check_fleet_id c
    ++ check_ip_range checks c
    ++ check_build_zip checks c
    ++ check_file checks arg_private_key c.private_key_path

-- Arguments with which the tool can start.
pub record IsValid (checks : Checks) (c : CliArgs) : Type 0 where
  pub has_fleet : c.fleet_id ≢ []
  pub has_range : c.ip_range ≢ []
  pub good_range : checks.is_valid_ip_range c.ip_range ≡ true
  pub zip_when_replacing :
      c.restart ≡ false → (c.build_zip_path ≢ []) × (checks.does_file_exist c.build_zip_path ≡ true)
  pub no_zip_when_restarting : c.restart ≡ true → c.build_zip_path ≡ []
  pub has_key : c.private_key_path ≢ []
  pub key_exists : checks.does_file_exist c.private_key_path ≡ true

is_empty_iff : (s : Bytes) → (is_empty s ≡ true) ↔ (s ≡ [])
is_empty_iff [] = ground arith
is_empty_iff (c ∷ s) = ground arith

append-nil_iff : {A : Type 0} (xs ys : List A) → (xs ++ ys ≡ []) ↔ ((xs ≡ []) × (ys ≡ []))
append-nil_iff [] ys = ground arith
append-nil_iff (x ∷ xs) ys = ground arith

check_file_iff :
    (checks : Checks) (arg path : Bytes)
    → (check_file checks arg path ≡ []) ↔ ((path ≢ []) × (checks.does_file_exist path ≡ true))
check_file_iff checks arg path = ground (arith, is_empty_iff path)

check_fleet_id_iff : (c : CliArgs) → (check_fleet_id c ≡ []) ↔ (c.fleet_id ≢ [])
unfolding check_fleet_id
check_fleet_id_iff c = ground (arith, is_empty_iff c.fleet_id)

check_ip_range_iff :
    (checks : Checks) (c : CliArgs)
    → (check_ip_range checks c ≡ [])
      ↔ ((c.ip_range ≢ []) × (checks.is_valid_ip_range c.ip_range ≡ true))
unfolding check_ip_range
check_ip_range_iff checks c = ground (arith, is_empty_iff c.ip_range)

check_build_zip_iff :
    (checks : Checks) (c : CliArgs)
    → (check_build_zip checks c ≡ []) ↔ (
        (c.restart ≡ false
          → (c.build_zip_path ≢ []) × (checks.does_file_exist c.build_zip_path ≡ true))
        × (c.restart ≡ true → c.build_zip_path ≡ []))
unfolding check_build_zip
check_build_zip_iff checks c = ground (
  arith,
  is_empty_iff c.build_zip_path,
  check_file_iff checks arg_build_zip_path c.build_zip_path,
)

-- The validation reports no error exactly if the fleet id, a valid IP range and an existing key
-- are given, and an existing archive if the build is to be replaced, or none if the processes are
-- to be restarted.
pub validate-nil_iff : (checks : Checks) (c : CliArgs) → (validate checks c ≡ []) ↔ IsValid checks c
unfolding validate
validate-nil_iff checks c =
    let fleet = check_fleet_id c in
    let range = check_ip_range checks c in
    let zip = check_build_zip checks c in
    let a =
      append-nil_iff (fleet ++ range ++ zip)
        (check_file checks arg_private_key c.private_key_path) in
    let b = append-nil_iff (fleet ++ range) zip in
    let d = append-nil_iff fleet range in
    let f = check_fleet_id_iff c in
    let r = check_ip_range_iff checks c in
    let z = check_build_zip_iff checks c in
    let k = check_file_iff checks arg_private_key c.private_key_path in
    (
      λ h.
          let h₁ = a.0 h in
          let h₂ = b.0 h₁.0 in
          let h₃ = d.0 h₂.0 in
          record {
            has_fleet = f.0 h₃.0;
            has_range = (r.0 h₃.1).0;
            good_range = (r.0 h₃.1).1;
            zip_when_replacing = (z.0 h₂.1).0;
            no_zip_when_restarting = (z.0 h₂.1).1;
            has_key = (k.0 h₁.1).0;
            key_exists = (k.0 h₁.1).1;
          },
      λ v. a.1 (
        b.1 (
          d.1 (f.1 v.has_fleet, r.1 (v.has_range, v.good_range)),
          z.1 (v.zip_when_replacing, v.no_zip_when_restarting),
        ),
        k.1 (v.has_key, v.key_exists),
      ),
    )

-- No argument is given, or the flags ask for help.
pub AsksHelp : (List Bytes → ParsedArgs) → List Bytes → Type 0
AsksHelp flags args = (length args ≤ 1) ⊎ (flags (drop 1 args) ≡ help)

-- The arguments are given by flags, with the ids of instances split at the commas.
pub Gives : (List Bytes → ParsedArgs) → List Bytes → CliArgs → Type 0
Gives flags args c =
    (1 < length args)
    × (raw : CliArgs) × (flags (drop 1 args) ≡ parsed_args raw)
    × (c ≡ split_instance_ids raw)

with_ids-help : (r : ParsedArgs) → with_ids r ≡ help → r ≡ help
with_ids-help (parsed_args c) e = absurd (ground arith)
with_ids-help help e = refl
with_ids-help bad_flags e = absurd (ground arith)

with_ids-parsed :
    (r : ParsedArgs) (c : CliArgs)
    → with_ids r ≡ parsed_args c
    → (raw : CliArgs) × (r ≡ parsed_args raw) × (c ≡ split_instance_ids raw)
with_ids-parsed (parsed_args raw) c e = (raw, refl, ground arith)
with_ids-parsed help c e = absurd (ground arith)
with_ids-parsed bad_flags c e = absurd (ground arith)

pub parse_args-help_iff :
    (flags : List Bytes → ParsedArgs) (args : List Bytes)
    → (parse_args flags args ≡ help) ↔ AsksHelp flags args
unfolding parse_args AsksHelp
parse_args-help_iff flags [] = (λ e. inl (omega arith), λ h. refl)
parse_args-help_iff flags (app ∷ []) = (λ e. inl (omega arith), λ h. refl)
parse_args-help_iff flags (app ∷ first ∷ args) = (
  λ e. inr (with_ids-help (flags (first ∷ args)) e),
  λ h. elim h [ inl le ↦ absurd (omega arith) | inr e ↦ ap with_ids e ],
)

pub parse_args-parsed_iff :
    (flags : List Bytes → ParsedArgs) (args : List Bytes) (c : CliArgs)
    → (parse_args flags args ≡ parsed_args c) ↔ Gives flags args c
unfolding parse_args Gives
parse_args-parsed_iff flags [] c = (λ e. absurd (ground arith), λ h. absurd (omega (arith, h.0)))
parse_args-parsed_iff flags (app ∷ []) c =
    (λ e. absurd (ground arith), λ h. absurd (omega (arith, h.0)))
parse_args-parsed_iff flags (app ∷ first ∷ args) c = (
  λ e.
      let (raw, is, same) = with_ids-parsed (flags (first ∷ args)) c e in
      (omega arith, raw, is, same),
  λ (_, raw, e, same). ap with_ids e ∙ ap parsed_args (sym same),
)
