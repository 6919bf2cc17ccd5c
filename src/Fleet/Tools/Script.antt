-- ===== src/Fleet/Tools/Script.antt =====
-- fast-build-update-tool/internal/tools/update_script_generator.go: the generator of the script,
-- its temporary file and the clean-up. What is executed with the values of a template is Go's
-- package `text/template`, a parameter.
use amazon_gamelift_toolkit.Base.{
  ◌≡◌, refl, ◌∙◌, List, [], ◌∷◌, Option, none, some, arith, if◌then◌else◌,
}
use amazon_gamelift_toolkit.Base.Eq.{bytes_beq, bytes_beq_iff}
use amazon_gamelift_toolkit.Base.Elem.{Elem}
use amazon_gamelift_toolkit.Base.Result.{Result, ok, err, panic}
use amazon_gamelift_toolkit.Go.Text.{Bytes}
use amazon_gamelift_toolkit.Fleet.{
  OperatingSystem, linux, windows, unknown_os, UpdateOperation, ServiceError, FleetError,
  service_error, update_script_for_operating_system,
}
use amazon_gamelift_toolkit.Fleet.Tools.{
  ScriptValues, generate_linux_update_script, generate_windows_update_script,
  unknown_operating_system_error,
}

pub record InstanceUpdateScriptGenerator : Type 0 where
  pub temp_build_file : Option Bytes
  pub update_operation : UpdateOperation
  pub local_build_zip_path : Bytes
  pub lock_name : Bytes

pub record Templates : Type 0 where
  pub create_temp : Bytes → Result ServiceError Bytes
  pub execute_linux : ScriptValues → Option ServiceError
  pub execute_windows : ScriptValues → Option ServiceError

abbrev written : Bytes → Option ServiceError → Result FleetError Bytes
written name none = ok name
written name (some e) = err (service_error e)

abbrev script_in :
    Templates
    → InstanceUpdateScriptGenerator
    → List Bytes
    → Bytes
    → OperatingSystem
    → Result FleetError Bytes
script_in t g paths name linux = written name (
    t.execute_linux
      (generate_linux_update_script paths g.local_build_zip_path g.lock_name g.update_operation))
script_in t g paths name windows = written name (
    t.execute_windows
      (generate_windows_update_script paths g.local_build_zip_path g.lock_name g.update_operation))
script_in t g paths name unknown_os = err (unknown_operating_system_error unknown_os)

abbrev with_temp :
    Templates
    → InstanceUpdateScriptGenerator
    → OperatingSystem
    → List Bytes
    → Result ServiceError Bytes
    → InstanceUpdateScriptGenerator × Result FleetError Bytes
with_temp t g os paths (err e) = (record g { temp_build_file = none }, err (service_error e))
with_temp t g os paths panic = (record g { temp_build_file = none }, panic)
with_temp t g os paths (ok name) =
    (record g { temp_build_file = some name }, script_in t g paths name os)

unfoldable pub generate_script :
    Templates
    → InstanceUpdateScriptGenerator
    → OperatingSystem
    → List Bytes
    → InstanceUpdateScriptGenerator × Result FleetError Bytes
unfolding update_script_for_operating_system generate_linux_update_script
    generate_windows_update_script unknown_operating_system_error
generate_script t g os paths =
    with_temp t g os paths (t.create_temp (b'*' ∷ update_script_for_operating_system os))

-- os.Remove, on the files that there are
abbrev pub remove : Bytes → List Bytes → List Bytes
remove name [] = []
remove name (file ∷ files) =
    let rest = remove name files in if bytes_beq file name then rest else file ∷ rest

unfoldable pub cleanup : InstanceUpdateScriptGenerator → List Bytes → List Bytes
cleanup g files = elim g.temp_build_file [ none ↦ files | some name ↦ remove name files ]

-- The files after a script was generated among `files`.
abbrev pub files_after : InstanceUpdateScriptGenerator → List Bytes → List Bytes
files_after g files = elim g.temp_build_file [ none ↦ files | some name ↦ name ∷ files ]

remove_other : (name : Bytes) (files : List Bytes) → ¬ Elem name files → remove name files ≡ files
remove_other name [] h = refl
remove_other name (file ∷ files) h =
    ground (arith, bytes_beq_iff file name, remove_other name files)

remove_first : (name : Bytes) (files : List Bytes) → remove name (name ∷ files) ≡ remove name files
remove_first name files = ground (arith, bytes_beq_iff name name)

-- Whatever the generation of the script gives, the clean-up leaves the files that were there
-- before, if the temporary file is a new one.
pub cleanup-generate_script :
    (t : Templates) (g : InstanceUpdateScriptGenerator) (os : OperatingSystem) (paths : List Bytes)
    (files : List Bytes)
    → ((pattern name : Bytes) → t.create_temp pattern ≡ ok name → ¬ Elem name files)
    → cleanup (generate_script t g os paths).0 (files_after (generate_script t g os paths).0 files)
      ≡ files
unfolding generate_script cleanup
cleanup-generate_script t g os paths files fresh =
    of (t.create_temp (b'*' ∷ update_script_for_operating_system os)) (fresh _)
  where
    of :
        (r : Result ServiceError Bytes)
        → ((name : Bytes) → r ≡ ok name → ¬ Elem name files)
        → cleanup (with_temp t g os paths r).0 (files_after (with_temp t g os paths r).0 files)
          ≡ files
    of (err x) e = refl
    of panic e = refl
    of (ok name) e = remove_first name files ∙ remove_other name files (e name refl)
