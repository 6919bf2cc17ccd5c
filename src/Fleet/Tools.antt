-- ===== src/Fleet/Tools.antt =====
-- fast-build-update-tool/internal/tools: the port of SSH (ssh_config_manager.go), the check of the
-- archive (zip_validator.go), the values of the update script (update_script_generator*.go) and the
-- remote commands (ssh_command_runner.go, ssh_enabler_*.go).
pub mod Ports
pub mod Archive
pub mod Uploader
pub mod Enabler
pub mod Session
pub mod Order
pub mod Script
pub mod Progress
pub mod Enable
mod Examples
use amazon_gamelift_toolkit.Base.{
  ℕ, ◌+◌, ◌-◌, ◌%◌, ◌≡◌, refl, Bool, true, false, not, ◌&&◌, List, [], ◌∷◌, ◌++◌, map, ltb,
  if◌then◌else◌,
}
use mathlib.Core.List.{reverse}
use amazon_gamelift_toolkit.Base.Int.{ℤ, pos, negsuc, ltb_ℤ}
use amazon_gamelift_toolkit.Base.Eq.{bytes_beq, int_beq}
use amazon_gamelift_toolkit.Base.Result.{Result, ok, err, panic}
use amazon_gamelift_toolkit.Go.Text.{Bytes, codes, split}
use amazon_gamelift_toolkit.Go.Replace.{replace_all, join, base}
use amazon_gamelift_toolkit.Go.Decimal.{itoa}
use amazon_gamelift_toolkit.Fleet.{
  OperatingSystem, linux, windows, unknown_os, UpdateOperation, replace_build, restart_process,
  FleetError, ServiceError, argument_error, invalid_argument, port_too_low, missing_executable,
  service_error, default_port_linux, default_port_windows, os_text,
  remote_upload_directory_for_operating_system,
}

-- The conversion int32(n): the low 32 bits, as a signed number.
abbrev signed_32 : ℕ → ℤ
signed_32 r = if ltb r 2147483648 then pos r else negsuc (4294967295 - r)

unfoldable pub to_int32 : ℤ → ℤ
to_int32 (pos n) = signed_32 (n % 4294967296)
to_int32 (negsuc n) = signed_32 (4294967295 - n % 4294967296)

abbrev pub port_for : OperatingSystem → ℤ → Result FleetError ℤ
port_for linux port = ok default_port_linux
port_for os port =
    if ltb_ℤ (pos 0) port && ltb_ℤ port default_port_windows
    then err port_too_low
    else if int_beq port (pos 0)
    then ok default_port_windows
    else ok port

unfoldable pub determine_port : ℤ → OperatingSystem → Result FleetError ℤ
unfolding to_int32
determine_port ssh_port os = port_for os (to_int32 ssh_port)

-- The path of an executable as it stands in the archive.
unfoldable pub normalized : Bytes → Bytes
unfolding replace_all
normalized path =
    replace_all (replace_all (replace_all path (codes "C:\\game\\") []) (codes "/local/game/") [])
      (codes "\\") (codes "/")

unfoldable pub is_file_in_zip : List Bytes → Bytes → Bool
is_file_in_zip [] file = false
is_file_in_zip (name ∷ names) file = if bytes_beq name file then true else is_file_in_zip names file

unfoldable pub find_executables : List Bytes → List Bytes → Result {0, 0} FleetError Unit
unfolding normalized is_file_in_zip
find_executables names [] = ok tt
find_executables names (path ∷ paths) =
    let rest = find_executables names paths in
    if is_file_in_zip names (normalized path)
    then rest
    else err (missing_executable (normalized path))

-- The names of the files of the archive, or the error of opening it, are the argument.
unfoldable pub validate_zip :
    Result ServiceError (List Bytes) → List Bytes → Result {0, 0} FleetError Unit
unfolding find_executables
validate_zip (err e) paths = err (service_error e)
validate_zip panic paths = panic
validate_zip (ok names) paths = find_executables names paths

unfoldable pub csvify : List Bytes → Bytes
unfolding join
csvify texts = join texts (codes ",")

unfoldable pub get_is_replace_build_template_value : UpdateOperation → Bytes
get_is_replace_build_template_value replace_build = codes "replace"
get_is_replace_build_template_value restart_process = []

-- The values that the template of a script is filled with.
pub record ScriptValues : Type 0 where
  pub archive_name : Bytes
  pub executable_paths : Bytes
  pub process_names : Bytes
  pub is_replace_build : Bytes
  pub lock_name : Bytes

unfoldable pub generate_linux_update_script :
    List Bytes → Bytes → Bytes → UpdateOperation → ScriptValues
unfolding base csvify get_is_replace_build_template_value
generate_linux_update_script paths zip lock operation = record {
  archive_name = base zip;
  executable_paths = csvify paths;
  process_names = [];
  is_replace_build = get_is_replace_build_template_value operation;
  lock_name = lock;
}

abbrev last_or : Bytes → List Bytes → Bytes
last_or part [] = part
last_or part (next ∷ parts) = last_or next parts

abbrev last_part : List Bytes → Bytes
last_part [] = []
last_part (part ∷ parts) = last_or part parts

unfoldable pub process_name : Bytes → Bytes
unfolding split replace_all
process_name path = replace_all (last_part (split path b'\\')) (codes ".exe") []

unfoldable pub generate_windows_update_script :
    List Bytes → Bytes → Bytes → UpdateOperation → ScriptValues
unfolding base csvify get_is_replace_build_template_value process_name
generate_windows_update_script paths zip lock operation = record {
  archive_name = base zip;
  executable_paths = csvify paths;
  process_names = csvify (map process_name paths);
  is_replace_build = get_is_replace_build_template_value operation;
  lock_name = lock;
}

unfoldable pub unknown_operating_system_error : OperatingSystem → FleetError
unfolding os_text
unknown_operating_system_error os =
    argument_error (invalid_argument (codes "operatingSystem") (os_text os))

unfoldable pub generate_update_script_command : Bytes → OperatingSystem → Result FleetError Bytes
unfolding base remote_upload_directory_for_operating_system unknown_operating_system_error
generate_update_script_command script windows = ok (
    codes "powershell.exe -ExecutionPolicy Bypass -File "
    ++ remote_upload_directory_for_operating_system windows
    ++ base script)
generate_update_script_command script linux =
    let remote = remote_upload_directory_for_operating_system linux ++ base script in
    ok (codes "chmod +x " ++ remote ++ codes " && " ++ remote)
generate_update_script_command script unknown_os = err (unknown_operating_system_error unknown_os)

unfoldable pub linux_ssh_enable_commands : Bytes → List Bytes
linux_ssh_enable_commands key =
    codes "sudo touch /home/gl-user-remote/.ssh/authorized_keys;\n"
    ∷ (codes "echo \"" ++ key ++ codes "\" | sudo tee /home/gl-user-remote/.ssh/authorized_keys;\n")
    ∷ codes "cat /etc/ssh/ssh_host_ed25519_key.pub;\n"
    ∷ codes "exit;\n"
    ∷ []

-- The script that installs the server on Windows is an argument.
unfoldable pub windows_ssh_enable_commands : Bytes → Bytes → ℤ → List Bytes
unfolding itoa
windows_ssh_enable_commands install_script key port =
    (codes "$port=\"" ++ itoa port ++ codes "\";\r\n")
    ∷ (codes "$publicKey=\"" ++ key ++ codes "\";\r\n")
    ∷ install_script
    ∷ codes "Get-Content -Path C:\\ProgramData\\ssh\\ssh_host_ed25519_key.pub;\r\n"
    ∷ codes "exit;\r\n"
    ∷ []
