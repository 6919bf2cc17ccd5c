-- ===== src/Fleet.antt =====
-- The fleet update tool: fast-build-update-tool/internal/config/constants.go and errors.go, the
-- names and errors that its parts share.
pub mod Arguments
pub mod Client
pub mod Tools
pub mod Instance
pub mod Runner
pub mod Main
mod Examples
use amazon_gamelift_toolkit.Base.{ℕ, List}
use amazon_gamelift_toolkit.Base.Int.{ℤ, pos}
use amazon_gamelift_toolkit.Go.Text.{Bytes, codes}

abbrev pub default_port_windows : ℤ
default_port_windows = pos 1026

abbrev pub default_port_linux : ℤ
default_port_linux = pos 22

abbrev pub app_name : Bytes
app_name = codes "fast-build-update-tool"

pub data OperatingSystem : Type 0 where
  unknown_os : OperatingSystem
  linux : OperatingSystem
  windows : OperatingSystem

unfoldable pub os_text : OperatingSystem → Bytes
os_text linux = codes "linux"
os_text windows = codes "windows"
os_text unknown_os = codes "unknown"

pub data UpdateOperation : Type 0 where
  replace_build : UpdateOperation
  restart_process : UpdateOperation

unfoldable pub remote_user_for_operating_system : OperatingSystem → Bytes
remote_user_for_operating_system windows = codes "gl-user-server"
remote_user_for_operating_system linux = codes "gl-user-remote"
remote_user_for_operating_system unknown_os = codes "gl-user-remote"

unfoldable pub update_script_for_operating_system : OperatingSystem → Bytes
update_script_for_operating_system windows = codes "update-instance.ps1"
update_script_for_operating_system linux = codes "update-instance.sh"
update_script_for_operating_system unknown_os = codes "update-instance.sh"

unfoldable pub remote_upload_directory_for_operating_system : OperatingSystem → Bytes
remote_upload_directory_for_operating_system windows = codes "C:\\Users\\gl-user-server\\"
remote_upload_directory_for_operating_system linux = codes "/tmp/"
remote_upload_directory_for_operating_system unknown_os = codes "/tmp/"

pub data ArgumentError : Type 0 where
  missing_argument : Bytes → ArgumentError
  invalid_argument : Bytes → Bytes → ArgumentError

abbrev pub missing_file_error : Bytes → ArgumentError
missing_file_error arg = invalid_argument arg (codes "could not find file")

-- What a call of the service or of the system fails with: the two kinds the code looks at, and
-- all others.
pub data ServiceError : Type 0 where
  unsupported_region : ServiceError
  invalid_request : Bytes → ServiceError
  other_error : ℕ → ServiceError

-- The errors of the tool, without the texts put around them.
pub data FleetError : Type 0 where
  argument_error : ArgumentError → FleetError
  service_error : ServiceError → FleetError
  fleet_not_found : Bytes → FleetError
  instances_not_found : List Bytes → FleetError
  port_too_low : FleetError
  missing_executable : Bytes → FleetError
  upload_failed : FleetError
  missing_program : FleetError
  update_failed : FleetError
