-- ===== src/Fleet/Instance.antt =====
-- fast-build-update-tool/internal/runner, for one instance: types.go, instance_updater.go,
-- instance_updater_factory.go and instance_progress_writer.go. The remote session, the programs
-- and the progress bar's drawing are parameters; the steps taken and the amounts added to the bar
-- are kept.
pub mod Progress
use amazon_gamelift_toolkit.Base.{
  ℕ, ◌+◌, ◌-◌, ◌%◌, ◌≡◌, refl, Bool, true, false, not, List, [], ◌∷◌, ◌++◌, take, min, arith,
  length, ◌==◌, if◌then◌else◌, inl, inr, Option, none, some,
}
use amazon_gamelift_toolkit.Base.Int.{ℤ}
use amazon_gamelift_toolkit.Base.Result.{Result, ok, err, panic, ◌>>=◌}
use amazon_gamelift_toolkit.Go.Text.{Bytes, codes}
use amazon_gamelift_toolkit.Stats.{word_size}
use amazon_gamelift_toolkit.Fleet.{
  OperatingSystem, linux, windows, unknown_os, UpdateOperation, replace_build, restart_process,
  FleetError, upload_failed, missing_program,
}
use amazon_gamelift_toolkit.Fleet.Client.{Instance}
use amazon_gamelift_toolkit.Fleet.Tools.{
  generate_update_script_command, linux_ssh_enable_commands, windows_ssh_enable_commands,
  unknown_operating_system_error,
}
use amazon_gamelift_toolkit.Fleet.Tools.Uploader.{
  FileUploader, System, UploadOutcome, new_file_uploader, copy_files,
}

-- InstanceUpdateState, an unsigned integer
abbrev pub update_state_not_started : ℕ
update_state_not_started = 0

abbrev pub update_state_enable_ssh : ℕ
update_state_enable_ssh = 1

abbrev pub update_state_copy_build : ℕ
update_state_copy_build = 2

abbrev pub update_state_run_update_script : ℕ
update_state_run_update_script = 3

abbrev pub update_state_count : ℕ
update_state_count = 4

pub record InstanceProgressWriter : Type 0 where
  pub verbose : Bool
  pub instance_update_state : ℕ
  pub added : List ℕ
  pub is_stopped : Bool
  pub succeeded : Bool

abbrev pub new_instance_progress_writer : Bool → InstanceProgressWriter
new_instance_progress_writer verbose = record {
  verbose = verbose;
  instance_update_state = update_state_not_started;
  added = [];
  is_stopped = false;
  succeeded = false;
}

unfoldable pub update_state : InstanceProgressWriter → ℕ → InstanceProgressWriter
update_state i state =
    let diff = (state + word_size - i.instance_update_state) % word_size in
    if i.verbose then i else record i {
      instance_update_state = state;
      added = i.added ++ diff ∷ [];
      succeeded = if state == update_state_count then true else i.succeeded;
    }

unfoldable pub update_failed_of : InstanceProgressWriter → InstanceProgressWriter
update_failed_of i = if i.verbose then i else record i { is_stopped = true }

pub data UpdateStep : Type 0 where
  enabling : UpdateStep
  copying : UpdateStep
  running : UpdateStep

-- The three steps of an instance, as its session answers them.
pub record Steps (Key : Type 0) : Type 0 where
  pub enable : Result FleetError Key
  pub copy : Key → Result {0, 0} FleetError Unit
  pub run : Key → Result {0, 0} FleetError Unit

pub record UpdateOutcome : Type 0 where
  pub progress : InstanceProgressWriter
  pub steps : List UpdateStep
  pub result : Result {0, 0} FleetError Unit

unfoldable pub process_error : InstanceProgressWriter → List UpdateStep → FleetError → UpdateOutcome
unfolding update_failed_of
process_error i steps e = record { progress = update_failed_of i; steps = steps; result = err e }

abbrev panicked : InstanceProgressWriter → List UpdateStep → UpdateOutcome
panicked i steps = record { progress = i; steps = steps; result = panic }

unfoldable pub after_run : InstanceProgressWriter → Result {0, 0} FleetError Unit → UpdateOutcome
unfolding process_error update_state
after_run i (err e) = process_error i (enabling ∷ copying ∷ running ∷ []) e
after_run i panic = panicked i (enabling ∷ copying ∷ running ∷ [])
after_run i (ok _) = record {
  progress = update_state i update_state_count;
  steps = enabling ∷ copying ∷ running ∷ [];
  result = ok tt;
}

unfoldable pub after_copy :
    {Key : Type 0}
    → Steps Key
    → Key
    → InstanceProgressWriter
    → Result {0, 0} FleetError Unit
    → UpdateOutcome
unfolding after_run
after_copy s key i (err e) = process_error i (enabling ∷ copying ∷ []) e
after_copy s key i panic = panicked i (enabling ∷ copying ∷ [])
after_copy s key i (ok _) = after_run (update_state i update_state_run_update_script) (s.run key)

unfoldable pub after_enable :
    {Key : Type 0} → Steps Key → InstanceProgressWriter → Result FleetError Key → UpdateOutcome
unfolding after_copy
after_enable s i (err e) = process_error i (enabling ∷ []) e
after_enable s i panic = panicked i (enabling ∷ [])
after_enable s i (ok key) = after_copy s key (update_state i update_state_copy_build) (s.copy key)

unfoldable pub update : {Key : Type 0} → Steps Key → InstanceProgressWriter → UpdateOutcome
unfolding after_enable
update s i = after_enable s (update_state i update_state_enable_ssh) s.enable

-- What the factory sets up for an instance.
pub record InstanceUpdater : Type 0 where
  pub enable_commands : List Bytes
  pub uploader : FileUploader
  pub update_command : Bytes
  pub progress_tracker : InstanceProgressWriter

unfoldable pub get_files_to_upload : UpdateOperation → Bytes → Bytes → List Bytes
get_files_to_upload replace_build zip script = script ∷ zip ∷ []
get_files_to_upload restart_process zip script = script ∷ []

-- The programs of the machine: whether scp is found, whether a terminal and a progress bar can be
-- set up, and the script that installs SSH on Windows.
pub record Programs : Type 0 where
  pub has_scp : Bool
  pub has_terminal : Bool
  pub has_progress_bar : Bool
  pub install_script : Bytes

abbrev demand : Bool → Result {0, 0} FleetError Unit
demand b = if b then ok tt else err missing_program

unfoldable pub verify_exe : Programs → Bytes → Result {0, 0} FleetError Unit
verify_exe programs exe = demand programs.has_scp

abbrev enable_commands_for : Programs → OperatingSystem → Bytes → ℤ → Result FleetError (List Bytes)
enable_commands_for programs windows key port =
    ok (windows_ssh_enable_commands programs.install_script key port)
enable_commands_for programs linux key port = ok (linux_ssh_enable_commands key)
enable_commands_for programs unknown_os key port = err (unknown_operating_system_error unknown_os)

unfoldable pub new_ssh_enabler :
    Programs → OperatingSystem → Bytes → ℤ → Result FleetError (List Bytes)
unfolding verify_exe linux_ssh_enable_commands windows_ssh_enable_commands
    unknown_operating_system_error
new_ssh_enabler programs os key port =
    demand programs.has_terminal
    >>= (λ _. enable_commands_for programs os key port)
    >>= (λ commands.
        verify_exe programs (codes "aws")
        >>= (λ _. verify_exe programs (codes "session-manager-plugin") >>= (λ _. ok commands)))

unfoldable pub create :
    Programs
    → UpdateOperation
    → Bytes
    → Bytes
    → Bool
    → Bytes
    → Bytes
    → ℤ
    → Instance
    → Result FleetError InstanceUpdater
unfolding new_ssh_enabler new_file_uploader get_files_to_upload generate_update_script_command
create programs operation zip private_key verbose public_key script port target =
    new_ssh_enabler programs target.operating_system public_key port >>= (λ commands.
      verify_exe programs (codes "scp") >>= (λ _.
        generate_update_script_command script target.operating_system >>= (λ command.
          demand (if verbose then true else programs.has_progress_bar) >>= (λ _. ok (record {
            enable_commands = commands;
            uploader =
                new_file_uploader target private_key (get_files_to_upload operation zip script)
                  port;
            update_command = command;
            progress_tracker = new_instance_progress_writer verbose;
          })))))

-- The session of an instance: what the commands that enable SSH give, how the programs answer once
-- the key of the host is known, and what the update command does.
pub record Remote (Key : Type 0) : Type 0 where
  pub enable_ssh : List Bytes → Result FleetError Key
  pub system : Key → System
  pub run_command : Key → Bytes → Result {0, 0} FleetError Unit

abbrev upload_result : UploadOutcome → Result {0, 0} FleetError Unit
upload_result o = if o.copied then ok tt else err upload_failed

unfoldable pub steps_of : {Key : Type 0} → Remote Key → InstanceUpdater → Steps Key
unfolding copy_files
steps_of remote u = record {
  enable = remote.enable_ssh u.enable_commands;
  copy = λ key. upload_result (copy_files (remote.system key) u.uploader);
  run = λ key. remote.run_command key u.update_command;
}
