-- ===== src/Fleet/Tools/Uploader.antt =====
-- fast-build-update-tool/internal/tools/file_uploader.go: the copy of files to an instance. The
-- file system and the external program are parameters; what is kept is the row of commands run and
-- the temporary files left behind.
use amazon_gamelift_toolkit.Base.{
  ℕ, suc, ◌≤◌, ◌≡◌, refl, ap, inl, inr, ◌↔◌, Bool, true, false, List, [], ◌∷◌, ◌++◌, map, arith,
  length, if◌then◌else◌, Bool-cases, take,
}
use amazon_gamelift_toolkit.Base.Int.{ℤ}
use amazon_gamelift_toolkit.Base.Result.{Result, ok, err, panic}
use amazon_gamelift_toolkit.Go.Text.{Bytes, codes, All}
use amazon_gamelift_toolkit.Go.Replace.{base}
use amazon_gamelift_toolkit.Go.Decimal.{itoa}
use amazon_gamelift_toolkit.Fleet.{
  ServiceError, remote_user_for_operating_system, remote_upload_directory_for_operating_system,
}
use amazon_gamelift_toolkit.Fleet.Client.{Instance}

pub record FileUploader : Type 0 where
  pub remote_ip_address : Bytes
  pub private_key_path : Bytes
  pub remote_user : Bytes
  pub remote_upload_directory : Bytes
  pub files_to_upload : List Bytes
  pub ssh_port : ℤ

unfoldable pub new_file_uploader : Instance → Bytes → List Bytes → ℤ → FileUploader
unfolding remote_user_for_operating_system remote_upload_directory_for_operating_system
new_file_uploader instance_of key files port = record {
  remote_ip_address = instance_of.ip_address;
  private_key_path = key;
  remote_user = remote_user_for_operating_system instance_of.operating_system;
  remote_upload_directory =
      remote_upload_directory_for_operating_system instance_of.operating_system;
  files_to_upload = files;
  ssh_port = port;
}

-- What the system answers: the name of the temporary file, whether the line is written, whether
-- the file is removed, and whether a command succeeds.
pub record System : Type 0 where
  pub create_temp : Result ServiceError Bytes
  pub writes : Bool
  pub removes : Bool
  pub run : List Bytes → Bool

pub record UploadOutcome : Type 0 where
  pub temp_files : List Bytes
  pub commands : List (List Bytes)
  pub copied : Bool

unfoldable pub scp_command : FileUploader → Bytes → Bytes → List Bytes
unfolding itoa base
scp_command f known_hosts file =
    codes "scp"
    ∷ codes "-o"
    ∷ (codes "UserKnownHostsFile=" ++ known_hosts)
    ∷ codes "-P"
    ∷ itoa f.ssh_port
    ∷ codes "-i"
    ∷ f.private_key_path
    ∷ file
    ∷ (f.remote_user
        ++ codes "@"
        ++ f.remote_ip_address
        ++ codes ":"
        ++ f.remote_upload_directory
        ++ base file)
    ∷ []

-- The files one after another, until a copy fails.
unfoldable pub copy_each : System → FileUploader → Bytes → List Bytes → List (List Bytes) × Bool
unfolding scp_command
copy_each system f known_hosts [] = ([], true)
copy_each system f known_hosts (file ∷ files) =
    let rest = copy_each system f known_hosts files in
    let command = scp_command f known_hosts file in
    if system.run command then (command ∷ rest.0, rest.1) else (command ∷ [], false)

abbrev with_known_hosts : System → FileUploader → Bytes → UploadOutcome
with_known_hosts system f name =
    let done = copy_each system f name f.files_to_upload in
    if system.writes
    then record {
      temp_files = if system.removes then [] else name ∷ [];
      commands = done.0;
      copied = done.1;
    }
    else record { temp_files = name ∷ []; commands = []; copied = false }

unfoldable pub copy_files : System → FileUploader → UploadOutcome
unfolding copy_each
copy_files system f = elim system.create_temp [
  | ok name ↦ with_known_hosts system f name
  | err e ↦ record { temp_files = []; commands = []; copied = false }
  | panic ↦ record { temp_files = []; commands = []; copied = false }
]

copy_each-prefix :
    (system : System) (f : FileUploader) (name : Bytes) (files : List Bytes)
    → (n : ℕ) × (n ≤ length files)
      × ((copy_each system f name files).0 ≡ take n (map (scp_command f name) files))
      × ((copy_each system f name files).1 ≡ true → n ≡ length files)
unfolding copy_each
copy_each-prefix system f name [] = (0, omega arith, refl, λ e. refl)
copy_each-prefix system f name (file ∷ files) =
    let (n, le, e, d) = copy_each-prefix system f name files in
    elim (Bool-cases (system.run (scp_command f name file))) [
      | inl r ↦ rw r (suc n, omega arith, ap (◌∷◌ (scp_command f name file)) e, λ t. ap suc (d t))
      | inr r ↦ rw r (1, omega arith, refl, λ t. absurd (ground arith))
    ]

-- The commands that ran are those of the first files, and the copy succeeds exactly if all do.
pub record HasCopied (system : System) (f : FileUploader) (name : Bytes) (o : UploadOutcome)
    : Type 0 where
  pub nothing_left : o.temp_files ≡ []
  pub count : ℕ
  pub in_bounds : count ≤ length f.files_to_upload
  pub ran : o.commands ≡ take count (map (scp_command f name) f.files_to_upload)
  pub all_if_copied : o.copied ≡ true → count ≡ length f.files_to_upload
  pub copied_iff :
      (o.copied ≡ true)
      ↔ All (λ file. system.run (scp_command f name file) ≡ true) f.files_to_upload

copy_each-true_iff :
    (system : System) (f : FileUploader) (name : Bytes) (files : List Bytes)
    → ((copy_each system f name files).1 ≡ true)
      ↔ All (λ file. system.run (scp_command f name file) ≡ true) files
unfolding copy_each
copy_each-true_iff system f name [] = ground arith
copy_each-true_iff system f name (file ∷ files) =
    elim (Bool-cases (system.run (scp_command f name file))) [
      | inl r ↦ rw r (
        λ t. (refl, (copy_each-true_iff system f name files).0 t),
        λ a. (copy_each-true_iff system f name files).1 a.1,
      )
      | inr r ↦ rw r (λ t. absurd (ground arith), λ a. absurd (ground arith))
    ]

-- If the temporary file can be created, written and removed, CopyFiles leaves no temporary file,
-- whether it succeeds or not. It runs the copy of the first files in order, one command a file,
-- and of all files if it succeeds, which is exactly if each command succeeds.
pub copy_files-HasCopied :
    (system : System) (f : FileUploader) (name : Bytes)
    → system.create_temp ≡ ok name
    → system.writes ≡ true
    → system.removes ≡ true
    → HasCopied system f name (copy_files system f)
unfolding copy_files
copy_files-HasCopied system f name c w r =
    let (n, le, e, d) = copy_each-prefix system f name f.files_to_upload in
    rw (c, w, r)
      (record {
        nothing_left = refl;
        count = n;
        in_bounds = le;
        ran = e;
        all_if_copied = d;
        copied_iff = copy_each-true_iff system f name f.files_to_upload;
      })

-- A failed write leaves the temporary file behind.
copy_files-leftover :
    (system : System) (f : FileUploader) (name : Bytes)
    → system.create_temp ≡ ok name
    → system.writes ≡ false
    → (copy_files system f).temp_files ≡ name ∷ []
unfolding copy_files
copy_files-leftover system f name c w = rw (c, w) refl
