-- ===== src/Fleet/Tools/Examples.antt =====
-- Sessions that enable SSH, and the theorems there.
use amazon_gamelift_toolkit.Base.{◌≡◌, refl, true, List, [], ◌∷◌, none}
use amazon_gamelift_toolkit.Base.Result.{Result, ok}
use amazon_gamelift_toolkit.Go.Text.{Bytes, codes, has_prefix}
use amazon_gamelift_toolkit.Go.Replace.{has_substring}
use amazon_gamelift_toolkit.Fleet.{FleetError, linux}
use amazon_gamelift_toolkit.Fleet.Client.{Instance}
use amazon_gamelift_toolkit.Fleet.Tools.Enabler.{
  is_new_command_output_linux, key_of, find_ed25519_public_key,
}
use amazon_gamelift_toolkit.Fleet.Tools.Session.{
  Session, new_session, new_pty_writer, Turn, prints, sends, runs, ends, receives, run_session,
  turn, print, start_write, send, send_command, send_key, run_commands, run_next, end_session,
  receive,
}
use amazon_gamelift_toolkit.Fleet.Tools.Order.{HasRun}
use amazon_gamelift_toolkit.Fleet.Tools.Enable.{
  Terminal, InstanceAccessCredentials, enable, has_key, still_runs, HasReason, enable-HasReason,
}

abbrev commands : List Bytes
commands = codes "first" ∷ codes "second" ∷ []

abbrev client_key : Bytes
client_key = codes "ssh-ed25519 AAAA"

abbrev prompt : Bytes
prompt = codes "sh-4.2$ "

abbrev host_key : Bytes
host_key = codes "ssh-ed25519 HOST="

-- A prompt, the first command, the key of the host, another prompt and the second command.
abbrev good_turns : List Turn
good_turns =
    prints prompt
    ∷ sends
    ∷ runs true
    ∷ prints (codes "ssh-ed25519 HOST= root")
    ∷ sends
    ∷ prints prompt
    ∷ sends
    ∷ runs true
    ∷ ends none
    ∷ receives
    ∷ []

abbrev target : Instance
target = record {
  ip_address = codes "10.0.0.1";
  instance_id = codes "i-1";
  region = codes "us-east-1";
  fleet_id = codes "fleet-1";
  operating_system = linux;
}

abbrev terminal : Terminal Bytes
terminal = record { start = λ command environ. none; parse_authorized_key = λ text. ok text }

abbrev access : InstanceAccessCredentials
access = record { access_key_id = []; secret_access_key = []; session_token = [] }

abbrev credentials : Result FleetError InstanceAccessCredentials
credentials = ok access

enabled :
    enable terminal [] target commands is_new_command_output_linux client_key credentials good_turns
    ≡ has_key host_key
unfolding enable new_pty_writer new_session run_session turn print start_write send send_command
    send_key run_commands run_next end_session receive key_of find_ed25519_public_key has_prefix
    has_substring is_new_command_output_linux
enabled = refl

enable-HasReason_example :
    ((s : Session) × (run_session
          (new_pty_writer commands is_new_command_output_linux client_key)
          (new_session commands)
          good_turns
        ≡ ok s)
      × HasRun commands is_new_command_output_linux client_key good_turns s)
    × HasReason terminal [] target client_key credentials good_turns (
        enable terminal [] target commands is_new_command_output_linux client_key credentials
          good_turns)
enable-HasReason_example =
    enable-HasReason terminal [] target commands is_new_command_output_linux client_key credentials
      good_turns

-- The key of the client is no key of the host: Enable waits on.
silent_waits :
    enable terminal [] target commands is_new_command_output_linux client_key credentials
      (prints client_key ∷ sends ∷ ends none ∷ receives ∷ receives ∷ [])
    ≡ still_runs
unfolding enable new_pty_writer new_session run_session turn print start_write send send_command
    send_key run_commands run_next end_session receive key_of find_ed25519_public_key has_prefix
    has_substring is_new_command_output_linux
silent_waits = refl

abbrev has_run_of : Result {0, 0} Unit Session → List Bytes
has_run_of (ok s) = s.has_run
has_run_of _ = []

-- A second key blocks the writer, so that no command is let through by later prompts.
second_key_blocks :
    has_run_of (
      run_session
        (new_pty_writer commands is_new_command_output_linux client_key)
        (new_session commands)
        (prints host_key
          ∷ sends
          ∷ prints host_key
          ∷ sends
          ∷ prints prompt
          ∷ sends
          ∷ runs true
          ∷ []))
    ≡ []
unfolding new_pty_writer new_session run_session turn print start_write send send_command send_key
    run_commands run_next key_of find_ed25519_public_key has_prefix has_substring
    is_new_command_output_linux
second_key_blocks = refl
