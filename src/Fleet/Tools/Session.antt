-- ===== src/Fleet/Tools/Session.antt =====
-- fast-build-update-tool/internal/tools/ssh_enabler.go: the goroutines of Enable after the start of the
-- session: one copies the output to the writer, one runs the commands, and Enable waits for the end of
-- the session and then for the key. A run is a row of their turns, in any order. Both channels have
-- room for one value: a send on a full one blocks, and so does a receive on an empty one.
use amazon_gamelift_toolkit.Base.{
  ℕ, ◌+◌, Bool, true, false, ◌&&◌, List, [], ◌∷◌, ◌++◌, Option, none, some, ltb, leb, if◌then◌else◌,
  length,
}
use amazon_gamelift_toolkit.Base.Result.{Result, ok, panic, ◌>>=◌}
use amazon_gamelift_toolkit.Go.Text.{Bytes}
use amazon_gamelift_toolkit.Fleet.{ServiceError}
use amazon_gamelift_toolkit.Fleet.Tools.Enabler.{key_of}

-- The fields of the writer that do not change.
pub record PtyWriter : Type 0 where
  pub commands_to_accept : ℕ
  pub is_new_command_output : Bytes → Bool
  pub client_public_key : Bytes

-- As many commands are accepted as there are to run.
unfoldable pub new_pty_writer : List Bytes → (Bytes → Bool) → Bytes → PtyWriter
new_pty_writer commands is_prompt key = record {
  commands_to_accept = length commands;
  is_new_command_output = is_prompt;
  client_public_key = key;
}

-- Where Write stands: it is not called, or it is about to send.
pub data WriterAt : Type 0 where
  at_rest : WriterAt
  sending_command : (output : Bytes) → WriterAt
  sending_key : (key : Bytes) → WriterAt

-- Where Enable stands.
pub data EnableAt : Type 0 where
  waiting : EnableAt
  receiving : EnableAt
  failed : ServiceError → EnableAt
  received : (key : Bytes) → EnableAt

pub record Session : Type 0 where
  pub commands_run : ℕ
  pub writer_at : WriterAt
  pub command_ready : Option ℕ
  pub is_closed : Bool
  pub ssh_key_ready : Option Bytes
  -- what the goroutine of the commands has given to RunCommand, and what it has left
  pub has_run : List Bytes
  pub to_run : List Bytes
  pub is_alive : Bool
  pub enable_at : EnableAt

unfoldable pub new_session : List Bytes → Session
new_session commands = record {
  commands_run = 0;
  writer_at = at_rest;
  command_ready = none;
  is_closed = false;
  ssh_key_ready = none;
  has_run = [];
  to_run = commands;
  is_alive = true;
  enable_at = waiting;
}

-- A turn: the session prints an output, the writer goes on with a send, the next command is run,
-- successfully or not, the session ends, or Enable receives the key.
pub data Turn : Type 0 where
  prints : (output : Bytes) → Turn
  sends : Turn
  runs : (succeeds : Bool) → Turn
  ends : Option ServiceError → Turn
  receives : Turn

abbrev pub send_or_rest : Option Bytes → WriterAt
send_or_rest none = at_rest
send_or_rest (some key) = sending_key key

-- The second half of Write.
abbrev pub look_for_key : PtyWriter → Bytes → Session → Session
look_for_key w output s = record s { writer_at = send_or_rest (key_of w.client_public_key output) }

-- Write up to its first send.
unfoldable pub start_write : PtyWriter → Session → Bytes → Session
unfolding key_of
start_write w s output =
    if w.is_new_command_output output && ltb s.commands_run w.commands_to_accept
    then record s { commands_run = s.commands_run + 1; writer_at = sending_command output }
    else look_for_key w output s

-- While Write blocks, no output is read.
unfoldable pub print : WriterAt → PtyWriter → Session → Bytes → Session
unfolding start_write
print at_rest w s output = start_write w s output
print (sending_command _) w s output = s
print (sending_key _) w s output = s

unfoldable pub send_command : Option ℕ → PtyWriter → Session → Bytes → Session
unfolding key_of
send_command (some n) w s output = s
send_command none w s output = look_for_key w output (record s {
  command_ready = some s.commands_run;
  is_closed = leb w.commands_to_accept s.commands_run;
})

unfoldable pub send_key : Option Bytes → Session → Bytes → Session
send_key (some _) s key = s
send_key none s key = record s { ssh_key_ready = some key; writer_at = at_rest }

-- A send on a closed channel panics.
unfoldable pub send : WriterAt → PtyWriter → Session → Result {0, 0} Unit Session
unfolding send_command send_key
send at_rest w s = ok s
send (sending_command output) w s =
    if s.is_closed then panic else ok (send_command s.command_ready w s output)
send (sending_key key) w s = ok (send_key s.ssh_key_ready s key)

abbrev pub after_command : Session → Bytes → List Bytes → Bool → Session
after_command s command commands succeeds = record s {
  command_ready = none;
  has_run = s.has_run ++ command ∷ [];
  to_run = commands;
  is_alive = succeeds;
}

-- The goroutine of the commands receives and runs: a closed channel is received from at once.
unfoldable pub run_next : List Bytes → Option ℕ → Session → Bool → Session
run_next [] ready s succeeds = s
run_next (command ∷ commands) (some n) s succeeds = after_command s command commands succeeds
run_next (command ∷ commands) none s succeeds =
    if s.is_closed then after_command s command commands succeeds else s

unfoldable pub run_commands : Session → Bool → Session
unfolding run_next
run_commands s succeeds = if s.is_alive then run_next s.to_run s.command_ready s succeeds else s

unfoldable pub end_session : EnableAt → Session → Option ServiceError → Session
end_session waiting s none = record s { enable_at = receiving }
end_session waiting s (some e) = record s { enable_at = failed e }
end_session _ s error = s

unfoldable pub receive : EnableAt → Option Bytes → Session → Session
receive receiving (some key) s = record s { ssh_key_ready = none; enable_at = received key }
receive _ _ s = s

unfoldable pub turn : PtyWriter → Session → Turn → Result {0, 0} Unit Session
unfolding print send run_commands end_session receive
turn w s (prints output) = ok (print s.writer_at w s output)
turn w s sends = send s.writer_at w s
turn w s (runs succeeds) = ok (run_commands s succeeds)
turn w s (ends error) = ok (end_session s.enable_at s error)
turn w s receives = ok (receive s.enable_at s.ssh_key_ready s)

unfoldable pub run_session : PtyWriter → Session → List Turn → Result {0, 0} Unit Session
unfolding turn
run_session w s [] = ok s
run_session w s (t ∷ turns) = turn w s t >>= (λ s'. run_session w s' turns)
