-- ===== src/Wrapper.antt =====
-- multi-build-solution/SdkGoWrapper/server.go and containers-starter-kit/SdkGoWrapper/server.go: the
-- wrapper that speaks to Amazon GameLift for a game server. The two programs differ in
-- OnStartGameSession only. The SDK, the file system and the clock are parameters; what is kept is
-- the row of calls made, and how the process goes on.
pub mod Runs
mod Examples
use amazon_gamelift_toolkit.Base.{
  ℕ, ◌≡◌, refl, Bool, true, false, List, [], ◌∷◌, ◌++◌, Option, none, some, if◌then◌else◌,
}
use amazon_gamelift_toolkit.Base.Int.{ℤ}
use amazon_gamelift_toolkit.Base.Eq.{bytes_eq}
use amazon_gamelift_toolkit.Base.Dict.{Dict, lookup}
use amazon_gamelift_toolkit.Go.Text.{Bytes, codes}
use amazon_gamelift_toolkit.Go.Decimal.{atoi}

pub record GameSession : Type 0 where
  pub game_session_id : Bytes
  pub game_properties : Dict Bytes Bytes

-- The two global variables.
pub record Globals : Type 0 where
  pub game_session : GameSession
  pub update_game_session : GameSession

-- A call of the SDK or of the operating system.
pub data Call : Type 0 where
  init_sdk process_ready process_ending activate_game_session : Call
  write_file : Bytes → Bytes → Call
  remove_file : Bytes → Call
  kill_parent : Call

-- How the process goes on: it runs, it waits for a signal, it panics, or it has exited.
pub data Flow : Type 0 where
  runs : Flow
  waits : Flow
  panics : Flow
  exits : ℕ → Flow

pub record Outcome : Type 0 where
  pub calls : List Call
  pub flow : Flow

abbrev pub build_version_file : Bytes
build_version_file = codes "/tmp/build_version.txt"

abbrev pub activation_file : Bytes
activation_file = codes "/tmp/activate_session.txt"

abbrev pub version_or_default : Option Bytes → Bytes
version_or_default none = codes "default"
version_or_default (some version) = version

unfoldable pub build_version : GameSession → Bytes
build_version session = version_or_default (lookup (codes "BuildVersion") session.game_properties)

-- What the select statement receives: a tick, with whether the activation file is there, or the
-- timeout.
pub data Signal : Type 0 where
  tick : Bool → Signal
  timeout : Signal

abbrev pub before : List Call → Outcome → Outcome
before calls o = record o { calls = calls ++ o.calls }

-- server.ActivateGameSession succeeds or not; log.Fatal exits with 1.
abbrev pub activate : Bool → Outcome
activate true = record {
  calls = activate_game_session ∷ remove_file activation_file ∷ [];
  flow = runs;
}
activate false = record { calls = activate_game_session ∷ []; flow = exits 1 }

unfoldable pub wait_for_server : Bool → List Signal → Outcome
wait_for_server activates [] = record { calls = []; flow = waits }
wait_for_server activates (timeout ∷ signals) = record {
  calls = process_ending ∷ [];
  flow = exits 1;
}
wait_for_server activates (tick true ∷ signals) = activate activates
wait_for_server activates (tick false ∷ signals) = wait_for_server activates signals

unfoldable pub on_start_game_session :
    Globals → GameSession → Bool → List Signal → Globals × Outcome
unfolding build_version wait_for_server
on_start_game_session g session activates signals = (
  record g { game_session = session },
  before (write_file build_version_file (build_version session) ∷ [])
      (wait_for_server activates signals),
)

-- OnStartGameSession of the starter kit activates at once.
unfoldable pub start_at_once : Globals → GameSession → Bool → Globals × Outcome
start_at_once g session activates = (
  record g { game_session = session },
  record { calls = activate_game_session ∷ []; flow = if activates then runs else exits 1 },
)

unfoldable pub on_update_game_session : Globals → GameSession → Globals
on_update_game_session g session = record g { update_game_session = session }

-- Whether the parent process is found, and whether it can be signalled.
unfoldable pub on_process_terminate : Bool → Bool → Outcome
on_process_terminate false signalled = record { calls = process_ending ∷ []; flow = runs }
on_process_terminate true signalled = record {
  calls = process_ending ∷ kill_parent ∷ [];
  flow = if signalled then exits 0 else runs;
}

pub record Response : Type 0 where
  pub status : ℕ
  pub content_type : Option Bytes
  pub body : Bytes

abbrev pub is_empty : Bytes → Bool
is_empty [] = true
is_empty (c ∷ s) = false

-- json.Marshal is a parameter.
abbrev pub json_answer : Option Bytes → Response
json_answer none = record { status = 500; content_type = none; body = codes "error\n" }
json_answer (some json) = record {
  status = 200;
  content_type = some (codes "application/json");
  body = json;
}

unfoldable pub game_session_data : (GameSession → Option Bytes) → Globals → Response
game_session_data marshal g =
    if is_empty g.update_game_session.game_session_id
    then json_answer (marshal g.game_session)
    else json_answer (marshal g.update_game_session)

-- The callbacks of the SDK, with what they find.
pub data Callback : Type 0 where
  start_game_session : GameSession → Bool → List Signal → Callback
  update_session : GameSession → Callback
  process_terminate : Bool → Bool → Callback

unfoldable pub handle : Globals → Callback → Globals × Outcome
unfolding on_start_game_session on_update_game_session on_process_terminate
handle g (start_game_session session activates signals) =
    on_start_game_session g session activates signals
handle g (update_session session) =
    (on_update_game_session g session, record { calls = []; flow = runs })
handle g (process_terminate found signalled) = (g, on_process_terminate found signalled)

-- Callbacks one after another, as long as the process runs.
abbrev pub go_on : (Globals → Globals × Outcome) → Globals × Outcome → Globals × Outcome
go_on next (g, o) = elim o.flow [
  | runs ↦ ((next g).0, before o.calls (next g).1)
  | waits ↦ (g, o)
  | panics ↦ (g, o)
  | exits code ↦ (g, o)
]

unfoldable pub handle_all : Globals → List Callback → Globals × Outcome
unfolding handle
handle_all g [] = (g, record { calls = []; flow = runs })
handle_all g (callback ∷ callbacks) = go_on (λ g'. handle_all g' callbacks) (handle g callback)

-- main, once the HTTP server is started: the arguments, whether the SDK is initialised, whether the
-- process is registered, and the callbacks until the interrupt. A return and a panic run the
-- deferred ProcessEnding, an exit does not.
abbrev pub closing : List Call → Flow → Outcome
closing calls runs = record { calls = calls ++ process_ending ∷ []; flow = exits 0 }
closing calls waits = record { calls = calls; flow = waits }
closing calls panics = record { calls = calls ++ process_ending ∷ []; flow = exits 2 }
closing calls (exits code) = record { calls = calls; flow = exits code }

abbrev pub interrupted : Globals × Outcome → Outcome
interrupted (g, o) = closing o.calls o.flow

abbrev pub registered : Globals → Bool → List Callback → Outcome
registered g false callbacks = record { calls = init_sdk ∷ process_ready ∷ []; flow = exits 1 }
registered g true callbacks =
    before (init_sdk ∷ process_ready ∷ []) (interrupted (handle_all g callbacks))

abbrev pub initialised : Globals → Bool → Bool → List Callback → Outcome
initialised g false is_ready callbacks = record { calls = init_sdk ∷ []; flow = exits 1 }
initialised g true is_ready callbacks = registered g is_ready callbacks

abbrev pub with_port : Globals → Option ℤ → Bool → Bool → List Callback → Outcome
with_port g none is_initialised is_ready callbacks = record { calls = []; flow = panics }
with_port g (some port) is_initialised is_ready callbacks =
    initialised g is_initialised is_ready callbacks

unfoldable pub main : Globals → List Bytes → Bool → Bool → List Callback → Outcome
unfolding atoi handle_all
main g [] is_initialised is_ready callbacks = record { calls = []; flow = exits 1 }
main g (program ∷ []) is_initialised is_ready callbacks = record { calls = []; flow = exits 1 }
main g (program ∷ port ∷ more) is_initialised is_ready callbacks =
    with_port g (atoi port) is_initialised is_ready callbacks
