-- ===== src/Wrapper/Runs.antt =====
-- Whole runs of the wrapper: whether Amazon GameLift is told that the process ends, and when a game
-- session is activated.
use amazon_gamelift_toolkit.Base.{
  ℕ, ◌≡◌, ◌↔◌, refl, ◌⊎◌, inl, inr, Bool, true, false, List, [], ◌∷◌, some, arith,
}
use amazon_gamelift_toolkit.Base.Int.{ℤ}
use amazon_gamelift_toolkit.Base.Elem.{Elem, Elem-append_right}
use amazon_gamelift_toolkit.Go.Text.{Bytes, All}
use amazon_gamelift_toolkit.Go.Decimal.{atoi}
use amazon_gamelift_toolkit.Wrapper.{
  GameSession, Globals, Call, process_ending, activate_game_session, write_file, closing, Flow,
  runs, waits, panics, exits, Outcome, Signal, tick, timeout, build_version, build_version_file,
  wait_for_server, on_start_game_session, on_process_terminate, Callback, start_game_session,
  update_session, process_terminate, handle, go_on, handle_all, registered, main,
}

-- The file is seen at a tick before the timeout; the timeout comes first; or neither comes.
pub data Waiting : Type 0 where
  seen : Waiting
  timed_out : Waiting
  nothing : Waiting

unfoldable pub outcome_of : List Signal → Waiting
outcome_of [] = nothing
outcome_of (timeout ∷ signals) = timed_out
outcome_of (tick true ∷ signals) = seen
outcome_of (tick false ∷ signals) = outcome_of signals

-- What a start of a game session does, by the signals that come.
pub record IsStarted (session : GameSession) (activates : Bool) (signals : List Signal)
    (o : Outcome) : Type 0 where
  pub activates_iff : Elem activate_game_session o.calls ↔ (outcome_of signals ≡ seen)
  pub ends_iff : Elem process_ending o.calls ↔ (outcome_of signals ≡ timed_out)
  pub runs_iff : (o.flow ≡ runs) ↔ ((outcome_of signals ≡ seen) × (activates ≡ true))
  pub exits_iff :
      (o.flow ≡ exits 1)
      ↔ ((outcome_of signals ≡ timed_out) ⊎ ((outcome_of signals ≡ seen) × (activates ≡ false)))
  pub version_first :
      (rest : List Call) × (o.calls ≡ write_file build_version_file (build_version session) ∷ rest)

-- OnStartGameSession first writes the build version. It activates the game session exactly if the
-- activation file is seen at a tick before the timeout, and tells that the process ends exactly if
-- the timeout comes first. The process runs on exactly if the file is seen and the activation
-- succeeds; it exits with 1 exactly if the timeout comes first or the activation fails.
pub on_start_game_session-IsStarted :
    (g : Globals) (session : GameSession) (activates : Bool) (signals : List Signal)
    → IsStarted session activates signals (on_start_game_session g session activates signals).1
unfolding on_start_game_session wait_for_server outcome_of
on_start_game_session-IsStarted g session activates [] = record {
  activates_iff = ground arith;
  ends_iff = ground arith;
  runs_iff = ground arith;
  exits_iff = ground arith;
  version_first = ([], refl);
}
on_start_game_session-IsStarted g session activates (timeout ∷ signals) = record {
  activates_iff = ground arith;
  ends_iff = ground arith;
  runs_iff = ground arith;
  exits_iff = ground arith;
  version_first = (process_ending ∷ [], refl);
}
on_start_game_session-IsStarted g session true (tick true ∷ signals) = record {
  activates_iff = ground arith;
  ends_iff = ground arith;
  runs_iff = ground arith;
  exits_iff = ground arith;
  version_first = (_, refl);
}
on_start_game_session-IsStarted g session false (tick true ∷ signals) = record {
  activates_iff = ground arith;
  ends_iff = ground arith;
  runs_iff = ground arith;
  exits_iff = ground arith;
  version_first = (_, refl);
}
on_start_game_session-IsStarted g session activates (tick false ∷ signals) =
    let r = on_start_game_session-IsStarted g session activates signals in
    record {
      activates_iff = r.activates_iff;
      ends_iff = r.ends_iff;
      runs_iff = r.runs_iff;
      exits_iff = r.exits_iff;
      version_first = r.version_first;
    }

-- An exit comes after a call that the process ends.
abbrev EndsFirst : Outcome → Type 0
EndsFirst o = (code : ℕ) → o.flow ≡ exits code → Elem process_ending o.calls

wait_for_server-EndsFirst : (signals : List Signal) → EndsFirst (wait_for_server true signals)
unfolding wait_for_server
wait_for_server-EndsFirst [] code e = absurd (ground arith)
wait_for_server-EndsFirst (timeout ∷ signals) code e = inl refl
wait_for_server-EndsFirst (tick true ∷ signals) code e = absurd (ground arith)
wait_for_server-EndsFirst (tick false ∷ signals) code e = wait_for_server-EndsFirst signals code e

-- Every activation that is tried succeeds.
abbrev pub Activates : Callback → Type 0
Activates (start_game_session session activates signals) = activates ≡ true
Activates (update_session session) = Unit
Activates (process_terminate found signalled) = Unit

handle-EndsFirst : (g : Globals) (c : Callback) → Activates c → EndsFirst (handle g c).1
unfolding handle on_start_game_session on_process_terminate
handle-EndsFirst g (start_game_session session true signals) a code e =
    inr (wait_for_server-EndsFirst signals code e)
handle-EndsFirst g (start_game_session session false signals) a code e = absurd (ground arith)
handle-EndsFirst g (update_session session) a code e = absurd (ground arith)
handle-EndsFirst g (process_terminate false signalled) a code e = inl refl
handle-EndsFirst g (process_terminate true signalled) a code e = inl refl

go_on-EndsFirst :
    (next : Globals → Globals × Outcome) (g : Globals) (calls : List Call) (flow : Flow)
    → EndsFirst (record { calls = calls; flow = flow })
    → ((g' : Globals) → EndsFirst (next g').1)
    → EndsFirst (go_on next (g, record { calls = calls; flow = flow })).1
go_on-EndsFirst next g calls runs here there code e =
    Elem-append_right process_ending calls (next g).1.calls (there g code e)
go_on-EndsFirst next g calls waits here there code e = absurd (ground arith)
go_on-EndsFirst next g calls panics here there code e = absurd (ground arith)
go_on-EndsFirst next g calls (exits k) here there code e = here code e

handle_all-EndsFirst :
    (callbacks : List Callback)
    → All Activates callbacks
    → (g : Globals) → EndsFirst (handle_all g callbacks).1
unfolding handle_all
handle_all-EndsFirst [] a g = λ code e. absurd (ground arith)
handle_all-EndsFirst (c ∷ callbacks) (a, as') g =
    let p = handle g c in
    go_on-EndsFirst (λ g'. handle_all g' callbacks) p.0 p.1.calls p.1.flow (handle-EndsFirst g c a)
      (handle_all-EndsFirst callbacks as')

closing-EndsFirst :
    (calls : List Call) (flow : Flow)
    → EndsFirst (record { calls = calls; flow = flow })
    → EndsFirst (closing calls flow)
closing-EndsFirst calls runs h code e =
    Elem-append_right process_ending calls (process_ending ∷ []) (inl refl)
closing-EndsFirst calls waits h code e = absurd (ground arith)
closing-EndsFirst calls panics h code e =
    Elem-append_right process_ending calls (process_ending ∷ []) (inl refl)
closing-EndsFirst calls (exits k) h code e = h k refl

-- If a port is given, the SDK is initialised, the process is registered, and every activation of a
-- game session that is tried succeeds, then the wrapper tells Amazon GameLift that the process ends
-- whenever it exits, whichever callbacks come and whatever they find.
pub main-ends_process :
    (g : Globals) (program port : Bytes) (more : List Bytes) (number : ℤ)
    (callbacks : List Callback) (code : ℕ)
    → atoi port ≡ some number
    → All Activates callbacks
    → (main g (program ∷ port ∷ more) true true callbacks).flow ≡ exits code
    → Elem process_ending (main g (program ∷ port ∷ more) true true callbacks).calls
unfolding main
main-ends_process g program port more number callbacks code e a =
    let p = handle_all g callbacks in
    rw e (λ q.
      inr (inr (closing-EndsFirst p.1.calls p.1.flow (handle_all-EndsFirst callbacks a g) code q)))

-- If the registration fails, the process exits without that call.
unregistered :
    (g : Globals) (callbacks : List Callback)
    → ¬ Elem process_ending (registered g false callbacks).calls
unregistered g callbacks h = ground arith
