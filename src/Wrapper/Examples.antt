-- ===== src/Wrapper/Examples.antt =====
-- A wrapper that starts a session, sees the activation file at the second tick, and is terminated.
use amazon_gamelift_toolkit.Base.{◌≡◌, refl, true, false, List, [], ◌∷◌, some}
use amazon_gamelift_toolkit.Base.Int.{pos}
use amazon_gamelift_toolkit.Base.Dict.{lookup}
use amazon_gamelift_toolkit.Base.Elem.{Elem}
use amazon_gamelift_toolkit.Go.Text.{Bytes, codes}
use amazon_gamelift_toolkit.Go.Decimal.{atoi}
use amazon_gamelift_toolkit.Wrapper.{
  GameSession, Globals, init_sdk, process_ready, process_ending, activate_game_session, write_file,
  remove_file, kill_parent, exits, Signal, tick, timeout, activation_file, build_version_file,
  Callback, start_game_session, update_session, process_terminate, on_start_game_session,
  game_session_data, main, json_answer,
}
use amazon_gamelift_toolkit.Wrapper.Runs.{
  IsStarted, on_start_game_session-IsStarted, main-ends_process,
}

abbrev no_session : GameSession
no_session = record { game_session_id = []; game_properties = [] }

abbrev globals : Globals
globals = record { game_session = no_session; update_game_session = no_session }

abbrev session : GameSession
session = record {
  game_session_id = codes "gs-1";
  game_properties = (codes "BuildVersion", codes "1.2") ∷ [];
}

abbrev signals : List Signal
signals = tick false ∷ tick true ∷ timeout ∷ []

on_start_game_session-IsStarted_example :
    IsStarted session true signals (on_start_game_session globals session true signals).1
on_start_game_session-IsStarted_example =
    on_start_game_session-IsStarted globals session true signals

abbrev callbacks : List Callback
callbacks =
    start_game_session session true signals
    ∷ update_session no_session
    ∷ process_terminate true true
    ∷ []

abbrev arguments : List Bytes
arguments = codes "wrapper" ∷ codes "7777" ∷ []

run : main globals arguments true true callbacks ≡ record {
  calls =
      init_sdk
      ∷ process_ready
      ∷ write_file build_version_file (codes "1.2")
      ∷ activate_game_session
      ∷ remove_file activation_file
      ∷ process_ending
      ∷ kill_parent
      ∷ [];
  flow = exits 0;
}
unfolding main lookup
run = refl

port_read : atoi (codes "7777") ≡ some (pos 7777)
unfolding atoi
port_read = refl

exit_of_run : (main globals arguments true true callbacks).flow ≡ exits 0
exit_of_run = rw run refl

main-ends_process_example : Elem process_ending (main globals arguments true true callbacks).calls
main-ends_process_example =
    main-ends_process globals (codes "wrapper") (codes "7777") [] (pos 7777) callbacks 0 port_read
      (refl, (tt, (tt, tt))) exit_of_run

-- A failed registration.
unregistered_run :
    main globals arguments true false []
    ≡ record { calls = init_sdk ∷ process_ready ∷ []; flow = exits 1 }
unfolding main
unregistered_run = refl

-- The data of the updated session goes before that of the started one.
updated_data :
    (marshal : GameSession → Bytes)
    → game_session_data
        (λ s. some (marshal s))
        (record { game_session = no_session; update_game_session = session })
      ≡ json_answer (some (marshal session))
unfolding game_session_data
updated_data marshal = refl
