-- ===== src/Lib.antt =====
-- A verification library of the Go programs of the Amazon GameLift Toolkit: the testing app for the
-- player gateway, player-gateway-testing-app, the tool that updates the builds of a running fleet,
-- fast-build-update-tool, and the wrappers that speak to Amazon GameLift for a game server, SdkGoWrapper
-- of multi-build-solution and of containers-starter-kit.
--
-- The testing app stands between game clients and a game server. A client-side proxy for every
-- endpoint of a player takes a client's packets, checks the player's token (28 bytes in front of the
-- packet), drops packets at the configured degradation, and hands the rest on, with the player's
-- number in front, to the server-side proxy. That one removes the number, notes from which
-- client-side proxies it hears of the player, and spreads the packets of the game server over them.
-- Subcommands of the app send configuration commands to a client-side endpoint. Each proxy keeps a
-- pool of connections, one for each player, through which packets go on and replies come back, and
-- tells a collector of statistics what it sees.
--
-- The update tool reads its arguments, asks Amazon GameLift for the fleet, checks the archive of the
-- new build, opens a port for SSH, generates a script, lists the instances page by page, and then goes
-- through them one by one: it enables SSH over a session of the instance, copies the script and the
-- archive, and runs the script. An instance that fails does not stop the others.
--
-- The wrapper registers its process with Amazon GameLift, and then answers the callbacks: a game
-- session starts (it writes the build version and waits until the game server is up), a session is
-- updated, or the process is to be terminated. The game server asks it for the data of the session.
--
-- Files and code, from the repository's root; functions keep their names in snake case:
--   Token.antt        player-gateway-testing-app/internal/token/token_manager.go. The manager is a
--                     record passed on explicitly; rand.Read is an argument.
--   Token/*           Invariant and Replace: ReplaceToken; Effect and Revoke: what a replacement
--                     changes; Issue: NewTokenManager; Reach: runs of the manager; Parse: both parsers.
--   Proxy.antt        player-gateway-testing-app/internal/proxy/traffic_handler.go and the errors of
--                     the handlers.
--   Proxy/ClientSide  player-gateway-testing-app/internal/proxy/client_side_traffic_handler.go. A
--                     method takes the handler and the token manager that all handlers share, and
--                     returns both with its result; rng.Intn is an argument.
--   Proxy/ServerSide  player-gateway-testing-app/internal/proxy/server_side_traffic_handler.go. The
--                     structs to which the handler's maps point stand on a heap, a list, and a
--                     pointer is an index into it. View is the handler without its pointers.
--   Proxy/Pool        player-gateway-testing-app/internal/proxy/client_connection.go. The two maps of
--                     the pool and its open sockets; a socket is its port.
--   Proxy/Forwarding/Socket
--                     the goroutine of a connection in that file. It shares the channel of the
--                     connection with the proxy, so a run is a row of turns of both.
--   Proxy/Forwarding  player-gateway-testing-app/internal/proxy/proxy.go: the loop of a proxy over the
--                     pool and a handler, which is an interface; Handlers has the two handlers, and
--                     the law of the interface that the loop relies on. The queue of
--                     player-gateway-testing-app/internal/proxy/packet_logger.go is here too.
--   Proxy/Details     player-gateway-testing-app/internal/proxy/proxy.go: the connection details that
--                     a client asks for.
--   Stats.antt        player-gateway-testing-app/internal/stats/stats.go and proxy_stats.go. Counters
--                     are the 64-bit words that the atomic operations write. Stats/Snapshot is
--                     GetSnapshot, where the order in which a map is read is that of its entries.
--   Renderer.antt     player-gateway-testing-app/internal/renderer/renderer.go: the model of the
--                     terminal view and its update; the rows of the table are kept in the model.
--   Common.antt       player-gateway-testing-app/internal/common/common.go, without its sockets.
--   App.antt          player-gateway-testing-app/cmd/flags.go (the validation) and
--                     player-gateway-testing-app/internal/app/app.go (the set-up of the proxies).
--   Cmd.antt          player-gateway-testing-app/cmd/set-degradation/set_degradation.go,
--                     player-gateway-testing-app/cmd/replace-token/replace_token.go and
--                     player-gateway-testing-app/cmd/get-player-connection-details/get_player_connection_details.go,
--                     the last up to the message that it sends.
--   Fleet.antt        fast-build-update-tool/internal/config/constants.go and errors.go.
--   Fleet/Arguments   fast-build-update-tool/internal/config/cli_args.go: the arguments and their validation.
--   Fleet/Client      fast-build-update-tool/internal/gamelift: paging (Paging, Ending), the filter of
--                     instances (Filter), the fleet (Launch). The service is a record of functions.
--   Fleet/Tools       fast-build-update-tool/internal/tools: ports (Ports), the archive (Archive), the
--                     copy of files (Uploader), the script file (Script), and the session that enables
--                     SSH: what its output is searched for (Enabler), its goroutines (Session,
--                     Order, Progress) and Enable. A run of the session is a row of the turns
--                     of the goroutines.
--   Fleet/Instance    fast-build-update-tool/internal/runner/instance_updater.go,
--                     instance_updater_factory.go and instance_progress_writer.go.
--   Fleet/Runner      fast-build-update-tool/internal/runner/fleet_updater.go: a run is the row of the
--                     changes made outside and the result. The client of Amazon GameLift is an
--                     interface, which Allowed fills with Fleet/Client.
--   Fleet/Main        fast-build-update-tool/cmd/main.go, from the arguments of the program on; the flags
--                     are parsed by a parameter.
--   Wrapper.antt      multi-build-solution/SdkGoWrapper/server.go and
--                     containers-starter-kit/SdkGoWrapper/server.go. The SDK, the files and the clock
--                     are parameters; the calls made are kept in a row, and callbacks are taken one
--                     at a time. Runs has the theorems.
--   Go/*              What these use of Go's library: byte strings (Text), strconv (Decimal), and
--                     encoding/hex and encoding/base64 (Base64), strings.ReplaceAll, strings.Join
--                     and filepath.Base (Replace), written out as they are documented.
--   Base/*            Booleans, lists, dictionaries, integers and results.
-- Examples modules hold runs on small inputs, and the theorems there.
--
-- Errors are constructors, without their texts. A panic of Go is a value of its own in Result: an
-- index or a slice out of range, a send on a closed channel and a nil pointer are those that occur
-- here. Times are nanoseconds as natural numbers; a difference of times stops at 0. Numbers of
-- players are integers; strconv.Atoi fails beyond 64 bits. What the operating system does in a
-- round of a proxy's loop (what is read, whether a write succeeds, the port of a new socket) is an
-- argument of the round. The search for ports is on fuel (Common.search_from): after as many rounds
-- as the greatest port plus two the start is above that port, where the loop ends.
-- The answers of Amazon GameLift are a function of the request, and a nil pointer in them is a missing
-- value, which panics when it is read. The recursion over pages is on fuel, the number of pages that
-- may be read (Fleet.Client.each_page).
--
-- Not modelled: sockets, the scheduling of goroutines (a run gives their turns), locks (operations
-- under a lock are single steps), log and terminal output, the texts of errors, the JSON text of
-- connection details (a parameter of the loop), the uptime in a snapshot, the closing of the
-- channel of a connection that is forgotten, and the view of the renderer. Of the update tool: the
-- parsing of flags (a parameter), the loggers, the templates of the scripts, the SSH connection
-- that runs a command, and the terminal output.
pub mod Base
pub mod Go
pub mod Token
pub mod Common
pub mod Stats
pub mod Proxy
pub mod App
pub mod Cmd
pub mod Fleet
pub mod Wrapper
pub mod Renderer
