-- ===== src/Proxy/Forwarding/Safety.antt =====
-- What can stop the loop of a proxy, and what the loop keeps.
use amazon_gamelift_toolkit.Base.{
  ℕ, ◌≡◌, ◌≢◌, refl, sym, subst, ◌⊎◌, inl, inr, Bool, true, false, List, [], ◌∷◌, Option, none,
  some, arith, if◌then◌else◌,
}
use amazon_gamelift_toolkit.Base.Int.{ℤ, pos}
use amazon_gamelift_toolkit.Base.Eq.{int_eq}
use amazon_gamelift_toolkit.Base.Result.{Result, ok, err, panic}
use amazon_gamelift_toolkit.Go.Text.{Bytes, All}
use amazon_gamelift_toolkit.Stats.{event_valid_packet_processed}
use amazon_gamelift_toolkit.Proxy.{
  UdpAddr, HandlerError, ConfigCommandResult, degradation_result, generic_command_result,
  get_player_connection_details_result, PreprocessServerBoundTrafficResult,
}
use amazon_gamelift_toolkit.Proxy.Pool.{ClientConnectionPool, get_or_create_client_connection}
use amazon_gamelift_toolkit.Proxy.Forwarding.{
  Proxy, Outside, TrafficHandler, ReadResult, received, deadline_exceeded, read_failed, ProxyError,
  Turn, context_done, client_bound, idle, ClientBoundData, answer, forward, publish, send_to,
  act_on, process, write_reply, is_dropped, keeps_running, handle_incoming_traffic,
  handle_client_bound, start,
}
use amazon_gamelift_toolkit.Proxy.Forwarding.Handlers.{OnlyDrops}

-- A round in which the outside does its part: reads and writes do not fail, and a socket can be
-- opened.
abbrev pub IsCalm : {E : Type 0} → Turn E → Type 0
IsCalm context_done = Unit
IsCalm (client_bound o bound) = o.writes ≡ true
IsCalm (idle o read) =
    (o.writes ≡ true) × ((port : ℕ) × (o.new_socket ≡ some port)) × (read ≢ read_failed)

-- The loop goes on, or the handler has panicked.
abbrev pub IsFine : Result ProxyError (Unit {0}) → Type 0
IsFine r = (keeps_running r ≡ true) ⊎ (r ≡ panic)

sent-IsFine :
    {H : Type 0} (p : Proxy H) (r : ClientConnectionPool × Bool) (player : ℤ) (packet : Bytes)
    → r.1 ≡ true
    → IsFine (send_to p r player packet).1
sent-IsFine p (pool, true) player packet h = inl refl
sent-IsFine p (pool, false) player packet h = absurd (cc)

socket_opens :
    (pool : ClientConnectionPool) (port : ℕ) (p : ℤ) (a : UdpAddr)
    → (get_or_create_client_connection pool (some port) p a).1 ≡ true
unfolding get_or_create_client_connection
socket_opens pool port p a = ground arith

act-IsFine :
    {H : Type 0} (p : Proxy H) (port : ℕ) (response : List ℤ → Bytes) (a : UdpAddr)
    (out : PreprocessServerBoundTrafficResult) (command : Option ConfigCommandResult)
    → IsFine (act_on p (some port) true response a out command).1
unfolding answer forward
act-IsFine p port response a out (some (degradation_result percent)) = inl refl
act-IsFine p port response a out (some generic_command_result) = inl refl
act-IsFine p port response a out (some (get_player_connection_details_result players)) = inl refl
act-IsFine p port response a out none =
    let counted = publish p event_valid_packet_processed (pos 0) in
    let pool = counted.client_connection_pool in
    sent-IsFine counted (get_or_create_client_connection pool (some port) out.player_number a)
      out.player_number out.packet (socket_opens pool port out.player_number a)

process-IsFine :
    {H : Type 0} (p : Proxy H) (port : ℕ) (response : List ℤ → Bytes) (packet : Bytes) (a : UdpAddr)
    (r : Result HandlerError PreprocessServerBoundTrafficResult)
    → IsFine (process p (some port) true response packet a r).1
unfolding process
process-IsFine p port response packet a (ok out) =
    act-IsFine p port response a out out.config_command
process-IsFine p port response packet a (err e) = inl refl
process-IsFine p port response packet a panic = inr refl

incoming-IsFine :
    {H E : Type 0} (handler : TrafficHandler H E) (response : List ℤ → Bytes) (p : Proxy H)
    (o : Outside E) (read : ReadResult)
    → IsCalm (idle o read)
    → IsFine (handle_incoming_traffic handler response p o read).1
unfolding handle_incoming_traffic
incoming-IsFine handler response p o deadline_exceeded calm = inl refl
incoming-IsFine handler response p o read_failed (_, _, ne) = absurd (ne refl)
incoming-IsFine handler response p o (received packet a) (writes, (port, opens), _) =
    let r = handler.preprocess p.traffic_handler o.for_handler packet a in
    subst
      (λ b.
        IsFine
          (process (record p { traffic_handler = r.0 }) o.new_socket b response packet a r.1).1)
      (sym writes)
      (subst
        (λ s. IsFine (process (record p { traffic_handler = r.0 }) s true response packet a r.1).1)
        (sym opens)
        (process-IsFine (record p { traffic_handler = r.0 }) port response packet a r.1))

reply-IsFine :
    {H E : Type 0} (handler : TrafficHandler H E) (response : List ℤ → Bytes) (p : Proxy H)
    (r : Result HandlerError (Option (UdpAddr × Bytes)))
    → ((er : HandlerError) → r ≡ err er → is_dropped er ≡ true)
    → IsFine (write_reply handler response p true r).1
reply-IsFine handler response p (ok none) drops = inl refl
reply-IsFine handler response p (ok (some (a, packet))) drops = inl refl
reply-IsFine handler response p panic drops = inr refl
reply-IsFine handler response p (err er) drops = rw (drops er refl) (inl refl)

client_bound-IsFine :
    {H E : Type 0} (handler : TrafficHandler H E) (response : List ℤ → Bytes) (p : Proxy H)
    (o : Outside E) (bound : ClientBoundData)
    → OnlyDrops handler
    → o.writes ≡ true
    → IsFine (handle_client_bound handler response p o bound).1
unfolding handle_client_bound
client_bound-IsFine handler response p o bound law writes =
    let r = handler.reply p.traffic_handler o.for_handler p.client_connection_pool bound in
    subst (λ b. IsFine (write_reply handler response (record p { traffic_handler = r.0 }) b r.1).1)
      (sym writes)
      (reply-IsFine handler response (record p { traffic_handler = r.0 }) r.1
        (law.only_drops p.traffic_handler o.for_handler p.client_connection_pool bound))

-- What Start has returned: nothing yet, no error, or a panic of the handler.
abbrev pub HasNoError : Option (Result ProxyError (Unit {0})) → Type 0
HasNoError r = (r ≡ none) ⊎ ((r ≡ some (ok tt)) ⊎ (r ≡ some panic))

goes_on :
    {H : Type 0} (step : Proxy H × Result ProxyError (Unit {0}))
    (rest : Proxy H × Option (Result ProxyError (Unit {0})))
    → IsFine step.1
    → HasNoError rest.1
    → HasNoError (if keeps_running step.1 then rest else (step.0, some step.1)).1
goes_on step rest (inl runs) fine = rw runs fine
goes_on step rest (inr panics) fine = rw panics (inr (inr refl))

-- Whatever packets come in, from clients and from the game server, the loop of a proxy returns no
-- error while the outside does its part: it runs on, has returned without an error because its
-- context is done, or its handler has panicked. The handler may fail on a reply only by dropping
-- the packet.
pub start-HasNoError :
    {H E : Type 0} (handler : TrafficHandler H E) (response : List ℤ → Bytes) (p : Proxy H)
    (turns : List (Turn E))
    → OnlyDrops handler
    → All IsCalm turns
    → HasNoError (start handler response p turns).1
unfolding start
start-HasNoError handler response p [] law calm = inl refl
start-HasNoError handler response p (context_done ∷ turns) law calm = inr (inl refl)
start-HasNoError handler response p (client_bound o bound ∷ turns) law (writes, calm) =
    let step = handle_client_bound handler response p o bound in
    goes_on step (start handler response step.0 turns)
      (client_bound-IsFine handler response p o bound law writes)
      (start-HasNoError handler response step.0 turns law calm)
start-HasNoError handler response p (idle o read ∷ turns) law (c, calm) =
    let step = handle_incoming_traffic handler response p o read in
    goes_on step (start handler response step.0 turns) (incoming-IsFine handler response p o read c)
      (start-HasNoError handler response step.0 turns law calm)
