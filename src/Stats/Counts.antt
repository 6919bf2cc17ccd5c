-- ===== src/Stats/Counts.antt =====
-- What the collector holds after a row of events, in terms of the row alone.
use amazon_gamelift_toolkit.Base.{
  ℕ, suc, ◌+◌, ◌%◌, ◌<◌, ◌≡◌, refl, sym, ap, ◌∙◌, inl, inr, Bool, true, false, ◌&&◌, List, [], ◌∷◌,
  Option, none, some, arith, ◌==◌, if◌then◌else◌, Option-cases,
}
use amazon_gamelift_toolkit.Base.Int.{ℤ}
use amazon_gamelift_toolkit.Base.Eq.{nat_eq, int_eq, int_beq}
use amazon_gamelift_toolkit.Base.Dict.{lookup, lookup-insert, lookup-delete}
use native.Mathlib.Nat.{mod-eq_of_lt, mod-add-mod}
use amazon_gamelift_toolkit.Stats.{
  StatsEventType, StatsEvent, ProxyStats, StatsCollector, word_size, update_endpoint,
  update_player_connection, process_typed, process_event, process_events,
  event_valid_packet_processed, event_malformed_packet_processed, event_player_connected,
  event_player_disconnected, event_degradation_update, increment_valid_packets,
  increment_malformed_packets, set_degradation_percentage,
}

abbrev is_valid_packet : StatsEventType → Bool
is_valid_packet event_valid_packet_processed = true
is_valid_packet _ = false

abbrev is_malformed_packet : StatsEventType → Bool
is_malformed_packet event_malformed_packet_processed = true
is_malformed_packet _ = false

-- The events of a row that are of a kind and name a port.
unfoldable pub count_of : (StatsEventType → Bool) → ℕ → List StatsEvent → ℕ
count_of kind port [] = 0
count_of kind port (event ∷ events) =
    let rest = count_of kind port events in
    if kind event.event_type && event.port == port then suc rest else rest

abbrev set_if : Bool → ℤ → ℤ → ℤ
set_if true new old = new
set_if false new old = old

abbrev is_degradation : StatsEventType → Bool
is_degradation event_degradation_update = true
is_degradation _ = false

-- The last percentage of a row for a port, or the one before the row.
unfoldable pub last_degradation : ℕ → List StatsEvent → ℤ → ℤ
last_degradation port [] before = before
last_degradation port (event ∷ events) before = last_degradation port events (
    set_if (is_degradation event.event_type && event.port == port) event.degradation_percent before)

-- The statistics of a port after a row of events.
abbrev pub tally : ℕ → List StatsEvent → ProxyStats → ProxyStats
tally port events ps = record {
  port = ps.port;
  valid_packets = (ps.valid_packets + count_of is_valid_packet port events) % word_size;
  malformed_packets = (ps.malformed_packets + count_of is_malformed_packet port events) % word_size;
  degradation_percentage = last_degradation port events ps.degradation_percentage;
}

abbrev pub IsWords : ProxyStats → Type 0
IsWords ps = (ps.valid_packets < word_size) × (ps.malformed_packets < word_size)

-- What one event does to the statistics of a port.
abbrev changed : StatsEventType → StatsEvent → ProxyStats → ProxyStats
changed event_valid_packet_processed event ps = increment_valid_packets ps
changed event_malformed_packet_processed event ps = increment_malformed_packets ps
changed event_degradation_update event ps = set_degradation_percentage event.degradation_percent ps
changed event_player_connected event ps = ps
changed event_player_disconnected event ps = ps

update_endpoint-lookup :
    (sc : StatsCollector) (port q : ℕ) (f : ProxyStats → ProxyStats) (ps : ProxyStats)
    → lookup q sc.endpoint_stats ≡ some ps
    → lookup q (update_endpoint sc port f).endpoint_stats ≡ some (if port == q then f ps else ps)
unfolding update_endpoint
update_endpoint-lookup sc port q f ps at = elim (Option-cases (lookup port sc.endpoint_stats)) [
  | inl e ↦ ground arith
  | inr (old, e) ↦ ground (arith, lookup-insert port q (f old) sc.endpoint_stats)
]

changed_at : StatsEventType → StatsEvent → ℕ → ProxyStats → ProxyStats
changed_at kind event q ps = if event.port == q then changed kind event ps else ps

update_player_connection-endpoints :
    (sc : StatsCollector) (n : ℤ) (b : Bool)
    → (update_player_connection sc n b).endpoint_stats ≡ sc.endpoint_stats
unfolding update_player_connection
update_player_connection-endpoints sc n true = refl
update_player_connection-endpoints sc n false = refl

process_typed-lookup :
    (sc : StatsCollector) (kind : StatsEventType) (event : StatsEvent) (q : ℕ) (ps : ProxyStats)
    → lookup q sc.endpoint_stats ≡ some ps
    → lookup q (process_typed sc kind event).endpoint_stats ≡ some (changed_at kind event q ps)
unfolding process_typed changed_at
process_typed-lookup sc event_valid_packet_processed event q ps at =
    update_endpoint-lookup sc event.port q increment_valid_packets ps at
process_typed-lookup sc event_malformed_packet_processed event q ps at =
    update_endpoint-lookup sc event.port q increment_malformed_packets ps at
process_typed-lookup sc event_degradation_update event q ps at =
    update_endpoint-lookup sc event.port q (set_degradation_percentage event.degradation_percent) ps
      at
process_typed-lookup sc event_player_connected event q ps at =
    ground (arith, update_player_connection-endpoints sc event.player_number true)
process_typed-lookup sc event_player_disconnected event q ps at =
    ground (arith, update_player_connection-endpoints sc event.player_number false)

changed-IsWords :
    (kind : StatsEventType) (event : StatsEvent) (q : ℕ) (ps : ProxyStats)
    → IsWords ps
    → IsWords (changed_at kind event q ps)
unfolding changed_at
changed-IsWords event_valid_packet_processed event q ps w = ground arith
changed-IsWords event_malformed_packet_processed event q ps w = ground arith
changed-IsWords event_degradation_update event q ps w = ground arith
changed-IsWords event_player_connected event q ps w = ground arith
changed-IsWords event_player_disconnected event q ps w = ground arith

suc_first : (a b : ℕ) → ((a + 1) % word_size + b) % word_size ≡ (a + suc b) % word_size
suc_first a b = mod-add-mod (a + 1) word_size b ∙ ap (λ z. z % word_size) (omega arith)

-- The next event first, then the rest of the row.
tally_step :
    (kind : StatsEventType) (event : StatsEvent) (q : ℕ) (events : List StatsEvent)
    (ps : ProxyStats)
    → event.event_type ≡ kind
    → tally q events (changed_at kind event q ps) ≡ tally q (event ∷ events) ps
unfolding changed_at count_of last_degradation
tally_step event_valid_packet_processed event q events ps e =
    ground (arith, suc_first ps.valid_packets (count_of is_valid_packet q events))
tally_step event_malformed_packet_processed event q events ps e =
    ground (arith, suc_first ps.malformed_packets (count_of is_malformed_packet q events))
tally_step event_degradation_update event q events ps e = ground arith
tally_step event_player_connected event q events ps e = ground arith
tally_step event_player_disconnected event q events ps e = ground arith

tally_nil : (q : ℕ) (ps : ProxyStats) → IsWords ps → tally q [] ps ≡ ps
unfolding count_of last_degradation
tally_nil q ps (v, m) = ground (arith, mod-eq_of_lt v, mod-eq_of_lt m)

-- After any row of events, the counters of an endpoint are the numbers of the valid and of the
-- malformed packets that the row reports for its port, added to the counters before modulo 2^64,
-- and its degradation is the last one that the row reports. Events of other ports or of unknown
-- ports change nothing. The counters before are 64-bit words.
pub process_events-tally :
    (sc : StatsCollector) (events : List StatsEvent) (q : ℕ) (ps : ProxyStats)
    → lookup q sc.endpoint_stats ≡ some ps
    → IsWords ps
    → lookup q (process_events sc events).endpoint_stats ≡ some (tally q events ps)
unfolding process_events process_event
process_events-tally sc [] q ps at w = at ∙ ap some (sym (tally_nil q ps w))
process_events-tally sc (event ∷ events) q ps at w =
    let kind = event.event_type in
    process_events-tally (process_event sc event) events q (changed_at kind event q ps)
      (process_typed-lookup sc kind event q ps at) (changed-IsWords kind event q ps w)
    ∙ ap some (tally_step kind event q events ps refl)

-- What an event says about a player: connected, disconnected, or nothing.
abbrev connection_of : StatsEventType → Bool → Option Bool → Option Bool
connection_of event_player_connected true before = some true
connection_of event_player_disconnected true before = none
connection_of _ _ before = before

-- What the last event of a row that is about the player says, or what was known before.
unfoldable pub last_connection : ℤ → List StatsEvent → Option Bool → Option Bool
last_connection player [] before = before
last_connection player (event ∷ events) before =
    last_connection player events
      (connection_of event.event_type (int_beq event.player_number player) before)

update_endpoint-connections :
    (sc : StatsCollector) (port : ℕ) (f : ProxyStats → ProxyStats)
    → (update_endpoint sc port f).player_connections ≡ sc.player_connections
unfolding update_endpoint
update_endpoint-connections sc port f = ground arith

process_typed-connection :
    (sc : StatsCollector) (kind : StatsEventType) (event : StatsEvent) (q : ℤ)
    → lookup q (process_typed sc kind event).player_connections
      ≡ connection_of kind (int_beq event.player_number q) (lookup q sc.player_connections)
unfolding process_typed update_player_connection
process_typed-connection sc event_valid_packet_processed event q =
    ap (lookup q) (update_endpoint-connections sc event.port increment_valid_packets)
process_typed-connection sc event_malformed_packet_processed event q =
    ap (lookup q) (update_endpoint-connections sc event.port increment_malformed_packets)
process_typed-connection sc event_degradation_update event q = ap (lookup q) (
    update_endpoint-connections sc event.port
      (set_degradation_percentage event.degradation_percent))
process_typed-connection sc event_player_connected event q =
    ground (arith, lookup-insert event.player_number q true sc.player_connections)
process_typed-connection sc event_player_disconnected event q =
    ground (arith, lookup-delete event.player_number q sc.player_connections)

-- After any row of events, a player is connected as the last event of the row about the player
-- says, and as before if there is none.
process_events_connections :
    (sc : StatsCollector) (events : List StatsEvent) (q : ℤ)
    → lookup q (process_events sc events).player_connections
      ≡ last_connection q events (lookup q sc.player_connections)
unfolding process_events process_event last_connection
process_events_connections sc [] q = refl
process_events_connections sc (event ∷ events) q =
    process_events_connections (process_event sc event) events q
    ∙ ap (last_connection q events) (process_typed-connection sc event.event_type event q)
