-- ===== src/Stats.antt =====
-- player-gateway-testing-app/internal/stats: the collector of statistics (stats.go) and the counters
-- of an endpoint (proxy_stats.go). A counter is the 64-bit word that the atomic operations write.
pub mod Counts
pub mod Ports
pub mod Snapshot
pub mod Examples
use amazon_gamelift_toolkit.Base.{
  ℕ, zero, suc, ◌+◌, ◌%◌, Bool, true, false, List, [], ◌∷◌, ◌++◌, Option, none, some, ltb,
  if◌then◌else◌, length,
}
use amazon_gamelift_toolkit.Base.Int.{ℤ, pos}
use amazon_gamelift_toolkit.Base.Eq.{nat_eq, int_eq}
use amazon_gamelift_toolkit.Base.Dict.{Dict, lookup, insert, delete}
use amazon_gamelift_toolkit.Go.Text.{Bytes}

pub data StatsEventType : Type 0 where
  event_valid_packet_processed event_malformed_packet_processed : StatsEventType
  event_player_connected event_player_disconnected event_degradation_update : StatsEventType

pub record StatsEvent : Type 0 where
  pub event_type : StatsEventType
  pub port : ℕ
  pub player_number : ℤ
  pub degradation_percent : ℤ

abbrev pub word_size : ℕ
word_size = 18446744073709551616

pub record ProxyStats : Type 0 where
  pub port : ℕ
  pub valid_packets : ℕ
  pub malformed_packets : ℕ
  pub degradation_percentage : ℤ

abbrev pub increment_valid_packets : ProxyStats → ProxyStats
increment_valid_packets ps = record ps { valid_packets = (ps.valid_packets + 1) % word_size }

abbrev pub increment_malformed_packets : ProxyStats → ProxyStats
increment_malformed_packets ps = record ps {
  malformed_packets = (ps.malformed_packets + 1) % word_size;
}

abbrev pub set_degradation_percentage : ℤ → ProxyStats → ProxyStats
set_degradation_percentage percentage ps = record ps { degradation_percentage = percentage }

pub record StatsCollector : Type 0 where
  pub ip_address : Bytes
  pub endpoint_stats : Dict ℕ ProxyStats
  pub player_connections : Dict ℤ Bool
  pub player_endpoints : Dict ℤ (List ℕ)

-- What the constructor's loops carry: the next port and the two maps.
pub record PortLoop : Type 0 where
  pub next_port : ℕ
  pub stats_by_port : Dict ℕ ProxyStats
  pub ports_by_player : Dict ℤ (List ℕ)

abbrev pub ports_or_nil : Option (List ℕ) → List ℕ
ports_or_nil none = []
ports_or_nil (some ports) = ports

abbrev pub fresh_stats : ℕ → ProxyStats
fresh_stats port = record {
  port = port;
  valid_packets = 0;
  malformed_packets = 0;
  degradation_percentage = pos 0;
}

-- The inner loop for one player, and the outer one from player `player_num` on.
unfoldable pub add_endpoints : ℕ → ℤ → PortLoop → PortLoop
add_endpoints zero player_num loop = loop
add_endpoints (suc rounds) player_num loop =
    let port = loop.next_port in
    add_endpoints rounds player_num (record {
      next_port = port + 1;
      stats_by_port = insert port (fresh_stats port) loop.stats_by_port;
      ports_by_player =
          insert player_num (ports_or_nil (lookup player_num loop.ports_by_player) ++ port ∷ [])
            loop.ports_by_player;
    })

unfoldable pub add_players : ℕ → ℕ → ℕ → PortLoop → PortLoop
add_players endpoint_count zero player_num loop = loop
add_players endpoint_count (suc rounds) player_num loop =
    add_players endpoint_count rounds (suc player_num)
      (add_endpoints endpoint_count (pos player_num) loop)

unfoldable pub new_stats_collector : ℕ → ℕ → ℕ → Bytes → StatsCollector
new_stats_collector start_port endpoint_count player_count ip_address =
    let loop =
      add_players endpoint_count player_count 1
        (record { next_port = start_port; stats_by_port = []; ports_by_player = [] }) in
    record {
      ip_address = ip_address;
      endpoint_stats = loop.stats_by_port;
      player_connections = [];
      player_endpoints = loop.ports_by_player;
    }

-- `stats, exists := sc.endpointStats[port]`, and a change of what it points to.
unfoldable pub update_endpoint : StatsCollector → ℕ → (ProxyStats → ProxyStats) → StatsCollector
update_endpoint sc port change = elim (lookup port sc.endpoint_stats) [
  | none ↦ sc
  | some stats ↦ record sc { endpoint_stats = insert port (change stats) sc.endpoint_stats }
]

unfoldable pub update_player_connection : StatsCollector → ℤ → Bool → StatsCollector
update_player_connection sc player_number true = record sc {
  player_connections = insert player_number true sc.player_connections;
}
update_player_connection sc player_number false = record sc {
  player_connections = delete player_number sc.player_connections;
}

unfoldable pub process_typed : StatsCollector → StatsEventType → StatsEvent → StatsCollector
unfolding update_endpoint update_player_connection
process_typed sc event_valid_packet_processed event =
    update_endpoint sc event.port increment_valid_packets
process_typed sc event_malformed_packet_processed event =
    update_endpoint sc event.port increment_malformed_packets
process_typed sc event_player_connected event = update_player_connection sc event.player_number true
process_typed sc event_player_disconnected event =
    update_player_connection sc event.player_number false
process_typed sc event_degradation_update event =
    update_endpoint sc event.port (set_degradation_percentage event.degradation_percent)

unfoldable pub process_event : StatsCollector → StatsEvent → StatsCollector
unfolding process_typed
process_event sc event = process_typed sc event.event_type event

-- The loop of Start over the events that it receives.
unfoldable pub process_events : StatsCollector → List StatsEvent → StatsCollector
process_events sc [] = sc
process_events sc (event ∷ events) = process_events (process_event sc event) events

-- A non-blocking send to the event channel: a full channel drops the event, and no channel is nil.
unfoldable pub publish_stats_event :
    ℕ → Option (List StatsEvent) → StatsEvent → Option (List StatsEvent)
publish_stats_event capacity none event = none
publish_stats_event capacity (some pending) event =
    if ltb (length pending) capacity then some (pending ++ event ∷ []) else some pending
