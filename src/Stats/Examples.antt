-- ===== src/Stats/Examples.antt =====
-- A collector of two players with two endpoints each, and a row of events.
use amazon_gamelift_toolkit.Base.{ℕ, ◌≡◌, refl, List, [], ◌∷◌, none, some, arith, length, ◌↔◌}
use amazon_gamelift_toolkit.Base.Int.{pos}
use amazon_gamelift_toolkit.Base.Eq.{nat_eq, int_eq}
use amazon_gamelift_toolkit.Base.Dict.{lookup, insert}
use amazon_gamelift_toolkit.Stats.{
  StatsEvent, ProxyStats, StatsCollector, new_stats_collector, add_players, add_endpoints,
  fresh_stats, process_events, event_valid_packet_processed, event_malformed_packet_processed,
  event_player_connected, event_player_disconnected, event_degradation_update,
}
use amazon_gamelift_toolkit.Base.Elem.{Elem}
use amazon_gamelift_toolkit.Stats.Snapshot.{
  get_snapshot, IsSorted, swap, get_snapshot-endpoint_stats,
}
use amazon_gamelift_toolkit.Stats.Counts.{tally, process_events-tally, count_of, last_degradation}

abbrev collector : StatsCollector
collector = record {
  ip_address = [];
  endpoint_stats =
      (8000, fresh_stats 8000)
      ∷ (8001, fresh_stats 8001)
      ∷ (8002, fresh_stats 8002)
      ∷ (8003, fresh_stats 8003)
      ∷ [];
  player_connections = [];
  player_endpoints = (pos 1, 8000 ∷ 8001 ∷ []) ∷ (pos 2, 8002 ∷ 8003 ∷ []) ∷ [];
}

collector_built : new_stats_collector 8000 2 2 [] ≡ collector
unfolding new_stats_collector add_players add_endpoints insert lookup
collector_built = refl

-- Two valid packets and a malformed one at port 8000, and a player who comes and goes.
abbrev row : List StatsEvent
row =
    record {
      event_type = event_valid_packet_processed;
      port = 8000;
      player_number = pos 0;
      degradation_percent = pos 0;
    }
    ∷ record {
      event_type = event_player_connected;
      port = 0;
      player_number = pos 1;
      degradation_percent = pos 0;
    }
    ∷ record {
      event_type = event_malformed_packet_processed;
      port = 8000;
      player_number = pos 0;
      degradation_percent = pos 0;
    }
    ∷ record {
      event_type = event_degradation_update;
      port = 8001;
      player_number = pos 0;
      degradation_percent = pos 25;
    }
    ∷ record {
      event_type = event_valid_packet_processed;
      port = 8000;
      player_number = pos 0;
      degradation_percent = pos 0;
    }
    ∷ record {
      event_type = event_player_disconnected;
      port = 0;
      player_number = pos 1;
      degradation_percent = pos 0;
    }
    ∷ []

abbrev after_row : ProxyStats
after_row = record {
  port = 8000;
  valid_packets = 2;
  malformed_packets = 1;
  degradation_percentage = pos 0;
}

tallied : tally 8000 row (fresh_stats 8000) ≡ after_row
unfolding count_of last_degradation
tallied = refl

at_8000 : lookup 8000 collector.endpoint_stats ≡ some (fresh_stats 8000)
unfolding lookup
at_8000 = refl

process_events-tally_example :
    lookup 8000 (process_events collector row).endpoint_stats
    ≡ some (tally 8000 row (fresh_stats 8000))
process_events-tally_example =
    process_events-tally collector row 8000 (fresh_stats 8000) at_8000 (omega arith, omega arith)

-- The collector as a map that is read with the first two ports in the other order.
abbrev pub other_order : StatsCollector
other_order = record collector {
  endpoint_stats =
      (8001, fresh_stats 8001)
      ∷ (8000, fresh_stats 8000)
      ∷ (8002, fresh_stats 8002)
      ∷ (8003, fresh_stats 8003)
      ∷ [];
}

get_snapshot-endpoint_stats_example :
    IsSorted (get_snapshot other_order none).endpoint_stats
    × ((x : ProxyStats)
        → Elem x (get_snapshot other_order none).endpoint_stats
          ↔ ((port : ℕ) × Elem (port, x) other_order.endpoint_stats))
    × (length (get_snapshot other_order none).endpoint_stats ≡ length other_order.endpoint_stats)
    × ((get_snapshot other_order none).endpoint_stats
        ≡ (get_snapshot collector none).endpoint_stats)
get_snapshot-endpoint_stats_example =
    get_snapshot-endpoint_stats other_order collector none (swap _ _ _ (omega arith))
