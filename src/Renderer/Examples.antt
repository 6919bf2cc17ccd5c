-- ===== src/Renderer/Examples.antt =====
-- A collector of two players with two endpoints each, and the rows of a tick.
use amazon_gamelift_toolkit.Base.{
  ◌+◌, ◌*◌, ◌%◌, ◌≡◌, refl, false, [], none, some, get_elem?, arith, length,
}
use amazon_gamelift_toolkit.Base.Int.{pos}
use amazon_gamelift_toolkit.Base.Dict.{lookup}
use amazon_gamelift_toolkit.Stats.{ProxyStats, word_size}
use amazon_gamelift_toolkit.Stats.Snapshot.{sort, place, get_snapshot}
use amazon_gamelift_toolkit.Stats.Examples.{other_order}
use amazon_gamelift_toolkit.Renderer.{Model, tick_message, update}
use amazon_gamelift_toolkit.Renderer.Rows.{sum_of, shown, update_shows}

abbrev model : Model
model = record {
  snapshot = get_snapshot other_order none;
  has_cancel_func = false;
  is_cancelled = false;
  rows = [];
  total_valid_packets = 0;
  total_malformed_packets = 0;
  width = pos 150;
}

abbrev third : ProxyStats
third = record {
  port = 8002;
  valid_packets = 0;
  malformed_packets = 0;
  degradation_percentage = pos 0;
}

update_shows_example :
    let all = (get_snapshot other_order none).endpoint_stats in
    let after = (update model other_order none tick_message).0 in
    (get_elem? after.rows (1 * 2 + 0) ≡ some (shown 2 1 0 third))
    × (length after.rows ≡ length all)
    × (after.total_valid_packets ≡ sum_of (λ s. s.valid_packets) all % word_size)
    × (after.total_malformed_packets ≡ sum_of (λ s. s.malformed_packets) all % word_size)
unfolding get_snapshot sort place lookup
update_shows_example = update_shows model other_order none 1 0 2 third refl (omega arith) refl
