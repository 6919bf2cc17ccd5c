-- ===== src/Common/Examples.antt =====
-- Port ranges and the search for free ports on small inputs.
use amazon_gamelift_toolkit.Base.{ℕ, ◌≤◌, ◌<◌, ◌≡◌, refl, ◌⊎◌, Bool, ltb, ◌||◌}
use amazon_gamelift_toolkit.Base.Int.{pos}
use amazon_gamelift_toolkit.Base.Result.{ok, err}
use amazon_gamelift_toolkit.Go.Text.{codes, cut, split}
use amazon_gamelift_toolkit.Go.Decimal.{atoi}
use amazon_gamelift_toolkit.Common.{
  parse_port_range, find_available_port_range, search_from, all_available, no_available_range,
  invalid_format, matches_port_range, part_number,
}
use amazon_gamelift_toolkit.Common.PortSearch.{IsFree, find_available_port_range_first}

range_read : parse_port_range (codes "5000-5010") ≡ ok (pos 5000, pos 5010)
unfolding parse_port_range matches_port_range part_number atoi cut split
range_read = refl

range_refused : parse_port_range (codes "5000-") ≡ err invalid_format
unfolding parse_port_range matches_port_range cut split
range_refused = refl

-- All ports but 5 are free.
abbrev all_but_five : ℕ → Bool
all_but_five port = ltb port 5 || ltb 5 port

found_behind : find_available_port_range all_but_five 3 3 10 ≡ ok 6
unfolding find_available_port_range search_from all_available
found_behind = refl

find_available_port_range_first_example :
    ((found : ℕ) × (find_available_port_range all_but_five 3 3 10 ≡ ok found)
      × (3 ≤ found)
      × IsFree all_but_five 3 10 found
      × ((earlier : ℕ) → 3 ≤ earlier → earlier < found → ¬ IsFree all_but_five 3 10 earlier))
    ⊎ ((find_available_port_range all_but_five 3 3 10 ≡ err no_available_range)
        × ((s : ℕ) → 3 ≤ s → ¬ IsFree all_but_five 3 10 s))
find_available_port_range_first_example = find_available_port_range_first all_but_five 3 3 10
