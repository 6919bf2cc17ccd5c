-- ===== src/Renderer.antt =====
-- player-gateway-testing-app/internal/renderer/renderer.go: the model of the terminal view and its
-- update. The libraries that draw the table are left out: a model keeps the rows that it sets.
pub mod Rows
mod Examples
use amazon_gamelift_toolkit.Base.{
  ℕ, suc, ◌+◌, ◌/◌, ◌%◌, ◌≡◌, refl, Bool, true, false, ◌&&◌, ◌||◌, List, [], ◌∷◌, Option, none,
  some, length, ltb, ◌==◌, if◌then◌else◌,
}
use amazon_gamelift_toolkit.Base.Int.{ℤ, pos}
use amazon_gamelift_toolkit.Base.Eq.{int_eq, bytes_beq}
use amazon_gamelift_toolkit.Base.Dict.{lookup}
use amazon_gamelift_toolkit.Go.Text.{Bytes, codes}
use amazon_gamelift_toolkit.Go.Decimal.{itoa, itoa_ℕ}
use amazon_gamelift_toolkit.Token.{TokenManager}
use amazon_gamelift_toolkit.Stats.{ProxyStats, StatsCollector, word_size, ports_or_nil}
use amazon_gamelift_toolkit.Stats.Snapshot.{StatsSnapshot, get_snapshot}
use amazon_gamelift_toolkit.App.{of_word}

abbrev pub default_width : ℤ
default_width = pos 150

pub record Row : Type 0 where
  pub player : Bytes
  pub endpoint : Bytes
  pub port : Bytes
  pub valid : Bytes
  pub malformed : Bytes
  pub degradation : Bytes

-- A 64-bit total is the word that the sums leave.
pub record Model : Type 0 where
  pub snapshot : StatsSnapshot
  pub has_cancel_func : Bool
  pub is_cancelled : Bool
  pub rows : List Row
  pub total_valid_packets : ℕ
  pub total_malformed_packets : ℕ
  pub width : ℤ

unfoldable pub new_model : Option StatsCollector → Option TokenManager → Bool → Option Model
unfolding get_snapshot
new_model none tokens has_cancel_func = none
new_model (some sc) tokens has_cancel_func = some (record {
  snapshot = get_snapshot sc tokens;
  has_cancel_func = has_cancel_func;
  is_cancelled = false;
  rows = [];
  total_valid_packets = 0;
  total_malformed_packets = 0;
  width = default_width;
})

pub data Message : Type 0 where
  key : Bytes → Message
  tick_message : Message
  window_size : ℤ → Message
  other_message : Message

pub data Command : Type 0 where
  no_command quit tick : Command

abbrev pub per_player : StatsSnapshot → ℕ
per_player snapshot = elim snapshot.player_endpoints [
  | [] ↦ 0
  | entry ∷ entries ↦ length (ports_or_nil (lookup (pos 1) (entry ∷ entries)))
]

-- The number of the player, at the first endpoint of each.
unfoldable pub player_str : ℕ → ℕ → Bytes
unfolding itoa_ℕ
player_str n i = if ltb 0 n && (i % n == 0) then itoa_ℕ (i / n + 1) else []

abbrev pub row_of : ℕ → ℕ → ProxyStats → Row
row_of n i stats = record {
  player = player_str n i;
  endpoint = itoa_ℕ (i + 1);
  port = itoa_ℕ stats.port;
  valid = itoa (of_word stats.valid_packets);
  malformed = itoa (of_word stats.malformed_packets);
  degradation = itoa stats.degradation_percentage;
}

-- The loop over the endpoints, from the index `i` on.
unfoldable pub endpoint_rows : ℕ → ℕ → List ProxyStats → List Row
unfolding player_str itoa itoa_ℕ
endpoint_rows n i [] = []
endpoint_rows n i (stats ∷ more) = row_of n i stats ∷ endpoint_rows n (suc i) more

unfoldable pub add_totals : (ProxyStats → ℕ) → ℕ → List ProxyStats → ℕ
add_totals count total [] = total
add_totals count total (stats ∷ more) = add_totals count ((total + count stats) % word_size) more

unfoldable pub on_tick : Model → StatsSnapshot → Model
unfolding endpoint_rows add_totals
on_tick m snapshot = record m {
  snapshot = snapshot;
  rows = endpoint_rows (per_player snapshot) 0 snapshot.endpoint_stats;
  total_valid_packets = add_totals (λ s. s.valid_packets) 0 snapshot.endpoint_stats;
  total_malformed_packets = add_totals (λ s. s.malformed_packets) 0 snapshot.endpoint_stats;
}

abbrev is_quit : Bytes → Bool
is_quit text = bytes_beq text (codes "ctrl+c") || bytes_beq text (codes "q")

unfoldable pub update : Model → StatsCollector → Option TokenManager → Message → Model × Command
unfolding on_tick get_snapshot
update m sc tokens (key text) =
    if is_quit text
    then (record m { is_cancelled = m.has_cancel_func || m.is_cancelled }, quit)
    else (m, no_command)
update m sc tokens tick_message = (on_tick m (get_snapshot sc tokens), tick)
update m sc tokens (window_size width) = (record m { width = width }, no_command)
update m sc tokens other_message = (m, no_command)
