-- ===== src/Renderer/Rows.antt =====
-- The rows and the totals that a tick sets (Model.Update in player-gateway-testing-app/internal/renderer/renderer.go).
use amazon_gamelift_toolkit.Base.{
  ℕ, zero, suc, ◌+◌, ◌*◌, ◌<◌, ◌%◌, ◌/◌, if◌then◌else◌, ◌==◌, lt→ltb, ◌≡◌, refl, ap, ◌∙◌, List, [],
  ◌∷◌, Option, some, get_elem?, arith, length,
}
use amazon_gamelift_toolkit.Go.Decimal.{itoa, itoa_ℕ}
use amazon_gamelift_toolkit.Token.{TokenManager}
use amazon_gamelift_toolkit.Stats.{ProxyStats, StatsCollector, word_size}
use amazon_gamelift_toolkit.Stats.Snapshot.{get_snapshot}
use amazon_gamelift_toolkit.App.{of_word}
use native.Mathlib.Nat.{
  add-zero, mod-eq_of_lt, div-eq_of_lt, mul-add-mod_self_right, mul-add-div_right,
}
use amazon_gamelift_toolkit.Renderer.{
  Row, Model, tick_message, per_player, player_str, row_of, endpoint_rows, add_totals, on_tick,
  update,
}

pub sum_of : (ProxyStats → ℕ) → List ProxyStats → ℕ
sum_of count [] = 0
sum_of count (stats ∷ more) = count stats + sum_of count more

-- A sum of words is the sum, up to the size of a word.
add_totals-sum_of :
    (count : ProxyStats → ℕ) (total : ℕ) (stats : List ProxyStats)
    → total < word_size
    → add_totals count total stats ≡ (total + sum_of count stats) % word_size
unfolding add_totals sum_of
add_totals-sum_of count total [] h = omega arith
add_totals-sum_of count total (stats ∷ more) h =
    add_totals-sum_of count ((total + count stats) % word_size) more (omega arith) ∙ omega arith

total-sum_of :
    (count : ProxyStats → ℕ) (stats : List ProxyStats)
    → add_totals count 0 stats ≡ sum_of count stats % word_size
total-sum_of count stats =
    add_totals-sum_of count 0 stats (omega arith) ∙ ap (λ n. n % word_size) (omega arith)

length-endpoint_rows :
    (n i : ℕ) (stats : List ProxyStats) → length (endpoint_rows n i stats) ≡ length stats
unfolding endpoint_rows
length-endpoint_rows n i [] = refl
length-endpoint_rows n i (stats ∷ more) = ap suc (length-endpoint_rows n (suc i) more)

-- The row of the endpoint `k` of the player `p + 1`, where both are counted from 0.
pub shown : ℕ → ℕ → ℕ → ProxyStats → Row
shown n p k stats = record {
  player = if k == 0 then itoa_ℕ (p + 1) else [];
  endpoint = itoa_ℕ (p * n + k + 1);
  port = itoa_ℕ stats.port;
  valid = itoa (of_word stats.valid_packets);
  malformed = itoa (of_word stats.malformed_packets);
  degradation = itoa stats.degradation_percentage;
}

player_str-at :
    (n p k : ℕ) → k < n → player_str n (p * n + k) ≡ (if k == 0 then itoa_ℕ (p + 1) else [])
unfolding player_str
player_str-at n p k h =
    let rest : (p * n + k) % n ≡ k = mul-add-mod_self_right p n k ∙ mod-eq_of_lt h in
    let whole : (p * n + k) / n ≡ p =
      mul-add-div_right (omega arith) p k ∙ ap (◌+◌ p) (div-eq_of_lt h) ∙ add-zero p in
    rw (rest, whole, lt→ltb 0 n (omega arith)) refl

endpoint_rows-at :
    (n i j : ℕ) (all : List ProxyStats) (stats : ProxyStats)
    → get_elem? all j ≡ some stats
    → get_elem? (endpoint_rows n i all) j ≡ some (row_of n (j + i) stats)
unfolding endpoint_rows
endpoint_rows-at n i zero [] stats e = grind arith
endpoint_rows-at n i (suc j) [] stats e = grind arith
endpoint_rows-at n i zero (first ∷ more) stats e =
    let same : first ≡ stats = cc in
    ap (λ x. some (row_of n i x)) same ∙ ap (λ j. some (row_of n j stats)) (omega arith)
endpoint_rows-at n i (suc j) (first ∷ more) stats e =
    endpoint_rows-at n (suc i) j more stats e ∙ ap (λ m. some (row_of n m stats)) (omega arith)

rows_show :
    (n p k : ℕ) (all : List ProxyStats) (stats : ProxyStats)
    → k < n
    → get_elem? all (p * n + k) ≡ some stats
    → get_elem? (endpoint_rows n 0 all) (p * n + k) ≡ some (shown n p k stats)
unfolding shown
rows_show n p k all stats h e =
    endpoint_rows-at n 0 (p * n + k) all stats e
    ∙ rw (add-zero (p * n + k), player_str-at n p k h) refl

-- When the tick shows a snapshot in which each player has `n` endpoints, the row of the endpoint `k`
-- of the player `p + 1` has the numbers of that endpoint of the snapshot, and names the player if it
-- is the first of the player; there are as many rows as endpoints, and the totals are the sums, up
-- to the size of a word. The snapshot has to have the endpoint, and `k` has to be below `n`.
pub update_shows :
    (m : Model) (sc : StatsCollector) (tokens : Option TokenManager) (p k n : ℕ)
    (stats : ProxyStats)
    → per_player (get_snapshot sc tokens) ≡ n
    → k < n
    → get_elem? (get_snapshot sc tokens).endpoint_stats (p * n + k) ≡ some stats
    → let all = (get_snapshot sc tokens).endpoint_stats in
      let after = (update m sc tokens tick_message).0 in
      (get_elem? after.rows (p * n + k) ≡ some (shown n p k stats))
      × (length after.rows ≡ length all)
      × (after.total_valid_packets ≡ sum_of (λ s. s.valid_packets) all % word_size)
      × (after.total_malformed_packets ≡ sum_of (λ s. s.malformed_packets) all % word_size)
unfolding update on_tick
update_shows m sc tokens p k n stats same h e =
    let all = (get_snapshot sc tokens).endpoint_stats in
    (
      rw same (rows_show n p k all stats h e),
      length-endpoint_rows (per_player (get_snapshot sc tokens)) 0 all,
      total-sum_of (λ s. s.valid_packets) all,
      total-sum_of (λ s. s.malformed_packets) all,
    )
