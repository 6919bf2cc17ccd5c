-- ===== src/Stats/Ports.antt =====
-- The ports that a new collector gives to the players.
use amazon_gamelift_toolkit.Base.{
  ℕ, zero, suc, ◌+◌, ◌*◌, ◌<◌, ◌≡◌, refl, sym, ap, ◌∙◌, false, List, [], ◌∷◌, ◌++◌, arith,
}
use amazon_gamelift_toolkit.Base.Int.{ℤ, pos}
use amazon_gamelift_toolkit.Base.Eq.{nat_eq, int_eq, int_beq, int_beq_iff}
use amazon_gamelift_toolkit.Base.Dict.{Dict, lookup, insert, lookup-insert}
use amazon_gamelift_toolkit.Go.Text.{Bytes}
use amazon_gamelift_toolkit.Stats.{
  PortLoop, ports_or_nil, add_endpoints, add_players, new_stats_collector,
}

-- `count` ports from `first` on.
unfoldable pub ports_from : ℕ → ℕ → List ℕ
ports_from first zero = []
ports_from first (suc count) = first ∷ ports_from (suc first) count

abbrev ports_of : PortLoop → ℤ → List ℕ
ports_of loop player = ports_or_nil (lookup player loop.ports_by_player)

append_assoc : (a b c : List ℕ) → (a ++ b) ++ c ≡ a ++ (b ++ c)
append_assoc [] b c = refl
append_assoc (x ∷ a) b c = ap (λ z. x ∷ z) (append_assoc a b c)

append_nil : (a : List ℕ) → a ++ [] ≡ a
append_nil [] = refl
append_nil (x ∷ a) = ap (λ z. x ∷ z) (append_nil a)

stored_self :
    (p : ℤ) (v : List ℕ) (d : Dict ℤ (List ℕ)) → ports_or_nil (lookup p (insert p v d)) ≡ v
stored_self p v d = ground (arith, lookup-insert p p v d, int_beq_iff p p)

stored_other :
    (p q : ℤ) (v : List ℕ) (d : Dict ℤ (List ℕ))
    → int_beq p q ≡ false
    → ports_or_nil (lookup q (insert p v d)) ≡ ports_or_nil (lookup q d)
stored_other p q v d h = ground (arith, lookup-insert p q v d)

add_endpoints-next :
    (n : ℕ) (p : ℤ) (loop : PortLoop) → (add_endpoints n p loop).next_port ≡ loop.next_port + n
unfolding add_endpoints
add_endpoints-next zero p loop = omega arith
add_endpoints-next (suc n) p loop = add_endpoints-next n p _ ∙ omega arith

add_endpoints_self :
    (n : ℕ) (p : ℤ) (loop : PortLoop)
    → ports_of (add_endpoints n p loop) p ≡ ports_of loop p ++ ports_from loop.next_port n
unfolding add_endpoints ports_from
add_endpoints_self zero p loop = sym (append_nil (ports_of loop p))
add_endpoints_self (suc n) p loop =
    let port = loop.next_port in
    add_endpoints_self n p _
    ∙ ap (λ z. z ++ ports_from (port + 1) n)
        (stored_self p (ports_of loop p ++ port ∷ []) loop.ports_by_player)
    ∙ append_assoc (ports_of loop p) (port ∷ []) (ports_from (port + 1) n)
    ∙ ap (λ z. ports_of loop p ++ port ∷ ports_from z n) (omega arith)

add_endpoints-other :
    (n : ℕ) (p q : ℤ) (loop : PortLoop)
    → int_beq p q ≡ false
    → ports_of (add_endpoints n p loop) q ≡ ports_of loop q
unfolding add_endpoints
add_endpoints-other zero p q loop h = refl
add_endpoints-other (suc n) p q loop h =
    add_endpoints-other n p q _ h
    ∙ stored_other p q (ports_of loop p ++ loop.next_port ∷ []) loop.ports_by_player h

add_players-before :
    (n rounds k q : ℕ) (loop : PortLoop)
    → q < k
    → ports_of (add_players n rounds k loop) (pos q) ≡ ports_of loop (pos q)
unfolding add_players
add_players-before n zero k q loop lt = refl
add_players-before n (suc rounds) k q loop lt =
    add_players-before n rounds (suc k) q (add_endpoints n (pos k) loop) (omega arith)
    ∙ add_endpoints-other n (pos k) (pos q) loop (ground arith)

add_players-ports :
    (n rounds k i : ℕ) (loop : PortLoop)
    → i < rounds
    → ports_of loop (pos (k + i)) ≡ []
    → ports_of (add_players n rounds k loop) (pos (k + i)) ≡ ports_from (loop.next_port + i * n) n
unfolding add_players
add_players-ports n zero k i loop lt none_yet = elim lt [ ]
add_players-ports n (suc rounds) k zero loop lt none_yet =
    let same : k + 0 ≡ k = omega arith in
    ap (λ z. ports_of (add_players n rounds (suc k) (add_endpoints n (pos k) loop)) (pos z)) same
    ∙ add_players-before n rounds (suc k) k (add_endpoints n (pos k) loop) (omega arith)
    ∙ add_endpoints_self n (pos k) loop
    ∙ ap (λ z. z ++ ports_from loop.next_port n)
        (sym (ap (λ z. ports_of loop (pos z)) same) ∙ none_yet)
    ∙ ap (λ z. ports_from z n) (omega arith)
add_players-ports n (suc rounds) k (suc i) loop lt none_yet =
    let later = add_endpoints n (pos k) loop in
    let same : k + suc i ≡ suc k + i = omega arith in
    ap (λ z. ports_of (add_players n rounds (suc k) later) (pos z)) same
    ∙ add_players-ports n rounds (suc k) i later (omega arith) (
        add_endpoints-other n (pos k) (pos (suc k + i)) loop (ground arith)
        ∙ ap (λ z. ports_of loop (pos z)) (sym same)
        ∙ none_yet)
    ∙ ap (λ z. ports_from (z + i * n) n) (add_endpoints-next n (pos k) loop)
    ∙ ap (λ z. ports_from z n) (next_player n i loop.next_port)
  where
    next_player : (n i port : ℕ) → port + n + i * n ≡ port + suc i * n
    next_player n i port = ground arith

-- A new collector gives player `i + 1` of `player_count` players `endpoint_count` ports in a row,
-- behind those of the players before: from `start_port + i * endpoint_count` on.
new_stats_collector_ports :
    (start_port endpoint_count player_count i : ℕ) (ip_address : Bytes)
    → i < player_count
    → ports_or_nil (
        lookup
          (pos (i + 1))
          (new_stats_collector start_port endpoint_count player_count ip_address).player_endpoints)
      ≡ ports_from (start_port + i * endpoint_count) endpoint_count
unfolding new_stats_collector
new_stats_collector_ports start_port endpoint_count player_count i ip_address lt =
    ap
      (λ z. ports_or_nil (
        lookup (pos z)
          (new_stats_collector start_port endpoint_count player_count ip_address).player_endpoints))
      (omega arith)
    ∙ add_players-ports endpoint_count player_count 1 i
        (record { next_port = start_port; stats_by_port = []; ports_by_player = [] }) lt
        (unfold lookup in refl)
