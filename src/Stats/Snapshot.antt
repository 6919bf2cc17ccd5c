-- ===== src/Stats/Snapshot.antt =====
-- StatsCollector.GetSnapshot: a copy of the collector, with the endpoints sorted by port. A Go map is
-- read in an order that is not fixed; it is the order of the entries here.
use amazon_gamelift_toolkit.Base.{
  ℕ, suc, length, ◌↔◌, ◌≤◌, ◌<◌, ◌≡◌, ◌≢◌, refl, sym, ap, ◌∙◌, ◌⊎◌, inl, inr, Bool, List, [], ◌∷◌,
  Option, none, some, map, arith, ltb, ltb→lt, lt→ltb, le→ltb, if◌then◌else◌, Bool-cases,
}
use amazon_gamelift_toolkit.Base.Int.{ℤ}
use amazon_gamelift_toolkit.Base.Dict.{Dict}
use amazon_gamelift_toolkit.Base.Elem.{Elem}
use amazon_gamelift_toolkit.Go.Text.{Bytes}
use amazon_gamelift_toolkit.Token.{TokenManager, get_valid_tokens}
use amazon_gamelift_toolkit.Stats.{ProxyStats, StatsCollector}

pub record StatsSnapshot : Type 0 where
  pub ip_address : Bytes
  pub endpoint_stats : List ProxyStats
  pub player_connections : Dict ℤ Bool
  pub valid_tokens : Dict ℕ Bytes
  pub player_endpoints : Dict ℤ (List ℕ)

abbrev pub values : Dict ℕ ProxyStats → List ProxyStats
values = map (λ entry. entry.1)

-- sort.Slice by the ports
unfoldable pub place : ProxyStats → List ProxyStats → List ProxyStats
place a [] = a ∷ []
place a (b ∷ stats) =
    let rest = place a stats in if ltb b.port a.port then b ∷ rest else a ∷ b ∷ stats

unfoldable pub sort : List ProxyStats → List ProxyStats
unfolding place
sort [] = []
sort (a ∷ stats) = place a (sort stats)

abbrev tokens_of : Option TokenManager → Dict ℕ Bytes
tokens_of none = []
tokens_of (some tm) = get_valid_tokens tm

unfoldable pub get_snapshot : StatsCollector → Option TokenManager → StatsSnapshot
unfolding sort get_valid_tokens
get_snapshot sc tokens = record {
  ip_address = sc.ip_address;
  endpoint_stats = sort (values sc.endpoint_stats);
  player_connections = sc.player_connections;
  valid_tokens = tokens_of tokens;
  player_endpoints = sc.player_endpoints;
}

-- The same entries in another order, where no two swapped ones have the same port.
pub data Shuffle : Dict ℕ ProxyStats → Dict ℕ ProxyStats → Type 0 where
  same : (d : Dict ℕ ProxyStats) → Shuffle d d
  keep : {c d : Dict ℕ ProxyStats} (e : ℕ × ProxyStats) → Shuffle c d → Shuffle (e ∷ c) (e ∷ d)
  swap :
      (e f : ℕ × ProxyStats) (d : Dict ℕ ProxyStats)
      → e.1.port ≢ f.1.port
      → Shuffle (e ∷ f ∷ d) (f ∷ e ∷ d)
  then_more : {b c d : Dict ℕ ProxyStats} → Shuffle b c → Shuffle c d → Shuffle b d

place_after :
    (a b : ProxyStats) (stats : List ProxyStats)
    → b.port < a.port
    → place a (b ∷ stats) ≡ b ∷ place a stats
unfolding place
place_after a b stats h = rw (lt→ltb b.port a.port h) refl

place_before :
    (a b : ProxyStats) (stats : List ProxyStats)
    → a.port ≤ b.port
    → place a (b ∷ stats) ≡ a ∷ b ∷ stats
unfolding place
place_before a b stats h = rw (le→ltb b.port a.port h) refl

-- Placing a small one and a large one, in either order.
place_both :
    (a b : ProxyStats) (stats : List ProxyStats)
    → a.port < b.port
    → place a (place b stats) ≡ place b (place a stats)
place_both a b [] h =
    unfold place in rw (lt→ltb a.port b.port h, le→ltb b.port a.port (omega arith)) refl
place_both a b (c ∷ stats) h = elim (Bool-cases (ltb c.port a.port)) [
  | inl e ↦
      let ca : c.port < a.port = ltb→lt c.port a.port e in
      ap (place a) (place_after b c stats (omega arith))
      ∙ place_after a c (place b stats) ca
      ∙ ap (◌∷◌ c) (place_both a b stats h)
      ∙ sym (place_after b c (place a stats) (omega arith))
      ∙ ap (place b) (sym (place_after a c stats ca))
  | inr e ↦
      let ac : a.port ≤ c.port = ground arith in
      elim (Bool-cases (ltb c.port b.port)) [
        | inl f ↦
            let cb : c.port < b.port = ltb→lt c.port b.port f in
            ap (place a) (place_after b c stats cb)
            ∙ place_before a c (place b stats) ac
            ∙ ap (◌∷◌ a) (sym (place_after b c stats cb))
            ∙ sym (place_after b a (c ∷ stats) h)
            ∙ ap (place b) (sym (place_before a c stats ac))
        | inr f ↦
            let bc : b.port ≤ c.port = ground arith in
            ap (place a) (place_before b c stats bc)
            ∙ place_before a b (c ∷ stats) (omega arith)
            ∙ ap (◌∷◌ a) (sym (place_before b c stats bc))
            ∙ sym (place_after b a (c ∷ stats) h)
            ∙ ap (place b) (sym (place_before a c stats ac))
      ]
]

place_swap :
    (a b : ProxyStats) (stats : List ProxyStats)
    → a.port ≢ b.port
    → place a (place b stats) ≡ place b (place a stats)
place_swap a b stats n = elim (Bool-cases (ltb a.port b.port)) [
  | inl e ↦ place_both a b stats (ltb→lt a.port b.port e)
  | inr e ↦ sym (place_both b a stats (ground arith))
]

sort-Shuffle : {c d : Dict ℕ ProxyStats} → Shuffle c d → sort (values c) ≡ sort (values d)
unfolding sort
sort-Shuffle (same d) = refl
sort-Shuffle (keep e s) = ap (place e.1) (sort-Shuffle s)
sort-Shuffle (swap e f d n) = place_swap e.1 f.1 (sort (values d)) n
sort-Shuffle (then_more s t) = sort-Shuffle s ∙ sort-Shuffle t

-- Each port is at most the one after it.
pub IsSorted : List ProxyStats → Type 0
IsSorted [] = Unit
IsSorted (a ∷ []) = Unit
IsSorted (a ∷ b ∷ stats) = (a.port ≤ b.port) × IsSorted (b ∷ stats)

place-IsSorted :
    (a : ProxyStats) (stats : List ProxyStats) → IsSorted stats → IsSorted (place a stats)
unfolding IsSorted place
place-IsSorted a [] h = tt
place-IsSorted a (b ∷ []) h = elim (Bool-cases (ltb b.port a.port)) [
  | inl e ↦ rw e (ground arith, tt)
  | inr e ↦ rw e (ground arith, tt)
]
place-IsSorted a (b ∷ c ∷ stats) (le, h) =
    let rest = place-IsSorted a (c ∷ stats) h in
    elim (Bool-cases (ltb b.port a.port)) [
      | inr e ↦ rw e (ground arith, (le, h))
      | inl e ↦ elim (Bool-cases (ltb c.port a.port)) [
        | inl f ↦ rw (e, f) (le, rw f at rest)
        | inr f ↦ rw (e, f) (ground arith, rw f at rest)
      ]
    ]

sort-IsSorted : (stats : List ProxyStats) → IsSorted (sort stats)
unfolding sort
sort-IsSorted [] = unfold IsSorted in tt
sort-IsSorted (a ∷ stats) = place-IsSorted a (sort stats) (sort-IsSorted stats)

place-Elem :
    (x a : ProxyStats) (stats : List ProxyStats) → Elem x (place a stats) ↔ ((x ≡ a) ⊎ Elem x stats)
unfolding place
place-Elem x a [] = (λ h. h, λ h. h)
place-Elem x a (b ∷ stats) = elim (Bool-cases (ltb b.port a.port)) [
  | inl e ↦ rw e (ground (arith, place-Elem x a stats))
  | inr e ↦ rw e (λ h. h, λ h. h)
]

sort-Elem : (x : ProxyStats) (stats : List ProxyStats) → Elem x (sort stats) ↔ Elem x stats
unfolding sort
sort-Elem x [] = (λ h. h, λ h. h)
sort-Elem x (a ∷ stats) = ground (arith, place-Elem x a (sort stats), sort-Elem x stats)

length-place :
    (a : ProxyStats) (stats : List ProxyStats) → length (place a stats) ≡ suc (length stats)
unfolding place
length-place a [] = refl
length-place a (b ∷ stats) = elim (Bool-cases (ltb b.port a.port)) [
  | inl e ↦ rw e (ap suc (length-place a stats))
  | inr e ↦ rw e refl
]

length-sort : (stats : List ProxyStats) → length (sort stats) ≡ length stats
unfolding sort
length-sort [] = refl
length-sort (a ∷ stats) = length-place a (sort stats) ∙ ap suc (length-sort stats)

values-Elem :
    (x : ProxyStats) (d : Dict ℕ ProxyStats) → Elem x (values d) ↔ ((port : ℕ) × Elem (port, x) d)
values-Elem x [] = (λ h. absurd h, λ (port, h). absurd h)
values-Elem x ((p, y) ∷ d) =
    let (there, back) = values-Elem x d in
    (
      λ h. elim h [
        | inl e ↦ (p, inl (ap (λ z. (p, z)) e))
        | inr later ↦ let (port, at) = there later in (port, inr at)
      ],
      λ (port, h). elim h [
        | inl e ↦ inl (ap (λ (z : ℕ × ProxyStats). z.1) e)
        | inr later ↦ inr (back (port, later))
      ],
    )

length-values : (d : Dict ℕ ProxyStats) → length (values d) ≡ length d
length-values [] = refl
length-values (e ∷ d) = ap suc (length-values d)

-- The snapshot lists the endpoints of the collector and no others, as many as there are, by their
-- ports, and does not depend on the order in which the map of the endpoints is read. The endpoints
-- in another place have to have different ports.
pub get_snapshot-endpoint_stats :
    (sc sc' : StatsCollector) (tokens : Option TokenManager)
    → Shuffle sc.endpoint_stats sc'.endpoint_stats
    → IsSorted (get_snapshot sc tokens).endpoint_stats
      × ((x : ProxyStats)
          → Elem x (get_snapshot sc tokens).endpoint_stats
            ↔ ((port : ℕ) × Elem (port, x) sc.endpoint_stats))
      × (length (get_snapshot sc tokens).endpoint_stats ≡ length sc.endpoint_stats)
      × ((get_snapshot sc tokens).endpoint_stats ≡ (get_snapshot sc' tokens).endpoint_stats)
unfolding get_snapshot
get_snapshot-endpoint_stats sc sc' tokens s =
    let stats = values sc.endpoint_stats in
    (
      sort-IsSorted stats,
      λ x.
          let (there, back) = sort-Elem x stats in
          let (found, held) = values-Elem x sc.endpoint_stats in
          (λ h. found (there h), λ h. back (held h)),
      length-sort stats ∙ length-values sc.endpoint_stats,
      sort-Shuffle s,
    )
