-- ===== src/Common/PortSearch.antt =====
-- FindAvailablePortRange returns the first range that fits.
use amazon_gamelift_toolkit.Base.{
  ℕ, zero, suc, ◌+◌, ◌≤◌, ◌<◌, ◌≡◌, ◌≢◌, refl, ap, ◌∙◌, ◌⊎◌, inl, inr, Bool, true, some, arith,
  Bool-cases, Option-cases,
}
use amazon_gamelift_toolkit.Base.Result.{ok, err}
use native.Mathlib.Nat.{add-zero}
use amazon_gamelift_toolkit.Common.{
  all_available, search_from, find_available_port_range, no_available_range,
}

-- The ports from `start` to `start + count - 1` are below the limit and can be bound.
abbrev pub IsFree : (ℕ → Bool) → ℕ → ℕ → ℕ → Type 0
IsFree available count limit start =
    (start + count ≤ limit + 1) × ((i : ℕ) → i < count → available (start + i) ≡ true)

all_available_sound :
    (available : ℕ → Bool) (port count : ℕ)
    → all_available available port count ≡ true
    → (i : ℕ) → i < count
    → available (port + i) ≡ true
unfolding all_available
all_available_sound available port zero h i lt = elim lt [ ]
all_available_sound available port (suc count) h zero lt = rw (add-zero port) (ground arith)
all_available_sound available port (suc count) h (suc i) lt =
    ap available (omega arith)
    ∙ all_available_sound available (suc port) count (ground arith) i (omega arith)

all_available_complete :
    (available : ℕ → Bool) (port count : ℕ)
    → ((i : ℕ) → i < count → available (port + i) ≡ true)
    → all_available available port count ≡ true
unfolding all_available
all_available_complete available port zero h = refl
all_available_complete available port (suc count) h =
    let first : available port ≡ true = ap available (omega arith) ∙ h 0 (omega arith) in
    rw first (
      all_available_complete available (suc port) count
        (λ i lt. ap available (omega arith) ∙ h (suc i) (omega arith)))

search_from_sound :
    (available : ℕ → Bool) (rounds start count limit : ℕ) {found : ℕ}
    → search_from available rounds start count limit ≡ some found
    → (start ≤ found) × (found + count ≤ limit + 1) × (all_available available found count ≡ true)
unfolding search_from
search_from_sound available zero start count limit h = absurd (cc)
search_from_sound available (suc rounds) start count limit {found} h =
    ground (arith, search_from_sound available rounds (suc start) count limit {found = found})

search_from_complete :
    (available : ℕ → Bool) (rounds start count limit fit : ℕ)
    → start ≤ fit
    → fit + count ≤ limit + 1
    → all_available available fit count ≡ true
    → fit < start + rounds
    → (found : ℕ) × (search_from available rounds start count limit ≡ some found) × (found ≤ fit)
unfolding search_from
search_from_complete available zero start count limit fit le in_limit free enough =
    absurd (omega arith)
search_from_complete available (suc rounds) start count limit fit le in_limit free enough =
    elim (Bool-cases (all_available available start count)) [
      | inl here ↦ (start, ground arith, le)
      | inr busy ↦
          let apart : start ≢ fit =
            λ e. absurd (cc (ap (λ z. all_available available z count) e)) in
          let (found, at, first) =
            search_from_complete available rounds (suc start) count limit fit (omega arith) in_limit
              free (omega arith) in
          (found, ground arith, first)
    ]

-- The search returns a start exactly if some range from `start` on is free and below the limit, and
-- then the first such start. (A range of no ports is always free.)
pub find_available_port_range_first :
    (available : ℕ → Bool) (start count limit : ℕ)
    → ((found : ℕ) × (find_available_port_range available start count limit ≡ ok found)
        × (start ≤ found)
        × IsFree available count limit found
        × ((earlier : ℕ)
            → start ≤ earlier
            → earlier < found
            → ¬ IsFree available count limit earlier))
      ⊎ ((find_available_port_range available start count limit ≡ err no_available_range)
          × ((s : ℕ) → start ≤ s → ¬ IsFree available count limit s))
unfolding find_available_port_range
find_available_port_range_first available start count limit =
    elim (Option-cases (search_from available (limit + 2) start count limit)) [
      | inr (found, e) ↦
          let (le, in_limit, free) = search_from_sound available (limit + 2) start count limit e in
          inl (
            found,
            ground arith,
            le,
            (in_limit, all_available_sound available found count free),
            λ s low high (fits, all_free).
                let (first, at, bound) =
                  search_from_complete available (limit + 2) start count limit s low fits
                    (all_available_complete available s count all_free) (omega arith) in
                let same : first ≡ found = ground arith in absurd (omega arith),
          )
      | inl e ↦ inr (
        ground arith,
        λ s low (fits, all_free).
            let (first, at, bound) =
              search_from_complete available (limit + 2) start count limit s low fits
                (all_available_complete available s count all_free) (omega arith) in
            ground arith,
      )
    ]
