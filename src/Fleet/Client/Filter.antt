-- ===== src/Fleet/Client/Filter.antt =====
-- filterInstances against its plain reading.
use amazon_gamelift_toolkit.Base.{
  ℕ, ◌+◌, ◌≤◌, ◌≡◌, refl, sym, ◌↔◌, inl, inr, Bool, true, false, List, [], ◌∷◌, map, arith, length,
  length-append, if◌then◌else◌, Bool-cases, ◌==◌,
}
use amazon_gamelift_toolkit.Base.Eq.{bytes_beq, bytes_beq_iff}
use amazon_gamelift_toolkit.Base.Elem.{Elem, NoRepeats}
use amazon_gamelift_toolkit.Base.Result.{Result, ok, err}
use amazon_gamelift_toolkit.Go.Text.{Bytes}
use amazon_gamelift_toolkit.Fleet.{FleetError, instances_not_found}
use amazon_gamelift_toolkit.Fleet.Client.{Instance, matches, all_matches, filter_instances}

-- The ids of instances.
abbrev pub ids : List Instance → List Bytes
ids = map (λ i. i.instance_id)

abbrev pub is_in : Bytes → List Bytes → Bool
is_in a [] = false
is_in a (x ∷ xs) = if bytes_beq a x then true else is_in a xs

-- The instances whose id is in a list, each once.
abbrev pub chosen : List Bytes → List Instance → List Instance
chosen allowed [] = []
chosen allowed (i ∷ instances) =
    if is_in i.instance_id allowed then i ∷ chosen allowed instances else chosen allowed instances

abbrev pub all_in : List Bytes → List Bytes → Bool
all_in [] known = true
all_in (a ∷ allowed) known = if is_in a known then all_in allowed known else false

-- The plain reading: all allowed ids are in the fleet, and then the result is their instances.
abbrev pub select_instances : List Instance → List Bytes → Result FleetError (List Instance)
select_instances instances [] = ok instances
select_instances instances (a ∷ allowed) =
    if all_in (a ∷ allowed) (ids instances)
    then ok (chosen (a ∷ allowed) instances)
    else err (instances_not_found (a ∷ allowed))

is_in_iff : (a : Bytes) (xs : List Bytes) → (is_in a xs ≡ true) ↔ Elem a xs
is_in_iff a [] = ground arith
is_in_iff a (x ∷ xs) = ground (arith, bytes_beq_iff a x, is_in_iff a xs)

-- How often an id occurs.
count : Bytes → List Bytes → ℕ
count a [] = 0
count a (x ∷ xs) = (if bytes_beq a x then 1 else 0) + count a xs

count_out : (a : Bytes) (xs : List Bytes) → is_in a xs ≡ false → count a xs ≡ 0
unfolding count
count_out a [] h = refl
count_out a (x ∷ xs) h = ground (arith, count_out a xs)

count_in : (a : Bytes) (xs : List Bytes) → is_in a xs ≡ true → 1 ≤ count a xs
unfolding count
count_in a [] h = absurd (ground arith)
count_in a (x ∷ xs) h = ground (arith, count_in a xs)

count_once : (a : Bytes) (xs : List Bytes) → NoRepeats xs → count a xs ≤ 1
unfolding count
count_once a [] h = omega arith
count_once a (x ∷ xs) (hx, hs) = ground (
  arith,
  bytes_beq_iff a x,
  is_in_iff a xs,
  is_in_iff x xs,
  count_out x xs,
  count_out a xs,
  count_once a xs hs,
)

length-matches :
    (i : Instance) (allowed : List Bytes) → length (matches i allowed) ≡ count i.instance_id allowed
unfolding count
length-matches i [] = refl
length-matches i (a ∷ allowed) = ground (arith, length-matches i allowed)

-- How many pairs of an instance and an allowed id agree.
hits : List Bytes → List Bytes → ℕ
hits known [] = 0
hits known (a ∷ allowed) = count a known + hits known allowed

hits_nil : (allowed : List Bytes) → hits [] allowed ≡ 0
unfolding hits count
hits_nil [] = refl
hits_nil (a ∷ allowed) = omega (arith, hits_nil allowed)

hits_cons :
    (x : Bytes) (known allowed : List Bytes)
    → hits (x ∷ known) allowed ≡ count x allowed + hits known allowed
unfolding hits count
hits_cons x known [] = refl
hits_cons x known (a ∷ allowed) =
    ground (arith, hits_cons x known allowed, bytes_beq_iff a x, bytes_beq_iff x a)

length-all_matches :
    (instances : List Instance) (allowed : List Bytes)
    → length (all_matches instances allowed) ≡ hits (ids instances) allowed
unfolding all_matches
length-all_matches [] allowed = sym (hits_nil allowed)
length-all_matches (i ∷ instances) allowed = rw (hits_cons i.instance_id (ids instances) allowed) (
    omega (
      arith,
      length-append (matches i allowed) (all_matches instances allowed),
      length-matches i allowed,
      length-all_matches instances allowed,
    ))

hits_bound : (known allowed : List Bytes) → NoRepeats known → hits known allowed ≤ length allowed
unfolding hits
hits_bound known [] h = omega arith
hits_bound known (a ∷ allowed) h = ground (arith, count_once a known h, hits_bound known allowed h)

-- All allowed ids are known exactly if every one of them is hit.
hits_all :
    (known allowed : List Bytes)
    → NoRepeats known
    → all_in allowed known ≡ (hits known allowed == length allowed)
unfolding hits
hits_all known [] h = refl
hits_all known (a ∷ allowed) h = ground (
  arith,
  count_once a known h,
  count_in a known,
  count_out a known,
  hits_bound known allowed h,
  hits_all known allowed h,
)

matches_out :
    (i : Instance) (allowed : List Bytes)
    → is_in i.instance_id allowed ≡ false
    → matches i allowed ≡ []
matches_out i [] h = refl
matches_out i (a ∷ allowed) h = ground (arith, matches_out i allowed)

matches_in :
    (i : Instance) (allowed : List Bytes)
    → NoRepeats allowed
    → is_in i.instance_id allowed ≡ true
    → matches i allowed ≡ i ∷ []
matches_in i [] h e = absurd (ground arith)
matches_in i (a ∷ allowed) (ha, hs) e = ground (
  arith,
  bytes_beq_iff i.instance_id a,
  is_in_iff a allowed,
  is_in_iff i.instance_id allowed,
  matches_out i allowed,
  matches_in i allowed hs,
)

all_matches-chosen :
    (instances : List Instance) (allowed : List Bytes)
    → NoRepeats allowed
    → all_matches instances allowed ≡ chosen allowed instances
unfolding all_matches
all_matches-chosen [] allowed h = refl
all_matches-chosen (i ∷ instances) allowed h = elim (Bool-cases (is_in i.instance_id allowed)) [
  | inl e ↦ rw (e, matches_in i allowed h e, all_matches-chosen instances allowed h) refl
  | inr e ↦ rw (e, matches_out i allowed e, all_matches-chosen instances allowed h) refl
]

-- If no two instances have the same id, and no id is allowed twice, filterInstances does what its
-- plain reading does: without allowed ids it returns all instances; otherwise it fails if an
-- allowed id is not in the fleet, and returns the instances with an allowed id, each once and in
-- the order of the fleet, if all are.
pub filter_instances-select_instances :
    (instances : List Instance) (allowed : List Bytes)
    → NoRepeats (ids instances)
    → NoRepeats allowed
    → filter_instances instances allowed ≡ select_instances instances allowed
unfolding filter_instances
filter_instances-select_instances instances [] h ha = refl
filter_instances-select_instances instances (a ∷ allowed) h ha =
    rw
      (
        all_matches-chosen instances (a ∷ allowed) ha,
        hits_all (ids instances) (a ∷ allowed) h,
        ← length-all_matches instances (a ∷ allowed),
        all_matches-chosen instances (a ∷ allowed) ha,
      )
      refl
