-- ===== src/Fleet/Client/Launch.antt =====
-- GetFleet: the launch paths of the runtime configuration, each once.
use amazon_gamelift_toolkit.Base.{
  ◌≡◌, refl, ap, subst, ◌↔◌, ◌⊎◌, inl, inr, true, List, [], ◌∷◌, ◌++◌, Option, none, some, arith,
  if◌then◌else◌, Bool-cases,
}
use amazon_gamelift_toolkit.Base.Eq.{bytes_beq_iff}
use amazon_gamelift_toolkit.Base.Elem.{
  Elem, NoRepeats, NoRepeats-snoc, Elem-append, Elem-append_left, Elem-append_right,
}
use amazon_gamelift_toolkit.Base.Result.{Result, ok, err, panic, ◌>>=◌}
use amazon_gamelift_toolkit.Go.Text.{Bytes}
use amazon_gamelift_toolkit.Fleet.{OperatingSystem, FleetError, ServiceError}
use amazon_gamelift_toolkit.Fleet.Client.{
  Fleet, Service, contains, add_path, for_each, first_os, get_fleet, wrapped,
}

contains_iff : (values : List Bytes) (a : Bytes) → (contains values a ≡ true) ↔ Elem a values
unfolding contains
contains_iff [] a = ground arith
contains_iff (v ∷ values) a = ground (arith, bytes_beq_iff v a, contains_iff values a)

-- What the paths of a fleet are: the launch paths of its processes, without repeats.
pub record HasPaths (launch : List (Option Bytes)) (before paths : List Bytes) : Type 0 where
  pub distinct : NoRepeats paths
  pub sound : (a : Bytes) → Elem a paths → Elem a before ⊎ Elem (some a) launch
  pub kept : (a : Bytes) → Elem a before → Elem a paths
  pub complete : (a : Bytes) → Elem (some a) launch → Elem a paths

abbrev added : List Bytes → Bytes → List Bytes
added before a = if contains before a then before else before ++ a ∷ []

added-NoRepeats : (before : List Bytes) (a : Bytes) → NoRepeats before → NoRepeats (added before a)
added-NoRepeats before a h = elim (Bool-cases (contains before a)) [
  | inl e ↦ rw e h
  | inr e ↦ rw e (NoRepeats-snoc before a h (λ m. ground (arith, contains_iff before a)))
]

added-Elem :
    (before : List Bytes) (a b : Bytes) → Elem b (added before a) ↔ (Elem b before ⊎ (b ≡ a))
added-Elem before a b = elim (Bool-cases (contains before a)) [
  | inl e ↦ rw e (inl, λ h. elim h [ inl m ↦ m | inr q ↦ rw q ((contains_iff before a).0 e) ])
  | inr e ↦ rw e (
    λ h. elim (Elem-append b before (a ∷ []) h) [
      | inl m ↦ inl m
      | inr (inl q) ↦ inr q
      | inr (inr f) ↦ elim f [ ]
    ],
    λ h. elim h [
      | inl m ↦ Elem-append_left b before (a ∷ []) m
      | inr q ↦ Elem-append_right b before (a ∷ []) (inl q)
    ],
  )
]

for_each-HasPaths :
    (launch : List (Option Bytes)) (before paths : List Bytes)
    → NoRepeats before
    → for_each add_path before launch ≡ ok paths
    → HasPaths launch before paths
unfolding for_each add_path
for_each-HasPaths [] before paths h e =
    let q : before ≡ paths = ground arith in
    subst (λ p. HasPaths [] before p) q
      (record { distinct = h; sound = λ a m. inl m; kept = λ a m. m; complete = λ a m. elim m [ ] })
for_each-HasPaths (none ∷ launch) before paths h e = absurd (ground arith)
for_each-HasPaths (some a ∷ launch) before paths h e =
    let r = for_each-HasPaths launch (added before a) paths (added-NoRepeats before a h) e in
    record {
      distinct = r.distinct;
      sound = λ b m. elim (r.sound b m) [
        | inr l ↦ inr (inr l)
        | inl l ↦ elim ((added-Elem before a b).0 l) [
          | inl k ↦ inl k
          | inr q ↦ inr (inl (ap some q))
        ]
      ];
      kept = λ b m. r.kept b ((added-Elem before a b).1 (inl m));
      complete = λ b m. elim m [
        | inl q ↦ r.kept b ((added-Elem before a b).1 (inr (ground arith)))
        | inr k ↦ r.complete b k
      ];
    }

-- If GetFleet succeeds, then the fleet has the given id, and its paths are the launch paths of
-- the runtime configuration that the service answers, without repeats.
pub get_fleet-HasPaths :
    (service : Service) (id : Bytes) (fleet : Fleet)
    → get_fleet service id ≡ ok fleet
    → (fleet.fleet ≡ id)
      × ((launch : List (Option Bytes)) × (service.describe_runtime_configuration id ≡ ok launch)
          × HasPaths launch [] fleet.executable_paths)
unfolding get_fleet
get_fleet-HasPaths service id fleet h =
    at_os (wrapped (service.describe_fleet_attributes id) >>= first_os id) h
  where
    at_paths :
        (os : OperatingSystem) (launch : List (Option Bytes)) (r : Result FleetError (List Bytes))
        → for_each add_path [] launch ≡ r
        → (r >>= (λ paths.
            ok (record { fleet = id; operating_system = os; executable_paths = paths })))
          ≡ ok fleet
        → (fleet.fleet ≡ id) × HasPaths launch [] fleet.executable_paths
    at_paths os launch (ok paths) e q =
        let p : Fleet = record { fleet = id; operating_system = os; executable_paths = paths } in
        let g : p ≡ fleet = ground arith in
        subst (λ (f : Fleet). (f.fleet ≡ id) × HasPaths launch [] f.executable_paths) g
          (refl, for_each-HasPaths launch [] paths tt e)
    at_paths os launch (err x) e q = absurd (ground arith)
    at_paths os launch panic e q = absurd (ground arith)

    at_launch :
        (os : OperatingSystem) (r : Result ServiceError (List (Option Bytes)))
        → (wrapped r >>= for_each add_path [] >>= (λ paths.
            ok (record { fleet = id; operating_system = os; executable_paths = paths })))
          ≡ ok fleet
        → (fleet.fleet ≡ id)
          × ((launch : List (Option Bytes)) × (r ≡ ok launch)
              × HasPaths launch [] fleet.executable_paths)
    at_launch os (ok launch) q =
        let p = at_paths os launch (for_each add_path [] launch) refl q in
        (p.0, (launch, refl, p.1))
    at_launch os (err x) q = absurd (ground arith)
    at_launch os panic q = absurd (ground arith)

    at_os :
        (r : Result FleetError OperatingSystem)
        → (r >>= (λ os.
            wrapped (service.describe_runtime_configuration id)
            >>= for_each add_path []
            >>= (λ paths.
                ok (record { fleet = id; operating_system = os; executable_paths = paths }))))
          ≡ ok fleet
        → (fleet.fleet ≡ id)
          × ((launch : List (Option Bytes)) × (service.describe_runtime_configuration id
                ≡ ok launch)
              × HasPaths launch [] fleet.executable_paths)
    at_os (ok os) q = at_launch os (service.describe_runtime_configuration id) q
    at_os (err x) q = absurd (ground arith)
    at_os panic q = absurd (ground arith)
