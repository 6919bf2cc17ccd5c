-- ===== src/Proxy/ServerSide/View.antt =====
-- The handler without its pointers: for each player the sources with their timestamps, in order of
-- arrival.
use amazon_gamelift_toolkit.Base.{
  ℕ, zero, suc, ◌<◌, ◌≡◌, ◌≢◌, refl, ap, inl, inr, List, [], ◌∷◌, ◌++◌, none, some, arith, length,
  get_elem?, ◌==◌, if◌then◌else◌, Bool-cases, Option-cases,
}
use amazon_gamelift_toolkit.Base.Int.{ℤ}
use amazon_gamelift_toolkit.Base.Elem.{Elem, NoRepeats}
use amazon_gamelift_toolkit.Go.Text.{All}
use amazon_gamelift_toolkit.Proxy.{UdpAddr, udp_addr_beq, udp_addr_beq_iff}
use amazon_gamelift_toolkit.Proxy.ServerSide.{
  ClientSideProxyInfo, ServerSideProxyTrafficHandler, sources_of, find_client_info, stamp, touch,
}

-- What a list of pointers points to.
abbrev pub view_of : List ClientSideProxyInfo → List ℕ → List ClientSideProxyInfo
view_of infos [] = []
view_of infos (ptr ∷ sources) = elim (get_elem? infos ptr) [
  | none ↦ view_of infos sources
  | some info ↦ info ∷ view_of infos sources
]

abbrev pub view : ServerSideProxyTrafficHandler → ℤ → List ClientSideProxyInfo
view h player = view_of h.infos (sources_of h player)

-- A packet from an address: its entry gets the new time, or a new entry is put behind the others.
unfoldable pub seen : UdpAddr → ℕ → List ClientSideProxyInfo → List ClientSideProxyInfo
seen a now [] = record { source_addr = a; last_received_timestamp = now } ∷ []
seen a now (info ∷ infos) =
    if udp_addr_beq info.source_addr a then touch now info ∷ infos else info ∷ seen a now infos

abbrev pub InRange : List ClientSideProxyInfo → List ℕ → Type 0
InRange infos = All (λ ptr. ptr < length infos)

get_elem?-append {ℓ} :
    {A : Type ℓ} (xs ys : List A) (i : ℕ) → i < length xs → get_elem? (xs ++ ys) i ≡ get_elem? xs i
get_elem?-append [] ys i h = elim h [ ]
get_elem?-append (x ∷ xs) ys zero h = refl
get_elem?-append (x ∷ xs) ys (suc i) h = get_elem?-append xs ys i (omega arith)

pub get_elem?-length {ℓ} :
    {A : Type ℓ} (xs : List A) (x : A) → get_elem? (xs ++ x ∷ []) (length xs) ≡ some x
get_elem?-length [] x = refl
get_elem?-length (y ∷ xs) x = get_elem?-length xs x

pub view_of-extend :
    (infos new : List ClientSideProxyInfo) (sources : List ℕ)
    → InRange infos sources
    → view_of (infos ++ new) sources ≡ view_of infos sources
view_of-extend infos new [] h = refl
view_of-extend infos new (ptr ∷ sources) (h, hs) =
    ground (arith, get_elem?-append infos new ptr h, view_of-extend infos new sources hs)

pub view_of-snoc :
    (infos : List ClientSideProxyInfo) (sources : List ℕ) (ptr : ℕ) (info : ClientSideProxyInfo)
    → get_elem? infos ptr ≡ some info
    → view_of infos (sources ++ ptr ∷ []) ≡ view_of infos sources ++ info ∷ []
view_of-snoc infos [] ptr info h = ground arith
view_of-snoc infos (p ∷ sources) ptr info h = ground (arith, view_of-snoc infos sources ptr info h)

pub get_elem?-stamp :
    (infos : List ClientSideProxyInfo) (ptr i now : ℕ) (info : ClientSideProxyInfo)
    → get_elem? infos ptr ≡ some info
    → get_elem? (stamp infos ptr now) i
      ≡ (if ptr == i then some (touch now info) else get_elem? infos i)
unfolding stamp
get_elem?-stamp [] ptr i now info h = absurd (cc)
get_elem?-stamp (x ∷ infos) zero zero now info h = ground arith
get_elem?-stamp (x ∷ infos) zero (suc i) now info h = ground arith
get_elem?-stamp (x ∷ infos) (suc ptr) zero now info h = ground arith
get_elem?-stamp (x ∷ infos) (suc ptr) (suc i) now info h =
    ground (arith, get_elem?-stamp infos ptr i now info h)

pub length-stamp :
    (infos : List ClientSideProxyInfo) (ptr now : ℕ) → length (stamp infos ptr now) ≡ length infos
unfolding stamp
length-stamp [] ptr now = refl
length-stamp (x ∷ infos) zero now = refl
length-stamp (x ∷ infos) (suc ptr) now = ap suc (length-stamp infos ptr now)

-- A write through a pointer is not seen by those who do not hold it.
pub view_of-stamp_other :
    (infos : List ClientSideProxyInfo) (sources : List ℕ) (ptr now : ℕ) (info : ClientSideProxyInfo)
    → get_elem? infos ptr ≡ some info
    → ¬ Elem ptr sources
    → view_of (stamp infos ptr now) sources ≡ view_of infos sources
view_of-stamp_other infos [] ptr now info h n = refl
view_of-stamp_other infos (p ∷ sources) ptr now info h n =
    let ne : ptr ≢ p = λ e. n (inl e) in
    ground (
      arith,
      get_elem?-stamp infos ptr p now info h,
      view_of-stamp_other infos sources ptr now info h (λ e. n (inr e)),
    )

pub find_client_info-some :
    (infos : List ClientSideProxyInfo) (sources : List ℕ) (a : UdpAddr) {ptr : ℕ}
    → find_client_info infos sources a ≡ some ptr
    → Elem ptr sources
      × (info : ClientSideProxyInfo) × (get_elem? infos ptr ≡ some info)
      × (info.source_addr ≡ a)
unfolding find_client_info
find_client_info-some infos [] a h = absurd (cc)
find_client_info-some infos (p ∷ sources) a {ptr} h = elim (Option-cases (get_elem? infos p)) [
  | inl e ↦
      let (m, info, at, is) = find_client_info-some infos sources a {ptr = ptr} (ground arith) in
      (inr m, info, at, is)
  | inr (info, e) ↦ elim (Bool-cases (udp_addr_beq info.source_addr a)) [
    | inl hit ↦
        let here : ptr ≡ p = ground arith in
        (inl here, info, rw here e, (udp_addr_beq_iff info.source_addr a).0 hit)
    | inr miss ↦
        let (m, found, at, is) = find_client_info-some infos sources a {ptr = ptr} (ground arith) in
        (inr m, found, at, is)
  ]
]

-- A packet from a known source: its time is written through the pointer that the search finds.
pub view_of-stamp :
    (infos : List ClientSideProxyInfo) (sources : List ℕ) (a : UdpAddr) (ptr now : ℕ)
    → NoRepeats sources
    → find_client_info infos sources a ≡ some ptr
    → view_of (stamp infos ptr now) sources ≡ seen a now (view_of infos sources)
unfolding find_client_info seen
view_of-stamp infos [] a ptr now d h = absurd (cc)
view_of-stamp infos (p ∷ sources) a ptr now (dp, ds) h =
    let (m, info, at, is) =
      find_client_info-some infos (p ∷ sources) a {ptr = ptr} (unfold find_client_info in h) in
    elim (Option-cases (get_elem? infos p)) [
      | inl e ↦ ground (
        arith,
        get_elem?-stamp infos ptr p now info at,
        view_of-stamp infos sources a ptr now ds (ground arith),
      )
      | inr (i, e) ↦ elim (Bool-cases (udp_addr_beq i.source_addr a)) [
        | inl hit ↦
            let here : ptr ≡ p = ground arith in
            ground (
              arith,
              get_elem?-stamp infos ptr p now info at,
              view_of-stamp_other infos sources ptr now info at (rw here dp),
            )
        | inr miss ↦
            let apart : ptr ≢ p = λ q. ground (arith, udp_addr_beq_iff i.source_addr a) in
            ground (
              arith,
              get_elem?-stamp infos ptr p now info at,
              view_of-stamp infos sources a ptr now ds (ground arith),
            )
      ]
    ]

-- A packet from an unknown source goes behind the others.
pub seen-none :
    (infos : List ClientSideProxyInfo) (sources : List ℕ) (a : UdpAddr) (now : ℕ)
    → find_client_info infos sources a ≡ none
    → seen a now (view_of infos sources)
      ≡ view_of infos sources ++ record { source_addr = a; last_received_timestamp = now } ∷ []
unfolding find_client_info seen
seen-none infos [] a now h = refl
seen-none infos (p ∷ sources) a now h = ground (arith, seen-none infos sources a now)
