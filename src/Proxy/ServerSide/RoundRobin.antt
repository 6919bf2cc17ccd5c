-- ===== src/Proxy/ServerSide/RoundRobin.antt =====
-- HandleClientBoundTraffic: where the packets of the game server go, and when the round robin
-- panics.
use amazon_gamelift_toolkit.Base.{
  ℕ, zero, suc, ◌+◌, ◌≤◌, ◌<◌, ◌≡◌, refl, sym, ap, subst, ◌∙◌, inl, inr, ◌↔◌, Bool, true, false,
  List, [], ◌∷◌, Option, none, some, arith, ltb, length, get_elem?, get_elem?-some, if◌then◌else◌,
  Bool-cases, Option-cases,
}
use amazon_gamelift_toolkit.Base.Int.{ℤ}
use amazon_gamelift_toolkit.Base.Eq.{int_eq}
use amazon_gamelift_toolkit.Base.Result.{Result, ok, panic}
use amazon_gamelift_toolkit.Base.Dict.{lookup}
use amazon_gamelift_toolkit.Base.Elem.{Elem}
use amazon_gamelift_toolkit.Token.{TokenError}
use amazon_gamelift_toolkit.Proxy.{UdpAddr}
use amazon_gamelift_toolkit.Proxy.ServerSide.{
  ClientSideProxyInfo, ServerSideProxyTrafficHandler, or_zero, or_last, sources_of, targets_of,
  is_active, is_stale, filter_active_sources, send_round_robin, handle_client_bound_traffic,
}
use amazon_gamelift_toolkit.Proxy.ServerSide.Invariant.{IsLinked, Elem-InRange}

-- The player has been heard of within 60 seconds, in nanoseconds, last through the source `last_used`.
pub record IsFresh (h : ServerSideProxyTrafficHandler) (now : ℕ) (p : ℤ) (last_used : ℕ)
    : Type 0 where
  pub info : ClientSideProxyInfo
  pub known : lookup p h.last_used_source ≡ some last_used
  pub is_at : get_elem? h.infos last_used ≡ some info
  pub recent : now < info.last_received_timestamp + 60000000000

-- The code's test agrees with the 60 seconds.
recent_iff :
    (now : ℕ) (info : ClientSideProxyInfo)
    → (is_stale now (some info) ≡ false) ↔ (now < info.last_received_timestamp + 60000000000)
recent_iff now info = ground arith

abbrev pub index_of : ServerSideProxyTrafficHandler → ℤ → ℕ
index_of h p = or_zero (lookup p h.next_source_index)

pub handle_fresh :
    (h : ServerSideProxyTrafficHandler) (now : ℕ) (p : ℤ) (last_used : ℕ)
    → IsFresh h now p last_used
    → handle_client_bound_traffic h now (some p)
      ≡ send_round_robin h p (targets_of h now p last_used)
unfolding handle_client_bound_traffic
handle_fresh h now p last_used f =
    ground (arith, f.known, f.is_at, (recent_iff now f.info).1 f.recent)

filtered_Elem :
    (infos : List ClientSideProxyInfo) (now : ℕ) (sources : List ℕ) (x : ℕ)
    → Elem x (filter_active_sources infos now sources)
    → Elem x sources
unfolding filter_active_sources
filtered_Elem infos now [] x e = e
filtered_Elem infos now (ptr ∷ sources) x e =
    keep (is_active now (get_elem? infos ptr)) (filtered_Elem infos now sources x) e
  where
    keep :
        (b : Bool)
        → (Elem x (filter_active_sources infos now sources) → Elem x sources)
        → Elem x (
            if b
            then ptr ∷ filter_active_sources infos now sources
            else filter_active_sources infos now sources)
        → Elem x (ptr ∷ sources)
    keep true f (inl e) = inl e
    keep true f (inr e) = inr (f e)
    keep false f e = inr (f e)

get_elem?-Elem : (xs : List ℕ) (i x : ℕ) → get_elem? xs i ≡ some x → Elem x xs
get_elem?-Elem [] i x h = absurd (cc)
get_elem?-Elem (y ∷ xs) zero x h = inl (cc)
get_elem?-Elem (y ∷ xs) (suc i) x h = inr (get_elem?-Elem xs i x h)

or_last-Elem :
    (last_used : ℕ) (active sources : List ℕ) (x : ℕ)
    → Elem last_used sources
    → ((y : ℕ) → Elem y active → Elem y sources)
    → Elem x (or_last last_used active)
    → Elem x sources
or_last-Elem last_used [] sources x l f (inl e) = subst (λ z. Elem z sources) (sym e) l
or_last-Elem last_used [] sources x l f (inr e) = absurd e
or_last-Elem last_used (a ∷ active) sources x l f e = f x e

-- Every target is a source of the player.
targets_Elem :
    (h : ServerSideProxyTrafficHandler) (now : ℕ) (p : ℤ) (last_used x : ℕ)
    → IsLinked h
    → lookup p h.last_used_source ≡ some last_used
    → Elem x (targets_of h now p last_used)
    → Elem x (sources_of h p)
targets_Elem h now p last_used x v known =
    or_last-Elem last_used (filter_active_sources h.infos now (sources_of h p)) (sources_of h p) x
      (v.last_known p last_used known) (λ y. filtered_Elem h.infos now (sources_of h p) y)

addr_of_target :
    (h : ServerSideProxyTrafficHandler) (now : ℕ) (p : ℤ) (last_used idx : ℕ)
    → IsLinked h
    → lookup p h.last_used_source ≡ some last_used
    → idx < length (targets_of h now p last_used)
    → (x : ℕ) × (info : ClientSideProxyInfo) × (get_elem? (targets_of h now p last_used) idx
        ≡ some x)
      × (Elem x (sources_of h p))
      × (get_elem? h.infos x ≡ some info)
addr_of_target h now p last_used idx v known lt =
    let (x, at) = get_elem?-some (targets_of h now p last_used) idx lt in
    let m =
      targets_Elem h now p last_used x v known
        (get_elem?-Elem (targets_of h now p last_used) idx x at) in
    let (info, here) =
      get_elem?-some h.infos x (Elem-InRange h.infos (sources_of h p) x (v.in_range p) m) in
    (x, info, at, m, here)

out_of_range {ℓ} : {A : Type ℓ} (xs : List A) (i : ℕ) → length xs ≤ i → get_elem? xs i ≡ none
out_of_range [] i h = refl
out_of_range (x ∷ xs) zero h = absurd (omega arith)
out_of_range (x ∷ xs) (suc i) h = out_of_range xs i (omega arith)

-- While the pointers are linked and a player is heard of, HandleClientBoundTraffic panics exactly when the stored round robin
-- index is not below the number of targets, which is the number of sources that are active now, or
-- one if none is. Nothing lowers the index when sources fall silent.
pub handle_client_bound_traffic-panic_iff :
    (h : ServerSideProxyTrafficHandler) (now : ℕ) (p : ℤ) (last_used : ℕ)
    → IsLinked h
    → IsFresh h now p last_used
    → ((handle_client_bound_traffic h now (some p)).1 ≡ panic)
      ↔ (length (targets_of h now p last_used) ≤ index_of h p)
handle_client_bound_traffic-panic_iff h now p last_used v f = (
  λ e. panics e,
  λ le. rw (handle_fresh h now p last_used f) (
      unfold send_round_robin in
      rw (out_of_range (targets_of h now p last_used) (index_of h p) le)),
)
  where
    panics :
        (handle_client_bound_traffic h now (some p)).1 ≡ panic
        → length (targets_of h now p last_used) ≤ index_of h p
    panics e = elim (Bool-cases (ltb (index_of h p) (length (targets_of h now p last_used)))) [
      | inl lt ↦
          let (x, info, at, _, here) =
            addr_of_target h now p last_used (index_of h p) v f.known (ground arith) in
          let sent =
            ap (λ (z : ServerSideProxyTrafficHandler × Result TokenError (Option UdpAddr)). z.1)
              (sym (handle_fresh h now p last_used f))
            ∙ e in
          absurd (unfold send_round_robin in ground arith)
      | inr ge ↦ ground arith
    ]

-- While the pointers are linked, a packet is only ever sent to the address of one of the sources of
-- its player, and only to a player who has been heard of within 60 seconds.
pub handle_client_bound_traffic_sends_to_source :
    (h : ServerSideProxyTrafficHandler) (now : ℕ) (p : ℤ) (a : UdpAddr)
    → IsLinked h
    → (handle_client_bound_traffic h now (some p)).1 ≡ ok (some a)
    → ((last_used : ℕ) × IsFresh h now p last_used)
      × (ptr : ℕ) × (info : ClientSideProxyInfo) × (Elem ptr (sources_of h p))
      × (get_elem? h.infos ptr ≡ some info)
      × (info.source_addr ≡ a)
handle_client_bound_traffic_sends_to_source h now p a v e =
    let (last_used, f) = fresh_of h now p a e in
    let sent =
      ap (λ (z : ServerSideProxyTrafficHandler × Result TokenError (Option UdpAddr)). z.1)
        (sym (handle_fresh h now p last_used f))
      ∙ e in
    let lt : index_of h p < length (targets_of h now p last_used) =
      in_bounds h p (targets_of h now p last_used) a sent in
    let (x, info, at, m, here) = addr_of_target h now p last_used (index_of h p) v f.known lt in
    ((last_used, f), x, info, m, here, unfold send_round_robin in ground arith)
  where
    fresh_of :
        (h : ServerSideProxyTrafficHandler) (now : ℕ) (p : ℤ) (a : UdpAddr)
        → (handle_client_bound_traffic h now (some p)).1 ≡ ok (some a)
        → (last_used : ℕ) × IsFresh h now p last_used
    fresh_of h now p a e = elim (Option-cases (lookup p h.last_used_source)) [
      | inl n ↦ absurd (unfold handle_client_bound_traffic in ground arith)
      | inr (last_used, known) ↦ elim (Bool-cases (is_stale now (get_elem? h.infos last_used))) [
        | inl stale ↦ absurd (unfold handle_client_bound_traffic in ground arith)
        | inr recent ↦ elim (Option-cases (get_elem? h.infos last_used)) [
          | inl lost ↦ absurd (ground arith)
          | inr (info, at) ↦ (
            last_used,
            record {
              info = info;
              known = known;
              is_at = at;
              recent = (recent_iff now info).0 (rw at at recent);
            },
          )
        ]
      ]
    ]

    in_bounds :
        (h : ServerSideProxyTrafficHandler) (p : ℤ) (targets : List ℕ) (a : UdpAddr)
        → (send_round_robin h p targets).1 ≡ ok (some a)
        → index_of h p < length targets
    in_bounds h p targets a e = elim (Bool-cases (ltb (index_of h p) (length targets))) [
      | inl lt ↦ ground arith
      | inr ge ↦
          absurd (unfold send_round_robin in ground (arith, out_of_range targets (index_of h p)))
    ]
