-- ===== src/Proxy/ServerSide/Invariant.antt =====
-- The pointers of the server-side handler: they are in range, no two players share one, and the
-- last used source of a player is one of the player's sources. Seen without pointers, a packet
-- updates one entry of one player.
use amazon_gamelift_toolkit.Base.{
  ℕ, ◌<◌, ◌≡◌, sym, subst, ◌∙◌, inl, inr, true, false, List, [], ◌∷◌, ◌++◌, Option, none, some,
  arith, length, get_elem?, if◌then◌else◌, Bool-cases, Option-cases,
}
use amazon_gamelift_toolkit.Base.Int.{ℤ}
use amazon_gamelift_toolkit.Base.Eq.{int_eq, int_beq, int_beq_iff}
use amazon_gamelift_toolkit.Base.Dict.{lookup, insert, lookup-insert, lookup-delete}
use amazon_gamelift_toolkit.Base.Elem.{Elem, NoRepeats}
use amazon_gamelift_toolkit.Proxy.{UdpAddr}
use amazon_gamelift_toolkit.Proxy.ServerSide.{
  ClientSideProxyInfo, ServerSideProxyTrafficHandler, sources_of, find_client_info, stamp,
  record_source, forget_player, send_round_robin, targets_of, is_stale, handle_client_bound_traffic,
  new_handler,
}
use amazon_gamelift_toolkit.Proxy.ServerSide.View.{InRange, length-stamp, find_client_info-some}

pub record IsLinked (h : ServerSideProxyTrafficHandler) : Type 0 where
  pub in_range : (p : ℤ) → InRange h.infos (sources_of h p)
  pub no_repeats : (p : ℤ) → NoRepeats (sources_of h p)
  pub unshared : (p q : ℤ) (ptr : ℕ) → Elem ptr (sources_of h p) → Elem ptr (sources_of h q) → p ≡ q
  pub last_known :
      (p : ℤ) (ptr : ℕ) → lookup p h.last_used_source ≡ some ptr → Elem ptr (sources_of h p)

pub Elem-InRange :
    (infos : List ClientSideProxyInfo) (sources : List ℕ) (ptr : ℕ)
    → InRange infos sources
    → Elem ptr sources
    → ptr < length infos
Elem-InRange infos [] ptr h e = elim e [ ]
Elem-InRange infos (p ∷ sources) ptr (h, hs) (inl e) = omega arith
Elem-InRange infos (p ∷ sources) ptr (h, hs) (inr e) = Elem-InRange infos sources ptr hs e

-- The two cases of `record_source`: a known source, and a new one.
abbrev pub known : ServerSideProxyTrafficHandler → ℕ → ℤ → ℕ → ServerSideProxyTrafficHandler
known h now player ptr = record h {
  infos = stamp h.infos ptr now;
  last_used_source = insert player ptr h.last_used_source;
}

abbrev pub added : ServerSideProxyTrafficHandler → ℕ → ℤ → UdpAddr → ServerSideProxyTrafficHandler
added h now player a = record h {
  infos = h.infos ++ record { source_addr = a; last_received_timestamp = now } ∷ [];
  client_side_proxy_sources =
      insert player (sources_of h player ++ length h.infos ∷ []) h.client_side_proxy_sources;
  last_used_source = insert player (length h.infos) h.last_used_source;
}

pub record_source_cases {ℓ} :
    (P : ServerSideProxyTrafficHandler → Type ℓ) (h : ServerSideProxyTrafficHandler) (now : ℕ)
    (p : ℤ) (a : UdpAddr)
    → ((ptr : ℕ) → find_client_info h.infos (sources_of h p) a ≡ some ptr → P (known h now p ptr))
    → (find_client_info h.infos (sources_of h p) a ≡ none → P (added h now p a))
    → P (record_source h now p a)
unfolding record_source
record_source_cases P h now p a f g =
    elim (Option-cases (find_client_info h.infos (sources_of h p) a)) [
      | inl e ↦ rw (e, record_source) (g e)
      | inr (ptr, e) ↦ rw (e, record_source) (f ptr e)
    ]

pub known-IsLinked :
    (h : ServerSideProxyTrafficHandler) (now : ℕ) (p : ℤ) (ptr : ℕ) (a : UdpAddr)
    → IsLinked h
    → find_client_info h.infos (sources_of h p) a ≡ some ptr
    → IsLinked (known h now p ptr)
known-IsLinked h now p ptr a v e = record {
  in_range = λ q. rw (length-stamp h.infos ptr now) (v.in_range q);
  no_repeats = v.no_repeats;
  unshared = v.unshared;
  last_known = λ q x at. elim (Bool-cases (int_beq p q)) [
    | inl same ↦
        let is : p ≡ q = (int_beq_iff p q).0 same in
        let x_is : ptr ≡ x = ground (arith, lookup-insert p q ptr h.last_used_source) in
        subst (λ z. Elem z (sources_of h q)) x_is
          (subst (λ z. Elem ptr (sources_of h z)) is
            (find_client_info-some h.infos (sources_of h p) a e).0)
    | inr other ↦ v.last_known q x (ground (arith, lookup-insert p q ptr h.last_used_source))
  ];
}

sources_of-forget :
    (h : ServerSideProxyTrafficHandler) (p q : ℤ)
    → sources_of (forget_player h p) q ≡ (if int_beq p q then [] else sources_of h q)
unfolding forget_player
sources_of-forget h p q = ground (arith, lookup-delete p q h.client_side_proxy_sources)

forgotten_self :
    (h : ServerSideProxyTrafficHandler) (p q : ℤ)
    → int_beq p q ≡ true
    → sources_of (forget_player h p) q ≡ []
forgotten_self h p q same = sources_of-forget h p q ∙ rw same

forgotten_other :
    (h : ServerSideProxyTrafficHandler) (p q : ℤ)
    → int_beq p q ≡ false
    → sources_of (forget_player h p) q ≡ sources_of h q
forgotten_other h p q other = sources_of-forget h p q ∙ rw other

forgotten :
    (P : List ℕ → Type 0) (h : ServerSideProxyTrafficHandler) (p q : ℤ)
    → P []
    → P (sources_of h q)
    → P (sources_of (forget_player h p) q)
forgotten P h p q none_left as_before = elim (Bool-cases (int_beq p q)) [
  | inl same ↦ subst P (sym (forgotten_self h p q same)) none_left
  | inr other ↦ subst P (sym (forgotten_other h p q other)) as_before
]

forgotten_Elem :
    (h : ServerSideProxyTrafficHandler) (p q : ℤ) (x : ℕ)
    → Elem x (sources_of (forget_player h p) q)
    → Elem x (sources_of h q)
forgotten_Elem h p q x =
    forgotten (λ s. Elem x s → Elem x (sources_of h q)) h p q (λ e. absurd e) (λ e. e)

pub forget_player-IsLinked :
    (h : ServerSideProxyTrafficHandler) (p : ℤ) → IsLinked h → IsLinked (forget_player h p)
unfolding forget_player
forget_player-IsLinked h p v = record {
  in_range = λ q. forgotten (InRange h.infos) h p q tt (v.in_range q);
  no_repeats = λ q. forgotten NoRepeats h p q tt (v.no_repeats q);
  unshared =
      λ q r x eq er. v.unshared q r x (forgotten_Elem h p q x eq) (forgotten_Elem h p r x er);
  last_known = λ q x at. elim (Bool-cases (int_beq p q)) [
    | inl same ↦ absurd (ground (arith, lookup-delete p q h.last_used_source))
    | inr other ↦
        subst (λ z. Elem x z) (sym (forgotten_other h p q other))
          (v.last_known q x (ground (arith, lookup-delete p q h.last_used_source)))
  ];
}

pub new_handler-IsLinked : IsLinked new_handler
unfolding new_handler lookup
new_handler-IsLinked = record {
  in_range = λ p. tt;
  no_repeats = λ p. tt;
  unshared = λ p q ptr e. absurd e;
  last_known = λ p ptr e. absurd (cc);
}

send_round_robin-IsLinked :
    (h : ServerSideProxyTrafficHandler) (p : ℤ) (targets : List ℕ)
    → IsLinked h
    → IsLinked (send_round_robin h p targets).0
unfolding send_round_robin
send_round_robin-IsLinked h p targets v = record {
  in_range = v.in_range;
  no_repeats = v.no_repeats;
  unshared = v.unshared;
  last_known = v.last_known;
}

-- A packet of the game server keeps the pointers linked, whether it is sent, blocked or panics.
pub handle_client_bound_traffic-IsLinked :
    (h : ServerSideProxyTrafficHandler) (now : ℕ) (player : Option ℤ)
    → IsLinked h
    → IsLinked (handle_client_bound_traffic h now player).0
unfolding handle_client_bound_traffic
handle_client_bound_traffic-IsLinked h now none v = v
handle_client_bound_traffic-IsLinked h now (some p) v =
    elim (Option-cases (lookup p h.last_used_source)) [
      | inl e ↦ rw (e, handle_client_bound_traffic) (forget_player-IsLinked h p v)
      | inr (last_used, e) ↦ elim (Bool-cases (is_stale now (get_elem? h.infos last_used))) [
        | inl stale ↦ rw (e, handle_client_bound_traffic, stale) (forget_player-IsLinked h p v)
        | inr fresh ↦
            rw (e, handle_client_bound_traffic, fresh)
              (send_round_robin-IsLinked h p (targets_of h now p last_used) v)
      ]
    ]
