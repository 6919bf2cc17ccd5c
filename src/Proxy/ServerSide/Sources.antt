-- ===== src/Proxy/ServerSide/Sources.antt =====
-- A source that the handler has not seen for a player, and what a packet does to the sources of all
-- players.
use amazon_gamelift_toolkit.Base.{
  ℕ, ◌<◌, ◌≡◌, ◌≢◌, refl, sym, ap, subst, ◌∙◌, ◌⊎◌, inl, inr, List, [], ◌∷◌, ◌++◌, none, some,
  arith, length, length-append, if◌then◌else◌, Bool-cases,
}
use amazon_gamelift_toolkit.Base.Int.{ℤ}
use amazon_gamelift_toolkit.Base.Eq.{int_eq, int_beq, int_beq_iff}
use amazon_gamelift_toolkit.Base.Dict.{lookup, lookup-insert}
use amazon_gamelift_toolkit.Base.Elem.{
  Elem, NoRepeats, Elem-append, Elem-append_right, NoRepeats-snoc,
}
use amazon_gamelift_toolkit.Go.Text.{All-mono, All-append}
use amazon_gamelift_toolkit.Proxy.{UdpAddr}
use amazon_gamelift_toolkit.Proxy.ServerSide.{
  ClientSideProxyInfo, ServerSideProxyTrafficHandler, sources_of, find_client_info, record_source,
}
use amazon_gamelift_toolkit.Proxy.ServerSide.View.{
  view, view_of, seen, InRange, view_of-extend, view_of-snoc, view_of-stamp, view_of-stamp_other,
  seen-none, find_client_info-some, get_elem?-length,
}
use amazon_gamelift_toolkit.Proxy.ServerSide.Invariant.{
  IsLinked, Elem-InRange, known, added, record_source_cases, known-IsLinked,
}

sources_of-added :
    (h : ServerSideProxyTrafficHandler) (now : ℕ) (p q : ℤ) (a : UdpAddr)
    → sources_of (added h now p a) q
      ≡ (if int_beq p q then sources_of h p ++ length h.infos ∷ [] else sources_of h q)
sources_of-added h now p q a =
    ground
      (arith, lookup-insert p q (sources_of h p ++ length h.infos ∷ []) h.client_side_proxy_sources)

-- A property of the player's new sources and of the old sources of the others.
added_cases {ℓ} :
    (P : ℤ → List ℕ → Type ℓ) (h : ServerSideProxyTrafficHandler) (now : ℕ) (p q : ℤ) (a : UdpAddr)
    → P p (sources_of h p ++ length h.infos ∷ [])
    → (q ≢ p → P q (sources_of h q))
    → P q (sources_of (added h now p a) q)
added_cases P h now p q a f g = elim (Bool-cases (int_beq p q)) [
  | inl same ↦
      subst (λ z. P q z) (sym (sources_of-added h now p q a ∙ rw same))
        (subst (λ z. P z (sources_of h p ++ length h.infos ∷ [])) ((int_beq_iff p q).0 same) f)
  | inr other ↦
      subst (λ z. P q z) (sym (sources_of-added h now p q a ∙ rw other))
        (g (λ e. ground (arith, int_beq_iff p q)))
]

fresh_ptr :
    (h : ServerSideProxyTrafficHandler) (q : ℤ)
    → IsLinked h
    → ¬ Elem (length h.infos) (sources_of h q)
fresh_ptr h q v e =
    let lt = Elem-InRange h.infos (sources_of h q) (length h.infos) (v.in_range q) e in omega arith

-- A pointer of the new sources is the new one, which the player has, or an old one.
added-Elem :
    (h : ServerSideProxyTrafficHandler) (now : ℕ) (p q : ℤ) (a : UdpAddr) (x : ℕ)
    → Elem x (sources_of (added h now p a) q)
    → ((x ≡ length h.infos) × (q ≡ p)) ⊎ Elem x (sources_of h q)
added-Elem h now p q a x =
    added_cases (λ r s. Elem x s → ((x ≡ length h.infos) × (r ≡ p)) ⊎ Elem x (sources_of h r)) h now
      p q a
      (λ e. elim (Elem-append x (sources_of h p) (length h.infos ∷ []) e) [
        | inl l ↦ inr l
        | inr (inl is) ↦ inl (is, refl)
        | inr (inr no_more) ↦ absurd no_more
      ])
      (λ _ e. inr e)

added-unshared :
    (h : ServerSideProxyTrafficHandler) (now : ℕ) (p : ℤ) (a : UdpAddr)
    → IsLinked h
    → (q r : ℤ) (x : ℕ) → Elem x (sources_of (added h now p a) q)
    → Elem x (sources_of (added h now p a) r)
    → q ≡ r
added-unshared h now p a v q r x eq er = elim (added-Elem h now p q a x eq) [
  | inl (new, is) ↦ elim (added-Elem h now p r a x er) [
    | inl (_, is') ↦ is ∙ sym is'
    | inr old ↦ absurd (fresh_ptr h r v (subst (λ z. Elem z (sources_of h r)) new old))
  ]
  | inr old ↦ elim (added-Elem h now p r a x er) [
    | inl (new, _) ↦ absurd (fresh_ptr h q v (subst (λ z. Elem z (sources_of h q)) new old))
    | inr old' ↦ v.unshared q r x old old'
  ]
]

added-InRange :
    (h : ServerSideProxyTrafficHandler) (now : ℕ) (p q : ℤ) (a : UdpAddr)
    → IsLinked h
    → InRange (added h now p a).infos (sources_of (added h now p a) q)
added-InRange h now p q a v =
    let new : ClientSideProxyInfo = record { source_addr = a; last_received_timestamp = now } in
    let grown = length-append h.infos (new ∷ []) in
    let wider = λ (s : List ℕ) (k : InRange h.infos s).
      All-mono (λ x. x < length h.infos) (λ x. x < length (added h now p a).infos) s
        (λ x lt. omega arith) k in
    added_cases (λ r s. InRange (added h now p a).infos s) h now p q a
      (All-append (λ x. x < length (added h now p a).infos) (sources_of h p) (length h.infos ∷ [])
        (wider (sources_of h p) (v.in_range p)) (omega arith, tt))
      (λ _. wider (sources_of h q) (v.in_range q))

added-last_known :
    (h : ServerSideProxyTrafficHandler) (now : ℕ) (p : ℤ) (a : UdpAddr)
    → IsLinked h
    → (q : ℤ) (x : ℕ) → lookup q (added h now p a).last_used_source ≡ some x
    → Elem x (sources_of (added h now p a) q)
added-last_known h now p a v q x at = elim (Bool-cases (int_beq p q)) [
  | inl same ↦
      let x_is : length h.infos ≡ x =
        ground (arith, lookup-insert p q (length h.infos) h.last_used_source) in
      subst (λ z. Elem x z) (sym (sources_of-added h now p q a ∙ rw same))
        (Elem-append_right x (sources_of h p) (length h.infos ∷ []) (inl (sym x_is)))
  | inr other ↦
      subst (λ z. Elem x z) (sym (sources_of-added h now p q a ∙ rw other))
        (v.last_known q x (ground (arith, lookup-insert p q (length h.infos) h.last_used_source)))
]

added-IsLinked :
    (h : ServerSideProxyTrafficHandler) (now : ℕ) (p : ℤ) (a : UdpAddr)
    → IsLinked h
    → IsLinked (added h now p a)
added-IsLinked h now p a v = record {
  in_range = λ q. added-InRange h now p q a v;
  no_repeats = λ q.
      added_cases (λ r s. NoRepeats s) h now p q a
        (NoRepeats-snoc (sources_of h p) (length h.infos) (v.no_repeats p) (fresh_ptr h p v))
        (λ _. v.no_repeats q);
  unshared = added-unshared h now p a v;
  last_known = added-last_known h now p a v;
}

-- A packet keeps the pointers linked: each one stands for a struct, no player has one twice, no two
-- players share one, and the last used source of a player is among the player's sources.
pub record_source-IsLinked :
    (h : ServerSideProxyTrafficHandler) (now : ℕ) (p : ℤ) (a : UdpAddr)
    → IsLinked h
    → IsLinked (record_source h now p a)
record_source-IsLinked h now p a v =
    record_source_cases IsLinked h now p a (λ ptr e. known-IsLinked h now p ptr a v e)
      (λ _. added-IsLinked h now p a v)

known-view :
    (h : ServerSideProxyTrafficHandler) (now : ℕ) (p q : ℤ) (ptr : ℕ) (a : UdpAddr)
    → IsLinked h
    → find_client_info h.infos (sources_of h p) a ≡ some ptr
    → q ≢ p
    → view (known h now p ptr) q ≡ view h q
known-view h now p q ptr a v e other =
    let (m, info, at, _) = find_client_info-some h.infos (sources_of h p) a e in
    view_of-stamp_other h.infos (sources_of h q) ptr now info at
      (λ k. other (v.unshared q p ptr k m))

added-view_self :
    (h : ServerSideProxyTrafficHandler) (now : ℕ) (p : ℤ) (a : UdpAddr)
    → IsLinked h
    → find_client_info h.infos (sources_of h p) a ≡ none
    → view (added h now p a) p ≡ seen a now (view h p)
added-view_self h now p a v e =
    let new : ClientSideProxyInfo = record { source_addr = a; last_received_timestamp = now } in
    let infos = (added h now p a).infos in
    ap (view_of infos) (sources_of-added h now p p a ∙ rw ((int_beq_iff p p).1 refl))
    ∙ view_of-snoc infos (sources_of h p) (length h.infos) new (get_elem?-length h.infos new)
    ∙ ap (λ z. z ++ new ∷ []) (view_of-extend h.infos (new ∷ []) (sources_of h p) (v.in_range p))
    ∙ sym (seen-none h.infos (sources_of h p) a now e)

added-view_other :
    (h : ServerSideProxyTrafficHandler) (now : ℕ) (p q : ℤ) (a : UdpAddr)
    → IsLinked h
    → q ≢ p
    → view (added h now p a) q ≡ view h q
added-view_other h now p q a v other =
    ap (view_of (added h now p a).infos)
      (sources_of-added h now p q a ∙ ground (arith, int_beq_iff p q))
    ∙ view_of-extend h.infos (record { source_addr = a; last_received_timestamp = now } ∷ [])
        (sources_of h q) (v.in_range q)

-- While the pointers are linked, a packet of player `p` from address `a` at time `now` sets the time of the entry of `a` among the
-- sources of `p`, or adds such an entry behind the others. The sources of every other player, with
-- their times, stay as they are, although all structs stand on one heap.
pub record_source-view :
    (h : ServerSideProxyTrafficHandler) (now : ℕ) (p : ℤ) (a : UdpAddr)
    → IsLinked h
    → (view (record_source h now p a) p ≡ seen a now (view h p))
      × ((q : ℤ) → q ≢ p → view (record_source h now p a) q ≡ view h q)
record_source-view h now p a v =
    record_source_cases
      (λ g. (view g p ≡ seen a now (view h p)) × ((q : ℤ) → q ≢ p → view g q ≡ view h q)) h now p a
      (λ ptr e. (
        view_of-stamp h.infos (sources_of h p) a ptr now (v.no_repeats p) e,
        λ q other. known-view h now p q ptr a v e other,
      ))
      (λ e. (added-view_self h now p a v e, λ q other. added-view_other h now p q a v other))
