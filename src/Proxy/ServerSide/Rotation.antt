-- ===== src/Proxy/ServerSide/Rotation.antt =====
-- The order in which the round robin serves the sources while the same sources stay active.
use amazon_gamelift_toolkit.Base.{
  ℕ, zero, suc, ◌+◌, ◌-◌, ◌%◌, ◌≤◌, ◌<◌, ◌≡◌, refl, ap, ◌∙◌, inl, inr, List, [], ◌∷◌, Option, some,
  arith, ltb, length, get_elem?, Bool-cases,
}
use amazon_gamelift_toolkit.Base.Int.{ℤ}
use amazon_gamelift_toolkit.Base.Eq.{int_eq, int_beq_iff}
use amazon_gamelift_toolkit.Base.Result.{Result}
use amazon_gamelift_toolkit.Base.Dict.{insert, lookup-insert}
use amazon_gamelift_toolkit.Token.{TokenError}
use amazon_gamelift_toolkit.Proxy.{UdpAddr}
use amazon_gamelift_toolkit.Proxy.ServerSide.{
  ServerSideProxyTrafficHandler, targets_of, addr_of, send_round_robin, handle_client_bound_traffic,
}
use amazon_gamelift_toolkit.Proxy.ServerSide.RoundRobin.{IsFresh, index_of, handle_fresh}
use native.Mathlib.Nat.{mod-eq_of_lt, mod-add-mod, mod-lt, add-mod_right}

-- The results of a row of packets of the game server for one player, at the given times.
unfoldable pub replies :
    ServerSideProxyTrafficHandler → ℤ → List ℕ → List (Result TokenError (Option UdpAddr))
replies h p [] = []
replies h p (now ∷ times) =
    let r = handle_client_bound_traffic h now (some p) in r.1 ∷ replies r.0 p times

-- At all these times the player is heard of and the targets are the same.
abbrev pub IsSteady : ServerSideProxyTrafficHandler → ℤ → List ℕ → List ℕ → Type 0
IsSteady h p targets [] = Unit
IsSteady h p targets (now ∷ times) =
    ((last_used : ℕ) × IsFresh h now p last_used × (targets_of h now p last_used ≡ targets))
    × IsSteady h p targets times

-- Only the index of the player changes.
sent : ServerSideProxyTrafficHandler → ℤ → ℕ → ServerSideProxyTrafficHandler
sent h p k = record h { next_source_index = insert p ((index_of h p + 1) % k) h.next_source_index }

sent-IsSteady :
    (h : ServerSideProxyTrafficHandler) (p : ℤ) (k : ℕ) (targets times : List ℕ)
    → IsSteady h p targets times
    → IsSteady (sent h p k) p targets times
unfolding sent
sent-IsSteady h p k targets [] s = tt
sent-IsSteady h p k targets (now ∷ times) ((l, f, e), s) = (
  (l, record { info = f.info; known = f.known; is_at = f.is_at; recent = f.recent }, e),
  sent-IsSteady h p k targets times s,
)

index_of-sent :
    (h : ServerSideProxyTrafficHandler) (p : ℤ) (k : ℕ)
    → index_of (sent h p k) p ≡ (index_of h p + 1) % k
unfolding sent
index_of-sent h p k =
    ground (arith, lookup-insert p p ((index_of h p + 1) % k) h.next_source_index, int_beq_iff p p)

handle_steady :
    (h : ServerSideProxyTrafficHandler) (p : ℤ) (now last_used : ℕ) (targets : List ℕ)
    → IsFresh h now p last_used
    → targets_of h now p last_used ≡ targets
    → handle_client_bound_traffic h now (some p)
      ≡ (sent h p (length targets), addr_of h.infos (get_elem? targets (index_of h p)))
handle_steady h p now last_used targets f e =
    handle_fresh h now p last_used f
    ∙ ap (send_round_robin h p) e
    ∙ unfold send_round_robin sent in refl

turn_sent :
    (h : ServerSideProxyTrafficHandler) (p : ℤ) (k i : ℕ)
    → (index_of (sent h p k) p + i) % k ≡ (index_of h p + suc i) % k
turn_sent h p k i =
    ap (λ z. (z + i) % k) (index_of-sent h p k)
    ∙ mod-add-mod (index_of h p + 1) k i
    ∙ ap (λ z. z % k) (omega arith)

turn_first : (idx k : ℕ) → idx < k → (idx + 0) % k ≡ idx
turn_first idx k lt = ap (λ z. z % k) (omega arith) ∙ mod-eq_of_lt lt

index_of-sent_lt :
    (h : ServerSideProxyTrafficHandler) (p : ℤ) (k : ℕ) → 0 < k → index_of (sent h p k) p < k
index_of-sent_lt h p k pos_k = rw (index_of-sent h p k) (mod-lt (index_of h p + 1) pos_k)

-- While the targets stay the same `k` sources, a row of packets goes to them in turn: packet number
-- `i` of the row goes to target `(index + i) % k`, from the index that is stored at the start, if
-- that is below `k`.
replies_rotate :
    (h : ServerSideProxyTrafficHandler) (p : ℤ) (targets times : List ℕ) (i : ℕ)
    → index_of h p < length targets
    → IsSteady h p targets times
    → i < length times
    → get_elem? (replies h p times) i
      ≡ some (addr_of h.infos (get_elem? targets ((index_of h p + i) % length targets)))
unfolding replies sent
replies_rotate h p targets [] i b s lt = elim lt [ ]
replies_rotate h p targets (now ∷ times) zero b ((l, f, e), s) lt =
    rw (handle_steady h p now l targets f e, turn_first (index_of h p) (length targets) b)
replies_rotate h p targets (now ∷ times) (suc i) b ((l, f, e), s) lt =
    let k = length targets in
    rw (handle_steady h p now l targets f e) (
      replies_rotate (sent h p k) p targets times i (index_of-sent_lt h p k (omega arith))
        (sent-IsSteady h p k targets times s) (omega arith)
      ∙ ap (λ z. some (addr_of h.infos (get_elem? targets z))) (turn_sent h p k i))

-- The packet of a row that reaches target `j`.
turn_of : (idx j k : ℕ) → idx < k → j < k → (i : ℕ) × (i < k) × ((idx + i) % k ≡ j)
turn_of idx j k hi hj = elim (Bool-cases (ltb j idx)) [
  | inl before ↦ (j + k - idx, ground arith, wrapped (ground arith))
  | inr after ↦ (j - idx, ground arith, ap (λ z. z % k) (ground arith) ∙ mod-eq_of_lt hj)
]
  where
    wrapped : j < idx → (idx + (j + k - idx)) % k ≡ j
    wrapped lt = ap (λ z. z % k) (omega arith) ∙ add-mod_right j k ∙ mod-eq_of_lt hj

-- While the targets stay the same, a row of at least as many packets as there are targets reaches
-- every one of them within its first packets, one for each target, if the index that is stored at
-- the start is below their number.
pub replies_reach_all :
    (h : ServerSideProxyTrafficHandler) (p : ℤ) (targets times : List ℕ) (j : ℕ)
    → index_of h p < length targets
    → IsSteady h p targets times
    → length targets ≤ length times
    → j < length targets
    → (i : ℕ) × (i < length targets)
      × (get_elem? (replies h p times) i ≡ some (addr_of h.infos (get_elem? targets j)))
replies_reach_all h p targets times j b s enough lt =
    let (i, hi, e) = turn_of (index_of h p) j (length targets) b lt in
    (
      i,
      hi,
      replies_rotate h p targets times i b s (omega arith)
          ∙ ap (λ z. some (addr_of h.infos (get_elem? targets z))) e,
    )
