-- ===== src/Token/Issue.antt =====
-- NewTokenManager: the tokens that it generates, and that the new manager satisfies the invariant
-- if no two draws of the random source agree.
use amazon_gamelift_toolkit.Base.{
  ℕ, zero, suc, ◌+◌, ◌≤◌, ◌<◌, ◌≡◌, refl, sym, ◌∙◌, inl, inr, [], some, arith, length, get_elem?,
  get_elem?-set, subst, set, nth, length-set, length-replicate, replicate, get_elem?-some,
  get_elem?-lt, Bool-cases,
}
use amazon_gamelift_toolkit.Base.Eq.{nat_eq, bytes_eq, bytes_beq, bytes_beq_iff}
use amazon_gamelift_toolkit.Base.Result.{ok}
use amazon_gamelift_toolkit.Base.Dict.{lookup, insert, lookup-insert}
use amazon_gamelift_toolkit.Go.Text.{Bytes, All}
use amazon_gamelift_toolkit.Go.Base64.{
  IsByte, hex_encode, decode, length-hex_encode, hex_encode-IsByte, hex_encode-injective,
}
use amazon_gamelift_toolkit.Go.Base64.RoundTrip.{decode-encode, length-le-encode}
use amazon_gamelift_toolkit.Token.{
  TokenManager, generate_random_token, decode_base64_token, issue, issue_from, new_token_manager,
  generated_token_length,
}
use amazon_gamelift_toolkit.Token.Invariant.{IsConsistent}

-- What rand.Read writes into a slice of 14 bytes.
abbrev pub IsDraw : Bytes → Type 0
IsDraw s = (length s ≡ 14) × All IsByte s

generated_decodes : (s : Bytes) → IsDraw s → decode (generate_random_token s) ≡ some (hex_encode s)
unfolding generate_random_token
generated_decodes s (_, h) = decode-encode (hex_encode s) (hex_encode-IsByte s h)

generated_token :
    (s : Bytes) → IsDraw s → decode_base64_token (generate_random_token s) ≡ ok (hex_encode s)
unfolding decode_base64_token
generated_token s h = ground (arith, generated_decodes s h)

-- A generated token decodes, its decoding has exactly the 28 bytes that a packet starts with, and
-- its base64 form is no shorter than that.
generate_random_token_lem :
    (s : Bytes)
    → IsDraw s
    → (d : Bytes) × (decode_base64_token (generate_random_token s) ≡ ok d)
      × (length d ≡ generated_token_length)
      × (generated_token_length ≤ length (generate_random_token s))
generate_random_token_lem s (n, h) =
    let e = length-hex_encode s in
    (
      hex_encode s,
      generated_token s (n, h),
      omega arith,
      unfold generate_random_token in omega (arith, length-le-encode (hex_encode s)),
    )

-- The manager after the first `i` rounds.
record Issued (draw : ℕ → Bytes) (count i : ℕ) (tm : TokenManager) : Type 0 where
  base64_counted : length tm.base64_tokens ≡ count
  decoded_counted : length tm.decoded_tokens ≡ count
  counted : tm.player_count ≡ count
  drawn : (j : ℕ) → j < i → get_elem? tm.decoded_tokens j ≡ some (hex_encode (draw j))
  drawn64 : (j : ℕ) → j < i → get_elem? tm.base64_tokens j ≡ some (generate_random_token (draw j))
  to_slot :
      (d : Bytes) (n : ℕ)
      → lookup d tm.token_to_player ≡ some n
      → (j : ℕ) × (n ≡ suc j) × (j < i) × (d ≡ hex_encode (draw j))
  from_slot : (j : ℕ) → j < i → lookup (hex_encode (draw j)) tm.token_to_player ≡ some (suc j)

module _ (draw : ℕ → Bytes) (count : ℕ) (random : (i : ℕ) → i < count → IsDraw (draw i))
    (distinct : (i j : ℕ) → i < count → j < count → draw i ≡ draw j → i ≡ j) where
  abbrev issued : ℕ → TokenManager → TokenManager
  issued i tm = record tm {
    token_to_player = insert (hex_encode (draw i)) (i + 1) tm.token_to_player;
    base64_tokens = set tm.base64_tokens i (generate_random_token (draw i));
    decoded_tokens = set tm.decoded_tokens i (hex_encode (draw i));
  }

  issue-issued : (i : ℕ) (tm : TokenManager) → i < count → issue draw i tm ≡ issued i tm
  unfolding issue
  issue-issued i tm lt = rw (generated_token (draw i) (random i lt))

  hex_distinct :
      (i j : ℕ) → i < count → j < count → hex_encode (draw i) ≡ hex_encode (draw j) → i ≡ j
  hex_distinct i j hi hj e =
      distinct i j hi hj (hex_encode-injective (draw i) (draw j) (random i hi).1 (random j hj).1 e)

  issued-Issued :
      (i : ℕ) (tm : TokenManager)
      → i < count
      → Issued draw count i tm
      → Issued draw count (suc i) (issued i tm)
  issued-Issued i tm lt v =
      let (d0, at) =
        get_elem?-some tm.decoded_tokens i (let e = v.decoded_counted in omega arith) in
      let (b0, at64) =
        get_elem?-some tm.base64_tokens i (let e = v.base64_counted in omega arith) in
      let g = hex_encode (draw i) in
      record {
        base64_counted =
            length-set tm.base64_tokens i (generate_random_token (draw i)) ∙ v.base64_counted;
        decoded_counted = length-set tm.decoded_tokens i g ∙ v.decoded_counted;
        counted = v.counted;
        drawn = λ j h. ground (arith, get_elem?-set tm.decoded_tokens i j g at, v.drawn j);
        drawn64 = λ j h. ground (
          arith,
          get_elem?-set tm.base64_tokens i j (generate_random_token (draw i)) at64,
          v.drawn64 j,
        );
        to_slot = λ d n h. slot tm i v d n h;
        from_slot = λ j h. ground (
          arith,
          lookup-insert g (hex_encode (draw j)) (i + 1) tm.token_to_player,
          bytes_beq_iff g (hex_encode (draw j)),
          v.from_slot j,
          hex_distinct i j,
        );
      }
    where
      slot :
          (tm : TokenManager) (i : ℕ)
          → Issued draw count i tm
          → (d : Bytes) (n : ℕ) → lookup d (issued i tm).token_to_player ≡ some n
          → (j : ℕ) × (n ≡ suc j) × (j < suc i) × (d ≡ hex_encode (draw j))
      slot tm i v d n h = elim (Bool-cases (bytes_beq (hex_encode (draw i)) d)) [
        | inl e ↦ (
          i,
          ground (arith, lookup-insert (hex_encode (draw i)) d (i + 1) tm.token_to_player),
          omega arith,
          sym ((bytes_beq_iff (hex_encode (draw i)) d).0 e),
        )
        | inr e ↦
            let (j, is, lt, eq) =
              v.to_slot d n (
                ground (arith, lookup-insert (hex_encode (draw i)) d (i + 1) tm.token_to_player)) in
            (j, is, omega arith, eq)
      ]

  issue_from-Issued :
      (rounds i : ℕ) (tm : TokenManager)
      → i + rounds ≡ count
      → Issued draw count i tm
      → Issued draw count count (issue_from draw rounds i tm)
  unfolding issue_from
  issue_from-Issued zero i tm h v = subst (λ k. Issued draw count k tm) (omega arith) v
  issue_from-Issued (suc rounds) i tm h v =
      issue_from-Issued rounds (suc i) (issue draw i tm) (omega arith)
        (rw (issue-issued i tm (omega arith)) (issued-Issued i tm (omega arith) v))

  Issued-IsConsistent : (tm : TokenManager) → Issued draw count count tm → IsConsistent tm
  Issued-IsConsistent tm v = record {
    base64_counted = v.base64_counted ∙ sym v.counted;
    decoded_counted = v.decoded_counted ∙ sym v.counted;
    owned = λ d n. (to_owner d n, from_owner d n);
    decodes = decoding;
  }
    where
      to_owner :
          (d : Bytes) (n : ℕ)
          → lookup d tm.token_to_player ≡ some n
          → nth tm.decoded_tokens n ≡ some d
      to_owner d n h = let (j, is, lt, eq) = v.to_slot d n h in rw (is, eq) (v.drawn j lt)

      from_owner :
          (d : Bytes) (n : ℕ)
          → nth tm.decoded_tokens n ≡ some d
          → lookup d tm.token_to_player ≡ some n
      from_owner d zero h = absurd (cc)
      from_owner d (suc j) h =
          let lt : j < count =
            (let e = v.decoded_counted in omega (arith, get_elem?-lt tm.decoded_tokens j h)) in
          let eq : hex_encode (draw j) ≡ d = ground (arith, v.drawn j lt) in
          rw eq at (v.from_slot j lt)

      decoding :
          (n : ℕ) (b : Bytes) → nth tm.base64_tokens n ≡ some b → decode b ≡ nth tm.decoded_tokens n
      decoding zero b h = absurd (cc)
      decoding (suc j) b h =
          let lt : j < count =
            (let e = v.base64_counted in omega (arith, get_elem?-lt tm.base64_tokens j h)) in
          let eq : generate_random_token (draw j) ≡ b = ground (arith, v.drawn64 j lt) in
          rw (v.drawn j lt) (rw eq at (generated_decodes (draw j) (random j lt)))

  -- NewTokenManager satisfies the invariant, and gives player `j + 1` the token of draw `j`, if the
  -- random source writes 14 bytes at each draw and no two draws agree.
  pub new_token_manager-IsConsistent :
      IsConsistent (new_token_manager draw count)
      × ((j : ℕ)
          → j < count
          → get_elem? (new_token_manager draw count).base64_tokens j
            ≡ some (generate_random_token (draw j)))
      × ((new_token_manager draw count).player_count ≡ count)
  unfolding new_token_manager
  new_token_manager-IsConsistent =
      let v = issue_from-Issued count 0 _ (omega arith) start in
      (Issued-IsConsistent _ v, v.drawn64, v.counted)
    where
      start : Issued draw count 0 (record {
        token_to_player = [];
        base64_tokens = replicate count [];
        decoded_tokens = replicate count [];
        player_count = count;
      })
      start = record {
        base64_counted = length-replicate count [];
        decoded_counted = length-replicate count [];
        counted = refl;
        drawn = λ j h. elim h [ ];
        drawn64 = λ j h. elim h [ ];
        to_slot = λ d n h. absurd (unfold lookup in cc);
        from_slot = λ j h. elim h [ ];
      }
