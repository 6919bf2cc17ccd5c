-- ===== src/Go/Base64/RoundTrip.antt =====
-- Decoding undoes encoding.
use amazon_gamelift_toolkit.Base.{
  ℕ, ◌+◌, ◌*◌, ◌/◌, ◌%◌, ◌≤◌, ◌<◌, ◌≡◌, ◌≢◌, refl, ◌∙◌, [], ◌∷◌, some, arith, length,
}
use amazon_gamelift_toolkit.Go.Text.{Bytes, All, All-mono, IsGraphic}
use amazon_gamelift_toolkit.Go.Base64.{
  IsByte, digit, value, pad, encode, without_newlines, quantum, last_quantum, quanta, decode,
}

value-digit : (n : ℕ) → n < 64 → value (digit n) ≡ some n
unfolding value digit
value-digit n h = ground arith

digit_not_special : (n : ℕ) → n < 64 → (43 ≤ digit n) × (digit n ≢ pad)
unfolding digit
digit_not_special n h = ground arith

without_newlines-plain : (s : Bytes) → All (λ c. 14 ≤ c) s → without_newlines s ≡ s
unfolding without_newlines
without_newlines-plain [] h = refl
without_newlines-plain (c ∷ s) (h, hs) = ground (arith, without_newlines-plain s hs)

digit-IsGraphic : (n : ℕ) → n < 64 → IsGraphic (digit n)
unfolding digit
digit-IsGraphic n h = ground arith

pub encode-IsGraphic : (s : Bytes) → All IsByte s → All IsGraphic (encode s)
unfolding encode
encode-IsGraphic [] h = tt
encode-IsGraphic (a ∷ []) (ha, _) =
    let p = digit-IsGraphic (a / 4) (omega arith) in
    let q = digit-IsGraphic (a % 4 * 16) (omega arith) in
    (p, (q, ((omega arith, omega arith), ((omega arith, omega arith), tt))))
encode-IsGraphic (a ∷ b ∷ []) (ha, (hb, _)) =
    let p = digit-IsGraphic (a / 4) (omega arith) in
    let q = digit-IsGraphic (a % 4 * 16 + b / 16) (omega arith) in
    let r = digit-IsGraphic (b % 16 * 4) (omega arith) in
    (p, (q, (r, ((omega arith, omega arith), tt))))
encode-IsGraphic (a ∷ b ∷ c ∷ s) (ha, (hb, (hc, hs))) =
    let p = digit-IsGraphic (a / 4) (omega arith) in
    let q = digit-IsGraphic (a % 4 * 16 + b / 16) (omega arith) in
    let r = digit-IsGraphic (b % 16 * 4 + c / 64) (omega arith) in
    let t = digit-IsGraphic (c % 64) (omega arith) in (p, (q, (r, (t, encode-IsGraphic s hs))))

encode_plain : (s : Bytes) → All IsByte s → All (λ c. 14 ≤ c) (encode s)
encode_plain s h =
    All-mono IsGraphic (λ c. 14 ≤ c) (encode s) (λ c g. omega arith) (encode-IsGraphic s h)

encode-ne-nil : (a : ℕ) (s : Bytes) → encode (a ∷ s) ≢ []
unfolding encode
encode-ne-nil a [] = cc
encode-ne-nil a (b ∷ []) = cc
encode-ne-nil a (b ∷ c ∷ s) = cc

quanta_step :
    (a b c d : ℕ) (s : Bytes)
    → s ≢ []
    → quanta (a ∷ b ∷ c ∷ d ∷ s) ≡ quantum (value a) (value b) (value c) (value d) (quanta s)
unfolding quanta
quanta_step a b c d [] h = absurd (h refl)
quanta_step a b c d (e ∷ s) h = refl

-- Three bytes as four digits and back.
quantum_bytes :
    (a b c : ℕ) (rest : Bytes)
    → a < 256
    → b < 256
    → c < 256
    → quantum
        (value (digit (a / 4)))
        (value (digit (a % 4 * 16 + b / 16)))
        (value (digit (b % 16 * 4 + c / 64)))
        (value (digit (c % 64)))
        (some rest)
      ≡ some (a ∷ b ∷ c ∷ rest)
unfolding quantum
quantum_bytes a b c rest ha hb hc =
    rw
      (
        value-digit (a / 4) (omega arith),
        value-digit (a % 4 * 16 + b / 16) (omega arith),
        value-digit (b % 16 * 4 + c / 64) (omega arith),
        value-digit (c % 64) (omega arith),
      )
      (ground arith)

last_two :
    (a b : ℕ)
    → a < 256
    → b < 256
    → last_quantum
        (value (digit (a / 4)))
        (value (digit (a % 4 * 16 + b / 16)))
        (digit (b % 16 * 4))
        pad
      ≡ some (a ∷ b ∷ [])
unfolding last_quantum
last_two a b ha hb =
    rw
      (
        value-digit (a / 4) (omega arith),
        value-digit (a % 4 * 16 + b / 16) (omega arith),
        value-digit (b % 16 * 4) (omega arith),
      )
      (ground (arith, digit_not_special (b % 16 * 4)))

last_one :
    (a : ℕ)
    → a < 256
    → last_quantum (value (digit (a / 4))) (value (digit (a % 4 * 16))) pad pad ≡ some (a ∷ [])
unfolding last_quantum
last_one a ha =
    rw (value-digit (a / 4) (omega arith), value-digit (a % 4 * 16) (omega arith)) (ground arith)

last_three :
    (a b c d : ℕ)
    → c < 64
    → d < 64
    → last_quantum (some a) (some b) (digit c) (digit d)
      ≡ quantum (some a) (some b) (value (digit c)) (value (digit d)) (some [])
unfolding last_quantum
last_three a b c d hc hd = ground (arith, digit_not_special c, digit_not_special d)

quanta-encode : (s : Bytes) → All IsByte s → quanta (encode s) ≡ some s
unfolding encode
quanta-encode [] h = unfold quanta in refl
quanta-encode (a ∷ []) (ha, _) = unfold quanta in last_one a ha
quanta-encode (a ∷ b ∷ []) (ha, (hb, _)) = unfold quanta in last_two a b ha hb
quanta-encode (a ∷ b ∷ c ∷ []) (ha, (hb, (hc, _))) =
    unfold quanta in
    rw (value-digit (a / 4) (omega arith), value-digit (a % 4 * 16 + b / 16) (omega arith))
      (last_three (a / 4) (a % 4 * 16 + b / 16) (b % 16 * 4 + c / 64) (c % 64) (omega arith)
          (omega arith)
        ∙ (rw
            (← value-digit (a / 4) (omega arith), ← value-digit (a % 4 * 16 + b / 16) (omega arith))
            (quantum_bytes a b c [] ha hb hc)))
quanta-encode (a ∷ b ∷ c ∷ d ∷ s) (ha, (hb, (hc, hs))) =
    rw (quanta_step _ _ _ _ (encode (d ∷ s)) (encode-ne-nil d s), quanta-encode (d ∷ s) hs)
      (quantum_bytes a b c (d ∷ s) ha hb hc)

-- Every byte string is read back from its encoding.
pub decode-encode : (s : Bytes) → All IsByte s → decode (encode s) ≡ some s
unfolding decode
decode-encode s h = rw (without_newlines-plain (encode s) (encode_plain s h)) (quanta-encode s h)

pub length-le-encode : (s : Bytes) → length s ≤ length (encode s)
unfolding encode
length-le-encode [] = omega arith
length-le-encode (a ∷ []) = omega arith
length-le-encode (a ∷ b ∷ []) = omega arith
length-le-encode (a ∷ b ∷ c ∷ s) = omega (arith, length-le-encode s)
