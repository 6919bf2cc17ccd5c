-- ===== src/Go/Decimal.antt =====
-- strconv.Itoa and strconv.Atoi. Go's `int` has 64 bits here. Atoi reports a syntax error and a
-- range error alike to its callers, so both are `none`.
use amazon_gamelift_toolkit.Base.{
  ℕ, zero, suc, ◌+◌, ◌-◌, ◌*◌, ◌/◌, ◌%◌, ◌^◌, ◌≤◌, ◌<◌, ◌≡◌, ◌≢◌, refl, ◌∙◌, inl, inr, true, false,
  ◌&&◌, [], ◌∷◌, Option, none, some, arith, ltb, leb, ◌==◌, if◌then◌else◌, Bool-cases,
}
use amazon_gamelift_toolkit.Base.Int.{ℤ, pos, negsuc, neg}
use amazon_gamelift_toolkit.Go.Text.{Bytes, codes, All}

abbrev pub max_int : ℕ
max_int = 2 ^ 63 - 1

abbrev pub IsDigit : ℕ → Type 0
IsDigit c = (b'0' ≤ c) × (c ≤ b'9')

-- The digits of `n` in front of `out`; `n` rounds are enough.
digits : ℕ → ℕ → Bytes → Bytes
digits zero n out = out
digits (suc f) n out = elim (ltb 0 n) [
  | true ↦ digits f (n / 10) ((b'0' + n % 10) ∷ out)
  | false ↦ out
]

unfoldable pub itoa_ℕ : ℕ → Bytes
unfolding digits
itoa_ℕ n = if n == 0 then b'0' ∷ [] else digits n n []

-- strconv.Itoa
unfoldable pub itoa : ℤ → Bytes
unfolding itoa_ℕ
itoa (pos n) = itoa_ℕ n
itoa (negsuc n) = b'-' ∷ itoa_ℕ (suc n)

-- The number that digits spell behind `acc`.
scan : Bytes → ℕ → Option ℕ
scan [] acc = some acc
scan (c ∷ s) acc =
    let rest = scan s (acc * 10 + (c - b'0')) in if leb b'0' c && leb c b'9' then rest else none

number : Bytes → Option ℕ
unfolding scan
number [] = none
number (c ∷ s) = scan (c ∷ s) 0

positive : Option ℕ → Option ℤ
positive none = none
positive (some n) = if leb n max_int then some (pos n) else none

negative : Option ℕ → Option ℤ
negative none = none
negative (some n) = if leb n (max_int + 1) then some (neg n) else none

-- strconv.Atoi
unfoldable pub atoi : Bytes → Option ℤ
unfolding number positive negative
atoi [] = none
atoi (c ∷ s) =
    if c == b'-'
    then negative (number s)
    else if c == b'+'
    then positive (number s)
    else positive (number (c ∷ s))

scan_last : (n : ℕ) (out : Bytes) → scan ((b'0' + n % 10) ∷ out) (n / 10) ≡ scan out n
unfolding scan
scan_last n out = ground arith

scan-digits : (f n : ℕ) (out : Bytes) → n ≤ f → scan (digits f n out) 0 ≡ scan out n
unfolding digits
scan-digits zero n out h = let e : n ≡ 0 = omega arith in rw e
scan-digits (suc f) n out h = elim (Bool-cases (ltb 0 n)) [
  | inl p ↦
      rw (p, digits)
        (scan-digits f (n / 10) ((b'0' + n % 10) ∷ out) (ground arith) ∙ scan_last n out)
  | inr p ↦ rw (p, digits) (let e : n ≡ 0 = ground arith in rw e)
]

digits-IsDigit : (f n : ℕ) (out : Bytes) → All IsDigit out → All IsDigit (digits f n out)
unfolding digits
digits-IsDigit zero n out h = h
digits-IsDigit (suc f) n out h = elim (Bool-cases (ltb 0 n)) [
  | inl p ↦
      rw (p, digits)
        (digits-IsDigit f (n / 10) ((b'0' + n % 10) ∷ out) ((omega arith, omega arith), h))
  | inr p ↦ rw (p, digits) h
]

pub itoa_ℕ-IsDigit : (n : ℕ) → All IsDigit (itoa_ℕ n)
unfolding itoa_ℕ
itoa_ℕ-IsDigit n = elim (Bool-cases (n == 0)) [
  | inl p ↦ rw p ((omega arith, omega arith), tt)
  | inr p ↦ rw p (digits-IsDigit n n [] tt)
]

digits-ne-nil : (f n : ℕ) (c : ℕ) (out : Bytes) → digits f n (c ∷ out) ≢ []
unfolding digits
digits-ne-nil zero n c out = cc
digits-ne-nil (suc f) n c out = elim (Bool-cases (ltb 0 n)) [
  | inl p ↦ rw (p, digits) (digits-ne-nil f (n / 10) (b'0' + n % 10) (c ∷ out))
  | inr p ↦ rw (p, digits) cc
]

digits_pos : (n : ℕ) → 0 < n → digits n n [] ≡ digits (n - 1) (n / 10) ((b'0' + n % 10) ∷ [])
digits_pos zero h = absurd (omega arith)
digits_pos (suc n) h = unfold digits in ground arith

pub itoa_ℕ-ne-nil : (n : ℕ) → itoa_ℕ n ≢ []
unfolding itoa_ℕ
itoa_ℕ-ne-nil n = ground (arith, digits_pos n, digits-ne-nil (n - 1) (n / 10) (b'0' + n % 10) [])

number-scan : (s : Bytes) → s ≢ [] → number s ≡ scan s 0
unfolding number
number-scan [] h = absurd (h refl)
number-scan (c ∷ s) _ = refl

number-itoa_ℕ : (n : ℕ) → number (itoa_ℕ n) ≡ some n
unfolding itoa_ℕ
number-itoa_ℕ n = rw (number-scan _ (itoa_ℕ-ne-nil n)) (elim (Bool-cases (n == 0)) [
  | inl p ↦ rw p (unfold scan in ground arith)
  | inr p ↦ rw (p, scan-digits n n [] (omega arith)) (unfold scan in refl)
])

atoi_unsigned :
    (s : Bytes) {n : ℕ} → All IsDigit s → number s ≡ some n → n ≤ max_int → atoi s ≡ some (pos n)
unfolding atoi
atoi_unsigned [] h e b = unfold number in absurd (cc)
atoi_unsigned (c ∷ s) {n} (h, hs) e b = ground arith

-- Every number that an `int` holds is read back from its decimal print.
pub atoi-itoa_ℕ : (n : ℕ) → n ≤ max_int → atoi (itoa_ℕ n) ≡ some (pos n)
atoi-itoa_ℕ n h = atoi_unsigned (itoa_ℕ n) (itoa_ℕ-IsDigit n) (number-itoa_ℕ n) h

negative_number : atoi (codes "-17") ≡ some (negsuc 16)
unfolding atoi
negative_number = refl

out_of_range : atoi (codes "9223372036854775808") ≡ none
unfolding atoi
out_of_range = refl

print_number : itoa (pos 1234) ≡ codes "1234"
unfolding itoa
print_number = refl
