-- ===== src/Go/Base64.antt =====
-- hex.EncodeToString, and EncodeToString and DecodeString of base64.StdEncoding. The decoder skips
-- carriage returns and line feeds wherever they stand, wants full padding with nothing behind it,
-- and ignores the unused low bits of the last digit.
pub mod RoundTrip
use amazon_gamelift_toolkit.Base.{
  ℕ, suc, ◌+◌, ◌-◌, ◌*◌, ◌/◌, ◌%◌, ◌≤◌, ◌<◌, ◌≡◌, ◌≢◌, refl, ◌∙◌, Bool, true, false, ◌&&◌, ◌||◌,
  List, [], ◌∷◌, ◌++◌, Option, none, some, arith, ltb, leb, ◌==◌, if◌then◌else◌, length,
}
use amazon_gamelift_toolkit.Go.Text.{Bytes, codes, All}

abbrev pub IsByte : ℕ → Type 0
IsByte c = c < 256

abbrev hex_digit : ℕ → ℕ
hex_digit n = if ltb n 10 then b'0' + n else b'a' + (n - 10)

-- hex.EncodeToString
unfoldable pub hex_encode : Bytes → Bytes
hex_encode [] = []
hex_encode (b ∷ s) = hex_digit (b / 16) ∷ hex_digit (b % 16) ∷ hex_encode s

pub length-hex_encode : (s : Bytes) → length (hex_encode s) ≡ 2 * length s
unfolding hex_encode
length-hex_encode [] = refl
length-hex_encode (b ∷ s) = omega (arith, length-hex_encode s)

pub hex_encode-IsByte : (s : Bytes) → All IsByte s → All IsByte (hex_encode s)
unfolding hex_encode
hex_encode-IsByte [] h = tt
hex_encode-IsByte (b ∷ s) (h, hs) = (ground arith, (ground arith, hex_encode-IsByte s hs))

hex_digit_inj : (a b : ℕ) → a < 16 → b < 16 → hex_digit a ≡ hex_digit b → a ≡ b
hex_digit_inj a b ha hb e = ground arith

pub hex_encode-injective :
    (s t : Bytes) → All IsByte s → All IsByte t → hex_encode s ≡ hex_encode t → s ≡ t
unfolding hex_encode
hex_encode-injective [] [] hs ht e = refl
hex_encode-injective [] (b ∷ t) hs ht e = absurd (cc)
hex_encode-injective (a ∷ s) [] hs ht e = absurd (cc)
hex_encode-injective (a ∷ s) (b ∷ t) (ha, hs) (hb, ht) e = grind (
  arith,
  hex_digit_inj (a / 16) (b / 16),
  hex_digit_inj (a % 16) (b % 16),
  hex_encode-injective s t hs ht,
)

-- The digit of the value `n`.
digit : ℕ → ℕ
digit n =
    if ltb n 26
    then b'A' + n
    else if ltb n 52
    then b'a' + (n - 26)
    else if ltb n 62
    then b'0' + (n - 52)
    else if n == 62
    then b'+'
    else b'/'

value : ℕ → Option ℕ
value c =
    if leb b'A' c && leb c b'Z'
    then some (c - b'A')
    else if leb b'a' c && leb c b'z'
    then some (c - b'a' + 26)
    else if leb b'0' c && leb c b'9'
    then some (c - b'0' + 52)
    else if c == b'+'
    then some 62
    else if c == b'/'
    then some 63
    else none

abbrev pad : ℕ
pad = b'='

-- base64.StdEncoding.EncodeToString
unfoldable pub encode : Bytes → Bytes
unfolding digit
encode [] = []
encode (a ∷ []) = digit (a / 4) ∷ digit (a % 4 * 16) ∷ pad ∷ pad ∷ []
encode (a ∷ b ∷ []) = digit (a / 4) ∷ digit (a % 4 * 16 + b / 16) ∷ digit (b % 16 * 4) ∷ pad ∷ []
encode (a ∷ b ∷ c ∷ s) =
    digit (a / 4)
    ∷ digit (a % 4 * 16 + b / 16)
    ∷ digit (b % 16 * 4 + c / 64)
    ∷ digit (c % 64)
    ∷ encode s

without_newlines : Bytes → Bytes
without_newlines [] = []
without_newlines (c ∷ s) =
    let rest = without_newlines s in if c == 10 || c == 13 then rest else c ∷ rest

quantum : Option ℕ → Option ℕ → Option ℕ → Option ℕ → Option Bytes → Option Bytes
quantum (some p) (some q) (some r) (some t) (some rest) =
    some ((p * 4 + q / 16) ∷ (q % 16 * 16 + r / 4) ∷ (r % 4 * 64 + t) ∷ rest)
quantum _ _ _ _ _ = none

-- The last quantum: four digits, or fewer with the padding in their place.
last_quantum : Option ℕ → Option ℕ → ℕ → ℕ → Option Bytes
last_quantum (some p) (some q) c d =
    if c == pad && d == pad
    then some ((p * 4 + q / 16) ∷ [])
    else if d == pad
    then (elim (value c) [
      | some r ↦ some ((p * 4 + q / 16) ∷ (q % 16 * 16 + r / 4) ∷ [])
      | none ↦ none
    ])
    else quantum (some p) (some q) (value c) (value d) (some [])
last_quantum _ _ c d = none

quanta : Bytes → Option Bytes
unfolding value quantum last_quantum
quanta [] = some []
quanta (a ∷ b ∷ c ∷ d ∷ []) = last_quantum (value a) (value b) c d
quanta (a ∷ b ∷ c ∷ d ∷ e ∷ s) = quantum (value a) (value b) (value c) (value d) (quanta (e ∷ s))
quanta _ = none

-- base64.StdEncoding.DecodeString
unfoldable pub decode : Bytes → Option Bytes
unfolding without_newlines quanta
decode s = quanta (without_newlines s)

unpadded : decode (codes "YWI") ≡ none
unfolding decode
unpadded = refl

wrapped_line : decode (codes "YW\nI=") ≡ some (codes "ab")
unfolding decode
wrapped_line = refl
