-- ===== src/Go/Text.antt =====
-- Go strings and byte slices as lists of bytes, with the functions of the packages `bytes` and
-- `strings` that the sources call: HasPrefix, IndexByte, Cut, Split (at one byte) and TrimSpace.
use Prim.Native.Char.{code}
use Prim.Native.String.{String}
use mathlib.Core.List.{reverse, reverse-reverse, reverse-cons}
use amazon_gamelift_toolkit.Base.{
  ℕ, suc, ◌≤◌, ◌≡◌, ◌≢◌, refl, ap, ◌∙◌, Bool, true, false, ◌&&◌, ◌||◌, List, [], ◌∷◌, ◌++◌, Option,
  none, some, arith, leb, ◌==◌, if◌then◌else◌, length, take, drop,
}

abbrev pub Bytes : Type 0
Bytes = List ℕ

-- The bytes of an ASCII literal.
abbrev pub codes : String → Bytes
codes String.[] = []
codes (String.◌∷◌ c s) = code c ∷ codes s

module _ {ℓ κ} {A : Type ℓ} (P : A → Type κ) where
  abbrev pub All : List A → Type κ
  All [] = Unit
  All (x ∷ xs) = P x × All xs

  pub All-append : (xs ys : List A) → All xs → All ys → All (xs ++ ys)
  All-append [] ys _ hy = hy
  All-append (x ∷ xs) ys (px, hx) hy = (px, All-append xs ys hx hy)

  pub All-reverse : (xs : List A) → All xs → All (reverse xs)
  All-reverse [] h = h
  All-reverse (x ∷ xs) (px, hx) =
      rw (reverse-cons x xs) (All-append (reverse xs) (x ∷ []) (All-reverse xs hx) (px, tt))

pub All-mono {ℓ κ ι} :
    {A : Type ℓ} (P : A → Type κ) (Q : A → Type ι) (xs : List A)
    → ((x : A) → P x → Q x)
    → All P xs
    → All Q xs
All-mono P Q [] f h = tt
All-mono P Q (x ∷ xs) f (px, hx) = (f x px, All-mono P Q xs f hx)

abbrev pub Lacks : ℕ → Bytes → Type 0
Lacks b = All (λ c. c ≢ b)

-- bytes.HasPrefix
unfoldable pub has_prefix : Bytes → Bytes → Bool
has_prefix s [] = true
has_prefix [] (b ∷ p) = false
has_prefix (a ∷ s) (b ∷ p) = a == b && has_prefix s p

pub has_prefix-append : (p s : Bytes) → has_prefix (p ++ s) p ≡ true
unfolding has_prefix
has_prefix-append [] s = refl
has_prefix-append (c ∷ p) s = ground (arith, has_prefix-append p s)

pub drop-append : (p s : Bytes) → drop (length p) (p ++ s) ≡ s
drop-append [] s = refl
drop-append (c ∷ p) s = drop-append p s

pub take-append : (p s : Bytes) → take (length p) (p ++ s) ≡ p
take-append [] s = refl
take-append (c ∷ p) s = ap (◌∷◌ c) (take-append p s)

-- bytes.IndexByte, with `none` for -1
unfoldable pub index_byte : Bytes → ℕ → Option ℕ
index_byte [] b = none
index_byte (c ∷ s) b =
    if c == b then some 0 else (elim (index_byte s b) [ none ↦ none | some i ↦ some (suc i) ])

pub index_byte-append :
    (p s : Bytes) (b : ℕ) → Lacks b p → index_byte (p ++ b ∷ s) b ≡ some (length p)
unfolding index_byte
index_byte-append [] s b h = ground arith
index_byte-append (c ∷ p) s b (h, hs) = ground (arith, index_byte-append p s b hs)

-- strings.Cut at a separator of one byte
unfoldable pub cut : Bytes → ℕ → Bytes × Bytes × Bool
cut [] sep = ([], [], false)
cut (c ∷ s) sep =
    let rest = cut s sep in if c == sep then ([], s, true) else (c ∷ rest.0, rest.1, rest.2)

pub cut-append : (p s : Bytes) (sep : ℕ) → Lacks sep p → cut (p ++ sep ∷ s) sep ≡ (p, s, true)
unfolding cut
cut-append [] s sep h = ground arith
cut-append (c ∷ p) s sep (h, hs) = ground (arith, cut-append p s sep hs)

pub cut-Lacks : (s : Bytes) (sep : ℕ) → Lacks sep s → cut s sep ≡ (s, [], false)
unfolding cut
cut-Lacks [] sep h = refl
cut-Lacks (c ∷ s) sep (h, hs) = ground (arith, cut-Lacks s sep hs)

-- strings.Split at a separator of one byte
abbrev onto_head : ℕ → List Bytes → List Bytes
onto_head c [] = (c ∷ []) ∷ []
onto_head c (p ∷ ps) = (c ∷ p) ∷ ps

unfoldable pub split : Bytes → ℕ → List Bytes
split [] sep = [] ∷ []
split (c ∷ s) sep = let rest = split s sep in if c == sep then [] ∷ rest else onto_head c rest

-- unicode.IsSpace on the UTF-8 encodings of one, two and three bytes
abbrev pub space₁ : ℕ → Bool
space₁ a = (leb 9 a && leb a 13) || a == 32

abbrev pub space₂ : ℕ → ℕ → Bool
space₂ a b = a == 0xC2 && (b == 0x85 || b == 0xA0)

abbrev pub space₃ : ℕ → ℕ → ℕ → Bool
space₃ a b c =
    (a == 0xE1 && (b == 0x9A && c == 0x80))
    || ((a == 0xE2
          && (b == 0x80 && ((leb 0x80 c && leb c 0x8A) || (c == 0xA8 || (c == 0xA9 || c == 0xAF)))))
        || ((a == 0xE2 && (b == 0x81 && c == 0x9F)) || (a == 0xE3 && (b == 0x80 && c == 0x80))))

module _ (wide₂ : ℕ → ℕ → Bool) (wide₃ : ℕ → ℕ → ℕ → Bool) where
  strip : Bytes → Bytes
  strip [] = []
  strip (a ∷ []) = if space₁ a then [] else a ∷ []
  strip (a ∷ b ∷ []) =
      let rest = strip (b ∷ []) in if space₁ a then rest else if wide₂ a b then [] else a ∷ b ∷ []
  strip (a ∷ b ∷ c ∷ s) =
      let rest₁ = strip (b ∷ c ∷ s) in
      let rest₂ = strip (c ∷ s) in
      let rest₃ = strip s in
      if space₁ a
      then rest₁
      else if wide₂ a b
      then rest₂
      else if wide₃ a b c
      then rest₃
      else a ∷ b ∷ c ∷ s

  strip_none :
      (a : ℕ) (s : Bytes)
      → space₁ a ≡ false
      → ((b : ℕ) → wide₂ a b ≡ false)
      → ((b c : ℕ) → wide₃ a b c ≡ false)
      → strip (a ∷ s) ≡ a ∷ s
  unfolding strip
  strip_none a [] h₁ h₂ h₃ = rw h₁
  strip_none a (b ∷ []) h₁ h₂ h₃ = rw (h₁, h₂ b)
  strip_none a (b ∷ c ∷ s) h₁ h₂ h₃ = rw (h₁, h₂ b, h₃ b c)

trim_left : Bytes → Bytes
trim_left = strip space₂ space₃

trim_right : Bytes → Bytes
trim_right s = reverse (strip (λ a b. space₂ b a) (λ a b c. space₃ c b a) (reverse s))

-- strings.TrimSpace
unfoldable pub trim_space : Bytes → Bytes
unfolding trim_left trim_right strip
trim_space s = trim_right (trim_left s)

-- ASCII without spaces and controls
abbrev pub IsGraphic : ℕ → Type 0
IsGraphic c = (33 ≤ c) × (c ≤ 126)

trim_left-graphic : (s : Bytes) → All IsGraphic s → trim_left s ≡ s
unfolding trim_left
trim_left-graphic [] h = unfold strip in refl
trim_left-graphic (a ∷ s) (h, hs) =
    strip_none space₂ space₃ a s (ground arith) (λ b. ground arith) (λ b c. ground arith)

trim_right-graphic : (s : Bytes) → All IsGraphic s → trim_right s ≡ s
unfolding trim_right
trim_right-graphic s h = ap_reverse (reverse s) (All-reverse IsGraphic s h) ∙ reverse-reverse s
  where
    ap_reverse :
        (r : Bytes)
        → All IsGraphic r
        → reverse (strip (λ a b. space₂ b a) (λ a b c. space₃ c b a) r) ≡ reverse r
    ap_reverse [] _ = unfold strip in refl
    ap_reverse (a ∷ r) (g, _) = ap reverse (
        strip_none (λ a b. space₂ b a) (λ a b c. space₃ c b a) a r (ground arith)
          (λ b. ground arith) (λ b c. ground arith))

pub trim_space-graphic : (s : Bytes) → All IsGraphic s → trim_space s ≡ s
unfolding trim_space
trim_space-graphic s h = rw (trim_left-graphic s h) (trim_right-graphic s h)

split_example : split (codes "1,,2") b',' ≡ codes "1" ∷ [] ∷ codes "2" ∷ []
unfolding split
split_example = refl

trim_space_example :
    trim_space (9 ∷ 0xC2 ∷ 0xA0 ∷ b'x' ∷ 32 ∷ b'y' ∷ 0xE2 ∷ 0x80 ∷ 0xA8 ∷ []) ≡ codes "x y"
unfolding trim_space
trim_space_example = refl
