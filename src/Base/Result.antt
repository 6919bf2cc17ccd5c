-- ===== src/Base/Result.antt =====
-- What a Go call can do: return a value, return an error, or panic.
use mathlib.Core.Path.{◌≡◌, refl}

pub data Result {ℓ κ} (E : Type ℓ) (A : Type κ) : Type (ℓ ⊔ κ) where
  ok : A → Result E A
  err : E → Result E A
  panic : Result E A

infixl 5 ◌>>=◌
abbrev pub ◌>>=◌ {ℓ κ ι} :
    {E : Type ℓ} {A : Type κ} {B : Type ι} → Result E A → (A → Result E B) → Result E B
ok a >>= f = f a
err e >>= f = err e
panic >>= f = panic

pub bind_cong {ℓ κ ι} :
    {E : Type ℓ} {A : Type κ} {B : Type ι} (r : Result E A) (f g : A → Result E B)
    → ((a : A) → f a ≡ g a)
    → (r >>= f) ≡ (r >>= g)
bind_cong (ok a) f g h = h a
bind_cong (err e) f g h = refl
bind_cong panic f g h = refl

pub bind_assoc {ℓ κ ι ν} :
    {E : Type ℓ} {A : Type κ} {B : Type ι} {C : Type ν} (r : Result E A) (f : A → Result E B)
    (g : B → Result E C)
    → (r >>= f >>= g) ≡ (r >>= (λ a. f a >>= g))
bind_assoc (ok a) f g = refl
bind_assoc (err e) f g = refl
bind_assoc panic f g = refl
