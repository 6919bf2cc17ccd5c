-- ===== src/Base/Elem.antt =====
-- Membership and absence of repeats by recursion, which the tactics take apart.
use mathlib.Core.Path.{◌≡◌, sym}
use mathlib.Core.Logic.{◌⊎◌, inl, inr}
use mathlib.Core.List.{List, [], ◌∷◌, ◌++◌}

module _ {A : Type 0} where
  abbrev pub Elem : A → List A → Type 0
  Elem a [] = ⊥
  Elem a (x ∷ xs) = (a ≡ x) ⊎ Elem a xs

  abbrev pub NoRepeats : List A → Type 0
  NoRepeats [] = Unit
  NoRepeats (x ∷ xs) = (¬ Elem x xs) × NoRepeats xs

  pub Elem-append : (a : A) (xs ys : List A) → Elem a (xs ++ ys) → Elem a xs ⊎ Elem a ys
  Elem-append a [] ys h = inr h
  Elem-append a (x ∷ xs) ys (inl e) = inl (inl e)
  Elem-append a (x ∷ xs) ys (inr h) = elim (Elem-append a xs ys h) [
    | inl l ↦ inl (inr l)
    | inr r ↦ inr r
  ]

  pub Elem-append_left : (a : A) (xs ys : List A) → Elem a xs → Elem a (xs ++ ys)
  Elem-append_left a (x ∷ xs) ys (inl e) = inl e
  Elem-append_left a (x ∷ xs) ys (inr h) = inr (Elem-append_left a xs ys h)
  Elem-append_left a [] ys h = elim h [ ]

  pub Elem-append_right : (a : A) (xs ys : List A) → Elem a ys → Elem a (xs ++ ys)
  Elem-append_right a [] ys h = h
  Elem-append_right a (x ∷ xs) ys h = inr (Elem-append_right a xs ys h)

  pub NoRepeats-snoc : (xs : List A) (a : A) → NoRepeats xs → ¬ Elem a xs → NoRepeats (xs ++ a ∷ [])
  NoRepeats-snoc [] a h n = (λ e. e, tt)
  NoRepeats-snoc (x ∷ xs) a (hx, hs) n = (
    λ e. elim (Elem-append x xs (a ∷ []) e) [
      | inl l ↦ hx l
      | inr (inl q) ↦ n (inl (sym q))
      | inr (inr r) ↦ r
    ],
    NoRepeats-snoc xs a hs (λ e. n (inr e)),
  )
