-- ===== src/Prelude/Reversal.antt =====
-- Reversal of a list onto another.
use mathlib.Core.Path.{◌≡◌, refl, ap, ◌∙◌, sym}
use mathlib.Core.List.{List, [], ◌∷◌, ◌++◌, map, append-nil}
use lms_saas.Prelude.Lists.{All}

module _ {ℓ} {A : Type ℓ} where
  abbrev pub rev_onto : List A → List A → List A
  rev_onto [] back = back
  rev_onto (x ∷ xs) back = rev_onto xs (x ∷ back)

  rev_onto-rev_onto :
      (xs back ys : List A) → rev_onto (rev_onto xs back) ys ≡ rev_onto back (xs ++ ys)
  rev_onto-rev_onto [] back ys = refl
  rev_onto-rev_onto (x ∷ xs) back ys = rev_onto-rev_onto xs (x ∷ back) ys

  pub rev_onto-nil : (xs : List A) → rev_onto (rev_onto xs []) [] ≡ xs
  rev_onto-nil xs = rev_onto-rev_onto xs [] [] ∙ append-nil xs

  pub All-rev_onto {κ} :
      (P : A → Type κ) (xs back : List A) → All P xs → All P back → All P (rev_onto xs back)
  All-rev_onto P [] back front rest = rest
  All-rev_onto P (x ∷ xs) back front rest = All-rev_onto P xs (x ∷ back) front.1 (front.0, rest)

pub map-rev_onto {ℓ κ} :
    {A : Type ℓ} {B : Type κ} (f : A → B) (xs back : List A)
    → map f (rev_onto xs back) ≡ rev_onto (map f xs) (map f back)
map-rev_onto f [] back = refl
map-rev_onto f (x ∷ xs) back = map-rev_onto f xs (x ∷ back)

-- Lists with the same images in reverse have the same images.
pub map-rev_onto-injective {ℓ κ} :
    {A : Type ℓ} {B : Type κ} (f : A → B) (xs ys : List A)
    → map f (rev_onto xs []) ≡ map f (rev_onto ys [])
    → map f xs ≡ map f ys
map-rev_onto-injective f xs ys h =
    sym (rev_onto-nil (map f xs))
    ∙ ap (λ zs. rev_onto zs []) (sym (map-rev_onto f xs []) ∙ h ∙ map-rev_onto f ys [])
    ∙ rev_onto-nil (map f ys)
