-- ===== src/Prelude/Pairwise.antt =====
-- A relation between each element of a list and every later one.
use mathlib.Core.Path.{◌≡◌, refl, subst, sym}
use mathlib.Core.Logic.{inl, inr}
use mathlib.Core.Bool.{Bool, false}
use mathlib.Core.Option.{some, none}
use mathlib.Core.List.{List, [], ◌∷◌, ◌++◌}
use native.Mathlib.Omega.{arith}
use lms_saas.Prelude.Tests.{Bool-cases}
use lms_saas.Prelude.Lists.{All, All-append, All-map, find, any, filter, update_first}

module _ {ℓ κ} {A : Type ℓ} (R : A → A → Type κ) where
  abbrev pub IsPairwise : List A → Type κ
  IsPairwise [] = Unit
  IsPairwise (x ∷ xs) = All (R x) xs × IsPairwise xs

  pub IsPairwise-append_one :
      (xs : List A) (y : A) → All (λ x. R x y) xs → IsPairwise xs → IsPairwise (xs ++ (y ∷ []))
  IsPairwise-append_one [] y before h = (tt, tt)
  IsPairwise-append_one (x ∷ xs) y before h =
      (All-append (R x) xs (y ∷ []) h.0 (before.0, tt), IsPairwise-append_one xs y before.1 h.1)

  All-both {ι} :
      (S : A → Type ι) (P : A → Type κ) (xs : List A)
      → All S xs
      → All P xs
      → All (λ a. S a × P a) xs
  All-both S P [] s h = tt
  All-both S P (x ∷ xs) s h = ((s.0, h.0), All-both S P xs s.1 h.1)

  -- A change of the element that is found, which keeps the relation with those of a predicate.
  pub IsPairwise-update_first {ι} :
      (S : A → Type ι) (p : A → Bool) (f : A → A) (xs : List A) (a : A)
      → ((y : A) → S y → R a y → R (f a) y)
      → ((y : A) → S y → R y a → R y (f a))
      → find p xs ≡ some a
      → All S xs
      → IsPairwise xs
      → IsPairwise (update_first p f xs)
  IsPairwise-update_first S p f [] a after before found s h = tt
  IsPairwise-update_first S p f (x ∷ xs) a after before found s h = elim (Bool-cases (p x)) [
    | inl here ↦
        let same : x ≡ a = ground (arith, here) in
        let rest = subst (λ z. All (R z) xs) same h.0 in
        let kept =
          All-map (λ y. S y × R a y) (R (f a)) xs (λ y both. after y both.0 both.1)
            (All-both S (R a) xs s.1 rest) in
        rw here (subst (λ z. All (R (f z)) xs) (sym same) kept, h.1)
    | inr there ↦
        let later : find p xs ≡ some a = rw there at found in
        rw there (
          replaced x xs later (before x s.0) h.0,
          IsPairwise-update_first S p f xs a after before later s.1 h.1,
        )
  ]
    where
      replaced :
          (x : A) (ys : List A)
          → find p ys ≡ some a
          → (R x a → R x (f a))
          → All (R x) ys
          → All (R x) (update_first p f ys)
      replaced x [] found change all = tt
      replaced x (y ∷ ys) found change all = elim (Bool-cases (p y)) [
        | inl here ↦
            let same : y ≡ a = ground (arith, here) in
            rw here (subst (λ z. R x (f z)) (sym same) (change (subst (R x) same all.0)), all.1)
        | inr there ↦ rw there (all.0, replaced x ys (rw there at found) change all.1)
      ]

  All-refl : (xs : List A) → All (λ x. x ≡ x) xs
  All-refl [] = tt
  All-refl (x ∷ xs) = (refl, All-refl xs)

  -- A change of the element that is found, which keeps the relation with all.
  pub IsPairwise-update_kept :
      (p : A → Bool) (f : A → A) (xs : List A) (a : A)
      → ((y : A) → R a y → R (f a) y)
      → ((y : A) → R y a → R y (f a))
      → find p xs ≡ some a
      → IsPairwise xs
      → IsPairwise (update_first p f xs)
  IsPairwise-update_kept p f xs a after before found h =
      IsPairwise-update_first (λ x. x ≡ x) p f xs a (λ y same. after y) (λ y same. before y) found
        (All-refl xs) h

  pub IsPairwise-filter : (p : A → Bool) (xs : List A) → IsPairwise xs → IsPairwise (filter p xs)
  IsPairwise-filter p [] h = tt
  IsPairwise-filter p (x ∷ xs) h = elim (Bool-cases (p x)) [
    | inl here ↦ rw here (kept xs h.0, IsPairwise-filter p xs h.1)
    | inr there ↦ rw there (IsPairwise-filter p xs h.1)
  ]
    where
      kept : (ys : List A) → All (R x) ys → All (R x) (filter p ys)
      kept [] all = tt
      kept (y ∷ ys) all = elim (Bool-cases (p y)) [
        | inl here ↦ rw here (all.0, kept ys all.1)
        | inr there ↦ rw there (kept ys all.1)
      ]

module _ {ℓ} {A : Type ℓ} where
  -- No element passes a test that none is found by, or that not any passes.
  pub find-none : (p : A → Bool) (xs : List A) → find p xs ≡ none → All (λ a. p a ≡ false) xs
  find-none p [] h = tt
  find-none p (x ∷ xs) h = elim (Bool-cases (p x)) [
    | inl here ↦ absurd (ground (arith, here))
    | inr there ↦ (there, find-none p xs (rw there at h))
  ]

  pub any-false : (p : A → Bool) (xs : List A) → any p xs ≡ false → All (λ a. p a ≡ false) xs
  any-false p [] h = tt
  any-false p (x ∷ xs) h = elim (Bool-cases (p x)) [
    | inl here ↦ absurd (ground (arith, here))
    | inr there ↦ (there, any-false p xs (rw there at h))
  ]
