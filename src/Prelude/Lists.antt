-- ===== src/Prelude/Lists.antt =====
-- Arrays: the methods of `Array.prototype` that the stores use, over Boolean predicates.
use Prim.Native.Nat.{ℕ, suc, ◌+◌, ◌≤◌}
use mathlib.Core.Path.{◌≡◌, refl, subst}
use mathlib.Core.Logic.{inl, inr}
use mathlib.Core.Bool.{Bool, true, false, ◌||◌}
use mathlib.Core.Option.{Option, none, some}
use mathlib.Core.List.{List, [], ◌∷◌, ◌++◌}
use native.Mathlib.Omega.{arith}
use lms_saas.Prelude.Tests.{if◌then◌else◌, Bool-cases}

module _ {ℓ} {A : Type ℓ} where
  abbrev pub length : List A → ℕ
  length [] = 0
  length (x ∷ xs) = suc (length xs)

  pub length-append : (xs ys : List A) → length (xs ++ ys) ≡ length xs + length ys
  length-append [] ys = omega arith
  length-append (x ∷ xs) ys = omega (arith, length-append xs ys)

  -- `xs.find(p)`
  abbrev pub find : (A → Bool) → List A → Option A
  find p [] = none
  find p (x ∷ xs) = if p x then some x else find p xs

  -- `xs.filter(p)`
  abbrev pub filter : (A → Bool) → List A → List A
  filter p [] = []
  filter p (x ∷ xs) = if p x then x ∷ filter p xs else filter p xs

  -- `xs.some(p)`
  abbrev pub any : (A → Bool) → List A → Bool
  any p [] = false
  any p (x ∷ xs) = p x || any p xs

  -- The last element.
  abbrev pub last? : List A → Option A
  last? [] = none
  last? (x ∷ []) = some x
  last? (x ∷ y ∷ xs) = last? (y ∷ xs)

  -- An assignment to the fields of the object that `xs.find(p)` returns.
  abbrev pub update_first : (A → Bool) → (A → A) → List A → List A
  update_first p f [] = []
  update_first p f (x ∷ xs) = if p x then f x ∷ xs else x ∷ update_first p f xs

  -- The predicate holds of every element.
  abbrev pub All {κ} : (P : A → Type κ) (list : List A) → Type κ
  All P [] = Unit
  All P (a ∷ rest) = P a × All P rest

module _ {ℓ} {A : Type ℓ} where
  pub find-holds : (p : A → Bool) (xs : List A) (a : A) → find p xs ≡ some a → p a ≡ true
  find-holds p [] a h = cc
  find-holds p (x ∷ xs) a h = ground (arith, find-holds p xs a)

  pub find-append_none :
      (p : A → Bool) (xs ys : List A) → find p xs ≡ none → find p (xs ++ ys) ≡ find p ys
  find-append_none p [] ys h = refl
  find-append_none p (x ∷ xs) ys h = ground (arith, find-append_none p xs ys)

  pub find-append_some :
      (p : A → Bool) (xs ys : List A) (a : A) → find p xs ≡ some a → find p (xs ++ ys) ≡ some a
  find-append_some p [] ys a h = cc
  find-append_some p (x ∷ xs) ys a h = ground (arith, find-append_some p xs ys a)

  pub find-update_first :
      (p : A → Bool) (f : A → A) (xs : List A) (a : A)
      → find p xs ≡ some a
      → p (f a) ≡ true
      → find p (update_first p f xs) ≡ some (f a)
  find-update_first p f [] a h k = cc
  find-update_first p f (x ∷ xs) a h k = ground (arith, find-update_first p f xs a)

  -- A search that cannot see the change finds what it found.
  pub find-update_first_apart :
      (p q : A → Bool) (f : A → A) (xs : List A)
      → ((a : A) → p a ≡ true → (q a ≡ false) × (q (f a) ≡ false))
      → find q (update_first p f xs) ≡ find q xs
  find-update_first_apart p q f [] h = refl
  find-update_first_apart p q f (x ∷ xs) h = ground (arith, h x, find-update_first_apart p q f xs h)

  pub length-update_first :
      (p : A → Bool) (f : A → A) (xs : List A) → length (update_first p f xs) ≡ length xs
  length-update_first p f [] = refl
  length-update_first p f (x ∷ xs) = ground (arith, length-update_first p f xs)

  pub filter-append :
      (p : A → Bool) (xs ys : List A) → filter p (xs ++ ys) ≡ filter p xs ++ filter p ys
  filter-append p [] ys = refl
  filter-append p (x ∷ xs) ys = ground (arith, filter-append p xs ys)

  pub length-filter-le : (p : A → Bool) (xs : List A) → length (filter p xs) ≤ length xs
  length-filter-le p [] = omega arith
  length-filter-le p (x ∷ xs) = ground (arith, length-filter-le p xs)

  pub last?-append_one : (xs : List A) (y : A) → last? (xs ++ (y ∷ [])) ≡ some y
  last?-append_one [] y = refl
  last?-append_one (x ∷ []) y = refl
  last?-append_one (x ∷ z ∷ xs) y = last?-append_one (z ∷ xs) y

  pub All-append {κ} :
      (P : A → Type κ) (front back : List A) → All P front → All P back → All P (front ++ back)
  All-append P [] back first second = second
  All-append P (a ∷ rest) back first second = (first.0, All-append P rest back first.1 second)

  pub find-All {κ} :
      (P : A → Type κ) (p : A → Bool) (xs : List A) (a : A) → All P xs → find p xs ≡ some a → P a
  find-All P p [] a h e = cc
  find-All P p (x ∷ xs) a h e = elim (Bool-cases (p x)) [
    | inl here ↦ let same : x ≡ a = ground arith in subst P same h.0
    | inr there ↦ find-All P p xs a h.1 (rw there at e)
  ]

  pub update_first-All {κ} :
      (P : A → Type κ) (p : A → Bool) (f : A → A) (xs : List A)
      → ((a : A) → P a → p a ≡ true → P (f a))
      → All P xs
      → All P (update_first p f xs)
  update_first-All P p f [] h all = tt
  update_first-All P p f (x ∷ xs) h all = elim (Bool-cases (p x)) [
    | inl here ↦ rw here (h x all.0 here, all.1)
    | inr there ↦ rw there (all.0, update_first-All P p f xs h all.1)
  ]

  -- The same where the one element that changes is known.
  pub update_first-All_found {κ} :
      (P : A → Type κ) (p : A → Bool) (f : A → A) (xs : List A)
      → ((a : A) → find p xs ≡ some a → P (f a))
      → All P xs
      → All P (update_first p f xs)
  update_first-All_found P p f [] h all = tt
  update_first-All_found P p f (x ∷ xs) h all = elim (Bool-cases (p x)) [
    | inl here ↦ rw here (h x (rw here), all.1)
    | inr there ↦ rw there (all.0, update_first-All_found P p f xs (λ a e. h a (rw there e)) all.1)
  ]

  pub All-map {κ ι} :
      (P : A → Type κ) (Q : A → Type ι) (xs : List A) → ((a : A) → P a → Q a) → All P xs → All Q xs
  All-map P Q [] h all = tt
  All-map P Q (x ∷ xs) h all = (h x all.0, All-map P Q xs h all.1)

  pub any-append : (p : A → Bool) (xs ys : List A) → any p (xs ++ ys) ≡ (any p xs || any p ys)
  any-append p [] ys = refl
  any-append p (x ∷ xs) ys = ground (arith, any-append p xs ys)

  -- A test that cannot see the change.
  pub any-update_first :
      (p q : A → Bool) (f : A → A) (xs : List A)
      → ((a : A) → q (f a) ≡ q a)
      → any q (update_first p f xs) ≡ any q xs
  any-update_first p q f [] h = refl
  any-update_first p q f (x ∷ xs) h = ground (arith, h x, any-update_first p q f xs h)

  -- A change that the filter leaves out.
  pub filter-update_first_apart :
      (p q : A → Bool) (f : A → A) (xs : List A)
      → ((a : A) → p a ≡ true → (q a ≡ false) × (q (f a) ≡ false))
      → filter q (update_first p f xs) ≡ filter q xs
  filter-update_first_apart p q f [] h = refl
  filter-update_first_apart p q f (x ∷ xs) h =
      ground (arith, h x, filter-update_first_apart p q f xs h)

  -- A change that the filter does not see leaves as many.
  pub length-filter-update_first :
      (p q : A → Bool) (f : A → A) (xs : List A)
      → ((a : A) → q (f a) ≡ q a)
      → length (filter q (update_first p f xs)) ≡ length (filter q xs)
  length-filter-update_first p q f [] h = refl
  length-filter-update_first p q f (x ∷ xs) h =
      ground (arith, h x, length-filter-update_first p q f xs h)
