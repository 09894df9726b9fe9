-- ===== src/Prelude/Maps.antt =====
-- A `Map` with string or composite keys, as an association list; `set` on a present key
-- overwrites its value in place.
use mathlib.Core.Path.{◌≡◌}
use mathlib.Core.Logic.{◌≢◌}
use mathlib.Core.Option.{Option, none, some}
use mathlib.Core.List.{List, [], ◌∷◌}
use native.Mathlib.Omega.{arith}
use lms_saas.Prelude.Tests.{Equality, ◌==◌, eq_iff, eq_refl, eq_ne, if◌then◌else◌}

abbrev pub Map {ℓ κ} : Type ℓ → Type κ → Type (ℓ ⊔ κ)
Map K V = List (K × V)

module _ {ℓ κ} {K : Type ℓ} {V : Type κ} ⦃e : Equality K⦄ where
  -- `m.get(k)`
  abbrev pub lookup : (key : K) (entries : Map K V) → Option V
  lookup key [] = none
  lookup key ((other, value) ∷ rest) = if other == key then some value else lookup key rest

  -- `m.set(k, v)`
  abbrev pub insert : (key : K) (value : V) (entries : Map K V) → Map K V
  insert key value [] = (key, value) ∷ []
  insert key value ((other, old) ∷ rest) =
      if other == key then (other, value) ∷ rest else (other, old) ∷ insert key value rest

  pub lookup-insert_self : (k : K) (v : V) (m : Map K V) → lookup k (insert k v m) ≡ some v
  lookup-insert_self k v [] = ground (arith, eq_refl k)
  lookup-insert_self k v ((j, w) ∷ m) = ground (arith, lookup-insert_self k v m)

  pub lookup-insert_ne :
      (j k : K) (v : V) (m : Map K V) → k ≢ j → lookup j (insert k v m) ≡ lookup j m
  lookup-insert_ne j k v [] h = ground (arith, eq_ne k j h)
  lookup-insert_ne j k v ((i, w) ∷ m) h =
      ground (arith, eq_ne k j h, eq_iff i k, eq_iff i j, lookup-insert_ne j k v m h)
