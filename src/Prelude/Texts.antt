-- ===== src/Prelude/Texts.antt =====
-- Strings as lists of UTF-16 code units, with `===`, `startsWith` and literals.
use Prim.Native.Char.{code}
use Prim.Native.Nat.{ℕ}
use Prim.Native.String.{String}
use mathlib.Core.Path.{◌≡◌, refl}
use mathlib.Core.Logic.{◌↔◌, ◌≢◌}
use mathlib.Core.Bool.{Bool, true, false, ◌&&◌}
use mathlib.Core.List.{List, [], ◌∷◌, ◌++◌}
use native.Mathlib.Omega.{arith}
use lms_saas.Prelude.Tests.{Equality, nat_eq, nat_eq_iff, ℕ_eq}

abbrev pub Text : Type 0
Text = List ℕ

-- The code units of an ASCII literal.
abbrev pub text : String → Text
text String.[] = []
text (String.◌∷◌ c s) = code c ∷ text s

abbrev pub text_beq : Text → Text → Bool
text_beq [] [] = true
text_beq (a ∷ s) (b ∷ t) = nat_eq a b && text_beq s t
text_beq _ _ = false

pub text_beq_iff : (s t : Text) → (text_beq s t ≡ true) ↔ (s ≡ t)
text_beq_iff [] [] = ground arith
text_beq_iff [] (b ∷ t) = ground arith
text_beq_iff (a ∷ s) [] = ground arith
text_beq_iff (a ∷ s) (b ∷ t) = ground (arith, nat_eq_iff a b, text_beq_iff s t)

instance abbrev pub text_eq : Equality Text
text_eq = record { test = text_beq; tests_equal = text_beq_iff }

-- `s.startsWith(prefix)`, the prefix first.
abbrev pub starts_with : Text → Text → Bool
starts_with [] s = true
starts_with (a ∷ p) [] = false
starts_with (a ∷ p) (b ∷ s) = nat_eq a b && starts_with p s

pub starts_with-append : (p s : Text) → starts_with p (p ++ s) ≡ true
starts_with-append [] s = refl
starts_with-append (a ∷ p) s = ground (arith, nat_eq_iff a a, starts_with-append p s)

-- The code unit does not occur in the text.
abbrev pub Lacks : ℕ → Text → Type 0
Lacks c [] = Unit
Lacks c (u ∷ s) = (u ≢ c) × Lacks c s

-- A separator that two heads lack splits their texts in one way.
pub append-separator-injective :
    (c : ℕ) (a b s t : Text)
    → Lacks c a
    → Lacks c b
    → a ++ (c ∷ s) ≡ b ++ (c ∷ t)
    → (a ≡ b) × (s ≡ t)
append-separator-injective c [] [] s t ha hb e = ground arith
append-separator-injective c [] (v ∷ b) s t ha hb e = ground arith
append-separator-injective c (u ∷ a) [] s t ha hb e = ground arith
append-separator-injective c (u ∷ a) (v ∷ b) s t ha hb e =
    ground (arith, append-separator-injective c a b s t ha.1 hb.1)

pub append-cancel_left : (p s t : Text) → p ++ s ≡ p ++ t → s ≡ t
append-cancel_left [] s t e = e
append-cancel_left (u ∷ p) s t e = append-cancel_left p s t (ground arith)

-- The same of a prefix.
pub starts_with-separator :
    (c : ℕ) (a b p s : Text)
    → Lacks c a
    → Lacks c b
    → starts_with (a ++ (c ∷ p)) (b ++ (c ∷ s)) ≡ true
    → (a ≡ b) × (starts_with p s ≡ true)
starts_with-separator c [] [] p s ha hb e = ground arith
starts_with-separator c [] (v ∷ b) p s ha hb e = ground (arith, nat_eq_iff c v)
starts_with-separator c (u ∷ a) [] p s ha hb e = ground (arith, nat_eq_iff u c)
starts_with-separator c (u ∷ a) (v ∷ b) p s ha hb e =
    ground (arith, nat_eq_iff u v, starts_with-separator c a b p s ha.1 hb.1)
