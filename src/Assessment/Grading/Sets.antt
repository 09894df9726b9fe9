-- ===== src/Assessment/Grading/Sets.antt =====
-- A multi-select answer is right exactly when it names the keyed options and no others:
-- `sameSet` of services/assessment/src/store.ts.
use lms_saas.Prelude.{
  suc, ◌≡◌, ◌≢◌, refl, ◌↔◌, inl, inr, Bool-cases, true, false, List, [], ◌∷◌, Text, text_eq, ◌==◌,
  eq_iff, eq_refl, length, if◌then◌else◌, arith,
}
use lms_saas.Assessment.Grading.{includes, includes_all, same_texts}

-- No text occurs twice.
abbrev pub IsDistinct : List Text → Type 0
IsDistinct [] = Unit
IsDistinct (x ∷ xs) = (includes xs x ≡ false) × IsDistinct xs

-- Without the first occurrence.
abbrev remove_one : Text → List Text → List Text
remove_one x [] = []
remove_one x (y ∷ ys) = if y == x then ys else y ∷ remove_one x ys

length-remove_one :
    (x : Text) (xs : List Text) → includes xs x ≡ true → length xs ≡ suc (length (remove_one x xs))
length-remove_one x [] h = absurd (ground arith)
length-remove_one x (y ∷ ys) h = ground (arith, length-remove_one x ys)

includes-remove_one :
    (x z : Text) (xs : List Text) → x ≢ z → includes (remove_one x xs) z ≡ includes xs z
includes-remove_one x z [] apart = refl
includes-remove_one x z (y ∷ ys) apart =
    ground (arith, includes-remove_one x z ys apart, eq_iff y x, eq_iff y z)

-- A list that holds its distinct texts still holds them without one that is not among them.
includes_all-remove_one :
    (x : Text) (xs ys : List Text)
    → includes ys x ≡ false
    → includes_all xs ys ≡ true
    → includes_all (remove_one x xs) ys ≡ true
includes_all-remove_one x xs [] fresh h = refl
includes_all-remove_one x xs (y ∷ ys) fresh h =
    let apart : x ≢ y = ground (arith, eq_iff y x) in
    ground (arith, includes-remove_one x y xs apart, includes_all-remove_one x xs ys)

-- Equally many texts, all of the distinct ones among them, are no others.
includes-pigeonhole :
    (a b : List Text) (z : Text)
    → IsDistinct b
    → length a ≡ length b
    → includes_all a b ≡ true
    → includes a z ≡ true
    → includes b z ≡ true
includes-pigeonhole [] [] z d e h k = k
includes-pigeonhole (x ∷ a) [] z d e h k = absurd (omega (arith, e))
includes-pigeonhole a (y ∷ b) z d e h k = elim (Bool-cases (y == z)) [
  | inl here ↦ ground (arith, here)
  | inr there ↦
      let held : includes a y ≡ true = ground arith in
      let apart : y ≢ z = ground (arith, eq_iff y z) in
      let shorter : length (remove_one y a) ≡ length b =
        omega (arith, e, length-remove_one y a held) in
      let rest : includes_all a b ≡ true = ground arith in
      let later =
        includes-pigeonhole (remove_one y a) b z d.1 shorter
          (includes_all-remove_one y a b d.0 rest)
          (ground (arith, includes-remove_one y z a apart)) in
      ground (arith, later)
]

includes_all-includes :
    (a b : List Text) (z : Text)
    → includes_all a b ≡ true
    → includes b z ≡ true
    → includes a z ≡ true
includes_all-includes a [] z h k = absurd (ground arith)
includes_all-includes a (y ∷ b) z h k = ground (arith, eq_iff y z, includes_all-includes a b z)

includes_all-from :
    (a b : List Text)
    → ((z : Text) → includes b z ≡ true → includes a z ≡ true)
    → includes_all a b ≡ true
includes_all-from a [] h = refl
includes_all-from a (y ∷ b) h =
    let first = h y (ground (arith, eq_refl y)) in
    ground (arith, first, includes_all-from a b (λ z k. h z (ground (arith, k))))

-- A multi-select answer is accepted exactly when it is as long as the key and names exactly the keyed
-- options, where the key names no option twice.
pub same_texts_iff :
    (given key : List Text)
    → IsDistinct key
    → (same_texts given key ≡ true)
      ↔ ((length given ≡ length key) × ((z : Text) → includes given z ≡ includes key z))
unfolding same_texts
same_texts_iff given key d = (
  λ h.
      let same : length given ≡ length key = ground arith in
      let all : includes_all given key ≡ true = ground arith in
      (
        same,
        λ z. elim (Bool-cases (includes given z)) [
          | inl held ↦
              let there = includes-pigeonhole given key z d same all held in
              ground (arith, held, there)
          | inr missing ↦ elim (Bool-cases (includes key z)) [
            | inl keyed ↦
                absurd (ground (arith, includes_all-includes given key z all keyed, missing))
            | inr apart ↦ ground (arith, missing, apart)
          ]
        ],
      ),
  λ (same, agree).
      let all = includes_all-from given key (λ z k. ground (arith, agree z, k)) in
      ground (arith, same, all),
)
