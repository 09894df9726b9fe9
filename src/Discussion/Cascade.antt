-- ===== src/Discussion/Cascade.antt =====
-- The while loop of deletePost ends at a set that is closed under replies:
-- services/discussion/src/store.memory.ts.
use lms_saas.Prelude.{
  ℕ, zero, suc, ◌<◌, ◌≤◌, ◌≡◌, refl, sym, ap, ◌∙◌, inl, inr, Bool, true, false, not, ◌&&◌, ◌||◌,
  List, [], ◌∷◌, Text, text_eq, eq_iff, length, length-filter-le, filter, any, All, Bool-cases,
  arith, subst, if◌then◌else◌,
}
use lms_saas.Discussion.Store.{PostRecord, has, is_next, mark, sweep, cascade}

-- No post of the list replies to a removed one without being removed.
abbrev pub IsClosed : List Text → List PostRecord → Type 0
IsClosed ids posts = All (λ p. is_next ids p ≡ false) posts

pub sweep-next :
    (p : PostRecord) (rest : List PostRecord) (ids : List Text) (changed : Bool)
    → is_next ids p ≡ true
    → sweep (p ∷ rest) (ids, changed) ≡ sweep rest (p.id ∷ ids, true)
unfolding sweep
sweep-next p rest ids changed h = ap (sweep rest) (rw (h, mark) refl)

pub sweep-other :
    (p : PostRecord) (rest : List PostRecord) (ids : List Text) (changed : Bool)
    → is_next ids p ≡ false
    → sweep (p ∷ rest) (ids, changed) ≡ sweep rest (ids, changed)
unfolding sweep
sweep-other p rest ids changed h = ap (sweep rest) (rw (h, mark) refl)

pub has-head : (ids : List Text) (id : Text) → has (id ∷ ids) id ≡ true
has-head ids id = ground (arith, eq_iff id id)

has-tail : (ids : List Text) (u id : Text) → has ids id ≡ true → has (u ∷ ids) id ≡ true
has-tail ids u id h = ground (arith, h)

pub sweep-grows :
    (posts : List PostRecord) (ids out : List Text) (before after : Bool) (id : Text)
    → sweep posts (ids, before) ≡ (out, after)
    → has ids id ≡ true
    → has out id ≡ true
unfolding sweep
sweep-grows [] ids out before after id e h = subst (λ o. has o id ≡ true) (ap (λ s. s.0) e) h
sweep-grows (p ∷ rest) ids out before after id e h = elim (Bool-cases (is_next ids p)) [
  | inl next ↦
      sweep-grows rest (p.id ∷ ids) out true after id (sym (sweep-next p rest ids before next) ∙ e)
        (has-tail ids p.id id h)
  | inr other ↦
      sweep-grows rest ids out before after id (sym (sweep-other p rest ids before other) ∙ e) h
]

-- A pass that reports a change has added the id of a post.
sweep-adds :
    (posts : List PostRecord) (ids out : List Text)
    → sweep posts (ids, false) ≡ (out, true)
    → any (λ p. not (has ids p.id) && not (not (has out p.id))) posts ≡ true
unfolding sweep
sweep-adds [] ids out e = absurd (ground (arith, ap (λ s. s.1) e))
sweep-adds (p ∷ rest) ids out e = elim (Bool-cases (is_next ids p)) [
  | inl next ↦
      let added : has out p.id ≡ true =
        sweep-grows rest (p.id ∷ ids) out true true p.id
          (sym (sweep-next p rest ids false next) ∙ e) (has-head ids p.id) in
      let fresh : has ids p.id ≡ false = ground (arith, next) in rw added (rw fresh refl)
  | inr other ↦
      let later = sweep-adds rest ids out (sym (sweep-other p rest ids false other) ∙ e) in
      or_true (not (has ids p.id) && not (not (has out p.id))) _ later
]
  where
    or_true : (a b : Bool) → b ≡ true → (a || b) ≡ true
    or_true true b h = refl
    or_true false b h = h

-- A pass that starts as changed stays so.
sweep-changed : (posts : List PostRecord) (ids : List Text) → (sweep posts (ids, true)).1 ≡ true
unfolding sweep
sweep-changed [] ids = refl
sweep-changed (p ∷ rest) ids = elim (Bool-cases (is_next ids p)) [
  | inl next ↦ ap (λ s. s.1) (sweep-next p rest ids true next) ∙ sweep-changed rest (p.id ∷ ids)
  | inr other ↦ ap (λ s. s.1) (sweep-other p rest ids true other) ∙ sweep-changed rest ids
]

-- A pass that reports no change has met a closed set, and leaves it.
pub sweep-rests :
    (posts : List PostRecord) (ids out : List Text)
    → sweep posts (ids, false) ≡ (out, false)
    → (out ≡ ids) × IsClosed ids posts
unfolding sweep
sweep-rests [] ids out e = (sym (ap (λ s. s.0) e), tt)
sweep-rests (p ∷ rest) ids out e = elim (Bool-cases (is_next ids p)) [
  | inl next ↦
      let stays = ap (λ s. s.1) (sym e ∙ sweep-next p rest ids false next) in
      absurd (ground (arith, stays ∙ sweep-changed rest (p.id ∷ ids)))
  | inr other ↦
      let (same, closed) =
        sweep-rests rest ids out (sym (sweep-other p rest ids false other) ∙ e) in
      (same, (other, closed))
]

module _ {ℓ} {A : Type ℓ} (p q : A → Bool) (implied : (a : A) → q a ≡ true → p a ≡ true) where
  length-filter-implied : (xs : List A) → length (filter q xs) ≤ length (filter p xs)
  length-filter-implied [] = omega arith
  length-filter-implied (x ∷ xs) = ground (arith, implied x, length-filter-implied xs)

  -- A stronger test that fails on one element more leaves fewer.
  length-filter-lt :
      (xs : List A)
      → any (λ a. p a && not (q a)) xs ≡ true
      → length (filter q xs) < length (filter p xs)
  length-filter-lt [] h = absurd (ground (arith, h))
  length-filter-lt (x ∷ xs) h =
      ground (arith, implied x, length-filter-implied xs, length-filter-lt xs)

-- The posts whose id is not in the set.
abbrev unmarked : List PostRecord → List Text → List PostRecord
unmarked posts ids = filter (λ p. not (has ids p.id)) posts

sweep-marks :
    (posts : List PostRecord) (ids out : List Text)
    → sweep posts (ids, false) ≡ (out, true)
    → length (unmarked posts out) < length (unmarked posts ids)
sweep-marks posts ids out e =
    length-filter-lt (λ p. not (has ids p.id)) (λ p. not (has out p.id))
      (λ p h. ground (arith, sweep-grows posts ids out false true p.id e)) posts
      (sweep-adds posts ids out e)

cascade-IsClosed_within :
    (n : ℕ) (posts : List PostRecord) (ids : List Text)
    → length (unmarked posts ids) < n
    → IsClosed (cascade n posts ids) posts
unfolding cascade
cascade-IsClosed_within zero posts ids enough = absurd (omega arith)
cascade-IsClosed_within (suc n) posts ids enough =
    go (sweep posts (ids, false)).0 (sweep posts (ids, false)).1 refl
      (cascade-IsClosed_within n posts)
  where
    go :
        (out : List Text) (changed : Bool)
        → sweep posts (ids, false) ≡ (out, changed)
        → ((next : List Text)
            → length (unmarked posts next) < n
            → IsClosed (cascade n posts next) posts)
        → IsClosed (if changed then cascade n posts out else out) posts
    go out true e later = later out (omega (arith, sweep-marks posts ids out e))
    go out false e later =
        let (same, closed) = sweep-rests posts ids out e in
        subst (λ o. IsClosed o posts) (sym same) closed

-- A round for each post, and one more, are enough: the set that the loop ends with is closed.
pub cascade-IsClosed :
    (posts : List PostRecord) (ids : List Text)
    → IsClosed (cascade (suc (length posts)) posts ids) posts
cascade-IsClosed posts ids =
    cascade-IsClosed_within (suc (length posts)) posts ids
      (omega (arith, length-filter-le (λ p. not (has ids p.id)) posts))
