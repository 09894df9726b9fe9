-- ===== src/Relay/Pending.antt =====
-- The unpublished rows of a tenant, their positions and their order: services/relay/src/store.memory.ts.
use lms_saas.Prelude.{
  ℕ, zero, suc, ◌+◌, ◌≡◌, refl, sym, ap, subst, ◌∙◌, inl, inr, Bool-cases, Bool, true, false, ◌||◌,
  Option, none, some, List, [], ◌∷◌, map, Text, text_eq, ℕ_eq, nat_eq, nat_eq_iff, any, filter,
  length, arith,
}
use mathlib.Core.List.{Permᴰ}
use lms_saas.Relay.Store.{OutboxRow, stamp, indexed, is_pending, place, sort_by_occurred_at}

abbrev pub at_position : ℕ → ℕ × OutboxRow → Bool
at_position k r = nat_eq r.0 k

-- The row at a position, counted from `i`.
abbrev pub row_at : ℕ → List OutboxRow → Option OutboxRow
row_at k [] = none
row_at zero (r ∷ rows) = some r
row_at (suc k) (r ∷ rows) = row_at k rows

-- Every row of the tenant that is unpublished is in the list of those to deliver.
abbrev pub Covers : Text → List (ℕ × OutboxRow) → List OutboxRow → Type 0
Covers tenant todo rows =
    (k : ℕ) (r : OutboxRow)
    → row_at k rows ≡ some r
    → is_pending tenant r ≡ true
    → any (at_position k) todo ≡ true

pub none_left :
    (tenant : Text) (rows : List OutboxRow)
    → Covers tenant [] rows
    → filter (is_pending tenant) rows ≡ []
none_left tenant [] c = refl
none_left tenant (r ∷ rows) c = ground (arith, c 0 r refl, none_left tenant rows (λ k. c (suc k)))

pub row_at-stamp_self :
    (k : ℕ) (now : Text) (rows : List OutboxRow) (r : OutboxRow) (tenant : Text)
    → row_at k (stamp k now rows) ≡ some r
    → is_pending tenant r ≡ false
row_at-stamp_self k now [] r tenant h = ground arith
row_at-stamp_self zero now (x ∷ rows) r tenant h = ground arith
row_at-stamp_self (suc k) now (x ∷ rows) r tenant h = row_at-stamp_self k now rows r tenant h

pub row_at-stamp_apart :
    (j k : ℕ) (now : Text) (rows : List OutboxRow)
    → nat_eq j k ≡ false
    → row_at k (stamp j now rows) ≡ row_at k rows
row_at-stamp_apart j k now [] h = refl
row_at-stamp_apart zero zero now (x ∷ rows) h = ground arith
row_at-stamp_apart zero (suc k) now (x ∷ rows) h = refl
row_at-stamp_apart (suc j) zero now (x ∷ rows) h = refl
row_at-stamp_apart (suc j) (suc k) now (x ∷ rows) h =
    row_at-stamp_apart j k now rows (ground (arith, nat_eq_iff j k, nat_eq_iff (suc j) (suc k)))

pub Covers-stamp :
    (tenant now : Text) (r : ℕ × OutboxRow) (todo : List (ℕ × OutboxRow)) (rows : List OutboxRow)
    → Covers tenant (r ∷ todo) rows
    → Covers tenant todo (stamp r.0 now rows)
Covers-stamp tenant now r todo rows c k x found pending = elim (Bool-cases (nat_eq r.0 k)) [
  | inl here ↦ absurd (
      ground (
        arith,
        pending,
        row_at-stamp_self k now rows x tenant
            (subst (λ j. row_at k (stamp j now rows) ≡ some x) ((nat_eq_iff r.0 k).0 here) found),
      ))
  | inr there ↦
      ground (arith, there, c k x (sym (row_at-stamp_apart r.0 k now rows there) ∙ found) pending)
]

-- The list that a drain starts from.
pub indexed-covers :
    (tenant : Text) (i k : ℕ) (rows : List OutboxRow) (r : OutboxRow)
    → row_at k rows ≡ some r
    → is_pending tenant r ≡ true
    → any (at_position (i + k)) (filter (λ s. is_pending tenant s.1) (indexed i rows)) ≡ true
indexed-covers tenant i k [] r found pending = ground arith
indexed-covers tenant i zero (x ∷ rows) r found pending = ground (arith, nat_eq_iff i i)
indexed-covers tenant i (suc k) (x ∷ rows) r found pending =
    ground (arith, indexed-covers tenant (suc i) k rows r found pending)

pub length-indexed :
    (tenant : Text) (i : ℕ) (rows : List OutboxRow)
    → length (filter (λ s. is_pending tenant s.1) (indexed i rows))
      ≡ length (filter (is_pending tenant) rows)
length-indexed tenant i [] = refl
length-indexed tenant i (r ∷ rows) = ground (arith, length-indexed tenant (suc i) rows)

-- Without their positions, these are the unpublished rows of the tenant.
pub map-indexed :
    (tenant : Text) (i : ℕ) (rows : List OutboxRow)
    → map (λ r. r.1) (filter (λ s. is_pending tenant s.1) (indexed i rows))
      ≡ filter (is_pending tenant) rows
map-indexed tenant i [] = refl
map-indexed tenant i (r ∷ rows) = ground (arith, map-indexed tenant (suc i) rows)

pub same : (rows : List OutboxRow) → Permᴰ rows rows
same [] = Permᴰ.nil
same (r ∷ rows) = Permᴰ.cons refl (same rows)

module _ (precedes : Text → Text → Bool) where
  pub any-place :
      (q : ℕ × OutboxRow → Bool) (r : ℕ × OutboxRow) (xs : List (ℕ × OutboxRow))
      → any q (place precedes r xs) ≡ (q r || any q xs)
  any-place q r [] = refl
  any-place q r (s ∷ xs) = ground (arith, any-place q r xs)

  pub any-sort :
      (q : ℕ × OutboxRow → Bool) (xs : List (ℕ × OutboxRow))
      → any q (sort_by_occurred_at precedes xs) ≡ any q xs
  any-sort q [] = refl
  any-sort q (r ∷ xs) =
      ground (arith, any-place q r (sort_by_occurred_at precedes xs), any-sort q xs)

  pub length-place :
      (r : ℕ × OutboxRow) (xs : List (ℕ × OutboxRow))
      → length (place precedes r xs) ≡ suc (length xs)
  length-place r [] = refl
  length-place r (s ∷ xs) = ground (arith, length-place r xs)

  pub length-sort :
      (xs : List (ℕ × OutboxRow)) → length (sort_by_occurred_at precedes xs) ≡ length xs
  length-sort [] = refl
  length-sort (r ∷ xs) =
      ground (arith, length-place r (sort_by_occurred_at precedes xs), length-sort xs)

  pub place-perm :
      (r : ℕ × OutboxRow) (xs : List (ℕ × OutboxRow))
      → Permᴰ (map (λ x. x.1) (place precedes r xs)) (r.1 ∷ map (λ x. x.1) xs)
  place-perm r [] = Permᴰ.cons refl Permᴰ.nil
  place-perm r (s ∷ xs) = elim (Bool-cases (precedes r.1.occurred_at s.1.occurred_at)) [
    | inl here ↦ rw here (same _)
    | inr there ↦ rw there (Permᴰ.trans (Permᴰ.cons refl (place-perm r xs)) (Permᴰ.swap refl refl))
  ]

  pub sort-perm :
      (xs : List (ℕ × OutboxRow))
      → Permᴰ (map (λ x. x.1) (sort_by_occurred_at precedes xs)) (map (λ x. x.1) xs)
  sort-perm [] = Permᴰ.nil
  sort-perm (r ∷ xs) =
      Permᴰ.trans (place-perm r (sort_by_occurred_at precedes xs)) (Permᴰ.cons refl (sort-perm xs))

-- All of a row but its stamp.
abbrev pub unstamped : OutboxRow → OutboxRow
unstamped r = record r { published_at = none }

pub stamp-kept :
    (k : ℕ) (now : Text) (rows : List OutboxRow)
    → map unstamped (stamp k now rows) ≡ map unstamped rows
stamp-kept k now [] = refl
stamp-kept zero now (r ∷ rows) = refl
stamp-kept (suc k) now (r ∷ rows) = ap (◌∷◌ (unstamped r)) (stamp-kept k now rows)
