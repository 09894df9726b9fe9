-- ===== src/Enrollment/SelfReg/Seats.antt =====
-- The set of seat keys: what one more key does to the count of a section.
use lms_saas.Prelude.{
  ◌+◌, ◌≡◌, inl, inr, true, List, [], ◌∷◌, ◌++◌, Text, text_eq, eq_refl, starts_with,
  starts_with-append, starts_with-separator, Lacks, filter, filter-append, length-append,
  if◌then◌else◌, arith, append_assoc, Bool-cases,
}
use lms_saas.Enrollment.SelfReg.{section_prefix, seat_key, has, add, active_count}

pub has-add_self : (k : Text) (s : List Text) → has k (add k s) ≡ true
unfolding add
has-add_self k s = elim (Bool-cases (has k s)) [
  | inl old ↦ rw (old, add) old
  | inr new ↦ rw (new, add) (has-end s)
]
  where
    has-end : (s : List Text) → has k (s ++ (k ∷ [])) ≡ true
    has-end [] = ground (arith, eq_refl k)
    has-end (j ∷ s) = ground (arith, has-end s)

has-append : (j : Text) (s t : List Text) → has j s ≡ true → has j (s ++ t) ≡ true
has-append j [] t h = cc
has-append j (i ∷ s) t h = ground (arith, has-append j s t)

pub has-add_keep : (j k : Text) (s : List Text) → has j s ≡ true → has j (add k s) ≡ true
unfolding add
has-add_keep j k s h = ground (arith, has-append j s (k ∷ []) h)

seat_key-prefix :
    (tenant org user : Text) → seat_key tenant org user ≡ section_prefix tenant org ++ user
unfolding seat_key section_prefix
seat_key-prefix tenant org user = simp append_assoc

pub seat_key-in_section :
    (tenant org user : Text)
    → starts_with (section_prefix tenant org) (seat_key tenant org user) ≡ true
seat_key-in_section tenant org user =
    rw (seat_key-prefix tenant org user) (starts_with-append (section_prefix tenant org) user)

-- A key lies in one section only, when no tenant or section id holds a colon.
pub section_of_key :
    (tenant org tenant' org' user : Text)
    → Lacks b':' tenant
    → Lacks b':' org
    → Lacks b':' tenant'
    → Lacks b':' org'
    → starts_with (section_prefix tenant org) (seat_key tenant' org' user) ≡ true
    → (tenant ≡ tenant') × (org ≡ org')
unfolding section_prefix seat_key
section_of_key tenant org tenant' org' user ht ho ht' ho' e =
    let first = starts_with-separator b':' tenant tenant' _ _ ht ht' e in
    (first.0, (starts_with-separator b':' org org' _ _ ho ho' first.1).0)

active_count-append :
    (s : List Text) (k tenant org : Text)
    → active_count (s ++ (k ∷ [])) tenant org
      ≡ active_count s tenant org + (if starts_with (section_prefix tenant org) k then 1 else 0)
unfolding active_count
active_count-append s k tenant org = ground (
  arith,
  filter-append (starts_with (section_prefix tenant org)) s (k ∷ []),
  length-append (filter (starts_with (section_prefix tenant org)) s)
      (filter (starts_with (section_prefix tenant org)) (k ∷ [])),
)

-- Only a new key of the section raises its count, by one.
pub active_count-add :
    (s : List Text) (k tenant org : Text)
    → active_count (add k s) tenant org
      ≡ active_count s tenant org
        + (if has k s then 0 else if starts_with (section_prefix tenant org) k then 1 else 0)
unfolding add
active_count-add s k tenant org = ground (arith, active_count-append s k tenant org)
