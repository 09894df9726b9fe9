-- ===== src/Tenant/Provisioning/Subtree.antt =====
-- `listSubtree` gives a district's delegated administrators their tenants: all of them, and no others.
use lms_saas.Prelude.{
  ℕ, zero, suc, ◌≤◌, ◌≡◌, ◌≢◌, refl, sym, ap, subst, ◌∙◌, ◌⊎◌, inl, inr, Bool-cases, Bool, true,
  false, not, ◌&&◌, Option, none, some, List, [], ◌∷◌, ◌++◌, Text, text_eq, ◌==◌, eq_iff, eq_ne,
  filter, any, any-append, arith, All, All-append,
}
use lms_saas.Tenant.Registry.{TenantRecord}
use lms_saas.Tenant.Provisioning.{is_below, mark_one, mark, mark_all, list_subtree}

abbrev pub In : TenantRecord → List TenantRecord → Type 0
In t [] = ⊥
In t (u ∷ ts) = (t ≡ u) ⊎ In t ts

abbrev marked : Text → List Text → Bool
marked x ids = any (λ id. id == x) ids

-- `x` lies `n` parent links below `p` in the registry.
abbrev pub Descends : List TenantRecord → Text → ℕ → Text → Type 0
Descends ts p zero x = p ≡ x
Descends ts p (suc n) x =
    (t : TenantRecord) × In t ts × (t.parent_id ≡ some p) × (p ≢ []) × Descends ts t.id n x

mark_one-keeps :
    (x : Text) (t : TenantRecord) (m : List Text × Bool)
    → marked x m.0 ≡ true
    → marked x (mark_one t m).0 ≡ true
mark_one-keeps x t (ids, grew) h = ground (arith, any-append (λ id. id == x) ids (t.id ∷ []))

mark-keeps :
    (x : Text) (ts : List TenantRecord) (m : List Text × Bool)
    → marked x m.0 ≡ true
    → marked x (mark ts m).0 ≡ true
mark-keeps x [] m h = h
mark-keeps x (t ∷ ts) m h = mark-keeps x ts (mark_one t m) (mark_one-keeps x t m h)

mark_one-adds :
    (p : Text) (t : TenantRecord) (m : List Text × Bool)
    → t.parent_id ≡ some p
    → p ≢ []
    → marked p m.0 ≡ true
    → marked t.id (mark_one t m).0 ≡ true
mark_one-adds p t (ids, grew) up real h =
    ground
      (arith, up, eq_ne p [] real, any-append (λ id. id == t.id) ids (t.id ∷ []), eq_iff t.id t.id)

mark-adds :
    (p : Text) (t : TenantRecord) (ts : List TenantRecord) (m : List Text × Bool)
    → In t ts
    → t.parent_id ≡ some p
    → p ≢ []
    → marked p m.0 ≡ true
    → marked t.id (mark ts m).0 ≡ true
mark-adds p t [] m member up real h = absurd member
mark-adds p t (u ∷ ts) m (inl here) up real h =
    mark-keeps t.id ts (mark_one u m)
      (subst (λ u. marked t.id (mark_one u m).0 ≡ true) here (mark_one-adds p t m up real h))
mark-adds p t (u ∷ ts) m (inr later) up real h =
    mark-adds p t ts (mark_one u m) later up real (mark_one-keeps p u m h)

-- A round that reports no growth has changed nothing.
mark-grown : (ts : List TenantRecord) (ids : List Text) → (mark ts (ids, true)).1 ≡ true
mark-grown [] ids = refl
mark-grown (t ∷ ts) ids = elim (Bool-cases (is_below ids t.parent_id && not (marked t.id ids))) [
  | inl grow ↦ ground (arith, grow, mark-grown ts (ids ++ (t.id ∷ [])))
  | inr stay ↦ ground (arith, stay, mark-grown ts ids)
]

mark-still :
    (ts : List TenantRecord) (ids : List Text)
    → (mark ts (ids, false)).1 ≡ false
    → (mark ts (ids, false)).0 ≡ ids
mark-still [] ids h = refl
mark-still (t ∷ ts) ids h = elim (Bool-cases (is_below ids t.parent_id && not (marked t.id ids))) [
  | inl grow ↦ ground (arith, grow, mark-grown ts (ids ++ (t.id ∷ [])))
  | inr stay ↦ ground (arith, stay, mark-still ts ids)
]

mark_all-keeps :
    (k : ℕ) (x : Text) (ts : List TenantRecord) (ids : List Text)
    → marked x ids ≡ true
    → marked x (mark_all k ts ids) ≡ true
mark_all-keeps zero x ts ids h = h
mark_all-keeps (suc k) x ts ids h = ground (
  arith,
  mark-keeps x ts (ids, false) h,
  mark_all-keeps k x ts (mark ts (ids, false)).0 (mark-keeps x ts (ids, false) h),
)

-- Marks that a round leaves alone are closed.
closed-marks :
    (ts : List TenantRecord) (ids : List Text) (n : ℕ) (p x : Text)
    → (mark ts (ids, false)).0 ≡ ids
    → marked p ids ≡ true
    → Descends ts p n x
    → marked x ids ≡ true
closed-marks ts ids zero p x still h d = subst (λ y. marked y ids ≡ true) d h
closed-marks ts ids (suc n) p x still h (t, member, up, real, d) =
    closed-marks ts ids n t.id x still
      (subst (λ m. marked t.id m ≡ true) still (mark-adds p t ts (ids, false) member up real h)) d

mark_all_complete :
    (k n : ℕ) (ts : List TenantRecord) (ids : List Text) (p x : Text)
    → n ≤ k
    → marked p ids ≡ true
    → Descends ts p n x
    → marked x (mark_all k ts ids) ≡ true
mark_all_complete k zero ts ids p x le h d =
    mark_all-keeps k x ts ids (subst (λ y. marked y ids ≡ true) d h)
mark_all_complete zero (suc n) ts ids p x le h d = absurd (omega (arith, le))
mark_all_complete (suc k) (suc n) ts ids p x le h (t, member, up, real, d) =
    elim (Bool-cases (mark ts (ids, false)).1) [
      | inl grew ↦ rw grew (
          mark_all_complete k n ts (mark ts (ids, false)).0 t.id x (omega (arith, le))
            (mark-adds p t ts (ids, false) member up real h) d)
      | inr stopped ↦
          let still = mark-still ts ids stopped in
          rw stopped (
            subst (λ m. marked x m ≡ true) (sym still)
              (closed-marks ts ids (suc n) p x still h (t, member, up, real, d)))
    ]

In-filter :
    (q : TenantRecord → Bool) (t : TenantRecord) (ts : List TenantRecord)
    → In t ts
    → q t ≡ true
    → In t (filter q ts)
In-filter q t [] member h = absurd member
In-filter q t (u ∷ ts) (inl here) h =
    let kept : q u ≡ true = subst (λ u. q u ≡ true) here h in rw kept (inl here)
In-filter q t (u ∷ ts) (inr later) h = elim (Bool-cases (q u)) [
  | inl kept ↦ rw kept (inr (In-filter q t ts later h))
  | inr gone ↦ rw gone (In-filter q t ts later h)
]

In-unfilter :
    (q : TenantRecord → Bool) (t : TenantRecord) (ts : List TenantRecord)
    → In t (filter q ts)
    → In t ts × (q t ≡ true)
In-unfilter q t [] member = absurd member
In-unfilter q t (u ∷ ts) member = elim (Bool-cases (q u)) [
  | inl kept ↦ split (In-unfilter q t ts) (rw kept at member) kept
  | inr gone ↦ let r = In-unfilter q t ts (rw gone at member) in (inr r.0, r.1)
]
  where
    split :
        (In t (filter q ts) → In t ts × (q t ≡ true))
        → In t (u ∷ filter q ts)
        → q u ≡ true
        → In t (u ∷ ts) × (q t ≡ true)
    split behind (inl here) kept = (inl here, subst (λ u. q u ≡ true) (sym here) kept)
    split behind (inr later) kept = let r = behind later in (inr r.0, r.1)

-- The subtree is complete: a tenant of the registry that lies at most 64 parent links below the root,
-- or is the root, is listed.
pub list_subtree_complete :
    (ts : List TenantRecord) (root : Text) (n : ℕ) (t : TenantRecord)
    → n ≤ 64
    → In t ts
    → Descends ts root n t.id
    → In t (list_subtree ts root)
unfolding list_subtree
list_subtree_complete ts root n t le member d =
    In-filter (λ u. marked u.id (mark_all 64 ts (root ∷ []))) t ts member
      (mark_all_complete 64 n ts (root ∷ []) root t.id le (ground (arith, eq_iff root root)) d)

-- Some number of parent links below.
abbrev pub IsDescendant : List TenantRecord → Text → Text → Type 0
IsDescendant ts root x = (n : ℕ) × Descends ts root n x

pub Descends-child :
    (ts : List TenantRecord) (p x : Text) (n : ℕ) (t : TenantRecord)
    → Descends ts p n x
    → In t ts
    → t.parent_id ≡ some x
    → x ≢ []
    → Descends ts p (suc n) t.id
Descends-child ts p x zero t d member up real =
    (t, member, (up ∙ ap some (sym d)), (λ e. real (sym d ∙ e)), refl)
Descends-child ts p x (suc n) t (u, m, v, r, d) member up real =
    (u, m, v, r, Descends-child ts u.id x n t d member up real)

marked-All :
    (P : Text → Type 0) (x : Text) (ids : List Text) → All P ids → marked x ids ≡ true → P x
marked-All P x [] all h = absurd (ground arith)
marked-All P x (y ∷ ids) all h = elim (Bool-cases (y == x)) [
  | inl here ↦ subst P ((eq_iff y x).0 here) all.0
  | inr there ↦ marked-All P x ids all.1 (rw there at h)
]

below-parent :
    (ids : List Text) (up : Option Text)
    → is_below ids up ≡ true
    → (p : Text) × (up ≡ some p) × (p ≢ []) × (marked p ids ≡ true)
below-parent ids none h = absurd (ground arith)
below-parent ids (some p) h = (p, refl, ground (arith, eq_iff p []), ground arith)

module _ (ts : List TenantRecord) (root : Text) where
  mark_one-descendants :
      (t : TenantRecord) (m : List Text × Bool)
      → In t ts
      → All (IsDescendant ts root) m.0
      → All (IsDescendant ts root) (mark_one t m).0
  mark_one-descendants t (ids, grew) member all =
      elim (Bool-cases (is_below ids t.parent_id && not (marked t.id ids))) [
        | inl grow ↦
            let (p, up, real, h) = below-parent ids t.parent_id (ground (arith, grow)) in
            let (n, d) = marked-All (IsDescendant ts root) p ids all h in
            rw grow (
              All-append (IsDescendant ts root) ids (t.id ∷ []) all
                ((suc n, Descends-child ts root p n t d member up real), tt))
        | inr stay ↦ rw stay all
      ]

  mark-descendants :
      (us : List TenantRecord) (m : List Text × Bool)
      → ((t : TenantRecord) → In t us → In t ts)
      → All (IsDescendant ts root) m.0
      → All (IsDescendant ts root) (mark us m).0
  mark-descendants [] m sub all = all
  mark-descendants (t ∷ us) m sub all =
      mark-descendants us (mark_one t m) (λ u member. sub u (inr member))
        (mark_one-descendants t m (sub t (inl refl)) all)

  mark_all-descendants :
      (k : ℕ) (ids : List Text)
      → All (IsDescendant ts root) ids
      → All (IsDescendant ts root) (mark_all k ts ids)
  mark_all-descendants zero ids all = all
  mark_all-descendants (suc k) ids all =
      let next = mark-descendants ts (ids, false) (λ t member. member) all in
      elim (Bool-cases (mark ts (ids, false)).1) [
        | inl grew ↦ rw grew (mark_all-descendants k (mark ts (ids, false)).0 next)
        | inr stopped ↦ rw stopped next
      ]

  -- The subtree is sound: a tenant that is listed is in the registry, and is the root or lies some
  -- number of parent links below it.
  pub list_subtree_sound :
      (t : TenantRecord) → In t (list_subtree ts root) → In t ts × IsDescendant ts root t.id
  unfolding list_subtree
  list_subtree_sound t member =
      let (listed, h) = In-unfilter (λ u. marked u.id (mark_all 64 ts (root ∷ []))) t ts member in
      (
        listed,
        marked-All (IsDescendant ts root) t.id (mark_all 64 ts (root ∷ []))
            (mark_all-descendants 64 (root ∷ []) ((0, refl), tt)) h,
      )
