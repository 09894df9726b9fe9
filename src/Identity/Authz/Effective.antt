-- ===== src/Identity/Authz/Effective.antt =====
-- The permissions that `effectivePermissions` shows are those that `checkAccess` uses:
-- services/identity/src/authz.ts.
use lms_saas.Prelude.{
  ◌≡◌, refl, sym, ◌∙◌, inl, inr, Bool-cases, Bool, true, false, ◌&&◌, ◌||◌, List, [], ◌∷◌, ◌++◌,
  map, Text, text, text_eq, ◌==◌, eq_iff, find, any, All, Lacks, append-separator-injective, arith,
}
use lms_saas.Identity.Authz.{
  Grant, OrgUnitAncestry, is_scope_applicable, grants_access, decide, check_access, bool_text,
  EffectivePermission, grant_key, effective_from, effective_permissions,
}

-- No separator of a key occurs in the parts before it.
abbrev pub IsPlain : Grant → Type 0
IsPlain g = Lacks 64 g.permission × Lacks 58 g.org_unit_id

-- An entry that covers the target for the permission.
abbrev pub covers : Text → OrgUnitAncestry → EffectivePermission → Bool
covers permission target e =
    (e.permission == permission) && is_scope_applicable e.org_unit_id e.cascade target

bool_text-injective : (a b : Bool) → bool_text a ≡ bool_text b → a ≡ b
bool_text-injective true true e = refl
bool_text-injective false false e = refl
bool_text-injective true false e = ground arith
bool_text-injective false true e = ground arith

-- Grants with one key have one permission, org unit and cascade.
grant_key-injective :
    (g h : Grant)
    → IsPlain g
    → IsPlain h
    → grant_key g ≡ grant_key h
    → (g.permission ≡ h.permission) × (g.org_unit_id ≡ h.org_unit_id) × (g.cascade ≡ h.cascade)
grant_key-injective g h pg ph e =
    let (first, rest) =
      append-separator-injective 64 g.permission h.permission
        (g.org_unit_id ++ (text ":" ++ bool_text g.cascade))
        (h.org_unit_id ++ (text ":" ++ bool_text h.cascade)) pg.0 ph.0 e in
    let (second, last) =
      append-separator-injective 58 g.org_unit_id h.org_unit_id (bool_text g.cascade)
        (bool_text h.cascade) pg.1 ph.1 rest in
    (first, second, bool_text-injective g.cascade h.cascade last)

grants_access-key :
    (permission : Text) (target : OrgUnitAncestry) (g h : Grant)
    → IsPlain g
    → IsPlain h
    → grant_key g ≡ grant_key h
    → grants_access permission target g ≡ grants_access permission target h
grants_access-key permission target g h pg ph e =
    let (first, second, third) = grant_key-injective g h pg ph e in
    rw first (rw second (rw third refl))

-- A grant whose key was seen adds nothing.
any-seen :
    (permission : Text) (target : OrgUnitAncestry) (g : Grant) (past : List Grant)
    → IsPlain g
    → All IsPlain past
    → any (λ k. k == grant_key g) (map grant_key past) ≡ true
    → grants_access permission target g ≡ true
    → any (grants_access permission target) past ≡ true
any-seen permission target g [] pg all seen hit = absurd (ground arith)
any-seen permission target g (h ∷ past) pg all seen hit =
    elim (Bool-cases (grant_key h == grant_key g)) [
      | inl same ↦
          let e = (eq_iff (grant_key h) (grant_key g)).0 same in
          let agree = grants_access-key permission target h g all.0 pg e in rw (agree ∙ hit) refl
      | inr apart ↦
          let later = any-seen permission target g past pg all.1 (rw apart at seen) hit in
          ground (arith, later)
    ]

effective_from-any :
    (permission : Text) (target : OrgUnitAncestry) (past gs : List Grant)
    → All IsPlain past
    → All IsPlain gs
    → (any (grants_access permission target) past
        || any (covers permission target) (effective_from (map grant_key past) gs))
      ≡ (any (grants_access permission target) past || any (grants_access permission target) gs)
effective_from-any permission target past [] old new = refl
effective_from-any permission target past (g ∷ gs) old new =
    elim (Bool-cases (any (λ k. k == grant_key g) (map grant_key past))) [
      | inl seen ↦
          let rest = effective_from-any permission target past gs old new.1 in
          let idle = any-seen permission target g past new.0 old seen in
          rw seen (ground (arith, rest, idle))
      | inr fresh ↦
          let rest = effective_from-any permission target (g ∷ past) gs (new.0, old) new.1 in
          rw fresh (ground (arith, rest))
    ]

check_access-any :
    (gs : List Grant) (permission : Text) (target : OrgUnitAncestry)
    → (decide (find (grants_access permission target) gs)).allowed
      ≡ any (grants_access permission target) gs
check_access-any [] permission target = refl
check_access-any (g ∷ gs) permission target = ground (arith, check_access-any gs permission target)

-- What the debugging endpoint shows decides access: for grants whose permissions lack `@` and whose org
-- unit ids lack `:`, an access check allows a permission at an org unit exactly when some entry of the
-- deduplicated effective permissions is for that permission and has a scope that covers the org unit.
pub check_access-effective_permissions :
    (gs : List Grant) (permission : Text) (target : OrgUnitAncestry)
    → All IsPlain gs
    → (check_access gs permission target).allowed
      ≡ any (covers permission target) (effective_permissions gs)
unfolding check_access effective_permissions
check_access-effective_permissions gs permission target all =
    check_access-any gs permission target ∙ sym (effective_from-any permission target [] gs tt all)
