-- ===== src/Identity/Rbac/Custom.antt =====
-- Only custom roles change, and only within the catalog: services/identity/src/rbac.memory.ts.
use lms_saas.Prelude.{
  ℕ, ◌≡◌, refl, ap, ◌∙◌, inl, inr, Bool-cases, Bool, true, false, Option, none, some, List, [], ◌∷◌,
  Text, text_eq, find, filter, filter-append, any, update_first, append-nil, arith,
}
use lms_saas.Identity.Rbac.{
  StoredRole, RbacStore, is_role, is_taken, renamed, remove_role, rename_found, delete_found,
  set_found, permitted, new_role, create_unless, create_role, rename_role, delete_role,
  set_role_permissions, all_known, Call, create, rename, delete, set_permissions, step, run,
}

abbrev pub system_roles : RbacStore → List StoredRole
system_roles s = filter (λ r. r.is_system) s.roles

-- A change of the custom role that is found leaves the system roles.
update_first-custom :
    (p : StoredRole → Bool) (f : StoredRole → StoredRole) (roles : List StoredRole)
    (role : StoredRole)
    → ((r : StoredRole) → (f r).is_system ≡ r.is_system)
    → find p roles ≡ some role
    → role.is_system ≡ false
    → filter (λ r. r.is_system) (update_first p f roles) ≡ filter (λ r. r.is_system) roles
update_first-custom p f [] role keeps h custom = refl
update_first-custom p f (r ∷ roles) role keeps h custom = elim (Bool-cases (p r)) [
  | inl here ↦
      let same : r ≡ role = ground (arith, here) in
      let plain : r.is_system ≡ false = ap (λ x. x.is_system) same ∙ custom in
      rw here (ground (arith, keeps r, plain))
  | inr there ↦
      let rest = update_first-custom p f roles role keeps (rw there at h) custom in
      rw there (ground (arith, rest))
]

remove_role-custom :
    (tenant id : Text) (roles : List StoredRole) (role : StoredRole)
    → find (is_role tenant id) roles ≡ some role
    → role.is_system ≡ false
    → filter (λ r. r.is_system) (remove_role tenant id roles) ≡ filter (λ r. r.is_system) roles
remove_role-custom tenant id [] role h custom = refl
remove_role-custom tenant id (r ∷ roles) role h custom = elim (Bool-cases (is_role tenant id r)) [
  | inl here ↦
      let same : r ≡ role = ground (arith, here) in
      let plain : r.is_system ≡ false = ap (λ x. x.is_system) same ∙ custom in
      rw here (ground (arith, plain))
  | inr there ↦
      let rest = remove_role-custom tenant id roles role (rw there at h) custom in
      rw there (ground (arith, rest))
]

rename_found-custom :
    (s : RbacStore) (tenant id name : Text) (found : Option StoredRole)
    → find (is_role tenant id) s.roles ≡ found
    → system_roles (rename_found s tenant id name found).1 ≡ system_roles s
rename_found-custom s tenant id name none h = refl
rename_found-custom s tenant id name (some role) h = elim (Bool-cases role.is_system) [
  | inl read_only ↦ rw read_only refl
  | inr custom ↦
      let rest =
        update_first-custom (is_role tenant id) (renamed name) s.roles role (λ r. refl) h custom in
      elim (Bool-cases (any (is_taken tenant id name) s.roles)) [
        | inl taken ↦ rw custom (rw taken refl)
        | inr free ↦ rw custom (rw free rest)
      ]
]

set_found-custom :
    (s : RbacStore) (tenant id : Text) (keys : List Text) (found : Option StoredRole)
    → find (is_role tenant id) s.roles ≡ found
    → system_roles (set_found s tenant id keys found).1 ≡ system_roles s
set_found-custom s tenant id keys none h = refl
set_found-custom s tenant id keys (some role) h = elim (Bool-cases role.is_system) [
  | inl read_only ↦ rw read_only refl
  | inr custom ↦
      let rest =
        update_first-custom (is_role tenant id) (permitted keys) s.roles role (λ r. refl) h
          custom in
      elim (Bool-cases (all_known s.catalog keys)) [
        | inl known ↦ rw custom (rw known rest)
        | inr unknown ↦ rw custom (rw unknown refl)
      ]
]

delete_found-custom :
    (s : RbacStore) (tenant id : Text) (found : Option StoredRole)
    → find (is_role tenant id) s.roles ≡ found
    → system_roles (delete_found s tenant id found).1 ≡ system_roles s
delete_found-custom s tenant id none h = refl
delete_found-custom s tenant id (some role) h = elim (Bool-cases role.is_system) [
  | inl read_only ↦ rw read_only refl
  | inr custom ↦ rw custom (remove_role-custom tenant id s.roles role h custom)
]

create_unless-custom :
    (ids : ℕ → Text) (s : RbacStore) (tenant name : Text) (taken : Bool)
    → system_roles (create_unless ids s tenant name taken).1 ≡ system_roles s
create_unless-custom ids s tenant name true = refl
create_unless-custom ids s tenant name false =
    filter-append (λ r. r.is_system) s.roles (new_role ids s tenant name ∷ [])
    ∙ append-nil (system_roles s)

step-system_roles :
    (ids : ℕ → Text) (s : RbacStore) (c : Call) → system_roles (step ids s c) ≡ system_roles s
unfolding create_role rename_role delete_role set_role_permissions
step-system_roles ids s (create tenant name) = create_unless-custom ids s tenant name _
step-system_roles ids s (rename tenant id name) = rename_found-custom s tenant id name _ refl
step-system_roles ids s (delete tenant id) = delete_found-custom s tenant id _ refl
step-system_roles ids s (set_permissions tenant id keys) = set_found-custom s tenant id _ _ refl

-- System roles are read-only: whatever calls are made, under whatever tenants, every system role stays
-- as it was, name, permissions and order, and none is added.
pub run-system_roles :
    (ids : ℕ → Text) (s : RbacStore) (calls : List Call)
    → system_roles (run ids s calls) ≡ system_roles s
unfolding run
run-system_roles ids s [] = refl
run-system_roles ids s (c ∷ calls) =
    run-system_roles ids (step ids s c) calls ∙ step-system_roles ids s c
