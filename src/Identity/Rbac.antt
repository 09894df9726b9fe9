-- ===== src/Identity/Rbac.antt =====
-- Roles built from a permission catalog: services/identity/src/rbac.ts and rbac.memory.ts. `ids` is what
-- `generateId` returns, call by call; a set is the list of its members in the order of insertion.
pub mod Custom
use lms_saas.Prelude.{
  ℕ, suc, Bool, true, false, not, ◌&&◌, Option, none, some, List, [], ◌∷◌, ◌++◌, map, Text, text,
  text_eq, ◌==◌, ltb, find, filter, any, update_first, if◌then◌else◌,
}

pub record PermissionRecord : Type 0 where
  pub key : Text
  pub description : Option Text

pub record RoleRecord : Type 0 where
  pub id : Text
  pub tenant_id : Text
  pub name : Text
  pub is_system : Bool

-- A role with its set of permission keys.
pub record StoredRole : Type 0 where
  pub id : Text
  pub tenant_id : Text
  pub name : Text
  pub is_system : Bool
  pub permissions : List Text

pub record RoleDetail : Type 0 where
  pub role : RoleRecord
  pub permissions : List Text

-- The payload of an event, whose type is `role.created`, `role.updated` or `role.deleted`.
pub data RoleEvent : Type 0 where
  role_created : Text → Text → RoleEvent
  role_renamed : Text → Text → RoleEvent
  role_permissions_set : Text → List Text → RoleEvent
  role_deleted : Text → RoleEvent

pub record EmittedEvent : Type 0 where
  pub tenant_id : Text
  pub event_type : Text
  pub payload : RoleEvent

-- MemoryRbacStore, and how often the id source was read.
pub record RbacStore : Type 0 where
  pub roles : List StoredRole
  pub events : List EmittedEvent
  pub catalog : List PermissionRecord
  pub minted : ℕ

pub data RbacResult {ℓ} (A : Type ℓ) : Type ℓ where
  ok : A → RbacResult A
  name_taken role_not_found system_role unknown_permission : RbacResult A

-- What a deletion answers: `{ ok: true }`.
pub data Deleted : Type 0 where
  deleted : Deleted

-- DEFAULT_PERMISSIONS
abbrev pub default_permissions : List PermissionRecord
default_permissions =
    record { key = text "courses:manage"; description = some (text "Create and edit courses.") }
    ∷ record { key = text "users:manage"; description = some (text "Invite and manage users.") }
    ∷ record { key = text "grades:manage"; description = some (text "Enter and release grades.") }
    ∷ record {
      key = text "discussions:posts:manage";
      description = some (text "Moderate discussion posts.");
    }
    ∷ record { key = text "reports:view"; description = some (text "View analytics and reports.") }
    ∷ []

-- emit
abbrev emit : Text → Text → RoleEvent → List EmittedEvent → List EmittedEvent
emit tenant event_type payload events =
    events ++ (record { tenant_id = tenant; event_type = event_type; payload = payload } ∷ [])

-- toRecord
abbrev pub to_record : StoredRole → RoleRecord
to_record r = record { id = r.id; tenant_id = r.tenant_id; name = r.name; is_system = r.is_system }

abbrev pub is_role : Text → Text → StoredRole → Bool
is_role tenant id r = (r.id == id) && (r.tenant_id == tenant)

abbrev pub has_name : Text → Text → StoredRole → Bool
has_name tenant name r = (r.tenant_id == tenant) && (r.name == name)

-- Another role has the name.
abbrev pub is_taken : Text → Text → Text → StoredRole → Bool
is_taken tenant id name r = has_name tenant name r && not (r.id == id)

-- `new Set(keys)`
abbrev pub unique_onto : List Text → List Text → List Text
unique_onto seen [] = seen
unique_onto seen (k ∷ keys) =
    if any (λ j. j == k) seen then unique_onto seen keys else unique_onto (seen ++ (k ∷ [])) keys

-- The order of `sort()` on strings.
abbrev text_le : Text → Text → Bool
text_le [] t = true
text_le (a ∷ s) [] = false
text_le (a ∷ s) (b ∷ t) = if ltb a b then true else if ltb b a then false else text_le s t

abbrev insert_text : Text → List Text → List Text
insert_text k [] = k ∷ []
insert_text k (j ∷ keys) = if text_le k j then k ∷ j ∷ keys else j ∷ insert_text k keys

abbrev sort_texts : List Text → List Text
sort_texts [] = []
sort_texts (k ∷ keys) = insert_text k (sort_texts keys)

abbrev pub all_known : List PermissionRecord → List Text → Bool
all_known catalog [] = true
all_known catalog (k ∷ keys) = any (λ p. p.key == k) catalog && all_known catalog keys

-- seedRole
unfoldable pub seed_role : RbacStore → RoleRecord → List Text → RbacStore
seed_role s r permissions = record s {
  roles =
      s.roles
      ++ (record {
        id = r.id;
        tenant_id = r.tenant_id;
        name = r.name;
        is_system = r.is_system;
        permissions = unique_onto [] permissions;
      }
          ∷ []);
}

-- listPermissions
unfoldable pub list_permissions : RbacStore → List PermissionRecord
list_permissions s = s.catalog

-- listRoles
unfoldable pub list_roles : RbacStore → Text → List RoleRecord
list_roles s tenant = map to_record (filter (λ r. r.tenant_id == tenant) s.roles)

abbrev detail_of : Option StoredRole → Option RoleDetail
detail_of none = none
detail_of (some r) = some (record { role = to_record r; permissions = sort_texts r.permissions })

-- getRole
unfoldable pub get_role : RbacStore → Text → Text → Option RoleDetail
get_role s tenant id = detail_of (find (is_role tenant id) s.roles)

abbrev pub renamed : Text → StoredRole → StoredRole
renamed name r = record r { name = name }

-- renameRole, on the role that is found.
abbrev pub rename_found :
    RbacStore → Text → Text → Text → Option StoredRole → RbacResult RoleRecord × RbacStore
rename_found s tenant id name none = (role_not_found, s)
rename_found s tenant id name (some role) =
    if role.is_system
    then (system_role, s)
    else if any (is_taken tenant id name) s.roles
    then (name_taken, s)
    else (
      ok (to_record (renamed name role)),
      record s {
        roles = update_first (is_role tenant id) (renamed name) s.roles;
        events = emit tenant (text "role.updated") (role_renamed id name) s.events;
      },
    )

-- renameRole
unfoldable pub rename_role : RbacStore → Text → Text → Text → RbacResult RoleRecord × RbacStore
rename_role s tenant id name = rename_found s tenant id name (find (is_role tenant id) s.roles)

-- `this.roles.filter((r) => r !== role)`, for the role that `find` returned.
abbrev pub remove_role : Text → Text → List StoredRole → List StoredRole
remove_role tenant id [] = []
remove_role tenant id (r ∷ roles) =
    if is_role tenant id r then roles else r ∷ remove_role tenant id roles

abbrev pub delete_found :
    RbacStore → Text → Text → Option StoredRole → RbacResult Deleted × RbacStore
delete_found s tenant id none = (role_not_found, s)
delete_found s tenant id (some role) = if role.is_system then (system_role, s) else (
  ok deleted,
  record s {
    roles = remove_role tenant id s.roles;
    events = emit tenant (text "role.deleted") (role_deleted id) s.events;
  },
)

-- deleteRole
unfoldable pub delete_role : RbacStore → Text → Text → RbacResult Deleted × RbacStore
delete_role s tenant id = delete_found s tenant id (find (is_role tenant id) s.roles)

abbrev pub permitted : List Text → StoredRole → StoredRole
permitted keys r = record r { permissions = keys }

abbrev pub set_found :
    RbacStore → Text → Text → List Text → Option StoredRole → RbacResult RoleDetail × RbacStore
set_found s tenant id keys none = (role_not_found, s)
set_found s tenant id keys (some role) =
    if role.is_system
    then (system_role, s)
    else if not (all_known s.catalog keys)
    then (unknown_permission, s)
    else (
      ok (record { role = to_record role; permissions = sort_texts keys }),
      record s {
        roles = update_first (is_role tenant id) (permitted keys) s.roles;
        events = emit tenant (text "role.updated") (role_permissions_set id keys) s.events;
      },
    )

-- setRolePermissions
unfoldable pub set_role_permissions :
    RbacStore → Text → Text → List Text → RbacResult RoleDetail × RbacStore
set_role_permissions s tenant id keys =
    set_found s tenant id (unique_onto [] keys) (find (is_role tenant id) s.roles)

module _ (ids : ℕ → Text) where
  abbrev pub new_role : RbacStore → Text → Text → StoredRole
  new_role s tenant name = record {
    id = ids s.minted;
    tenant_id = tenant;
    name = name;
    is_system = false;
    permissions = [];
  }

  -- createRole, where the name is taken and where it is free.
  abbrev pub create_unless : RbacStore → Text → Text → Bool → RbacResult RoleRecord × RbacStore
  create_unless s tenant name true = (name_taken, s)
  create_unless s tenant name false =
      let role = new_role s tenant name in
      (
        ok (to_record role),
        record s {
          roles = s.roles ++ (role ∷ []);
          events = emit tenant (text "role.created") (role_created role.id name) s.events;
          minted = suc s.minted;
        },
      )

  -- createRole
  unfoldable pub create_role : RbacStore → Text → Text → RbacResult RoleRecord × RbacStore
  create_role s tenant name = create_unless s tenant name (any (has_name tenant name) s.roles)

-- A call that may change roles, with its tenant.
pub data Call : Type 0 where
  create : Text → Text → Call
  rename : Text → Text → Text → Call
  delete : Text → Text → Call
  set_permissions : Text → Text → List Text → Call

module _ (ids : ℕ → Text) where
  abbrev pub step : RbacStore → Call → RbacStore
  step s (create tenant name) = (create_role ids s tenant name).1
  step s (rename tenant id name) = (rename_role s tenant id name).1
  step s (delete tenant id) = (delete_role s tenant id).1
  step s (set_permissions tenant id keys) = (set_role_permissions s tenant id keys).1

  unfoldable pub run : RbacStore → List Call → RbacStore
  run s [] = s
  run s (c ∷ calls) = run (step s c) calls
