-- ===== src/Assignment/Groups.antt =====
-- The groups of a group assignment: services/assignment/src/groups.ts and groups.memory.ts. The id that
-- `generateId()` gives is an argument of the call that uses it.
use lms_saas.Prelude.{
  Bool, true, false, not, ◌&&◌, Option, none, some, List, [], ◌∷◌, ◌++◌, Text, text, text_eq, ◌==◌,
  ltb, length, find, filter, any, update_first, if◌then◌else◌,
}

pub record GroupRecord : Type 0 where
  pub id : Text
  pub tenant_id : Text
  pub assignment_id : Text
  pub name : Text
  pub created_at : Text

-- A group as it is stored and as its detail.
pub record StoredGroup : Type 0 where
  pub id : Text
  pub tenant_id : Text
  pub assignment_id : Text
  pub name : Text
  pub created_at : Text
  pub members : List Text

-- MemoryGroupStore: the groups, and the tenant and id of each seeded assignment.
pub record GroupStore : Type 0 where
  pub groups : List StoredGroup
  pub assignments : List (Text × Text)

pub data CreateGroupResult : Type 0 where
  group : GroupRecord → CreateGroupResult
  assignment_not_found : CreateGroupResult

pub data AddMemberResult : Type 0 where
  members_now : List Text → AddMemberResult
  group_not_found already_in_a_group : AddMemberResult

-- seedAssignment
unfoldable pub seed_assignment : GroupStore → Text → Text → GroupStore
seed_assignment s tenant assignment_id = record s {
  assignments = s.assignments ++ ((tenant, assignment_id) ∷ []);
}

-- hasAssignment
abbrev has_assignment : GroupStore → Text → Text → Bool
has_assignment s tenant assignment_id =
    any (λ a. (a.0 == tenant) && (a.1 == assignment_id)) s.assignments

abbrev pub is_member : Text → StoredGroup → Bool
is_member user g = any (λ u. u == user) g.members

abbrev pub is_group : Text → Text → StoredGroup → Bool
is_group tenant id g = (g.id == id) && (g.tenant_id == tenant)

abbrev record_of : StoredGroup → GroupRecord
record_of g = record {
  id = g.id;
  tenant_id = g.tenant_id;
  assignment_id = g.assignment_id;
  name = g.name;
  created_at = g.created_at;
}

abbrev pub new_group : Text → Text → Text → Text → StoredGroup
new_group id tenant assignment_id name = record {
  id = id;
  tenant_id = tenant;
  assignment_id = assignment_id;
  name = name;
  created_at = text "1970-01-01T00:00:00.000Z";
  members = [];
}

abbrev pub create_if :
    GroupStore → Text → Text → Text → Text → Bool → CreateGroupResult × GroupStore
create_if s id tenant assignment_id name false = (assignment_not_found, s)
create_if s id tenant assignment_id name true =
    let g = new_group id tenant assignment_id name in
    (group (record_of g), record s { groups = s.groups ++ (g ∷ []) })

-- createGroup
unfoldable pub create_group :
    GroupStore → Text → Text → Text → Text → CreateGroupResult × GroupStore
create_group s id tenant assignment_id name =
    create_if s id tenant assignment_id name (has_assignment s tenant assignment_id)

-- listGroups
unfoldable pub list_groups : GroupStore → Text → Text → List StoredGroup
list_groups s tenant assignment_id =
    filter (λ g. (g.tenant_id == tenant) && (g.assignment_id == assignment_id)) s.groups

-- getGroup
unfoldable pub get_group : GroupStore → Text → Text → Option StoredGroup
get_group s tenant id = find (is_group tenant id) s.groups

-- deleteGroup
unfoldable pub delete_group : GroupStore → Text → Text → Bool × GroupStore
delete_group s tenant id =
    let kept = filter (λ g. not (is_group tenant id g)) s.groups in
    (ltb (length kept) (length s.groups), record s { groups = kept })

-- The user is a member of another group of the assignment.
abbrev pub is_sibling : Text → Text → Text → Text → StoredGroup → Bool
is_sibling tenant assignment_id id user g =
    (g.tenant_id == tenant)
    && (g.assignment_id == assignment_id)
    && not (g.id == id)
    && is_member user g

abbrev pub joined : Text → StoredGroup → StoredGroup
joined user g = record g { members = g.members ++ (user ∷ []) }

abbrev pub add_unless :
    GroupStore → Text → Text → Text → StoredGroup → Bool → AddMemberResult × GroupStore
add_unless s tenant id user g true = (already_in_a_group, s)
add_unless s tenant id user g false = if is_member user g then (members_now g.members, s) else (
  members_now (g.members ++ (user ∷ [])),
  record s { groups = update_first (is_group tenant id) (joined user) s.groups },
)

abbrev pub add_found :
    GroupStore → Text → Text → Text → Option StoredGroup → AddMemberResult × GroupStore
add_found s tenant id user none = (group_not_found, s)
add_found s tenant id user (some g) =
    add_unless s tenant id user g (any (is_sibling tenant g.assignment_id id user) s.groups)

-- addMember
unfoldable pub add_member : GroupStore → Text → Text → Text → AddMemberResult × GroupStore
add_member s tenant id user = add_found s tenant id user (find (is_group tenant id) s.groups)

abbrev pub without : Text → StoredGroup → StoredGroup
without user g = record g { members = filter (λ u. not (u == user)) g.members }

abbrev pub remove_found : GroupStore → Text → Text → Text → Option StoredGroup → Bool × GroupStore
remove_found s tenant id user none = (false, s)
remove_found s tenant id user (some g) = (
  ltb (length (without user g).members) (length g.members),
  record s { groups = update_first (is_group tenant id) (without user) s.groups },
)

-- removeMember
unfoldable pub remove_member : GroupStore → Text → Text → Text → Bool × GroupStore
remove_member s tenant id user = remove_found s tenant id user (find (is_group tenant id) s.groups)

-- groupForUser
unfoldable pub group_for_user : GroupStore → Text → Text → Text → Option GroupRecord
group_for_user s tenant assignment_id user =
    elim (find
      (λ g. (g.tenant_id == tenant) && (g.assignment_id == assignment_id) && is_member user g)
      s.groups) [ none ↦ none | some g ↦ some (record_of g) ]
