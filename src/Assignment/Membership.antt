-- ===== src/Assignment/Membership.antt =====
-- A learner belongs to at most one group of an assignment: services/assignment/src/groups.memory.ts.
use lms_saas.Prelude.{
  IsPairwise-update_kept, ◌≡◌, ◌≢◌, refl, sym, subst, ◌∙◌, inl, inr, Bool-cases, Bool, true, false,
  not, ◌&&◌, ◌||◌, Option, none, some, List, [], ◌∷◌, Text, text_eq, ◌==◌, eq_iff, find, find-holds,
  filter, any, any-append, any-false, All, All-map, IsPairwise, IsPairwise-append_one,
  IsPairwise-update_first, IsPairwise-filter, arith,
}
use lms_saas.Assignment.Groups.{
  StoredGroup, GroupStore, seed_assignment, is_member, is_group, new_group, create_if, create_group,
  delete_group, is_sibling, joined, add_unless, add_found, add_member, without, remove_found,
  remove_member,
}

-- Two groups of one tenant have different ids, and if they are of one assignment, no common member.
abbrev pub AreSeparate : StoredGroup → StoredGroup → Type 0
AreSeparate g h =
    (((g.tenant_id == h.tenant_id) && (g.id == h.id)) ≡ false)
    × ((user : Text)
        → ((g.tenant_id == h.tenant_id)
            && (g.assignment_id == h.assignment_id)
            && is_member user g
            && is_member user h)
          ≡ false)

abbrev pub IsOrderly : GroupStore → Type 0
IsOrderly s = IsPairwise AreSeparate s.groups

-- The stores that calls reach from the empty one; an id is given once.
pub data IsReached : GroupStore → Type 0 where
  start : IsReached (record { groups = []; assignments = [] })
  seeded :
      (s : GroupStore) (tenant assignment_id : Text)
      → IsReached s
      → IsReached (seed_assignment s tenant assignment_id)
  created :
      (s : GroupStore) (id tenant assignment_id name : Text)
      → All (λ g. g.id ≢ id) s.groups
      → IsReached s
      → IsReached (create_group s id tenant assignment_id name).1
  deleted :
      (s : GroupStore) (tenant id : Text) → IsReached s → IsReached (delete_group s tenant id).1
  added :
      (s : GroupStore) (tenant id user : Text)
      → IsReached s
      → IsReached (add_member s tenant id user).1
  removed :
      (s : GroupStore) (tenant id user : Text)
      → IsReached s
      → IsReached (remove_member s tenant id user).1

and-false : (a b : Bool) → b ≡ false → (a && b) ≡ false
and-false true b h = h
and-false false b h = refl

AreSeparate-new :
    (g : StoredGroup) (id tenant assignment_id name : Text)
    → g.id ≢ id
    → AreSeparate g (new_group id tenant assignment_id name)
AreSeparate-new g id tenant assignment_id name apart = (
  and-false (g.tenant_id == tenant) (g.id == id) (ground (arith, eq_iff g.id id)),
  λ user. and-false _ false refl,
)

create_if-IsOrderly :
    (s : GroupStore) (id tenant assignment_id name : Text) (known : Bool)
    → All (λ g. g.id ≢ id) s.groups
    → IsOrderly s
    → IsOrderly (create_if s id tenant assignment_id name known).1
create_if-IsOrderly s id tenant assignment_id name false fresh h = h
create_if-IsOrderly s id tenant assignment_id name true fresh h =
    IsPairwise-append_one AreSeparate s.groups (new_group id tenant assignment_id name)
      (All-map (λ g. g.id ≢ id) (λ g. AreSeparate g (new_group id tenant assignment_id name))
        s.groups (λ g apart. AreSeparate-new g id tenant assignment_id name apart) fresh)
      h

eq_sym : (a b : Text) → (a == b) ≡ (b == a)
eq_sym a b = ground (arith, eq_iff a b, eq_iff b a)

-- No other group of the assignment has the user, and ids differ within the tenant.
no_meeting :
    (t a i m o : Bool)
    → (t && i) ≡ false
    → (t && a && not i && o) ≡ false
    → (t && a && m && o) ≡ false
no_meeting false a i m o clash sibling = refl
no_meeting true false i m o clash sibling = refl
no_meeting true true true m o clash sibling = absurd (ground arith)
no_meeting true true false true true clash sibling = absurd (ground arith)
no_meeting true true false true false clash sibling = refl
no_meeting true true false false o clash sibling = refl

is_member-joined :
    (user u : Text) (g : StoredGroup)
    → (user == u) ≡ false
    → is_member u (joined user g) ≡ is_member u g
is_member-joined user u g apart =
    any-append (λ v. v == u) g.members (user ∷ []) ∙ rw apart (or_false (is_member u g))
  where
    or_false : (b : Bool) → (b || (false || false)) ≡ b
    or_false true = refl
    or_false false = refl

module _ (tenant id user : Text) (g : StoredGroup) (g_id : g.id ≡ id)
    (g_tenant : g.tenant_id ≡ tenant) where
  -- Joining keeps a group apart from one in which the user is not.
  AreSeparate-joined :
      (y : StoredGroup)
      → is_sibling tenant g.assignment_id id user y ≡ false
      → AreSeparate g y
      → AreSeparate (joined user g) y
  AreSeparate-joined y sibling (clash, apart) = (
    clash,
    λ u. elim (Bool-cases (user == u)) [
      | inr other ↦
          subst
            (λ b.
              ((g.tenant_id == y.tenant_id)
                && (g.assignment_id == y.assignment_id)
                && b
                && is_member u y)
              ≡ false)
            (sym (is_member-joined user u g other)) (apart u)
      | inl same ↦
          let sibling_u : is_sibling tenant g.assignment_id id u y ≡ false =
            subst (λ v. is_sibling tenant g.assignment_id id v y ≡ false) ((eq_iff user u).0 same)
              sibling in
          no_meeting (g.tenant_id == y.tenant_id) (g.assignment_id == y.assignment_id)
            (g.id == y.id) (is_member u (joined user g)) (is_member u y) clash
            (rw (eq_sym g.tenant_id y.tenant_id) (
              rw (eq_sym g.assignment_id y.assignment_id)
                (rw (eq_sym g.id y.id) (rw g_tenant (rw g_id sibling_u)))))
    ],
  )

and_swap : (t a m o : Bool) → (t && a && m && o) ≡ (t && a && o && m)
and_swap true true true true = refl
and_swap true true true false = refl
and_swap true true false true = refl
and_swap true true false false = refl
and_swap true false m o = refl
and_swap false a m o = refl

AreSeparate-sym : (g h : StoredGroup) → AreSeparate g h → AreSeparate h g
AreSeparate-sym g h (clash, apart) = (
  rw (eq_sym h.tenant_id g.tenant_id) (rw (eq_sym h.id g.id) clash),
  λ u. rw (eq_sym h.tenant_id g.tenant_id) (
      rw (eq_sym h.assignment_id g.assignment_id) (
        and_swap (g.tenant_id == h.tenant_id) (g.assignment_id == h.assignment_id) (is_member u h)
          (is_member u g)
        ∙ apart u)),
)

any-filter : (p q : Text → Bool) (xs : List Text) → any p (filter q xs) ≡ true → any p xs ≡ true
any-filter p q [] h = h
any-filter p q (x ∷ xs) h = ground (arith, any-filter p q xs)

-- A group that loses members stays apart.
AreSeparate-without :
    (user : Text) (g y : StoredGroup) → AreSeparate g y → AreSeparate (without user g) y
AreSeparate-without user g y (clash, apart) = (
  clash,
  λ u. elim (Bool-cases (is_member u (without user g))) [
    | inl stays ↦
        let was : is_member u g ≡ true =
          any-filter (λ v. v == u) (λ v. not (v == user)) g.members stays in
        subst
          (λ b.
            ((g.tenant_id == y.tenant_id)
              && (g.assignment_id == y.assignment_id)
              && b
              && is_member u y)
            ≡ false)
          (was ∙ sym stays) (apart u)
    | inr gone ↦ rw gone (
        nobody ((g.tenant_id == y.tenant_id) && (g.assignment_id == y.assignment_id))
          (is_member u y))
  ],
)
  where
    nobody : (b o : Bool) → (b && false && o) ≡ false
    nobody true o = refl
    nobody false o = refl

group_key :
    (tenant id : Text) (g : StoredGroup)
    → is_group tenant id g ≡ true
    → (g.id ≡ id) × (g.tenant_id ≡ tenant)
group_key tenant id g h =
    (ground (arith, eq_iff g.id id), ground (arith, eq_iff g.tenant_id tenant))

add_unless-IsOrderly :
    (s : GroupStore) (tenant id user : Text) (g : StoredGroup) (sibling : Bool)
    → find (is_group tenant id) s.groups ≡ some g
    → any (is_sibling tenant g.assignment_id id user) s.groups ≡ sibling
    → IsOrderly s
    → IsOrderly (add_unless s tenant id user g sibling).1
add_unless-IsOrderly s tenant id user g true found siblings h = h
add_unless-IsOrderly s tenant id user g false found siblings h =
    let (g_id, g_tenant) =
      group_key tenant id g (find-holds (is_group tenant id) s.groups g found) in
    let join = AreSeparate-joined tenant id user g g_id g_tenant in
    elim (Bool-cases (is_member user g)) [
      | inl member ↦ rw member h
      | inr fresh ↦ rw fresh (
          IsPairwise-update_first AreSeparate
            (λ y. is_sibling tenant g.assignment_id id user y ≡ false) (is_group tenant id)
            (joined user) s.groups g join
            (λ y away apart.
              AreSeparate-sym (joined user g) y (join y away (AreSeparate-sym y g apart)))
            found (any-false (is_sibling tenant g.assignment_id id user) s.groups siblings) h)
    ]

add_found-IsOrderly :
    (s : GroupStore) (tenant id user : Text) (found : Option StoredGroup)
    → find (is_group tenant id) s.groups ≡ found
    → IsOrderly s
    → IsOrderly (add_found s tenant id user found).1
add_found-IsOrderly s tenant id user none found h = h
add_found-IsOrderly s tenant id user (some g) found h =
    add_unless-IsOrderly s tenant id user g _ found refl h

remove_found-IsOrderly :
    (s : GroupStore) (tenant id user : Text) (found : Option StoredGroup)
    → find (is_group tenant id) s.groups ≡ found
    → IsOrderly s
    → IsOrderly (remove_found s tenant id user found).1
remove_found-IsOrderly s tenant id user none found h = h
remove_found-IsOrderly s tenant id user (some g) found h =
    IsPairwise-update_kept AreSeparate (is_group tenant id) (without user) s.groups g
      (λ y apart. AreSeparate-without user g y apart)
      (λ y apart.
        AreSeparate-sym (without user g) y
          (AreSeparate-without user g y (AreSeparate-sym y g apart)))
      found h

-- One group per learner and assignment: in every store that the calls reach, any two groups of one
-- tenant have different ids, and no two groups of one assignment of a tenant have a common member,
-- where each group that is created gets an id that no group has.
pub IsReached-IsOrderly : (s : GroupStore) → IsReached s → IsOrderly s
unfolding seed_assignment create_group delete_group add_member remove_member
IsReached-IsOrderly s start = tt
IsReached-IsOrderly _ (seeded s tenant assignment_id r) = IsReached-IsOrderly s r
IsReached-IsOrderly _ (created s id tenant assignment_id name fresh r) =
    create_if-IsOrderly s id tenant assignment_id name _ fresh (IsReached-IsOrderly s r)
IsReached-IsOrderly _ (deleted s tenant id r) =
    IsPairwise-filter AreSeparate (λ g. not (is_group tenant id g)) s.groups
      (IsReached-IsOrderly s r)
IsReached-IsOrderly _ (added s tenant id user r) =
    add_found-IsOrderly s tenant id user _ refl (IsReached-IsOrderly s r)
IsReached-IsOrderly _ (removed s tenant id user r) =
    remove_found-IsOrderly s tenant id user _ refl (IsReached-IsOrderly s r)
