-- ===== src/Tenant/Delegation/Hierarchy.antt =====
-- `isDescendantOf` walks parent links up from the target: services/tenant/src/delegation.ts.
use lms_saas.Prelude.{
  ℕ, zero, suc, ◌<◌, ◌≡◌, ◌≢◌, refl, sym, ap, subst, ◌∙◌, ◌⊎◌, ◌↔◌, inl, inr, Bool-cases,
  Option-cases, Bool, true, false, Option, none, some, List, [], ◌∷◌, map, Text, text_eq, ◌==◌,
  eq_iff, eq_ne, if◌then◌else◌, Map, lookup, insert, lookup-insert_self, lookup-insert_ne, All,
  arith,
}
use lms_saas.Tenant.Registry.{TenantRecord}
use lms_saas.Tenant.Provisioning.{list_subtree}
use lms_saas.Tenant.Provisioning.Subtree.{In, Descends, Descends-child, list_subtree_complete}

-- A tenant of the hierarchy and its parent.
pub record TenantNode : Type 0 where
  pub id : Text
  pub parent_id : Option Text

-- `new Map(nodes.map((n) => [n.id, n]))`, from the entries so far.
abbrev pub index_onto : Map Text TenantNode → List TenantNode → Map Text TenantNode
index_onto m [] = m
index_onto m (n ∷ ns) = index_onto (insert n.id n m) ns

abbrev pub by_id : List TenantNode → Map Text TenantNode
by_id nodes = index_onto [] nodes

-- The `while` loop at `current`, with the rounds that `guard` leaves.
abbrev pub walk_up : ℕ → Map Text TenantNode → Text → Option TenantNode → Bool
walk_up zero m ancestor current = false
walk_up (suc rounds) m ancestor none = false
walk_up (suc rounds) m ancestor (some current) = elim current.parent_id [
  | none ↦ false
  | some p ↦
      if p == []
      then false
      else if p == ancestor
      then true
      else walk_up rounds m ancestor (lookup p m)
]

-- isDescendantOf
unfoldable pub is_descendant_of : Text → Text → List TenantNode → Bool
is_descendant_of target ancestor nodes =
    let m = by_id nodes in walk_up 64 m ancestor (lookup target m)

abbrev pub InNodes : TenantNode → List TenantNode → Type 0
InNodes n [] = ⊥
InNodes n (k ∷ ks) = (n ≡ k) ⊎ InNodes n ks

-- No two nodes have one id.
abbrev pub HasUniqueIds : List TenantNode → Type 0
HasUniqueIds [] = Unit
HasUniqueIds (n ∷ ns) = All (λ k. k.id ≢ n.id) ns × HasUniqueIds ns

-- `a` is reached from `x` by `n` parent links of the nodes.
abbrev pub Ascends : List TenantNode → Text → ℕ → Text → Type 0
Ascends nodes x zero a = x ≡ a
Ascends nodes x (suc n) a =
    (k : TenantNode) × InNodes k nodes
    × (k.id ≡ x)
    × ((p : Text) × (k.parent_id ≡ some p) × (p ≢ []) × Ascends nodes p n a)

index_onto-apart :
    (x : Text) (m : Map Text TenantNode) (ns : List TenantNode)
    → All (λ k. k.id ≢ x) ns
    → lookup x (index_onto m ns) ≡ lookup x m
index_onto-apart x m [] h = refl
index_onto-apart x m (n ∷ ns) h =
    index_onto-apart x (insert n.id n m) ns h.1 ∙ lookup-insert_ne x n.id n m h.0

index_onto-found :
    (k : TenantNode) (m : Map Text TenantNode) (ns : List TenantNode)
    → InNodes k ns
    → HasUniqueIds ns
    → lookup k.id (index_onto m ns) ≡ some k
index_onto-found k m [] member u = absurd member
index_onto-found k m (n ∷ ns) (inl here) u =
    subst (λ j. lookup j.id (index_onto (insert n.id n m) ns) ≡ some j) (sym here)
      (index_onto-apart n.id (insert n.id n m) ns u.0 ∙ lookup-insert_self n.id n m)
index_onto-found k m (n ∷ ns) (inr later) u = index_onto-found k (insert n.id n m) ns later u.1

insert-lookup :
    (x : Text) (n k : TenantNode) (m : Map Text TenantNode)
    → lookup x (insert n.id n m) ≡ some k
    → ((k ≡ n) × (k.id ≡ x)) ⊎ (lookup x m ≡ some k)
insert-lookup x n k m h = elim (Bool-cases (n.id == x)) [
  | inl same ↦
      let e = (eq_iff n.id x).0 same in
      let found : lookup x (insert n.id n m) ≡ some n =
        subst (λ y. lookup y (insert n.id n m) ≡ some n) e (lookup-insert_self n.id n m) in
      let k_n : k ≡ n = ground arith in inl (k_n, ap (λ j. j.id) k_n ∙ e)
  | inr apart ↦ inr (sym (lookup-insert_ne x n.id n m (ground (arith, eq_iff n.id x))) ∙ h)
]

index_onto-lookup :
    (x : Text) (k : TenantNode) (m : Map Text TenantNode) (ns : List TenantNode)
    → lookup x (index_onto m ns) ≡ some k
    → (InNodes k ns × (k.id ≡ x)) ⊎ (lookup x m ≡ some k)
index_onto-lookup x k m [] h = inr h
index_onto-lookup x k m (n ∷ ns) h = elim (index_onto-lookup x k (insert n.id n m) ns h) [
  | inl (member, e) ↦ inl (inr member, e)
  | inr found ↦ elim (insert-lookup x n k m found) [
    | inl (k_n, e) ↦ inl (inl k_n, e)
    | inr before ↦ inr before
  ]
]

by_id-lookup :
    (nodes : List TenantNode) (x : Text) (k : TenantNode)
    → lookup x (by_id nodes) ≡ some k
    → InNodes k nodes × (k.id ≡ x)
by_id-lookup nodes x k h = elim (index_onto-lookup x k [] nodes h) [
  | inl found ↦ found
  | inr nowhere ↦ absurd (ground arith)
]

walk_up_sound :
    (nodes : List TenantNode) (rounds : ℕ) (a x : Text)
    → walk_up rounds (by_id nodes) a (lookup x (by_id nodes)) ≡ true
    → (n : ℕ) × (n < rounds) × Ascends nodes x (suc n) a
walk_up_sound nodes zero a x h = absurd (ground arith)
walk_up_sound nodes (suc rounds) a x h = elim (Option-cases (lookup x (by_id nodes))) [
  | inl missing ↦ absurd (ground (arith, missing))
  | inr (k, found) ↦ elim (Option-cases k.parent_id) [
    | inl top ↦ absurd (ground (arith, found, top))
    | inr (p, up) ↦
        let (member, e) = by_id-lookup nodes x k found in
        let real : p ≢ [] = ground (arith, found, up, eq_iff p []) in
        elim (Bool-cases (p == a)) [
          | inl here ↦ (0, omega arith, (k, member, e, (p, up, real, (eq_iff p a).0 here)))
          | inr there ↦
              let above : walk_up rounds (by_id nodes) a (lookup p (by_id nodes)) ≡ true =
                ground (arith, found, up, there, eq_ne p [] real) in
              let (n, le, chain) = walk_up_sound nodes rounds a p above in
              (suc n, omega (arith, le), (k, member, e, (p, up, real, chain)))
        ]
  ]
]

walk_up_complete :
    (nodes : List TenantNode) (rounds : ℕ) (a x : Text) (n : ℕ)
    → HasUniqueIds nodes
    → n < rounds
    → Ascends nodes x (suc n) a
    → walk_up rounds (by_id nodes) a (lookup x (by_id nodes)) ≡ true
walk_up_complete nodes zero a x n u le c = absurd (omega (arith, le))
walk_up_complete nodes (suc rounds) a x zero u le (k, member, e, (p, up, real, end)) =
    let found : lookup x (by_id nodes) ≡ some k =
      subst (λ y. lookup y (by_id nodes) ≡ some k) e (index_onto-found k [] nodes member u) in
    ground (arith, found, up, eq_ne p [] real, eq_iff p a, end)
walk_up_complete nodes (suc rounds) a x (suc n) u le (k, member, e, (p, up, real, chain)) =
    let found : lookup x (by_id nodes) ≡ some k =
      subst (λ y. lookup y (by_id nodes) ≡ some k) e (index_onto-found k [] nodes member u) in
    let above = walk_up_complete nodes rounds a p n u (omega (arith, le)) chain in
    ground (arith, found, up, eq_ne p [] real, above)

-- The walk up the parent links is the ancestry of the hierarchy: where no two nodes have one id,
-- `isDescendantOf` answers yes exactly when the ancestor is reached from the target by at least one
-- and at most 64 parent links.
pub is_descendant_of_iff :
    (nodes : List TenantNode) (target ancestor : Text)
    → HasUniqueIds nodes
    → (is_descendant_of target ancestor nodes ≡ true)
      ↔ ((n : ℕ) × (n < 64) × Ascends nodes target (suc n) ancestor)
unfolding is_descendant_of
is_descendant_of_iff nodes target ancestor u = (
  λ h. walk_up_sound nodes 64 ancestor target h,
  λ (n, le, chain). walk_up_complete nodes 64 ancestor target n u le chain,
)

-- A tenant of the registry as a node of the hierarchy.
abbrev pub node_of : TenantRecord → TenantNode
node_of t = record { id = t.id; parent_id = t.parent_id }

InNodes-map :
    (k : TenantNode) (ts : List TenantRecord)
    → InNodes k (map node_of ts)
    → (t : TenantRecord) × In t ts × (k ≡ node_of t)
InNodes-map k [] member = absurd member
InNodes-map k (t ∷ ts) (inl here) = (t, inl refl, here)
InNodes-map k (t ∷ ts) (inr later) =
    let (u, member, e) = InNodes-map k ts later in (u, inr member, e)

Ascends-Descends :
    (ts : List TenantRecord) (x : Text) (n : ℕ) (a : Text)
    → Ascends (map node_of ts) x n a
    → Descends ts a n x
Ascends-Descends ts x zero a e = sym e
Ascends-Descends ts x (suc n) a (k, member, e, (p, up, real, chain)) =
    let (t, listed, node) = InNodes-map k ts member in
    let same : t.id ≡ x = sym (ap (λ j. j.id) node) ∙ e in
    subst (λ y. Descends ts a (suc n) y) same
      (Descends-child ts a p n t (Ascends-Descends ts p n a chain) listed
        (sym (ap (λ j. j.parent_id) node) ∙ up) real)

-- The walk up and the walk down agree: a tenant of the registry that `isDescendantOf` puts below
-- another is in the list that `listSubtree` gives for that other.
pub is_descendant_of-list_subtree :
    (ts : List TenantRecord) (t : TenantRecord) (root : Text)
    → In t ts
    → is_descendant_of t.id root (map node_of ts) ≡ true
    → In t (list_subtree ts root)
unfolding is_descendant_of
is_descendant_of-list_subtree ts t root member h =
    let (n, le, chain) = walk_up_sound (map node_of ts) 64 root t.id h in
    list_subtree_complete ts root (suc n) t (omega (arith, le)) member
      (Ascends-Descends ts t.id (suc n) root chain)
