-- ===== src/Discussion/Replies.antt =====
-- What a deletion takes along: services/discussion/src/store.memory.ts.
use lms_saas.Prelude.{
  ℕ, zero, suc, ◌≡◌, refl, sym, ap, ◌∙◌, inl, inr, Bool, true, false, ◌↔◌, List, [], ◌∷◌, Text,
  text_eq, ◌==◌, eq_iff, length, filter, any, Bool-cases, arith, subst, if◌then◌else◌,
}
use mathlib.Core.List.{Memᴰ}
use mathlib.Core.List.Memᴰ.{head, tail}
use lms_saas.Discussion.Store.{
  DiscussionStore, PostRecord, parent_text, is_truthy, is_post, has, is_next, sweep, cascade,
  is_kept, delete_post,
}
use lms_saas.Discussion.Cascade.{
  IsClosed, sweep-next, sweep-other, sweep-grows, has-head, cascade-IsClosed,
}

-- The ids of a post and of what replies to it, at any depth.
pub data IsReply (posts : List PostRecord) (root : Text) : Text → Type 0 where
  itself : IsReply posts root root
  reply :
      (p : PostRecord)
      → Memᴰ p posts
      → is_truthy (parent_text p.parent_id) ≡ true
      → IsReply posts root (parent_text p.parent_id)
      → IsReply posts root p.id

either :
    (P : List Text → Type 0) (choice : Bool) (a b : List Text)
    → P a
    → P b
    → P (if choice then a else b)
either P true a b first second = first
either P false a b first second = second

module _ (posts : List PostRecord) (root : Text) where
  abbrev Sound : List Text → Type 0
  Sound ids = (u : Text) → has ids u ≡ true → IsReply posts root u

  Sound-next :
      (p : PostRecord) (ids : List Text)
      → Memᴰ p posts
      → is_next ids p ≡ true
      → Sound ids
      → Sound (p.id ∷ ids)
  Sound-next p ids member next sound u h = elim (Bool-cases (p.id == u)) [
    | inl same ↦ subst (IsReply posts root) ((eq_iff p.id u).0 same) (
        reply p member (ground (arith, next))
          (sound (parent_text p.parent_id) (ground (arith, next))))
    | inr other ↦ sound u (ground (arith, other, h))
  ]

  sweep-Sound :
      (rest : List PostRecord) (ids out : List Text) (before after : Bool)
      → ((p : PostRecord) → Memᴰ p rest → Memᴰ p posts)
      → sweep rest (ids, before) ≡ (out, after)
      → Sound ids
      → Sound out
  unfolding sweep
  sweep-Sound [] ids out before after part e sound = subst Sound (ap (λ s. s.0) e) sound
  sweep-Sound (p ∷ rest) ids out before after part e sound = elim (Bool-cases (is_next ids p)) [
    | inl next ↦
        sweep-Sound rest (p.id ∷ ids) out true after (λ q m. part q (tail m))
          (sym (sweep-next p rest ids before next) ∙ e)
          (Sound-next p ids (part p (head refl)) next sound)
    | inr other ↦
        sweep-Sound rest ids out before after (λ q m. part q (tail m))
          (sym (sweep-other p rest ids before other) ∙ e) sound
  ]

  cascade-Sound : (n : ℕ) (ids : List Text) → Sound ids → Sound (cascade n posts ids)
  unfolding cascade
  cascade-Sound zero ids sound = sound
  cascade-Sound (suc n) ids sound =
      let out = (sweep posts (ids, false)).0 in
      let swept : Sound out =
        sweep-Sound posts ids out false (sweep posts (ids, false)).1 (λ p m. m) refl sound in
      either Sound (sweep posts (ids, false)).1 (cascade n posts out) out
        (cascade-Sound n out swept) swept

  cascade-grows :
      (n : ℕ) (ids : List Text) (u : Text) → has ids u ≡ true → has (cascade n posts ids) u ≡ true
  unfolding cascade
  cascade-grows zero ids u h = h
  cascade-grows (suc n) ids u h =
      let out = (sweep posts (ids, false)).0 in
      let kept : has out u ≡ true =
        sweep-grows posts ids out false (sweep posts (ids, false)).1 u refl h in
      either (λ v. has v u ≡ true) (sweep posts (ids, false)).1 (cascade n posts out) out
        (cascade-grows n out u kept) kept

  IsClosed-is_next :
      (ids : List Text) (rest : List PostRecord) (p : PostRecord)
      → IsClosed ids rest
      → Memᴰ p rest
      → is_next ids p ≡ false
  IsClosed-is_next ids [] p closed m = elim m [ ]
  IsClosed-is_next ids (q ∷ rest) p closed (head same) =
      subst (λ x. is_next ids x ≡ false) (sym same) closed.0
  IsClosed-is_next ids (q ∷ rest) p closed (tail m) = IsClosed-is_next ids rest p closed.1 m

  IsReply-has :
      (ids : List Text) (u : Text)
      → IsClosed ids posts
      → has ids root ≡ true
      → IsReply posts root u
      → has ids u ≡ true
  IsReply-has ids _ closed h itself = h
  IsReply-has ids _ closed h (reply p member truthy r) =
      ground
        (arith, IsClosed-is_next ids posts p closed member, IsReply-has ids _ closed h r, truthy)

  -- The loop of a deletion gathers the post and what replies to it, at any depth.
  cascade_iff :
      (u : Text)
      → (has (cascade (suc (length posts)) posts (root ∷ [])) u ≡ true) ↔ IsReply posts root u
  cascade_iff u = (
    cascade-Sound (suc (length posts)) (root ∷ []) start u,
    IsReply-has _ u (cascade-IsClosed posts (root ∷ []))
        (cascade-grows (suc (length posts)) (root ∷ []) root (has-head [] root)),
  )
    where
      start : Sound (root ∷ [])
      start v h = subst (IsReply posts root) (ground (arith, eq_iff root v, h)) itself

module _ (keep : PostRecord → Bool) (p : PostRecord) where
  in_filter : (posts : List PostRecord) → Memᴰ p posts → keep p ≡ true → Memᴰ p (filter keep posts)
  in_filter [] m k = elim m [ ]
  in_filter (q ∷ rest) (head same) k =
      let kept : keep q ≡ true = subst (λ x. keep x ≡ true) same k in rw kept (head same)
  in_filter (q ∷ rest) (tail m) k = elim (Bool-cases (keep q)) [
    | inl here ↦ rw here (tail (in_filter rest m k))
    | inr there ↦ rw there (in_filter rest m k)
  ]

  of_filter :
      (posts : List PostRecord) → Memᴰ p (filter keep posts) → Memᴰ p posts × (keep p ≡ true)
  of_filter [] m = elim m [ ]
  of_filter (q ∷ rest) m = elim (Bool-cases (keep q)) [
    | inl here ↦ elim (rw here at m) [
      | head same ↦ (head same, subst (λ x. keep x ≡ true) (sym same) here)
      | tail later ↦ let (member, k) = of_filter rest later in (tail member, k)
    ]
    | inr there ↦ let (member, k) = of_filter rest (rw there at m) in (tail member, k)
  ]

-- A deletion takes along what replies to the post, and nothing else: where the tenant has the post,
-- it is answered with yes, and a post is on file afterwards exactly when it was before and is not
-- both of the tenant and the deleted post or a reply to it at any depth.
pub delete_post_iff :
    (s : DiscussionStore) (tenant id : Text)
    → any (is_post tenant id) s.posts ≡ true
    → ((delete_post s tenant id).0 ≡ true)
      × ((p : PostRecord)
          → Memᴰ p (delete_post s tenant id).1.posts
            ↔ (Memᴰ p s.posts × ¬ ((p.tenant_id ≡ tenant) × IsReply s.posts id p.id)))
unfolding delete_post
delete_post_iff s tenant id found = rw found (refl, λ p. (out p, into p))
  where
    ids : List Text
    ids = cascade (suc (length s.posts)) s.posts (id ∷ [])

    out :
        (p : PostRecord)
        → Memᴰ p (filter (is_kept tenant ids) s.posts)
        → Memᴰ p s.posts × ¬ ((p.tenant_id ≡ tenant) × IsReply s.posts id p.id)
    out p m =
        let (member, kept) = of_filter (is_kept tenant ids) p s.posts m in
        (
          member,
          λ (mine, replies).
              ground
                (arith, eq_iff p.tenant_id tenant, kept, (cascade_iff s.posts id p.id).1 replies),
        )

    into :
        (p : PostRecord)
        → Memᴰ p s.posts × ¬ ((p.tenant_id ≡ tenant) × IsReply s.posts id p.id)
        → Memᴰ p (filter (is_kept tenant ids) s.posts)
    into p (member, apart) =
        in_filter (is_kept tenant ids) p s.posts member (elim (Bool-cases (p.tenant_id == tenant)) [
          | inr foreign ↦ rw foreign refl
          | inl mine ↦ elim (Bool-cases (has ids p.id)) [
            | inr free ↦ rw mine (rw free refl)
            | inl taken ↦
                absurd (
                  apart ((eq_iff p.tenant_id tenant).0 mine, (cascade_iff s.posts id p.id).0 taken))
          ]
        ])
