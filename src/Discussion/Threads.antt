-- ===== src/Discussion/Threads.antt =====
-- Every reply keeps the post it replies to: services/discussion/src/store.memory.ts.
use lms_saas.Prelude.{
  suc, ◌≡◌, refl, sym, ◌∙◌, inl, inr, Bool, true, false, not, ◌&&◌, ◌||◌, Option, none, some, List,
  [], ◌∷◌, ◌++◌, Text, text_eq, eq_iff, length, filter, any, any-append, any-update_first,
  update_first, update_first-All, All, All-map, All-append, Bool-cases, arith, subst,
}
use lms_saas.Discussion.Store.{
  DiscussionStore, PostRecord, NewForumInput, NewTopicInput, NewPostInput, create_forum,
  create_topic, parent_text, is_truthy, is_parent, is_post, new_post, create_post, post_in_topic,
  change_found, set_pinned, update_post, ForumRecord, topic_in, is_topic, is_next, cascade, is_kept,
  delete_post,
}
use lms_saas.Discussion.Cascade.{cascade-IsClosed}

-- The calls that change the store, with the tenant, and the id and the time that a new row gets.
pub data Call : Type 0 where
  forum : Text → Text → NewForumInput → Call
  topic : Text → Text → Text → NewTopicInput → Call
  post : Text → Text → Text → Text → NewPostInput → Call
  pinned : Text → Text → Bool → Call
  edited : Text → Text → Text → Call
  deleted : Text → Text → Call

abbrev pub step : Call → DiscussionStore → DiscussionStore
step (forum id tenant input) s = (create_forum s id tenant input).1
step (topic id tenant forum_id input) s = (create_topic s id tenant forum_id input).1
step (post id time tenant topic_id input) s = (create_post s id time tenant topic_id input).1
step (pinned tenant id on) s = (set_pinned s tenant id on).1
step (edited tenant id body) s = (update_post s tenant id body).1
step (deleted tenant id) s = (delete_post s tenant id).1

abbrev pub run : List Call → DiscussionStore → DiscussionStore
run [] s = s
run (c ∷ calls) s = run calls (step c s)

-- The post is no reply, or what it replies to is a post of its topic and tenant.
abbrev pub is_attached : List PostRecord → PostRecord → Bool
is_attached posts p =
    not (is_truthy (parent_text p.parent_id))
    || any (is_parent p.tenant_id p.topic_id (parent_text p.parent_id)) posts

abbrev pub IsThreaded : List PostRecord → Type 0
IsThreaded posts = All (λ p. is_attached posts p ≡ true) posts

or_more : (a b c : Bool) → (a || b) ≡ true → (a || (b || c)) ≡ true
or_more true b c h = refl
or_more false true c h = refl
or_more false false c h = absurd (ground (arith, h))

IsThreaded-append :
    (posts : List PostRecord) (p : PostRecord)
    → is_attached posts p ≡ true
    → IsThreaded posts
    → IsThreaded (posts ++ (p ∷ []))
IsThreaded-append posts p attached h =
    All-append (λ q. is_attached (posts ++ (p ∷ [])) q ≡ true) posts (p ∷ [])
      (All-map (λ q. is_attached posts q ≡ true) (λ q. is_attached (posts ++ (p ∷ [])) q ≡ true)
        posts more h)
      (more p attached, tt)
  where
    more : (q : PostRecord) → is_attached posts q ≡ true → is_attached (posts ++ (p ∷ [])) q ≡ true
    more q e =
        rw (any-append (is_parent q.tenant_id q.topic_id (parent_text q.parent_id)) posts (p ∷ []))
          (or_more (not (is_truthy (parent_text q.parent_id))) _ _ e)

post_in_topic-IsThreaded :
    (s : DiscussionStore) (id time tenant topic_id : Text) (input : NewPostInput)
    → IsThreaded s.posts
    → IsThreaded (post_in_topic s id time tenant topic_id input).1.posts
post_in_topic-IsThreaded s id time tenant topic_id input h =
    let parent = parent_text input.parent_id in
    elim (Bool-cases (is_truthy parent && not (any (is_parent tenant topic_id parent) s.posts))) [
      | inl missing ↦ rw missing h
      | inr known ↦ rw known (
          IsThreaded-append s.posts (new_post id time tenant topic_id input) (ground (arith, known))
            h)
    ]

-- A change that keeps the ids.
module _ (f : PostRecord → PostRecord) (s : DiscussionStore) (tenant id : Text)
    (same_reply : (posts : List PostRecord) (p : PostRecord)
      → is_attached posts (f p) ≡ is_attached posts p)
    (same_parent : (t topic_id u : Text) (p : PostRecord)
      → is_parent t topic_id u (f p) ≡ is_parent t topic_id u p) where
  abbrev changed : List PostRecord
  changed = update_first (is_post tenant id) f s.posts

  still_attached : (p : PostRecord) → is_attached s.posts p ≡ true → is_attached changed p ≡ true
  still_attached p e =
      rw
        (any-update_first (is_post tenant id)
          (is_parent p.tenant_id p.topic_id (parent_text p.parent_id)) f s.posts
          (same_parent p.tenant_id p.topic_id (parent_text p.parent_id)))
        e

  change_found-IsThreaded :
      (found : Option PostRecord)
      → IsThreaded s.posts
      → IsThreaded (change_found f s tenant id found).1.posts
  change_found-IsThreaded none h = h
  change_found-IsThreaded (some p) h =
      update_first-All (λ q. is_attached changed q ≡ true) (is_post tenant id) f s.posts
        (λ q e here. same_reply changed q ∙ e)
        (All-map (λ q. is_attached s.posts q ≡ true) (λ q. is_attached changed q ≡ true) s.posts
          still_attached h)

any-filter :
    (p q : PostRecord → Bool) (posts : List PostRecord)
    → ((x : PostRecord) → p x ≡ true → q x ≡ true)
    → any p posts ≡ true
    → any p (filter q posts) ≡ true
any-filter p q [] implied h = h
any-filter p q (x ∷ posts) implied h = ground (arith, implied x, any-filter p q posts implied)

filter-All_both :
    (P Q R : PostRecord → Type 0) (keep : PostRecord → Bool) (posts : List PostRecord)
    → ((p : PostRecord) → keep p ≡ true → P p → Q p → R p)
    → All P posts
    → All Q posts
    → All R (filter keep posts)
filter-All_both P Q R keep [] h ps qs = tt
filter-All_both P Q R keep (x ∷ posts) h ps qs = elim (Bool-cases (keep x)) [
  | inl here ↦ rw here (h x here ps.0 qs.0, filter-All_both P Q R keep posts h ps.1 qs.1)
  | inr there ↦ rw there (filter-All_both P Q R keep posts h ps.1 qs.1)
]

-- A post that stays does not reply to one that goes.
parent_stays :
    (tenant : Text) (ids : List Text) (p q : PostRecord)
    → is_kept tenant ids p ≡ true
    → is_next ids p ≡ false
    → is_truthy (parent_text p.parent_id) ≡ true
    → is_parent p.tenant_id p.topic_id (parent_text p.parent_id) q ≡ true
    → is_kept tenant ids q ≡ true
parent_stays tenant ids p q kept next reply parent =
    let same_id : q.id ≡ parent_text p.parent_id =
      ground (arith, eq_iff q.id (parent_text p.parent_id), parent) in
    let same_tenant : q.tenant_id ≡ p.tenant_id =
      ground (arith, eq_iff q.tenant_id p.tenant_id, parent) in
    rw same_id (rw same_tenant (ground (arith, kept, next, reply)))

kept-is_attached :
    (tenant : Text) (ids : List Text) (posts : List PostRecord) (p : PostRecord)
    → is_kept tenant ids p ≡ true
    → is_attached posts p ≡ true
    → is_next ids p ≡ false
    → is_attached (filter (is_kept tenant ids) posts) p ≡ true
kept-is_attached tenant ids posts p kept attached next =
    elim (Bool-cases (is_truthy (parent_text p.parent_id))) [
      | inl reply ↦
          let found =
            any-filter (is_parent p.tenant_id p.topic_id (parent_text p.parent_id))
              (is_kept tenant ids) posts (λ q. parent_stays tenant ids p q kept next reply)
              (ground (arith, reply, attached)) in
          rw found (or_true (not (is_truthy (parent_text p.parent_id))))
      | inr root ↦ rw root refl
    ]
  where
    or_true : (a : Bool) → (a || true) ≡ true
    or_true true = refl
    or_true false = refl

delete_post-IsThreaded :
    (s : DiscussionStore) (tenant id : Text)
    → IsThreaded s.posts
    → IsThreaded (delete_post s tenant id).1.posts
unfolding delete_post
delete_post-IsThreaded s tenant id h = elim (Bool-cases (any (is_post tenant id) s.posts)) [
  | inr missing ↦ rw missing h
  | inl found ↦
      let ids = cascade (suc (length s.posts)) s.posts (id ∷ []) in
      rw found (
        filter-All_both (λ p. is_attached s.posts p ≡ true) (λ p. is_next ids p ≡ false)
          (λ p. is_attached (filter (is_kept tenant ids) s.posts) p ≡ true) (is_kept tenant ids)
          s.posts (kept-is_attached tenant ids s.posts) h (cascade-IsClosed s.posts (id ∷ [])))
]

topic_in-posts :
    (s : DiscussionStore) (id tenant forum_id : Text) (input : NewTopicInput)
    (found : Option ForumRecord)
    → (topic_in s id tenant forum_id input found).1.posts ≡ s.posts
topic_in-posts s id tenant forum_id input none = refl
topic_in-posts s id tenant forum_id input (some f) = refl

create_post-IsThreaded :
    (s : DiscussionStore) (id time tenant topic_id : Text) (input : NewPostInput)
    → IsThreaded s.posts
    → IsThreaded (create_post s id time tenant topic_id input).1.posts
unfolding create_post
create_post-IsThreaded s id time tenant topic_id input h =
    elim (Bool-cases (any (is_topic tenant topic_id) s.topics)) [
      | inl known ↦ rw known (post_in_topic-IsThreaded s id time tenant topic_id input h)
      | inr unknown ↦ rw unknown h
    ]

step-IsThreaded :
    (c : Call) (s : DiscussionStore) → IsThreaded s.posts → IsThreaded (step c s).posts
unfolding create_forum create_topic set_pinned update_post
step-IsThreaded (forum id tenant input) s h = h
step-IsThreaded (topic id tenant forum_id input) s h =
    subst IsThreaded (sym (topic_in-posts s id tenant forum_id input _)) h
step-IsThreaded (post id time tenant topic_id input) s h =
    create_post-IsThreaded s id time tenant topic_id input h
step-IsThreaded (pinned tenant id on) s h =
    change_found-IsThreaded (λ p. record p { is_pinned = on }) s tenant id (λ posts p. refl)
      (λ t topic_id u p. refl) _ h
step-IsThreaded (edited tenant id body) s h =
    change_found-IsThreaded (λ p. record p { body = body }) s tenant id (λ posts p. refl)
      (λ t topic_id u p. refl) _ h
step-IsThreaded (deleted tenant id) s h = delete_post-IsThreaded s tenant id h

-- Nothing is orphaned: whatever calls are made, under whatever tenants, every reply on file has the
-- post it replies to on file, in its own topic and tenant, if that was so at the start.
pub run-IsThreaded :
    (calls : List Call) (s : DiscussionStore) → IsThreaded s.posts → IsThreaded (run calls s).posts
run-IsThreaded [] s h = h
run-IsThreaded (c ∷ calls) s h = run-IsThreaded calls (step c s) (step-IsThreaded c s h)
