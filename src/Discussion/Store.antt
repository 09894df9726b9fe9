-- ===== src/Discussion/Store.antt =====
-- Forums, topics and posts: services/discussion/src/store.ts and store.memory.ts. What `generateId()` and
-- `now().toISOString()` return are arguments of the call that uses them; a position is a natural number.
use lms_saas.Prelude.{
  ℕ, zero, suc, Bool, true, false, not, ◌&&◌, Option, none, some, List, [], ◌∷◌, ◌++◌, Text,
  text_eq, ◌==◌, length, find, filter, any, update_first, if◌then◌else◌,
}

pub record ForumRecord : Type 0 where
  pub id : Text
  pub tenant_id : Text
  pub course_id : Text
  pub title : Text
  pub position : ℕ

pub record TopicRecord : Type 0 where
  pub id : Text
  pub tenant_id : Text
  pub forum_id : Text
  pub title : Text
  pub description : Option Text

pub record PostRecord : Type 0 where
  pub id : Text
  pub tenant_id : Text
  pub topic_id : Text
  pub parent_id : Option Text
  pub author_id : Text
  pub body : Text
  pub is_pinned : Bool
  pub created_at : Text

pub record NewForumInput : Type 0 where
  pub course_id : Text
  pub title : Text
  pub position : Option ℕ

pub record NewTopicInput : Type 0 where
  pub title : Text
  pub description : Option Text

pub record NewPostInput : Type 0 where
  pub author_id : Text
  pub body : Text
  pub parent_id : Option Text

pub data CreatePostResult : Type 0 where
  posted : PostRecord → CreatePostResult
  unknown_topic unknown_parent : CreatePostResult

-- MemoryDiscussionStore
pub record DiscussionStore : Type 0 where
  pub forums : List ForumRecord
  pub topics : List TopicRecord
  pub posts : List PostRecord

abbrev position_or : Option ℕ → ℕ → ℕ
position_or none fallback = fallback
position_or (some position) fallback = position

-- createForum
unfoldable pub create_forum :
    DiscussionStore → Text → Text → NewForumInput → ForumRecord × DiscussionStore
create_forum s id tenant input =
    let forum : ForumRecord = record {
      id = id;
      tenant_id = tenant;
      course_id = input.course_id;
      title = input.title;
      position = position_or input.position (
          length
            (filter (λ f. (f.tenant_id == tenant) && (f.course_id == input.course_id)) s.forums));
    } in
    (forum, record s { forums = s.forums ++ (forum ∷ []) })

abbrev is_forum : Text → Text → ForumRecord → Bool
is_forum tenant id f = (f.id == id) && (f.tenant_id == tenant)

abbrev pub is_topic : Text → Text → TopicRecord → Bool
is_topic tenant id t = (t.id == id) && (t.tenant_id == tenant)

abbrev pub is_post : Text → Text → PostRecord → Bool
is_post tenant id p = (p.id == id) && (p.tenant_id == tenant)

abbrev pub topic_in :
    DiscussionStore
    → Text
    → Text
    → Text
    → NewTopicInput
    → Option ForumRecord
    → Option TopicRecord × DiscussionStore
topic_in s id tenant forum_id input none = (none, s)
topic_in s id tenant forum_id input (some forum) =
    let topic : TopicRecord = record {
      id = id;
      tenant_id = tenant;
      forum_id = forum_id;
      title = input.title;
      description = input.description;
    } in
    (some topic, record s { topics = s.topics ++ (topic ∷ []) })

-- createTopic
unfoldable pub create_topic :
    DiscussionStore → Text → Text → Text → NewTopicInput → Option TopicRecord × DiscussionStore
create_topic s id tenant forum_id input =
    topic_in s id tenant forum_id input (find (is_forum tenant forum_id) s.forums)

-- listTopics
unfoldable pub list_topics : DiscussionStore → Text → Text → List TopicRecord
list_topics s tenant forum_id =
    filter (λ t. (t.tenant_id == tenant) && (t.forum_id == forum_id)) s.topics

-- The text of a parent id that may be null, and whether it is truthy.
abbrev pub parent_text : Option Text → Text
parent_text none = []
parent_text (some id) = id

abbrev pub is_truthy : Text → Bool
is_truthy [] = false
is_truthy (u ∷ s) = true

abbrev pub is_parent : Text → Text → Text → PostRecord → Bool
is_parent tenant topic_id id p = (p.id == id) && (p.tenant_id == tenant) && (p.topic_id == topic_id)

abbrev pub new_post : Text → Text → Text → Text → NewPostInput → PostRecord
new_post id time tenant topic_id input = record {
  id = id;
  tenant_id = tenant;
  topic_id = topic_id;
  parent_id = input.parent_id;
  author_id = input.author_id;
  body = input.body;
  is_pinned = false;
  created_at = time;
}

-- The part of createPost behind the check of the topic.
abbrev pub post_in_topic :
    DiscussionStore → Text → Text → Text → Text → NewPostInput → CreatePostResult × DiscussionStore
post_in_topic s id time tenant topic_id input =
    let parent = parent_text input.parent_id in
    if is_truthy parent && not (any (is_parent tenant topic_id parent) s.posts)
    then (unknown_parent, s)
    else (
      posted (new_post id time tenant topic_id input),
      record s { posts = s.posts ++ (new_post id time tenant topic_id input ∷ []) },
    )

-- createPost
unfoldable pub create_post :
    DiscussionStore → Text → Text → Text → Text → NewPostInput → CreatePostResult × DiscussionStore
create_post s id time tenant topic_id input =
    if not (any (is_topic tenant topic_id) s.topics)
    then (unknown_topic, s)
    else post_in_topic s id time tenant topic_id input

-- A change of the post that is found.
abbrev pub change_found :
    (PostRecord → PostRecord)
    → DiscussionStore
    → Text
    → Text
    → Option PostRecord
    → Option PostRecord × DiscussionStore
change_found f s tenant id none = (none, s)
change_found f s tenant id (some p) =
    (some (f p), record s { posts = update_first (is_post tenant id) f s.posts })

abbrev pub change_post :
    (PostRecord → PostRecord) → DiscussionStore → Text → Text → Option PostRecord × DiscussionStore
change_post f s tenant id = change_found f s tenant id (find (is_post tenant id) s.posts)

-- setPinned
unfoldable pub set_pinned :
    DiscussionStore → Text → Text → Bool → Option PostRecord × DiscussionStore
set_pinned s tenant id pinned = change_post (λ p. record p { is_pinned = pinned }) s tenant id

-- updatePost
unfoldable pub update_post :
    DiscussionStore → Text → Text → Text → Option PostRecord × DiscussionStore
update_post s tenant id body = change_post (λ p. record p { body = body }) s tenant id

-- A set of ids and its `has`.
abbrev pub has : List Text → Text → Bool
has ids id = any (λ u. u == id) ids

-- The post replies to a removed one and is not removed yet.
abbrev pub is_next : List Text → PostRecord → Bool
is_next ids p =
    is_truthy (parent_text p.parent_id) && has ids (parent_text p.parent_id) && not (has ids p.id)

abbrev pub mark : PostRecord → List Text × Bool → List Text × Bool
mark p (ids, changed) = if is_next ids p then (p.id ∷ ids, true) else (ids, changed)

-- One pass of the while loop of deletePost over the posts.
unfoldable pub sweep : List PostRecord → List Text × Bool → List Text × Bool
sweep [] state = state
sweep (p ∷ rest) state = sweep rest (mark p state)

-- The while loop of deletePost.
unfoldable pub cascade : ℕ → List PostRecord → List Text → List Text
cascade zero posts ids = ids
cascade (suc n) posts ids =
    let next = sweep posts (ids, false) in
    let rest = cascade n posts next.0 in if next.1 then rest else next.0

abbrev pub is_kept : Text → List Text → PostRecord → Bool
is_kept tenant ids p = not ((p.tenant_id == tenant) && has ids p.id)

-- deletePost
unfoldable pub delete_post : DiscussionStore → Text → Text → Bool × DiscussionStore
delete_post s tenant id = if not (any (is_post tenant id) s.posts) then (false, s) else (
  true,
  record s {
    posts = filter (is_kept tenant (cascade (suc (length s.posts)) s.posts (id ∷ []))) s.posts;
  },
)
