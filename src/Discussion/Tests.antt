-- ===== src/Discussion/Tests.antt =====
-- A topic with a question, an answer to it and a thanks for the answer, and another question; the first
-- question is deleted.
use lms_saas.Prelude.{
  ◌≡◌, refl, ◌↔◌, true, Option, none, some, List, [], ◌∷◌, Text, text, text_eq, length, any,
}
use mathlib.Core.List.{Memᴰ}
use lms_saas.Discussion.Store.{
  DiscussionStore, PostRecord, create_forum, create_topic, create_post, delete_post, update_post,
  cascade, sweep, is_post,
}
use lms_saas.Discussion.Threads.{
  Call, forum, topic, post, edited, deleted, run, IsThreaded, run-IsThreaded,
}
use lms_saas.Discussion.Replies.{IsReply, delete_post_iff}

abbrev tenant : Text
tenant = text "t"

abbrev empty : DiscussionStore
empty = record { forums = []; topics = []; posts = [] }

abbrev said : Text → Text → Option Text → Call
said id body parent =
    post id (text "2026") tenant (text "hello")
      (record { author_id = text "ada"; body = body; parent_id = parent })

abbrev asked : List Call
asked =
    forum (text "f") tenant (record { course_id = text "c"; title = text "All"; position = none })
    ∷ topic (text "hello") tenant (text "f") (record { title = text "Hi"; description = none })
    ∷ said (text "1") (text "Why?") none
    ∷ said (text "2") (text "Because") (some (text "1"))
    ∷ said (text "3") (text "Thanks") (some (text "2"))
    ∷ said (text "4") (text "When?") none
    ∷ said (text "5") (text "Lost") (some (text "9"))
    ∷ edited tenant (text "2") (text "So")
    ∷ []

abbrev talk : DiscussionStore
talk = run asked empty

talk_has_four : length talk.posts ≡ 4
unfolding create_forum create_topic create_post update_post
talk_has_four = refl

one_is_left : length (delete_post talk tenant (text "1")).1.posts ≡ 1
unfolding create_forum create_topic create_post update_post delete_post cascade sweep
one_is_left = refl

run-IsThreaded_example : IsThreaded (run (deleted tenant (text "1") ∷ []) talk).posts
run-IsThreaded_example =
    run-IsThreaded (deleted tenant (text "1") ∷ []) talk (run-IsThreaded asked empty tt)

talk_has_1 : any (is_post tenant (text "1")) talk.posts ≡ true
unfolding create_forum create_topic create_post update_post
talk_has_1 = refl

delete_post_iff_example :
    ((delete_post talk tenant (text "1")).0 ≡ true)
    × ((p : PostRecord)
        → Memᴰ p (delete_post talk tenant (text "1")).1.posts
          ↔ (Memᴰ p talk.posts × ¬ ((p.tenant_id ≡ tenant) × IsReply talk.posts (text "1") p.id)))
delete_post_iff_example = delete_post_iff talk tenant (text "1") talk_has_1
