-- ===== src/Assignment/Tests.antt =====
-- Two groups of one assignment, of which a learner is in the first, and an essay that is handed in late.
use lms_saas.Prelude.{
  ℕ, ◌≡◌, ◌≢◌, refl, ◌⊎◌, Bool, true, false, not, ◌&&◌, none, some, [], ◌∷◌, Text, text, text_eq,
  ◌==◌, eq_iff, arith, IsPairwise,
}
use lms_saas.Assignment.Groups.{GroupStore, seed_assignment, create_group, add_member}
use lms_saas.Assignment.Membership.{
  AreSeparate, IsReached, start, seeded, created, added, IsReached-IsOrderly,
}
use lms_saas.Assignment.Store.{
  AssignmentStore, AssignmentRecord, NewSubmissionInput, written, is_past, submit, late_not_allowed,
}
use lms_saas.Assignment.Submissions.{IsOnFile, submit-late}

abbrev tenant : Text
tenant = text "t"

abbrev no_groups : GroupStore
no_groups = record { groups = []; assignments = [] }

abbrev planned : GroupStore
planned = seed_assignment no_groups tenant (text "essay")

abbrev one : GroupStore
one = (create_group planned (text "g1") tenant (text "essay") (text "Red")).1

abbrev two : GroupStore
two = (create_group one (text "g2") tenant (text "essay") (text "Blue")).1

abbrev tried : GroupStore
tried =
    (add_member (add_member two tenant (text "g1") (text "ada")).1 tenant (text "g2")
      (text "ada")).1

g1_ne_g2 : text "g1" ≢ text "g2"
g1_ne_g2 e = absurd (ground (arith, (eq_iff (text "g1") (text "g2")).1 e))

tried-IsReached : IsReached tried
unfolding seed_assignment create_group
tried-IsReached =
    added (add_member two tenant (text "g1") (text "ada")).1 tenant (text "g2") (text "ada") (
      added two tenant (text "g1") (text "ada") (
        created one (text "g2") tenant (text "essay") (text "Blue") (g1_ne_g2, tt)
          (created planned (text "g1") tenant (text "essay") (text "Red") tt
            (seeded no_groups tenant (text "essay") start))))

IsReached-IsOrderly_example : IsPairwise AreSeparate tried.groups
IsReached-IsOrderly_example = IsReached-IsOrderly tried tried-IsReached

abbrev ids : ℕ → Text
ids n = text "s1"

abbrev clock : ℕ → Text
clock n = text "2027"

abbrev later : Text → Text → Bool
later now due = not (now == due)

abbrev essay : AssignmentRecord
essay = record {
  id = text "essay";
  tenant_id = tenant;
  course_id = text "c";
  title = text "Essay";
  instructions = none;
  due_at = some (text "2026");
  points = 100;
  submission_type = written;
  allow_late = true;
  created_at = text "2025";
}

abbrev store : AssignmentStore
store = record { assignments = essay ∷ []; submissions = []; minted = 0; times = 0 }

abbrev work : NewSubmissionInput
work = record { user_id = text "ada"; body = some (text "Once"); blob_url = none }

submit-late_example :
    (((is_past later (text "2027") essay.due_at && not essay.allow_late) ≡ true)
      × ((submit ids clock later store tenant (text "essay") work).0 ≡ late_not_allowed)
      × ((submit ids clock later store tenant (text "essay") work).1.submissions
          ≡ store.submissions))
    ⊎ (((is_past later (text "2027") essay.due_at && not essay.allow_late) ≡ false)
        × IsOnFile ids clock later store tenant
            (text "essay")
            work
            (is_past later (text "2027") essay.due_at)
            (submit ids clock later store tenant (text "essay") work))
submit-late_example = submit-late ids clock later store tenant (text "essay") work essay refl
