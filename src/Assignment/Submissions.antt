-- ===== src/Assignment/Submissions.antt =====
-- The late policy of `submit`: services/assignment/src/store.memory.ts.
use lms_saas.Prelude.{
  ℕ, ◌≡◌, refl, sym, ap, subst, ◌∙◌, ◌⊎◌, inl, inr, Bool-cases, Bool, true, false, not, ◌&&◌,
  Option, none, some, [], ◌∷◌, Text, text_eq, eq_refl, find, find-holds, find-append_none,
  find-update_first, arith,
}
use lms_saas.Assignment.Store.{
  AssignmentRecord, SubmissionRecord, NewSubmissionInput, SubmitResult, handed_in, late_not_allowed,
  AssignmentStore, is_assignment, is_by, is_past, again, new_submission, hand_in, submit_found,
  submit,
}

module _ (ids clock : ℕ → Text) (later : Text → Text → Bool) where
  -- The submission that is answered is the one on file for the user, flagged as late or not.
  abbrev pub IsOnFile :
      AssignmentStore
      → Text
      → Text
      → NewSubmissionInput
      → Bool
      → SubmitResult × AssignmentStore
      → Type 0
  IsOnFile s tenant assignment_id i late out =
      (r : SubmissionRecord) × (again_by : Bool) × (out.0 ≡ handed_in r again_by)
      × (find (is_by tenant assignment_id i.user_id) out.1.submissions ≡ some r)
      × (r.is_late ≡ late)
      × (r.body ≡ i.body)

  hand_in-IsOnFile :
      (s : AssignmentStore) (tenant assignment_id : Text) (i : NewSubmissionInput) (late : Bool)
      (existing : Option SubmissionRecord)
      → find (is_by tenant assignment_id i.user_id) s.submissions ≡ existing
      → IsOnFile s tenant assignment_id i late
          (hand_in ids clock later s tenant assignment_id i late existing)
  hand_in-IsOnFile s tenant assignment_id i late (some r) found =
      let mine = find-holds (is_by tenant assignment_id i.user_id) s.submissions r found in
      let now = clock s.times in
      (
        again ids clock later i now late r,
        true,
        refl,
        find-update_first (is_by tenant assignment_id i.user_id) (again ids clock later i now late)
            s.submissions r found mine,
        refl,
        refl,
      )
  hand_in-IsOnFile s tenant assignment_id i late none found =
      let r =
        new_submission ids clock later (ids s.minted) tenant assignment_id i (clock s.times) late in
      let mine : is_by tenant assignment_id i.user_id r ≡ true =
        ground (arith, eq_refl tenant, eq_refl assignment_id, eq_refl i.user_id) in
      (
        r,
        false,
        refl,
        find-append_none (is_by tenant assignment_id i.user_id) s.submissions (r ∷ []) found
            ∙ rw mine refl,
        refl,
        refl,
      )

  -- The late policy: on an assignment of the tenant, a submission after the due date is refused and
  -- nothing is recorded where late work is not allowed; otherwise the user has a submission on file,
  -- which is the one answered, with the body that was sent and the flag that tells whether it is late.
  pub submit-late :
      (s : AssignmentStore) (tenant assignment_id : Text) (i : NewSubmissionInput)
      (a : AssignmentRecord)
      → find (is_assignment tenant assignment_id) s.assignments ≡ some a
      → let late = is_past later (clock s.times) a.due_at in
        let out = submit ids clock later s tenant assignment_id i in
        (((late && not a.allow_late) ≡ true)
          × (out.0 ≡ late_not_allowed)
          × (out.1.submissions ≡ s.submissions))
        ⊎ (((late && not a.allow_late) ≡ false) × IsOnFile s tenant assignment_id i late out)
  unfolding submit
  submit-late s tenant assignment_id i a found =
      let late = is_past later (clock s.times) a.due_at in
      let handed =
        hand_in ids clock later s tenant assignment_id i late
          (find (is_by tenant assignment_id i.user_id) s.submissions) in
      elim (Bool-cases (late && not a.allow_late)) [
        | inl closed ↦ inl (closed, rw found (rw closed refl), rw found (rw closed refl))
        | inr admitted ↦
            let same : submit_found ids clock later s tenant assignment_id i (some a) ≡ handed =
              rw admitted refl in
            let whole = ap (submit_found ids clock later s tenant assignment_id i) found ∙ same in
            inr (
              admitted,
              subst (IsOnFile s tenant assignment_id i late) (sym whole)
                  (hand_in-IsOnFile s tenant assignment_id i late _ refl),
            )
      ]
