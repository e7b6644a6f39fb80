-- ===== src/Ingest/Arrival.antt =====
-- The order in which a verdict and its submission arrive.
use ai_coding_training_platf.Common.{
  true, false, none, some, Text, lt_text, eq_text_refl, lt_text-asymm, ◌≡◌, refl, arith,
}
use ai_coding_training_platf.Common.Result.{ok, err}
use ai_coding_training_platf.Domain.{eq_platform_refl}
use ai_coding_training_platf.Domain.Event.{VerdictObservedEvent, SubmissionObservedEvent}
use ai_coding_training_platf.Domain.Training.{
  TrainingAttempt, Formats, attempt_schema, source_rule, nonempty,
}
use ai_coding_training_platf.Ingest.{
  zod_error, same_attempt, is_newer_verdict, with_verdict, transition_verdict_attempt,
  transition_submission_attempt, new_attempt, merged_submission, parse_attempt,
}

-- Both events name the same session, submission and problem.
abbrev pub SameAttempt : VerdictObservedEvent → SubmissionObservedEvent → Type 0
SameAttempt v s =
    (s.base.capture_session_id ≡ v.base.capture_session_id)
    × (s.submission_id ≡ v.submission_id)
    × (s.base.platform ≡ v.base.platform)
    × (s.base.problem_external_id ≡ v.base.problem_external_id)

verdict_attempt_of : VerdictObservedEvent → Text → TrainingAttempt
verdict_attempt_of v now = with_verdict (new_attempt v.base v.submission_id now) v now

submission_attempt_of : SubmissionObservedEvent → Text → TrainingAttempt
submission_attempt_of s now = record (new_attempt s.base s.submission_id now) {
  submission_event_id = some s.base.id;
}

module _ (z : Formats) (v : VerdictObservedEvent) (s : SubmissionObservedEvent) (now : Text)
    (same : SameAttempt v s) (inverted : lt_text v.base.occurred_at s.base.occurred_at ≡ true) where
  first_verdict :
      {a : TrainingAttempt}
      → transition_verdict_attempt z none v now ≡ ok a
      → (a ≡ verdict_attempt_of v now) × (attempt_schema z (verdict_attempt_of v now) ≡ true)
  unfolding transition_verdict_attempt verdict_attempt_of
  first_verdict h = ground arith

  first_submission :
      {b : TrainingAttempt}
      → transition_submission_attempt z none s now ≡ ok b
      → b ≡ submission_attempt_of s now
  unfolding transition_submission_attempt submission_attempt_of
  first_submission h = ground arith

  same_attempt-verdict : same_attempt (verdict_attempt_of v now) s.base s.submission_id ≡ true
  unfolding same_attempt verdict_attempt_of with_verdict new_attempt
  same_attempt-verdict =
      rw (same.0, same.1, same.2, same.3)
        (ground (
          arith,
          eq_text_refl v.base.capture_session_id,
          eq_text_refl v.submission_id,
          eq_platform_refl v.base.platform,
          eq_text_refl v.base.problem_external_id,
        ))

  same_attempt-submission : same_attempt (submission_attempt_of s now) v.base v.submission_id ≡ true
  unfolding same_attempt submission_attempt_of new_attempt
  same_attempt-submission =
      rw (same.0, same.1, same.2, same.3)
        (ground (
          arith,
          eq_text_refl v.base.capture_session_id,
          eq_text_refl v.submission_id,
          eq_platform_refl v.base.platform,
          eq_text_refl v.base.problem_external_id,
        ))

  merged_submission-verdict :
      merged_submission (verdict_attempt_of v now) s now
      ≡ record (verdict_attempt_of v now) { submission_event_id = some s.base.id }
  unfolding merged_submission verdict_attempt_of with_verdict new_attempt
  merged_submission-verdict =
      ground (arith, lt_text-asymm v.base.occurred_at s.base.occurred_at inverted)

  schema-verdict :
      attempt_schema z (verdict_attempt_of v now) ≡ true
      → nonempty s.base.id ≡ true
      → attempt_schema z
          (record (verdict_attempt_of v now) { submission_event_id = some s.base.id })
        ≡ true
  unfolding attempt_schema source_rule verdict_attempt_of with_verdict new_attempt
  schema-verdict h k = ground arith

  schema-submission : attempt_schema z (with_verdict (submission_attempt_of s now) v now) ≡ false
  unfolding attempt_schema submission_attempt_of with_verdict new_attempt
  schema-submission = ground arith

  newer-submission :
      is_newer_verdict
        (submission_attempt_of s now).ended_at
        (submission_attempt_of s now).verdict_event_id
        v
      ≡ true
  unfolding is_newer_verdict submission_attempt_of new_attempt
  newer-submission = refl

-- A verdict and its submission where the page's clock put the verdict before the submission: if
-- the verdict is stored first, the submission is accepted and the attempt keeps the verdict; if
-- the submission is stored first, the schema refuses the verdict. (Each is accepted when alone.)
pub verdict_before_submission :
    (z : Formats) (v : VerdictObservedEvent) (s : SubmissionObservedEvent) (now : Text)
    {a b : TrainingAttempt}
    → SameAttempt v s
    → lt_text v.base.occurred_at s.base.occurred_at ≡ true
    → transition_verdict_attempt z none v now ≡ ok a
    → transition_submission_attempt z none s now ≡ ok b
    → nonempty s.base.id ≡ true
    → (transition_submission_attempt z (some a) s now
        ≡ ok (record a { submission_event_id = some s.base.id }))
      × (transition_verdict_attempt z (some b) v now ≡ err zod_error)
unfolding transition_verdict_attempt transition_submission_attempt
verdict_before_submission z v s now same h p q r =
    let (is_a, valid) = first_verdict z v s now same h p in
    rw (is_a, first_submission z v s now same h q)
      (
        rw (
          same_attempt-verdict z v s now same h,
          merged_submission-verdict z v s now same h,
          schema-verdict z v s now same h valid r,
          parse_attempt,
        ),
        rw (
          same_attempt-submission z v s now same h,
          newer-submission z v s now same h,
          schema-submission z v s now same h,
          parse_attempt,
        ),
      )
