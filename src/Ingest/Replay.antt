-- ===== src/Ingest/Replay.antt =====
-- An accepted transition that is made again.
use ai_coding_training_platf.Common.{
  true, not, Option, none, some, Text, eq_text_refl, lt_text_irrefl, ◌≡◌, refl, arith,
}
use ai_coding_training_platf.Common.Result.{ok, ◌>>=◌, >>=-eq-ok}
use ai_coding_training_platf.Domain.{eq_platform_refl}
use ai_coding_training_platf.Domain.Event.{
  CaptureEvent, session_started, submission_observed, verdict_observed, session_ended,
  VerdictObservedEvent, SubmissionObservedEvent,
}
use ai_coding_training_platf.Domain.Training.{TrainingAttempt, Formats}
use ai_coding_training_platf.Ingest.{
  capture_conflict, same_attempt, with_verdict, CaptureState, CaptureTransition,
  transition_capture_state, transition_verdict_attempt, transition_submission_attempt, new_attempt,
  merged_submission, transition_session, after_end, guard_that,
}
use ai_coding_training_platf.Ingest.Session.{transition_session_idem}
use ai_coding_training_platf.Ingest.Attempt.{newer_irrefl}

-- What is stored after a transition: its session, and its attempt if it gives one.
abbrev pub stored : CaptureState → CaptureTransition → CaptureState
stored state t = record {
  session = some t.session;
  attempt = elim t.attempt [ none ↦ state.attempt | some a ↦ some a ];
}

same_attempt-new :
    (e : SubmissionObservedEvent) (now : Text)
    → same_attempt
        (record (new_attempt e.base e.submission_id now) { submission_event_id = some e.base.id })
        e.base
        e.submission_id
      ≡ true
unfolding same_attempt new_attempt
same_attempt-new e now = ground (
  arith,
  eq_text_refl e.base.capture_session_id,
  eq_text_refl e.submission_id,
  eq_platform_refl e.base.platform,
  eq_text_refl e.base.problem_external_id,
)

merged_submission_new :
    (e : SubmissionObservedEvent) (now : Text)
    → let a = record (new_attempt e.base e.submission_id now) {
      submission_event_id = some e.base.id;
    } in
      merged_submission a e now ≡ a
unfolding merged_submission new_attempt
merged_submission_new e now = ground (arith, lt_text_irrefl e.base.occurred_at)

merged_submission_idem :
    (a : TrainingAttempt) (e : SubmissionObservedEvent) (now : Text)
    → merged_submission (merged_submission a e now) e now ≡ merged_submission a e now
unfolding merged_submission
merged_submission_idem a e now = ground (arith, lt_text_irrefl e.base.occurred_at)

same_attempt-merged :
    (a : TrainingAttempt) (e : SubmissionObservedEvent) (now : Text)
    → same_attempt (merged_submission a e now) e.base e.submission_id
      ≡ same_attempt a e.base e.submission_id
unfolding same_attempt merged_submission
same_attempt-merged a e now = refl

same_attempt-with_verdict :
    (a : TrainingAttempt) (e : VerdictObservedEvent) (now : Text)
    → same_attempt (with_verdict a e now) e.base e.submission_id
      ≡ same_attempt a e.base e.submission_id
unfolding same_attempt with_verdict
same_attempt-with_verdict a e now = refl

same_attempt-new_verdict :
    (e : VerdictObservedEvent) (now : Text)
    → same_attempt (new_attempt e.base e.submission_id now) e.base e.submission_id ≡ true
unfolding same_attempt new_attempt
same_attempt-new_verdict e now = ground (
  arith,
  eq_text_refl e.base.capture_session_id,
  eq_text_refl e.submission_id,
  eq_platform_refl e.base.platform,
  eq_text_refl e.base.problem_external_id,
)

transition_submission_attempt_idem :
    (z : Formats) (o : Option TrainingAttempt) (e : SubmissionObservedEvent) (now : Text)
    {b : TrainingAttempt}
    → transition_submission_attempt z o e now ≡ ok b
    → transition_submission_attempt z (some b) e now ≡ ok b
unfolding transition_submission_attempt
transition_submission_attempt_idem z none e now h =
    ground (arith, same_attempt-new e now, merged_submission_new e now)
transition_submission_attempt_idem z (some a) e now h =
    ground (arith, same_attempt-merged a e now, merged_submission_idem a e now)

transition_verdict_attempt_idem :
    (z : Formats) (o : Option TrainingAttempt) (e : VerdictObservedEvent) (now : Text)
    {b : TrainingAttempt}
    → transition_verdict_attempt z o e now ≡ ok b
    → transition_verdict_attempt z (some b) e now ≡ ok b
unfolding transition_verdict_attempt
transition_verdict_attempt_idem z none e now h =
    let a = new_attempt e.base e.submission_id now in
    ground (
      arith,
      same_attempt-with_verdict a e now,
      same_attempt-new_verdict e now,
      newer_irrefl a e now,
    )
transition_verdict_attempt_idem z (some a) e now h =
    ground (arith, same_attempt-with_verdict a e now, newer_irrefl a e now)

-- A transition that is made again with the same event and clock over what it left is accepted and
-- gives the same session and attempt.
pub transition_capture_state_idem :
    (z : Formats) (state : CaptureState) (e : CaptureEvent) (now : Text) {t : CaptureTransition}
    → transition_capture_state z state e now ≡ ok t
    → transition_capture_state z (stored state t) e now ≡ ok t
unfolding transition_capture_state
transition_capture_state_idem z state (session_started e) now h =
    let (s, first, rest) =
      >>=-eq-ok (transition_session z state.session (session_started e) now)
        (λ s. ok (record { session = s; attempt = none })) h in
    ground (arith, transition_session_idem z state.session (session_started e) now first)
transition_capture_state_idem z state (session_ended e) now h =
    let (s, first, rest) =
      >>=-eq-ok (transition_session z state.session (session_ended e) now)
        (λ s. ok (record { session = s; attempt = none })) h in
    ground (arith, transition_session_idem z state.session (session_ended e) now first)
transition_capture_state_idem z state (submission_observed e) now h =
    let (s, first, rest) =
      >>=-eq-ok (transition_session z state.session (submission_observed e) now)
        (λ s.
          guard_that (not (after_end s state.attempt e.base.occurred_at)) capture_conflict >>= λ _.
          transition_submission_attempt z state.attempt e now >>= λ a.
          ok (record { session = s; attempt = some a }))
        h in
    let (u, guarded, inner) =
      >>=-eq-ok (guard_that (not (after_end s state.attempt e.base.occurred_at)) capture_conflict)
        (λ _. transition_submission_attempt z state.attempt e now >>= λ a.
          ok (record { session = s; attempt = some a }))
        rest in
    let (a, second, last) =
      >>=-eq-ok (transition_submission_attempt z state.attempt e now)
        (λ a. ok (record { session = s; attempt = some a })) inner in
    ground (
      arith,
      transition_session_idem z state.session (submission_observed e) now first,
      transition_submission_attempt_idem z state.attempt e now second,
    )
transition_capture_state_idem z state (verdict_observed e) now h =
    let (s, first, rest) =
      >>=-eq-ok (transition_session z state.session (verdict_observed e) now)
        (λ s.
          guard_that (not (after_end s state.attempt e.base.occurred_at)) capture_conflict >>= λ _.
          transition_verdict_attempt z state.attempt e now >>= λ a.
          ok (record { session = s; attempt = some a }))
        h in
    let (u, guarded, inner) =
      >>=-eq-ok (guard_that (not (after_end s state.attempt e.base.occurred_at)) capture_conflict)
        (λ _. transition_verdict_attempt z state.attempt e now >>= λ a.
          ok (record { session = s; attempt = some a }))
        rest in
    let (a, second, last) =
      >>=-eq-ok (transition_verdict_attempt z state.attempt e now)
        (λ a. ok (record { session = s; attempt = some a })) inner in
    ground (
      arith,
      transition_session_idem z state.session (verdict_observed e) now first,
      transition_verdict_attempt_idem z state.attempt e now second,
    )
