-- ===== src/Ingest/Scenarios.antt =====
-- A short history of captureTransition.ts events, over which the theorems of Ingest are applied.
use ai_coding_training_platf.Domain.Verdict.{classify_final_capture_verdict}
use ai_coding_training_platf.Common.{
  List, Text, [], arith, eq_text, if◌then◌else◌, lt_text, none, not, refl, some, true, units, ◌&&◌,
  ◌∷◌, ◌≡◌,
}
use ai_coding_training_platf.Common.Result.{ok, err}
use ai_coding_training_platf.Domain.{
  capture, draft, eq_platform, extension_paired, failed, leetcode, pagehide, passed, spa_navigation,
}
use ai_coding_training_platf.Domain.Event.{
  Base, SubmissionObservedEvent, VerdictObservedEvent, CaptureEvent, session_started,
  submission_observed, session_ended, submission_confirmed, event_schema, event_base,
}
use ai_coding_training_platf.Domain.Training.{
  Formats, TrainingAttempt, TrainingSession, at_most, attempt_schema, session_schema, source_rule,
}
use ai_coding_training_platf.Ingest.{
  CaptureState, CaptureTransition, capture_conflict, first_session, is_newer_verdict,
  merged_session, new_attempt, restarts, same_attempt, same_session, transition_capture_state,
  transition_session, transition_submission_attempt, transition_verdict_attempt, verdict_result,
  with_verdict, zod_error,
}
use ai_coding_training_platf.Ingest.Session.{run_sessions, run_sessions-IsEarliest, IsEarliest}
use ai_coding_training_platf.Ingest.Session.Ends.{IsFirstEnd, run_sessions-IsFirstEnd}
use ai_coding_training_platf.Ingest.Session.Commute.{run_sessions-swap}
use ai_coding_training_platf.Ingest.Session.Totality.{transition_session_outcome}
use ai_coding_training_platf.Ingest.Attempt.{run_verdicts, HoldsNewest, run_verdicts-HoldsNewest}
use ai_coding_training_platf.Ingest.Arrival.{verdict_before_submission}
use ai_coding_training_platf.Ingest.Replay.{stored, transition_capture_state_idem}

-- A time has twenty characters or more, an address eight or more.
abbrev formats : Formats
formats = record { is_datetime = λ t. not (at_most 19 t); is_url = λ t. not (at_most 7 t) }

abbrev noon : Text
noon = units "2026-03-01T12:00:00Z"

abbrev one_past : Text
one_past = units "2026-03-01T12:01:00Z"

abbrev two_past : Text
two_past = units "2026-03-01T12:02:00Z"

abbrev three_past : Text
three_past = units "2026-03-01T12:03:00Z"

abbrev base_at : Text → Text → Base
base_at id t = record {
  id = id;
  capture_session_id = units "cs1";
  installation_id = units "inst";
  adapter_version = units "1";
  parser_version = units "1";
  page_origin = units "https://leetcode.com";
  provenance_level = extension_paired;
  platform = leetcode;
  problem_external_id = units "two-sum";
  problem_title = units "Two Sum";
  canonical_url = units "https://leetcode.com/problems/two-sum";
  occurred_at = t;
}

abbrev start_event : CaptureEvent
start_event = session_started (record { base = base_at (units "e1") one_past })

abbrev first_end : CaptureEvent
first_end = session_ended (record { base = base_at (units "e3") two_past; end_reason = pagehide })

abbrev second_end : CaptureEvent
second_end =
    session_ended (record { base = base_at (units "e4") three_past; end_reason = spa_navigation })

abbrev submission_at : Text → SubmissionObservedEvent
submission_at t = record {
  base = base_at (units "e2") t;
  submission_id = units "s1";
  action = submission_confirmed;
}

abbrev verdict_at : Text → Text → Text → VerdictObservedEvent
verdict_at id t verdict = record {
  base = base_at id t;
  submission_id = units "s1";
  verdict = verdict;
  language = none;
  result = none;
}

abbrev session : TrainingSession
session = record {
  id = units "cs1";
  installation_id = units "inst";
  platform = leetcode;
  problem_external_id = units "two-sum";
  problem_title = units "Two Sum";
  canonical_url = units "https://leetcode.com/problems/two-sum";
  provenance_level = extension_paired;
  started_at = two_past;
  ended_at = none;
  end_reason = none;
  created_at = noon;
  updated_at = noon;
}

abbrev visits : List (CaptureEvent × Text)
visits = (second_end, noon) ∷ (start_event, noon) ∷ (first_end, noon) ∷ []

abbrev session_after : TrainingSession
session_after = record session {
  started_at = one_past;
  ended_at = some two_past;
  end_reason = some pagehide;
}

visits_accepted : run_sessions formats session visits ≡ ok session_after
unfolding run_sessions transition_session same_session eq_text eq_platform restarts session_schema
    merged_session lt_text
visits_accepted = refl

run_sessions-IsEarliest_example : IsEarliest session visits one_past
run_sessions-IsEarliest_example = run_sessions-IsEarliest formats session visits visits_accepted

run_sessions-IsFirstEnd_example : IsFirstEnd session visits session_after
run_sessions-IsFirstEnd_example = run_sessions-IsFirstEnd formats session visits visits_accepted

ends_accepted :
    run_sessions formats session ((first_end, noon) ∷ (second_end, noon) ∷ [])
    ≡ ok (record session { ended_at = some two_past; end_reason = some pagehide })
unfolding run_sessions transition_session same_session eq_text eq_platform restarts session_schema
    merged_session lt_text
ends_accepted = refl

ends_swapped_accepted :
    run_sessions formats session ((second_end, noon) ∷ (first_end, noon) ∷ [])
    ≡ ok (record session { ended_at = some two_past; end_reason = some pagehide })
unfolding run_sessions transition_session same_session eq_text eq_platform restarts session_schema
    merged_session lt_text
ends_swapped_accepted = refl

two_past≢three_past : two_past ≡ three_past → ⊥
two_past≢three_past h = ground arith

run_sessions-swap_example :
    record session { ended_at = some two_past; end_reason = some pagehide }
    ≡ record session { ended_at = some two_past; end_reason = some pagehide }
run_sessions-swap_example =
    run_sessions-swap formats session first_end second_end noon ends_accepted ends_swapped_accepted
      (λ h. absurd (two_past≢three_past h))

session-valid : session_schema formats session ≡ true
unfolding session_schema
session-valid = refl

second_end-valid : event_schema formats second_end ≡ true
unfolding event_schema
second_end-valid = refl

transition_session_outcome_example :
    (transition_session formats none second_end noon ≡ ok (first_session second_end noon))
    × (transition_session formats (some session) second_end noon ≡ (
        if same_session session (event_base second_end) && not (restarts session second_end)
        then ok (merged_session session second_end noon)
        else err capture_conflict))
transition_session_outcome_example =
    transition_session_outcome formats session second_end noon session-valid second_end-valid refl

abbrev first_attempt : TrainingAttempt
first_attempt = record {
  id = units "attempt_s1";
  capture_session_id = some (units "cs1");
  submission_id = some (units "s1");
  record_source = capture;
  platform = leetcode;
  problem_external_id = units "two-sum";
  problem_title = units "Two Sum";
  canonical_url = units "https://leetcode.com/problems/two-sum";
  started_at = one_past;
  ended_at = none;
  result = draft;
  verdict = none;
  language = none;
  duration_minutes = none;
  reflection = none;
  submission_event_id = some (units "e2");
  verdict_event_id = none;
  revision = 1;
  voided_at = none;
  void_reason = none;
  created_at = noon;
  updated_at = noon;
}

abbrev rejected_verdict : VerdictObservedEvent
rejected_verdict = verdict_at (units "e5") two_past (units "Wrong Answer")

abbrev accepted_verdict : VerdictObservedEvent
accepted_verdict = verdict_at (units "e6") three_past (units "Accepted")

abbrev attempt_after : TrainingAttempt
attempt_after = record first_attempt {
  ended_at = some three_past;
  result = passed;
  verdict = some (units "Accepted");
  verdict_event_id = some (units "e6");
}

verdicts_accepted :
    run_verdicts formats first_attempt ((accepted_verdict, noon) ∷ (rejected_verdict, noon) ∷ [])
    ≡ ok attempt_after
unfolding run_verdicts transition_verdict_attempt same_attempt eq_text eq_platform is_newer_verdict
    attempt_schema with_verdict source_rule lt_text verdict_result classify_final_capture_verdict
verdicts_accepted = refl

run_verdicts-HoldsNewest_example :
    HoldsNewest first_attempt
      ((accepted_verdict, noon) ∷ (rejected_verdict, noon) ∷ [])
      attempt_after
run_verdicts-HoldsNewest_example =
    run_verdicts-HoldsNewest formats first_attempt
      ((accepted_verdict, noon) ∷ (rejected_verdict, noon) ∷ []) verdicts_accepted

abbrev before_submission : CaptureState
before_submission = record { session = some session; attempt = none }

abbrev submitted : CaptureTransition
submitted = record {
  session = record session { started_at = one_past };
  attempt = some first_attempt;
}

submission_accepted :
    transition_capture_state formats before_submission
      (submission_observed (submission_at one_past))
      noon
    ≡ ok submitted
unfolding transition_capture_state transition_session transition_submission_attempt same_session
    eq_text eq_platform restarts session_schema merged_session lt_text attempt_schema new_attempt
    source_rule
submission_accepted = refl

transition_capture_state_idem_example :
    transition_capture_state formats
      (stored before_submission submitted)
      (submission_observed (submission_at one_past))
      noon
    ≡ ok submitted
transition_capture_state_idem_example =
    transition_capture_state_idem formats before_submission
      (submission_observed (submission_at one_past)) noon submission_accepted

abbrev verdict_first : TrainingAttempt
verdict_first = record first_attempt {
  started_at = two_past;
  ended_at = some two_past;
  result = failed;
  verdict = some (units "Wrong Answer");
  submission_event_id = none;
  verdict_event_id = some (units "e5");
}

verdict_accepted : transition_verdict_attempt formats none rejected_verdict noon ≡ ok verdict_first
unfolding transition_verdict_attempt attempt_schema with_verdict new_attempt source_rule lt_text
    verdict_result classify_final_capture_verdict eq_text
verdict_accepted = refl

abbrev submission_late : TrainingAttempt
submission_late = record first_attempt { started_at = three_past }

late_submission_accepted :
    transition_submission_attempt formats none (submission_at three_past) noon ≡ ok submission_late
unfolding transition_submission_attempt attempt_schema new_attempt source_rule
late_submission_accepted = refl

verdict_before_submission_example :
    (transition_submission_attempt formats (some verdict_first) (submission_at three_past) noon
      ≡ ok (record verdict_first { submission_event_id = some (units "e2") }))
    × (transition_verdict_attempt formats (some submission_late) rejected_verdict noon
        ≡ err zod_error)
unfolding lt_text
verdict_before_submission_example =
    verdict_before_submission formats rejected_verdict (submission_at three_past) noon
      (refl, refl, refl, refl) refl verdict_accepted late_submission_accepted refl
