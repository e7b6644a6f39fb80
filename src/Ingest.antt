-- ===== src/Ingest.antt =====
-- Server-side ingestion of one capture event: lib/services/captureTransition.ts with
-- `verdictEventToAttemptUpdate` of lib/capture/events.ts. `transition_capture_state` computes the
-- stored session and attempt that follow from the stored ones and an event; a thrown
-- `CaptureConflictError` and a refused schema are the two errors.
pub mod Replay
pub mod Session
pub mod Attempt
pub mod Arrival
mod Scenarios
use ai_coding_training_platf.Common.{
  Bool, true, false, not, ◌&&◌, ◌||◌, if◌then◌else◌, Option, none, some, Text, eq_text, lt_text,
  ◌++◌, units, is_none,
}
use ai_coding_training_platf.Common.Result.{Result, ok, err, ◌>>=◌}
use ai_coding_training_platf.Domain.{eq_platform, AttemptResult, draft, capture}
use ai_coding_training_platf.Domain.Event.{
  Base, CaptureEvent, session_started, submission_observed, verdict_observed, session_ended,
  event_base, SubmissionObservedEvent, VerdictObservedEvent,
}
use ai_coding_training_platf.Domain.Training.{
  TrainingSession, TrainingAttempt, Formats, session_schema, attempt_schema,
}
use ai_coding_training_platf.Domain.Verdict.{classify_final_capture_verdict}

pub data IngestError : Type 0 where
  capture_conflict zod_error : IngestError

pub record CaptureState : Type 0 where
  pub session : Option TrainingSession
  pub attempt : Option TrainingAttempt

-- `attempt` is absent for the session events.
pub record CaptureTransition : Type 0 where
  pub session : TrainingSession
  pub attempt : Option TrainingAttempt

-- `value ?? fallback`
abbrev pub or_else {ℓ} : {A : Type ℓ} → Option A → A → A
or_else none d = d
or_else (some a) d = a

unfoldable pub verdict_result : VerdictObservedEvent → AttemptResult
verdict_result e = or_else e.result (classify_final_capture_verdict e.verdict)

abbrev pub guard_that : Bool → IngestError → Result IngestError (Unit {0})
guard_that true e = ok tt
guard_that false e = err e

-- Whether a session end is known and precedes `t`.
abbrev pub ended_before : Option Text → Text → Bool
ended_before none t = false
ended_before (some end) t = lt_text end t

unfoldable pub same_session : TrainingSession → Base → Bool
same_session s b =
    eq_text s.installation_id b.installation_id
    && eq_platform s.platform b.platform
    && eq_text s.problem_external_id b.problem_external_id

abbrev pub earlier : Text → Text → Text
earlier a b = if lt_text a b then a else b

-- The session that a first event creates.
unfoldable pub base_session : Base → Text → TrainingSession
base_session b now = record {
  id = b.capture_session_id;
  installation_id = b.installation_id;
  platform = b.platform;
  problem_external_id = b.problem_external_id;
  problem_title = b.problem_title;
  canonical_url = b.canonical_url;
  provenance_level = b.provenance_level;
  started_at = b.occurred_at;
  ended_at = none;
  end_reason = none;
  created_at = now;
  updated_at = now;
}

unfoldable pub first_session : CaptureEvent → Text → TrainingSession
unfolding base_session
first_session (session_ended e) now = record (base_session e.base now) {
  ended_at = some e.base.occurred_at;
  end_reason = some e.end_reason;
}
first_session (session_started e) now = base_session e.base now
first_session (submission_observed e) now = base_session e.base now
first_session (verdict_observed e) now = base_session e.base now

-- `event.type === "SESSION_STARTED"` after the session's end
unfoldable pub restarts : TrainingSession → CaptureEvent → Bool
restarts s (session_started e) = ended_before s.ended_at e.base.occurred_at
restarts s _ = false

-- `current.endedAt === undefined || event.occurredAt < current.endedAt`
abbrev pub should_use_end : Option Text → Text → Bool
should_use_end none t = true
should_use_end (some end) t = lt_text t end

unfoldable pub merged_session : TrainingSession → CaptureEvent → Text → TrainingSession
merged_session s (session_ended e) now =
    let use_end = should_use_end s.ended_at e.base.occurred_at in
    record s {
      started_at = earlier e.base.occurred_at s.started_at;
      ended_at = if use_end then some e.base.occurred_at else s.ended_at;
      end_reason = if use_end then some e.end_reason else s.end_reason;
      updated_at = now;
    }
merged_session s (session_started e) now = record s {
  started_at = earlier e.base.occurred_at s.started_at;
  updated_at = now;
}
merged_session s (submission_observed e) now = record s {
  started_at = earlier e.base.occurred_at s.started_at;
  updated_at = now;
}
merged_session s (verdict_observed e) now = record s {
  started_at = earlier e.base.occurred_at s.started_at;
  updated_at = now;
}

-- What `attemptIdentity` gives to a new attempt, and the fields that all new attempts share.
unfoldable pub new_attempt : Base → Text → Text → TrainingAttempt
new_attempt b submission_id now = record {
  id = units "attempt_" ++ submission_id;
  capture_session_id = some b.capture_session_id;
  submission_id = some submission_id;
  record_source = capture;
  platform = b.platform;
  problem_external_id = b.problem_external_id;
  problem_title = b.problem_title;
  canonical_url = b.canonical_url;
  started_at = b.occurred_at;
  ended_at = none;
  result = draft;
  verdict = none;
  language = none;
  duration_minutes = none;
  reflection = none;
  submission_event_id = none;
  verdict_event_id = none;
  revision = 1;
  voided_at = none;
  void_reason = none;
  created_at = now;
  updated_at = now;
}

-- `stored === expected` for a stored field that may be undefined
abbrev pub eq_stored : Option Text → Text → Bool
eq_stored none t = false
eq_stored (some s) t = eq_text s t

unfoldable pub same_attempt : TrainingAttempt → Base → Text → Bool
same_attempt a b submission_id =
    eq_stored a.capture_session_id b.capture_session_id
    && eq_stored a.submission_id submission_id
    && eq_platform a.platform b.platform
    && eq_text a.problem_external_id b.problem_external_id

unfoldable pub merged_submission :
    TrainingAttempt → SubmissionObservedEvent → Text → TrainingAttempt
merged_submission a e now =
    let is_earlier = lt_text e.base.occurred_at a.started_at in
    record a {
      started_at = if is_earlier then e.base.occurred_at else a.started_at;
      submission_event_id =
          if is_none a.submission_event_id || is_earlier
          then some e.base.id
          else a.submission_event_id;
      updated_at = now;
    }

-- `isNewerVerdict` over the two stored fields that it reads
unfoldable pub is_newer_verdict : Option Text → Option Text → VerdictObservedEvent → Bool
is_newer_verdict none stored_id e = true
is_newer_verdict (some end) none e = true
is_newer_verdict (some end) (some stored_id) e =
    if not (eq_text e.base.occurred_at end)
    then lt_text end e.base.occurred_at
    else lt_text stored_id e.base.id

-- The fields that a verdict event writes.
unfoldable pub with_verdict : TrainingAttempt → VerdictObservedEvent → Text → TrainingAttempt
with_verdict a e now = record a {
  ended_at = some e.base.occurred_at;
  result = verdict_result e;
  verdict = some e.verdict;
  language = e.language;
  verdict_event_id = some e.base.id;
  updated_at = now;
}

-- A submission that comes after the end of its session and has no attempt yet.
abbrev pub after_end : TrainingSession → Option TrainingAttempt → Text → Bool
after_end s none t = ended_before s.ended_at t
after_end s (some _) t = false

module _ (z : Formats) where
  -- `TrainingSessionSchema.parse`
  unfoldable pub parse_session : TrainingSession → Result IngestError TrainingSession
  parse_session s = if session_schema z s then ok s else err zod_error

  -- `TrainingAttemptSchema.parse`
  unfoldable pub parse_attempt : TrainingAttempt → Result IngestError TrainingAttempt
  parse_attempt a = if attempt_schema z a then ok a else err zod_error

  unfoldable pub transition_session :
      Option TrainingSession → CaptureEvent → Text → Result IngestError TrainingSession
  unfolding parse_session
  transition_session none e now = parse_session (first_session e now)
  transition_session (some s) e now =
      guard_that (same_session s (event_base e)) capture_conflict >>= λ _.
      guard_that (not (restarts s e)) capture_conflict >>= λ _.
      parse_session (merged_session s e now)

  unfoldable pub transition_submission_attempt :
      Option TrainingAttempt → SubmissionObservedEvent → Text → Result IngestError TrainingAttempt
  unfolding parse_attempt
  transition_submission_attempt none e now =
      parse_attempt
        (record (new_attempt e.base e.submission_id now) { submission_event_id = some e.base.id })
  transition_submission_attempt (some a) e now =
      guard_that (same_attempt a e.base e.submission_id) capture_conflict >>= λ _.
      parse_attempt (merged_submission a e now)

  unfoldable pub transition_verdict_attempt :
      Option TrainingAttempt → VerdictObservedEvent → Text → Result IngestError TrainingAttempt
  unfolding parse_attempt
  transition_verdict_attempt none e now =
      parse_attempt (with_verdict (new_attempt e.base e.submission_id now) e now)
  transition_verdict_attempt (some a) e now =
      guard_that (same_attempt a e.base e.submission_id) capture_conflict >>= λ _.
      if is_newer_verdict a.ended_at a.verdict_event_id e
      then parse_attempt (with_verdict a e now)
      else ok a

  unfoldable pub transition_capture_state :
      CaptureState → CaptureEvent → Text → Result IngestError CaptureTransition
  transition_capture_state state (session_started e) now =
      transition_session state.session (session_started e) now >>= λ s.
      ok (record { session = s; attempt = none })
  transition_capture_state state (session_ended e) now =
      transition_session state.session (session_ended e) now >>= λ s.
      ok (record { session = s; attempt = none })
  transition_capture_state state (submission_observed e) now =
      transition_session state.session (submission_observed e) now >>= λ s.
      guard_that (not (after_end s state.attempt e.base.occurred_at)) capture_conflict >>= λ _.
      transition_submission_attempt state.attempt e now >>= λ a.
      ok (record { session = s; attempt = some a })
  transition_capture_state state (verdict_observed e) now =
      transition_session state.session (verdict_observed e) now >>= λ s.
      guard_that (not (after_end s state.attempt e.base.occurred_at)) capture_conflict >>= λ _.
      transition_verdict_attempt state.attempt e now >>= λ a.
      ok (record { session = s; attempt = some a })
