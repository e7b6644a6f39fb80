-- ===== src/Domain/Event.antt =====
-- The four capture events of lib/capture/protocol.ts.
use ai_coding_training_platf.Common.{Bool, true, false, ◌&&◌, Option, Text}
use ai_coding_training_platf.Domain.{
  Platform, CaptureProvenanceLevel, SessionEndReason, AttemptResult, draft, passed, failed, partial,
  stuck,
}
use ai_coding_training_platf.Domain.Training.{Formats, nonempty, optionally}

-- What every event carries (`BaseCaptureEventSchema`).
pub record Base : Type 0 where
  pub id : Text
  pub capture_session_id : Text
  pub installation_id : Text
  pub adapter_version : Text
  pub parser_version : Text
  pub page_origin : Text
  pub provenance_level : CaptureProvenanceLevel
  pub platform : Platform
  pub problem_external_id : Text
  pub problem_title : Text
  pub canonical_url : Text
  pub occurred_at : Text

pub data SubmissionObservedAction : Type 0 where
  submit_clicked submission_confirmed : SubmissionObservedAction

pub record SessionStartedEvent : Type 0 where
  pub base : Base

pub record SubmissionObservedEvent : Type 0 where
  pub base : Base
  pub submission_id : Text
  pub action : SubmissionObservedAction

pub record VerdictObservedEvent : Type 0 where
  pub base : Base
  pub submission_id : Text
  pub verdict : Text
  pub language : Option Text
  pub result : Option AttemptResult

pub record SessionEndedEvent : Type 0 where
  pub base : Base
  pub end_reason : SessionEndReason

-- `CaptureEventSchema`, a union discriminated by `type`.
pub data CaptureEvent : Type 0 where
  session_started : SessionStartedEvent → CaptureEvent
  submission_observed : SubmissionObservedEvent → CaptureEvent
  verdict_observed : VerdictObservedEvent → CaptureEvent
  session_ended : SessionEndedEvent → CaptureEvent

abbrev pub event_base : CaptureEvent → Base
event_base (session_started e) = e.base
event_base (submission_observed e) = e.base
event_base (verdict_observed e) = e.base
event_base (session_ended e) = e.base

-- `BaseCaptureEventSchema`, for the fields whose type leaves anything to check.
unfoldable pub base_schema : Formats → Base → Bool
base_schema z b =
    nonempty b.id
    && nonempty b.capture_session_id
    && nonempty b.installation_id
    && nonempty b.adapter_version
    && nonempty b.parser_version
    && z.is_url b.page_origin
    && nonempty b.problem_external_id
    && nonempty b.problem_title
    && z.is_url b.canonical_url
    && z.is_datetime b.occurred_at

-- The results that an event may name.
abbrev pub is_settled : AttemptResult → Bool
is_settled draft = false
is_settled passed = true
is_settled failed = true
is_settled partial = true
is_settled stuck = true

-- `CaptureEventSchema`
unfoldable pub event_schema : Formats → CaptureEvent → Bool
unfolding base_schema
event_schema z (session_started e) = base_schema z e.base
event_schema z (submission_observed e) = base_schema z e.base && nonempty e.submission_id
event_schema z (verdict_observed e) =
    base_schema z e.base
    && nonempty e.submission_id
    && nonempty e.verdict
    && optionally nonempty e.language
    && optionally is_settled e.result
event_schema z (session_ended e) = base_schema z e.base
