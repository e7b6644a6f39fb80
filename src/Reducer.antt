-- ===== src/Reducer.antt =====
-- The capture state machine of extension/src/captureStateMachine.ts: its data. Evidence follows
-- extension/src/evidence.ts, the correlator's vocabulary extension/src/submissionCorrelator.ts.
pub mod Growth
pub mod Sha256
pub mod Identity
pub mod Context
pub mod Bundle
pub mod Evidence
pub mod Correlator
pub mod Reduce
pub mod Accepted
pub mod Progress
pub mod Once
mod Scenarios
use ai_coding_training_platf.Common.{Bool, true, false, Option, List, ℕ, Text}
use ai_coding_training_platf.Domain.{Platform, CaptureProvenanceLevel}
use ai_coding_training_platf.Domain.Event.{
  SessionStartedEvent, SubmissionObservedEvent, VerdictObservedEvent, SessionEndedEvent,
}

pub data CaptureCanonicalState : Type 0 where
  idle request_observed rejected ambiguous expired submission_confirmed finalized :
      CaptureCanonicalState

pub data CaptureSubmissionPhase : Type 0 where
  queued judging running : CaptureSubmissionPhase

pub data CaptureIgnoredReason : Type 0 where
  missing_external_submission_id control_character_in_identity identity_mismatch non_final_verdict
        non_final_phase_only unsupported_v3_payload unknown_input_kind missing_metadata
        identity_collision :
      CaptureIgnoredReason

pub data CorrelatorAmbiguityReason : Type 0 where
  multiple_e1_candidates e1_window_expired bridge_message_unmatched : CorrelatorAmbiguityReason

pub data CorrelatorRejectionReason : Type 0 where
  csrf_invalid csrf_expired auth_required auth_expired rate_limited business_rejection network_error
        timeout server_error malformed_response :
      CorrelatorRejectionReason

pub data E1LifecycleOutcome : Type 0 where
  pending matched rejected expired canceled error : E1LifecycleOutcome

pub data CorrelatorNoMatchReason : Type 0 where
  zero_candidates expired canceled error already_matched crossed_fields : CorrelatorNoMatchReason

pub data Lifecycle : Type 0 where
  before_request before_redirect response_started completed error_occurred : Lifecycle

-- What every piece of safe evidence carries (`evidenceBaseSchema`).
pub record EvidenceBase : Type 0 where
  pub evidence_id : Text
  pub platform : Platform
  pub received_at : Text
  pub tab_id : ℕ
  pub frame_id : ℕ
  pub document_id : Text
  pub adapter_version : Text

-- `apiTimeStamp` is a non-negative number of milliseconds; its fraction is not modelled.
pub record E1RequestObserved : Type 0 where
  pub base : EvidenceBase
  pub api_time_stamp : ℕ
  pub request_id : Text
  pub method : Text
  pub endpoint_key : Text
  pub resource_type : Text
  pub lifecycle : Lifecycle
  pub status_code : Option ℕ
  pub redirect_endpoint_key : Option Text

pub record E2SubmissionConfirmed : Type 0 where
  pub base : EvidenceBase
  pub request_evidence_id : Text
  pub external_submission_id : Text
  pub problem_external_id : Text
  pub phase : Option CaptureSubmissionPhase

pub record E3FinalVerdictConfirmed : Type 0 where
  pub base : EvidenceBase
  pub external_submission_id : Text
  pub problem_external_id : Text
  pub verdict : Text

pub record RejectionEvidence : Type 0 where
  pub base : EvidenceBase
  pub request_id : Text
  pub rejection_reason : CorrelatorRejectionReason

pub data SafeEvidence : Type 0 where
  ui_hint : EvidenceBase → SafeEvidence
  request_observed : E1RequestObserved → SafeEvidence
  ambiguous_correlation : EvidenceBase → CorrelatorAmbiguityReason → SafeEvidence
  request_rejected : RejectionEvidence → SafeEvidence
  submission_confirmed : E2SubmissionConfirmed → SafeEvidence
  final_verdict_confirmed : E3FinalVerdictConfirmed → SafeEvidence

-- `CaptureReducerMetadata`, whose session fields have one spelling each after `inputMetadata`.
pub record CaptureReducerMetadata : Type 0 where
  pub installation_id : Option Text
  pub capture_session_id : Option Text
  pub session_id : Option Text
  pub adapter_version : Option Text
  pub parser_version : Option Text
  pub page_origin : Option Text
  pub provenance_level : Option CaptureProvenanceLevel
  pub platform : Option Platform
  pub problem_external_id : Option Text
  pub problem_title : Option Text
  pub canonical_url : Option Text
  pub started_at : Option Text
  pub ended_at : Option Text

pub record CaptureBundleMetadata : Type 0 where
  pub installation_id : Text
  pub capture_session_id : Text
  pub adapter_version : Text
  pub parser_version : Text
  pub page_origin : Text
  pub provenance_level : CaptureProvenanceLevel
  pub platform : Platform
  pub problem_external_id : Text
  pub problem_title : Text
  pub canonical_url : Text

pub record CaptureAttemptBundle : Type 0 where
  pub bundle_id : Text
  pub started : SessionStartedEvent
  pub submitted : SubmissionObservedEvent
  pub verdict : VerdictObservedEvent
  pub ended : SessionEndedEvent

pub data CaptureEffect : Type 0 where
  bundle : CaptureAttemptBundle → (observed_at : Text) → CaptureEffect
  rejected_effect :
      CorrelatorRejectionReason
      → (submission_key : Option Text) → (observed_at : Text) → CaptureEffect
  ambiguous_effect :
      CorrelatorAmbiguityReason
      → (submission_key : Option Text) → (observed_at : Text) → CaptureEffect
  ignored_effect : CaptureIgnoredReason → (observed_at : Text) → CaptureEffect

pub record CaptureRequestRecord : Type 0 where
  pub evidence_id : Text
  pub request_id : Text
  pub platform : Platform
  pub evidence : Option E1RequestObserved
  pub outcome : E1LifecycleOutcome
  pub rejection_reason : Option CorrelatorRejectionReason

pub record CaptureSubmissionRecord : Type 0 where
  pub submission_key : Text
  pub platform : Platform
  pub external_submission_id : Text
  pub problem_external_id : Text
  pub status : CaptureCanonicalState
  pub phase : Option CaptureSubmissionPhase
  pub request_evidence_id : Option Text
  pub request_id : Option Text
  pub e1 : Option E1RequestObserved
  pub e2 : Option E2SubmissionConfirmed
  pub e3 : Option E3FinalVerdictConfirmed
  pub context : CaptureBundleMetadata
  pub started_at : Text
  pub bundle : Option CaptureAttemptBundle
  pub v3_session_started : Option SessionStartedEvent
  pub v3_submission_observed : Option SubmissionObservedEvent
  pub v3_verdict_observed : Option VerdictObservedEvent
  pub v3_session_ended : Option SessionEndedEvent

pub record CapturePendingFinal : Type 0 where
  pub submission_key : Text
  pub evidence : E3FinalVerdictConfirmed
  pub metadata : CaptureReducerMetadata

pub record CaptureSessionRecord : Type 0 where
  pub capture_session_id : Text
  pub installation_id : Text
  pub started_at : Text
  pub ended_at : Option Text
  pub metadata : CaptureBundleMetadata
  pub started_event : Option SessionStartedEvent
  pub ended_event : Option SessionEndedEvent

-- `CaptureReducerState`, but for the aliases `state` and `activeSubmissionKey` and for the clock,
-- which is an argument of the reducer.
pub record CaptureReducerState : Type 0 where
  pub status : CaptureCanonicalState
  pub phase : Option CaptureSubmissionPhase
  pub submission_key : Option Text
  pub waiting : Bool
  pub waiting_count : ℕ
  pub requests : List CaptureRequestRecord
  pub records : List CaptureSubmissionRecord
  pub pending_finals : List CapturePendingFinal
  pub session : Option CaptureSessionRecord

-- `Runtime` with the fields of its `WorkingState`. `clock n` is what the n-th call of the clock
-- gives; the effects are in the order in which they are pushed.
pub record Runtime : Type 0 where
  pub status : CaptureCanonicalState
  pub focus_key : Option Text
  pub requests : List CaptureRequestRecord
  pub records : List CaptureSubmissionRecord
  pub pending_finals : List CapturePendingFinal
  pub session : Option CaptureSessionRecord
  pub effects : List CaptureEffect
  pub clock : ℕ → Text
  pub input_metadata : CaptureReducerMetadata
