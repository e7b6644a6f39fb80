-- ===== src/Reducer/Evidence.antt =====
-- `handleSafeEvidence` of captureStateMachine.ts, over the handlers of the kinds of evidence.
pub mod Requests
pub mod Confirmations
pub mod Verdicts
use ai_coding_training_platf.Common.{
  Bool, true, false, not, ◌&&◌, ◌||◌, Option, none, some, List, [], ◌∷◌, ◌++◌, ℕ, ◌==◌, leb, ltb,
  length, if◌then◌else◌, Text, eq_text, is_none, lt_text,
}
use ai_coding_training_platf.Domain.{eq_platform}
use ai_coding_training_platf.Domain.Verdict.{is_final_capture_verdict}
use ai_coding_training_platf.Reducer.{
  CaptureCanonicalState, non_final_verdict, control_character_in_identity,
  missing_external_submission_id, missing_metadata, malformed_response, CorrelatorRejectionReason,
  E1LifecycleOutcome, E1RequestObserved, Lifecycle, E2SubmissionConfirmed, E3FinalVerdictConfirmed,
  RejectionEvidence, SafeEvidence, CaptureRequestRecord, CaptureSubmissionRecord, Runtime,
  CaptureReducerMetadata,
}
use ai_coding_training_platf.Reducer.Identity.{nonempty_text, namespaced_key}
use ai_coding_training_platf.Reducer.Context.{
  Host, compare_times, earliest_time, is_negative, resolve_context, metadata_from_e1,
  metadata_from_e2, context_metadata, or_else, or_option,
}
use ai_coding_training_platf.Reducer.Bundle.{
  emit_bundle, emit_rejected, emit_ambiguous, emit_ignored, set, remove, find_request_index,
  find_request_by_reference, find_record_index, find_record_key_for_request, find_pending_final,
  has_conflicting_record, is_pending, is_matched, is_text, built, refused, refused_identity,
  build_safe_bundle, has_control_char,
}
unfoldable pub use ai_coding_training_platf.Reducer.Evidence.Requests.{
  is_error, status_rejection, e1_rejection_reason, rejection_reason_for_outcome, eq_reason,
  is_reason, same_e1_identity, merge_e1, e1_mismatch, e1_settled, e1_request_new, e1_request_merged,
  e1_stored, handle_e1, is_rejected_outcome, rejection_request, rejection_stored,
  handle_rejected_evidence, mark_request_matched, mark_if_pending,
}
unfoldable pub use ai_coding_training_platf.Reducer.Evidence.Verdicts.{
  is_finalized, is_confirmed, finalize_safe_record, too_early, replay_pending_final,
  handle_e3_unknown, handle_e3_known, handle_e3,
}
unfoldable pub use ai_coding_training_platf.Reducer.Evidence.Confirmations.{
  request_reason, confirmed_record, confirm_known, is_unusable, handle_e2_known, new_e2_record,
  is_expired_outcome, is_taken, confirm_new, handle_e2_new, handle_e2_keyed, handle_e2,
}

module _ (host : Host) where
  unfoldable pub handle_safe_evidence : Runtime → Option SafeEvidence → Runtime
  handle_safe_evidence rt none = emit_ignored missing_metadata rt
  handle_safe_evidence rt (some (SafeEvidence.ui_hint b)) = rt
  handle_safe_evidence rt (some (SafeEvidence.request_observed e)) = handle_e1 rt e
  handle_safe_evidence rt (some (SafeEvidence.ambiguous_correlation b reason)) =
      emit_ambiguous reason none (record rt { status = CaptureCanonicalState.ambiguous })
  handle_safe_evidence rt (some (SafeEvidence.request_rejected e)) = handle_rejected_evidence rt e
  handle_safe_evidence rt (some (SafeEvidence.submission_confirmed e)) = handle_e2 host rt e
  handle_safe_evidence rt (some (SafeEvidence.final_verdict_confirmed e)) = handle_e3 host rt e
