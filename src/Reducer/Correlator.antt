-- ===== src/Reducer/Correlator.antt =====
-- The handlers of the correlator's results in captureStateMachine.ts.
use ai_coding_training_platf.Common.{
  true, false, Option, none, some, [], ◌∷◌, ◌++◌, ℕ, if◌then◌else◌, Text, units,
}
use ai_coding_training_platf.Domain.{Platform}
use ai_coding_training_platf.Reducer.{
  CaptureCanonicalState, non_final_phase_only, missing_metadata, malformed_response,
  CorrelatorAmbiguityReason, CorrelatorRejectionReason, CorrelatorNoMatchReason, E1LifecycleOutcome,
  E1RequestObserved, E2SubmissionConfirmed, E3FinalVerdictConfirmed, Runtime,
}
use ai_coding_training_platf.Reducer.Identity.{sha256_hex}
use ai_coding_training_platf.Reducer.Context.{Host, or_else, or_option}
use ai_coding_training_platf.Reducer.Bundle.{
  emit_rejected, emit_ambiguous, emit_ignored, set, find_request_index, find_request_by_reference,
  find_record_key_for_request, sole_pending_request_id, is_matched,
}
use ai_coding_training_platf.Reducer.Evidence.{handle_e1, handle_e2, handle_e3}

-- `MainBridgeSummary`
pub record MainBridgeSummary : Type 0 where
  pub platform : Platform
  pub tab_id : ℕ
  pub frame_id : ℕ
  pub document_id : Text
  pub method : Text
  pub endpoint_key : Text
  pub api_time_stamp : ℕ
  pub external_submission_id : Option Text
  pub problem_external_id : Option Text
  pub redirect_endpoint_key : Option Text
  pub received_at : Text
  pub evidence_id : Text

-- A correlated result with the evidence that its caller adds.
pub record Correlated : Type 0 where
  pub matched_e1 : E1RequestObserved
  pub summary : MainBridgeSummary
  pub e2 : Option E2SubmissionConfirmed
  pub e3 : Option E3FinalVerdictConfirmed

-- The confirmation that a correlation stands for.
unfoldable pub synthetic_e2 :
    E1RequestObserved → MainBridgeSummary → Text → Text → E2SubmissionConfirmed
unfolding sha256_hex
synthetic_e2 e1 summary external_id problem = record {
  base = record {
    evidence_id =
        units "correlated-e2-" ++ sha256_hex (e1.base.evidence_id ++ (31 ∷ summary.evidence_id));
    platform = summary.platform;
    received_at = summary.received_at;
    tab_id = e1.base.tab_id;
    frame_id = e1.base.frame_id;
    document_id = e1.base.document_id;
    adapter_version = e1.base.adapter_version;
  };
  request_evidence_id = e1.base.evidence_id;
  external_submission_id = external_id;
  problem_external_id = problem;
  phase = none;
}

-- `markRequestTerminal`
unfoldable pub mark_request_terminal :
    Runtime → Option Text → E1LifecycleOutcome → CorrelatorRejectionReason → Runtime
mark_request_terminal rt none outcome reason = rt
mark_request_terminal rt (some id) outcome reason =
    elim (find_request_by_reference rt.requests id) [
      | none ↦ rt
      | some request ↦
          elim (find_request_index rt.requests request.evidence_id request.request_id) [
            | none ↦ rt
            | some (i, other) ↦ record rt {
              requests =
                  set rt.requests i
                    (record request { outcome = outcome; rejection_reason = some reason });
            }
          ]
    ]

unfoldable pub set_focus : Runtime → CaptureCanonicalState → Option Text → Runtime
set_focus rt status key = record rt { status = status; focus_key = key }

unfoldable pub handle_correlator_ambiguous :
    Runtime → CorrelatorAmbiguityReason → Option Text → Runtime
unfolding set_focus
handle_correlator_ambiguous rt reason key =
    emit_ambiguous reason key (set_focus rt CaptureCanonicalState.ambiguous key)

unfoldable pub handle_correlator_no_match :
    Runtime → CorrelatorNoMatchReason → (request_id key : Option Text) → Runtime
unfolding set_focus
handle_correlator_no_match rt CorrelatorNoMatchReason.expired request_id key =
    emit_rejected CorrelatorRejectionReason.timeout key true (
      set_focus
        (mark_request_terminal rt (or_option request_id (sole_pending_request_id rt.requests))
          E1LifecycleOutcome.expired CorrelatorRejectionReason.timeout)
        CaptureCanonicalState.expired key)
handle_correlator_no_match rt CorrelatorNoMatchReason.canceled request_id key =
    emit_rejected CorrelatorRejectionReason.network_error key true (
      set_focus
        (mark_request_terminal rt (or_option request_id (sole_pending_request_id rt.requests))
          E1LifecycleOutcome.canceled CorrelatorRejectionReason.network_error)
        CaptureCanonicalState.rejected key)
handle_correlator_no_match rt CorrelatorNoMatchReason.error request_id key =
    emit_rejected CorrelatorRejectionReason.network_error key true (
      set_focus
        (mark_request_terminal rt (or_option request_id (sole_pending_request_id rt.requests))
          E1LifecycleOutcome.error CorrelatorRejectionReason.network_error)
        CaptureCanonicalState.rejected key)
handle_correlator_no_match rt _ request_id key = emit_ignored non_final_phase_only rt

-- The request that a rejection names is rejected, unless it is matched.
unfoldable pub mark_request_rejected : Runtime → Option Text → CorrelatorRejectionReason → Runtime
mark_request_rejected rt none reason = rt
mark_request_rejected rt (some id) reason = elim (find_request_by_reference rt.requests id) [
  | none ↦ rt
  | some request ↦
      if is_matched request.outcome
      then rt
      else elim (find_request_index rt.requests request.evidence_id request.request_id) [
        | none ↦ rt
        | some (i, other) ↦ record rt {
          requests = set rt.requests i (record request {
            outcome = E1LifecycleOutcome.rejected;
            rejection_reason = some reason;
          });
        }
      ]
]

unfoldable pub handle_correlator_rejected :
    Runtime → CorrelatorRejectionReason → (request_id key : Option Text) → Runtime
unfolding set_focus
handle_correlator_rejected rt reason request_id key =
    let focus = or_option key (find_record_key_for_request rt.records (or_else request_id [])) in
    emit_rejected reason focus true
      (set_focus (mark_request_rejected rt request_id reason) CaptureCanonicalState.rejected focus)

module _ (host : Host) where
  -- The confirmation of `handleCorrelatorCorrelated`; `none` means that it returns after a rejection.
  unfoldable pub correlated_e2 : Runtime → Correlated → Option E2SubmissionConfirmed
  correlated_e2 rt c = elim c.e2 [
    | some e2 ↦ some e2
    | none ↦ elim c.summary.external_submission_id [
      | none ↦ none
      | some external_id ↦
          elim (or_option c.summary.problem_external_id rt.input_metadata.problem_external_id) [
            | none ↦ none
            | some problem ↦ some (synthetic_e2 c.matched_e1 c.summary external_id problem)
          ]
    ]
  ]

  unfoldable pub handle_correlator_correlated : Runtime → Option Correlated → Runtime
  handle_correlator_correlated rt none = emit_ignored missing_metadata rt
  handle_correlator_correlated rt (some c) =
      let observed = handle_e1 rt c.matched_e1 in
      elim (correlated_e2 observed c) [
        | none ↦ emit_rejected malformed_response none false observed
        | some e2 ↦
            let confirmed = handle_e2 host observed e2 in
            elim c.e3 [ none ↦ confirmed | some e3 ↦ handle_e3 host confirmed e3 ]
      ]
