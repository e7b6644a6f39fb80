-- ===== src/Reducer/Reduce.antt =====
-- `createCaptureStateMachineState` and `reduceCaptureState` of captureStateMachine.ts, for the
-- Safe Evidence and correlator inputs. An input has its payload once: the spellings that the
-- source takes for one payload, and the events of the older protocol, are not modelled.
use ai_coding_training_platf.Common.{
  false, Option, none, some, List, [], ℕ, ltb, length, if◌then◌else◌, filter_by, find_by, Text,
  eq_text,
}
use ai_coding_training_platf.Reducer.{
  CaptureCanonicalState, CaptureSubmissionPhase, CorrelatorAmbiguityReason,
  CorrelatorRejectionReason, CorrelatorNoMatchReason, SafeEvidence, CaptureReducerMetadata,
  CaptureEffect, CaptureSubmissionRecord, CaptureReducerState, Runtime,
}
use ai_coding_training_platf.Reducer.Context.{Host}
use ai_coding_training_platf.Reducer.Evidence.{handle_safe_evidence, is_confirmed}
use ai_coding_training_platf.Reducer.Correlator.{
  Correlated, handle_correlator_correlated, handle_correlator_ambiguous, handle_correlator_no_match,
  handle_correlator_rejected,
}

-- The kinds of `CaptureReducerInput`, with what their handlers read.
pub data CaptureReducerInput : Type 0 where
  safe_evidence : Option SafeEvidence → CaptureReducerInput
  correlator_correlated : Option Correlated → CaptureReducerInput
  correlator_ambiguous : CorrelatorAmbiguityReason → (key : Option Text) → CaptureReducerInput
  correlator_no_match :
      CorrelatorNoMatchReason → (request_id key : Option Text) → CaptureReducerInput
  correlator_rejected :
      CorrelatorRejectionReason → (request_id key : Option Text) → CaptureReducerInput

unfoldable pub phase_of :
    CaptureCanonicalState
    → Option Text
    → List CaptureSubmissionRecord
    → Option CaptureSubmissionPhase
unfolding find_by is_confirmed
phase_of status none records = none
phase_of status (some key) records =
    if is_confirmed status
    then elim (find_by (λ r. eq_text r.submission_key key) records) [
      | none ↦ none
      | some r ↦ r.phase
    ]
    else none

unfoldable pub materialize_state : Runtime → CaptureReducerState
unfolding filter_by is_confirmed phase_of
materialize_state rt =
    let waiting_count = length (filter_by (λ r. is_confirmed r.status) rt.records) in
    record {
      status = rt.status;
      phase = phase_of rt.status rt.focus_key rt.records;
      submission_key = rt.focus_key;
      waiting = ltb 0 waiting_count;
      waiting_count = waiting_count;
      requests = rt.requests;
      records = rt.records;
      pending_finals = rt.pending_finals;
      session = rt.session;
    }

-- The runtime at the start of a reduction.
unfoldable pub runtime_of : CaptureReducerState → CaptureReducerMetadata → (ℕ → Text) → Runtime
runtime_of state metadata clock = record {
  status = state.status;
  focus_key = state.submission_key;
  requests = state.requests;
  records = state.records;
  pending_finals = state.pending_finals;
  session = state.session;
  effects = [];
  clock = clock;
  input_metadata = metadata;
}

unfoldable pub create_capture_state_machine_state : CaptureReducerState
create_capture_state_machine_state = record {
  status = CaptureCanonicalState.idle;
  phase = none;
  submission_key = none;
  waiting = false;
  waiting_count = 0;
  requests = [];
  records = [];
  pending_finals = [];
  session = none;
}

module _ (host : Host) where
  -- The `switch` of `reduceCaptureState`.
  unfoldable pub dispatch : Runtime → CaptureReducerInput → Runtime
  dispatch rt (safe_evidence e) = handle_safe_evidence host rt e
  dispatch rt (correlator_correlated c) = handle_correlator_correlated host rt c
  dispatch rt (correlator_ambiguous reason key) = handle_correlator_ambiguous rt reason key
  dispatch rt (correlator_no_match reason id key) = handle_correlator_no_match rt reason id key
  dispatch rt (correlator_rejected reason id key) = handle_correlator_rejected rt reason id key

  unfoldable pub reduce_capture_state :
      CaptureReducerState
      → CaptureReducerInput
      → CaptureReducerMetadata
      → (ℕ → Text)
      → CaptureReducerState × List CaptureEffect
  reduce_capture_state state input metadata clock =
      let rt = dispatch (runtime_of state metadata clock) input in
      (materialize_state rt, rt.effects)
