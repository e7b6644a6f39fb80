-- ===== src/Reducer/Evidence/Confirmations.antt =====
-- Confirmations in captureStateMachine.ts: `handleE2`.
use ai_coding_training_platf.Common.{
  Bool, true, false, not, ◌&&◌, ◌||◌, Option, none, some, List, [], ◌∷◌, ◌++◌, ℕ, length,
  if◌then◌else◌, Text, eq_text, is_none,
}
use ai_coding_training_platf.Domain.{eq_platform}
use ai_coding_training_platf.Reducer.{
  CaptureCanonicalState, malformed_response, CorrelatorRejectionReason, E1LifecycleOutcome,
  E1RequestObserved, E2SubmissionConfirmed, CaptureRequestRecord, CaptureSubmissionRecord, Runtime,
  CaptureReducerMetadata,
}
use ai_coding_training_platf.Reducer.Identity.{nonempty_text, namespaced_key}
use ai_coding_training_platf.Reducer.Context.{
  Host, earliest_time, resolve_context, metadata_from_e1, metadata_from_e2, context_metadata,
  or_else, or_option,
}
use ai_coding_training_platf.Reducer.Bundle.{
  emit_rejected, set, find_request_by_reference, find_record_index, find_record_key_for_request,
  find_pending_final, is_pending, is_matched, is_text,
}
use ai_coding_training_platf.Reducer.Evidence.Requests.{
  mark_if_pending, rejection_reason_for_outcome,
}
use ai_coding_training_platf.Reducer.Evidence.Verdicts.{replay_pending_final}

module _ (host : Host) where
  -- The reason that a request gives to a rejection.
  unfoldable pub request_reason : Option CaptureRequestRecord → CorrelatorRejectionReason
  unfolding rejection_reason_for_outcome
  request_reason none = malformed_response
  request_reason (some q) = or_else q.rejection_reason (rejection_reason_for_outcome q.outcome)

  -- The record of a submission after another confirmation.
  unfoldable pub confirmed_record :
      Runtime → E2SubmissionConfirmed → CaptureSubmissionRecord → CaptureSubmissionRecord
  confirmed_record rt e r = record r {
    status = CaptureCanonicalState.submission_confirmed;
    phase = or_option e.phase r.phase;
    e2 = some e;
    context =
        resolve_context host
          (some rt.input_metadata
            ∷ some (metadata_from_e2 e)
            ∷ some (context_metadata r.context)
            ∷ [])
          e.base.platform e.problem_external_id none (some r.context.capture_session_id)
          (some r.context);
  }

  unfoldable pub confirm_known :
      Runtime
      → E2SubmissionConfirmed
      → Text
      → ℕ
      → CaptureSubmissionRecord
      → Option CaptureRequestRecord
      → Runtime
  confirm_known rt e key i r request =
      let updated = confirmed_record rt e r in
      let confirmed = mark_if_pending (record rt { records = set rt.records i updated }) request in
      replay_pending_final host
        (record confirmed {
          status = CaptureCanonicalState.submission_confirmed;
          focus_key = some key;
        })
        i updated key

  -- `request !== undefined && request.outcome !== "pending" && request.outcome !== "matched"`
  unfoldable pub is_unusable : Option CaptureRequestRecord → Bool
  is_unusable none = false
  is_unusable (some q) = not (is_pending q.outcome) && not (is_matched q.outcome)

  -- `handleE2` for a submission that has a record.
  unfoldable pub handle_e2_known :
      Runtime
      → E2SubmissionConfirmed
      → Text
      → ℕ
      → CaptureSubmissionRecord
      → Option CaptureRequestRecord
      → Runtime
  handle_e2_known rt e key i r request =
      let names_request =
        is_text r.request_evidence_id e.request_evidence_id
        || is_text r.request_id e.request_evidence_id in
      if is_none request && not names_request
      then emit_rejected malformed_response (some key) true rt
      else if is_unusable request
      then emit_rejected (request_reason request) (some key) true rt
      else if not (eq_text r.problem_external_id e.problem_external_id)
          || not (eq_platform r.platform e.base.platform)
      then emit_rejected malformed_response (some key) true rt
      else elim r.status [
        | CaptureCanonicalState.finalized ↦ rt
        | CaptureCanonicalState.rejected ↦
            emit_rejected (request_reason request) (some key) false rt
        | CaptureCanonicalState.expired ↦ emit_rejected (request_reason request) (some key) false rt
        | _ ↦ confirm_known rt e key i r request
      ]

  -- The record that `handleE2` makes for a new submission.
  unfoldable pub new_e2_record :
      Runtime
      → E2SubmissionConfirmed
      → (key external_id : Text) → CaptureRequestRecord
      → E1RequestObserved
      → CaptureSubmissionRecord
  new_e2_record rt e key external_id request e1 =
      let final = find_pending_final rt.pending_finals key in
      let hint : Option CaptureReducerMetadata = elim final [
        | none ↦ none
        | some (p, f) ↦ some f.metadata
      ] in
      let final_start : Option Text = elim final [
        | none ↦ none
        | some (p, f) ↦ f.metadata.started_at
      ] in
      record {
        submission_key = key;
        platform = e.base.platform;
        external_submission_id = external_id;
        problem_external_id = e.problem_external_id;
        status = CaptureCanonicalState.submission_confirmed;
        phase = e.phase;
        request_evidence_id = some request.evidence_id;
        request_id = some request.request_id;
        e1 = some e1;
        e2 = some e;
        e3 = none;
        context =
            resolve_context host
              (some rt.input_metadata
                ∷ hint
                ∷ some (metadata_from_e2 e)
                ∷ some (metadata_from_e1 e1)
                ∷ [])
              e.base.platform e.problem_external_id none (some e1.base.document_id) none;
        started_at =
            earliest_time host
              (or_else final_start (or_else rt.input_metadata.started_at e1.base.received_at))
              e1.base.received_at;
        bundle = none;
        v3_session_started = none;
        v3_submission_observed = none;
        v3_verdict_observed = none;
        v3_session_ended = none;
      }

  unfoldable pub is_expired_outcome : E1LifecycleOutcome → Bool
  is_expired_outcome E1LifecycleOutcome.expired = true
  is_expired_outcome _ = false

  -- Another submission has the request.
  unfoldable pub is_taken : List CaptureSubmissionRecord → CaptureRequestRecord → Text → Bool
  is_taken records request key = elim (find_record_key_for_request records request.request_id) [
    | none ↦ false
    | some other ↦ not (eq_text other key)
  ]

  unfoldable pub confirm_new :
      Runtime
      → E2SubmissionConfirmed
      → (key external_id : Text) → CaptureRequestRecord
      → E1RequestObserved
      → Runtime
  confirm_new rt e key external_id request e1 =
      let r = new_e2_record rt e key external_id request e1 in
      let marked = mark_if_pending (record rt { records = rt.records ++ r ∷ [] }) (some request) in
      replay_pending_final host
        (record marked {
          status = CaptureCanonicalState.submission_confirmed;
          focus_key = some key;
        })
        (length rt.records) r key

  -- `handleE2` for a submission that has none, over a request with its evidence.
  unfoldable pub handle_e2_new :
      Runtime
      → E2SubmissionConfirmed
      → (key external_id : Text) → CaptureRequestRecord
      → E1RequestObserved
      → Runtime
  handle_e2_new rt e key external_id request e1 =
      let reason = request_reason (some request) in
      if not (eq_platform request.platform e.base.platform)
      then emit_rejected malformed_response (some key) false rt
      else if is_unusable (some request)
      then (if is_expired_outcome request.outcome
          then emit_rejected reason (some key) true
              (record rt { status = CaptureCanonicalState.expired; focus_key = some key })
          else emit_rejected reason (some key) false rt)
      else if is_taken rt.records request key
      then emit_rejected malformed_response (some key) false rt
      else confirm_new rt e key external_id request e1

  unfoldable pub handle_e2_keyed :
      Runtime → E2SubmissionConfirmed → (key external_id : Text) → Runtime
  handle_e2_keyed rt e key external_id =
      let request = find_request_by_reference rt.requests e.request_evidence_id in
      elim (find_record_index rt.records key) [
        | some (i, r) ↦ handle_e2_known rt e key i r request
        | none ↦ elim request [
          | none ↦ emit_rejected malformed_response (some key) false rt
          | some q ↦ elim q.evidence [
            | none ↦ emit_rejected malformed_response (some key) false rt
            | some e1 ↦ handle_e2_new rt e key external_id q e1
          ]
        ]
      ]

  unfoldable pub handle_e2 : Runtime → E2SubmissionConfirmed → Runtime
  handle_e2 rt e = elim (nonempty_text e.external_submission_id) [
    | none ↦ emit_rejected malformed_response none false rt
    | some external_id ↦
        let key = namespaced_key e.base.platform external_id in
        if is_none (nonempty_text e.request_evidence_id)
          || is_none (nonempty_text e.problem_external_id)
        then emit_rejected malformed_response (some key) false rt
        else handle_e2_keyed rt e key external_id
  ]
