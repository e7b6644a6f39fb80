-- ===== src/Reducer/Evidence/Requests.antt =====
-- Evidence about requests in captureStateMachine.ts: `handleE1`, `handleRejectedEvidence` and the
-- marks of a request.
use ai_coding_training_platf.Common.{
  Bool, true, false, not, ◌&&◌, ◌||◌, Option, none, some, [], ◌∷◌, ◌++◌, ℕ, ◌==◌, leb, ltb,
  if◌then◌else◌, Text, eq_text, lt_text,
}
use ai_coding_training_platf.Domain.{eq_platform}
use ai_coding_training_platf.Reducer.{
  CaptureCanonicalState, malformed_response, CorrelatorRejectionReason, E1LifecycleOutcome,
  E1RequestObserved, Lifecycle, RejectionEvidence, CaptureRequestRecord, Runtime,
}
use ai_coding_training_platf.Reducer.Context.{or_option}
use ai_coding_training_platf.Reducer.Bundle.{
  emit_rejected, set, find_request_index, find_record_key_for_request, is_pending, is_matched,
}

unfoldable pub is_error : Lifecycle → Bool
is_error Lifecycle.error_occurred = true
is_error _ = false

unfoldable pub status_rejection : Option ℕ → Option CorrelatorRejectionReason
status_rejection none = none
status_rejection (some code) =
    if ltb code 400
    then none
    else if code == 401 || code == 403
    then some CorrelatorRejectionReason.auth_required
    else if code == 429
    then some CorrelatorRejectionReason.rate_limited
    else if leb 500 code
    then some CorrelatorRejectionReason.server_error
    else some CorrelatorRejectionReason.business_rejection

unfoldable pub e1_rejection_reason : E1RequestObserved → Option CorrelatorRejectionReason
unfolding is_error status_rejection
e1_rejection_reason e =
    if is_error e.lifecycle
    then some CorrelatorRejectionReason.network_error
    else status_rejection e.status_code

unfoldable pub rejection_reason_for_outcome : E1LifecycleOutcome → CorrelatorRejectionReason
rejection_reason_for_outcome E1LifecycleOutcome.expired = CorrelatorRejectionReason.timeout
rejection_reason_for_outcome E1LifecycleOutcome.canceled = CorrelatorRejectionReason.network_error
rejection_reason_for_outcome E1LifecycleOutcome.error = CorrelatorRejectionReason.network_error
rejection_reason_for_outcome _ = malformed_response

unfoldable pub eq_reason : CorrelatorRejectionReason → CorrelatorRejectionReason → Bool
eq_reason CorrelatorRejectionReason.csrf_invalid CorrelatorRejectionReason.csrf_invalid = true
eq_reason CorrelatorRejectionReason.csrf_expired CorrelatorRejectionReason.csrf_expired = true
eq_reason CorrelatorRejectionReason.auth_required CorrelatorRejectionReason.auth_required = true
eq_reason CorrelatorRejectionReason.auth_expired CorrelatorRejectionReason.auth_expired = true
eq_reason CorrelatorRejectionReason.rate_limited CorrelatorRejectionReason.rate_limited = true
eq_reason CorrelatorRejectionReason.business_rejection
      CorrelatorRejectionReason.business_rejection =
    true
eq_reason CorrelatorRejectionReason.network_error CorrelatorRejectionReason.network_error = true
eq_reason CorrelatorRejectionReason.timeout CorrelatorRejectionReason.timeout = true
eq_reason CorrelatorRejectionReason.server_error CorrelatorRejectionReason.server_error = true
eq_reason CorrelatorRejectionReason.malformed_response
      CorrelatorRejectionReason.malformed_response =
    true
eq_reason _ _ = false

unfoldable pub is_reason : Option CorrelatorRejectionReason → CorrelatorRejectionReason → Bool
unfolding eq_reason
is_reason none r = false
is_reason (some s) r = eq_reason s r

unfoldable pub same_e1_identity : E1RequestObserved → E1RequestObserved → Bool
same_e1_identity a b =
    eq_platform a.base.platform b.base.platform
    && a.base.tab_id == b.base.tab_id
    && a.base.frame_id == b.base.frame_id
    && eq_text a.base.document_id b.base.document_id
    && eq_text a.method b.method
    && eq_text a.endpoint_key b.endpoint_key

-- `existing.receivedAt <= incoming.receivedAt ? existing : incoming`
abbrev pub earliest_received : Text → Text → Text
earliest_received existing incoming = if lt_text incoming existing then incoming else existing

unfoldable pub merge_e1 : Option E1RequestObserved → E1RequestObserved → E1RequestObserved
merge_e1 none incoming = incoming
merge_e1 (some existing) incoming =
    let newer =
      if leb existing.api_time_stamp incoming.api_time_stamp then incoming else existing in
    let base = newer.base in
    record newer {
      base = record base {
        received_at = earliest_received existing.base.received_at incoming.base.received_at;
      };
    }

-- Whether a stored request belongs to another request than the evidence.
unfoldable pub e1_mismatch : CaptureRequestRecord → E1RequestObserved → Bool
unfolding same_e1_identity
e1_mismatch r e =
    not (eq_text r.request_id e.request_id)
    || not (eq_platform r.platform e.base.platform)
    || elim r.evidence [ none ↦ false | some old ↦ not (same_e1_identity old e) ]

-- Whether the evidence tells nothing new about a request that has an outcome.
unfoldable pub e1_settled : CaptureRequestRecord → Option CorrelatorRejectionReason → Bool
unfolding is_reason
e1_settled r none = not (is_pending r.outcome) && is_matched r.outcome
e1_settled r (some reason) =
    not (is_pending r.outcome) && (is_reason r.rejection_reason reason || is_matched r.outcome)

unfoldable pub e1_request_new : E1RequestObserved → CaptureRequestRecord
unfolding e1_rejection_reason
e1_request_new e = record {
  evidence_id = e.base.evidence_id;
  request_id = e.request_id;
  platform = e.base.platform;
  evidence = some e;
  outcome = elim (e1_rejection_reason e) [
    | none ↦ E1LifecycleOutcome.pending
    | some r ↦ E1LifecycleOutcome.rejected
  ];
  rejection_reason = e1_rejection_reason e;
}

unfoldable pub e1_request_merged : CaptureRequestRecord → E1RequestObserved → CaptureRequestRecord
unfolding e1_rejection_reason merge_e1
e1_request_merged r e = record {
  evidence_id = r.evidence_id;
  request_id = e.request_id;
  platform = e.base.platform;
  evidence = some (merge_e1 r.evidence e);
  outcome = elim (e1_rejection_reason e) [
    | none ↦ r.outcome
    | some x ↦ E1LifecycleOutcome.rejected
  ];
  rejection_reason = or_option (e1_rejection_reason e) r.rejection_reason;
}

-- The end of `handleE1`: what follows once the request is stored.
unfoldable pub e1_stored :
    Option CorrelatorRejectionReason → (was_matched : Bool) → Runtime → Runtime
e1_stored (some reason) was_matched rt =
    emit_rejected reason none true
      (record rt { status = CaptureCanonicalState.rejected; focus_key = none })
e1_stored none true rt = rt
e1_stored none false rt = record rt { status = CaptureCanonicalState.request_observed }

unfoldable pub handle_e1 : Runtime → E1RequestObserved → Runtime
handle_e1 rt e = elim (find_request_index rt.requests e.base.evidence_id e.request_id) [
  | none ↦
      e1_stored (e1_rejection_reason e) false
        (record rt { requests = rt.requests ++ e1_request_new e ∷ [] })
  | some (i, r) ↦
      if e1_mismatch r e
      then emit_rejected malformed_response none true rt
      else if e1_settled r (e1_rejection_reason e)
      then rt
      else e1_stored (e1_rejection_reason e) (is_matched r.outcome)
          (record rt { requests = set rt.requests i (e1_request_merged r e) })
]

unfoldable pub is_rejected_outcome : E1LifecycleOutcome → Bool
is_rejected_outcome E1LifecycleOutcome.rejected = true
is_rejected_outcome _ = false

unfoldable pub rejection_request :
    Option CaptureRequestRecord → RejectionEvidence → CaptureRequestRecord
rejection_request none e = record {
  evidence_id = e.base.evidence_id;
  request_id = e.request_id;
  platform = e.base.platform;
  evidence = none;
  outcome = E1LifecycleOutcome.rejected;
  rejection_reason = some e.rejection_reason;
}
rejection_request (some r) e = record {
  evidence_id = r.evidence_id;
  request_id = e.request_id;
  platform = e.base.platform;
  evidence = r.evidence;
  outcome = E1LifecycleOutcome.rejected;
  rejection_reason = some e.rejection_reason;
}

unfoldable pub rejection_stored : Runtime → RejectionEvidence → Runtime
rejection_stored rt e =
    emit_rejected e.rejection_reason (find_record_key_for_request rt.records e.request_id) true
      (record rt { status = CaptureCanonicalState.rejected; focus_key = none })

unfoldable pub handle_rejected_evidence : Runtime → RejectionEvidence → Runtime
handle_rejected_evidence rt e =
    elim (find_request_index rt.requests e.base.evidence_id e.request_id) [
      | none ↦
          rejection_stored (record rt { requests = rt.requests ++ rejection_request none e ∷ [] }) e
      | some (i, r) ↦
          if is_rejected_outcome r.outcome && is_reason r.rejection_reason e.rejection_reason
          then rt
          else rejection_stored
              (record rt { requests = set rt.requests i (rejection_request (some r) e) }) e
    ]

unfoldable pub mark_request_matched : Runtime → CaptureRequestRecord → Runtime
mark_request_matched rt request =
    elim (find_request_index rt.requests request.evidence_id request.request_id) [
      | none ↦ rt
      | some (i, current) ↦
          if is_pending current.outcome
          then record rt {
            requests =
                set rt.requests i (record current {
                  outcome = E1LifecycleOutcome.matched;
                  rejection_reason = none;
                });
          }
          else rt
    ]

-- `if (request !== undefined && request.outcome === "pending") markRequestMatched(…)`
unfoldable pub mark_if_pending : Runtime → Option CaptureRequestRecord → Runtime
mark_if_pending rt none = rt
mark_if_pending rt (some request) =
    if is_pending request.outcome then mark_request_matched rt request else rt
