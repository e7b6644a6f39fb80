-- ===== src/Reducer/Progress/Requests.antt =====
-- The handlers that only touch requests: they leave the records alone and emit no bundle.
use ai_coding_training_platf.Common.{
  Bool, true, false, Option, none, some, List, ◌≡◌, refl, ◌∙◌, Text, arith, Option-cases, inl, inr,
}
use ai_coding_training_platf.Reducer.{
  CaptureCanonicalState, CaptureRequestRecord, E1RequestObserved, RejectionEvidence, Runtime,
  CorrelatorRejectionReason, CorrelatorAmbiguityReason, CorrelatorNoMatchReason, E1LifecycleOutcome,
  malformed_response,
}
use ai_coding_training_platf.Reducer.Bundle.{
  emit_rejected, set, find_request_index, find_record_key_for_request, is_matched,
}
use ai_coding_training_platf.Reducer.Evidence.{
  e1_stored, e1_rejection_reason, e1_request_merged, rejection_request, handle_e1, rejection_stored,
  handle_rejected_evidence, mark_request_matched, mark_if_pending,
}
use ai_coding_training_platf.Reducer.Correlator.{
  mark_request_terminal, mark_request_rejected, set_focus, handle_correlator_ambiguous,
  handle_correlator_no_match, handle_correlator_rejected,
}
use ai_coding_training_platf.Reducer.Progress.Effects.{
  IsQuiet, emit_rejected-IsQuiet, emit_ambiguous-IsQuiet, emit_ignored-IsQuiet,
}
use ai_coding_training_platf.Reducer.Progress.Finals.{IsQuiet-refl}

pub IsQuiet-trans : (rt u v : Runtime) → IsQuiet rt u → IsQuiet u v → IsQuiet rt v
IsQuiet-trans rt u v h k = record {
  records = k.records ∙ h.records;
  effects = λ p. k.effects p ∙ h.effects p;
}

e1_stored-IsQuiet :
    (reason : Option CorrelatorRejectionReason) (matched : Bool) (rt : Runtime)
    → IsQuiet rt (e1_stored reason matched rt)
unfolding e1_stored
e1_stored-IsQuiet (some reason) matched rt =
    let rejected : Runtime = record rt {
      status = CaptureCanonicalState.rejected;
      focus_key = none;
    } in
    let quiet = emit_rejected-IsQuiet reason none true rejected in
    record { records = quiet.records; effects = quiet.effects }
e1_stored-IsQuiet none true rt = IsQuiet-refl rt
e1_stored-IsQuiet none false rt = record { records = refl; effects = λ p. refl }

-- Requests are no part of what `IsQuiet` reads.
with_requests-IsQuiet :
    (rt v : Runtime) (qs : List CaptureRequestRecord)
    → IsQuiet (record rt { requests = qs }) v
    → IsQuiet rt v
with_requests-IsQuiet rt v qs h = record { records = h.records; effects = h.effects }

pub handle_e1-IsQuiet : (rt : Runtime) (e : E1RequestObserved) → IsQuiet rt (handle_e1 rt e)
unfolding handle_e1
handle_e1-IsQuiet rt e =
    elim (Option-cases (find_request_index rt.requests e.base.evidence_id e.request_id)) [
      | inl n ↦
          rw (n, handle_e1)
            (with_requests-IsQuiet rt _ _ (e1_stored-IsQuiet (e1_rejection_reason e) false _))
      | inr ((i, r), n) ↦
          rw (n, handle_e1)
            (ground (
              arith,
              IsQuiet-refl rt,
              emit_rejected-IsQuiet malformed_response none true rt,
              with_requests-IsQuiet rt _ (set rt.requests i (e1_request_merged r e))
                  (e1_stored-IsQuiet (e1_rejection_reason e) (is_matched r.outcome) _),
            ))
    ]

rejection_stored-IsQuiet :
    (rt : Runtime) (e : RejectionEvidence) → IsQuiet rt (rejection_stored rt e)
unfolding rejection_stored
rejection_stored-IsQuiet rt e =
    let rejected : Runtime = record rt {
      status = CaptureCanonicalState.rejected;
      focus_key = none;
    } in
    let quiet =
      emit_rejected-IsQuiet e.rejection_reason (find_record_key_for_request rt.records e.request_id)
        true rejected in
    record { records = quiet.records; effects = quiet.effects }

pub handle_rejected_evidence-IsQuiet :
    (rt : Runtime) (e : RejectionEvidence) → IsQuiet rt (handle_rejected_evidence rt e)
unfolding handle_rejected_evidence
handle_rejected_evidence-IsQuiet rt e =
    elim (Option-cases (find_request_index rt.requests e.base.evidence_id e.request_id)) [
      | inl n ↦
          rw (n, handle_rejected_evidence)
            (with_requests-IsQuiet rt _ _ (rejection_stored-IsQuiet _ e))
      | inr ((i, r), n) ↦
          rw (n, handle_rejected_evidence)
            (ground (
              arith,
              IsQuiet-refl rt,
              with_requests-IsQuiet rt _ (set rt.requests i (rejection_request (some r) e))
                  (rejection_stored-IsQuiet _ e),
            ))
    ]

mark_request_matched-IsQuiet :
    (rt : Runtime) (q : CaptureRequestRecord) → IsQuiet rt (mark_request_matched rt q)
unfolding mark_request_matched
mark_request_matched-IsQuiet rt q = ground arith

pub mark_if_pending-same :
    (rt : Runtime) (q : Option CaptureRequestRecord)
    → ((mark_if_pending rt q).records ≡ rt.records)
      × ((mark_if_pending rt q).effects ≡ rt.effects)
      × ((mark_if_pending rt q).pending_finals ≡ rt.pending_finals)
unfolding mark_if_pending mark_request_matched
mark_if_pending-same rt q = ground arith

mark_request_terminal-IsQuiet :
    (rt : Runtime) (id : Option Text) (o : E1LifecycleOutcome) (r : CorrelatorRejectionReason)
    → IsQuiet rt (mark_request_terminal rt id o r)
unfolding mark_request_terminal
mark_request_terminal-IsQuiet rt id o r = ground arith

mark_request_rejected-IsQuiet :
    (rt : Runtime) (id : Option Text) (r : CorrelatorRejectionReason)
    → IsQuiet rt (mark_request_rejected rt id r)
unfolding mark_request_rejected
mark_request_rejected-IsQuiet rt id r = ground arith

set_focus-IsQuiet :
    (rt : Runtime) (status : CaptureCanonicalState) (key : Option Text)
    → IsQuiet rt (set_focus rt status key)
unfolding set_focus
set_focus-IsQuiet rt status key = record { records = refl; effects = λ p. refl }

pub handle_correlator_ambiguous-IsQuiet :
    (rt : Runtime) (reason : CorrelatorAmbiguityReason) (key : Option Text)
    → IsQuiet rt (handle_correlator_ambiguous rt reason key)
unfolding handle_correlator_ambiguous
handle_correlator_ambiguous-IsQuiet rt reason key =
    IsQuiet-trans rt _ _ (set_focus-IsQuiet rt CaptureCanonicalState.ambiguous key)
      (emit_ambiguous-IsQuiet reason key _)

-- A part that leaves the records alone, a change of focus and a rejection.
rejected_focus-IsQuiet :
    (rt u : Runtime) (status : CaptureCanonicalState) (reason : CorrelatorRejectionReason)
    (key : Option Text)
    → IsQuiet rt u
    → IsQuiet rt (emit_rejected reason key true (set_focus u status key))
rejected_focus-IsQuiet rt u status reason key h =
    IsQuiet-trans rt u _ h (
      IsQuiet-trans u _ _ (set_focus-IsQuiet u status key)
        (emit_rejected-IsQuiet reason key true _))

pub handle_correlator_no_match-IsQuiet :
    (rt : Runtime) (reason : CorrelatorNoMatchReason) (id key : Option Text)
    → IsQuiet rt (handle_correlator_no_match rt reason id key)
unfolding handle_correlator_no_match
handle_correlator_no_match-IsQuiet rt CorrelatorNoMatchReason.expired id key =
    rejected_focus-IsQuiet rt _ _ _ key (mark_request_terminal-IsQuiet rt _ _ _)
handle_correlator_no_match-IsQuiet rt CorrelatorNoMatchReason.canceled id key =
    rejected_focus-IsQuiet rt _ _ _ key (mark_request_terminal-IsQuiet rt _ _ _)
handle_correlator_no_match-IsQuiet rt CorrelatorNoMatchReason.error id key =
    rejected_focus-IsQuiet rt _ _ _ key (mark_request_terminal-IsQuiet rt _ _ _)
handle_correlator_no_match-IsQuiet rt CorrelatorNoMatchReason.zero_candidates id key =
    emit_ignored-IsQuiet _ rt
handle_correlator_no_match-IsQuiet rt CorrelatorNoMatchReason.already_matched id key =
    emit_ignored-IsQuiet _ rt
handle_correlator_no_match-IsQuiet rt CorrelatorNoMatchReason.crossed_fields id key =
    emit_ignored-IsQuiet _ rt

pub handle_correlator_rejected-IsQuiet :
    (rt : Runtime) (reason : CorrelatorRejectionReason) (id key : Option Text)
    → IsQuiet rt (handle_correlator_rejected rt reason id key)
unfolding handle_correlator_rejected
handle_correlator_rejected-IsQuiet rt reason id key =
    rejected_focus-IsQuiet rt _ _ _ _ (mark_request_rejected-IsQuiet rt id reason)
