-- ===== src/Reducer/Evidence/Verdicts.antt =====
-- Verdicts in captureStateMachine.ts: `finalizeSafeRecord`, `replayPendingFinal` and `handleE3`.
use ai_coding_training_platf.Common.{
  Bool, true, false, not, ◌||◌, none, some, [], ◌∷◌, ◌++◌, ℕ, if◌then◌else◌, Text, eq_text, is_none,
}
use ai_coding_training_platf.Domain.Verdict.{is_final_capture_verdict}
use ai_coding_training_platf.Reducer.{
  CaptureCanonicalState, non_final_verdict, control_character_in_identity,
  missing_external_submission_id, malformed_response, E3FinalVerdictConfirmed,
  CaptureSubmissionRecord, Runtime,
}
use ai_coding_training_platf.Reducer.Identity.{nonempty_text, namespaced_key}
use ai_coding_training_platf.Reducer.Context.{Host, compare_times, is_negative}
use ai_coding_training_platf.Reducer.Bundle.{
  emit_bundle, emit_rejected, emit_ignored, set, remove, find_record_index, find_pending_final,
  has_conflicting_record, built, refused, refused_identity, build_safe_bundle, has_control_char,
}

unfoldable pub is_finalized : CaptureCanonicalState → Bool
is_finalized CaptureCanonicalState.finalized = true
is_finalized _ = false

unfoldable pub is_confirmed : CaptureCanonicalState → Bool
is_confirmed CaptureCanonicalState.submission_confirmed = true
is_confirmed _ = false

module _ (host : Host) where
  unfoldable pub finalize_safe_record :
      Runtime → ℕ → CaptureSubmissionRecord → E3FinalVerdictConfirmed → Runtime
  finalize_safe_record rt i r e =
      if is_none r.e1 || is_none r.e2
      then emit_rejected malformed_response (some r.submission_key) false rt
      else elim (build_safe_bundle host r e) [
        | refused_identity ↦ emit_ignored control_character_in_identity rt
        | refused ↦
            if has_control_char r
            then rt
            else emit_rejected malformed_response (some r.submission_key) true rt
        | built b ↦ emit_bundle b (record rt {
          records = set rt.records i (record r {
            status = CaptureCanonicalState.finalized;
            phase = none;
            e3 = some e;
            bundle = some b;
          });
          status = CaptureCanonicalState.finalized;
          focus_key = some r.submission_key;
        })
      ]

  -- The verdict came before the record began or before its confirmation.
  unfoldable pub too_early : CaptureSubmissionRecord → E3FinalVerdictConfirmed → Bool
  too_early r e = is_negative (compare_times host e.base.received_at r.started_at) || elim r.e2 [
    | none ↦ false
    | some e2 ↦ is_negative (compare_times host e.base.received_at e2.base.received_at)
  ]

  unfoldable pub replay_pending_final : Runtime → ℕ → CaptureSubmissionRecord → Text → Runtime
  replay_pending_final rt i r key = elim (find_pending_final rt.pending_finals key) [
    | none ↦ rt
    | some (p, final) ↦
        let taken = record rt { pending_finals = remove rt.pending_finals p } in
        if not (eq_text r.problem_external_id final.evidence.problem_external_id)
          || too_early r final.evidence
        then emit_rejected malformed_response (some key) true taken
        else finalize_safe_record taken i r final.evidence
  ]

  -- `handleE3` for a submission that has no record: the verdict waits for its confirmation.
  unfoldable pub handle_e3_unknown : Runtime → E3FinalVerdictConfirmed → Text → Runtime
  handle_e3_unknown rt e key =
      if has_conflicting_record rt.records e
      then emit_rejected malformed_response (some key) true rt
      else elim (find_pending_final rt.pending_finals key) [
        | some (p, final) ↦
            if eq_text final.evidence.base.evidence_id e.base.evidence_id
            then rt
            else emit_rejected malformed_response (some key) true rt
        | none ↦ record rt {
          pending_finals =
              rt.pending_finals
              ++ record { submission_key = key; evidence = e; metadata = rt.input_metadata } ∷ [];
        }
      ]

  -- `handleE3` for a submission that has a record.
  unfoldable pub handle_e3_known :
      Runtime → E3FinalVerdictConfirmed → Text → ℕ → CaptureSubmissionRecord → Runtime
  handle_e3_known rt e key i r =
      if is_finalized r.status || not (is_none r.e3) || not (is_none r.bundle)
      then emit_rejected malformed_response (some key) true rt
      else if not (is_confirmed r.status)
      then emit_rejected malformed_response (some key) true rt
      else if not (eq_text r.problem_external_id e.problem_external_id)
      then emit_rejected malformed_response (some key) true rt
      else if too_early r e
      then emit_rejected malformed_response (some key) true rt
      else finalize_safe_record rt i r e

  unfoldable pub handle_e3 : Runtime → E3FinalVerdictConfirmed → Runtime
  handle_e3 rt e =
      if not (is_final_capture_verdict e.verdict)
      then emit_ignored non_final_verdict rt
      else elim (nonempty_text e.external_submission_id) [
        | none ↦ emit_ignored missing_external_submission_id rt
        | some external_id ↦
            let key = namespaced_key e.base.platform external_id in
            elim (find_record_index rt.records key) [
              | none ↦ handle_e3_unknown rt e key
              | some (i, r) ↦ handle_e3_known rt e key i r
            ]
      ]
