-- ===== src/Reducer/Progress/Submissions.antt =====
-- The steps that take a verdict, and every piece of evidence, keep a sound runtime sound.
use ai_coding_training_platf.Common.{
  true, Option, none, some, ℕ, Text, arith, Option-cases, inl, inr,
}
use ai_coding_training_platf.Reducer.{
  CaptureCanonicalState, CaptureSubmissionRecord, Runtime, malformed_response,
  E3FinalVerdictConfirmed, SafeEvidence, missing_metadata, non_final_verdict,
  missing_external_submission_id,
}
use ai_coding_training_platf.Reducer.Identity.{nonempty_text, namespaced_key}
use ai_coding_training_platf.Reducer.Context.{Host}
use ai_coding_training_platf.Reducer.Bundle.{find_record_index}
use ai_coding_training_platf.Reducer.Evidence.{
  handle_e3_unknown, handle_e3_known, handle_e3, handle_safe_evidence,
}
use ai_coding_training_platf.Reducer.Progress.{At, find_record_index-At}
use ai_coding_training_platf.Reducer.Growth.{Advances, IsSound}
use ai_coding_training_platf.Reducer.Progress.Effects.{
  IsQuiet, Advances-quiet, emit_rejected-IsQuiet, emit_ambiguous-IsQuiet, emit_ignored-IsQuiet,
}
use ai_coding_training_platf.Reducer.Progress.Finals.{finalize_safe_record-Advances}
use ai_coding_training_platf.Reducer.Progress.Requests.{
  handle_e1-IsQuiet, handle_rejected_evidence-IsQuiet,
}
use ai_coding_training_platf.Reducer.Progress.Confirmed.{
  rejection-Advances, still-Advances, handle_e2-Advances,
}

module _ (host : Host) where
  handle_e3_unknown-IsQuiet :
      (rt : Runtime) (e : E3FinalVerdictConfirmed) (key : Text)
      → IsQuiet rt (handle_e3_unknown host rt e key)
  unfolding handle_e3_unknown
  handle_e3_unknown-IsQuiet rt e key =
      ground (arith, emit_rejected-IsQuiet malformed_response (some key) true rt)

  handle_e3_known-Advances :
      (rt : Runtime) (e : E3FinalVerdictConfirmed) (key : Text) {i : ℕ}
      {r : CaptureSubmissionRecord}
      → At r i rt.records
      → IsSound rt.records
      → Advances rt (handle_e3_known host rt e key i r)
  unfolding handle_e3_known
  handle_e3_known-Advances rt e key {i} {r} h s =
      let malformed = rejection-Advances host rt malformed_response (some key) true s in
      elim (Option-cases r.bundle) [
        | inl n ↦ ground (arith, malformed, finalize_safe_record-Advances host rt e h n s)
        | inr (b, n) ↦ ground (arith, malformed, n)
      ]

  pub handle_e3-Advances :
      (rt : Runtime) (e : E3FinalVerdictConfirmed)
      → IsSound rt.records
      → Advances rt (handle_e3 host rt e)
  unfolding handle_e3
  handle_e3-Advances rt e s =
      let ignored = Advances-quiet rt _ (emit_ignored-IsQuiet non_final_verdict rt) s in
      elim (Option-cases (nonempty_text e.external_submission_id)) [
        | inl n ↦
            rw (n, handle_e3)
              (ground (
                arith,
                ignored,
                Advances-quiet rt _ (emit_ignored-IsQuiet missing_external_submission_id rt) s,
              ))
        | inr (id, n) ↦
            let key = namespaced_key e.base.platform id in
            elim (Option-cases (find_record_index rt.records key)) [
              | inl m ↦
                  rw (n, m, handle_e3)
                    (ground
                      (arith, ignored, Advances-quiet rt _ (handle_e3_unknown-IsQuiet rt e key) s))
              | inr ((i, r), m) ↦
                  let (place, _) = find_record_index-At key rt.records m in
                  rw (n, m, handle_e3)
                    (ground (arith, ignored, handle_e3_known-Advances rt e key place s))
            ]
      ]

  pub handle_safe_evidence-Advances :
      (rt : Runtime) (e : Option SafeEvidence)
      → IsSound rt.records
      → Advances rt (handle_safe_evidence host rt e)
  unfolding handle_safe_evidence
  handle_safe_evidence-Advances rt none s =
      Advances-quiet rt _ (emit_ignored-IsQuiet missing_metadata rt) s
  handle_safe_evidence-Advances rt (some (SafeEvidence.ui_hint b)) s = still-Advances host rt s
  handle_safe_evidence-Advances rt (some (SafeEvidence.request_observed e)) s =
      Advances-quiet rt _ (handle_e1-IsQuiet rt e) s
  handle_safe_evidence-Advances rt (some (SafeEvidence.ambiguous_correlation b reason)) s =
      let quiet =
        emit_ambiguous-IsQuiet reason none
          (record rt { status = CaptureCanonicalState.ambiguous }) in
      Advances-quiet rt _ (record { records = quiet.records; effects = quiet.effects }) s
  handle_safe_evidence-Advances rt (some (SafeEvidence.request_rejected e)) s =
      Advances-quiet rt _ (handle_rejected_evidence-IsQuiet rt e) s
  handle_safe_evidence-Advances rt (some (SafeEvidence.submission_confirmed e)) s =
      handle_e2-Advances host rt e s
  handle_safe_evidence-Advances rt (some (SafeEvidence.final_verdict_confirmed e)) s =
      handle_e3-Advances rt e s
