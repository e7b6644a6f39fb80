-- ===== src/Reducer/Progress/Finals.antt =====
-- Finalizing a record, at once or with a verdict that waited, moves the reduction on.
use ai_coding_training_platf.Common.{
  true, false, none, some, ℕ, ◌≡◌, refl, Text, arith, Option-cases, ◌⊎◌, inl, inr,
}
use ai_coding_training_platf.Reducer.{
  CaptureCanonicalState, CaptureSubmissionRecord, CaptureAttemptBundle, Runtime,
  E3FinalVerdictConfirmed, malformed_response,
}
use ai_coding_training_platf.Reducer.Context.{Host}
use ai_coding_training_platf.Reducer.Bundle.{
  emit_bundle, set, remove, build_safe_bundle, Built, built, refused, refused_identity,
  find_pending_final,
}
use ai_coding_training_platf.Reducer.{control_character_in_identity}
use ai_coding_training_platf.Reducer.Evidence.{
  is_finalized, finalize_safe_record, replay_pending_final,
}
use ai_coding_training_platf.Reducer.Progress.{At}
use ai_coding_training_platf.Reducer.Growth.{Advances, IsSound}
use ai_coding_training_platf.Reducer.Progress.Effects.{
  IsQuiet, Advances-quiet, Advances-trans, Advances-set, emit_rejected-IsQuiet,
  emit_ignored-IsQuiet, emit_bundle-effects,
}

pub IsQuiet-refl : (rt : Runtime) → IsQuiet rt rt
IsQuiet-refl rt = record { records = refl; effects = λ p. refl }

-- The record that `finalizeSafeRecord` stores.
finalized_record :
    CaptureSubmissionRecord
    → E3FinalVerdictConfirmed
    → CaptureAttemptBundle
    → CaptureSubmissionRecord
finalized_record r e b = record r {
  status = CaptureCanonicalState.finalized;
  phase = none;
  e3 = some e;
  bundle = some b;
}

Built-cases :
    (x : Built)
    → ((b : CaptureAttemptBundle) × (x ≡ built b)) ⊎ ((x ≡ refused) ⊎ (x ≡ refused_identity))
Built-cases (built b) = inl (b, refl)
Built-cases refused = inr (inl refl)
Built-cases refused_identity = inr (inr refl)

module _ (host : Host) where
  stored_bundle-Advances :
      (rt : Runtime) {i : ℕ} {r : CaptureSubmissionRecord} (e : E3FinalVerdictConfirmed)
      (b : CaptureAttemptBundle)
      → At r i rt.records
      → r.bundle ≡ none
      → IsSound rt.records
      → Advances rt (
          emit_bundle b (record rt {
            records = set rt.records i (finalized_record r e b);
            status = CaptureCanonicalState.finalized;
            focus_key = some r.submission_key;
          }))
  unfolding finalized_record is_finalized
  stored_bundle-Advances rt {i} {r} e b h n s =
      let rt' : Runtime = record rt {
        records = set rt.records i (finalized_record r e b);
        status = CaptureCanonicalState.finalized;
        focus_key = some r.submission_key;
      } in
      let (same, more) = emit_bundle-effects b rt' in
      Advances-set rt (emit_bundle b rt') (finalized_record r e b) h n refl refl same more s

  pub finalize_safe_record-Advances :
      (rt : Runtime) {i : ℕ} {r : CaptureSubmissionRecord} (e : E3FinalVerdictConfirmed)
      → At r i rt.records
      → r.bundle ≡ none
      → IsSound rt.records
      → Advances rt (finalize_safe_record host rt i r e)
  unfolding finalize_safe_record finalized_record
  finalize_safe_record-Advances rt {i} {r} e h n s =
      let still : Advances rt rt = Advances-quiet rt rt (IsQuiet-refl rt) s in
      let focused =
        Advances-quiet rt _
          (emit_rejected-IsQuiet malformed_response (some r.submission_key) false rt) s in
      let rejected =
        Advances-quiet rt _
          (emit_rejected-IsQuiet malformed_response (some r.submission_key) true rt) s in
      let ignored = Advances-quiet rt _ (emit_ignored-IsQuiet control_character_in_identity rt) s in
      elim (Built-cases (build_safe_bundle host r e)) [
        | inl (b, built_b) ↦
            ground (arith, built_b, still, focused, rejected, stored_bundle-Advances rt e b h n s)
        | inr none_built ↦ ground (arith, none_built, still, focused, rejected, ignored)
      ]

  pub replay_pending_final-Advances :
      (rt : Runtime) {i : ℕ} {r : CaptureSubmissionRecord} (key : Text)
      → At r i rt.records
      → r.bundle ≡ none
      → IsSound rt.records
      → Advances rt (replay_pending_final host rt i r key)
  unfolding replay_pending_final
  replay_pending_final-Advances rt {i} {r} key h n s =
      elim (Option-cases (find_pending_final rt.pending_finals key)) [
        | inl e ↦ rw (e, replay_pending_final) (Advances-quiet rt rt (IsQuiet-refl rt) s)
        | inr ((p, final), e) ↦
            let taken : Runtime = record rt { pending_finals = remove rt.pending_finals p } in
            let quiet : Advances rt taken =
              Advances-quiet rt taken (record { records = refl; effects = λ p. refl }) s in
            rw (e, replay_pending_final)
              (ground (
                arith,
                Advances-trans rt taken _ quiet (
                    Advances-quiet taken _
                      (emit_rejected-IsQuiet malformed_response (some key) true taken) s),
                Advances-trans rt taken _ quiet
                    (finalize_safe_record-Advances taken final.evidence h n s),
              ))
      ]
