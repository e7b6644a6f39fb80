-- ===== src/Reducer/Progress/Confirmed.antt =====
-- The steps that confirm a submission keep a sound runtime sound.
use ai_coding_training_platf.Common.{
  Bool, true, false, Option, none, some, [], ◌∷◌, ◌++◌, ℕ, ◌≡◌, refl, ◌∙◌, Text, arith,
  Option-cases, inl, inr,
}
use ai_coding_training_platf.Reducer.{
  CaptureCanonicalState, CaptureRequestRecord, CaptureSubmissionRecord, E1RequestObserved, Runtime,
  CorrelatorRejectionReason, malformed_response, E2SubmissionConfirmed, CaptureAttemptBundle,
}
use ai_coding_training_platf.Reducer.Identity.{nonempty_text, namespaced_key}
use ai_coding_training_platf.Reducer.Context.{Host}
use ai_coding_training_platf.Reducer.Bundle.{
  emit_rejected, set, find_record_index, find_request_by_reference,
}
use ai_coding_training_platf.Reducer.Evidence.{
  is_finalized, mark_if_pending, request_reason, confirmed_record, confirm_known, handle_e2_known,
  new_e2_record, confirm_new, handle_e2_new, handle_e2_keyed, handle_e2,
}
use ai_coding_training_platf.Reducer.Progress.{
  At, set-At, length-At, At-Each, append-IsSound, find_record_index-At, find_record_index-none,
}
use ai_coding_training_platf.Reducer.Growth.{
  Advances, IsSound, BundleIsFinal, bundled-append, Evolves-append, has_key,
}
use ai_coding_training_platf.Reducer.Progress.Effects.{
  Advances-quiet, Advances-trans, Advances-set, emit_rejected-IsQuiet,
}
use ai_coding_training_platf.Reducer.Progress.Finals.{IsQuiet-refl, replay_pending_final-Advances}
use ai_coding_training_platf.Reducer.Progress.Requests.{mark_if_pending-same}

none-BundleIsFinal : (r : CaptureSubmissionRecord) → r.bundle ≡ none → BundleIsFinal r
none-BundleIsFinal r n = rw n tt

has_bundle-is_finalized :
    (r : CaptureSubmissionRecord) {b : CaptureAttemptBundle}
    → r.bundle ≡ some b
    → BundleIsFinal r
    → r.status ≡ CaptureCanonicalState.finalized
unfolding is_finalized
has_bundle-is_finalized r n f = ground arith

module _ (host : Host) where
  -- A rejection moves the reduction on.
  pub rejection-Advances :
      (rt : Runtime) (reason : CorrelatorRejectionReason) (key : Option Text) (keep : Bool)
      → IsSound rt.records
      → Advances rt (emit_rejected reason key keep rt)
  rejection-Advances rt reason key keep s =
      Advances-quiet rt _ (emit_rejected-IsQuiet reason key keep rt) s

  pub still-Advances : (rt : Runtime) → IsSound rt.records → Advances rt rt
  still-Advances rt s = Advances-quiet rt rt (IsQuiet-refl rt) s

  -- The record of a confirmation has the key and the bundle of the former one.
  confirmed_record-same :
      (rt : Runtime) (e : E2SubmissionConfirmed) (r : CaptureSubmissionRecord)
      → ((confirmed_record host rt e r).submission_key ≡ r.submission_key)
        × ((confirmed_record host rt e r).bundle ≡ r.bundle)
  unfolding confirmed_record
  confirmed_record-same rt e r = (refl, refl)

  new_e2_record-new :
      (rt : Runtime) (e : E2SubmissionConfirmed) (key id : Text) (q : CaptureRequestRecord)
      (e1 : E1RequestObserved)
      → ((new_e2_record host rt e key id q e1).submission_key ≡ key)
        × ((new_e2_record host rt e key id q e1).bundle ≡ none)
  unfolding new_e2_record
  new_e2_record-new rt e key id q e1 = (refl, refl)

  -- A known record is put in place of itself, and no effect is emitted.
  confirmed-Advances :
      (rt marked : Runtime) (e : E2SubmissionConfirmed) {i : ℕ} {r : CaptureSubmissionRecord}
      → At r i rt.records
      → r.bundle ≡ none
      → IsSound rt.records
      → marked.records ≡ set rt.records i (confirmed_record host rt e r)
      → marked.effects ≡ rt.effects
      → Advances rt marked
  confirmed-Advances rt marked e {i} {r} h n s same silent =
      let (key, old) = confirmed_record-same rt e r in
      let updated = confirmed_record host rt e r in
      Advances-set rt marked updated h n key (none-BundleIsFinal updated (old ∙ n)) same
        (λ p. rw (silent, old, n) (omega arith)) s

  -- A record without a bundle is appended under a new key, and no effect is emitted.
  appended-Advances :
      (rt marked : Runtime) (r : CaptureSubmissionRecord)
      → has_key r.submission_key rt.records ≡ false
      → r.bundle ≡ none
      → IsSound rt.records
      → marked.records ≡ rt.records ++ r ∷ []
      → marked.effects ≡ rt.effects
      → Advances rt marked
  appended-Advances rt marked r new n s same silent = record {
    evolves = rw same (Evolves-append rt.records (r ∷ []));
    sound = rw same (append-IsSound rt.records r new (none-BundleIsFinal r n) s);
    counted = λ p. rw (same, silent) (ground (arith, bundled-append p rt.records (r ∷ [])));
  }

  confirm_known-Advances :
      (rt : Runtime) (e : E2SubmissionConfirmed) (key : Text) {i : ℕ} {r : CaptureSubmissionRecord}
      (request : Option CaptureRequestRecord)
      → At r i rt.records
      → r.bundle ≡ none
      → IsSound rt.records
      → Advances rt (confirm_known host rt e key i r request)
  unfolding confirm_known
  confirm_known-Advances rt e key {i} {r} request h n s =
      let updated = confirmed_record host rt e r in
      let put : Runtime = record rt { records = set rt.records i updated } in
      let marked : Runtime = record (mark_if_pending put request) {
        status = CaptureCanonicalState.submission_confirmed;
        focus_key = some key;
      } in
      let (same, silent, _) = mark_if_pending-same put request in
      let step = confirmed-Advances rt marked e h n s same silent in
      let old = (confirmed_record-same rt e r).1 in
      Advances-trans rt marked _ step (
        replay_pending_final-Advances host marked key (rw same (set-At updated h)) (old ∙ n)
          step.sound)

  confirm_new-Advances :
      (rt : Runtime) (e : E2SubmissionConfirmed) (key id : Text) (q : CaptureRequestRecord)
      (e1 : E1RequestObserved)
      → has_key key rt.records ≡ false
      → IsSound rt.records
      → Advances rt (confirm_new host rt e key id q e1)
  unfolding confirm_new
  confirm_new-Advances rt e key id q e1 new s =
      let r = new_e2_record host rt e key id q e1 in
      let put : Runtime = record rt { records = rt.records ++ r ∷ [] } in
      let marked : Runtime = record (mark_if_pending put (some q)) {
        status = CaptureCanonicalState.submission_confirmed;
        focus_key = some key;
      } in
      let (same, silent, _) = mark_if_pending-same put (some q) in
      let (is_key, none_yet) = new_e2_record-new rt e key id q e1 in
      let step = appended-Advances rt marked r (rw is_key new) none_yet s same silent in
      Advances-trans rt marked _ step (
        replay_pending_final-Advances host marked key (rw same (length-At r rt.records)) none_yet
          step.sound)

  handle_e2_known-Advances :
      (rt : Runtime) (e : E2SubmissionConfirmed) (key : Text) {i : ℕ} {r : CaptureSubmissionRecord}
      (request : Option CaptureRequestRecord)
      → At r i rt.records
      → IsSound rt.records
      → Advances rt (handle_e2_known host rt e key i r request)
  unfolding handle_e2_known
  handle_e2_known-Advances rt e key {i} {r} request h s =
      let still = still-Advances rt s in
      let malformed = rejection-Advances rt malformed_response (some key) true s in
      let refused = rejection-Advances rt (request_reason host request) (some key) true s in
      let focused = rejection-Advances rt (request_reason host request) (some key) false s in
      elim (Option-cases r.bundle) [
        | inl n ↦ ground (
          arith,
          still,
          malformed,
          refused,
          focused,
          confirm_known-Advances rt e key request h n s,
        )
        | inr (b, n) ↦
            let final = has_bundle-is_finalized r n (At-Each h s.final) in
            ground (arith, still, malformed, refused, focused, final)
      ]

  handle_e2_new-Advances :
      (rt : Runtime) (e : E2SubmissionConfirmed) (key id : Text) (q : CaptureRequestRecord)
      (e1 : E1RequestObserved)
      → has_key key rt.records ≡ false
      → IsSound rt.records
      → Advances rt (handle_e2_new host rt e key id q e1)
  unfolding handle_e2_new
  handle_e2_new-Advances rt e key id q e1 new s =
      let reason = request_reason host (some q) in
      let expired : Runtime = record rt {
        status = CaptureCanonicalState.expired;
        focus_key = some key;
      } in
      let quiet = emit_rejected-IsQuiet reason (some key) true expired in
      ground (
        arith,
        rejection-Advances rt malformed_response (some key) false s,
        rejection-Advances rt reason (some key) false s,
        Advances-quiet rt (emit_rejected reason (some key) true expired)
            (record { records = quiet.records; effects = quiet.effects }) s,
        confirm_new-Advances rt e key id q e1 new s,
      )

  handle_e2_keyed-Advances :
      (rt : Runtime) (e : E2SubmissionConfirmed) (key id : Text)
      → IsSound rt.records
      → Advances rt (handle_e2_keyed host rt e key id)
  unfolding handle_e2_keyed
  handle_e2_keyed-Advances rt e key id s =
      let malformed = rejection-Advances rt malformed_response (some key) false s in
      elim (Option-cases (find_record_index rt.records key)) [
        | inr ((i, r), n) ↦
            let (place, _) = find_record_index-At key rt.records n in
            rw (n, handle_e2_keyed)
              (handle_e2_known-Advances rt e key
                (find_request_by_reference rt.requests e.request_evidence_id) place s)
        | inl n ↦
            let new = find_record_index-none key rt.records n in
            elim (Option-cases (find_request_by_reference rt.requests e.request_evidence_id)) [
              | inl m ↦ rw (n, m, handle_e2_keyed) malformed
              | inr (q, m) ↦ elim (Option-cases q.evidence) [
                | inl o ↦ rw (n, m, o, handle_e2_keyed) malformed
                | inr (e1, o) ↦
                    rw (n, m, o, handle_e2_keyed) (handle_e2_new-Advances rt e key id q e1 new s)
              ]
            ]
      ]

  pub handle_e2-Advances :
      (rt : Runtime) (e : E2SubmissionConfirmed)
      → IsSound rt.records
      → Advances rt (handle_e2 host rt e)
  unfolding handle_e2
  handle_e2-Advances rt e s = elim (Option-cases (nonempty_text e.external_submission_id)) [
    | inl n ↦ rw (n, handle_e2) (rejection-Advances rt malformed_response none false s)
    | inr (id, n) ↦
        let key = namespaced_key e.base.platform id in
        rw (n, handle_e2)
          (ground (
            arith,
            rejection-Advances rt malformed_response (some key) false s,
            handle_e2_keyed-Advances rt e key id s,
          ))
  ]
