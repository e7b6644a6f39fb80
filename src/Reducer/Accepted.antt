-- ===== src/Reducer/Accepted.antt =====
-- `CaptureAttemptBundleSchema` of lib/capture/attemptBundle.ts, the rule by which the server takes
-- a bundle, against the bundles that `buildSafeBundle` of captureStateMachine.ts makes.
use ai_coding_training_platf.Common.{
  Bool, true, false, not, ◌&&◌, Text, eq_text, lt_text, Option-cases, inl, inr, eq_text_refl,
  lt_text_irrefl, ◌≡◌, refl, arith,
}
use ai_coding_training_platf.Domain.{
  eq_platform, eq_provenance, eq_platform_refl, eq_provenance_iff,
}
use ai_coding_training_platf.Domain.Event.{Base}
use ai_coding_training_platf.Domain.Verdict.{is_final_capture_verdict}
use ai_coding_training_platf.Reducer.{
  CaptureAttemptBundle, CaptureSubmissionRecord, E2SubmissionConfirmed, E3FinalVerdictConfirmed,
}
use ai_coding_training_platf.Reducer.Context.{Host, is_positive, compare_times}
use ai_coding_training_platf.Reducer.Bundle.{safe_bundle, built, build_safe_bundle}

-- An event has the session and problem of the first one.
unfoldable pub same_capture : Base → Base → Bool
same_capture first b =
    eq_text b.capture_session_id first.capture_session_id
    && eq_text b.installation_id first.installation_id
    && eq_text b.adapter_version first.adapter_version
    && eq_text b.parser_version first.parser_version
    && eq_text b.page_origin first.page_origin
    && eq_provenance b.provenance_level first.provenance_level
    && eq_platform b.platform first.platform
    && eq_text b.problem_external_id first.problem_external_id
    && eq_text b.problem_title first.problem_title
    && eq_text b.canonical_url first.canonical_url

unfoldable pub chronological : CaptureAttemptBundle → Bool
chronological b =
    not (lt_text b.verdict.base.occurred_at b.submitted.base.occurred_at)
    && not (lt_text b.ended.base.occurred_at b.verdict.base.occurred_at)
    && not (lt_text b.submitted.base.occurred_at b.started.base.occurred_at)

-- The rule that the schema adds to those of the four events.
unfoldable pub bundle_rule : CaptureAttemptBundle → Bool
unfolding same_capture chronological
bundle_rule b =
    same_capture b.started.base b.started.base
    && same_capture b.started.base b.submitted.base
    && same_capture b.started.base b.verdict.base
    && same_capture b.started.base b.ended.base
    && eq_text b.submitted.submission_id b.verdict.submission_id
    && chronological b
    && is_final_capture_verdict b.verdict.verdict

bundle_rule-safe_bundle :
    (r : CaptureSubmissionRecord) (e2 : E2SubmissionConfirmed) (v : E3FinalVerdictConfirmed)
    → is_final_capture_verdict v.verdict ≡ true
    → bundle_rule (safe_bundle r e2 v) ≡ (
        not (lt_text v.base.received_at e2.base.received_at)
        && not (lt_text e2.base.received_at r.started_at))
unfolding bundle_rule safe_bundle
bundle_rule-safe_bundle r e2 v h = ground (
  arith,
  eq_text_refl r.context.capture_session_id,
  eq_text_refl r.context.installation_id,
  eq_text_refl r.context.adapter_version,
  eq_text_refl r.context.parser_version,
  eq_text_refl r.context.page_origin,
  (eq_provenance_iff r.context.provenance_level r.context.provenance_level).1 refl,
  eq_platform_refl r.context.platform,
  eq_text_refl r.context.problem_external_id,
  eq_text_refl r.context.problem_title,
  eq_text_refl r.context.canonical_url,
  eq_text_refl r.external_submission_id,
  lt_text_irrefl v.base.received_at,
)

-- A bundle is built from a confirmation that is neither before the start nor after the verdict.
built_from :
    (host : Host) (r : CaptureSubmissionRecord) (v : E3FinalVerdictConfirmed)
    {b : CaptureAttemptBundle}
    → build_safe_bundle host r v ≡ built b
    → (e2 : E2SubmissionConfirmed) × (b ≡ safe_bundle r e2 v)
      × (is_positive (compare_times host r.started_at e2.base.received_at) ≡ false)
      × (is_positive (compare_times host e2.base.received_at v.base.received_at) ≡ false)
unfolding build_safe_bundle
built_from host r v {b} h = elim (Option-cases r.e2) [
  | inl e ↦ absurd (ground arith)
  | inr (e2, e) ↦ (e2, ground arith, ground arith, ground arith)
]

-- Whether the times of a bundle stand in the order of their texts.
abbrev pub in_text_order : CaptureAttemptBundle → Bool
in_text_order b =
    not (lt_text b.verdict.base.occurred_at b.submitted.base.occurred_at)
    && not (lt_text b.submitted.base.occurred_at b.started.base.occurred_at)

-- A bundle that is built from a final verdict satisfies the server's rule exactly if its start,
-- its confirmation and its verdict are in the order of their texts.
pub bundle_rule-build_safe_bundle :
    (host : Host) (r : CaptureSubmissionRecord) (v : E3FinalVerdictConfirmed)
    {b : CaptureAttemptBundle}
    → build_safe_bundle host r v ≡ built b
    → is_final_capture_verdict v.verdict ≡ true
    → bundle_rule b ≡ in_text_order b
unfolding safe_bundle
bundle_rule-build_safe_bundle host r v h f =
    let (e2, is_b, p, q) = built_from host r v h in rw is_b (bundle_rule-safe_bundle r e2 v f)

-- Instants and texts put the two times in the same order.
abbrev pub Agrees : Host → Text → Text → Type 0
Agrees host a b = is_positive (compare_times host a b) ≡ lt_text b a

-- The server's rule accepts every bundle that is built from a final verdict and whose start,
-- confirmation and verdict the host orders as their texts.
pub build_safe_bundle-accepted :
    (host : Host) (r : CaptureSubmissionRecord) (v : E3FinalVerdictConfirmed)
    {b : CaptureAttemptBundle}
    → build_safe_bundle host r v ≡ built b
    → is_final_capture_verdict v.verdict ≡ true
    → Agrees host b.started.base.occurred_at b.submitted.base.occurred_at
    → Agrees host b.submitted.base.occurred_at b.verdict.base.occurred_at
    → bundle_rule b ≡ true
unfolding safe_bundle
build_safe_bundle-accepted host r v {b} h f s t =
    let (e2, is_b, p, q) = built_from host r v h in
    let s' : Agrees host r.started_at e2.base.received_at = rw is_b at s in
    let t' : Agrees host e2.base.received_at v.base.received_at = rw is_b at t in
    rw is_b (ground (arith, bundle_rule-safe_bundle r e2 v f))
