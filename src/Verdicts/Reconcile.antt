-- ===== src/Verdicts/Reconcile.antt =====
-- `reconcileVerdictCandidates` of extension/src/verdictCandidateCoordinator.ts. `Date.parse` and
-- `localeCompare` are parameters.
use ai_coding_training_platf.Common.{
  not, ◌||◌, if◌then◌else◌, Option, none, some, List, [], ◌∷◌, ◌++◌, Text, units, eq_text, any_of,
  filter_by,
}
use ai_coding_training_platf.Common.Int.{ℤ}
use ai_coding_training_platf.Domain.{eq_platform, leetcode}
use ai_coding_training_platf.Verdicts.{
  TransientE1Lifecycle, TransientVerdictCandidate, ConfirmedSubmissionRecord,
  VerdictCandidateResolution, VerdictCandidateTerminal, ambiguous_latest_submit, identity_mismatch,
  chronology_mismatch, expired, ReconciliationOutcome, pending, resolution, terminal,
  terminal_result, resolution_of, is_before, is_at_most, is_expired,
}
use ai_coding_training_platf.Verdicts.Request.{
  same_submit_identity, same_candidate_context, is_lifecycle_root_for_record, is_answered,
  matched_id, no_record, ambiguous_record, joined, join_confirmed_record,
}
use ai_coding_training_platf.Verdicts.Latest.{
  Clock, LatestSubmit, received_ms, select_eligible_submit_lifecycles, select_latest_submit,
  has_later_matching_submit_lifecycle, ambiguous, single,
}

pub record VerdictCandidateReconciliation : Type 0 where
  pub pending : List TransientVerdictCandidate
  pub resolutions : List VerdictCandidateResolution
  pub terminal : List VerdictCandidateTerminal

module _ (clock : Clock) where
  -- The end of `reconcileOne`, over the joined record.
  unfoldable pub legacy_record :
      TransientVerdictCandidate → Text → ConfirmedSubmissionRecord → ReconciliationOutcome
  unfolding terminal_result resolution_of
  legacy_record c id r =
      if not (eq_platform r.platform leetcode)
        || not (eq_text r.problem_external_id c.problem_external_id)
        || not (eq_text id r.storage_key)
      then terminal_result c identity_mismatch
      else if is_before (clock.date_parse c.observed_at) (clock.date_parse r.confirmed_at)
      then terminal_result c chronology_mismatch
      else resolution (resolution_of c r)

  unfoldable pub legacy_latest :
      TransientVerdictCandidate
      → List ConfirmedSubmissionRecord
      → LatestSubmit
      → ReconciliationOutcome
  unfolding terminal_result matched_id join_confirmed_record legacy_record
  legacy_latest c confirmed ambiguous = terminal_result c ambiguous_latest_submit
  legacy_latest c confirmed (single l) = elim (matched_id l) [
    | none ↦ pending
    | some id ↦ elim (join_confirmed_record confirmed id) [
      | no_record ↦ pending
      | ambiguous_record ↦ terminal_result c ambiguous_latest_submit
      | joined r ↦ legacy_record c id r
    ]
  ]

  unfoldable pub reconcile_legacy :
      TransientVerdictCandidate
      → List TransientE1Lifecycle
      → List ConfirmedSubmissionRecord
      → ReconciliationOutcome
  unfolding terminal_result has_later_matching_submit_lifecycle select_eligible_submit_lifecycles
      select_latest_submit legacy_latest
  reconcile_legacy c ls confirmed =
      if has_later_matching_submit_lifecycle clock ls c confirmed
      then terminal_result c chronology_mismatch
      else elim (select_eligible_submit_lifecycles clock ls c) [
        | [] ↦ pending
        | e ∷ es ↦ legacy_latest c confirmed (select_latest_submit clock e es)
      ]

  -- The end of `reconcileArmedCandidate`, over the joined record.
  unfoldable pub armed_record :
      TransientVerdictCandidate
      → TransientE1Lifecycle
      → Text
      → ConfirmedSubmissionRecord
      → ReconciliationOutcome
  unfolding terminal_result resolution_of is_lifecycle_root_for_record
  armed_record c l id r =
      if not (eq_platform r.platform leetcode)
        || not (eq_text r.problem_external_id c.problem_external_id)
        || not (eq_text r.storage_key id)
      then terminal_result c identity_mismatch
      else if not (is_lifecycle_root_for_record l.evidence c r.external_submission_id)
      then terminal_result c identity_mismatch
      else if is_before (clock.date_parse c.observed_at) (clock.date_parse r.confirmed_at)
      then terminal_result c chronology_mismatch
      else resolution (resolution_of c r)

  unfoldable pub armed_lifecycle :
      TransientVerdictCandidate
      → List ConfirmedSubmissionRecord
      → TransientE1Lifecycle
      → ReconciliationOutcome
  unfolding terminal_result same_candidate_context is_answered matched_id join_confirmed_record
      armed_record
  armed_lifecycle c confirmed l =
      if not (is_at_most (received_ms clock l) (clock.date_parse c.observed_at))
      then terminal_result c chronology_mismatch
      else if not (same_candidate_context l.evidence c)
          || not (eq_text l.evidence.resource_type (units "xmlhttprequest"))
      then terminal_result c identity_mismatch
      else if not (is_answered l.evidence)
      then pending
      else elim (matched_id l) [
        | none ↦ pending
        | some id ↦ elim (join_confirmed_record confirmed id) [
          | no_record ↦ pending
          | ambiguous_record ↦ terminal_result c ambiguous_latest_submit
          | joined r ↦ armed_record c l id r
        ]
      ]

  unfoldable pub reconcile_armed_candidate :
      TransientVerdictCandidate
      → Text
      → List TransientE1Lifecycle
      → List ConfirmedSubmissionRecord
      → ReconciliationOutcome
  unfolding terminal_result same_submit_identity armed_lifecycle filter_by any_of
  reconcile_armed_candidate c request_id ls confirmed =
      elim (filter_by (λ l. eq_text l.evidence.request_id request_id) ls) [
        | [] ↦ pending
        | l ∷ exact ↦
            if any_of (λ x. not (same_submit_identity x l)) (l ∷ exact)
            then terminal_result c identity_mismatch
            else armed_lifecycle c confirmed l
      ]

  unfoldable pub reconcile_one :
      TransientVerdictCandidate
      → List TransientE1Lifecycle
      → List ConfirmedSubmissionRecord
      → Option ℤ
      → ReconciliationOutcome
  unfolding is_expired terminal_result reconcile_armed_candidate reconcile_legacy
  reconcile_one c ls confirmed now =
      if is_expired (clock.date_parse c.received_at) now
      then terminal_result c expired
      else elim c.submit_request_id [
        | some request_id ↦ reconcile_armed_candidate c request_id ls confirmed
        | none ↦ reconcile_legacy c ls confirmed
      ]

  -- One round of the loop over the candidates.
  unfoldable pub note_outcome :
      VerdictCandidateReconciliation
      → TransientVerdictCandidate
      → ReconciliationOutcome
      → VerdictCandidateReconciliation
  note_outcome acc c pending = record acc { pending = acc.pending ++ c ∷ [] }
  note_outcome acc c (resolution r) = record acc { resolutions = acc.resolutions ++ r ∷ [] }
  note_outcome acc c (terminal t) = record acc { terminal = acc.terminal ++ t ∷ [] }

  unfoldable pub reconcile_candidates :
      List TransientE1Lifecycle
      → List ConfirmedSubmissionRecord
      → Option ℤ
      → VerdictCandidateReconciliation
      → List TransientVerdictCandidate
      → VerdictCandidateReconciliation
  unfolding note_outcome reconcile_one
  reconcile_candidates ls confirmed now acc [] = acc
  reconcile_candidates ls confirmed now acc (c ∷ cs) =
      reconcile_candidates ls confirmed now (note_outcome acc c (reconcile_one c ls confirmed now))
        cs

  unfoldable pub reconcile_verdict_candidates :
      List TransientVerdictCandidate
      → List TransientE1Lifecycle
      → List ConfirmedSubmissionRecord
      → (now : Text) → VerdictCandidateReconciliation
  unfolding reconcile_candidates
  reconcile_verdict_candidates cs ls confirmed now =
      reconcile_candidates ls confirmed (clock.date_parse now)
        (record { pending = []; resolutions = []; terminal = [] }) cs
