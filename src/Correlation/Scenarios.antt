-- ===== src/Correlation/Scenarios.antt =====
-- Concrete records of the correlator, over which the theorems of Correlation are applied.
use ai_coding_training_platf.Common.{
  Text, [], arith, eq_text, false, filter_by, lt_text, none, refl, some, true, units, ℕ, ◌↔◌, ◌∷◌,
  ◌≡◌, ◌≢◌,
}
use ai_coding_training_platf.Common.Result.{ok}
use ai_coding_training_platf.Common.Maps.{get, put}
use ai_coding_training_platf.Domain.{leetcode, eq_platform}
use ai_coding_training_platf.Reducer.{E1RequestObserved, Lifecycle, E1LifecycleOutcome}
use ai_coding_training_platf.Reducer.Correlator.{MainBridgeSummary}
use ai_coding_training_platf.Correlation.{
  CorrelationRecord, CorrelatorOutcome, CorrelatorState, create_correlator_state, fresh_record,
  is_pending_record, mark_e1_outcome, merge_e1_evidence, merge_e1_lifecycle, merge_valid, merged,
}
use ai_coding_training_platf.Correlation.Match.{
  NowOrPolicy, answer, correlate_main_summary, correlated, resolve_policy, sort_record,
  sort_records, unique,
}
use ai_coding_training_platf.Correlation.Schema.{is_canonical_iso_utc, summary_schema}
use ai_coding_training_platf.Correlation.Candidates.{values, correlate_main_summary-unique}
use ai_coding_training_platf.Correlation.Collected.{is_candidate, is_stale}
use ai_coding_training_platf.Correlation.Runs.{Reach-no_correlation, SettledAs}
use ai_coding_training_platf.Correlation.Steps.{stay, after, merge, mark}
use ai_coding_training_platf.Correlation.Merge.{
  merge_e1_evidence_comm, merge_e1_evidence-out_of_order,
}

abbrev observed : Text → ℕ → E1RequestObserved
observed id ts = record {
  base = record {
    evidence_id = units "e";
    platform = leetcode;
    received_at = units "2026-03-01T12:00:00.000Z";
    tab_id = 1;
    frame_id = 0;
    document_id = units "doc";
    adapter_version = units "1";
  };
  api_time_stamp = ts;
  request_id = id;
  method = units "POST";
  endpoint_key = units "submit";
  resource_type = units "xmlhttprequest";
  lifecycle = Lifecycle.completed;
  status_code = none;
  redirect_endpoint_key = none;
}

abbrev summary_of : MainBridgeSummary
summary_of = record {
  platform = leetcode;
  tab_id = 1;
  frame_id = 0;
  document_id = units "doc";
  method = units "POST";
  endpoint_key = units "submit";
  api_time_stamp = 7;
  external_submission_id = none;
  problem_external_id = none;
  redirect_endpoint_key = none;
  received_at = units "2026-03-01T12:00:01.000Z";
  evidence_id = units "s";
}

abbrev first : Text
first = units "r1"

abbrev second : Text
second = units "r2"

abbrev settled_record : CorrelationRecord
settled_record = record {
  evidence = observed first 5;
  outcome = E1LifecycleOutcome.matched;
  stable_submission_id = none;
  rejection_reason = none;
}

abbrev observed_state : CorrelatorState
observed_state = record { records = (first, fresh_record (observed first 5)) ∷ [] }

abbrev settled_state : CorrelatorState
settled_state = record { records = (first, settled_record) ∷ [] }

abbrev next_state : CorrelatorState
next_state = record {
  records = (first, settled_record) ∷ (second, fresh_record (observed second 6)) ∷ [];
}

abbrev window : NowOrPolicy
window = NowOrPolicy.window_ms 10

leap_day : is_canonical_iso_utc (units "2024-02-29T12:00:00.000Z") ≡ true
unfolding is_canonical_iso_utc eq_text
leap_day = refl

no_leap_day : is_canonical_iso_utc (units "2026-02-29T12:00:00Z") ≡ false
unfolding is_canonical_iso_utc eq_text
no_leap_day = refl

first_merged : merge_e1_lifecycle create_correlator_state (observed first 5) ≡ merged observed_state
unfolding merge_e1_lifecycle eq_text merge_valid get create_correlator_state put
first_merged = refl

first_settled :
    mark_e1_outcome observed_state first CorrelatorOutcome.matched none ≡ ok settled_state
unfolding mark_e1_outcome get eq_text fresh_record put
first_settled = refl

second_merged : merge_e1_lifecycle settled_state (observed second 6) ≡ merged next_state
unfolding merge_e1_lifecycle eq_text merge_valid get put
second_merged = refl

next_correlated :
    correlate_main_summary next_state summary_of window
    ≡ correlated (observed second 6) summary_of unique
unfolding correlate_main_summary summary_schema eq_text answer sort_records sort_record eq_platform
    fresh_record lt_text
next_correlated = refl

first_is_settled : SettledAs settled_state first E1LifecycleOutcome.matched
unfolding get eq_text is_pending_record
first_is_settled = (settled_record, refl, refl, refl)

Reach-no_correlation_example : second ≢ first
Reach-no_correlation_example =
    Reach-no_correlation first E1LifecycleOutcome.matched summary_of window
      (after (after stay (merge (observed first 5) first_merged))
        (mark first CorrelatorOutcome.matched none first_settled))
      first_is_settled (after stay (merge (observed second 6) second_merged)) next_correlated

summary_valid : summary_schema summary_of ≡ true
unfolding summary_schema eq_text
summary_valid = refl

correlate_main_summary-unique_example :
    (correlate_main_summary next_state summary_of window
      ≡ correlated (observed second 6) summary_of unique)
    ↔ ((r : CorrelationRecord) × (filter_by
            (is_candidate summary_of (resolve_policy window))
            (values next_state)
          ≡ r ∷ [])
        × (filter_by (is_stale summary_of (resolve_policy window)) (values next_state) ≡ [])
        × (r.evidence ≡ observed second 6))
correlate_main_summary-unique_example =
    correlate_main_summary-unique next_state summary_of window (observed second 6) summary_valid

merge_e1_evidence_comm_example :
    merge_e1_evidence (observed first 5) (observed first 6)
    ≡ merge_e1_evidence (observed first 6) (observed first 5)
merge_e1_evidence_comm_example =
    merge_e1_evidence_comm (observed first 5) (observed first 6) (omega arith)

abbrev with_status : ℕ → ℕ → E1RequestObserved
with_status ts code = record (observed first ts) { status_code = some code }

merge_e1_evidence-out_of_order_example :
    ((merge_e1_evidence
        (merge_e1_evidence (with_status 5 302) (with_status 6 200))
        (observed first 7)).status_code
      ≡ some 200)
    × ((merge_e1_evidence
          (merge_e1_evidence (with_status 5 302) (observed first 7))
          (with_status 6 200)).status_code
        ≡ some 302)
merge_e1_evidence-out_of_order_example =
    merge_e1_evidence-out_of_order (with_status 5 302) (with_status 6 200) (observed first 7) 302
      200 refl refl refl refl refl
