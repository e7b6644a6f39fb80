-- ===== src/Correlation/Match.antt =====
-- `correlateMainSummary` of submissionCorrelator.ts: one pass over the records sorts out the
-- candidates of a summary, and the classes are then taken in order of priority.
use ai_coding_training_platf.Common.{
  take, Bool, true, false, not, ◌&&◌, Option, none, some, List, [], ◌∷◌, ◌++◌, ℕ, ◌+◌, leb, ltb,
  ◌==◌, if◌then◌else◌, Text, units, eq_text, lt_text, map, length, filter_by, is_none,
}
use ai_coding_training_platf.Domain.{eq_platform}
use ai_coding_training_platf.Reducer.{
  E1LifecycleOutcome, CorrelatorRejectionReason, CorrelatorAmbiguityReason, CorrelatorNoMatchReason,
  E1RequestObserved, multiple_e1_candidates, e1_window_expired, malformed_response,
}
use ai_coding_training_platf.Reducer.Identity.{platform_name}
use ai_coding_training_platf.Reducer.Correlator.{MainBridgeSummary}
use ai_coding_training_platf.Correlation.{CorrelationRecord, CorrelatorState, is_id}
use ai_coding_training_platf.Correlation.Schema.{parse_main_bridge_summary}

-- `max_candidate_count` is none for `Infinity`.
pub record CorrelationPolicy : Type 0 where
  pub time_window_ms : ℕ
  pub max_candidate_count : Option ℕ

pub data NowOrPolicy : Type 0 where
  policy : CorrelationPolicy → NowOrPolicy
  window_ms : ℕ → NowOrPolicy

unfoldable pub resolve_policy : NowOrPolicy → CorrelationPolicy
resolve_policy (policy p) = p
resolve_policy (window_ms n) = record { time_window_ms = n; max_candidate_count = none }

pub data Signal : Type 0 where
  unique redirect_endpoint_key external_submission_id : Signal

pub data CorrelationResult : Type 0 where
  correlated :
      E1RequestObserved → MainBridgeSummary → (disambiguated_by : Signal) → CorrelationResult
  ambiguous :
      CorrelatorAmbiguityReason
      → (candidates : List E1RequestObserved) → MainBridgeSummary
      → (candidate_count : ℕ) → CorrelationResult
  no_match : CorrelatorNoMatchReason → CorrelationResult
  rejected_match : (request_id : Text) → CorrelatorRejectionReason → CorrelationResult

unfoldable pub identity_matches_identity : CorrelationRecord → MainBridgeSummary → Bool
identity_matches_identity r s =
    let e = r.evidence in
    eq_platform e.base.platform s.platform
    && e.base.tab_id == s.tab_id
    && e.base.frame_id == s.frame_id
    && eq_text e.base.document_id s.document_id
    && eq_text e.method s.method
    && eq_text e.endpoint_key s.endpoint_key

unfoldable pub api_time_stamp_within_window :
    E1RequestObserved → MainBridgeSummary → CorrelationPolicy → Bool
api_time_stamp_within_window e s p =
    leb e.api_time_stamp (s.api_time_stamp + p.time_window_ms)
    && leb s.api_time_stamp (e.api_time_stamp + p.time_window_ms)

unfoldable pub received_at_monotonic_or_equal : E1RequestObserved → MainBridgeSummary → Bool
received_at_monotonic_or_equal e s = not (lt_text s.received_at e.base.received_at)

-- The lists and variables that the loop fills.
pub record Sorted : Type 0 where
  pub pending_legal : List CorrelationRecord
  pub out_of_window_pending : List CorrelationRecord
  pub last_rejected : Option CorrelationRecord
  pub last_expired : Option CorrelationRecord
  pub last_canceled : Option CorrelationRecord
  pub last_matched : Option CorrelationRecord
  pub last_errored : Option CorrelationRecord
  pub last_crossed_fields : Option CorrelationRecord

abbrev pub nothing_sorted : Sorted
nothing_sorted = record {
  pending_legal = [];
  out_of_window_pending = [];
  last_rejected = none;
  last_expired = none;
  last_canceled = none;
  last_matched = none;
  last_errored = none;
  last_crossed_fields = none;
}

-- `if (first === undefined) first = record`
abbrev pub first_of : Option CorrelationRecord → CorrelationRecord → Option CorrelationRecord
first_of none r = some r
first_of (some old) r = some old

-- A record of the summary's request and in its window, by its outcome.
unfoldable pub sort_by_outcome : Sorted → CorrelationRecord → E1LifecycleOutcome → Sorted
sort_by_outcome s r E1LifecycleOutcome.rejected = record s {
  last_rejected = first_of s.last_rejected r;
}
sort_by_outcome s r E1LifecycleOutcome.expired = record s {
  last_expired = first_of s.last_expired r;
}
sort_by_outcome s r E1LifecycleOutcome.canceled = record s {
  last_canceled = first_of s.last_canceled r;
}
sort_by_outcome s r E1LifecycleOutcome.error = record s { last_errored = first_of s.last_errored r }
sort_by_outcome s r E1LifecycleOutcome.matched = record s {
  last_matched = first_of s.last_matched r;
}
sort_by_outcome s r E1LifecycleOutcome.pending = record s {
  pending_legal = s.pending_legal ++ r ∷ [];
}

-- `record.outcome === "pending"`
unfoldable pub awaits : E1LifecycleOutcome → Bool
awaits E1LifecycleOutcome.pending = true
awaits _ = false

-- One turn of the loop.
unfoldable pub sort_record :
    MainBridgeSummary → CorrelationPolicy → Sorted → CorrelationRecord → Sorted
unfolding awaits identity_matches_identity api_time_stamp_within_window
    received_at_monotonic_or_equal sort_by_outcome
sort_record summary p s r =
    if not (identity_matches_identity r summary)
    then s
    else if not (received_at_monotonic_or_equal r.evidence summary)
    then record s { last_crossed_fields = some r }
    else if not (api_time_stamp_within_window r.evidence summary p)
    then (if awaits r.outcome
        then record s { out_of_window_pending = s.out_of_window_pending ++ r ∷ [] }
        else s)
    else sort_by_outcome s r r.outcome

unfoldable pub sort_records :
    MainBridgeSummary → CorrelationPolicy → Sorted → List (Text × CorrelationRecord) → Sorted
sort_records summary p s [] = s
sort_records summary p s ((id, r) ∷ rs) = sort_records summary p (sort_record summary p s r) rs

unfoldable pub only_one {ℓ} : {A : Type ℓ} → List A → Option A
only_one [] = none
only_one (a ∷ []) = some a
only_one (a ∷ b ∷ rest) = none

unfoldable pub disambiguate_by_external_submission_id :
    List CorrelationRecord → MainBridgeSummary → Option (Signal × CorrelationRecord)
unfolding filter_by only_one platform_name
disambiguate_by_external_submission_id candidates summary = elim summary.external_submission_id [
  | none ↦ none
  | some id ↦
      let expected = platform_name summary.platform ++ (units ":" ++ id) in
      elim (only_one (filter_by (λ c. is_id c.stable_submission_id expected) candidates)) [
        | none ↦ none
        | some r ↦ some (external_submission_id, r)
      ]
]

-- The records that saw the summary's redirect, and all candidates.
unfoldable pub disambiguate_by_redirect :
    (by_redirect candidates : List CorrelationRecord)
    → MainBridgeSummary
    → Option (Signal × CorrelationRecord)
unfolding disambiguate_by_external_submission_id
disambiguate_by_redirect [] candidates summary =
    disambiguate_by_external_submission_id candidates summary
disambiguate_by_redirect (r ∷ []) candidates summary = some (redirect_endpoint_key, r)
disambiguate_by_redirect (r ∷ q ∷ qs) candidates summary =
    disambiguate_by_external_submission_id (r ∷ q ∷ qs) summary

unfoldable pub disambiguate_by_summary_signals :
    List CorrelationRecord → MainBridgeSummary → Option (Signal × CorrelationRecord)
unfolding filter_by disambiguate_by_external_submission_id disambiguate_by_redirect
disambiguate_by_summary_signals candidates summary = elim summary.redirect_endpoint_key [
  | none ↦ disambiguate_by_external_submission_id candidates summary
  | some key ↦
      disambiguate_by_redirect
        (filter_by (λ c. is_id c.evidence.redirect_endpoint_key key) candidates) candidates summary
]

abbrev pub evidence_of : List CorrelationRecord → List E1RequestObserved
evidence_of = map (λ r. r.evidence)

unfoldable pub several_candidates :
    CorrelationPolicy → MainBridgeSummary → List CorrelationRecord → CorrelationResult
unfolding take
several_candidates p summary legal = elim p.max_candidate_count [
  | none ↦ ambiguous multiple_e1_candidates (evidence_of legal) summary (length legal)
  | some n ↦
      if ltb n (length legal)
      then ambiguous multiple_e1_candidates (evidence_of (take n legal)) summary (length legal)
      else ambiguous multiple_e1_candidates (evidence_of legal) summary (length legal)
]

-- The answer where no candidate is pending.
unfoldable pub without_candidates : Sorted → CorrelationResult
without_candidates s = elim s.last_rejected [
  | some r ↦
      rejected_match r.evidence.request_id
        (elim r.rejection_reason [ none ↦ malformed_response | some reason ↦ reason ])
  | none ↦
      if not (is_none s.last_errored)
      then no_match CorrelatorNoMatchReason.error
      else if not (is_none s.last_expired)
      then no_match CorrelatorNoMatchReason.expired
      else if not (is_none s.last_canceled)
      then no_match CorrelatorNoMatchReason.canceled
      else if not (is_none s.last_matched)
      then no_match CorrelatorNoMatchReason.already_matched
      else if not (is_none s.last_crossed_fields)
      then no_match CorrelatorNoMatchReason.crossed_fields
      else no_match CorrelatorNoMatchReason.zero_candidates
]

-- The answer from the candidates in the window and those out of it.
unfoldable pub answer_with :
    CorrelationPolicy
    → MainBridgeSummary
    → Sorted
    → (pending_legal out_of_window_pending : List CorrelationRecord) → CorrelationResult
unfolding without_candidates disambiguate_by_summary_signals several_candidates
answer_with p summary s [] stale = without_candidates s
answer_with p summary s (r ∷ rs) (o ∷ os) =
    ambiguous e1_window_expired (evidence_of (r ∷ rs)) summary (length (r ∷ rs))
answer_with p summary s (r ∷ []) [] = correlated r.evidence summary unique
answer_with p summary s (r ∷ q ∷ qs) [] =
    elim (disambiguate_by_summary_signals (r ∷ q ∷ qs) summary) [
      | some (signal, chosen) ↦ correlated chosen.evidence summary signal
      | none ↦ several_candidates p summary (r ∷ q ∷ qs)
    ]

unfoldable pub answer : CorrelationPolicy → MainBridgeSummary → Sorted → CorrelationResult
unfolding answer_with
answer p summary s = answer_with p summary s s.pending_legal s.out_of_window_pending

unfoldable pub correlate_main_summary :
    CorrelatorState → MainBridgeSummary → NowOrPolicy → CorrelationResult
unfolding parse_main_bridge_summary resolve_policy
correlate_main_summary state input now_or_policy = elim (parse_main_bridge_summary input) [
  | none ↦ no_match CorrelatorNoMatchReason.zero_candidates
  | some summary ↦
      let p = resolve_policy now_or_policy in
      answer p summary (sort_records summary p nothing_sorted state.records)
]
