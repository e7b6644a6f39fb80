-- ===== src/Correlation.antt =====
-- The submission correlator of extension/src/submissionCorrelator.ts: its state, the lifecycle of
-- a request's evidence, and how two observations of one request merge. Match has
-- `correlateMainSummary`, Schema the checks of the inputs (with those of evidence.ts).
pub mod Schema
pub mod Match
pub mod Collected
pub mod Answers
pub mod Candidates
pub mod Steps
pub mod Runs
pub mod Merge
mod Scenarios
use ai_coding_training_platf.Common.{
  Bool, true, false, not, ◌&&◌, ◌||◌, Option, none, some, List, [], ◌∷◌, ◌++◌, ℕ, leb, ◌==◌,
  if◌then◌else◌, Text, units, eq_text, lt_text, any_of,
}
use ai_coding_training_platf.Common.Result.{Result, ok, err}
use ai_coding_training_platf.Common.Maps.{get, put}
use ai_coding_training_platf.Domain.{Platform, eq_platform}
use ai_coding_training_platf.Reducer.{
  E1LifecycleOutcome, CorrelatorRejectionReason, E1RequestObserved, Lifecycle,
}
use ai_coding_training_platf.Reducer.Identity.{platform_name, trim}
use ai_coding_training_platf.Reducer.Correlator.{MainBridgeSummary}
use ai_coding_training_platf.Correlation.Schema.{e1_schema}

pub data CorrelatorOutcome : Type 0 where
  matched rejected expired canceled error : CorrelatorOutcome

abbrev pub outcome_of : CorrelatorOutcome → E1LifecycleOutcome
outcome_of matched = E1LifecycleOutcome.matched
outcome_of rejected = E1LifecycleOutcome.rejected
outcome_of expired = E1LifecycleOutcome.expired
outcome_of canceled = E1LifecycleOutcome.canceled
outcome_of error = E1LifecycleOutcome.error

pub record E1Identity : Type 0 where
  pub platform : Platform
  pub tab_id : ℕ
  pub frame_id : ℕ
  pub document_id : Text
  pub method : Text
  pub endpoint_key : Text

pub record CorrelationRecord : Type 0 where
  pub evidence : E1RequestObserved
  pub outcome : E1LifecycleOutcome
  pub stable_submission_id : Option Text
  pub rejection_reason : Option CorrelatorRejectionReason

-- The records by request id, in the order of insertion.
pub record CorrelatorState : Type 0 where
  pub records : List (Text × CorrelationRecord)

unfoldable pub compute_identity : E1RequestObserved → E1Identity
compute_identity e = record {
  platform = e.base.platform;
  tab_id = e.base.tab_id;
  frame_id = e.base.frame_id;
  document_id = e.base.document_id;
  method = e.method;
  endpoint_key = e.endpoint_key;
}

unfoldable pub identities_equal : E1Identity → E1Identity → Bool
identities_equal a b =
    eq_platform a.platform b.platform
    && a.tab_id == b.tab_id
    && a.frame_id == b.frame_id
    && eq_text a.document_id b.document_id
    && eq_text a.method b.method
    && eq_text a.endpoint_key b.endpoint_key

unfoldable pub set_record : CorrelatorState → Text → CorrelationRecord → CorrelatorState
set_record state request_id r = record { records = put request_id r state.records }

unfoldable pub pick_field {ℓ} :
    {A : Type ℓ} → Option A → Option A → (existing_ts incoming_ts : ℕ) → Option A
pick_field (some a) (some b) existing_ts incoming_ts =
    if leb existing_ts incoming_ts then some b else some a
pick_field none (some b) existing_ts incoming_ts = some b
pick_field (some a) none existing_ts incoming_ts = some a
pick_field none none existing_ts incoming_ts = none

unfoldable pub merge_e1_evidence : E1RequestObserved → E1RequestObserved → E1RequestObserved
unfolding pick_field
merge_e1_evidence existing next =
    let latest = if leb existing.api_time_stamp next.api_time_stamp then next else existing in
    let base = latest.base in
    record latest {
      base = record base {
        received_at =
            if lt_text next.base.received_at existing.base.received_at
            then next.base.received_at
            else existing.base.received_at;
      };
      api_time_stamp =
          if leb existing.api_time_stamp next.api_time_stamp
          then next.api_time_stamp
          else existing.api_time_stamp;
      status_code =
          pick_field existing.status_code next.status_code existing.api_time_stamp
            next.api_time_stamp;
      redirect_endpoint_key =
          pick_field existing.redirect_endpoint_key next.redirect_endpoint_key
            existing.api_time_stamp next.api_time_stamp;
    }

unfoldable pub create_correlator_state : CorrelatorState
create_correlator_state = record { records = [] }

pub data MergeE1Result : Type 0 where
  merged : CorrelatorState → MergeE1Result
  identity_mismatch : (request_id : Text) → (expected observed : E1Identity) → MergeE1Result
  invalid_input : (request_id : Text) → MergeE1Result

unfoldable pub fresh_record : E1RequestObserved → CorrelationRecord
fresh_record e = record {
  evidence = e;
  outcome = E1LifecycleOutcome.pending;
  stable_submission_id = none;
  rejection_reason = none;
}

-- The end of `mergeE1Lifecycle`, over evidence that is valid.
unfoldable pub merge_valid : CorrelatorState → E1RequestObserved → MergeE1Result
unfolding set_record fresh_record compute_identity identities_equal
merge_valid state incoming = elim (get incoming.request_id state.records) [
  | none ↦ merged (set_record state incoming.request_id (fresh_record incoming))
  | some existing ↦
      if not (identities_equal (compute_identity existing.evidence) (compute_identity incoming))
      then identity_mismatch incoming.request_id (compute_identity existing.evidence)
          (compute_identity incoming)
      else merged (
          set_record state incoming.request_id
            (record existing { evidence = merge_e1_evidence existing.evidence incoming }))
]

unfoldable pub merge_e1_lifecycle : CorrelatorState → E1RequestObserved → MergeE1Result
unfolding e1_schema
merge_e1_lifecycle state next =
    if e1_schema next then merge_valid state next else invalid_input next.request_id

unfoldable pub is_pending_record : CorrelationRecord → Bool
is_pending_record r = elim r.outcome [ E1LifecycleOutcome.pending ↦ true | _ ↦ false ]

-- A rejection that gives no reason.
pub data MarkError : Type 0 where
  missing_rejection_reason : MarkError

unfoldable pub mark_e1_outcome :
    CorrelatorState
    → Text
    → CorrelatorOutcome
    → Option CorrelatorRejectionReason
    → Result MarkError CorrelatorState
unfolding set_record is_pending_record
mark_e1_outcome state request_id outcome reason = elim (get request_id state.records) [
  | none ↦ ok state
  | some existing ↦
      let settled = λ (given : Option CorrelatorRejectionReason).
        set_record state request_id
          (record existing { outcome = outcome_of outcome; rejection_reason = given }) in
      if not (is_pending_record existing) then ok state else elim outcome [
        | rejected ↦ elim reason [
          | none ↦ err missing_rejection_reason
          | some given ↦ ok (settled (some given))
        ]
        | _ ↦ ok (settled none)
      ]
]

-- `s.startsWith(prefix)`
unfoldable pub starts_with : Text → Text → Bool
starts_with [] s = true
starts_with (c ∷ p) [] = false
starts_with (c ∷ p) (d ∷ s) = (c == d) && starts_with p s

-- `recordStableIdentity`: the id with its platform, or none where it names another platform.
unfoldable pub normalized_id : Platform → Text → Option Text
unfolding starts_with platform_name any_of
normalized_id platform id =
    let prefix = platform_name platform ++ units ":" in
    if starts_with prefix id
    then some id
    else if not (any_of (λ c. c == 58) id)
    then some (prefix ++ id)
    else none

-- `value === text` for a value that may be null
abbrev pub is_id : Option Text → Text → Bool
is_id none t = false
is_id (some s) t = eq_text s t

unfoldable pub record_stable_identity : CorrelatorState → Text → Text → CorrelatorState
unfolding set_record normalized_id
record_stable_identity state request_id id = elim (get request_id state.records) [
  | none ↦ state
  | some existing ↦ elim (normalized_id existing.evidence.base.platform id) [
    | none ↦ state
    | some normalized ↦
        if is_id existing.stable_submission_id normalized
        then state
        else set_record state request_id
            (record existing { stable_submission_id = some normalized })
  ]
]

unfoldable pub select_stable_submission_identity : MainBridgeSummary → Option Text
unfolding trim platform_name
select_stable_submission_identity summary = elim summary.external_submission_id [
  | none ↦ none
  | some id ↦ elim (trim id) [
    | [] ↦ none
    | c ∷ cs ↦ some (platform_name summary.platform ++ (units ":" ++ (c ∷ cs)))
  ]
]
