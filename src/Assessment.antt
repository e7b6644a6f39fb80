-- ===== src/Assessment.antt =====
-- What a training session says of the learner: its outcome, lib/services/trainingOutcomeClassifier.ts,
-- and the review that follows from it, lib/services/reviewScheduler.ts.
pub mod Targets
pub mod Ability
pub mod Levels
mod Scenarios
use ai_coding_training_platf.Common.{
  Bool, true, false, not, ◌&&◌, ◌||◌, Option, none, some, List, [], ◌∷◌, ◌++◌, ℕ, Text, units, ltb,
  leb, ◌==◌, if◌then◌else◌,
}
use ai_coding_training_platf.Common.Result.{Result, ok, err, ◌>>=◌}
use ai_coding_training_platf.Domain.{AttemptResult, draft, passed}

pub data EvidenceCoverage : Type 0 where
  e1 e2 e3 e4 : EvidenceCoverage

pub data TrainingOutcome : Type 0 where
  independent_effective_completion assisted_effective_completion productive_struggle
        unproductive_trial_and_error insufficient_evidence :
      TrainingOutcome

pub data AbilityConfidence : Type 0 where
  low medium high : AbilityConfidence

-- The counts are whole and not negative, which `validateCounts` checks.
pub record TrainingOutcomeInput : Type 0 where
  pub result : AttemptResult
  pub used_assistance : Option Bool
  pub submission_count : ℕ
  pub meaningful_change_count : ℕ
  pub has_submission_sequence : Bool
  pub has_code_snapshot : Bool
  pub has_run_or_test_evidence : Bool
  pub has_reflection : Bool

pub record TrainingOutcomeResult : Type 0 where
  pub outcome : TrainingOutcome
  pub coverage_level : EvidenceCoverage
  pub confidence : AbilityConfidence
  pub reason_codes : List Text
  pub unresolved_facts : List Text
  pub input_fingerprint : Text

unfoldable pub coverage_of : TrainingOutcomeInput → EvidenceCoverage
coverage_of i =
    if i.has_run_or_test_evidence
    then e4
    else if i.has_code_snapshot
    then e3
    else if i.has_submission_sequence
    then e2
    else e1

abbrev pub is_e1 : EvidenceCoverage → Bool
is_e1 e1 = true
is_e1 e2 = false
is_e1 e3 = false
is_e1 e4 = false

abbrev pub is_e4 : EvidenceCoverage → Bool
is_e4 e1 = false
is_e4 e2 = false
is_e4 e3 = false
is_e4 e4 = true

abbrev pub is_passed : AttemptResult → Bool
is_passed passed = true
is_passed _ = false

abbrev pub is_draft : AttemptResult → Bool
is_draft draft = true
is_draft _ = false

-- `usedAssistance === value`
abbrev pub assistance_is : Option Bool → Bool → Bool
assistance_is none b = false
assistance_is (some true) b = b
assistance_is (some false) b = not b

unfoldable pub outcome_of : TrainingOutcomeInput → TrainingOutcome × List Text
unfolding coverage_of
outcome_of i =
    if is_passed i.result && assistance_is i.used_assistance false
    then (if is_e1 (coverage_of i)
        then (insufficient_evidence, units "pass_without_independence_coverage" ∷ [])
        else (
          independent_effective_completion,
          units "passed_without_assistance" ∷ units "sequence_or_code_verified" ∷ [],
        ))
    else if is_passed i.result && assistance_is i.used_assistance true
    then (
      assisted_effective_completion,
      units "passed_with_assistance"
          ∷ (if i.has_reflection then units "reflection_present" else units "reflection_missing")
          ∷ [],
    )
    else if not (is_draft i.result)
        && (ltb 0 i.meaningful_change_count || i.has_run_or_test_evidence)
    then (productive_struggle, units "unfinished_with_progress_evidence" ∷ [])
    else if not (is_draft i.result) && leb 3 i.submission_count && i.meaningful_change_count == 0
    then (unproductive_trial_and_error, units "repeated_without_meaningful_change" ∷ [])
    else (
      insufficient_evidence,
      (if is_draft i.result then units "session_unfinished" else units "facts_too_sparse") ∷ [],
    )

abbrev pub fact_if : Bool → Text → List Text
fact_if true t = t ∷ []
fact_if false t = []

abbrev pub is_unknown : Option Bool → Bool
is_unknown none = true
is_unknown (some b) = false

unfoldable pub unresolved_facts_of : TrainingOutcomeInput → List Text
unresolved_facts_of i =
    fact_if (is_unknown i.used_assistance) (units "assistance_unknown")
    ++ fact_if (not i.has_code_snapshot) (units "code_change_unavailable")

abbrev pub any_fact : List Text → Bool
any_fact [] = false
any_fact (f ∷ fs) = true

unfoldable pub confidence_of : EvidenceCoverage → List Text → AbilityConfidence
confidence_of e1 unresolved = low
confidence_of e2 unresolved = medium
confidence_of e3 unresolved = if any_fact unresolved then medium else high
confidence_of e4 unresolved = if any_fact unresolved then medium else high

-- `fingerprint` is the digest of the input's JSON text.
unfoldable pub classify_training_outcome :
    (fingerprint : TrainingOutcomeInput → Text) → TrainingOutcomeInput → TrainingOutcomeResult
unfolding coverage_of outcome_of unresolved_facts_of confidence_of
classify_training_outcome fingerprint i = record {
  outcome = (outcome_of i).0;
  coverage_level = coverage_of i;
  confidence = confidence_of (coverage_of i) (unresolved_facts_of i);
  reason_codes = (outcome_of i).1;
  unresolved_facts = unresolved_facts_of i;
  input_fingerprint = fingerprint i;
}

pub data ReviewPurpose : Type 0 where
  refresh variant transfer prerequisite_check : ReviewPurpose

pub record ScheduledReview : Type 0 where
  pub purpose : ReviewPurpose
  pub due_at : Text
  pub priority : ℕ
  pub reason_codes : List Text

-- A `RangeError`.
pub data RangeError : Type 0 where
  range_error : RangeError

-- `add_days t n` is the time `n` days after `t`, none where `t` is no time.
module _ (add_days : Text → ℕ → Option Text) where
  unfoldable pub create_review :
      ReviewPurpose → Text → ℕ → ℕ → Text → Result RangeError ScheduledReview
  create_review purpose from days priority code = elim (add_days from days) [
    | none ↦ err range_error
    | some due ↦
        ok (record {
          purpose = purpose;
          due_at = due;
          priority = priority;
          reason_codes = code ∷ [];
        })
  ]

  unfoldable pub schedule_next_review :
      TrainingOutcome → EvidenceCoverage → (created_at : Text) → Result RangeError ScheduledReview
  unfolding create_review
  schedule_next_review independent_effective_completion coverage created_at =
      create_review (if is_e4 coverage then transfer else variant) created_at
        (if is_e4 coverage then 14 else 7) 55 (units "verify_independent_transfer")
  schedule_next_review assisted_effective_completion coverage created_at =
      create_review refresh created_at 1 80 (units "recheck_without_assistance")
  schedule_next_review productive_struggle coverage created_at =
      create_review prerequisite_check created_at 1 90 (units "continue_from_progress")
  schedule_next_review unproductive_trial_and_error coverage created_at =
      create_review prerequisite_check created_at 2 95 (units "backtrack_before_retry")
  schedule_next_review insufficient_evidence coverage created_at =
      create_review refresh created_at 1 65 (units "collect_missing_evidence")
