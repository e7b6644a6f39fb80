-- ===== src/Verdicts.antt =====
-- The data of the verdict candidate coordinator, extension/src/verdictCandidateCoordinator.ts.
-- Request has the checks of a request, Latest and Reconcile have `reconcileVerdictCandidates`. A
-- time that `Date.parse` does not read is none, and no comparison with it holds.
pub mod Request
pub mod Latest
pub mod Reconcile
pub mod Accounts
pub mod Picked
pub mod Joined
pub mod Justified
mod Scenarios
use ai_coding_training_platf.Common.{
  Bool, true, false, not, ◌&&◌, ◌||◌, if◌then◌else◌, Option, none, some, List, [], ◌∷◌, ◌++◌, ℕ,
  ◌+◌, ◌==◌, leb, ltb, Text, units, eq_text, any_of, filter_by, length, is_none,
}
use ai_coding_training_platf.Common.Int.{ℤ, pos_part, neg_part, ltb_ℤ, eqb_ℤ}
use ai_coding_training_platf.Domain.{Platform, leetcode, eq_platform}
use ai_coding_training_platf.Reducer.{E1RequestObserved, E1LifecycleOutcome, Lifecycle}
use ai_coding_training_platf.Correlation.{starts_with}

pub record TransientE1Lifecycle : Type 0 where
  pub evidence : E1RequestObserved
  pub outcome : E1LifecycleOutcome
  pub stable_submission_id : Option Text

-- `platform` is always leetcode.
pub record TransientVerdictCandidate : Type 0 where
  pub candidate_id : Text
  pub problem_external_id : Text
  pub verdict : Text
  pub observed_at : Text
  pub tab_id : ℕ
  pub frame_id : ℕ
  pub document_id : Text
  pub received_at : Text
  pub submit_request_id : Option Text

pub record ConfirmedSubmissionRecord : Type 0 where
  pub platform : Platform
  pub problem_external_id : Text
  pub external_submission_id : Text
  pub confirmed_at : Text
  pub storage_key : Text
  pub finalized_at : Option Text

pub record VerdictCandidateResolution : Type 0 where
  pub candidate_id : Text
  pub problem_external_id : Text
  pub external_submission_id : Text
  pub verdict : Text
  pub observed_at : Text
  pub tab_id : ℕ
  pub frame_id : ℕ
  pub document_id : Text

pub data VerdictCandidateTerminalReason : Type 0 where
  ambiguous_latest_submit identity_mismatch chronology_mismatch expired :
      VerdictCandidateTerminalReason

pub record VerdictCandidateTerminal : Type 0 where
  pub candidate_id : Text
  pub problem_external_id : Text
  pub reason : VerdictCandidateTerminalReason

pub data ReconciliationOutcome : Type 0 where
  pending : ReconciliationOutcome
  resolution : VerdictCandidateResolution → ReconciliationOutcome
  terminal : VerdictCandidateTerminal → ReconciliationOutcome

abbrev pub verdict_candidate_ttl_ms : ℕ
verdict_candidate_ttl_ms = 300000

unfoldable pub terminal_result :
    TransientVerdictCandidate → VerdictCandidateTerminalReason → ReconciliationOutcome
terminal_result c reason = terminal (record {
  candidate_id = c.candidate_id;
  problem_external_id = c.problem_external_id;
  reason = reason;
})

unfoldable pub resolution_of :
    TransientVerdictCandidate → ConfirmedSubmissionRecord → VerdictCandidateResolution
resolution_of c r = record {
  candidate_id = c.candidate_id;
  problem_external_id = c.problem_external_id;
  external_submission_id = r.external_submission_id;
  verdict = c.verdict;
  observed_at = c.observed_at;
  tab_id = c.tab_id;
  frame_id = c.frame_id;
  document_id = c.document_id;
}

-- `a < b`
abbrev pub is_before : Option ℤ → Option ℤ → Bool
is_before none b = false
is_before (some a) none = false
is_before (some a) (some b) = ltb_ℤ a b

-- Both are finite, and `a > b` does not hold.
abbrev pub is_at_most : Option ℤ → Option ℤ → Bool
is_at_most none b = false
is_at_most (some a) none = false
is_at_most (some a) (some b) = not (ltb_ℤ b a)

-- Of the time of reception and the present.
unfoldable pub is_expired : Option ℤ → Option ℤ → Bool
is_expired none now = true
is_expired (some received) none = true
is_expired (some received) (some now) =
    ltb_ℤ now received
    || leb (pos_part received + neg_part now + verdict_candidate_ttl_ms)
        (pos_part now + neg_part received)
