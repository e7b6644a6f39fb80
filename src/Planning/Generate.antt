-- ===== src/Planning/Generate.antt =====
-- `generatePlan` of lib/services/planGenerator.ts over the selector.
use ai_coding_training_platf.Common.{Bool, true, false, Option, none, some, [], ◌∷◌, Text, units}
use ai_coding_training_platf.Planning.{
  intro, CandidateTaskSelectorInput, PracticeTaskRef, Alternatives, CandidateTaskSelectorResult,
  chosen, no_candidate,
}
use ai_coding_training_platf.Planning.Select.{select_candidate_task}

pub data DailyMode : Type 0 where
  learn review practice build recover : DailyMode

pub record PlanGeneratorOutput : Type 0 where
  pub primary : PracticeTaskRef
  pub alternatives : Alternatives
  pub mode : DailyMode
  pub is_fallback : Bool
  pub reason : Option Text

abbrev pub no_alternatives : Alternatives
no_alternatives = record { warmup = none; same_goal_alternative = none; weakness_review = none }

-- The task of the safe-foundation fallback.
abbrev pub safe_fallback : PracticeTaskRef
safe_fallback = record {
  task_id = units "task-cpp-io-types";
  node_id = units "cpp-io-types";
  title = units "Practice Task A";
  difficulty_band = intro;
  reason_codes = units "common_foundation" ∷ [];
}

abbrev pub fallback_reason : Text
fallback_reason =
    units
      "No eligible tasks; safe foundation fallback to task-cpp-io-types on cpp-io-types (platform-neutral basic I/O practice)."

unfoldable pub plan_from : DailyMode → CandidateTaskSelectorResult → PlanGeneratorOutput
plan_from mode (chosen primary alternatives) = record {
  primary = primary;
  alternatives = alternatives;
  mode = mode;
  is_fallback = false;
  reason = none;
}
plan_from mode (no_candidate reason) = record {
  primary = safe_fallback;
  alternatives = no_alternatives;
  mode = mode;
  is_fallback = true;
  reason = some fallback_reason;
}

unfoldable pub generate_plan : CandidateTaskSelectorInput → DailyMode → Option PlanGeneratorOutput
unfolding select_candidate_task plan_from
generate_plan input mode = elim (select_candidate_task input) [
  | none ↦ none
  | some result ↦ some (plan_from mode result)
]
