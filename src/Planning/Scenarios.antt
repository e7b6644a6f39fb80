-- ===== src/Planning/Scenarios.antt =====
-- Two nodes that share a task, over which the theorems of Planning are applied.
use ai_coding_training_platf.Common.Sort.{sort}
use ai_coding_training_platf.Common.{
  List, Text, [], any_of, eq_text, false, filter_by, find_by, is_none, lt_text, none, refl, some,
  true, units, ◌↔◌, ◌∷◌, ◌≡◌, ◌⊎◌,
}
use ai_coding_training_platf.Common.Int.{pos}
use ai_coding_training_platf.Common.Maps.{add, get, has}
use ai_coding_training_platf.Curriculum.{KnowledgeNode, KnowledgeNodeStatus}
use ai_coding_training_platf.Curriculum.Eligibility.{
  LearningResourceRow, ResourceSnapshot, PracticeSnapshot, EligibilityResult,
}
use ai_coding_training_platf.Curriculum.Eligibility.Analysis.{analyze_node_eligibility}
use ai_coding_training_platf.Planning.{
  CandidateNode, PracticeTask, easy, m30, CandidateTaskSelectorInput, Alternatives, PracticeTaskRef,
  chosen, no_candidate, Completion, is_eligible, or_empty,
}
use ai_coding_training_platf.Planning.Pool.{Goals, most_recent}
use ai_coding_training_platf.Planning.Select.{goals_of, select_candidate_task}
use ai_coding_training_platf.Planning.Generate.{practice, generate_plan, PlanGeneratorOutput}
use ai_coding_training_platf.Planning.Choice.{IsChoice}
use ai_coding_training_platf.Planning.Contract.{
  IsPlan, OnlyTask, open_candidates, select_candidate_task-IsChoice, generate_plan-IsPlan,
  select_candidate_task-none_iff,
}
use ai_coding_training_platf.Planning.Agree.{SameNode, is_eligible-analyze}

abbrev node_at : Text → CandidateNode
node_at id = record { stable_id = id; order_index = pos 1; title = id }

abbrev task_at : Text → PracticeTask
task_at id = record { stable_id = id; title = id; difficulty_band = easy }

-- `loops` needs `arrays`, for which the learner has no baseline.
abbrev input_with : List Completion → List PracticeTask → CandidateTaskSelectorInput
input_with done tasks = record {
  nodes = node_at (units "arrays") ∷ node_at (units "loops") ∷ [];
  edges = record { from_stable_id = units "arrays"; to_stable_id = units "loops" } ∷ [];
  practices_by_node = (units "arrays", task_at (units "sum") ∷ []) ∷ (units "loops", tasks) ∷ [];
  resources_by_node =
      (units "arrays", some (units "reviewed")) ∷ (units "loops", some (units "reviewed")) ∷ [];
  prerequisites_by_node = (units "loops", units "arrays" ∷ []) ∷ [];
  baselines_by_node = [];
  abilities_by_node = [];
  recently_skipped = [];
  recent_completions = done;
  goal_primary_node_id = some (units "arrays");
  goal_interest_node_ids = [];
  effort_boundary_minutes = m30;
}

abbrev two_tasks : CandidateTaskSelectorInput
two_tasks = input_with [] (task_at (units "count") ∷ [])

abbrev codes : List Text
codes =
    units "primary_goal"
    ∷ units "first_unassessed"
    ∷ units "within_effort"
    ∷ units "not_recently_skipped"
    ∷ units "not_same_variant"
    ∷ units "low_difficulty_match"
    ∷ []

abbrev sum_ref : PracticeTaskRef
sum_ref = record {
  task_id = units "sum";
  node_id = units "arrays";
  title = units "sum";
  difficulty_band = easy;
  reason_codes = codes;
}

abbrev count_ref : PracticeTaskRef
count_ref = record {
  task_id = units "count";
  node_id = units "loops";
  title = units "count";
  difficulty_band = easy;
  reason_codes = codes;
}

abbrev two_alternatives : Alternatives
two_alternatives = record {
  warmup = none;
  same_goal_alternative = some count_ref;
  weakness_review = none;
}

sum_chosen : select_candidate_task two_tasks ≡ some (chosen sum_ref two_alternatives)
unfolding select_candidate_task eq_text any_of has sort filter_by get add find_by lt_text
sum_chosen = refl

select_candidate_task-IsChoice_example : IsChoice two_tasks sum_ref two_alternatives
select_candidate_task-IsChoice_example = select_candidate_task-IsChoice two_tasks sum_chosen

generate_plan-IsPlan_example :
    (o : PlanGeneratorOutput) × (generate_plan two_tasks practice ≡ some o)
    × (o.mode ≡ practice)
    × IsPlan two_tasks o
generate_plan-IsPlan_example = generate_plan-IsPlan two_tasks practice

-- Both nodes have the task that was completed last, and no other.
abbrev one_task : CandidateTaskSelectorInput
one_task =
    input_with (record { practice_task_id = units "sum"; completed_at = none } ∷ [])
      (task_at (units "sum") ∷ [])

abbrev goals : Goals
goals = record { primary = units "arrays" ∷ units "loops" ∷ []; interest = [] }

goals_found : goals_of one_task ≡ some goals
unfolding goals_of eq_text any_of has
goals_found = refl

select_candidate_task-none_iff_example :
    ((reason : Text) × (select_candidate_task one_task ≡ some (no_candidate reason))) ↔ (
      (open_candidates one_task goals ≡ [])
      ⊎ ((t : Text) × (most_recent one_task.recent_completions ≡ some t)
          × OnlyTask t (open_candidates one_task goals)))
select_candidate_task-none_iff_example = select_candidate_task-none_iff one_task goals_found

sum_dropped : select_candidate_task one_task ≡ some (no_candidate (units "all_tasks_blocked"))
unfolding select_candidate_task eq_text any_of has sort filter_by get add find_by
sum_dropped = refl

abbrev loops : KnowledgeNode
loops = record {
  stable_id = units "loops";
  title = units "Loops";
  outcome = units "o";
  rationale = units "r";
  order_index = pos 1;
  status = KnowledgeNodeStatus.published;
  provenance = record {
    authority = units "team";
    url = units "https://example.org";
    retrieved_at = units "2026-03-01T12:00:00.000Z";
  };
  stopping_guidance = units "s";
}

abbrev row : LearningResourceRow
row = record {
  id = units "1";
  stable_id = units "r";
  title = units "r";
  url = units "https://example.org";
  author = units "a";
  language = units "en";
  cost = units "free";
  access = units "open";
  license_boundary = units "link";
  review_status = units "reviewed";
  reviewed_at = units "2026-03-01";
  stopping_guidance = units "s";
  package_id = units "p";
}

abbrev resources : ResourceSnapshot
resources = record { primary = some row; review_status = some (units "reviewed") }

abbrev practices : PracticeSnapshot
practices = record {
  tasks =
      record {
        id = units "1";
        stable_id = units "count";
        canonical_problem_id = units "c";
        title = units "count";
        kind = units "oj";
        difficulty_band = units "easy";
        package_id = units "p";
      }
      ∷ [];
}

loops_same : SameNode two_tasks loops resources practices
unfolding eq_text get
loops_same = record { published = refl; present = refl; reviewed = refl; practiced = refl }

is_eligible-analyze_example :
    (r : EligibilityResult) × (analyze_node_eligibility loops [] resources practices
        (some (or_empty (get (units "loops") two_tasks.prerequisites_by_node)))
        two_tasks.baselines_by_node
        []
      ≡ some r)
    × ((r.is_available ≡ true) ↔ (
        (is_eligible two_tasks (units "loops") ≡ true)
        × ((p : Text)
            → has p (or_empty (get (units "loops") two_tasks.prerequisites_by_node)) ≡ true
            → is_none (get p two_tasks.baselines_by_node) ≡ false)))
is_eligible-analyze_example =
    is_eligible-analyze two_tasks loops [] resources practices [] loops_same
