-- ===== src/Planning/Pool.antt =====
-- The candidates of `selectCandidateTask`, their filters and the order of the pool.
use ai_coding_training_platf.Common.{
  Bool, true, false, not, ◌&&◌, Option, none, some, List, [], ◌∷◌, ◌++◌, ℕ, Text, units, eq_text,
  lt_text, ltb, ◌==◌, if◌then◌else◌, filter_by, find_by, length,
}
use ai_coding_training_platf.Common.Int.{ltb_ℤ, eqb_ℤ}
use ai_coding_training_platf.Common.Maps.{has, get}
use ai_coding_training_platf.Common.Sort.{sort}
use ai_coding_training_platf.Curriculum.Eligibility.Analysis.{is_unassessed}
use ai_coding_training_platf.Planning.{
  DifficultyBand, intro, easy, medium, hard, EffortBoundaryMinutes, CandidateNode, PracticeTask,
  Completion, CandidateTaskSelectorInput, effort_index, Candidate, or_empty, eligible_nodes,
}

-- `slice(-1)[0]?.practiceTaskId`
unfoldable pub most_recent : List Completion → Option Text
most_recent [] = none
most_recent (c ∷ []) = some c.practice_task_id
most_recent (c ∷ d ∷ cs) = most_recent (d ∷ cs)

-- `value === text` for a value that may be undefined
abbrev pub is_task : Option Text → Text → Bool
is_task none t = false
is_task (some s) t = eq_text s t

abbrev pub when : Bool → Text → List Text
when true t = t ∷ []
when false t = []

abbrev pub is_low : DifficultyBand → Bool
is_low intro = true
is_low easy = true
is_low medium = false
is_low hard = false

-- The sets that the goals of the input give.
pub record Goals : Type 0 where
  pub primary : List Text
  pub interest : List Text

unfoldable pub reason_codes : CandidateTaskSelectorInput → Goals → Text → PracticeTask → List Text
unfolding effort_index is_unassessed most_recent
reason_codes input goals node_id task =
    let ability = get node_id input.abilities_by_node in
    (if has node_id goals.primary
      then units "primary_goal"
      else if has node_id goals.interest
      then units "interest_goal"
      else units "common_foundation")
    ∷ (when (is_unassessed ability) (units "first_unassessed")
        ++ (when (not (is_unassessed ability)) (units "reachable_ability")
            ++ (when (effort_index input.effort_boundary_minutes task.difficulty_band == 0)
                  (units "within_effort")
                ++ (when (not (has task.stable_id input.recently_skipped))
                      (units "not_recently_skipped")
                    ++ (when (not (is_task (most_recent input.recent_completions) task.stable_id))
                          (units "not_same_variant")
                        ++ when (is_low task.difficulty_band) (units "low_difficulty_match"))))))

-- The candidates of one node, from its tasks.
unfoldable pub tasks_of :
    CandidateTaskSelectorInput → Goals → CandidateNode → Text → List PracticeTask → List Candidate
unfolding reason_codes
tasks_of input goals node node_id [] = []
tasks_of input goals node node_id (t ∷ ts) =
    record {
      task_id = t.stable_id;
      node_id = node_id;
      title = t.title;
      difficulty_band = t.difficulty_band;
      order_index = node.order_index;
      reason_codes = reason_codes input goals node_id t;
    }
    ∷ tasks_of input goals node node_id ts

unfoldable pub candidates_of : CandidateTaskSelectorInput → Goals → Text → List Candidate
unfolding tasks_of
candidates_of input goals id = elim (find_by (λ n. eq_text n.stable_id id) input.nodes) [
  | none ↦ []
  | some node ↦ tasks_of input goals node id (or_empty (get id input.practices_by_node))
]

unfoldable pub candidates : CandidateTaskSelectorInput → Goals → List Text → List Candidate
unfolding candidates_of
candidates input goals [] = []
candidates input goals (id ∷ ids) = candidates_of input goals id ++ candidates input goals ids

-- The filter of the task that was completed last.
unfoldable pub without_recent : Option Text → List Candidate → List Candidate
without_recent none pool = pool
without_recent (some recent) pool =
    if ltb 0 (length (filter_by (λ c. eq_text c.task_id recent) pool)) && ltb 1 (length pool)
    then filter_by (λ c. not (eq_text c.task_id recent)) pool
    else pool

unfoldable pub goal_rank : Goals → Text → ℕ
goal_rank goals id = if has id goals.primary then 0 else if has id goals.interest then 1 else 2

-- The order by which the pool is sorted.
unfoldable pub comes_before : EffortBoundaryMinutes → Goals → Candidate → Candidate → Bool
unfolding goal_rank effort_index
comes_before minutes goals a b =
    if not (goal_rank goals a.node_id == goal_rank goals b.node_id)
    then ltb (goal_rank goals a.node_id) (goal_rank goals b.node_id)
    else if not (effort_index minutes a.difficulty_band == effort_index minutes b.difficulty_band)
    then ltb (effort_index minutes a.difficulty_band) (effort_index minutes b.difficulty_band)
    else if not (eqb_ℤ a.order_index b.order_index)
    then ltb_ℤ a.order_index b.order_index
    else if not (eq_text a.node_id b.node_id)
    then lt_text a.node_id b.node_id
    else lt_text a.task_id b.task_id

unfoldable pub pool_of : CandidateTaskSelectorInput → Goals → List Candidate
unfolding candidates eligible_nodes without_recent comes_before most_recent
pool_of input goals = sort (comes_before input.effort_boundary_minutes goals) (
    without_recent (most_recent input.recent_completions) (
      filter_by (λ c. not (has c.task_id input.recently_skipped))
        (candidates input goals (eligible_nodes input [] input.nodes))))
