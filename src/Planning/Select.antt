-- ===== src/Planning/Select.antt =====
-- The choice of a primary task and its alternatives from the pool of `selectCandidateTask`.
use ai_coding_training_platf.Common.{
  Bool, true, false, not, ◌&&◌, ◌||◌, Option, none, some, List, [], ◌∷◌, Text, units, eq_text, ltb,
  find_by,
}
use ai_coding_training_platf.Common.Maps.{has, add, get}
use ai_coding_training_platf.Curriculum.Eligibility.{AbilityLevel, AbilityMap}
use ai_coding_training_platf.Planning.{
  CandidateTaskSelectorInput, PracticeTaskRef, CandidateTaskSelectorResult, chosen, no_candidate,
  difficulty_ordinal, Candidate, primary_set, interest_set,
}
use ai_coding_training_platf.Planning.Pool.{Goals, pool_of}

abbrev pub ref_of : Candidate → PracticeTaskRef
ref_of c = record {
  task_id = c.task_id;
  node_id = c.node_id;
  title = c.title;
  difficulty_band = c.difficulty_band;
  reason_codes = c.reason_codes;
}

abbrev pub is_used : List Text → Candidate → Bool
is_used used c = has c.task_id used || has c.node_id used

abbrev pub use_found : Option Candidate → List Text → List Text
use_found none used = used
use_found (some c) used = add c.node_id (add c.task_id used)

abbrev pub ref_found : Option Candidate → Option PracticeTaskRef
ref_found none = none
ref_found (some c) = some (ref_of c)

unfoldable pub find_warmup : List Text → Candidate → List Candidate → Option Candidate
unfolding difficulty_ordinal
find_warmup used primary rest =
    find_by
      (λ c.
        not (is_used used c)
        && ltb (difficulty_ordinal c.difficulty_band) (difficulty_ordinal primary.difficulty_band))
      rest

abbrev pub same_bool : Bool → Bool → Bool
same_bool true b = b
same_bool false b = not b

unfoldable pub find_same_goal : Goals → List Text → Candidate → List Candidate → Option Candidate
find_same_goal goals used primary rest =
    find_by
      (λ c.
        not (is_used used c)
        && same_bool (has primary.node_id goals.primary) (has c.node_id goals.primary)
        && not (eq_text c.node_id primary.node_id))
      rest

abbrev pub is_weak : Option AbilityLevel → Bool
is_weak (some AbilityLevel.l1) = true
is_weak (some AbilityLevel.l2) = true
is_weak _ = false

unfoldable pub find_weakness : AbilityMap → List Text → List Candidate → Option Candidate
find_weakness abilities used rest =
    find_by (λ c. not (is_used used c) && is_weak (get c.node_id abilities)) rest

-- The choice from a sorted pool that is not empty.
unfoldable pub choose_from :
    CandidateTaskSelectorInput → Goals → Candidate → List Candidate → CandidateTaskSelectorResult
unfolding find_warmup find_same_goal find_weakness
choose_from input goals primary rest =
    let used = primary.task_id ∷ [] in
    let warmup = find_warmup used primary rest in
    let same_goal = find_same_goal goals (use_found warmup used) primary rest in
    let weakness =
      find_weakness input.abilities_by_node (use_found same_goal (use_found warmup used)) rest in
    chosen (ref_of primary) (record {
      warmup = ref_found warmup;
      same_goal_alternative = ref_found same_goal;
      weakness_review = ref_found weakness;
    })

unfoldable pub choose :
    CandidateTaskSelectorInput → Goals → List Candidate → CandidateTaskSelectorResult
unfolding choose_from
choose input goals [] = no_candidate (units "all_tasks_blocked")
choose input goals (primary ∷ rest) = choose_from input goals primary rest

unfoldable pub goals_of : CandidateTaskSelectorInput → Option Goals
unfolding primary_set interest_set
goals_of input = elim (primary_set input) [
  | none ↦ none
  | some primary ↦ elim (interest_set input input.goal_interest_node_ids []) [
    | none ↦ none
    | some interest ↦ some (record { primary = primary; interest = interest })
  ]
]

-- `none` where the fuel of a set of descendants ran out.
unfoldable pub select_candidate_task :
    CandidateTaskSelectorInput → Option CandidateTaskSelectorResult
unfolding goals_of pool_of choose
select_candidate_task input = elim (goals_of input) [
  | none ↦ none
  | some goals ↦ some (choose input goals (pool_of input goals))
]
