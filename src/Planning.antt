-- ===== src/Planning.antt =====
-- The choice of a learner's next practice task, lib/services/candidateTaskSelector.ts, and the
-- daily plan that wraps it, lib/services/planGenerator.ts. Optional lists and records are empty
-- where they are absent; a set is a list without repetitions, in the order of insertion.
pub mod Pool
pub mod Select
pub mod Generate
pub mod Descend
pub mod Allowed
pub mod Choice
pub mod Contract
pub mod Agree
mod Scenarios
use ai_coding_training_platf.Common.{
  Bool, true, false, not, ◌&&◌, ◌||◌, Option, none, some, List, [], ◌∷◌, ◌++◌, ℕ, zero, suc, ◌+◌,
  Text, units, eq_text, lt_text, ltb, ◌==◌, if◌then◌else◌, filter_by, find_by, any_of, length,
  is_none,
}
use ai_coding_training_platf.Common.Int.{ℤ, ltb_ℤ, eqb_ℤ}
use ai_coding_training_platf.Common.Maps.{has, add, get, put}
use ai_coding_training_platf.Common.Sort.{sort}
use ai_coding_training_platf.Curriculum.Eligibility.{
  BaselineLevel, BaselineMap, AbilityLevel, AbilityMap, is_empty,
}
use ai_coding_training_platf.Curriculum.Eligibility.Analysis.{is_unassessed}

pub data DifficultyBand : Type 0 where
  intro easy medium hard : DifficultyBand

-- `15`, `30`, `60` and `90`
pub data EffortBoundaryMinutes : Type 0 where
  m15 m30 m60 m90 : EffortBoundaryMinutes

pub record CandidateNode : Type 0 where
  pub stable_id : Text
  pub order_index : ℤ
  pub title : Text

pub record CandidateEdge : Type 0 where
  pub from_stable_id : Text
  pub to_stable_id : Text

pub record PracticeTask : Type 0 where
  pub stable_id : Text
  pub title : Text
  pub difficulty_band : DifficultyBand

pub record Completion : Type 0 where
  pub practice_task_id : Text
  pub completed_at : Option Text

-- `resources_by_node` holds the `review_status` of a resource that is not null.
pub record CandidateTaskSelectorInput : Type 0 where
  pub nodes : List CandidateNode
  pub edges : List CandidateEdge
  pub practices_by_node : List (Text × List PracticeTask)
  pub resources_by_node : List (Text × Option Text)
  pub prerequisites_by_node : List (Text × List Text)
  pub baselines_by_node : BaselineMap
  pub abilities_by_node : AbilityMap
  pub recently_skipped : List Text
  pub recent_completions : List Completion
  pub goal_primary_node_id : Option Text
  pub goal_interest_node_ids : List Text
  pub effort_boundary_minutes : EffortBoundaryMinutes

pub record PracticeTaskRef : Type 0 where
  pub task_id : Text
  pub node_id : Text
  pub title : Text
  pub difficulty_band : DifficultyBand
  pub reason_codes : List Text

pub record Alternatives : Type 0 where
  pub warmup : Option PracticeTaskRef
  pub same_goal_alternative : Option PracticeTaskRef
  pub weakness_review : Option PracticeTaskRef

pub data CandidateTaskSelectorResult : Type 0 where
  chosen : (primary : PracticeTaskRef) → Alternatives → CandidateTaskSelectorResult
  no_candidate : (reason : Text) → CandidateTaskSelectorResult

unfoldable pub difficulty_ordinal : DifficultyBand → ℕ
difficulty_ordinal intro = 0
difficulty_ordinal easy = 1
difficulty_ordinal medium = 2
difficulty_ordinal hard = 3

-- `EFFORT_PREFERENCE[minutes].indexOf(band)`
unfoldable pub effort_index : EffortBoundaryMinutes → DifficultyBand → ℕ
effort_index m15 intro = 0
effort_index m15 easy = 1
effort_index m15 medium = 2
effort_index m15 hard = 3
effort_index m30 easy = 0
effort_index m30 intro = 1
effort_index m30 medium = 2
effort_index m30 hard = 3
effort_index m60 medium = 0
effort_index m60 easy = 1
effort_index m60 hard = 2
effort_index m60 intro = 3
effort_index m90 hard = 0
effort_index m90 medium = 1
effort_index m90 easy = 2
effort_index m90 intro = 3

pub record Candidate : Type 0 where
  pub task_id : Text
  pub node_id : Text
  pub title : Text
  pub difficulty_band : DifficultyBand
  pub order_index : ℤ
  pub reason_codes : List Text

-- The ids that the edges from an id lead to, where the id is that of a node.
unfoldable pub next_of : CandidateTaskSelectorInput → Text → List CandidateEdge → List Text
next_of input id [] = []
next_of input id (e ∷ es) =
    let rest = next_of input id es in
    if eq_text e.from_stable_id id && any_of (λ n. eq_text n.stable_id id) input.nodes
    then e.to_stable_id ∷ rest
    else rest

-- The loop over the successors of an id, over the set and the stack (its top first).
unfoldable pub push_new : List Text → List Text → List Text → List Text × List Text
push_new [] out stack = (out, stack)
push_new (n ∷ ns) out stack =
    push_new ns (if not (has n out) then out ++ n ∷ [] else out)
      (if not (has n out) then n ∷ stack else stack)

-- The `while` loop of `transitiveDescendants`; `none` means that the fuel ran out.
unfoldable pub descend : CandidateTaskSelectorInput → ℕ → List Text → List Text → Option (List Text)
unfolding push_new next_of
descend input zero out stack = none
descend input (suc fuel) out [] = some out
descend input (suc fuel) out (cur ∷ stack) =
    let pushed = push_new (next_of input cur input.edges) out stack in
    descend input fuel pushed.0 pushed.1

unfoldable pub transitive_descendants : CandidateTaskSelectorInput → Text → Option (List Text)
unfolding descend
transitive_descendants input start =
    descend input (suc (suc (length input.edges))) (start ∷ []) (start ∷ [])

-- `primarySet`
unfoldable pub primary_set : CandidateTaskSelectorInput → Option (List Text)
unfolding transitive_descendants
primary_set input = elim input.goal_primary_node_id [
  | none ↦ some []
  | some id ↦ transitive_descendants input id
]

unfoldable pub add_all : List Text → List Text → List Text
add_all [] out = out
add_all (n ∷ ns) out = add_all ns (add n out)

-- `interestSet`, from the ids and what is in it already.
unfoldable pub interest_set :
    CandidateTaskSelectorInput → List Text → List Text → Option (List Text)
unfolding transitive_descendants add_all
interest_set input [] out = some out
interest_set input (id ∷ ids) out = elim (transitive_descendants input id) [
  | none ↦ none
  | some found ↦ interest_set input ids (add_all found out)
]

-- A baseline that blocks; a missing one does not.
unfoldable pub blocks : Option BaselineLevel → Bool
blocks none = false
blocks (some BaselineLevel.unknown) = true
blocks (some BaselineLevel.needs_foundation) = true
blocks (some BaselineLevel.self_reported) = true
blocks (some BaselineLevel.ready) = false

-- `record[key] ?? []`
abbrev pub or_empty {ℓ} : {A : Type ℓ} → Option (List A) → List A
or_empty none = []
or_empty (some xs) = xs

-- `resource.review_status === "reviewed"` for a resource that is there
abbrev pub has_reviewed : Option (Option Text) → Bool
has_reviewed none = false
has_reviewed (some none) = false
has_reviewed (some (some status)) = eq_text status (units "reviewed")

-- The checks of the loop that determines eligibility.
unfoldable pub is_eligible : CandidateTaskSelectorInput → Text → Bool
unfolding blocks
is_eligible input id =
    has_reviewed (get id input.resources_by_node)
    && not (is_empty (or_empty (get id input.practices_by_node)))
    && not (
        any_of (λ p. blocks (get p input.baselines_by_node))
          (or_empty (get id input.prerequisites_by_node)))

unfoldable pub eligible_nodes :
    CandidateTaskSelectorInput → List Text → List CandidateNode → List Text
unfolding is_eligible
eligible_nodes input out [] = out
eligible_nodes input out (n ∷ ns) =
    eligible_nodes input (if is_eligible input n.stable_id then add n.stable_id out else out) ns
