-- ===== src/Curriculum/Eligibility/Projection.antt =====
-- `analyzeGraphEligibility` of lib/services/prerequisiteAnalysis.ts.
use ai_coding_training_platf.Common.{
  Bool, true, false, not, Option, none, some, List, [], ◌∷◌, ◌++◌, Text, if◌then◌else◌,
}
use ai_coding_training_platf.Common.Maps.{get, put}
use ai_coding_training_platf.Common.Sort.{sort}
use ai_coding_training_platf.Curriculum.{KnowledgeNode, KnowledgeEdge}
use ai_coding_training_platf.Curriculum.Order.{compare_knowledge_nodes}
use ai_coding_training_platf.Curriculum.Eligibility.{
  ResourceSnapshot, PracticeSnapshot, PrerequisiteReason, EligibilityResult, BaselineMap,
  AbilityMap,
}
use ai_coding_training_platf.Curriculum.Eligibility.Analysis.{analyze_node_eligibility}

-- What `analyzeGraphEligibility` reads for each node.
pub record Learner : Type 0 where
  pub edges : List KnowledgeEdge
  pub resources : List (Text × ResourceSnapshot)
  pub practices : List (Text × PracticeSnapshot)
  pub prerequisites : List (Text × List Text)
  pub baselines : BaselineMap
  pub abilities : AbilityMap

pub record GraphEligibilitySnapshot : Type 0 where
  pub per_node : List (Text × EligibilityResult)
  pub ready_for_learning : List Text
  pub ready_for_practice : List Text
  pub unavailable : List Text

-- `resources.get(node.stable_id) ?? { primary: null, reviewStatus: null }`
unfoldable pub resources_of : KnowledgeNode → List (Text × ResourceSnapshot) → ResourceSnapshot
resources_of node m = elim (get node.stable_id m) [
  | none ↦ record { primary = none; review_status = none }
  | some r ↦ r
]

-- `practices.get(node.stable_id) ?? { tasks: [] }`
unfoldable pub practices_of : KnowledgeNode → List (Text × PracticeSnapshot) → PracticeSnapshot
practices_of node m = elim (get node.stable_id m) [ none ↦ record { tasks = [] } | some p ↦ p ]

unfoldable pub analyze_in : Learner → KnowledgeNode → Option EligibilityResult
unfolding analyze_node_eligibility resources_of practices_of
analyze_in l node =
    analyze_node_eligibility node l.edges (resources_of node l.resources)
      (practices_of node l.practices) (get node.stable_id l.prerequisites) l.baselines l.abilities

abbrev pub is_learning : PrerequisiteReason → Bool
is_learning PrerequisiteReason.ready_for_learning = true
is_learning _ = false

-- One turn of the loop, with the node's result.
unfoldable pub note_result :
    GraphEligibilitySnapshot → Text → EligibilityResult → GraphEligibilitySnapshot
note_result g id result =
    let noted = record g { per_node = put id result g.per_node } in
    if not result.is_available
    then record noted { unavailable = g.unavailable ++ id ∷ [] }
    else if is_learning result.reason
    then record noted { ready_for_learning = g.ready_for_learning ++ id ∷ [] }
    else record noted { ready_for_practice = g.ready_for_practice ++ id ∷ [] }

unfoldable pub analyze_nodes :
    Learner → GraphEligibilitySnapshot → List KnowledgeNode → Option GraphEligibilitySnapshot
unfolding analyze_in note_result
analyze_nodes l g [] = some g
analyze_nodes l g (node ∷ nodes) = elim (analyze_in l node) [
  | none ↦ none
  | some result ↦ analyze_nodes l (note_result g node.stable_id result) nodes
]

abbrev pub nothing_noted : GraphEligibilitySnapshot
nothing_noted = record {
  per_node = [];
  ready_for_learning = [];
  ready_for_practice = [];
  unavailable = [];
}

unfoldable pub analyze_graph_eligibility :
    Learner → List KnowledgeNode → Option GraphEligibilitySnapshot
unfolding analyze_nodes compare_knowledge_nodes
analyze_graph_eligibility l nodes =
    analyze_nodes l nothing_noted (sort compare_knowledge_nodes nodes)
