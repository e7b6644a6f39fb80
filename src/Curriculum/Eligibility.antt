-- ===== src/Curriculum/Eligibility.antt =====
-- Which nodes a learner may take up: `evaluateNodeEligibility` of lib/services/curriculumGraph.ts
-- and the analysis over baselines and abilities in lib/services/prerequisiteAnalysis.ts. The
-- records that the code indexes by a node's id are association lists.
pub mod Analysis
pub mod Projection
pub mod Available
pub mod Summary
mod Scenarios
use ai_coding_training_platf.Common.{
  Bool, true, false, not, ◌&&◌, ◌||◌, Option, none, some, List, [], ◌∷◌, ◌++◌, Text, units, eq_text,
  if◌then◌else◌, filter_by, is_none,
}
use ai_coding_training_platf.Common.Maps.{get, put}
use ai_coding_training_platf.Common.Sort.{sort}
use ai_coding_training_platf.Curriculum.{KnowledgeNode, KnowledgeNodeStatus, KnowledgeEdge}
use ai_coding_training_platf.Curriculum.Closure.{prerequisite_closure}
use ai_coding_training_platf.Curriculum.Order.{compare_knowledge_nodes}

pub record LearningResourceRow : Type 0 where
  pub id : Text
  pub stable_id : Text
  pub title : Text
  pub url : Text
  pub author : Text
  pub language : Text
  pub cost : Text
  pub access : Text
  pub license_boundary : Text
  pub review_status : Text
  pub reviewed_at : Text
  pub stopping_guidance : Text
  pub package_id : Text

pub record PracticeTaskRow : Type 0 where
  pub id : Text
  pub stable_id : Text
  pub canonical_problem_id : Text
  pub title : Text
  pub kind : Text
  pub difficulty_band : Text
  pub package_id : Text

pub record ResourceSnapshot : Type 0 where
  pub primary : Option LearningResourceRow
  pub review_status : Option Text

pub record PracticeSnapshot : Type 0 where
  pub tasks : List PracticeTaskRow

pub data EligibilityReasonCode : Type 0 where
  planned draft deprecated missing_reviewed_resource missing_practice_mapping available :
      EligibilityReasonCode

pub data Evaluation : Type 0 where
  available : Evaluation
  unavailable : (reason_code : EligibilityReasonCode) → (message : Text) → Evaluation

-- `reviewStatus === "reviewed"`
abbrev pub is_reviewed : Option Text → Bool
is_reviewed none = false
is_reviewed (some s) = eq_text s (units "reviewed")

abbrev pub is_empty {ℓ} : {A : Type ℓ} → List A → Bool
is_empty [] = true
is_empty (_ ∷ _) = false

-- `Node ${node.stable_id}${text}`
unfoldable pub about_node : KnowledgeNode → Text → Text
about_node node text = units "Node " ++ (node.stable_id ++ text)

unfoldable pub evaluate_node_eligibility :
    KnowledgeNode → ResourceSnapshot → PracticeSnapshot → Evaluation
evaluate_node_eligibility node resources practices = elim node.status [
  | KnowledgeNodeStatus.planned ↦
      unavailable EligibilityReasonCode.planned
        (about_node node (units " is planned and not yet available"))
  | KnowledgeNodeStatus.draft ↦
      unavailable EligibilityReasonCode.draft
        (about_node node (units " is in draft and not yet published"))
  | KnowledgeNodeStatus.deprecated ↦
      unavailable EligibilityReasonCode.deprecated (about_node node (units " is deprecated"))
  | KnowledgeNodeStatus.published ↦
      if is_none resources.primary
        || is_none resources.review_status
        || not (is_reviewed resources.review_status)
      then unavailable EligibilityReasonCode.missing_reviewed_resource
          (about_node node (units " has no reviewed primary resource"))
      else if is_empty practices.tasks
      then unavailable EligibilityReasonCode.missing_practice_mapping
          (about_node node (units " has no practice mapping"))
      else Evaluation.available
]

pub data BaselineLevel : Type 0 where
  unknown needs_foundation self_reported ready : BaselineLevel

pub data AbilityLevel : Type 0 where
  unassessed l1 l2 l3 l4 l5 : AbilityLevel

pub data PrerequisiteReason : Type 0 where
  blocked_status missing_reviewed_resource missing_practice_mapping missing_prerequisite
        needs_diagnostic needs_foundation ready_for_learning ready_for_practice :
      PrerequisiteReason

pub record EligibilityResult : Type 0 where
  pub is_available : Bool
  pub reason : PrerequisiteReason
  pub blocking_node_ids : List Text
  pub message : Text

abbrev pub BaselineMap : Type 0
BaselineMap = List (Text × BaselineLevel)

abbrev pub AbilityMap : Type 0
AbilityMap = List (Text × AbilityLevel)
