-- ===== src/Curriculum.antt =====
-- The knowledge graph of lib/services/curriculumGraph.ts, over the types of
-- lib/domain/curriculum.ts.
pub mod Closure
pub mod Order
pub mod Eligibility
mod Scenarios
use ai_coding_training_platf.Common.{Bool, true, false, List, Text}
use ai_coding_training_platf.Common.Int.{ℤ}

pub data KnowledgeNodeStatus : Type 0 where
  planned draft published deprecated : KnowledgeNodeStatus

pub data KnowledgeEdgeType : Type 0 where
  required_prerequisite recommended_prerequisite : KnowledgeEdgeType

pub record KnowledgeEdge : Type 0 where
  pub from_stable_id : Text
  pub to_stable_id : Text
  pub edge_type : KnowledgeEdgeType

pub record KnowledgeNodeProvenance : Type 0 where
  pub authority : Text
  pub url : Text
  pub retrieved_at : Text

pub record KnowledgeNode : Type 0 where
  pub stable_id : Text
  pub title : Text
  pub outcome : Text
  pub rationale : Text
  pub order_index : ℤ
  pub status : KnowledgeNodeStatus
  pub provenance : KnowledgeNodeProvenance
  pub stopping_guidance : Text

-- `edge.edge_type === "required_prerequisite"`
abbrev pub is_required : KnowledgeEdgeType → Bool
is_required required_prerequisite = true
is_required recommended_prerequisite = false
