-- ===== src/Curriculum/Eligibility/Scenarios.antt =====
-- A learner and two nodes, over which the theorems of Eligibility are applied.
use ai_coding_training_platf.Common.{
  Text, List, [], ◌∷◌, none, some, true, ◌≡◌, ◌↔◌, refl, units, eq_text, Each,
}
use ai_coding_training_platf.Common.Int.{pos}
use ai_coding_training_platf.Common.Maps.{get, has}
use ai_coding_training_platf.Common.Sort.{sort}
use ai_coding_training_platf.Curriculum.{
  KnowledgeNode, KnowledgeNodeStatus, KnowledgeEdge, required_prerequisite,
}
use ai_coding_training_platf.Curriculum.Closure.Depends.{DependsOn}
use ai_coding_training_platf.Curriculum.Order.{compare_knowledge_nodes}
use ai_coding_training_platf.Curriculum.Order.Build.{ids}
use ai_coding_training_platf.Curriculum.Order.Correct.{Distinct}
use ai_coding_training_platf.Curriculum.Eligibility.{
  LearningResourceRow, PracticeTaskRow, ResourceSnapshot, PracticeSnapshot, Evaluation,
  evaluate_node_eligibility, BaselineLevel, BaselineMap, EligibilityResult,
}
use ai_coding_training_platf.Curriculum.Eligibility.Analysis.{analyze_node_eligibility}
use ai_coding_training_platf.Curriculum.Eligibility.Projection.{
  Learner, GraphEligibilitySnapshot, analyze_graph_eligibility, nothing_noted, analyze_in,
}
use ai_coding_training_platf.Curriculum.Eligibility.Available.{
  is_offered, analyze_node_eligibility_iff, analyze_node_eligibility-evaluate,
}
use ai_coding_training_platf.Curriculum.Eligibility.Summary.{
  Projects, analyze_graph_eligibility-Projects,
}

abbrev node_of : Text → KnowledgeNode
node_of id = record {
  stable_id = id;
  title = id;
  outcome = id;
  rationale = id;
  order_index = pos 1;
  status = KnowledgeNodeStatus.published;
  provenance = record {
    authority = units "team";
    url = units "https://example.org";
    retrieved_at = units "2026-03-01T12:00:00.000Z";
  };
  stopping_guidance = id;
}

abbrev arrays : KnowledgeNode
arrays = node_of (units "arrays")

abbrev loops : KnowledgeNode
loops = node_of (units "loops")

abbrev edges : List KnowledgeEdge
edges =
    record {
      from_stable_id = units "arrays";
      to_stable_id = units "loops";
      edge_type = required_prerequisite;
    }
    ∷ []

abbrev resource : LearningResourceRow
resource = record {
  id = units "1";
  stable_id = units "r";
  title = units "r";
  url = units "https://example.org";
  author = units "a";
  language = units "en";
  cost = units "free";
  access = units "open";
  license_boundary = units "link";
  review_status = units "reviewed";
  reviewed_at = units "2026-03-01";
  stopping_guidance = units "s";
  package_id = units "p";
}

abbrev task : PracticeTaskRow
task = record {
  id = units "1";
  stable_id = units "t";
  canonical_problem_id = units "c";
  title = units "t";
  kind = units "oj";
  difficulty_band = units "easy";
  package_id = units "p";
}

abbrev resources : ResourceSnapshot
resources = record { primary = some resource; review_status = some (units "reviewed") }

abbrev practices : PracticeSnapshot
practices = record { tasks = task ∷ [] }

abbrev baselines : BaselineMap
baselines = (units "arrays", BaselineLevel.ready) ∷ []

abbrev learner : Learner
learner = record {
  edges = edges;
  resources = (units "arrays", resources) ∷ (units "loops", resources) ∷ [];
  practices = (units "loops", practices) ∷ [];
  prerequisites = [];
  baselines = baselines;
  abilities = [];
}

analyze_node_eligibility_iff_example :
    (r : EligibilityResult) × (analyze_node_eligibility loops edges resources practices none
        baselines []
      ≡ some r)
    × ((r.is_available ≡ true) ↔ (
        (is_offered loops resources practices ≡ true)
        × ((p : Text)
            → DependsOn edges loops.stable_id p
            → get p baselines ≡ some BaselineLevel.ready)))
analyze_node_eligibility_iff_example =
    analyze_node_eligibility_iff loops edges resources practices baselines []

analyze_node_eligibility-evaluate_example :
    (r : EligibilityResult) × (analyze_node_eligibility loops edges resources practices
        (some (units "arrays" ∷ []))
        baselines
        []
      ≡ some r)
    × ((r.is_available ≡ true) ↔ (
        (evaluate_node_eligibility loops resources practices ≡ Evaluation.available)
        × ((p : Text)
            → has p (units "arrays" ∷ []) ≡ true
            → get p baselines ≡ some BaselineLevel.ready)))
analyze_node_eligibility-evaluate_example =
    analyze_node_eligibility-evaluate loops edges resources practices (units "arrays" ∷ [])
      baselines []

nodes-Distinct : Distinct (ids (loops ∷ arrays ∷ []))
unfolding has eq_text
nodes-Distinct = (refl, (refl, tt))

analyze_graph_eligibility-Projects_example :
    (h : GraphEligibilitySnapshot) × (analyze_graph_eligibility learner (loops ∷ arrays ∷ [])
      ≡ some h)
    × Projects learner nothing_noted (sort compare_knowledge_nodes (loops ∷ arrays ∷ [])) h
    × Each
        (λ n. get n.stable_id h.per_node ≡ analyze_in learner n)
        (sort compare_knowledge_nodes (loops ∷ arrays ∷ []))
analyze_graph_eligibility-Projects_example =
    analyze_graph_eligibility-Projects learner (loops ∷ arrays ∷ []) nodes-Distinct
