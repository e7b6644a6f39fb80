-- ===== src/Curriculum/Scenarios.antt =====
-- A small graph of curriculumGraph.ts, over which the theorems of Curriculum are applied.
use ai_coding_training_platf.Common.{
  List, Text, [], eq_text, filter_by, lt_text, refl, some, true, units, ◌↔◌, ◌∷◌, ◌≡◌,
}
use ai_coding_training_platf.Common.Maps.{get, has, put}
use ai_coding_training_platf.Common.Sort.{IsSorted, sort}
use ai_coding_training_platf.Curriculum.{
  KnowledgeEdge, required_prerequisite, recommended_prerequisite,
}
use ai_coding_training_platf.Curriculum.Closure.{
  bucket, build_predecessor_map, fresh, link, prerequisite_closure, push_neighbors, search_from,
  successors, transitive_neighbors, weight,
}
use ai_coding_training_platf.Curriculum.Closure.Depends.{
  DependsOn, IsRequiredBy, prerequisite_closure_lem, successors_lem,
}
use ai_coding_training_platf.Common.{ℕ, ◌≢◌, if◌then◌else◌, arith}
use ai_coding_training_platf.Common.Int.{pos}
use ai_coding_training_platf.Curriculum.{KnowledgeNode, published}
use ai_coding_training_platf.Curriculum.Order.{
  ordered, cycle_error, out_of_fuel, order_published_nodes,
}
use ai_coding_training_platf.Curriculum.Order.Build.{ids}
use ai_coding_training_platf.Curriculum.Order.Correct.{Distinct}
use ai_coding_training_platf.Curriculum.Order.Fuel.{order_published_nodes_total}
use ai_coding_training_platf.Curriculum.Order.Acyclic.{
  Acyclic, IsOrder, orders, order_published_nodes-IsOrder, order_published_nodes-Acyclic,
}

-- Loops need arrays, recursion needs loops, and trees need recursion; graphs only recommend trees.
abbrev edges : List KnowledgeEdge
edges =
    record {
      from_stable_id = units "arrays";
      to_stable_id = units "loops";
      edge_type = required_prerequisite;
    }
    ∷ record {
      from_stable_id = units "loops";
      to_stable_id = units "recursion";
      edge_type = required_prerequisite;
    }
    ∷ record {
      from_stable_id = units "recursion";
      to_stable_id = units "trees";
      edge_type = required_prerequisite;
    }
    ∷ record {
      from_stable_id = units "trees";
      to_stable_id = units "graphs";
      edge_type = recommended_prerequisite;
    }
    ∷ []

prerequisite_closure_lem_example :
    (r : List Text) × (prerequisite_closure (units "trees") edges ≡ some r)
    × IsSorted lt_text r
    × ((x : Text) → (has x r ≡ true) ↔ DependsOn edges (units "trees") x)
prerequisite_closure_lem_example = prerequisite_closure_lem (units "trees") edges

successors_lem_example :
    (r : List Text) × (successors (units "arrays") edges ≡ some r)
    × IsSorted lt_text r
    × ((x : Text) → (has x r ≡ true) ↔ IsRequiredBy edges (units "arrays") x)
successors_lem_example = successors_lem (units "arrays") edges

prerequisite_closure_trees :
    prerequisite_closure (units "trees") edges
    ≡ some (units "arrays" ∷ units "loops" ∷ units "recursion" ∷ [])
unfolding prerequisite_closure transitive_neighbors search_from bucket get build_predecessor_map
    link put eq_text has weight push_neighbors fresh filter_by sort lt_text
prerequisite_closure_trees = refl

abbrev node_at : Text → ℕ → KnowledgeNode
node_at id at = record {
  stable_id = id;
  title = id;
  outcome = id;
  rationale = id;
  order_index = pos at;
  status = published;
  provenance = record {
    authority = units "team";
    url = units "https://example.org";
    retrieved_at = units "2026-03-01T12:00:00.000Z";
  };
  stopping_guidance = id;
}

abbrev nodes : List KnowledgeNode
nodes =
    node_at (units "recursion") 1
    ∷ node_at (units "loops") 2
    ∷ node_at (units "arrays") 3
    ∷ node_at (units "graphs") 4
    ∷ []

abbrev in_order : List KnowledgeNode
in_order =
    node_at (units "arrays") 3
    ∷ node_at (units "graphs") 4
    ∷ node_at (units "loops") 2
    ∷ node_at (units "recursion") 1
    ∷ []

abbrev rank : Text → ℕ
rank t = if eq_text t (units "recursion") then 2 else if eq_text t (units "loops") then 1 else 0

nodes-Distinct : Distinct (ids nodes)
unfolding has eq_text
nodes-Distinct = (refl, (refl, (refl, (refl, tt))))

nodes-Acyclic : Acyclic nodes edges
unfolding eq_text orders has
nodes-Acyclic = (
  rank,
  (
    λ _. omega arith,
    (λ _. omega arith, (λ h. absurd (ground arith), (λ h. absurd (ground arith), tt))),
  ),
)

nodes_ordered : order_published_nodes nodes edges ≡ ordered in_order
unfolding order_published_nodes sort get put eq_text
nodes_ordered = refl

order_published_nodes_total_example : order_published_nodes nodes edges ≢ out_of_fuel
order_published_nodes_total_example = order_published_nodes_total nodes edges

order_published_nodes-IsOrder_example : IsOrder nodes edges in_order
order_published_nodes-IsOrder_example =
    order_published_nodes-IsOrder nodes edges nodes-Distinct nodes_ordered

order_published_nodes-Acyclic_example :
    (r : List KnowledgeNode) × (order_published_nodes nodes edges ≡ ordered r)
order_published_nodes-Acyclic_example =
    order_published_nodes-Acyclic nodes edges nodes-Distinct nodes-Acyclic

abbrev cyclic : List KnowledgeEdge
cyclic =
    record {
      from_stable_id = units "recursion";
      to_stable_id = units "arrays";
      edge_type = required_prerequisite;
    }
    ∷ edges

cycle_found : order_published_nodes nodes cyclic ≡ cycle_error
unfolding order_published_nodes sort get put eq_text
cycle_found = refl
