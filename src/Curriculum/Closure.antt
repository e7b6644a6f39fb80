-- ===== src/Curriculum/Closure.antt =====
-- Prerequisite closures: `prerequisiteClosure`, `successors` and the breadth-first search
-- `transitiveNeighbors` behind them. The search takes fuel; Closure/Fuel shows that what
-- `transitive_neighbors` gives it is enough.
pub mod Fuel
pub mod Reach
pub mod Depends
use ai_coding_training_platf.Common.{
  Bool, true, false, not, Option, none, some, List, [], ◌∷◌, ◌++◌, ℕ, zero, suc, ◌+◌, Text, lt_text,
  if◌then◌else◌, filter_by, length,
}
use ai_coding_training_platf.Common.Maps.{has, add, get, put}
use ai_coding_training_platf.Common.Sort.{sort}
use ai_coding_training_platf.Curriculum.{KnowledgeEdge, is_required}

abbrev pub Adjacency : Type 0
Adjacency = List (Text × List Text)

-- The set that a map holds for a key, empty where it has none.
unfoldable pub bucket : Text → Adjacency → List Text
bucket k m = elim (get k m) [ none ↦ [] | some b ↦ b ]

-- One turn of the loop of `buildPredecessorMap` and of `buildSuccessorMap`.
unfoldable pub link : Text → Text → Adjacency → Adjacency
link k v m = elim (get k m) [ none ↦ put k (v ∷ []) m | some b ↦ put k (add v b) m ]

unfoldable pub predecessors_from : Adjacency → List KnowledgeEdge → Adjacency
predecessors_from m [] = m
predecessors_from m (e ∷ es) =
    predecessors_from
      (if is_required e.edge_type then link e.to_stable_id e.from_stable_id m else m) es

unfoldable pub build_predecessor_map : List KnowledgeEdge → Adjacency
unfolding predecessors_from
build_predecessor_map = predecessors_from []

unfoldable pub successors_from : Adjacency → List KnowledgeEdge → Adjacency
successors_from m [] = m
successors_from m (e ∷ es) =
    successors_from (if is_required e.edge_type then link e.from_stable_id e.to_stable_id m else m)
      es

unfoldable pub build_successor_map : List KnowledgeEdge → Adjacency
unfolding successors_from
build_successor_map = successors_from []

-- The neighbours that the inner loop pushes.
unfoldable pub fresh : List Text → List Text → List Text
fresh visited next = filter_by (λ n. not (has n visited)) next

unfoldable pub push_neighbors : Adjacency → Text → List Text → List Text → List Text
push_neighbors adjacency current visited queue = elim (get current adjacency) [
  | none ↦ queue
  | some next ↦ queue ++ fresh visited next
]

-- The `while` loop of `transitiveNeighbors`; `none` means that the fuel ran out.
unfoldable pub search_from : Adjacency → ℕ → List Text → List Text → Option (List Text)
search_from adjacency zero visited queue = none
search_from adjacency (suc fuel) visited [] = some visited
search_from adjacency (suc fuel) visited (current ∷ queue) =
    let visited' = visited ++ current ∷ [] in
    let skip = search_from adjacency fuel visited queue in
    let visit =
      search_from adjacency fuel visited' (push_neighbors adjacency current visited' queue) in
    if has current visited then skip else visit

-- How many pushes the sets of the keys that are not visited can still make.
unfoldable pub weight : List Text → Adjacency → ℕ
weight visited [] = 0
weight visited ((k, b) ∷ m) =
    let rest = weight visited m in if has k visited then rest else length b + rest

unfoldable pub transitive_neighbors : Text → Adjacency → Option (List Text)
transitive_neighbors start adjacency =
    let direct = bucket start adjacency in
    search_from adjacency (suc (length direct + weight [] adjacency)) [] direct

unfoldable pub prerequisite_closure : Text → List KnowledgeEdge → Option (List Text)
prerequisite_closure stable_id edges =
    elim (transitive_neighbors stable_id (build_predecessor_map edges)) [
      | none ↦ none
      | some found ↦ some (sort lt_text found)
    ]

unfoldable pub successors : Text → List KnowledgeEdge → Option (List Text)
successors stable_id edges = elim (transitive_neighbors stable_id (build_successor_map edges)) [
  | none ↦ none
  | some found ↦ some (sort lt_text found)
]
