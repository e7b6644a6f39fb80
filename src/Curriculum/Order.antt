-- ===== src/Curriculum/Order.antt =====
-- The topological order of the published nodes, `orderPublishedNodes`: Kahn's algorithm over maps
-- of successors and of degrees. The loop takes fuel; Order/Fuel shows that it has enough.
pub mod Fuel
pub mod Count
pub mod Build
pub mod Loop
pub mod Correct
pub mod Acyclic
use ai_coding_training_platf.Common.{
  Bool, false, not, ◌&&◌, Option, none, some, List, [], ◌∷◌, ◌++◌, ℕ, zero, suc, ◌+◌, Text, lt_text,
  ◌==◌, if◌then◌else◌, length, is_none,
}
use ai_coding_training_platf.Common.Int.{ℤ, pos, negsuc, pos_part, ltb_ℤ, eqb_ℤ}
use ai_coding_training_platf.Common.Maps.{get, put}
use ai_coding_training_platf.Common.Sort.{sort}
use ai_coding_training_platf.Curriculum.{KnowledgeNode, KnowledgeEdge, is_required}
use ai_coding_training_platf.Curriculum.Closure.{Adjacency}

-- `compareKnowledgeNodes(a, b) < 0`
unfoldable pub compare_knowledge_nodes : KnowledgeNode → KnowledgeNode → Bool
compare_knowledge_nodes a b =
    if not (eqb_ℤ a.order_index b.order_index)
    then ltb_ℤ a.order_index b.order_index
    else lt_text a.stable_id b.stable_id

abbrev pub NodesById : Type 0
NodesById = List (Text × KnowledgeNode)

-- `compareStableIds(nodesByStableId, a, b) < 0`
unfoldable pub compare_stable_ids : NodesById → Text → Text → Bool
unfolding compare_knowledge_nodes
compare_stable_ids by_id a b = elim (get a by_id) [
  | none ↦ lt_text a b
  | some node_a ↦ elim (get b by_id) [
    | none ↦ lt_text a b
    | some node_b ↦ compare_knowledge_nodes node_a node_b
  ]
]

abbrev pub Degrees : Type 0
Degrees = List (Text × ℤ)

unfoldable pub nodes_by_stable_id : NodesById → List KnowledgeNode → NodesById
nodes_by_stable_id m [] = m
nodes_by_stable_id m (n ∷ ns) = nodes_by_stable_id (put n.stable_id n m) ns

unfoldable pub no_adjacency : Adjacency → List KnowledgeNode → Adjacency
no_adjacency m [] = m
no_adjacency m (n ∷ ns) = no_adjacency (put n.stable_id [] m) ns

unfoldable pub no_degrees : Degrees → List KnowledgeNode → Degrees
no_degrees m [] = m
no_degrees m (n ∷ ns) = no_degrees (put n.stable_id (pos 0) m) ns

-- `inDegree.get(id) ?? 0`
unfoldable pub degree : Text → Degrees → ℤ
degree id m = elim (get id m) [ none ↦ pos 0 | some d ↦ d ]

-- `d + 1` and `d - 1`
abbrev pub up : ℤ → ℤ
up (pos n) = pos (suc n)
up (negsuc zero) = pos 0
up (negsuc (suc n)) = negsuc n

abbrev pub down : ℤ → ℤ
down (pos zero) = negsuc 0
down (pos (suc n)) = pos n
down (negsuc n) = negsuc (suc n)

-- The maps that the loop over the edges fills.
pub record Graph : Type 0 where
  pub adjacency : Adjacency
  pub in_degree : Degrees

-- An edge that the loop does not skip: required, between given nodes.
unfoldable pub counts : NodesById → KnowledgeEdge → Bool
counts by_id e =
    is_required e.edge_type
    && not (is_none (get e.from_stable_id by_id))
    && not (is_none (get e.to_stable_id by_id))

unfoldable pub count_edge : NodesById → Graph → KnowledgeEdge → Graph
unfolding counts degree
count_edge by_id g e = if not (counts by_id e) then g else elim (get e.from_stable_id g.adjacency) [
  | none ↦ g
  | some next ↦ record {
    adjacency = put e.from_stable_id (next ++ e.to_stable_id ∷ []) g.adjacency;
    in_degree = put e.to_stable_id (up (degree e.to_stable_id g.in_degree)) g.in_degree;
  }
]

unfoldable pub count_edges : NodesById → Graph → List KnowledgeEdge → Graph
unfolding count_edge
count_edges by_id g [] = g
count_edges by_id g (e ∷ es) = count_edges by_id (count_edge by_id g e) es

-- The ids of the nodes without predecessors, in the order of `sortedNodes`.
unfoldable pub initial_queue : Degrees → List KnowledgeNode → List Text
unfolding degree
initial_queue m [] = []
initial_queue m (n ∷ ns) =
    let rest = initial_queue m ns in
    if eqb_ℤ (degree n.stable_id m) (pos 0) then n.stable_id ∷ rest else rest

-- The loop over the successors of a node.
unfoldable pub release : List Text → Degrees → List Text → Degrees × List Text
unfolding degree
release [] m queue = (m, queue)
release (s ∷ ss) m queue =
    let next = down (degree s m) in
    release ss (put s next m) (if eqb_ℤ next (pos 0) then queue ++ s ∷ [] else queue)

-- `adjacency.get(current) ?? []`
unfoldable pub targets : Text → Adjacency → List Text
targets id m = elim (get id m) [ none ↦ [] | some next ↦ next ]

-- The `while` loop; `none` means that the fuel ran out.
unfoldable pub order_from :
    NodesById
    → Adjacency
    → ℕ
    → Degrees
    → (queue : List Text) → (result : List KnowledgeNode) → Option (List KnowledgeNode)
unfolding release targets compare_stable_ids
order_from by_id adjacency zero m queue result = none
order_from by_id adjacency (suc fuel) m [] result = some result
order_from by_id adjacency (suc fuel) m (current ∷ queue) result =
    let released = release (sort (compare_stable_ids by_id) (targets current adjacency)) m queue in
    let skip = order_from by_id adjacency fuel m queue result in
    elim (get current by_id) [
      | none ↦ skip
      | some node ↦ order_from by_id adjacency fuel released.0 released.1 (result ++ node ∷ [])
    ]

-- How often the loop can still push.
unfoldable pub total : Degrees → ℕ
total [] = 0
total ((k, d) ∷ m) = pos_part d + total m

pub data PublishedOrder : Type 0 where
  ordered : List KnowledgeNode → PublishedOrder
  cycle_error : PublishedOrder
  out_of_fuel : PublishedOrder

-- The maps after the loop over the edges.
unfoldable pub graph_of : List KnowledgeNode → List KnowledgeEdge → Graph
unfolding nodes_by_stable_id no_adjacency no_degrees count_edges
graph_of nodes edges =
    count_edges (nodes_by_stable_id [] nodes)
      (record { adjacency = no_adjacency [] nodes; in_degree = no_degrees [] nodes }) edges

unfoldable pub order_published_nodes : List KnowledgeNode → List KnowledgeEdge → PublishedOrder
unfolding nodes_by_stable_id graph_of initial_queue order_from total compare_knowledge_nodes
order_published_nodes nodes edges =
    let by_id = nodes_by_stable_id [] nodes in
    let g = graph_of nodes edges in
    let queue = initial_queue g.in_degree (sort compare_knowledge_nodes nodes) in
    elim (order_from by_id g.adjacency (suc (length queue + total g.in_degree)) g.in_degree queue
      []) [
        | none ↦ out_of_fuel
        | some result ↦ if length result == length nodes then ordered result else cycle_error
      ]
