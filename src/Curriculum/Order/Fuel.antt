-- ===== src/Curriculum/Order/Fuel.antt =====
-- The fuel of Kahn's loop suffices, whatever the nodes and edges.
use ai_coding_training_platf.Common.{
  none, List, [], ◌∷◌, ◌++◌, ℕ, zero, suc, ◌+◌, ◌≤◌, ◌<◌, Text, length, length-append, ◌≡◌, ◌≢◌,
  arith, Option-cases, inl, inr, if◌then◌else◌,
}
use ai_coding_training_platf.Common.Int.{ℤ, pos, pos_part, eqb_ℤ}
use ai_coding_training_platf.Common.Maps.{get, put}
use ai_coding_training_platf.Common.Sort.{sort}
use ai_coding_training_platf.Curriculum.{KnowledgeNode, KnowledgeEdge}
use ai_coding_training_platf.Curriculum.Closure.{Adjacency}
use ai_coding_training_platf.Curriculum.Order.{
  NodesById, Degrees, degree, down, release, targets, compare_stable_ids, order_from, total,
  out_of_fuel, order_published_nodes, graph_of, initial_queue, compare_knowledge_nodes,
  nodes_by_stable_id,
}

-- Writing a degree moves the total by the change of that degree.
total-put :
    (k : Text) (d : ℤ) (m : Degrees)
    → total (put k d m) + pos_part (degree k m) ≡ total m + pos_part d
unfolding total put get degree
total-put k d [] = omega arith
total-put k d ((j, c) ∷ m) = ground (arith, total-put k d m)

release-total :
    (ss : List Text) (m : Degrees) (q : List Text)
    → length (release ss m q).1 + total (release ss m q).0 ≤ length q + total m
unfolding release
release-total [] m q = omega arith
release-total (s ∷ ss) m q =
    let next = down (degree s m) in
    let step = release-total ss (put s next m) (if eqb_ℤ next (pos 0) then q ++ s ∷ [] else q) in
    ground (arith, step, total-put s next m, length-append {0} q (s ∷ []))

order_from-total :
    (by_id : NodesById) (adjacency : Adjacency) (fuel : ℕ) (m : Degrees) (q : List Text)
    (result : List KnowledgeNode)
    → length q + total m < fuel
    → order_from by_id adjacency fuel m q result ≢ none
unfolding order_from
order_from-total by_id adjacency zero m q result h = absurd (omega arith)
order_from-total by_id adjacency (suc fuel) m [] result h = ground arith
order_from-total by_id adjacency (suc fuel) m (c ∷ q) result h = elim (Option-cases (get c by_id)) [
  | inl e ↦ rw (e, order_from) (order_from-total by_id adjacency fuel m q result (omega arith))
  | inr (node, e) ↦
      let ss = sort (compare_stable_ids by_id) (targets c adjacency) in
      rw (e, order_from)
        (order_from-total by_id adjacency fuel (release ss m q).0 (release ss m q).1
          (result ++ node ∷ []) (omega (arith, release-total ss m q)))
]

-- For any nodes and edges, also with repeated ids and cycles, the order is computed within its
-- fuel: the loop ends.
pub order_published_nodes_total :
    (nodes : List KnowledgeNode) (edges : List KnowledgeEdge)
    → order_published_nodes nodes edges ≢ out_of_fuel
unfolding order_published_nodes
order_published_nodes_total nodes edges =
    let by_id = nodes_by_stable_id [] nodes in
    let g = graph_of nodes edges in
    let queue = initial_queue g.in_degree (sort compare_knowledge_nodes nodes) in
    let ends =
      order_from-total by_id g.adjacency (suc (length queue + total g.in_degree)) g.in_degree queue
        [] (omega arith) in
    ground (arith, ends)
