-- ===== src/Curriculum/Order/Correct.antt =====
-- What `orderPublishedNodes` gives: the nodes in an order of their required edges, for a graph
-- without cycles always.
use ai_coding_training_platf.Common.{
  false, not, some, List, [], ◌∷◌, ◌++◌, ℕ, zero, suc, ◌+◌, Text, eq_text_iff, length, ◌≡◌, refl,
  ◌∙◌, ap, arith, Option-cases, inl, inr, if◌then◌else◌, is_none, ◌==◌, Each, OneOf, subst,
}
use ai_coding_training_platf.Common.Int.{pos, eqb_ℤ}
use ai_coding_training_platf.Common.Maps.{has, get}
use ai_coding_training_platf.Common.Sort.{sort, insert}
use ai_coding_training_platf.Curriculum.{KnowledgeNode, KnowledgeEdge}
use ai_coding_training_platf.Curriculum.Closure.{Adjacency}
use ai_coding_training_platf.Curriculum.Order.{
  NodesById, Degrees, degree, release, targets, compare_stable_ids, compare_knowledge_nodes,
  order_from, graph_of, nodes_by_stable_id, no_adjacency, no_degrees, initial_queue, ordered,
  cycle_error, order_published_nodes, total, Graph,
}
use ai_coding_training_platf.Curriculum.Order.Count.{count_of, count_of-has}
use ai_coding_training_platf.Curriculum.Order.Build.{
  ids, outs, waiting, nodes_by_stable_id-some, nodes_by_stable_id-has, no_adjacency-get,
  no_degrees-get, count_edges-targets, count_edges-degree, SameKeys,
}
use ai_coding_training_platf.Curriculum.Order.Loop.{Inv, step-Inv}
use ai_coding_training_platf.Curriculum.Order.Fuel.{order_published_nodes_total}

map-snoc :
    (ns : List KnowledgeNode) (n : KnowledgeNode) → ids (ns ++ n ∷ []) ≡ ids ns ++ n.stable_id ∷ []
map-snoc [] n = refl
map-snoc (x ∷ ns) n = ap (λ l. x.stable_id ∷ l) (map-snoc ns n)

Each-snoc :
    (P : KnowledgeNode → Type 0) (ns : List KnowledgeNode) (n : KnowledgeNode)
    → Each P ns
    → P n
    → Each P (ns ++ n ∷ [])
Each-snoc P [] n h p = (p, tt)
Each-snoc P (x ∷ ns) n h p = (h.0, Each-snoc P ns n h.1 p)

-- What the map of nodes holds.
abbrev pub Holds : NodesById → KnowledgeNode → Type 0
Holds by_id n = get n.stable_id by_id ≡ some n

module _ (by_id : NodesById) (edges : List KnowledgeEdge) (adjacency : Adjacency)
    (own : (k : Text) (n : KnowledgeNode) → get k by_id ≡ some n → n.stable_id ≡ k)
    (same : (k : Text) → targets k adjacency ≡ outs by_id k edges) where
  loop-Inv :
      (fuel : ℕ) (m : Degrees) (q : List Text) (result : List KnowledgeNode)
      {r : List KnowledgeNode}
      → Inv by_id edges m q (ids result)
      → Each (Holds by_id) result
      → order_from by_id adjacency fuel m q result ≡ some r
      → ((m' : Degrees) × Inv by_id edges m' [] (ids r)) × Each (Holds by_id) r
  unfolding order_from count_of
  loop-Inv zero m q result i h e = absurd (ground arith)
  loop-Inv (suc fuel) m [] result {r} i h e =
      let is_r : result ≡ r = ground arith in
      subst (λ x. ((m' : Degrees) × Inv by_id edges m' [] (ids x)) × Each (Holds by_id) x) is_r
        ((m, i), h)
  loop-Inv (suc fuel) m (c ∷ q) result {r} i h e = elim (Option-cases (get c by_id)) [
    | inl n ↦ absurd (ground (arith, i.once c, eq_text_iff c c))
    | inr (node, n) ↦
        let is_c = own c node n in
        let next = step-Inv by_id edges (compare_stable_ids by_id) m c q (ids result) i in
        let done = map-snoc result node ∙ ap (λ x. ids result ++ x ∷ []) is_c in
        let held : Holds by_id node = ap (λ x. get x by_id) is_c ∙ n in
        let ss = sort (compare_stable_ids by_id) (targets c adjacency) in
        let released = release ss m q in
        let inv : Inv by_id edges released.0 released.1 (ids (result ++ node ∷ [])) =
          rw (done, same c) next in
        loop-Inv fuel released.0 released.1 (result ++ node ∷ []) {r = r} inv
          (Each-snoc (Holds by_id) result node h held) (rw (n, order_from) at e)
  ]

-- No text stands twice.
abbrev pub Distinct : List Text → Type 0
Distinct [] = Unit
Distinct (x ∷ xs) = (has x xs ≡ false) × Distinct xs

pub count_of-Distinct :
    (v : Text) (xs : List Text) → Distinct xs → count_of v xs ≡ (if has v xs then 1 else 0)
unfolding count_of has
count_of-Distinct v [] h = refl
count_of-Distinct v (x ∷ xs) h =
    ground (arith, count_of-Distinct v xs h.1, count_of-has v xs, eq_text_iff x v, h.0)

count_of-insert :
    (v : Text) (n : KnowledgeNode) (ns : List KnowledgeNode)
    → count_of v (ids (insert compare_knowledge_nodes n ns)) ≡ count_of v (ids (n ∷ ns))
unfolding count_of insert
count_of-insert v n [] = refl
count_of-insert v n (x ∷ ns) = ground (arith, count_of-insert v n ns)

count_of-sorted :
    (v : Text) (ns : List KnowledgeNode)
    → count_of v (ids (sort compare_knowledge_nodes ns)) ≡ count_of v (ids ns)
unfolding count_of sort
count_of-sorted v [] = refl
count_of-sorted v (n ∷ ns) =
    ground (arith, count_of-insert v n (sort compare_knowledge_nodes ns), count_of-sorted v ns)

count_of-initial_queue :
    (v : Text) (m : Degrees) (ns : List KnowledgeNode)
    → count_of v (initial_queue m ns)
      ≡ (if eqb_ℤ (degree v m) (pos 0) then count_of v (ids ns) else 0)
unfolding count_of initial_queue
count_of-initial_queue v m [] = ground arith
count_of-initial_queue v m (n ∷ ns) =
    ground (arith, count_of-initial_queue v m ns, eq_text_iff n.stable_id v)

module _ (nodes : List KnowledgeNode) where
  abbrev pub by_id : NodesById
  by_id = nodes_by_stable_id [] nodes

  abbrev before_edges : Graph
  before_edges = record { adjacency = no_adjacency [] nodes; in_degree = no_degrees [] nodes }

  pub known_iff : (v : Text) → is_none (get v by_id) ≡ not (has v (ids nodes))
  unfolding get
  known_iff v = ground (arith, nodes_by_stable_id-has v [] nodes)

  start-SameKeys : SameKeys by_id before_edges
  unfolding get
  start-SameKeys k = ground (arith, no_adjacency-get k [] nodes, known_iff k)

  pub stored_node :
      (k : Text) {n : KnowledgeNode}
      → get k by_id ≡ some n
      → (n.stable_id ≡ k) × OneOf (λ x. x ≡ n) nodes
  unfolding get
  stored_node k h = elim (nodes_by_stable_id-some k [] nodes h) [
    | inl e ↦ absurd (ground arith)
    | inr one ↦ one
  ]

module _ (nodes : List KnowledgeNode) (edges : List KnowledgeEdge) where
  start_targets :
      (k : Text) → targets k (graph_of nodes edges).adjacency ≡ outs (by_id nodes) k edges
  unfolding graph_of targets get
  start_targets k = ground (
    arith,
    count_edges-targets (by_id nodes) k (before_edges nodes) edges (start-SameKeys nodes),
    no_adjacency-get k [] nodes,
  )

  start_degree :
      (v : Text)
      → degree v (graph_of nodes edges).in_degree ≡ pos (waiting (by_id nodes) [] v edges)
  unfolding graph_of degree get
  start_degree v =
      let none_yet : degree v (before_edges nodes).in_degree ≡ pos 0 =
        ground (arith, no_degrees-get v [] nodes) in
      ground (
        arith,
        count_edges-degree (by_id nodes) v (before_edges nodes) edges 0 (start-SameKeys nodes)
            none_yet,
      )

  abbrev start_queue : List Text
  start_queue = initial_queue (graph_of nodes edges).in_degree (sort compare_knowledge_nodes nodes)

  start-Inv :
      Distinct (ids nodes) → Inv (by_id nodes) edges (graph_of nodes edges).in_degree start_queue []
  unfolding count_of
  start-Inv d = record {
    counted = λ v k. start_degree v;
    once = λ v. ground (
      arith,
      count_of-initial_queue v (graph_of nodes edges).in_degree
          (sort compare_knowledge_nodes nodes),
      count_of-sorted v nodes,
      count_of-Distinct v (ids nodes) d,
      known_iff nodes v,
      start_degree v,
    );
    in_order = tt;
  }

  -- The loop ends with the invariant and an empty queue.
  pub record Ended (r : List KnowledgeNode) : Type 0 where
    pub answer :
        order_published_nodes nodes edges
        ≡ (if length r == length nodes then ordered r else cycle_error)
    pub last : Degrees
    pub inv : Inv (by_id nodes) edges last [] (ids r)
    pub stored : Each (Holds (by_id nodes)) r

  pub loop-Ended : Distinct (ids nodes) → (r : List KnowledgeNode) × Ended r
  unfolding order_published_nodes
  loop-Ended d =
      let g = graph_of nodes edges in
      let out =
        order_from (by_id nodes) g.adjacency (suc (length start_queue + total g.in_degree))
          g.in_degree start_queue [] in
      elim (Option-cases out) [
        | inl e ↦ absurd (order_published_nodes_total nodes edges (ground arith))
        | inr (r, e) ↦
            let ((m, inv), held) =
              loop-Inv (by_id nodes) edges g.adjacency (λ k n h. (stored_node nodes k h).0)
                start_targets (suc (length start_queue + total g.in_degree)) g.in_degree start_queue
                [] (start-Inv d) tt e in
            (r, record { answer = ground arith; last = m; inv = inv; stored = held })
      ]
