-- ===== src/Curriculum/Eligibility/Summary.antt =====
-- The projection of a whole graph, `analyzeGraphEligibility`.
use ai_coding_training_platf.Common.{
  Bool, false, not, ◌&&◌, none, some, List, [], ◌∷◌, ◌++◌, Text, ◌≡◌, refl, sym, ◌∙◌, ap, arith,
  Bool-cases, Option-cases, inl, inr, if◌then◌else◌, filter_by, Each, eq_text_iff, eq_text_comm,
}
use mathlib.Core.List.{append_assoc, append-nil}
use ai_coding_training_platf.Common.Maps.{get, put, has, get-put}
use ai_coding_training_platf.Common.Sort.{sort, insert}
use ai_coding_training_platf.Curriculum.{KnowledgeNode}
use ai_coding_training_platf.Curriculum.Order.{compare_knowledge_nodes}
use ai_coding_training_platf.Curriculum.Order.Build.{ids}
use ai_coding_training_platf.Curriculum.Order.Correct.{Distinct}
use ai_coding_training_platf.Curriculum.Eligibility.{EligibilityResult}
use ai_coding_training_platf.Curriculum.Eligibility.Projection.{
  is_learning, Learner, GraphEligibilitySnapshot, analyze_in, note_result, analyze_nodes,
  analyze_graph_eligibility, nothing_noted, resources_of, practices_of,
}
use ai_coding_training_platf.Curriculum.Eligibility.Available.{
  analyze_node_eligibility_iff, analyze_node_eligibility-evaluate,
}

-- The classes of a result.
abbrev pub is_blocked : EligibilityResult → Bool
is_blocked r = not r.is_available

abbrev pub is_for_learning : EligibilityResult → Bool
is_for_learning r = r.is_available && is_learning r.reason

abbrev pub is_for_practice : EligibilityResult → Bool
is_for_practice r = r.is_available && not (is_learning r.reason)

-- The nodes whose result passes a test.
unfoldable pub whose : Learner → (EligibilityResult → Bool) → KnowledgeNode → Bool
whose l p node = elim (analyze_in l node) [ none ↦ false | some r ↦ p r ]

-- What a projection of a list of nodes holds, after what stood there before.
pub record Projects (l : Learner) (g : GraphEligibilitySnapshot) (nodes : List KnowledgeNode)
    (h : GraphEligibilitySnapshot) : Type 0 where
  pub learning :
      h.ready_for_learning ≡ g.ready_for_learning ++ ids (filter_by (whose l is_for_learning) nodes)
  pub practice :
      h.ready_for_practice ≡ g.ready_for_practice ++ ids (filter_by (whose l is_for_practice) nodes)
  pub blocked : h.unavailable ≡ g.unavailable ++ ids (filter_by (whose l is_blocked) nodes)

analyze_in_total :
    (l : Learner) (node : KnowledgeNode) → (r : EligibilityResult) × (analyze_in l node ≡ some r)
unfolding analyze_in
analyze_in_total l node = elim (Option-cases (get node.stable_id l.prerequisites)) [
  | inl e ↦
      let (r, is_r, _) =
        analyze_node_eligibility_iff node l.edges (resources_of node l.resources)
          (practices_of node l.practices) l.baselines l.abilities in
      (r, ground arith)
  | inr (ps, e) ↦
      let (r, is_r, _) =
        analyze_node_eligibility-evaluate node l.edges (resources_of node l.resources)
          (practices_of node l.practices) ps l.baselines l.abilities in
      (r, ground arith)
]

whose_lem :
    (l : Learner) (p : EligibilityResult → Bool) (node : KnowledgeNode) {r : EligibilityResult}
    → analyze_in l node ≡ some r
    → whose l p node ≡ p r
unfolding whose
whose_lem l p node e = ground arith

list_step :
    (l : Learner) (p : EligibilityResult → Bool) (node : KnowledgeNode) (nodes : List KnowledgeNode)
    (before : List Text) {r : EligibilityResult}
    → analyze_in l node ≡ some r
    → (if p r then before ++ node.stable_id ∷ [] else before) ++ ids (filter_by (whose l p) nodes)
      ≡ before ++ ids (filter_by (whose l p) (node ∷ nodes))
unfolding filter_by
list_step l p node nodes before {r} e =
    let of_node = whose_lem l p node {r = r} e in
    elim (Bool-cases (p r)) [
      | inl k ↦
          rw (of_node, k)
            (append_assoc before (node.stable_id ∷ []) (ids (filter_by (whose l p) nodes)))
      | inr k ↦ rw (of_node, k) refl
    ]

note_result-lists :
    (g : GraphEligibilitySnapshot) (id : Text) (r : EligibilityResult)
    → ((note_result g id r).ready_for_learning
        ≡ (if is_for_learning r then g.ready_for_learning ++ id ∷ [] else g.ready_for_learning))
      × ((note_result g id r).ready_for_practice
          ≡ (if is_for_practice r then g.ready_for_practice ++ id ∷ [] else g.ready_for_practice))
      × ((note_result g id r).unavailable
          ≡ (if is_blocked r then g.unavailable ++ id ∷ [] else g.unavailable))
      × ((note_result g id r).per_node ≡ put id r g.per_node)
unfolding note_result
note_result-lists g id r = (ground arith, ground arith, ground arith, ground arith)

analyze_nodes-Projects :
    (l : Learner) (g : GraphEligibilitySnapshot) (nodes : List KnowledgeNode)
    → (h : GraphEligibilitySnapshot) × (analyze_nodes l g nodes ≡ some h) × Projects l g nodes h
unfolding analyze_nodes filter_by
analyze_nodes-Projects l g [] = (
  g,
  refl,
  record {
    learning = sym (append-nil g.ready_for_learning);
    practice = sym (append-nil g.ready_for_practice);
    blocked = sym (append-nil g.unavailable);
  },
)
analyze_nodes-Projects l g (node ∷ nodes) =
    let (r, e) = analyze_in_total l node in
    let (h, is_h, w) = analyze_nodes-Projects l (note_result g node.stable_id r) nodes in
    let (learning, practice, blocked, _) = note_result-lists g node.stable_id r in
    (
      h,
      rw (e, analyze_nodes) is_h,
      record {
        learning =
            w.learning
            ∙ (ap (λ x. x ++ ids (filter_by (whose l is_for_learning) nodes)) learning
                ∙ list_step l is_for_learning node nodes g.ready_for_learning {r = r} e);
        practice =
            w.practice
            ∙ (ap (λ x. x ++ ids (filter_by (whose l is_for_practice) nodes)) practice
                ∙ list_step l is_for_practice node nodes g.ready_for_practice {r = r} e);
        blocked =
            w.blocked
            ∙ (ap (λ x. x ++ ids (filter_by (whose l is_blocked) nodes)) blocked
                ∙ list_step l is_blocked node nodes g.unavailable {r = r} e);
      },
    )

analyze_nodes-get :
    (l : Learner) (k : Text) (g : GraphEligibilitySnapshot) (nodes : List KnowledgeNode)
    {h : GraphEligibilitySnapshot}
    → has k (ids nodes) ≡ false
    → analyze_nodes l g nodes ≡ some h
    → get k h.per_node ≡ get k g.per_node
unfolding analyze_nodes has
analyze_nodes-get l k g [] n e = ground arith
analyze_nodes-get l k g (node ∷ nodes) {h} n e =
    let (r, is_r) = analyze_in_total l node in
    let (_, _, _, per_node) = note_result-lists g node.stable_id r in
    let rest = rw (is_r, analyze_nodes) at e in
    let later =
      analyze_nodes-get l k (note_result g node.stable_id r) nodes {h = h} (ground arith) rest in
    ground (arith, later, per_node, get-put node.stable_id k r g.per_node)

analyze_nodes-per_node :
    (l : Learner) (g : GraphEligibilitySnapshot) (nodes : List KnowledgeNode)
    {h : GraphEligibilitySnapshot}
    → Distinct (ids nodes)
    → analyze_nodes l g nodes ≡ some h
    → Each (λ n. get n.stable_id h.per_node ≡ analyze_in l n) nodes
unfolding analyze_nodes
analyze_nodes-per_node l g [] d e = tt
analyze_nodes-per_node l g (node ∷ nodes) {h} d e =
    let (r, is_r) = analyze_in_total l node in
    let (_, _, _, per_node) = note_result-lists g node.stable_id r in
    let rest = rw (is_r, analyze_nodes) at e in
    let kept =
      analyze_nodes-get l node.stable_id (note_result g node.stable_id r) nodes {h = h} d.0 rest in
    (
      ground (
        arith,
        kept,
        per_node,
        get-put node.stable_id node.stable_id r g.per_node,
        eq_text_iff node.stable_id node.stable_id,
      ),
      analyze_nodes-per_node l (note_result g node.stable_id r) nodes {h = h} d.1 rest,
    )

has-insert :
    (k : Text) (n : KnowledgeNode) (ns : List KnowledgeNode)
    → has k (ids (insert compare_knowledge_nodes n ns)) ≡ has k (ids (n ∷ ns))
unfolding has insert
has-insert k n [] = refl
has-insert k n (x ∷ ns) = ground (arith, has-insert k n ns)

has-sort :
    (k : Text) (ns : List KnowledgeNode)
    → has k (ids (sort compare_knowledge_nodes ns)) ≡ has k (ids ns)
unfolding has sort
has-sort k [] = refl
has-sort k (n ∷ ns) =
    ground (arith, has-insert k n (sort compare_knowledge_nodes ns), has-sort k ns)

insert-Distinct :
    (n : KnowledgeNode) (ns : List KnowledgeNode)
    → has n.stable_id (ids ns) ≡ false
    → Distinct (ids ns)
    → Distinct (ids (insert compare_knowledge_nodes n ns))
unfolding has insert
insert-Distinct n [] f d = (refl, tt)
insert-Distinct n (x ∷ ns) f d = elim (Bool-cases (compare_knowledge_nodes x n)) [
  | inl k ↦ rw k (
    ground (arith, has-insert x.stable_id n ns, d.0, eq_text_comm n.stable_id x.stable_id),
    insert-Distinct n ns (ground arith) d.1,
  )
  | inr k ↦ rw k (ground arith, d)
]

sort-Distinct :
    (ns : List KnowledgeNode) → Distinct (ids ns) → Distinct (ids (sort compare_knowledge_nodes ns))
unfolding sort
sort-Distinct [] d = tt
sort-Distinct (n ∷ ns) d =
    insert-Distinct n (sort compare_knowledge_nodes ns) (has-sort n.stable_id ns ∙ d.0)
      (sort-Distinct ns d.1)

-- For nodes with different ids the projection of a graph succeeds; each of its three lists holds,
-- in the order of the sorted nodes, the ids of the nodes whose analysis has that outcome; and the
-- result that stands under each node's id is the node's analysis.
pub analyze_graph_eligibility-Projects :
    (l : Learner) (nodes : List KnowledgeNode)
    → Distinct (ids nodes)
    → (h : GraphEligibilitySnapshot) × (analyze_graph_eligibility l nodes ≡ some h)
      × Projects l nothing_noted (sort compare_knowledge_nodes nodes) h
      × Each (λ n. get n.stable_id h.per_node ≡ analyze_in l n) (sort compare_knowledge_nodes nodes)
unfolding analyze_graph_eligibility
analyze_graph_eligibility-Projects l nodes d =
    let sorted = sort compare_knowledge_nodes nodes in
    let (h, is_h, w) = analyze_nodes-Projects l nothing_noted sorted in
    (h, is_h, w, analyze_nodes-per_node l nothing_noted sorted {h = h} (sort-Distinct nodes d) is_h)
