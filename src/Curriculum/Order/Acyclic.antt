-- ===== src/Curriculum/Order/Acyclic.antt =====
-- The contract of `orderPublishedNodes`: it gives every node once, each after those it requires,
-- and it does so for every graph whose required edges have no cycle.
use ai_coding_training_platf.Common.{
  Bool, true, false, not, ◌&&◌, List, [], ◌∷◌, ◌++◌, ℕ, zero, suc, ◌≤◌, ◌<◌, Text, eq_text_iff,
  length, ◌≡◌, ◌≢◌, refl, sym, ◌∙◌, ap, arith, Bool-cases, inl, inr, Each, OneOf, subst, ◌⊎◌,
  eq_text,
}
use ai_coding_training_platf.Common.Maps.{has}
use ai_coding_training_platf.Curriculum.{KnowledgeNode, KnowledgeEdge, is_required}
use ai_coding_training_platf.Curriculum.Order.{NodesById, counts, ordered, order_published_nodes}
use ai_coding_training_platf.Curriculum.Order.Count.{
  count_of, count_of-has, same_texts, same_length,
}
use ai_coding_training_platf.Curriculum.Order.Build.{ids, waiting, has-snoc}
use ai_coding_training_platf.Curriculum.Order.Loop.{InOrder, ReadyIn}
use ai_coding_training_platf.Curriculum.Order.Correct.{
  Distinct, count_of-Distinct, known_iff, stored_node, Ended, loop-Ended, by_id,
}

-- `a` stands in the list, before any `b`.
abbrev pub Precedes : Text → Text → List Text → Type 0
Precedes a b [] = ⊥
Precedes a b (x ∷ xs) = (x ≢ b) × ((x ≡ a) ⊎ Precedes a b xs)

-- A required edge between two of the nodes.
unfoldable pub orders : List KnowledgeNode → KnowledgeEdge → Bool
orders nodes e =
    is_required e.edge_type && has e.from_stable_id (ids nodes) && has e.to_stable_id (ids nodes)

-- A number for each node that grows along the required edges.
abbrev pub Acyclic : List KnowledgeNode → List KnowledgeEdge → Type 0
Acyclic nodes edges =
    (rank : Text → ℕ) × Each
      (λ e. orders nodes e ≡ true → rank e.from_stable_id < rank e.to_stable_id) edges

-- The same nodes, in an order of their required edges.
pub record IsOrder (nodes : List KnowledgeNode) (edges : List KnowledgeEdge)
    (r : List KnowledgeNode) : Type 0 where
  pub all_once : (v : Text) → has v (ids nodes) ≡ true → count_of v (ids r) ≡ 1
  pub from_nodes : Each (λ n. OneOf (λ m. m ≡ n) nodes) r
  pub in_order :
      Each (λ e. orders nodes e ≡ true → Precedes e.from_stable_id e.to_stable_id (ids r)) edges

each_of-Each :
    {P Q : KnowledgeNode → Type 0} (h : (n : KnowledgeNode) → P n → Q n) (ns : List KnowledgeNode)
    → Each P ns
    → Each Q ns
each_of-Each h [] p = tt
each_of-Each h (n ∷ ns) p = (h n p.0, each_of-Each h ns p.1)

-- An edge that the nodes wait for.
waiting_for :
    (m : NodesById) (done : List Text) (v : Text) (es : List KnowledgeEdge)
    → (waiting m done v es ≡ 0)
      ⊎ OneOf
          (λ e. (counts m e ≡ true) × (e.to_stable_id ≡ v) × (has e.from_stable_id done ≡ false))
          es
unfolding waiting
waiting_for m done v [] = inl refl
waiting_for m done v (e ∷ es) =
    elim (Bool-cases (counts m e && eq_text e.to_stable_id v && not (has e.from_stable_id done))) [
      | inl c ↦ inr (inl (ground arith, ground (arith, eq_text_iff e.to_stable_id v), ground arith))
      | inr c ↦ elim (waiting_for m done v es) [
        | inl z ↦ inl (ground arith)
        | inr one ↦ inr (inr one)
      ]
    ]

length-ids : (ns : List KnowledgeNode) → length (ids ns) ≡ length ns
length-ids [] = refl
length-ids (n ∷ ns) = ap suc (length-ids ns)

module _ (nodes : List KnowledgeNode) (edges : List KnowledgeEdge) where
  orders-counts : (e : KnowledgeEdge) → counts (by_id nodes) e ≡ orders nodes e
  unfolding counts orders
  orders-counts e = ground (arith, known_iff nodes e.from_stable_id, known_iff nodes e.to_stable_id)

  ready_edge :
      (seen : List Text) (x : Text) (e : KnowledgeEdge) (es : List KnowledgeEdge)
      → OneOf (λ d. d ≡ e) es
      → ReadyIn (by_id nodes) edges es seen x
      → counts (by_id nodes) e ≡ true
      → e.to_stable_id ≡ x
      → has e.from_stable_id seen ≡ true
  ready_edge seen x e [] one h = absurd one
  ready_edge seen x e (d ∷ es) (inl same) h =
      subst
        (λ t. counts (by_id nodes) t ≡ true → t.to_stable_id ≡ x → has t.from_stable_id seen ≡ true)
        same h.0
  ready_edge seen x e (d ∷ es) (inr one) h = ready_edge seen x e es one h.1

  InOrder-Precedes :
      (e : KnowledgeEdge) (seen xs : List Text)
      → OneOf (λ d. d ≡ e) edges
      → counts (by_id nodes) e ≡ true
      → InOrder (by_id nodes) edges seen xs
      → has e.from_stable_id seen ≡ false
      → has e.to_stable_id xs ≡ true
      → Precedes e.from_stable_id e.to_stable_id xs
  unfolding has
  InOrder-Precedes e seen [] one c h fresh k = absurd (ground arith)
  InOrder-Precedes e seen (x ∷ xs) one c h fresh k =
      let other : x ≢ e.to_stable_id =
        λ s. let early = ready_edge seen x e edges one h.0 c (sym s) in absurd (ground arith) in
      elim (Bool-cases (eq_text x e.from_stable_id)) [
        | inl s ↦ (other, inl ((eq_text_iff x e.from_stable_id).0 s))
        | inr s ↦ (
          other,
          inr (
              InOrder-Precedes e (seen ++ x ∷ []) xs one c h.1
                (ground (arith, has-snoc e.from_stable_id x seen))
                (ground (arith, eq_text_iff x e.to_stable_id))),
        )
      ]

  module _ (r : List KnowledgeNode) (d : Distinct (ids nodes)) (w : Ended nodes edges r) where
    done_within : (v : Text) → count_of v (ids r) ≤ count_of v (ids nodes)
    unfolding count_of
    done_within v =
        ground (arith, w.inv.once v, known_iff nodes v, count_of-Distinct v (ids nodes) d)

    at_most_once : (v : Text) → count_of v (ids nodes) ≤ 1
    at_most_once v = ground (arith, count_of-Distinct v (ids nodes) d)

    edges_in_order :
        ((v : Text) → count_of v (ids r) ≡ count_of v (ids nodes))
        → (es : List KnowledgeEdge)
        → ((e : KnowledgeEdge) → OneOf (λ x. x ≡ e) es → OneOf (λ x. x ≡ e) edges)
        → Each (λ e. orders nodes e ≡ true → Precedes e.from_stable_id e.to_stable_id (ids r)) es
    unfolding has orders
    edges_in_order h [] sub = tt
    edges_in_order h (e ∷ es) sub = (
      λ o.
          InOrder-Precedes e [] (ids r) (sub e (inl refl)) (orders-counts e ∙ o) w.inv.in_order refl
            (ground (
              arith,
              h e.to_stable_id,
              count_of-has e.to_stable_id (ids r),
              count_of-has e.to_stable_id (ids nodes),
            )),
      edges_in_order h es (λ x k. sub x (inr k)),
    )

    full-IsOrder : length r ≡ length nodes → IsOrder nodes edges r
    full-IsOrder e =
        let h =
          same_texts (ids nodes) (ids r) done_within at_most_once
            (length-ids r ∙ (e ∙ sym (length-ids nodes))) in
        record {
          all_once = λ v k. ground (arith, h v, count_of-Distinct v (ids nodes) d);
          from_nodes = each_of-Each (λ n k. (stored_node nodes n.stable_id k).1) r w.stored;
          in_order = edges_in_order h edges (λ x k. k);
        }

    edge_ranked :
        (a : Acyclic nodes edges) (v : Text) (es : List KnowledgeEdge)
        → Each (λ x. orders nodes x ≡ true → a.0 x.from_stable_id < a.0 x.to_stable_id) es
        → OneOf
            (λ x.
              (counts (by_id nodes) x ≡ true)
              × (x.to_stable_id ≡ v)
              × (has x.from_stable_id (ids r) ≡ false))
            es
        → (u : Text) × (has u (ids nodes) ≡ true) × (has u (ids r) ≡ false) × (a.0 u < a.0 v)
    unfolding orders
    edge_ranked a v [] h one = absurd one
    edge_ranked a v (x ∷ es) h (inr one) = edge_ranked a v es h.1 one
    edge_ranked a v (x ∷ es) h (inl (c, t, f)) =
        let o = sym (orders-counts x) ∙ c in
        (x.from_stable_id, ground arith, f, subst (λ k. a.0 x.from_stable_id < a.0 k) t (h.0 o))

    -- By induction on a bound of the rank: a node of an acyclic graph is done.
    ranked_done :
        (a : Acyclic nodes edges) (n : ℕ) (v : Text)
        → a.0 v < n
        → has v (ids nodes) ≡ true
        → has v (ids r) ≡ true
    unfolding count_of
    ranked_done a zero v h k = absurd (omega arith)
    ranked_done a (suc n) v h k = elim (waiting_for (by_id nodes) (ids r) v edges) [
      | inl z ↦ ground (arith, w.inv.once v, known_iff nodes v, count_of-has v (ids r))
      | inr one ↦
          let (u, known, new, below) = edge_ranked a v edges a.1 one in
          absurd (ground (arith, ranked_done a n u (omega arith) known))
    ]

    ranked_full : Acyclic nodes edges → length r ≡ length nodes
    ranked_full a =
        sym (length-ids r)
        ∙ (same_length (ids nodes) (ids r) done_within at_most_once (λ v. ground (
          arith,
          ranked_done a (suc (a.0 v)) v (omega arith),
          at_most_once v,
          count_of-has v (ids r),
          count_of-has v (ids nodes),
        ))
            ∙ length-ids nodes)

-- For nodes with different ids: an order that is given holds each node once and nothing else, and
-- each required edge between two of the nodes leads forward in it.
pub order_published_nodes-IsOrder :
    (nodes : List KnowledgeNode) (edges : List KnowledgeEdge) {r : List KnowledgeNode}
    → Distinct (ids nodes)
    → order_published_nodes nodes edges ≡ ordered r
    → IsOrder nodes edges r
order_published_nodes-IsOrder nodes edges {r} d h =
    let (out, w) = loop-Ended nodes edges d in
    let full : (length out ≡ length nodes) × (out ≡ r) = ground (arith, w.answer) in
    subst (IsOrder nodes edges) full.1 (full-IsOrder nodes edges out d w full.0)

-- For nodes with different ids whose required edges have no cycle an order is always given.
pub order_published_nodes-Acyclic :
    (nodes : List KnowledgeNode) (edges : List KnowledgeEdge)
    → Distinct (ids nodes)
    → Acyclic nodes edges
    → (r : List KnowledgeNode) × (order_published_nodes nodes edges ≡ ordered r)
order_published_nodes-Acyclic nodes edges d a =
    let (out, w) = loop-Ended nodes edges d in
    (out, ground (arith, w.answer, ranked_full nodes edges out d w a))
