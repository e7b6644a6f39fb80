-- ===== src/Curriculum/Order/Build.antt =====
-- What the maps of `orderPublishedNodes` hold before its loop.
use ai_coding_training_platf.Common.{
  true, false, not, ◌&&◌, ◌||◌, some, List, [], ◌∷◌, ◌++◌, ℕ, suc, ◌+◌, Text, eq_text, eq_text_iff,
  map, ◌≡◌, refl, sym, arith, Bool-cases, Option-cases, inl, inr, if◌then◌else◌, OneOf, is_none,
  ◌⊎◌,
}
use mathlib.Core.List.{append_assoc, append-nil}
use ai_coding_training_platf.Common.Int.{pos}
use ai_coding_training_platf.Common.Maps.{has, get, put, get-put, has-append}
use ai_coding_training_platf.Curriculum.{KnowledgeNode, KnowledgeEdge}
use ai_coding_training_platf.Curriculum.Closure.{Adjacency}
use ai_coding_training_platf.Curriculum.Order.{
  NodesById, Degrees, nodes_by_stable_id, no_adjacency, no_degrees, degree, up, Graph, counts,
  count_edge, count_edges, targets,
}
use ai_coding_training_platf.Curriculum.Order.Count.{count_of}

abbrev pub ids : List KnowledgeNode → List Text
ids = map (λ n. n.stable_id)

-- A node of the map is that of its id: an earlier one, or one of the list.
pub nodes_by_stable_id-some :
    (k : Text) (m : NodesById) (ns : List KnowledgeNode) {n : KnowledgeNode}
    → get k (nodes_by_stable_id m ns) ≡ some n
    → (get k m ≡ some n) ⊎ ((n.stable_id ≡ k) × OneOf (λ x. x ≡ n) ns)
unfolding nodes_by_stable_id
nodes_by_stable_id-some k m [] h = inl h
nodes_by_stable_id-some k m (x ∷ ns) {n} h =
    elim (nodes_by_stable_id-some k (put x.stable_id x m) ns h) [
      | inr (own, one) ↦ inr (own, inr one)
      | inl e ↦ elim (Bool-cases (eq_text x.stable_id k)) [
        | inl same ↦
            let is_n : x ≡ n = ground (arith, get-put x.stable_id k x m) in
            let own = (eq_text_iff x.stable_id k).0 same in inr (rw is_n at own, inl is_n)
        | inr other ↦ inl (ground (arith, get-put x.stable_id k x m))
      ]
    ]

pub nodes_by_stable_id-has :
    (k : Text) (m : NodesById) (ns : List KnowledgeNode)
    → is_none (get k (nodes_by_stable_id m ns)) ≡ (is_none (get k m) && not (has k (ids ns)))
unfolding nodes_by_stable_id has
nodes_by_stable_id-has k m [] = ground arith
nodes_by_stable_id-has k m (x ∷ ns) =
    ground (arith, nodes_by_stable_id-has k (put x.stable_id x m) ns, get-put x.stable_id k x m)

pub no_adjacency-get :
    (k : Text) (m : Adjacency) (ns : List KnowledgeNode)
    → get k (no_adjacency m ns) ≡ (if has k (ids ns) then some [] else get k m)
unfolding no_adjacency has
no_adjacency-get k m [] = refl
no_adjacency-get k m (x ∷ ns) =
    ground (arith, no_adjacency-get k (put x.stable_id [] m) ns, get-put x.stable_id k [] m)

pub no_degrees-get :
    (k : Text) (m : Degrees) (ns : List KnowledgeNode)
    → get k (no_degrees m ns) ≡ (if has k (ids ns) then some (pos 0) else get k m)
unfolding no_degrees has
no_degrees-get k m [] = refl
no_degrees-get k m (x ∷ ns) =
    ground (arith, no_degrees-get k (put x.stable_id (pos 0) m) ns, get-put x.stable_id k (pos 0) m)

pub has-snoc : (k c : Text) (v : List Text) → has k (v ++ c ∷ []) ≡ (has k v || eq_text c k)
unfolding has
has-snoc k c v = ground (arith, has-append k v (c ∷ []))

targets-put :
    (j k : Text) (v : List Text) (m : Adjacency)
    → targets k (put j v m) ≡ (if eq_text j k then v else targets k m)
unfolding targets
targets-put j k v m = ground (arith, get-put j k v m)

targets-some : (k : Text) (m : Adjacency) {v : List Text} → get k m ≡ some v → targets k m ≡ v
unfolding targets
targets-some k m h = ground arith

module _ (by_id : NodesById) where
  -- The targets of the edges from `k`.
  unfoldable pub outs : Text → List KnowledgeEdge → List Text
  outs k [] = []
  outs k (e ∷ es) =
      let rest = outs k es in
      if counts by_id e && eq_text e.from_stable_id k then e.to_stable_id ∷ rest else rest

  -- How many edges lead to `v` from a node outside `done`.
  unfoldable pub waiting : List Text → Text → List KnowledgeEdge → ℕ
  waiting done v [] = 0
  waiting done v (e ∷ es) =
      let rest = waiting done v es in
      if counts by_id e && eq_text e.to_stable_id v && not (has e.from_stable_id done)
      then suc rest
      else rest

  -- The successors' map has the ids of the nodes.
  abbrev pub SameKeys : Graph → Type 0
  SameKeys g = (k : Text) → is_none (get k g.adjacency) ≡ is_none (get k by_id)

  abbrev pub with_edge : Graph → KnowledgeEdge → List Text → Graph
  with_edge g e next = record {
    adjacency = put e.from_stable_id (next ++ e.to_stable_id ∷ []) g.adjacency;
    in_degree = put e.to_stable_id (up (degree e.to_stable_id g.in_degree)) g.in_degree;
  }

  pub counts-known :
      (e : KnowledgeEdge)
      → counts by_id e ≡ true
      → (is_none (get e.from_stable_id by_id) ≡ false)
        × (is_none (get e.to_stable_id by_id) ≡ false)
  unfolding counts
  counts-known e h = (ground arith, ground arith)

  count_edge-cases :
      (g : Graph) (e : KnowledgeEdge)
      → SameKeys g
      → ((counts by_id e ≡ false) × (count_edge by_id g e ≡ g))
        ⊎ ((next : List Text) × (counts by_id e ≡ true)
            × (get e.from_stable_id g.adjacency ≡ some next)
            × (count_edge by_id g e ≡ with_edge g e next))
  unfolding count_edge
  count_edge-cases g e h = elim (Bool-cases (counts by_id e)) [
    | inr c ↦ inl (c, rw (c, count_edge) refl)
    | inl c ↦ elim (Option-cases (get e.from_stable_id g.adjacency)) [
      | inl n ↦
          let same = h e.from_stable_id in let known = counts-known e c in absurd (ground arith)
      | inr (next, n) ↦ inr (next, c, n, rw (c, n, count_edge) refl)
    ]
  ]

  count_edge-SameKeys :
      (g : Graph) (e : KnowledgeEdge) → SameKeys g → SameKeys (count_edge by_id g e)
  count_edge-SameKeys g e h k = elim (count_edge-cases g e h) [
    | inl (c, same) ↦ rw same (h k)
    | inr (next, c, n, same) ↦ rw same (
        ground (
          arith,
          h k,
          get-put e.from_stable_id k (next ++ e.to_stable_id ∷ []) g.adjacency,
          eq_text_iff e.from_stable_id k,
        ))
  ]

  count_edge-targets :
      (k : Text) (g : Graph) (e : KnowledgeEdge)
      → SameKeys g
      → targets k (count_edge by_id g e).adjacency
        ≡ targets k g.adjacency
          ++ (if counts by_id e && eq_text e.from_stable_id k then e.to_stable_id ∷ [] else [])
  count_edge-targets k g e h = elim (count_edge-cases g e h) [
    | inl (c, same) ↦ rw (same, c) (sym (append-nil (targets k g.adjacency)))
    | inr (next, c, n, same) ↦
        let put_at = targets-put e.from_stable_id k (next ++ e.to_stable_id ∷ []) g.adjacency in
        elim (Bool-cases (eq_text e.from_stable_id k)) [
          | inl q ↦
              let is_k = (eq_text_iff e.from_stable_id k).0 q in
              let old = targets-some e.from_stable_id g.adjacency n in
              rw (same, c, q) (ground (arith, put_at, old, is_k))
          | inr q ↦ rw (same, c, q) (ground (arith, put_at, append-nil (targets k g.adjacency)))
        ]
  ]

  count_edge-degree :
      (v : Text) (g : Graph) (e : KnowledgeEdge) (n : ℕ)
      → SameKeys g
      → degree v g.in_degree ≡ pos n
      → degree v (count_edge by_id g e).in_degree
        ≡ pos (n + (if counts by_id e && eq_text e.to_stable_id v then 1 else 0))
  unfolding degree
  count_edge-degree v g e n h d = elim (count_edge-cases g e h) [
    | inl (c, same) ↦ rw (same, c) (ground arith)
    | inr (next, c, _, same) ↦
        rw (same, c)
          (ground (
            arith,
            get-put e.to_stable_id v (up (degree e.to_stable_id g.in_degree)) g.in_degree,
            eq_text_iff e.to_stable_id v,
          ))
  ]

  pub count_edges-targets :
      (k : Text) (g : Graph) (es : List KnowledgeEdge)
      → SameKeys g
      → targets k (count_edges by_id g es).adjacency ≡ targets k g.adjacency ++ outs k es
  unfolding count_edges outs
  count_edges-targets k g [] h = sym (append-nil (targets k g.adjacency))
  count_edges-targets k g (e ∷ es) h =
      let later = count_edges-targets k (count_edge by_id g e) es (count_edge-SameKeys g e h) in
      elim (Bool-cases (counts by_id e && eq_text e.from_stable_id k)) [
        | inl c ↦
            rw (later, count_edge-targets k g e h, c, outs)
              (append_assoc (targets k g.adjacency) (e.to_stable_id ∷ []) (outs k es))
        | inr c ↦
            rw (later, count_edge-targets k g e h, c, outs, append-nil (targets k g.adjacency)) refl
      ]

  pub count_edges-degree :
      (v : Text) (g : Graph) (es : List KnowledgeEdge) (n : ℕ)
      → SameKeys g
      → degree v g.in_degree ≡ pos n
      → degree v (count_edges by_id g es).in_degree ≡ pos (n + waiting [] v es)
  unfolding count_edges waiting has
  count_edges-degree v g [] n h d = ground arith
  count_edges-degree v g (e ∷ es) n h d =
      let more = if counts by_id e && eq_text e.to_stable_id v then 1 else 0 in
      let later =
        count_edges-degree v (count_edge by_id g e) es (n + more) (count_edge-SameKeys g e h)
          (count_edge-degree v g e n h d) in
      ground (arith, later)

  -- Finishing `c` releases its targets.
  pub waiting-done :
      (done : List Text) (c v : Text) (es : List KnowledgeEdge)
      → has c done ≡ false
      → waiting (done ++ c ∷ []) v es + count_of v (outs c es) ≡ waiting done v es
  unfolding waiting outs count_of
  waiting-done done c v [] h = refl
  waiting-done done c v (e ∷ es) h = ground (
    arith,
    waiting-done done c v es h,
    has-snoc e.from_stable_id c done,
    eq_text_iff c e.from_stable_id,
    eq_text_iff e.from_stable_id c,
  )

  pub outs-known :
      (c v : Text) (es : List KnowledgeEdge)
      → is_none (get v by_id) ≡ true
      → count_of v (outs c es) ≡ 0
  unfolding outs count_of
  outs-known c v [] h = refl
  outs-known c v (e ∷ es) h =
      ground (arith, outs-known c v es h, counts-known e, eq_text_iff e.to_stable_id v)
