-- ===== src/Curriculum/Closure/Depends.antt =====
-- The closures against the edges: which nodes `prerequisite_closure` and `successors` list.
use ai_coding_training_platf.Common.{
  Bool, true, false, ◌&&◌, none, some, List, [], ◌∷◌, Text, lt_text, eq_text_iff, eq_text,
  if◌then◌else◌, any_of, ◌≡◌, refl, sym, ◌∙◌, arith, Option-cases, inl, inr, ◌||◌, ◌↔◌,
  lt_text-asymm,
}
use ai_coding_training_platf.Common.Maps.{has, get, put, add, has-add, get-put}
use ai_coding_training_platf.Common.Sort.{sort, insert, IsSorted, sort-IsSorted}
use ai_coding_training_platf.Curriculum.{KnowledgeEdge, is_required}
use ai_coding_training_platf.Curriculum.Closure.{
  Adjacency, bucket, link, predecessors_from, build_predecessor_map, successors_from,
  build_successor_map, prerequisite_closure, successors,
}
use ai_coding_training_platf.Curriculum.Closure.Fuel.{transitive_neighbors_total}
use ai_coding_training_platf.Curriculum.Closure.Reach.{Leads, one, more, transitive_neighbors_iff}

-- A required edge leads from `b` to `a`: node `a` requires node `b`.
abbrev pub requires : List KnowledgeEdge → Text → Text → Bool
requires edges a b =
    any_of
      (λ e. is_required e.edge_type && (eq_text e.to_stable_id a && eq_text e.from_stable_id b))
      edges

-- `a` requires `b` through one or more edges.
pub data DependsOn (edges : List KnowledgeEdge) (a : Text) : Text → Type 0 where
  direct : {b : Text} → requires edges a b ≡ true → DependsOn edges a b
  further : {b c : Text} → DependsOn edges a b → requires edges b c ≡ true → DependsOn edges a c

-- `a` is required by `b` through one or more edges.
pub data IsRequiredBy (edges : List KnowledgeEdge) (a : Text) : Text → Type 0 where
  direct : {b : Text} → requires edges b a ≡ true → IsRequiredBy edges a b
  further :
      {b c : Text} → IsRequiredBy edges a b → requires edges c b ≡ true → IsRequiredBy edges a c

bucket-put :
    (k t : Text) (b : List Text) (m : Adjacency)
    → bucket t (put k b m) ≡ (if eq_text k t then b else bucket t m)
unfolding bucket
bucket-put k t b m = ground (arith, get-put k t b m)

bucket-none : (t : Text) (m : Adjacency) → get t m ≡ none → bucket t m ≡ []
unfolding bucket
bucket-none t m h = rw (h, bucket)

bucket-some : (t : Text) (m : Adjacency) (b : List Text) → get t m ≡ some b → bucket t m ≡ b
unfolding bucket
bucket-some t m b h = rw (h, bucket)

has-nil : (u : Text) → has u [] ≡ false
unfolding has
has-nil u = refl

has-one : (u v : Text) → has u (v ∷ []) ≡ eq_text v u
unfolding has
has-one u v = ground arith

has-bucket-link :
    (k v t u : Text) (m : Adjacency)
    → has u (bucket t (link k v m)) ≡ ((eq_text k t && eq_text v u) || has u (bucket t m))
unfolding link
has-bucket-link k v t u m = elim (Option-cases (get k m)) [
  | inl e ↦
      rw (e, link)
        (ground (
          arith,
          bucket-put k t (v ∷ []) m,
          bucket-none k m e,
          eq_text_iff k t,
          has-one u v,
          has-nil u,
        ))
  | inr (b, e) ↦
      rw (e, link)
        (ground
          (arith, bucket-put k t (add v b) m, bucket-some k m b e, eq_text_iff k t, has-add u v b))
]

has-predecessors_from :
    (t u : Text) (m : Adjacency) (es : List KnowledgeEdge)
    → has u (bucket t (predecessors_from m es)) ≡ (has u (bucket t m) || requires es t u)
unfolding predecessors_from any_of
has-predecessors_from t u m [] = ground arith
has-predecessors_from t u m (e ∷ es) = ground (
  arith,
  has-predecessors_from t u m es,
  has-predecessors_from t u (link e.to_stable_id e.from_stable_id m) es,
  has-bucket-link e.to_stable_id e.from_stable_id t u m,
)

has-successors_from :
    (t u : Text) (m : Adjacency) (es : List KnowledgeEdge)
    → has u (bucket t (successors_from m es)) ≡ (has u (bucket t m) || requires es u t)
unfolding successors_from any_of
has-successors_from t u m [] = ground arith
has-successors_from t u m (e ∷ es) = ground (
  arith,
  has-successors_from t u m es,
  has-successors_from t u (link e.from_stable_id e.to_stable_id m) es,
  has-bucket-link e.from_stable_id e.to_stable_id t u m,
)

bucket-nil : (t : Text) → bucket t [] ≡ []
unfolding bucket get
bucket-nil t = refl

linked_predecessor :
    (es : List KnowledgeEdge) (t u : Text)
    → has u (bucket t (build_predecessor_map es)) ≡ requires es t u
unfolding build_predecessor_map
linked_predecessor es t u = ground (arith, has-predecessors_from t u [] es, bucket-nil t, has-nil u)

linked_successor :
    (es : List KnowledgeEdge) (t u : Text)
    → has u (bucket t (build_successor_map es)) ≡ requires es u t
unfolding build_successor_map
linked_successor es t u = ground (arith, has-successors_from t u [] es, bucket-nil t, has-nil u)

Leads→DependsOn :
    (es : List KnowledgeEdge) {a b : Text} → Leads (build_predecessor_map es) a b → DependsOn es a b
Leads→DependsOn es (one l) = direct (rw (linked_predecessor es _ _) at l)
Leads→DependsOn es (more w l) = further (Leads→DependsOn es w) (rw (linked_predecessor es _ _) at l)

DependsOn→Leads :
    (es : List KnowledgeEdge) {a b : Text} → DependsOn es a b → Leads (build_predecessor_map es) a b
DependsOn→Leads es (direct r) = one (linked_predecessor es _ _ ∙ r)
DependsOn→Leads es (further w r) = more (DependsOn→Leads es w) (linked_predecessor es _ _ ∙ r)

Leads→IsRequiredBy :
    (es : List KnowledgeEdge) {a b : Text}
    → Leads (build_successor_map es) a b
    → IsRequiredBy es a b
Leads→IsRequiredBy es (one l) = direct (rw (linked_successor es _ _) at l)
Leads→IsRequiredBy es (more w l) =
    further (Leads→IsRequiredBy es w) (rw (linked_successor es _ _) at l)

IsRequiredBy→Leads :
    (es : List KnowledgeEdge) {a b : Text}
    → IsRequiredBy es a b
    → Leads (build_successor_map es) a b
IsRequiredBy→Leads es (direct r) = one (linked_successor es _ _ ∙ r)
IsRequiredBy→Leads es (further w r) = more (IsRequiredBy→Leads es w) (linked_successor es _ _ ∙ r)

has-insert : (x y : Text) (ys : List Text) → has x (insert lt_text y ys) ≡ (eq_text y x || has x ys)
unfolding has insert
has-insert x y [] = refl
has-insert x y (z ∷ zs) = ground (arith, has-insert x y zs)

has-sort : (x : Text) (ys : List Text) → has x (sort lt_text ys) ≡ has x ys
unfolding has sort
has-sort x [] = refl
has-sort x (y ∷ ys) = ground (arith, has-insert x y (sort lt_text ys), has-sort x ys)

-- `prerequisite_closure` always gives a list. It is in ascending order, and the nodes in it are
-- exactly those that the given node depends on through required edges.
pub prerequisite_closure_lem :
    (a : Text) (es : List KnowledgeEdge)
    → (r : List Text) × (prerequisite_closure a es ≡ some r)
      × IsSorted lt_text r
      × ((x : Text) → (has x r ≡ true) ↔ DependsOn es a x)
unfolding prerequisite_closure
prerequisite_closure_lem a es =
    let (found, e) = transitive_neighbors_total a (build_predecessor_map es) in
    (
      sort lt_text found,
      rw (e, prerequisite_closure),
      sort-IsSorted lt_text lt_text-asymm found,
      λ x.
          let same = transitive_neighbors_iff a x (build_predecessor_map es) e in
          (
            λ h. Leads→DependsOn es (same.0 (sym (has-sort x found) ∙ h)),
            λ d. has-sort x found ∙ same.1 (DependsOn→Leads es d),
          ),
    )

-- `successors` always gives a list. It is in ascending order, and the nodes in it are exactly
-- those that depend on the given node through required edges.
pub successors_lem :
    (a : Text) (es : List KnowledgeEdge)
    → (r : List Text) × (successors a es ≡ some r)
      × IsSorted lt_text r
      × ((x : Text) → (has x r ≡ true) ↔ IsRequiredBy es a x)
unfolding successors
successors_lem a es =
    let (found, e) = transitive_neighbors_total a (build_successor_map es) in
    (
      sort lt_text found,
      rw (e, successors),
      sort-IsSorted lt_text lt_text-asymm found,
      λ x.
          let same = transitive_neighbors_iff a x (build_successor_map es) e in
          (
            λ h. Leads→IsRequiredBy es (same.0 (sym (has-sort x found) ∙ h)),
            λ d. has-sort x found ∙ same.1 (IsRequiredBy→Leads es d),
          ),
    )
