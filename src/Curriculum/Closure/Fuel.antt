-- ===== src/Curriculum/Closure/Fuel.antt =====
-- The fuel of the search suffices, whatever the adjacency.
use ai_coding_training_platf.Common.{
  Bool, false, not, some, List, [], ◌∷◌, ◌++◌, ℕ, zero, suc, ◌+◌, ◌≤◌, ◌<◌, Text, eq_text_iff,
  eq_text, filter_by, length, length-append, ◌≡◌, refl, arith, Bool-cases, Option-cases, inl, inr,
  ◌||◌,
}
use ai_coding_training_platf.Common.Maps.{has, get, has-append}
use ai_coding_training_platf.Curriculum.Closure.{
  Adjacency, bucket, fresh, push_neighbors, search_from, weight, transitive_neighbors,
}

length-filter_by : {A : Type 0} (p : A → Bool) (xs : List A) → length (filter_by p xs) ≤ length xs
unfolding filter_by
length-filter_by p [] = omega arith
length-filter_by p (x ∷ xs) = ground (arith, length-filter_by p xs)

has-snoc : (k c : Text) (v : List Text) → has k (v ++ c ∷ []) ≡ (has k v || eq_text c k)
unfolding has
has-snoc k c v = ground (arith, has-append k v (c ∷ []))

-- A visit takes the visited key's set off the weight.
weight-visit :
    (c : Text) (v : List Text) (m : Adjacency)
    → has c v ≡ false
    → weight (v ++ c ∷ []) m + length (bucket c m) ≤ weight v m
unfolding weight bucket get
weight-visit c v [] h = omega arith
weight-visit c v ((k, b) ∷ m) h =
    ground (arith, weight-visit c v m h, has-snoc k c v, eq_text_iff c k, eq_text_iff k c)

length-push_neighbors :
    (m : Adjacency) (c : Text) (v q : List Text)
    → length (push_neighbors m c v q) ≤ length q + length (bucket c m)
unfolding push_neighbors bucket fresh
length-push_neighbors m c v q = elim (Option-cases (get c m)) [
  | inl e ↦ rw (e, push_neighbors, bucket) (omega arith)
  | inr (b, e) ↦
      rw (e, push_neighbors, bucket)
        (omega (
          arith,
          length-append {0} q (filter_by (λ n. not (has n v)) b),
          length-filter_by (λ n. not (has n v)) b,
        ))
]

search_from_total :
    (m : Adjacency) (fuel : ℕ) (v q : List Text)
    → length q + weight v m < fuel
    → (r : List Text) × (search_from m fuel v q ≡ some r)
unfolding search_from
search_from_total m zero v q h = absurd (omega arith)
search_from_total m (suc fuel) v [] h = (v, refl)
search_from_total m (suc fuel) v (c ∷ q) h = elim (Bool-cases (has c v)) [
  | inl old ↦ rw old (search_from_total m fuel v q (omega arith))
  | inr new ↦ rw new (
      search_from_total m fuel (v ++ c ∷ []) (push_neighbors m c (v ++ c ∷ []) q)
        (omega (arith, weight-visit c v m new, length-push_neighbors m c (v ++ c ∷ []) q)))
]

-- The search always gives a result.
pub transitive_neighbors_total :
    (start : Text) (m : Adjacency) → (r : List Text) × (transitive_neighbors start m ≡ some r)
unfolding transitive_neighbors
transitive_neighbors_total start m =
    search_from_total m (suc (length (bucket start m) + weight [] m)) [] (bucket start m)
      (omega arith)
