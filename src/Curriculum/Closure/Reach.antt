-- ===== src/Curriculum/Closure/Reach.antt =====
-- What the search finds: the nodes that a chain of links leads to.
use ai_coding_training_platf.Common.{
  Bool, true, not, ◌&&◌, some, List, [], ◌∷◌, ◌++◌, ℕ, zero, suc, ◌+◌, Text, eq_text_iff, eq_text,
  filter_by, length, ◌≡◌, refl, subst, ◌⊎◌, arith, Bool-cases, Option-cases, inl, inr, ◌||◌, ◌↔◌,
  eq_text_refl,
}
use ai_coding_training_platf.Common.Maps.{has, get, has-append}
use ai_coding_training_platf.Curriculum.Closure.{
  Adjacency, bucket, fresh, push_neighbors, search_from, weight, transitive_neighbors,
}

-- `b` is a neighbour of `a`.
abbrev pub Linked : Adjacency → Text → Text → Type 0
Linked m a b = has b (bucket a m) ≡ true

-- A chain of one or more links leads from `a` to the last node.
pub data Leads (m : Adjacency) (a : Text) : Text → Type 0 where
  one : {b : Text} → Linked m a b → Leads m a b
  more : {b c : Text} → Leads m a b → Linked m b c → Leads m a c

-- Everything in the list is led to.
abbrev AllLed : Adjacency → Text → List Text → Type 0
AllLed m a xs = (x : Text) → has x xs ≡ true → Leads m a x

has-fresh : (x : Text) (v next : List Text) → has x (fresh v next) ≡ (has x next && not (has x v))
unfolding fresh has filter_by
has-fresh x v [] = refl
has-fresh x v (n ∷ next) = ground (arith, has-fresh x v next, eq_text_iff n x)

has-push_neighbors :
    (m : Adjacency) (c x : Text) (v q : List Text)
    → has x (push_neighbors m c v q) ≡ (has x q || (has x (bucket c m) && not (has x v)))
unfolding push_neighbors bucket
has-push_neighbors m c x v q = elim (Option-cases (get c m)) [
  | inl e ↦ rw (e, push_neighbors, bucket) (unfold has in ground arith)
  | inr (b, e) ↦
      rw (e, push_neighbors, bucket) (ground (arith, has-append x q (fresh v b), has-fresh x v b))
]

has-cons : (x c : Text) (q : List Text) → has x (c ∷ q) ≡ (eq_text c x || has x q)
unfolding has
has-cons x c q = refl

has-snoc : (k c : Text) (v : List Text) → has k (v ++ c ∷ []) ≡ (has k v || eq_text c k)
unfolding has
has-snoc k c v = ground (arith, has-append k v (c ∷ []))

not_has-nil : (x : Text) → ¬ (has x [] ≡ true)
unfolding has
not_has-nil x h = cc

or_cases : (a b : Bool) → (a || b) ≡ true → (a ≡ true) ⊎ (b ≡ true)
or_cases a b h = ground arith

and_left : (a b : Bool) → (a && b) ≡ true → a ≡ true
and_left a b h = ground arith

AllLed-cons :
    (m : Adjacency) (a c : Text) (q : List Text) → AllLed m a (c ∷ q) → AllLed m a q × Leads m a c
unfolding has
AllLed-cons m a c q h = (λ x k. h x (ground arith), h c (ground (arith, eq_text_refl c)))

AllLed-snoc :
    (m : Adjacency) (a c : Text) (v : List Text)
    → AllLed m a v
    → Leads m a c
    → AllLed m a (v ++ c ∷ [])
AllLed-snoc m a c v h l = λ x k. elim (or_cases _ _ (rw (has-snoc x c v) at k)) [
  | inl old ↦ h x old
  | inr new ↦ rw (← (eq_text_iff c x).0 new) l
]

AllLed-push_neighbors :
    (m : Adjacency) (a c : Text) (v q : List Text)
    → AllLed m a q
    → Leads m a c
    → AllLed m a (push_neighbors m c v q)
AllLed-push_neighbors m a c v q h l = λ x k.
    elim (or_cases _ _ (rw (has-push_neighbors m c x v q) at k)) [
      | inl old ↦ h x old
      | inr new ↦ more l (and_left _ _ new)
    ]

-- Soundness of the loop.
search_from-led :
    (m : Adjacency) (a : Text) (fuel : ℕ) (v q : List Text) {r : List Text}
    → search_from m fuel v q ≡ some r
    → AllLed m a v
    → AllLed m a q
    → AllLed m a r
unfolding search_from
search_from-led m a zero v q h hv hq = ground arith
search_from-led m a (suc fuel) v [] {r} h hv hq = λ x k. hv x (ground arith)
search_from-led m a (suc fuel) v (c ∷ q) {r} h hv hq =
    let (rest, led) = AllLed-cons m a c q hq in
    elim (Bool-cases (has c v)) [
      | inl old ↦ search_from-led m a fuel v q (rw old at h) hv rest
      | inr new ↦
          search_from-led m a fuel (v ++ c ∷ []) (push_neighbors m c (v ++ c ∷ []) q) (rw new at h)
            (AllLed-snoc m a c v hv led) (AllLed-push_neighbors m a c (v ++ c ∷ []) q rest led)
    ]

-- Every neighbour of a visited node, and of the start, is visited or waits in the queue.
record IsClosing (m : Adjacency) (a : Text) (v q : List Text) : Type 0 where
  from_visited : (x y : Text) → has x v ≡ true → Linked m x y → (has y v || has y q) ≡ true
  from_start : (y : Text) → Linked m a y → (has y v || has y q) ≡ true

IsClosing-skip :
    (m : Adjacency) (a c : Text) (v q : List Text)
    → has c v ≡ true
    → IsClosing m a v (c ∷ q)
    → IsClosing m a v q
IsClosing-skip m a c v q old h = record {
  from_visited = λ x y k l. ground (arith, h.from_visited x y k l, has-cons y c q, eq_text_iff c y);
  from_start = λ y l. ground (arith, h.from_start y l, has-cons y c q, eq_text_iff c y);
}

IsClosing-visit :
    (m : Adjacency) (a c : Text) (v q : List Text)
    → IsClosing m a v (c ∷ q)
    → IsClosing m a (v ++ c ∷ []) (push_neighbors m c (v ++ c ∷ []) q)
IsClosing-visit m a c v q h = record {
  from_visited = λ x y k l. elim (or_cases (has x v) (eq_text c x) (rw (has-snoc x c v) at k)) [
    | inl old ↦ ground (
      arith,
      h.from_visited x y old l,
      has-cons y c q,
      eq_text_iff c y,
      has-snoc y c v,
      has-push_neighbors m c y (v ++ c ∷ []) q,
    )
    | inr new ↦
        let l' : Linked m c y = rw (← (eq_text_iff c x).0 new) at l in
        ground (arith, l', has-push_neighbors m c y (v ++ c ∷ []) q)
  ];
  from_start = λ y l. ground (
    arith,
    h.from_start y l,
    has-cons y c q,
    eq_text_iff c y,
    has-snoc y c v,
    has-push_neighbors m c y (v ++ c ∷ []) q,
  );
}

-- Completeness of the loop.
search_from-IsClosing :
    (m : Adjacency) (a : Text) (fuel : ℕ) (v q : List Text) {r : List Text}
    → search_from m fuel v q ≡ some r
    → IsClosing m a v q
    → IsClosing m a r []
unfolding search_from
search_from-IsClosing m a zero v q h k = ground arith
search_from-IsClosing m a (suc fuel) v [] {r} h k =
    let e : v ≡ r = ground arith in subst (λ o. IsClosing m a o []) e k
search_from-IsClosing m a (suc fuel) v (c ∷ q) {r} h k = elim (Bool-cases (has c v)) [
  | inl old ↦ search_from-IsClosing m a fuel v q (rw old at h) (IsClosing-skip m a c v q old k)
  | inr new ↦
      search_from-IsClosing m a fuel (v ++ c ∷ []) (push_neighbors m c (v ++ c ∷ []) q)
        (rw new at h) (IsClosing-visit m a c v q k)
]

has-or_nil : (y : Text) (r : List Text) → (has y r || has y []) ≡ true → has y r ≡ true
unfolding has
has-or_nil y r h = ground arith

IsClosing-has :
    (m : Adjacency) (a x : Text) (r : List Text) → IsClosing m a r [] → Leads m a x → has x r ≡ true
IsClosing-has m a x r h (one l) = has-or_nil _ r (h.from_start _ l)
IsClosing-has m a x r h (more w l) =
    has-or_nil _ r (h.from_visited _ _ (IsClosing-has m a _ r h w) l)

IsClosing-start : (m : Adjacency) (a : Text) → IsClosing m a [] (bucket a m)
IsClosing-start m a = record {
  from_visited = λ x y k l. absurd (not_has-nil x k);
  from_start = λ y l. ground (arith, l);
}

-- The search finds exactly the nodes that a chain of links leads to.
pub transitive_neighbors_iff :
    (a x : Text) (m : Adjacency) {r : List Text}
    → transitive_neighbors a m ≡ some r
    → (has x r ≡ true) ↔ Leads m a x
unfolding transitive_neighbors
transitive_neighbors_iff a x m {r} h =
    let fuel = suc (length (bucket a m) + weight [] m) in
    (
      search_from-led m a fuel [] (bucket a m) h (λ y k. absurd (not_has-nil y k)) (λ y k. one k) x,
      IsClosing-has m a x r
          (search_from-IsClosing m a fuel [] (bucket a m) h (IsClosing-start m a)),
    )
