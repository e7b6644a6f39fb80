-- ===== src/Curriculum/Order/Loop.antt =====
-- The invariant of Kahn's loop: degrees count the edges from nodes that are not done, and a node
-- is done or queued exactly if none is left.
use ai_coding_training_platf.Common.{
  Bool, true, false, ◌&&◌, List, [], ◌∷◌, ◌++◌, ℕ, suc, ◌+◌, Text, eq_text, eq_text_iff, ◌≡◌, refl,
  sym, arith, Bool-cases, inl, inr, if◌then◌else◌, is_none, ltb, ◌==◌, Each, subst,
}
use mathlib.Core.List.{append_assoc, append-nil}
use ai_coding_training_platf.Common.Int.{ℤ, pos, eqb_ℤ}
use ai_coding_training_platf.Common.Maps.{has, get, put, get-put}
use ai_coding_training_platf.Common.Sort.{sort}
use ai_coding_training_platf.Curriculum.{KnowledgeEdge}
use ai_coding_training_platf.Curriculum.Order.{NodesById, Degrees, degree, down, counts, release}
use ai_coding_training_platf.Curriculum.Order.Count.{
  count_of, count_of-append, count_of-has, count_of-sort,
}
use ai_coding_training_platf.Curriculum.Order.Build.{outs, waiting, waiting-done, outs-known}

degree-put :
    (j k : Text) (d : ℤ) (m : Degrees)
    → degree k (put j d m) ≡ (if eq_text j k then d else degree k m)
unfolding degree
degree-put j k d m = ground (arith, get-put j k d m)

count_of-snoc :
    (v x : Text) (q : List Text)
    → count_of v (q ++ x ∷ []) ≡ count_of v q + (if eq_text x v then 1 else 0)
unfolding count_of
count_of-snoc v x q = ground (arith, count_of-append v q (x ∷ []))

-- A text that is not released is not pushed.
release-other :
    (v : Text) (ss : List Text) (m : Degrees) (q : List Text)
    → count_of v ss ≡ 0
    → count_of v (release ss m q).1 ≡ count_of v q
unfolding release count_of
release-other v [] m q h = refl
release-other v (s ∷ ss) m q h =
    let next = down (degree s m) in
    let later =
      release-other v ss (put s next m) (if eqb_ℤ next (pos 0) then q ++ s ∷ [] else q)
        (ground arith) in
    ground (arith, later, count_of-snoc v s q)

-- A text is released as often as it stands in the list, and pushed once, when nothing is left.
release-count :
    (v : Text) (ss : List Text) (m : Degrees) (q : List Text) (left : ℕ)
    → degree v m ≡ pos (left + count_of v ss)
    → (degree v (release ss m q).0 ≡ pos left)
      × (count_of v (release ss m q).1
          ≡ count_of v q + (if ltb 0 (count_of v ss) && left == 0 then 1 else 0))
unfolding release count_of
release-count v [] m q left h = (ground arith, ground arith)
release-count v (s ∷ ss) m q left h =
    let next = down (degree s m) in
    let q' = if eqb_ℤ next (pos 0) then q ++ s ∷ [] else q in
    elim (Bool-cases (eq_text s v)) [
      | inl e ↦
          let is_v = (eq_text_iff s v).0 e in
          let at_s : degree s m ≡ pos (suc (left + count_of v ss)) = ground arith in
          let at_v : degree v (put s next m) ≡ pos (left + count_of v ss) =
            ground (arith, degree-put s v next m) in
          let later = release-count v ss (put s next m) q' left at_v in
          (later.0, ground (arith, later.1, count_of-snoc v s q))
      | inr e ↦
          let at_v : degree v (put s next m) ≡ pos (left + count_of v ss) =
            ground (arith, degree-put s v next m) in
          let later = release-count v ss (put s next m) q' left at_v in
          (later.0, ground (arith, later.1, count_of-snoc v s q))
    ]

module _ (by_id : NodesById) (edges : List KnowledgeEdge) where
  -- Every node that a counted edge requires for `x` is in `seen`.
  abbrev pub ReadyIn : List KnowledgeEdge → List Text → Text → Type 0
  ReadyIn es seen x =
      Each (λ e. counts by_id e ≡ true → e.to_stable_id ≡ x → has e.from_stable_id seen ≡ true) es

  -- Each text of a list stands after all that its edges require.
  abbrev pub InOrder : List Text → List Text → Type 0
  InOrder seen [] = Unit
  InOrder seen (x ∷ xs) = ReadyIn edges seen x × InOrder (seen ++ x ∷ []) xs

  waiting-ReadyIn :
      (seen : List Text) (x : Text) (es : List KnowledgeEdge)
      → waiting by_id seen x es ≡ 0
      → ReadyIn es seen x
  unfolding waiting
  waiting-ReadyIn seen x [] h = tt
  waiting-ReadyIn seen x (e ∷ es) h = (
    λ c t. ground (arith, eq_text_iff e.to_stable_id x),
    waiting-ReadyIn seen x es (ground arith),
  )

  InOrder-snoc :
      (seen : List Text) (xs : List Text) (x : Text)
      → InOrder seen xs
      → ReadyIn edges (seen ++ xs) x
      → InOrder seen (xs ++ x ∷ [])
  InOrder-snoc seen [] x h r = (subst (λ s. ReadyIn edges s x) (append-nil seen) r, tt)
  InOrder-snoc seen (y ∷ ys) x h r = (
    h.0,
    InOrder-snoc (seen ++ y ∷ []) ys x h.1
        (subst (λ s. ReadyIn edges s x) (sym (append_assoc seen (y ∷ []) ys)) r),
  )

  -- A node with nothing left to wait for.
  abbrev pub free : List Text → Text → ℕ
  free done v =
      if is_none (get v by_id) then 0 else if waiting by_id done v edges == 0 then 1 else 0

  pub record Inv (m : Degrees) (queue done : List Text) : Type 0 where
    pub counted :
        (v : Text) → is_none (get v by_id) ≡ false → degree v m ≡ pos (waiting by_id done v edges)
    pub once : (v : Text) → count_of v done + count_of v queue ≡ free done v
    pub in_order : InOrder [] done

  -- The successors that are released after `c` are the targets of its edges.
  module _ (before : Text → Text → Bool) (m : Degrees) (c : Text) (q done : List Text)
      (i : Inv m (c ∷ q) done) where
    abbrev pub released : Degrees × List Text
    released = release (sort before (outs by_id c edges)) m q

    c_new : has c done ≡ false
    unfolding count_of
    c_new = ground (arith, i.once c, count_of-has c done, eq_text_iff c c)

    c_free : waiting by_id done c edges ≡ 0
    unfolding count_of
    c_free = ground (arith, i.once c, eq_text_iff c c)

    left :
        (v : Text)
        → count_of v (sort before (outs by_id c edges)) + waiting by_id (done ++ c ∷ []) v edges
          ≡ waiting by_id done v edges
    left v = omega (
      arith,
      count_of-sort before v (outs by_id c edges),
      waiting-done by_id done c v edges c_new,
    )

    known_once :
        (v : Text)
        → is_none (get v by_id) ≡ false
        → (degree v released.0 ≡ pos (waiting by_id (done ++ c ∷ []) v edges))
          × (count_of v (done ++ c ∷ []) + count_of v released.1 ≡ free (done ++ c ∷ []) v)
    unfolding count_of
    known_once v k =
        let ss = sort before (outs by_id c edges) in
        let (deg, cnt) =
          release-count v ss m q (waiting by_id (done ++ c ∷ []) v edges)
            (ground (arith, i.counted v k, left v)) in
        (deg, ground (arith, cnt, i.once v, left v, count_of-snoc v c done, k))

    pub step-Inv : Inv released.0 released.1 (done ++ c ∷ [])
    unfolding count_of
    step-Inv = record {
      counted = λ v k. (known_once v k).0;
      once = λ v. elim (Bool-cases (is_none (get v by_id))) [
        | inr k ↦ (known_once v k).1
        | inl k ↦ ground (
          arith,
          i.once v,
          count_of-snoc v c done,
          count_of-sort before v (outs by_id c edges),
          outs-known by_id c v edges k,
          release-other v (sort before (outs by_id c edges)) m q,
        )
      ];
      in_order = InOrder-snoc [] done c i.in_order (waiting-ReadyIn done c edges c_free);
    }
