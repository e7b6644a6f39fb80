-- ===== src/Verdicts/Picked.antt =====
-- Where the request that the compatibility path picks comes from.
use ai_coding_training_platf.Common.{
  Bool, true, none, List, [], ◌∷◌, map, Text, filter_by, Each, filter_by-Each, ◌≡◌, inl, inr, arith,
  Bool-cases, Option-cases, subst,
}
use ai_coding_training_platf.Common.Maps.{get, put-Each}
use ai_coding_training_platf.Common.Sort.{sort, insert}
use ai_coding_training_platf.Verdicts.{TransientE1Lifecycle, TransientVerdictCandidate}
use ai_coding_training_platf.Verdicts.Latest.{
  Clock, single, is_eligible_submit, note_submit, submits_by_request,
  select_eligible_submit_lifecycles, sole_submit, select_latest_submit, latest_among, has_stamp,
  has_time, is_request_before, max_api, max_received, received_ms_after,
}

module _ {A : Type 0} (P : A → Type 0) where
  insert-Each :
      (before : A → A → Bool) (x : A) (ys : List A) → P x → Each P ys → Each P (insert before x ys)
  unfolding insert
  insert-Each before x [] p h = (p, tt)
  insert-Each before x (y ∷ ys) p h = elim (Bool-cases (before y x)) [
    | inl e ↦ rw e (h.0, insert-Each before x ys p h.1)
    | inr e ↦ rw e (p, (h.0, h.1))
  ]

  sort-Each : (before : A → A → Bool) (xs : List A) → Each P xs → Each P (sort before xs)
  unfolding sort
  sort-Each before [] h = tt
  sort-Each before (x ∷ xs) h = insert-Each before x (sort before xs) h.0 (sort-Each before xs h.1)

module _ (clock : Clock) (P : TransientE1Lifecycle → Type 0) where
  sole_submit-single :
      (l : TransientE1Lifecycle) (ls : List TransientE1Lifecycle) {m : TransientE1Lifecycle}
      → P l
      → Each P ls
      → sole_submit clock l ls ≡ single m
      → P m
  unfolding sole_submit
  sole_submit-single l [] p h e = subst P (ground arith) p
  sole_submit-single l (x ∷ xs) p h e = subst P (ground arith) h.0

  latest_among-single :
      (l : TransientE1Lifecycle) (ls : List TransientE1Lifecycle) {m : TransientE1Lifecycle}
      → P l
      → Each P ls
      → latest_among clock l ls ≡ single m
      → P m
  unfolding latest_among
  latest_among-single l [] p h e = subst P (ground arith) p
  latest_among-single l (x ∷ xs) p h e =
      let at_stamp = filter_by (has_stamp clock (max_api none (x ∷ xs))) (x ∷ xs) in
      sole_submit-single l (sort (is_request_before clock) at_stamp) p
        (sort-Each P (is_request_before clock) at_stamp
          (filter_by-Each P (has_stamp clock (max_api none (x ∷ xs))) (x ∷ xs) h))
        e

  pub select_latest_submit-single :
      (l : TransientE1Lifecycle) (ls : List TransientE1Lifecycle) {m : TransientE1Lifecycle}
      → P l
      → Each P ls
      → select_latest_submit clock l ls ≡ single m
      → P m
  unfolding select_latest_submit
  select_latest_submit-single l ls p h e =
      let latest = has_time clock (max_received clock none (l ∷ ls)) in
      latest_among-single l (filter_by latest (l ∷ ls)) p (filter_by-Each P latest (l ∷ ls) (p, h))
        e

  module _ (c : TransientVerdictCandidate) where
    abbrev Good : TransientE1Lifecycle → Type 0
    Good l = (is_eligible_submit clock c l ≡ true) × P l

    note_submit-Each :
        (m : List (Text × TransientE1Lifecycle)) (l : TransientE1Lifecycle)
        → Good l
        → Each (λ x. Good x.1) m
        → Each (λ x. Good x.1) (note_submit clock m l)
    unfolding note_submit
    note_submit-Each m l g h = elim (Option-cases (get l.evidence.request_id m)) [
      | inl e ↦ rw (e, note_submit) (put-Each (λ x. Good x.1) l.evidence.request_id l m g h)
      | inr (old, e) ↦ elim (Bool-cases (received_ms_after clock l old)) [
        | inl b ↦ rw (e, b, note_submit) (put-Each (λ x. Good x.1) l.evidence.request_id l m g h)
        | inr b ↦ rw (e, b, note_submit) h
      ]
    ]

    submits_by_request-Each :
        (ls : List TransientE1Lifecycle) (m : List (Text × TransientE1Lifecycle))
        → Each P ls
        → Each (λ x. Good x.1) m
        → Each (λ x. Good x.1) (submits_by_request clock c m ls)
    unfolding submits_by_request
    submits_by_request-Each [] m p h = h
    submits_by_request-Each (l ∷ ls) m p h = elim (Bool-cases (is_eligible_submit clock c l)) [
      | inl e ↦
          rw e (
            submits_by_request-Each ls (note_submit clock m l) p.1
              (note_submit-Each m l (e, p.0) h))
      | inr e ↦ rw e (submits_by_request-Each ls m p.1 h)
    ]

    Each-values :
        (m : List (Text × TransientE1Lifecycle))
        → Each (λ x. Good x.1) m
        → Each Good (map (λ x. x.1) m)
    Each-values [] h = tt
    Each-values (x ∷ m) h = (h.0, Each-values m h.1)

    pub select_eligible_submit_lifecycles-Each :
        (ls : List TransientE1Lifecycle)
        → Each P ls
        → Each Good (select_eligible_submit_lifecycles clock ls c)
    unfolding select_eligible_submit_lifecycles
    select_eligible_submit_lifecycles-Each ls p = Each-values _ (submits_by_request-Each ls [] p tt)
