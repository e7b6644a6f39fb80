-- ===== src/Planning/Allowed.antt =====
-- Which tasks the selector offers, and when it offers none.
use ai_coding_training_platf.Common.{
  Bool, true, false, not, ◌&&◌, Option, none, some, List, [], ◌∷◌, ◌++◌, Text, eq_text, eq_text_iff,
  length, ◌≡◌, sym, ap, ◌∙◌, subst, arith, Bool-cases, Option-cases, inl, inr, any_of, Each,
  filter_by, find_by, ltb,
}
use ai_coding_training_platf.Common.Maps.{has, add, get}
use ai_coding_training_platf.Common.Sort.{sort, insert}
use ai_coding_training_platf.Planning.{
  CandidateTaskSelectorInput, CandidateNode, PracticeTask, PracticeTaskRef, Candidate, is_eligible,
  eligible_nodes, or_empty,
}
use ai_coding_training_platf.Planning.Pool.{
  Goals, tasks_of, candidates_of, candidates, without_recent, comes_before, pool_of, most_recent,
}

module _ {A : Type 0} (P : A → Type 0) where
  each_append : (xs ys : List A) → Each P xs → Each P ys → Each P (xs ++ ys)
  each_append [] ys h k = k
  each_append (x ∷ xs) ys h k = (h.0, each_append xs ys h.1 k)

  each_filter : (p : A → Bool) (xs : List A) → Each P xs → Each P (filter_by p xs)
  unfolding filter_by
  each_filter p [] h = tt
  each_filter p (x ∷ xs) h = elim (Bool-cases (p x)) [
    | inl e ↦ rw e (h.0, each_filter p xs h.1)
    | inr e ↦ rw e (each_filter p xs h.1)
  ]

  each_insert :
      (before : A → A → Bool) (x : A) (xs : List A) → P x → Each P xs → Each P (insert before x xs)
  unfolding insert
  each_insert before x [] p h = (p, tt)
  each_insert before x (y ∷ ys) p h = elim (Bool-cases (before y x)) [
    | inl e ↦ rw e (h.0, each_insert before x ys p h.1)
    | inr e ↦ rw e (p, h)
  ]

  each_sort : (before : A → A → Bool) (xs : List A) → Each P xs → Each P (sort before xs)
  unfolding sort
  each_sort before [] h = tt
  each_sort before (x ∷ xs) h = each_insert before x (sort before xs) h.0 (each_sort before xs h.1)

  pub find_each :
      (p : A → Bool) (xs : List A) {x : A} → find_by p xs ≡ some x → Each P xs → P x × (p x ≡ true)
  unfolding find_by
  find_each p [] e h = absurd (ground arith)
  find_each p (y ∷ ys) {x} e h = elim (Bool-cases (p y)) [
    | inl k ↦ let same : y ≡ x = ground arith in (subst P same h.0, ap p (sym same) ∙ k)
    | inr k ↦ find_each p ys {x = x} (rw k at e) h.1
  ]

filter_each : {A : Type 0} (p : A → Bool) (xs : List A) → Each (λ x. p x ≡ true) (filter_by p xs)
unfolding filter_by
filter_each p [] = tt
filter_each p (x ∷ xs) = elim (Bool-cases (p x)) [
  | inl e ↦ rw e (e, filter_each p xs)
  | inr e ↦ rw e (filter_each p xs)
]

each_both :
    {A : Type 0} (P Q : A → Type 0) (xs : List A) → Each P xs → Each Q xs → Each (λ x. P x × Q x) xs
each_both P Q [] h k = tt
each_both P Q (x ∷ xs) h k = ((h.0, k.0), each_both P Q xs h.1 k.1)

-- A task of a given node: the node is one of the input, passes the checks of eligibility, and has
-- the task.
pub record IsCandidate (input : CandidateTaskSelectorInput) (node_id task_id : Text) : Type 0 where
  pub given : any_of (λ n. eq_text n.stable_id node_id) input.nodes ≡ true
  pub eligible : is_eligible input node_id ≡ true
  pub practiced :
      any_of (λ t. eq_text t.stable_id task_id) (or_empty (get node_id input.practices_by_node))
      ≡ true

-- The same, and the learner has not skipped the task.
abbrev pub IsAllowed : CandidateTaskSelectorInput → PracticeTaskRef → Type 0
IsAllowed input r =
    IsCandidate input r.node_id r.task_id × (has r.task_id input.recently_skipped ≡ false)

module _ (input : CandidateTaskSelectorInput) where
  abbrev pub Fits : Candidate → Type 0
  Fits c = IsCandidate input c.node_id c.task_id

  eligible_each :
      (out : List Text) (ns : List CandidateNode)
      → Each (λ id. is_eligible input id ≡ true) out
      → Each (λ id. is_eligible input id ≡ true) (eligible_nodes input out ns)
  unfolding eligible_nodes add
  eligible_each out [] h = h
  eligible_each out (n ∷ ns) h = elim (Bool-cases (is_eligible input n.stable_id)) [
    | inl e ↦ elim (Bool-cases (has n.stable_id out)) [
      | inl k ↦ rw (e, k) (eligible_each out ns h)
      | inr k ↦
          rw (e, k)
            (eligible_each (out ++ n.stable_id ∷ []) ns
              (each_append (λ id. is_eligible input id ≡ true) out (n.stable_id ∷ []) h (e, tt)))
    ]
    | inr e ↦ rw e (eligible_each out ns h)
  ]

  found_any :
      (id : Text) (ns : List CandidateNode) {n : CandidateNode}
      → find_by (λ m. eq_text m.stable_id id) ns ≡ some n
      → any_of (λ m. eq_text m.stable_id id) ns ≡ true
  unfolding find_by any_of
  found_any id [] e = absurd (ground arith)
  found_any id (m ∷ ms) {n} e = elim (Bool-cases (eq_text m.stable_id id)) [
    | inl k ↦ ground arith
    | inr k ↦ let later = found_any id ms {n = n} (rw k at e) in ground arith
  ]

  tasks_each :
      (goals : Goals) (node : CandidateNode) (id : Text) (ts : List PracticeTask)
      → any_of (λ n. eq_text n.stable_id id) input.nodes ≡ true
      → is_eligible input id ≡ true
      → ((t : Text)
          → any_of (λ x. eq_text x.stable_id t) ts ≡ true
          → any_of (λ x. eq_text x.stable_id t) (or_empty (get id input.practices_by_node)) ≡ true)
      → Each Fits (tasks_of input goals node id ts)
  unfolding tasks_of any_of
  tasks_each goals node id [] g e h = tt
  tasks_each goals node id (t ∷ ts) g e h = (
    record {
      given = g;
      eligible = e;
      practiced = h t.stable_id (ground (arith, eq_text_iff t.stable_id t.stable_id));
    },
    tasks_each goals node id ts g e (λ x k. h x (ground arith)),
  )

  candidates_of_each :
      (goals : Goals) (id : Text)
      → is_eligible input id ≡ true
      → Each Fits (candidates_of input goals id)
  unfolding candidates_of
  candidates_of_each goals id h =
      let ts = or_empty (get id input.practices_by_node) in
      elim (Option-cases (find_by (λ n. eq_text n.stable_id id) input.nodes)) [
        | inl e ↦
            let empty : candidates_of input goals id ≡ [] = ground arith in
            subst (Each Fits) (sym empty) tt
        | inr (n, e) ↦
            let of_node : candidates_of input goals id ≡ tasks_of input goals n id ts =
              ground arith in
            subst (Each Fits) (sym of_node)
              (tasks_each goals n id ts (found_any id input.nodes {n = n} e) h (λ t k. k))
      ]

  candidates_each :
      (goals : Goals) (nodes : List Text)
      → Each (λ id. is_eligible input id ≡ true) nodes
      → Each Fits (candidates input goals nodes)
  unfolding candidates
  candidates_each goals [] h = tt
  candidates_each goals (id ∷ nodes) h =
      each_append Fits (candidates_of input goals id) (candidates input goals nodes)
        (candidates_of_each goals id h.0) (candidates_each goals nodes h.1)

  abbrev pub Offered : Candidate → Type 0
  Offered c = Fits c × (not (has c.task_id input.recently_skipped) ≡ true)

  recent_each :
      (r : Option Text) (pool : List Candidate)
      → Each Offered pool
      → Each Offered (without_recent r pool)
  unfolding without_recent
  recent_each none pool h = h
  recent_each (some t) pool h =
      elim (Bool-cases
        (ltb 0 (length (filter_by (λ c. eq_text c.task_id t) pool)) && ltb 1 (length pool))) [
          | inl e ↦ rw e (each_filter Offered (λ c. not (eq_text c.task_id t)) pool h)
          | inr e ↦ rw e h
        ]

  pub pool_each : (goals : Goals) → Each Offered (pool_of input goals)
  unfolding pool_of
  pool_each goals =
      let all = candidates input goals (eligible_nodes input [] input.nodes) in
      let kept = λ (c : Candidate). not (has c.task_id input.recently_skipped) in
      each_sort Offered (comes_before input.effort_boundary_minutes goals)
        (without_recent (most_recent input.recent_completions) (filter_by kept all))
        (recent_each (most_recent input.recent_completions) (filter_by kept all) (
          each_both Fits (λ c. kept c ≡ true) (filter_by kept all)
            (each_filter Fits kept all (
              candidates_each goals (eligible_nodes input [] input.nodes)
                (eligible_each [] input.nodes tt)))
            (filter_each kept all)))
