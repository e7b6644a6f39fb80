-- ===== src/Curriculum/Eligibility/Available.antt =====
-- When a node is available to a learner.
use ai_coding_training_platf.Common.{
  Bool, true, false, not, ◌&&◌, Option, none, some, List, [], ◌∷◌, Text, ◌≡◌, refl, sym, ◌∙◌, ap,
  ◌↔◌, arith, Bool-cases, Option-cases, inl, inr, filter_by, is_none, eq_text_iff, eq_text,
}
use ai_coding_training_platf.Common.Maps.{get, has}
use ai_coding_training_platf.Curriculum.{KnowledgeNode, KnowledgeEdge}
use ai_coding_training_platf.Curriculum.Closure.Depends.{DependsOn, prerequisite_closure_lem}
use ai_coding_training_platf.Curriculum.Eligibility.{
  ResourceSnapshot, PracticeSnapshot, Evaluation, evaluate_node_eligibility, is_reviewed, is_empty,
  BaselineLevel, BaselineMap, AbilityMap, EligibilityResult,
}
use ai_coding_training_platf.Curriculum.Eligibility.Analysis.{
  is_published, asks_diagnostic, asks_foundation, analyze_prerequisites, prerequisites_of,
  analyze_node_eligibility, make_blocked, make_ready,
}

-- What the node itself must have.
abbrev pub is_offered : KnowledgeNode → ResourceSnapshot → PracticeSnapshot → Bool
is_offered node resources practices =
    is_published node.status
    && not (is_none resources.primary)
    && is_reviewed resources.review_status
    && not (is_empty practices.tasks)

filter_by-none :
    (p : Text → Bool) (xs : List Text)
    → is_empty (filter_by p xs) ≡ true
    → (x : Text) → has x xs ≡ true
    → p x ≡ false
unfolding filter_by has
filter_by-none p [] h x k = absurd (ground arith)
filter_by-none p (y ∷ ys) h x k = elim (Bool-cases (eq_text y x)) [
  | inl e ↦ ap p (sym ((eq_text_iff y x).0 e)) ∙ ground arith
  | inr e ↦ filter_by-none p ys (ground arith) x (ground arith)
]

none-filter_by :
    (p : Text → Bool) (xs : List Text)
    → ((x : Text) → has x xs ≡ true → p x ≡ false)
    → is_empty (filter_by p xs) ≡ true
unfolding filter_by has
none-filter_by p [] h = refl
none-filter_by p (y ∷ ys) h =
    let head = h y (ground (arith, eq_text_iff y y)) in
    let tail = none-filter_by p ys (λ x k. h x (ground arith)) in ground arith

ready_iff :
    (b : Option BaselineLevel)
    → ((asks_diagnostic b ≡ false) × (asks_foundation b ≡ false)) ↔ (b ≡ some BaselineLevel.ready)
unfolding asks_diagnostic asks_foundation
ready_iff b = (λ h. ground arith, λ h. ground arith)

analyze_prerequisites-available :
    (node : KnowledgeNode) (prereqs : List Text) (baselines : BaselineMap) (abilities : AbilityMap)
    → (analyze_prerequisites node prereqs baselines abilities).is_available ≡ (
        is_empty (filter_by (λ p. asks_diagnostic (get p baselines)) prereqs)
        && is_empty (filter_by (λ p. asks_foundation (get p baselines)) prereqs))
unfolding analyze_prerequisites make_blocked make_ready
analyze_prerequisites-available node prereqs baselines abilities = ground arith

all_ready :
    (prereqs : List Text) (baselines : BaselineMap)
    → ((is_empty (filter_by (λ p. asks_diagnostic (get p baselines)) prereqs)
          && is_empty (filter_by (λ p. asks_foundation (get p baselines)) prereqs))
        ≡ true)
      ↔ ((p : Text) → has p prereqs ≡ true → get p baselines ≡ some BaselineLevel.ready)
all_ready prereqs baselines = (
  λ h p k. (ready_iff (get p baselines)).0 (
    filter_by-none (λ x. asks_diagnostic (get x baselines)) prereqs (ground arith) p k,
    filter_by-none (λ x. asks_foundation (get x baselines)) prereqs (ground arith) p k,
  ),
  λ h.
      let a =
        none-filter_by (λ x. asks_diagnostic (get x baselines)) prereqs
          (λ p k. ((ready_iff (get p baselines)).1 (h p k)).0) in
      let b =
        none-filter_by (λ x. asks_foundation (get x baselines)) prereqs
          (λ p k. ((ready_iff (get p baselines)).1 (h p k)).1) in
      ground arith,
)

module _ (node : KnowledgeNode) (edges : List KnowledgeEdge) (resources : ResourceSnapshot)
    (practices : PracticeSnapshot) (given : Option (List Text)) (baselines : BaselineMap)
    (abilities : AbilityMap) where
  pub analyze_offered :
      {prereqs : List Text}
      → is_offered node resources practices ≡ true
      → prerequisites_of node edges given ≡ some prereqs
      → analyze_node_eligibility node edges resources practices given baselines abilities
        ≡ some (analyze_prerequisites node prereqs baselines abilities)
  unfolding analyze_node_eligibility
  analyze_offered h e = ground arith

  pub analyze_not_offered :
      is_offered node resources practices ≡ false
      → (r : EligibilityResult) × (analyze_node_eligibility node edges resources practices given
            baselines abilities
          ≡ some r)
        × (r.is_available ≡ false)
  unfolding analyze_node_eligibility make_blocked
  analyze_not_offered h =
      elim (Option-cases
        (analyze_node_eligibility node edges resources practices given baselines abilities)) [
          | inl n ↦ absurd (ground arith)
          | inr (r, e) ↦ (r, e, ground arith)
        ]

-- Without given prerequisites the analysis always gives a result, and it finds a node available
-- exactly if the node is published with a reviewed primary resource and a practice task, and the
-- learner's baseline is `ready` for every node that it depends on through required edges.
pub analyze_node_eligibility_iff :
    (node : KnowledgeNode) (edges : List KnowledgeEdge) (resources : ResourceSnapshot)
    (practices : PracticeSnapshot) (baselines : BaselineMap) (abilities : AbilityMap)
    → (r : EligibilityResult) × (analyze_node_eligibility node edges resources practices none
          baselines abilities
        ≡ some r)
      × ((r.is_available ≡ true) ↔ (
          (is_offered node resources practices ≡ true)
          × ((p : Text)
              → DependsOn edges node.stable_id p
              → get p baselines ≡ some BaselineLevel.ready)))
unfolding analyze_node_eligibility prerequisites_of
analyze_node_eligibility_iff node edges resources practices baselines abilities =
    let (prereqs, e, _, mem) = prerequisite_closure_lem node.stable_id edges in
    let of_node : prerequisites_of node edges none ≡ some prereqs = e in
    elim (Bool-cases (is_offered node resources practices)) [
      | inr n ↦
          let (r, is_r, blocked) =
            analyze_not_offered node edges resources practices none baselines abilities n in
          (r, is_r, (λ h. absurd (ground arith), λ h. absurd (ground arith)))
      | inl o ↦
          let by_closure = analyze_prerequisites-available node prereqs baselines abilities in
          let (to_ready, from_ready) = all_ready prereqs baselines in
          (
            analyze_prerequisites node prereqs baselines abilities,
            analyze_offered node edges resources practices none baselines abilities o of_node,
            (
              λ h. (o, λ p d. to_ready (sym by_closure ∙ h) p ((mem p).1 d)),
              λ h. by_closure ∙ from_ready (λ p k. h.1 p ((mem p).0 k)),
            ),
          )
    ]

pub evaluate_offered :
    (node : KnowledgeNode) (resources : ResourceSnapshot) (practices : PracticeSnapshot)
    → (evaluate_node_eligibility node resources practices ≡ Evaluation.available)
      ↔ (is_offered node resources practices ≡ true)
unfolding evaluate_node_eligibility
evaluate_offered node resources practices = (λ h. ground arith, λ h. ground arith)

-- With given prerequisites the analysis always gives a result, and it finds a node available
-- exactly if `evaluateNodeEligibility` does and the learner's baseline is `ready` for each of them.
pub analyze_node_eligibility-evaluate :
    (node : KnowledgeNode) (edges : List KnowledgeEdge) (resources : ResourceSnapshot)
    (practices : PracticeSnapshot) (prereqs : List Text) (baselines : BaselineMap)
    (abilities : AbilityMap)
    → (r : EligibilityResult) × (analyze_node_eligibility node edges resources practices
          (some prereqs)
          baselines
          abilities
        ≡ some r)
      × ((r.is_available ≡ true) ↔ (
          (evaluate_node_eligibility node resources practices ≡ Evaluation.available)
          × ((p : Text) → has p prereqs ≡ true → get p baselines ≡ some BaselineLevel.ready)))
unfolding prerequisites_of
analyze_node_eligibility-evaluate node edges resources practices prereqs baselines abilities =
    let (to_offered, from_offered) = evaluate_offered node resources practices in
    elim (Bool-cases (is_offered node resources practices)) [
      | inr n ↦
          let (r, is_r, blocked) =
            analyze_not_offered node edges resources practices (some prereqs) baselines abilities
              n in
          (
            r,
            is_r,
            (λ h. absurd (ground arith), λ h. let o = to_offered h.0 in absurd (ground arith)),
          )
      | inl o ↦
          let by_lists = analyze_prerequisites-available node prereqs baselines abilities in
          let (to_ready, from_ready) = all_ready prereqs baselines in
          (
            analyze_prerequisites node prereqs baselines abilities,
            analyze_offered node edges resources practices (some prereqs) baselines abilities o
                refl,
            (λ h. (from_offered o, to_ready (sym by_lists ∙ h)), λ h. by_lists ∙ from_ready h.1),
          )
    ]
