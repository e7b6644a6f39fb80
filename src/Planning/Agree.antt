-- ===== src/Planning/Agree.antt =====
-- Where the selector's checks of a node agree with `analyzeNodeEligibility`.
use ai_coding_training_platf.Common.{
  Bool, true, false, Option, some, List, [], ◌∷◌, Text, eq_text, eq_text_iff, ◌≡◌, refl, sym, ap,
  ◌∙◌, arith, Bool-cases, inl, inr, ◌↔◌, any_of, is_none,
}
use ai_coding_training_platf.Common.Maps.{has, get}
use ai_coding_training_platf.Curriculum.{KnowledgeNode, KnowledgeNodeStatus, KnowledgeEdge}
use ai_coding_training_platf.Curriculum.Eligibility.{
  BaselineLevel, AbilityMap, ResourceSnapshot, PracticeSnapshot, is_reviewed, is_empty,
  EligibilityResult,
}
use ai_coding_training_platf.Curriculum.Eligibility.Analysis.{analyze_node_eligibility}
use ai_coding_training_platf.Curriculum.Eligibility.Available.{
  evaluate_offered, analyze_node_eligibility-evaluate,
}
use ai_coding_training_platf.Planning.{
  CandidateTaskSelectorInput, blocks, is_eligible, or_empty, has_reviewed,
}

any_of-false :
    (p : Text → Bool) (xs : List Text)
    → (any_of p xs ≡ false) ↔ ((x : Text) → has x xs ≡ true → p x ≡ false)
unfolding any_of has
any_of-false p [] = (λ h x k. absurd (ground arith), λ h. refl)
any_of-false p (y ∷ ys) =
    let (to_each, of_each) = any_of-false p ys in
    (
      λ h x k. elim (Bool-cases (eq_text y x)) [
        | inl e ↦ ap p (sym ((eq_text_iff y x).0 e)) ∙ ground arith
        | inr e ↦ to_each (ground arith) x (ground arith)
      ],
      λ h.
          let head = h y (ground (arith, eq_text_iff y y)) in
          let tail = of_each (λ x k. h x (ground arith)) in ground arith,
    )

ready_unless_blocked :
    (b : Option BaselineLevel)
    → (b ≡ some BaselineLevel.ready) ↔ ((blocks b ≡ false) × (is_none b ≡ false))
unfolding blocks
ready_unless_blocked b = (λ h. ground arith, λ h. ground arith)

-- What the selector reads of a node is what the analysis reads of it.
pub record SameNode (input : CandidateTaskSelectorInput) (node : KnowledgeNode)
    (resources : ResourceSnapshot) (practices : PracticeSnapshot) : Type 0 where
  pub published : node.status ≡ KnowledgeNodeStatus.published
  pub present : is_none resources.primary ≡ false
  pub reviewed :
      has_reviewed (get node.stable_id input.resources_by_node)
      ≡ is_reviewed resources.review_status
  pub practiced :
      is_empty (or_empty (get node.stable_id input.practices_by_node)) ≡ is_empty practices.tasks

-- For a published node of which both read the same, the analysis gives a result, and finds the
-- node available exactly if the selector takes it for eligible and the learner has a baseline for
-- each of its prerequisites.
pub is_eligible-analyze :
    (input : CandidateTaskSelectorInput) (node : KnowledgeNode) (edges : List KnowledgeEdge)
    (resources : ResourceSnapshot) (practices : PracticeSnapshot) (abilities : AbilityMap)
    → SameNode input node resources practices
    → (r : EligibilityResult) × (analyze_node_eligibility node edges resources practices
          (some (or_empty (get node.stable_id input.prerequisites_by_node)))
          input.baselines_by_node
          abilities
        ≡ some r)
      × ((r.is_available ≡ true) ↔ (
          (is_eligible input node.stable_id ≡ true)
          × ((p : Text)
              → has p (or_empty (get node.stable_id input.prerequisites_by_node)) ≡ true
              → is_none (get p input.baselines_by_node) ≡ false)))
unfolding is_eligible
is_eligible-analyze input node edges resources practices abilities s =
    let prereqs = or_empty (get node.stable_id input.prerequisites_by_node) in
    let baselines = input.baselines_by_node in
    let (r, is_r, (to_ready, of_ready)) =
      analyze_node_eligibility-evaluate node edges resources practices prereqs baselines
        abilities in
    let (to_offered, of_offered) = evaluate_offered node resources practices in
    let (to_each, of_each) = any_of-false (λ p. blocks (get p baselines)) prereqs in
    (
      r,
      is_r,
      (
        λ h.
            let (evaluated, all) = to_ready h in
            let offered = to_offered evaluated in
            let unblocked =
              of_each (λ p k. ((ready_unless_blocked (get p baselines)).0 (all p k)).0) in
            (
              ground (arith, s.reviewed, s.practiced),
              λ p k. ((ready_unless_blocked (get p baselines)).0 (all p k)).1,
            ),
        λ (eligible, known). of_ready (
          of_offered (ground (arith, s.published, s.present, s.reviewed, s.practiced)),
          λ p k. (ready_unless_blocked (get p baselines)).1 (to_each (ground arith) p k, known p k),
        ),
      ),
    )
