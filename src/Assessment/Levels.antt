-- ===== src/Assessment/Levels.antt =====
-- How far one projection moves the level of a node, and on what evidence; and which review a
-- classified session leads to.
use ai_coding_training_platf.Common.{
  Bool, true, false, ◌&&◌, Option, some, [], ◌∷◌, ℕ, ◌+◌, ◌≤◌, ◌<◌, Text, ◌≡◌, refl, sym, ap, ◌∙◌,
  ◌↔◌, arith, Option-cases, inl, inr, any_of, units, subst,
}
use ai_coding_training_platf.Common.Result.{ok, Result-cases}
use ai_coding_training_platf.Common.Sort.{sort}
use ai_coding_training_platf.Domain.{passed}
use ai_coding_training_platf.Curriculum.Eligibility.{AbilityLevel}
use ai_coding_training_platf.Assessment.{
  TrainingOutcomeInput, classify_training_outcome, schedule_next_review, coverage_of, outcome_of,
  create_review, ScheduledReview, transfer, TrainingOutcome, EvidenceCoverage, e1, e2, e3, e4,
  independent_effective_completion, assisted_effective_completion, productive_struggle,
  unproductive_trial_and_error, insufficient_evidence,
}
use ai_coding_training_platf.Assessment.Ability.{
  EvidenceAbilityProjection, AbilityHost, AbilityInput, rank, any, counts_independent,
  counts_transfer, next_rank, last_of, parse_time, has_stable_independent_evidence, before_fact,
  stale_at, project_evidence_ability, sorted_facts, independent_facts, target_level, is_failing,
  projection,
}
use ai_coding_training_platf.Assessment.Targets.{
  any-filter, any_of-filter, any_of-sort, rank-most, rank-level_at, target_of-independent,
  target_of-transfer, stable-any, any_of-any,
}

-- How a projection may move a level.
pub record Moves (host : AbilityHost) (input : AbilityInput) (level : AbilityLevel) : Type 0 where
  pub one_up : rank level ≤ rank input.previous_level + 1
  pub one_down : rank input.previous_level ≤ rank level + 1
  pub on_independent :
      rank input.previous_level < rank level
      → 3 ≤ rank level
      → any_of counts_independent input.facts ≡ true
  pub on_transfer :
      rank input.previous_level < rank level
      → 5 ≤ rank level
      → any_of (λ f. counts_independent f && counts_transfer f) input.facts ≡ true
  pub on_failure : rank level < rank input.previous_level → is_failing host input ≡ true

module _ (host : AbilityHost) (input : AbilityInput) where
  -- A projection that is given comes from the search for stable evidence.
  project-parts :
      {p : EvidenceAbilityProjection}
      → project_evidence_ability host input ≡ ok p
      → (stable : Bool) × (stale : Bool) × (has_stable_independent_evidence host
            (independent_facts host input)
          ≡ ok stable)
        × (p ≡ projection host input stable stale)
  unfolding project_evidence_ability
  project-parts h =
      elim (Result-cases (has_stable_independent_evidence host (independent_facts host input))) [
        | inl (e, a) ↦ absurd (ground arith)
        | inr (stable, a) ↦ elim (Result-cases (parse_time host input.now)) [
          | inl (e, b) ↦ absurd (ground arith)
          | inr (now, b) ↦
              elim (Result-cases (stale_at host now (last_of (sorted_facts host input)))) [
                | inl (e, c) ↦ absurd (ground arith)
                | inr (stale, c) ↦ (stable, stale, a, ground arith)
              ]
        ]
      ]

  independent_any : any (independent_facts host input) ≡ any_of counts_independent input.facts
  unfolding independent_facts sorted_facts
  independent_any =
      any-filter counts_independent (sort (before_fact host) input.facts)
      ∙ any_of-sort (before_fact host) counts_independent input.facts

  transfer_any :
      any_of counts_transfer (independent_facts host input)
      ≡ any_of (λ f. counts_independent f && counts_transfer f) input.facts
  unfolding independent_facts sorted_facts
  transfer_any =
      any_of-filter counts_independent counts_transfer (sort (before_fact host) input.facts)
      ∙ any_of-sort (before_fact host) (λ f. counts_independent f && counts_transfer f) input.facts

  next_level : Bool → ℕ
  next_level stable =
      next_rank (rank input.previous_level) (rank (target_level host input stable).0)
        (is_failing host input)

  level-rank :
      (stable stale : Bool)
      → rank (projection host input stable stale).visible_level ≡ next_level stable
  unfolding projection next_level next_rank
  level-rank stable stale =
      rank-level_at (next_level stable) (
        ground
          (arith, rank-most input.previous_level, rank-most (target_level host input stable).0))

  level-independent :
      (stable : Bool)
      → has_stable_independent_evidence host (independent_facts host input) ≡ ok stable
      → 3 ≤ rank (target_level host input stable).0
      → any_of counts_independent input.facts ≡ true
  unfolding target_level
  level-independent stable h high =
      let independent = independent_facts host input in
      sym independent_any
      ∙ target_of-independent _ stable independent _ _ _ (any_of-any counts_transfer independent)
          (λ (e : stable ≡ true). stable-any host independent (h ∙ ap ok e)) high

  level-transfer :
      (stable : Bool)
      → 5 ≤ rank (target_level host input stable).0
      → any_of (λ f. counts_independent f && counts_transfer f) input.facts ≡ true
  unfolding target_level
  level-transfer stable high =
      sym transfer_any ∙ target_of-transfer _ stable (independent_facts host input) _ _ _ high

  projection-Moves :
      (stable stale : Bool)
      → has_stable_independent_evidence host (independent_facts host input) ≡ ok stable
      → Moves host input (projection host input stable stale).visible_level
  unfolding next_level next_rank
  projection-Moves stable stale h =
      let n = level-rank stable stale in
      record {
        one_up = ground (arith, n);
        one_down = ground (arith, n);
        on_independent = λ up high. level-independent stable h (ground (arith, n));
        on_transfer = λ up high. level-transfer stable (ground (arith, n));
        on_failure = λ down. ground (arith, n);
      }

-- A projection that is given moves the level by at most one: up to L3 or higher only if one of the
-- facts is an independent primary completion with more than E1 coverage, up to L5 only if such a
-- fact is an unfamiliar transfer in a project with E4 coverage, and down only if the last two
-- primary facts are unproductive.
pub project_evidence_ability-Moves :
    (host : AbilityHost) (input : AbilityInput) {p : EvidenceAbilityProjection}
    → project_evidence_ability host input ≡ ok p
    → Moves host input p.visible_level
project_evidence_ability-Moves host input h =
    let (stable, stale, found, e) = project-parts host input h in
    subst (λ x. Moves host input x.visible_level) (sym e)
      (projection-Moves host input stable stale found)

schedule-transfer :
    (add_days : Text → ℕ → Option Text) (o : TrainingOutcome) (c : EvidenceCoverage) (t : Text)
    {r : ScheduledReview}
    → schedule_next_review add_days o c t ≡ ok r
    → r.purpose ≡ transfer
    → (o ≡ independent_effective_completion)
      × (c ≡ e4)
      × ((due : Text) × (add_days t 14 ≡ some due))
unfolding schedule_next_review create_review
schedule-transfer add_days independent_effective_completion e4 t h k =
    elim (Option-cases (add_days t 14)) [
      | inl e ↦ absurd (ground arith)
      | inr (due, e) ↦ (refl, refl, (due, e))
    ]
schedule-transfer add_days independent_effective_completion e1 t h k = absurd (ground arith)
schedule-transfer add_days independent_effective_completion e2 t h k = absurd (ground arith)
schedule-transfer add_days independent_effective_completion e3 t h k = absurd (ground arith)
schedule-transfer add_days assisted_effective_completion c t h k = absurd (ground arith)
schedule-transfer add_days productive_struggle c t h k = absurd (ground arith)
schedule-transfer add_days unproductive_trial_and_error c t h k = absurd (ground arith)
schedule-transfer add_days insufficient_evidence c t h k = absurd (ground arith)

transfer_scheduled :
    (add_days : Text → ℕ → Option Text) (t : Text) {due : Text}
    → add_days t 14 ≡ some due
    → (r : ScheduledReview) × (schedule_next_review add_days independent_effective_completion e4 t
        ≡ ok r)
      × (r.purpose ≡ transfer)
unfolding schedule_next_review create_review
transfer_scheduled add_days t {due} h = (
  record {
    purpose = transfer;
    due_at = due;
    priority = 55;
    reason_codes = units "verify_independent_transfer" ∷ [];
  },
  ground arith,
  refl,
)

outcome-coverage :
    (i : TrainingOutcomeInput)
    → (((outcome_of i).0 ≡ independent_effective_completion) × (coverage_of i ≡ e4)) ↔ (
        (i.result ≡ passed)
        × (i.used_assistance ≡ some false)
        × (i.has_run_or_test_evidence ≡ true))
unfolding outcome_of coverage_of
outcome-coverage i =
    (λ h. (ground arith, ground arith, ground arith), λ h. (ground arith, ground arith))

-- A classified session is scheduled for a transfer exactly if it was passed, without assistance,
-- with evidence of a run or a test, and the time that it is due can be computed.
pub classify-schedule :
    (add_days : Text → ℕ → Option Text) (fingerprint : TrainingOutcomeInput → Text)
    (i : TrainingOutcomeInput) (created_at : Text)
    → let c = classify_training_outcome fingerprint i in
      ((r : ScheduledReview) × (schedule_next_review add_days c.outcome c.coverage_level created_at
          ≡ ok r)
        × (r.purpose ≡ transfer))
      ↔ ((i.result ≡ passed)
          × (i.used_assistance ≡ some false)
          × (i.has_run_or_test_evidence ≡ true)
          × ((due : Text) × (add_days created_at 14 ≡ some due)))
unfolding classify_training_outcome
classify-schedule add_days fingerprint i created_at =
    let (to_facts, of_facts) = outcome-coverage i in
    (
      λ (r, h, k).
          let (independent, covered, due) =
            schedule-transfer add_days (outcome_of i).0 (coverage_of i) created_at h k in
          let (a, b, c) = to_facts (independent, covered) in (a, b, c, due),
      λ (a, b, c, (due, e)).
          let (independent, covered) = of_facts (a, b, c) in
          let (r, h, k) = transfer_scheduled add_days created_at {due = due} e in
          (r, rw (independent, covered) h, k),
    )
