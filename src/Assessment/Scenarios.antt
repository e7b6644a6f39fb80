-- ===== src/Assessment/Scenarios.antt =====
-- One session and two facts, over which the theorems of Assessment are applied.
use ai_coding_training_platf.Common.Maps.{add, has}
use ai_coding_training_platf.Common.Sort.{sort}
use ai_coding_training_platf.Common.{
  Option, Text, [], any_of, eq_text, false, filter_by, length, lt_text, refl, some, true, units, ℕ,
  ◌++◌, ◌↔◌, ◌∷◌, ◌≡◌,
}
use ai_coding_training_platf.Common.Int.{pos}
use ai_coding_training_platf.Common.Result.{ok}
use ai_coding_training_platf.Domain.{passed}
use ai_coding_training_platf.Curriculum.Eligibility.{l2, l3}
use ai_coding_training_platf.Assessment.{
  TrainingOutcomeInput, classify_training_outcome, schedule_next_review, ScheduledReview, transfer,
  independent_effective_completion, unproductive_trial_and_error, e3, high, medium, TrainingOutcome,
}
use ai_coding_training_platf.Assessment.Ability.{
  EvidenceAbilityFact, EvidenceAbilityProjection, attempt, primary, AbilityHost, AbilityInput,
  project_evidence_ability,
}
use ai_coding_training_platf.Assessment.Levels.{
  Moves, project_evidence_ability-Moves, classify-schedule,
}

abbrev session : TrainingOutcomeInput
session = record {
  result = passed;
  used_assistance = some false;
  submission_count = 2;
  meaningful_change_count = 1;
  has_submission_sequence = true;
  has_code_snapshot = true;
  has_run_or_test_evidence = true;
  has_reflection = false;
}

abbrev add_days : Text → ℕ → Option Text
add_days t n = some (t ++ n ∷ [])

abbrev fingerprint : TrainingOutcomeInput → Text
fingerprint i = units "f"

classify-schedule_example :
    ((r : ScheduledReview) × (schedule_next_review add_days
          (classify_training_outcome fingerprint session).outcome
          (classify_training_outcome fingerprint session).coverage_level
          (units "2026-03-01")
        ≡ ok r)
      × (r.purpose ≡ transfer))
    ↔ ((session.result ≡ passed)
        × (session.used_assistance ≡ some false)
        × (session.has_run_or_test_evidence ≡ true)
        × ((due : Text) × (add_days (units "2026-03-01") 14 ≡ some due)))
classify-schedule_example = classify-schedule add_days fingerprint session (units "2026-03-01")

abbrev fact_at : Text → Text → TrainingOutcome → EvidenceAbilityFact
fact_at id t outcome = record {
  summary_id = id;
  source_type = attempt;
  source_id = id;
  task_identity = units "sum";
  outcome = outcome;
  coverage_level = e3;
  confidence = high;
  role = primary;
  created_at = t;
  unfamiliar_transfer = false;
  evidence_event_ids = id ∷ [];
}

abbrev host : AbilityHost
host = record {
  date_parse = λ t. some (pos (length t));
  locale_before = lt_text;
  fingerprint = λ learner node facts. learner;
}

abbrev evidence : AbilityInput
evidence = record {
  learner_id = units "l";
  node_id = units "n";
  previous_level = l2;
  facts =
      fact_at (units "b") (units "2026-03-02") unproductive_trial_and_error
      ∷ fact_at (units "a") (units "2026-03-01") independent_effective_completion
      ∷ [];
  now = units "2026-03-03";
}

abbrev projected : EvidenceAbilityProjection
projected = record {
  visible_level = l3;
  confidence = medium;
  evidence_count = 2;
  stale = false;
  reason_codes = units "independent_application_with_sequence_or_code" ∷ [];
  source_summary_ids = units "a" ∷ units "b" ∷ [];
  source_evidence_ids = units "a" ∷ units "b" ∷ [];
  input_fingerprint = units "l";
}

evidence_projected : project_evidence_ability host evidence ≡ ok projected
unfolding project_evidence_ability filter_by sort lt_text any_of add has eq_text
evidence_projected = refl

project_evidence_ability-Moves_example : Moves host evidence l3
project_evidence_ability-Moves_example =
    project_evidence_ability-Moves host evidence evidence_projected
