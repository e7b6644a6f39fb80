-- ===== src/Domain/Training.antt =====
-- The stored session and attempt of lib/domain/training.ts, with the checks of their schemas.
-- `is_datetime` and `is_url` are the string formats of the validation package.
use ai_coding_training_platf.Common.{
  Bool, true, false, not, ◌&&◌, ◌||◌, Option, none, some, ℕ, ltb, Text, lt_text, is_none, [], ◌∷◌,
}
use ai_coding_training_platf.Domain.{
  Platform, CaptureProvenanceLevel, SessionEndReason, AttemptResult, AttemptRecordSource, capture,
  manual_entry,
}

pub record TrainingSession : Type 0 where
  pub id : Text
  pub installation_id : Text
  pub platform : Platform
  pub problem_external_id : Text
  pub problem_title : Text
  pub canonical_url : Text
  pub provenance_level : CaptureProvenanceLevel
  pub started_at : Text
  pub ended_at : Option Text
  pub end_reason : Option SessionEndReason
  pub created_at : Text
  pub updated_at : Text

pub record TrainingAttempt : Type 0 where
  pub id : Text
  pub capture_session_id : Option Text
  pub submission_id : Option Text
  pub record_source : AttemptRecordSource
  pub platform : Platform
  pub problem_external_id : Text
  pub problem_title : Text
  pub canonical_url : Text
  pub started_at : Text
  pub ended_at : Option Text
  pub result : AttemptResult
  pub verdict : Option Text
  pub language : Option Text
  pub duration_minutes : Option ℕ
  pub reflection : Option Text
  pub submission_event_id : Option Text
  pub verdict_event_id : Option Text
  pub revision : ℕ
  pub voided_at : Option Text
  pub void_reason : Option Text
  pub created_at : Text
  pub updated_at : Text

pub record Formats : Type 0 where
  pub is_datetime : Text → Bool
  pub is_url : Text → Bool

-- `z.string().min(1)`
abbrev pub nonempty : Text → Bool
nonempty [] = false
nonempty (_ ∷ _) = true

-- `.optional()`
abbrev pub optionally {ℓ} : {A : Type ℓ} → (A → Bool) → Option A → Bool
optionally p none = true
optionally p (some a) = p a

abbrev pub same_presence {ℓ κ} : {A : Type ℓ} {B : Type κ} → Option A → Option B → Bool
same_presence none none = true
same_presence none (some _) = false
same_presence (some _) none = false
same_presence (some _) (some _) = true

abbrev pub not_before : Option Text → Text → Bool
not_before none start = true
not_before (some end) start = not (lt_text end start)

abbrev pub at_most : ℕ → Text → Bool
at_most n [] = true
at_most ℕ.zero (_ ∷ _) = false
at_most (ℕ.suc n) (_ ∷ cs) = at_most n cs

module _ (z : Formats) where
  open z use {is_datetime, is_url}

  -- `TrainingSessionSchema`
  unfoldable pub session_schema : TrainingSession → Bool
  session_schema s =
      nonempty s.id
      && nonempty s.installation_id
      && nonempty s.problem_external_id
      && nonempty s.problem_title
      && is_url s.canonical_url
      && is_datetime s.started_at
      && optionally is_datetime s.ended_at
      && is_datetime s.created_at
      && is_datetime s.updated_at
      && same_presence s.ended_at s.end_reason

  -- The identity rule of `TrainingAttemptSchema`.
  unfoldable pub source_rule : TrainingAttempt → Bool
  source_rule a = elim a.record_source [
    | capture ↦ not (is_none a.capture_session_id || is_none a.submission_id)
    | manual_entry ↦
        is_none a.capture_session_id
        && is_none a.submission_id
        && is_none a.submission_event_id
        && is_none a.verdict_event_id
        && is_none a.verdict
  ]

  -- `TrainingAttemptSchema`
  unfoldable pub attempt_schema : TrainingAttempt → Bool
  attempt_schema a =
      nonempty a.id
      && optionally nonempty a.capture_session_id
      && optionally nonempty a.submission_id
      && nonempty a.problem_external_id
      && nonempty a.problem_title
      && is_url a.canonical_url
      && is_datetime a.started_at
      && optionally is_datetime a.ended_at
      && optionally nonempty a.submission_event_id
      && optionally nonempty a.verdict_event_id
      && ltb 0 a.revision
      && optionally is_datetime a.voided_at
      && optionally (λ r. nonempty r && at_most 500 r) a.void_reason
      && is_datetime a.created_at
      && is_datetime a.updated_at
      && source_rule a
      && same_presence a.voided_at a.void_reason
      && not_before a.ended_at a.started_at
