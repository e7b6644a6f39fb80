-- ===== src/Materialize/Fits.antt =====
-- The ids of what a transition gives.
use ai_coding_training_platf.Common.{
  Option, none, some, Text, eq_text_iff, ◌≡◌, inl, inr, Option-cases, refl, arith,
}
use ai_coding_training_platf.Common.Result.{ok, Result-cases}
use ai_coding_training_platf.Domain.Event.{
  CaptureEvent, session_started, submission_observed, verdict_observed, session_ended, event_base,
  SubmissionObservedEvent, VerdictObservedEvent,
}
use ai_coding_training_platf.Domain.Training.{TrainingSession, TrainingAttempt, Formats}
use ai_coding_training_platf.Ingest.{
  CaptureState, CaptureTransition, transition_session, transition_submission_attempt,
  transition_verdict_attempt, transition_capture_state, parse_session, parse_attempt, first_session,
  base_session, merged_session, new_attempt, merged_submission, with_verdict, same_attempt,
}
use ai_coding_training_platf.Materialize.{submission_of}

-- The attempt of a transition is that of the event's submission, if it has one.
abbrev pub FitsAttempt : Option Text → Option TrainingAttempt → Type 0
FitsAttempt none none = Unit
FitsAttempt none (some a) = ⊥
FitsAttempt (some id) none = ⊥
FitsAttempt (some id) (some a) = a.submission_id ≡ some id

merged_session-id :
    (s : TrainingSession) (e : CaptureEvent) (now : Text) → (merged_session s e now).id ≡ s.id
unfolding merged_session
merged_session-id s (session_started e) now = refl
merged_session-id s (submission_observed e) now = refl
merged_session-id s (verdict_observed e) now = refl
merged_session-id s (session_ended e) now = refl

first_session-id :
    (e : CaptureEvent) (now : Text) → (first_session e now).id ≡ (event_base e).capture_session_id
unfolding first_session base_session
first_session-id (session_started e) now = refl
first_session-id (submission_observed e) now = refl
first_session-id (verdict_observed e) now = refl
first_session-id (session_ended e) now = refl

module _ (z : Formats) where
  transition_session-id :
      (o : Option TrainingSession) (e : CaptureEvent) (now : Text) {t : TrainingSession}
      → ((s : TrainingSession) → o ≡ some s → s.id ≡ (event_base e).capture_session_id)
      → transition_session z o e now ≡ ok t
      → t.id ≡ (event_base e).capture_session_id
  unfolding transition_session parse_session
  transition_session-id none e now own h = ground (arith, first_session-id e now)
  transition_session-id (some s) e now own h = ground (arith, merged_session-id s e now, own s refl)

  submission_attempt-submission :
      (o : Option TrainingAttempt) (e : SubmissionObservedEvent) (now : Text) {a : TrainingAttempt}
      → transition_submission_attempt z o e now ≡ ok a
      → a.submission_id ≡ some e.submission_id
  unfolding transition_submission_attempt parse_attempt new_attempt merged_submission same_attempt
  submission_attempt-submission none e now h = ground arith
  submission_attempt-submission (some b) e now h = elim (Option-cases b.submission_id) [
    | inl none_stored ↦ absurd (ground (arith, none_stored))
    | inr (id, stored) ↦ ground (arith, stored, eq_text_iff id e.submission_id)
  ]

  verdict_attempt-submission :
      (o : Option TrainingAttempt) (e : VerdictObservedEvent) (now : Text) {a : TrainingAttempt}
      → transition_verdict_attempt z o e now ≡ ok a
      → a.submission_id ≡ some e.submission_id
  unfolding transition_verdict_attempt parse_attempt new_attempt with_verdict same_attempt
  verdict_attempt-submission none e now h = ground arith
  verdict_attempt-submission (some b) e now h = elim (Option-cases b.submission_id) [
    | inl none_stored ↦ absurd (ground (arith, none_stored))
    | inr (id, stored) ↦ ground (arith, stored, eq_text_iff id e.submission_id)
  ]

  -- A transition is one of the session, for any event.
  pub transition-session :
      (state : CaptureState) (e : CaptureEvent) (now : Text) {t : CaptureTransition}
      → transition_capture_state z state e now ≡ ok t
      → transition_session z state.session e now ≡ ok t.session
  unfolding transition_capture_state
  transition-session state (session_started e) now h = ground arith
  transition-session state (submission_observed e) now h = ground arith
  transition-session state (verdict_observed e) now h = ground arith
  transition-session state (session_ended e) now h = ground arith

  pub transition-FitsAttempt :
      (state : CaptureState) (e : CaptureEvent) (now : Text) {t : CaptureTransition}
      → transition_capture_state z state e now ≡ ok t
      → FitsAttempt (submission_of e) t.attempt
  unfolding transition_capture_state
  transition-FitsAttempt state (session_started e) now {t} h =
      let is_none : t.attempt ≡ none = ground arith in rw is_none tt
  transition-FitsAttempt state (session_ended e) now {t} h =
      let is_none : t.attempt ≡ none = ground arith in rw is_none tt
  transition-FitsAttempt state (submission_observed e) now {t} h =
      elim (Result-cases (transition_submission_attempt z state.attempt e now)) [
        | inl (thrown, k) ↦ absurd (ground (arith, k))
        | inr (a, k) ↦
            let is_a : t.attempt ≡ some a = ground (arith, k) in
            rw is_a (submission_attempt-submission state.attempt e now k)
      ]
  transition-FitsAttempt state (verdict_observed e) now {t} h =
      elim (Result-cases (transition_verdict_attempt z state.attempt e now)) [
        | inl (thrown, k) ↦ absurd (ground (arith, k))
        | inr (a, k) ↦
            let is_a : t.attempt ≡ some a = ground (arith, k) in
            rw is_a (verdict_attempt-submission state.attempt e now k)
      ]

  pub transition-id :
      (state : CaptureState) (e : CaptureEvent) (now : Text) {t : CaptureTransition}
      → ((s : TrainingSession) → state.session ≡ some s → s.id ≡ (event_base e).capture_session_id)
      → transition_capture_state z state e now ≡ ok t
      → t.session.id ≡ (event_base e).capture_session_id
  transition-id state e now own h =
      transition_session-id state.session e now own (transition-session state e now h)
