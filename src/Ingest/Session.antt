-- ===== src/Ingest/Session.antt =====
-- The session half of a transition: what a session holds after any accepted events.
pub mod Ends
pub mod Commute
pub mod Totality
use ai_coding_training_platf.Common.{
  Bool, true, false, not, ◌&&◌, Option, none, some, Text, lt_text, eq_text_refl, lt_text_irrefl,
  lt_text-asymm, lt_text_trans, lt_text-total, ◌≡◌, refl, ◌∙◌, ◌⊎◌, inl, inr, List, [], ◌∷◌, arith,
  Bool-cases, ◌≢◌, Each, OneOf,
}
use ai_coding_training_platf.Common.Result.{Result, ok, err, ◌>>=◌, >>=-eq-ok}
use ai_coding_training_platf.Domain.{eq_platform_refl}
use ai_coding_training_platf.Domain.Event.{
  Base, CaptureEvent, session_started, submission_observed, verdict_observed, session_ended,
  event_base, event_schema,
}
use ai_coding_training_platf.Domain.Training.{TrainingSession, Formats, session_schema}
use ai_coding_training_platf.Ingest.{
  IngestError, capture_conflict, zod_error, same_session, restarts, merged_session, first_session,
  transition_session, earlier,
}

-- `a` is at most `b` in the order of timestamps.
abbrev pub NotAfter : Text → Text → Type 0
NotAfter a b = lt_text b a ≡ false

pub NotAfter-trans : (a b c : Text) → NotAfter a b → NotAfter b c → NotAfter a c
NotAfter-trans a b c h k = ground (
  arith,
  lt_text_trans c a b,
  lt_text_trans b c a,
  lt_text-asymm c b,
  lt_text-total b c,
  lt_text-asymm c a,
)

-- The start of `t` is the earlier one of the start of `s` and the time of `e`.
pub record Starts (s : TrainingSession) (e : CaptureEvent) (t : TrainingSession) : Type 0 where
  pub by_event : NotAfter t.started_at (event_base e).occurred_at
  pub by_session : NotAfter t.started_at s.started_at
  pub one_of : (t.started_at ≡ s.started_at) ⊎ (t.started_at ≡ (event_base e).occurred_at)

-- `m` is the earliest of the start of `s` and the times of the events.
pub record IsEarliest (s : TrainingSession) (es : List (CaptureEvent × Text)) (m : Text)
    : Type 0 where
  pub by_session : NotAfter m s.started_at
  pub by_events : Each (λ e. NotAfter m (event_base e.0).occurred_at) es
  pub attained : (m ≡ s.started_at) ⊎ OneOf (λ e. m ≡ (event_base e.0).occurred_at) es

attained-cons :
    (s u : TrainingSession) (e : CaptureEvent) (m : Text) {Q : Type 0}
    → (u.started_at ≡ s.started_at) ⊎ (u.started_at ≡ (event_base e).occurred_at)
    → (m ≡ u.started_at) ⊎ Q
    → (m ≡ s.started_at) ⊎ ((m ≡ (event_base e).occurred_at) ⊎ Q)
attained-cons s u e m one (inr q) = inr (inr q)
attained-cons s u e m (inl p) (inl h) = inl (h ∙ p)
attained-cons s u e m (inr p) (inl h) = inr (inl (h ∙ p))

module _ (z : Formats) where
  pub transition_session-some :
      (s : TrainingSession) (e : CaptureEvent) (now : Text) {t : TrainingSession}
      → transition_session z (some s) e now ≡ ok t
      → (same_session s (event_base e) ≡ true)
        × (restarts s e ≡ false)
        × (t ≡ merged_session s e now)
  unfolding transition_session
  transition_session-some s e now h = ground arith

  merged_session-Starts :
      (s : TrainingSession) (e : CaptureEvent) (now : Text) → Starts s e (merged_session s e now)
  unfolding merged_session
  merged_session-Starts s e now = ground (
    arith,
    lt_text_irrefl s.started_at,
    lt_text_irrefl (event_base e).occurred_at,
    lt_text-asymm (event_base e).occurred_at s.started_at,
  )

  -- The calls of `transition_session` for events that come one after another, each with its clock.
  unfoldable pub run_sessions :
      TrainingSession → List (CaptureEvent × Text) → Result IngestError TrainingSession
  run_sessions s [] = ok s
  run_sessions s ((e, now) ∷ es) = transition_session z (some s) e now >>= λ t. run_sessions t es

  pub run_sessions-cons :
      (s : TrainingSession) (e : CaptureEvent) (now : Text) (es : List (CaptureEvent × Text))
      {t : TrainingSession}
      → run_sessions s ((e, now) ∷ es) ≡ ok t
      → run_sessions (merged_session s e now) es ≡ ok t
  unfolding run_sessions
  run_sessions-cons s e now es h =
      let (u, first, rest) =
        >>=-eq-ok (transition_session z (some s) e now) (λ u. run_sessions u es) h in
      rw (transition_session-some s e now first).2 at rest

  -- After any accepted events that follow on a session, in whatever order they come, the session's
  -- start is not after its former start and not after any of the events, and is one of these times.
  pub run_sessions-IsEarliest :
      (s : TrainingSession) (es : List (CaptureEvent × Text)) {t : TrainingSession}
      → run_sessions s es ≡ ok t
      → IsEarliest s es t.started_at
  unfolding run_sessions
  run_sessions-IsEarliest s [] {t} h = record {
    by_session = ground (arith, lt_text_irrefl s.started_at);
    by_events = tt;
    attained = inl (ground arith);
  }
  run_sessions-IsEarliest s ((e, now) ∷ es) {t} h =
      let u = merged_session s e now in
      let ih = run_sessions-IsEarliest u es (run_sessions-cons s e now es h) in
      let st = merged_session-Starts s e now in
      record {
        by_session =
            NotAfter-trans t.started_at u.started_at s.started_at ih.by_session st.by_session;
        by_events = (
          NotAfter-trans t.started_at u.started_at (event_base e).occurred_at ih.by_session
              st.by_event,
          ih.by_events,
        );
        attained = attained-cons s u e t.started_at st.one_of ih.attained;
      }

pub merged_session-identity :
    (s : TrainingSession) (e : CaptureEvent) (now : Text) (b : Base)
    → same_session (merged_session s e now) b ≡ same_session s b
unfolding merged_session same_session
merged_session-identity s (session_started e) now b = refl
merged_session-identity s (submission_observed e) now b = refl
merged_session-identity s (verdict_observed e) now b = refl
merged_session-identity s (session_ended e) now b = refl

merged_session-restarts :
    (s : TrainingSession) (e : CaptureEvent) (now : Text)
    → restarts (merged_session s e now) e ≡ restarts s e
unfolding merged_session restarts
merged_session-restarts s (session_started e) now = refl
merged_session-restarts s (submission_observed e) now = refl
merged_session-restarts s (verdict_observed e) now = refl
merged_session-restarts s (session_ended e) now = refl

earlier_idem : (a b : Text) → earlier a (earlier a b) ≡ earlier a b
earlier_idem a b = ground (arith, lt_text_irrefl a)

merged_session_idem :
    (s : TrainingSession) (e : CaptureEvent) (now : Text)
    → merged_session (merged_session s e now) e now ≡ merged_session s e now
unfolding merged_session
merged_session_idem s (session_started e) now = rw (earlier_idem e.base.occurred_at s.started_at)
merged_session_idem s (submission_observed e) now =
    rw (earlier_idem e.base.occurred_at s.started_at)
merged_session_idem s (verdict_observed e) now = rw (earlier_idem e.base.occurred_at s.started_at)
merged_session_idem s (session_ended e) now = ground (arith, lt_text_irrefl e.base.occurred_at)

same_session-base :
    (b : Base) (now : Text) (e : CaptureEvent)
    → event_base e ≡ b
    → same_session (first_session e now) b ≡ true
unfolding same_session first_session
same_session-base b now e h = ground (
  arith,
  eq_text_refl b.installation_id,
  eq_platform_refl b.platform,
  eq_text_refl b.problem_external_id,
)

first_session-merged :
    (e : CaptureEvent) (now : Text)
    → merged_session (first_session e now) e now ≡ first_session e now
unfolding first_session merged_session
first_session-merged e now = ground (arith, lt_text_irrefl (event_base e).occurred_at)

first_session-restarts : (e : CaptureEvent) (now : Text) → restarts (first_session e now) e ≡ false
unfolding first_session restarts
first_session-restarts e now = ground arith

-- A session transition that is made a second time changes nothing and is accepted again.
pub transition_session_idem :
    (z : Formats) (o : Option TrainingSession) (e : CaptureEvent) (now : Text) {t : TrainingSession}
    → transition_session z o e now ≡ ok t
    → transition_session z (some t) e now ≡ ok t
unfolding transition_session
transition_session_idem z none e now h = ground (
  arith,
  first_session-merged e now,
  first_session-restarts e now,
  same_session-base (event_base e) now e refl,
)
transition_session_idem z (some s) e now h = ground (
  arith,
  merged_session-identity s e now (event_base e),
  merged_session-restarts s e now,
  merged_session_idem s e now,
)
