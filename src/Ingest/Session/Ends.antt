-- ===== src/Ingest/Session/Ends.antt =====
-- The end of a session after any accepted events: the earliest end event decides, with its reason.
use ai_coding_training_platf.Common.{
  Option, none, some, Text, lt_text_irrefl, lt_text-asymm, ◌≡◌, refl, ◌∙◌, ◌⊎◌, inl, inr, List, [],
  ◌∷◌, arith, Each, OneOf,
}
use ai_coding_training_platf.Common.Result.{ok}
use ai_coding_training_platf.Domain.Event.{
  CaptureEvent, session_started, submission_observed, verdict_observed, session_ended,
}
use ai_coding_training_platf.Domain.Training.{TrainingSession, Formats}
use ai_coding_training_platf.Ingest.{merged_session}
use ai_coding_training_platf.Ingest.Session.{
  NotAfter, NotAfter-trans, run_sessions, run_sessions-cons,
}

-- A known end that is not after `t`.
abbrev pub EndedBy : Option Text → Text → Type 0
EndedBy none t = ⊥
EndedBy (some m) t = NotAfter m t

-- The stored end and reason are those of `e`.
abbrev pub IsEndOf : TrainingSession → CaptureEvent → Type 0
IsEndOf t (session_ended e) =
    (t.ended_at ≡ some e.base.occurred_at) × (t.end_reason ≡ some e.end_reason)
IsEndOf t _ = ⊥

-- An end event leaves an end that is not after it; the other events ask for nothing.
abbrev pub IsBounded : TrainingSession → CaptureEvent → Type 0
IsBounded t (session_ended e) = EndedBy t.ended_at e.base.occurred_at
IsBounded t _ = Unit

abbrev pub KeepsEnd : TrainingSession → Option Text → Type 0
KeepsEnd t none = Unit
KeepsEnd t (some m) = EndedBy t.ended_at m

pub record IsFirstEnd (s : TrainingSession) (es : List (CaptureEvent × Text)) (t : TrainingSession)
    : Type 0 where
  pub by_session : KeepsEnd t s.ended_at
  pub by_events : Each (λ e. IsBounded t e.0) es
  pub attained :
      ((t.ended_at ≡ s.ended_at) × (t.end_reason ≡ s.end_reason)) ⊎ OneOf (λ e. IsEndOf t e.0) es

EndedBy-trans : (o : Option Text) (a b : Text) → EndedBy o a → NotAfter a b → EndedBy o b
EndedBy-trans none a b h k = h
EndedBy-trans (some m) a b h k = NotAfter-trans m a b h k

-- One event: what it asks for, and where the end comes from.
merged-KeepsEnd :
    (s : TrainingSession) (e : CaptureEvent) (now : Text)
    → KeepsEnd (merged_session s e now) s.ended_at
unfolding merged_session
merged-KeepsEnd s e now = grind (arith, lt_text_irrefl, lt_text-asymm)

merged-IsBounded :
    (s : TrainingSession) (e : CaptureEvent) (now : Text) → IsBounded (merged_session s e now) e
unfolding merged_session
merged-IsBounded s (session_ended e) now =
    ground (arith, lt_text_irrefl e.base.occurred_at, lt_text-asymm e.base.occurred_at)
merged-IsBounded s (session_started e) now = tt
merged-IsBounded s (submission_observed e) now = tt
merged-IsBounded s (verdict_observed e) now = tt

merged-from :
    (s : TrainingSession) (e : CaptureEvent) (now : Text)
    → let u = merged_session s e now in
      ((u.ended_at ≡ s.ended_at) × (u.end_reason ≡ s.end_reason)) ⊎ IsEndOf u e
unfolding merged_session
merged-from s e now = ground arith

EndedBy-via :
    (o p : Option Text) (t : TrainingSession) (x : Text)
    → t.ended_at ≡ p
    → KeepsEnd t o
    → EndedBy o x
    → EndedBy t.ended_at x
EndedBy-via none p t x e h k = absurd k
EndedBy-via (some m) p t x e h k = EndedBy-trans t.ended_at m x h k

KeepsEnd→IsBounded :
    (u t : TrainingSession) (e : CaptureEvent)
    → KeepsEnd t u.ended_at
    → IsBounded u e
    → IsBounded t e
KeepsEnd→IsBounded u t (session_ended x) h k =
    EndedBy-via u.ended_at t.ended_at t x.base.occurred_at refl h k
KeepsEnd→IsBounded u t (session_started x) h k = tt
KeepsEnd→IsBounded u t (submission_observed x) h k = tt
KeepsEnd→IsBounded u t (verdict_observed x) h k = tt

KeepsEnd-trans :
    (u t : TrainingSession) (o : Option Text) → KeepsEnd t u.ended_at → KeepsEnd u o → KeepsEnd t o
KeepsEnd-trans u t none h k = tt
KeepsEnd-trans u t (some m) h k = EndedBy-via u.ended_at t.ended_at t m refl h k

KeepsEnd-refl : (t : TrainingSession) (o : Option Text) → t.ended_at ≡ o → KeepsEnd t o
KeepsEnd-refl t none e = tt
KeepsEnd-refl t (some m) e = rw e (lt_text_irrefl m)

IsEndOf-cast :
    (u t : TrainingSession) (e : CaptureEvent)
    → t.ended_at ≡ u.ended_at
    → t.end_reason ≡ u.end_reason
    → IsEndOf u e
    → IsEndOf t e
IsEndOf-cast u t (session_ended x) p q h = (p ∙ h.0, q ∙ h.1)
IsEndOf-cast u t (session_started _) p q h = elim h [ ]
IsEndOf-cast u t (submission_observed _) p q h = elim h [ ]
IsEndOf-cast u t (verdict_observed _) p q h = elim h [ ]

attained-cons :
    (s u t : TrainingSession) (e : CaptureEvent) {Q : Type 0}
    → ((u.ended_at ≡ s.ended_at) × (u.end_reason ≡ s.end_reason)) ⊎ IsEndOf u e
    → ((t.ended_at ≡ u.ended_at) × (t.end_reason ≡ u.end_reason)) ⊎ Q
    → ((t.ended_at ≡ s.ended_at) × (t.end_reason ≡ s.end_reason)) ⊎ (IsEndOf t e ⊎ Q)
attained-cons s u t e one (inr q) = inr (inr q)
attained-cons s u t e (inl p) (inl h) = inl (h.0 ∙ p.0, h.1 ∙ p.1)
attained-cons s u t e (inr p) (inl h) = inr (inl (IsEndOf-cast u t e h.0 h.1 p))

-- After any accepted events that follow on a session, in whatever order they come, the session has
-- an end that is not after its former end and not after any end event among them; the end and its
-- reason are together those of the former session or of one of the end events.
pub run_sessions-IsFirstEnd :
    (z : Formats) (s : TrainingSession) (es : List (CaptureEvent × Text)) {t : TrainingSession}
    → run_sessions z s es ≡ ok t
    → IsFirstEnd s es t
unfolding run_sessions
run_sessions-IsFirstEnd z s [] {t} h = record {
  by_session = KeepsEnd-refl t s.ended_at (ground arith);
  by_events = tt;
  attained = inl (ground arith, ground arith);
}
run_sessions-IsFirstEnd z s ((e, now) ∷ es) {t} h =
    let u = merged_session s e now in
    let ih = run_sessions-IsFirstEnd z u es (run_sessions-cons z s e now es h) in
    record {
      by_session = KeepsEnd-trans u t s.ended_at ih.by_session (merged-KeepsEnd s e now);
      by_events = (KeepsEnd→IsBounded u t e ih.by_session (merged-IsBounded s e now), ih.by_events);
      attained = attained-cons s u t e (merged-from s e now) ih.attained;
    }
