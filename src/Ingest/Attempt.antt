-- ===== src/Ingest/Attempt.antt =====
-- The attempt half of a transition: which verdict an attempt keeps, and how a submission meets it.
use ai_coding_training_platf.Common.{
  Bool, true, false, not, Option, none, some, Text, lt_text, eq_text, eq_text_refl, eq_text_iff,
  lt_text_irrefl, lt_text-asymm, lt_text_trans, lt_text-total, ◌≡◌, ◌⊎◌, inl, inr, List, [], ◌∷◌,
  arith, Bool-cases, Each, OneOf, if◌then◌else◌,
}
use ai_coding_training_platf.Common.Result.{Result, ok, ◌>>=◌, >>=-eq-ok}
use ai_coding_training_platf.Domain.Event.{VerdictObservedEvent}
use ai_coding_training_platf.Domain.Training.{TrainingAttempt, Formats}
use ai_coding_training_platf.Ingest.{
  IngestError, is_newer_verdict, with_verdict, verdict_result, transition_verdict_attempt,
  new_attempt,
}

-- `e` is not newer than the verdict that `a` holds.
abbrev pub IsStale : TrainingAttempt → VerdictObservedEvent → Type 0
IsStale a e = is_newer_verdict a.ended_at a.verdict_event_id e ≡ false

-- `a` holds the verdict of `e`.
pub record Holds (a : TrainingAttempt) (e : VerdictObservedEvent) : Type 0 where
  pub ended_at : a.ended_at ≡ some e.base.occurred_at
  pub result : a.result ≡ verdict_result e
  pub verdict : a.verdict ≡ some e.verdict
  pub language : a.language ≡ e.language
  pub event_id : a.verdict_event_id ≡ some e.base.id

-- `a` and `b` hold the same verdict.
pub record SameVerdict (a b : TrainingAttempt) : Type 0 where
  pub ended_at : a.ended_at ≡ b.ended_at
  pub result : a.result ≡ b.result
  pub verdict : a.verdict ≡ b.verdict
  pub language : a.language ≡ b.language
  pub event_id : a.verdict_event_id ≡ b.verdict_event_id

pub newer_irrefl :
    (a : TrainingAttempt) (e : VerdictObservedEvent) (now : Text) → IsStale (with_verdict a e now) e
unfolding is_newer_verdict with_verdict
newer_irrefl a e now = ground (arith, eq_text_refl e.base.occurred_at, lt_text_irrefl e.base.id)

-- The order of verdicts: by time, and by event id at one time.
abbrev later : (t i u j : Text) → Bool
later t i u j = if not (eq_text u t) then lt_text t u else lt_text i j

later_stale :
    (t i u j v k : Text) → later t i u j ≡ true → later t i v k ≡ false → later u j v k ≡ false
later_stale t i u j v k h g = ground (
  arith,
  eq_text_iff u t,
  eq_text_iff v t,
  eq_text_iff v u,
  lt_text_trans t u v,
  lt_text-asymm u v,
  lt_text-asymm t v,
  lt_text-total t v,
  lt_text-total u v,
  lt_text_trans i j k,
  lt_text_irrefl t,
)

stale_via :
    (o i : Option Text) (e f : VerdictObservedEvent)
    → is_newer_verdict o i e ≡ true
    → is_newer_verdict o i f ≡ false
    → later e.base.occurred_at e.base.id f.base.occurred_at f.base.id ≡ false
unfolding is_newer_verdict
stale_via none i e f h k = ground arith
stale_via (some t) none e f h k = ground arith
stale_via (some t) (some i) e f h k =
    later_stale t i e.base.occurred_at e.base.id f.base.occurred_at f.base.id h k

-- A newer verdict leaves stale what was stale.
newer-IsStale :
    (a : TrainingAttempt) (e f : VerdictObservedEvent) (now : Text)
    → is_newer_verdict a.ended_at a.verdict_event_id e ≡ true
    → IsStale a f
    → IsStale (with_verdict a e now) f
unfolding is_newer_verdict with_verdict
newer-IsStale a e f now h k = stale_via a.ended_at a.verdict_event_id e f h k

-- The attempt that a verdict leaves, when it is accepted.
pub verdict_attempt : TrainingAttempt → VerdictObservedEvent → Text → TrainingAttempt
verdict_attempt a e now =
    if is_newer_verdict a.ended_at a.verdict_event_id e then with_verdict a e now else a

module _ (z : Formats) where
  transition_verdict_attempt-some :
      (a : TrainingAttempt) (e : VerdictObservedEvent) (now : Text) {b : TrainingAttempt}
      → transition_verdict_attempt z (some a) e now ≡ ok b
      → b ≡ verdict_attempt a e now
  unfolding transition_verdict_attempt verdict_attempt
  transition_verdict_attempt-some a e now h = ground arith

  transition_verdict_attempt-none :
      (e : VerdictObservedEvent) (now : Text) {b : TrainingAttempt}
      → transition_verdict_attempt z none e now ≡ ok b
      → b ≡ with_verdict (new_attempt e.base e.submission_id now) e now
  unfolding transition_verdict_attempt
  transition_verdict_attempt-none e now h = ground arith

  -- Verdict events of one submission that come one after another, each with its clock.
  unfoldable pub run_verdicts :
      TrainingAttempt → List (VerdictObservedEvent × Text) → Result IngestError TrainingAttempt
  run_verdicts a [] = ok a
  run_verdicts a ((e, now) ∷ es) =
      transition_verdict_attempt z (some a) e now >>= λ b. run_verdicts b es

  run_verdicts-cons :
      (a : TrainingAttempt) (e : VerdictObservedEvent) (now : Text)
      (es : List (VerdictObservedEvent × Text)) {b : TrainingAttempt}
      → run_verdicts a ((e, now) ∷ es) ≡ ok b
      → run_verdicts (verdict_attempt a e now) es ≡ ok b
  unfolding run_verdicts
  run_verdicts-cons a e now es h =
      let (u, first, rest) =
        >>=-eq-ok (transition_verdict_attempt z (some a) e now) (λ u. run_verdicts u es) h in
      rw (transition_verdict_attempt-some a e now first) at rest

verdict_attempt-IsStale :
    (a : TrainingAttempt) (e f : VerdictObservedEvent) (now : Text)
    → IsStale a f
    → IsStale (verdict_attempt a e now) f
unfolding verdict_attempt
verdict_attempt-IsStale a e f now h =
    elim (Bool-cases (is_newer_verdict a.ended_at a.verdict_event_id e)) [
      | inl p ↦ rw p (newer-IsStale a e f now p h)
      | inr p ↦ rw p h
    ]

pub verdict_attempt-IsStale_self :
    (a : TrainingAttempt) (e : VerdictObservedEvent) (now : Text)
    → IsStale (verdict_attempt a e now) e
unfolding verdict_attempt
verdict_attempt-IsStale_self a e now =
    elim (Bool-cases (is_newer_verdict a.ended_at a.verdict_event_id e)) [
      | inl p ↦ rw p (newer_irrefl a e now)
      | inr p ↦ rw p p
    ]

verdict_attempt-from :
    (a : TrainingAttempt) (e : VerdictObservedEvent) (now : Text)
    → SameVerdict (verdict_attempt a e now) a ⊎ Holds (verdict_attempt a e now) e
unfolding verdict_attempt with_verdict
verdict_attempt-from a e now = ground arith

-- The verdict that `b` holds is the newest one of that of `a` and those of the events.
pub record HoldsNewest (a : TrainingAttempt) (es : List (VerdictObservedEvent × Text))
    (b : TrainingAttempt) : Type 0 where
  pub newest : Each (λ e. IsStale b e.0) es
  pub attained : SameVerdict b a ⊎ OneOf (λ e. Holds b e.0) es

run_verdicts-IsStale :
    (z : Formats) (a : TrainingAttempt) (f : VerdictObservedEvent)
    (es : List (VerdictObservedEvent × Text)) {b : TrainingAttempt}
    → run_verdicts z a es ≡ ok b
    → IsStale a f
    → IsStale b f
unfolding run_verdicts
run_verdicts-IsStale z a f [] h k = ground arith
run_verdicts-IsStale z a f ((e, now) ∷ es) h k =
    run_verdicts-IsStale z (verdict_attempt a e now) f es (run_verdicts-cons z a e now es h)
      (verdict_attempt-IsStale a e f now k)

SameVerdict-Holds :
    (a b : TrainingAttempt) (e : VerdictObservedEvent) → SameVerdict b a → Holds a e → Holds b e
SameVerdict-Holds a b e p h = ground arith

attained-cons :
    (a u b : TrainingAttempt) (e : VerdictObservedEvent) {Q : Type 0}
    → SameVerdict u a ⊎ Holds u e
    → SameVerdict b u ⊎ Q
    → SameVerdict b a ⊎ (Holds b e ⊎ Q)
attained-cons a u b e one (inr q) = inr (inr q)
attained-cons a u b e (inl p) (inl h) = inl (ground arith)
attained-cons a u b e (inr p) (inl h) = inr (inl (SameVerdict-Holds u b e h p))

-- After any accepted verdict events of a submission, in whatever order they come, no event among
-- them is newer than the verdict that the attempt holds, which with its result, language and event
-- id is the former one or that of one of the events.
pub run_verdicts-HoldsNewest :
    (z : Formats) (a : TrainingAttempt) (es : List (VerdictObservedEvent × Text))
    {b : TrainingAttempt}
    → run_verdicts z a es ≡ ok b
    → HoldsNewest a es b
unfolding run_verdicts
run_verdicts-HoldsNewest z a [] {b} h = record { newest = tt; attained = inl (ground arith) }
run_verdicts-HoldsNewest z a ((e, now) ∷ es) {b} h =
    let u = verdict_attempt a e now in
    let rest = run_verdicts-cons z a e now es h in
    let ih = run_verdicts-HoldsNewest z u es rest in
    record {
      newest =
          (run_verdicts-IsStale z u e es rest (verdict_attempt-IsStale_self a e now), ih.newest);
      attained = attained-cons a u b e (verdict_attempt-from a e now) ih.attained;
    }
