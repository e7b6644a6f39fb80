-- ===== src/Ingest/Session/Commute.antt =====
-- Two events that reach a session in either order.
use ai_coding_training_platf.Common.{
  Option, none, some, Text, lt_text_irrefl, lt_text-asymm, lt_text_trans, lt_text-total, ◌≡◌, sym,
  ◌∙◌, [], ◌∷◌, arith, if◌then◌else◌,
}
use ai_coding_training_platf.Common.Result.{ok}
use ai_coding_training_platf.Domain.{SessionEndReason}
use ai_coding_training_platf.Domain.Event.{CaptureEvent, session_ended, event_base}
use ai_coding_training_platf.Domain.Training.{TrainingSession, Formats}
use ai_coding_training_platf.Ingest.{merged_session, earlier, should_use_end}
use ai_coding_training_platf.Ingest.Session.{run_sessions, run_sessions-cons}

-- Two ends at one time may give different reasons; the first one to come is then kept.
abbrev pub Compatible : CaptureEvent → CaptureEvent → Type 0
Compatible (session_ended a) (session_ended b) =
    a.base.occurred_at ≡ b.base.occurred_at → a.end_reason ≡ b.end_reason
Compatible _ _ = Unit

earlier_comm : (a b s : Text) → earlier a (earlier b s) ≡ earlier b (earlier a s)
earlier_comm a b s = ground (
  arith,
  lt_text_trans a b s,
  lt_text_trans b a s,
  lt_text-asymm a b,
  lt_text-total a b,
  lt_text-asymm a s,
  lt_text-asymm b s,
  lt_text-total a s,
  lt_text-total b s,
)

-- What an end event at `t` with reason `r` makes of a stored end.
abbrev merge_end :
    Option Text × Option SessionEndReason
    → Text
    → SessionEndReason
    → Option Text × Option SessionEndReason
merge_end (o, q) t r = if should_use_end o t then (some t, some r) else (o, q)

merge_end_comm :
    (o : Option Text) (q : Option SessionEndReason) (a b : Text) (r x : SessionEndReason)
    → (a ≡ b → r ≡ x)
    → merge_end (merge_end (o, q) a r) b x ≡ merge_end (merge_end (o, q) b x) a r
merge_end_comm none q a b r x h =
    ground (arith, lt_text_irrefl a, lt_text-asymm a b, lt_text-total a b)
merge_end_comm (some o) q a b r x h = ground (
  arith,
  lt_text_irrefl a,
  lt_text-asymm a b,
  lt_text-total a b,
  lt_text_trans a b o,
  lt_text_trans b a o,
  lt_text-asymm a o,
  lt_text-asymm b o,
  lt_text-total a o,
  lt_text-total b o,
)

merged_session_comm :
    (s : TrainingSession) (a b : CaptureEvent) (now : Text)
    → Compatible a b
    → merged_session (merged_session s a now) b now ≡ merged_session (merged_session s b now) a now
unfolding merged_session
merged_session_comm s (session_ended a) (session_ended b) now h = ground (
  arith,
  earlier_comm a.base.occurred_at b.base.occurred_at s.started_at,
  merge_end_comm s.ended_at s.end_reason a.base.occurred_at b.base.occurred_at a.end_reason
      b.end_reason h,
)
merged_session_comm s a b now h =
    ground (arith, earlier_comm (event_base a).occurred_at (event_base b).occurred_at s.started_at)

two_merged :
    (z : Formats) (s : TrainingSession) (a b : CaptureEvent) (now : Text) {t : TrainingSession}
    → run_sessions z s ((a, now) ∷ (b, now) ∷ []) ≡ ok t
    → t ≡ merged_session (merged_session s a now) b now
unfolding run_sessions
two_merged z s a b now h = ground (
  arith,
  run_sessions-cons z (merged_session s a now) b now []
      (run_sessions-cons z s a now ((b, now) ∷ []) h),
)

-- Two events that a session accepts in both orders leave the same session whichever comes first,
-- but for two end events of one time that give different reasons.
pub run_sessions-swap :
    (z : Formats) (s : TrainingSession) (a b : CaptureEvent) (now : Text) {t u : TrainingSession}
    → run_sessions z s ((a, now) ∷ (b, now) ∷ []) ≡ ok t
    → run_sessions z s ((b, now) ∷ (a, now) ∷ []) ≡ ok u
    → Compatible a b
    → t ≡ u
run_sessions-swap z s a b now h k c =
    two_merged z s a b now h ∙ merged_session_comm s a b now c ∙ sym (two_merged z s b a now k)
