-- ===== src/Ingest/Session/Totality.antt =====
-- When a session transition is refused, and why.
use ai_coding_training_platf.Common.{true, not, ◌&&◌, none, some, Text, ◌≡◌, arith, if◌then◌else◌}
use ai_coding_training_platf.Common.Result.{ok, err}
use ai_coding_training_platf.Domain.Event.{CaptureEvent, event_base, event_schema}
use ai_coding_training_platf.Domain.Training.{TrainingSession, Formats, session_schema}
use ai_coding_training_platf.Ingest.{
  capture_conflict, same_session, restarts, merged_session, first_session, transition_session,
}

-- Over a valid event a session transition throws no schema error: with no stored session it
-- creates one, and over a valid stored session it merges the event, unless the event names another
-- installation, platform or problem or starts the session after its end, which is a conflict.
pub transition_session_outcome :
    (z : Formats) (s : TrainingSession) (e : CaptureEvent) (now : Text)
    → session_schema z s ≡ true
    → event_schema z e ≡ true
    → z.is_datetime now ≡ true
    → (transition_session z none e now ≡ ok (first_session e now))
      × (transition_session z (some s) e now ≡ (
          if same_session s (event_base e) && not (restarts s e)
          then ok (merged_session s e now)
          else err capture_conflict))
unfolding transition_session session_schema event_schema merged_session first_session
transition_session_outcome z s e now hs he hn = (ground arith, ground arith)
