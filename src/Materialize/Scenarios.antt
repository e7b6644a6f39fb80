-- ===== src/Materialize/Scenarios.antt =====
-- A database of maps and the events of one session, over which the theorems of Materialize are
-- applied.
use ai_coding_training_platf.Common.{
  Bool, true, false, not, Option, none, some, List, [], ◌∷◌, Text, units, eq_text, eq_text_iff,
  eq_text_refl, lt_text, ◌≡◌, ◌≢◌, refl, arith, if◌then◌else◌,
}
use ai_coding_training_platf.Common.Result.{ok, err}
use ai_coding_training_platf.Domain.{eq_platform, leetcode, extension_paired, pagehide, draft}
use ai_coding_training_platf.Domain.Event.{
  Base, CaptureEvent, session_started, session_ended, submission_observed, submission_confirmed,
  event_base, event_schema,
}
use ai_coding_training_platf.Domain.Training.{
  TrainingSession, TrainingAttempt, Formats, at_most, session_schema, attempt_schema, source_rule,
}
use ai_coding_training_platf.Ingest.{
  capture_conflict, first_session, merged_session, transition_capture_state, transition_session,
  same_session, restarts, new_attempt, transition_submission_attempt,
}
use ai_coding_training_platf.Materialize.{
  capture_error, CaptureIngestResult, Database, DatabaseLaws, Context, ContextLaws, keep_created,
  keep_attempt, ingest_capture_event, ingest_events,
}
use ai_coding_training_platf.Materialize.Again.{
  ingest_capture_event-again, ingest_capture_event-conflict,
}
use ai_coding_training_platf.Materialize.Stream.{Follows, ingest_events-Follows}

record Maps : Type 0 where
  fingerprints : Text → Option Text
  sessions : Text → Option TrainingSession
  attempts : Text → Option TrainingAttempt

-- A row under its own key only.
abbrev own_session : Text → Option TrainingSession → Option TrainingSession
own_session id none = none
own_session id (some s) = if eq_text s.id id then some s else none

abbrev same_key : Option Text → Text → Bool
same_key none id = false
same_key (some k) id = eq_text k id

abbrev maps : Database Maps
maps = record {
  select_fingerprint = λ id w. w.fingerprints id;
  select_session = λ id w. own_session id (w.sessions id);
  select_attempt = λ id w. w.attempts id;
  insert_event = λ e f t w. record w {
    fingerprints = λ id. if eq_text (event_base e).id id then some f else w.fingerprints id;
  };
  upsert_session = λ s w. record w {
    sessions = λ id.
        if eq_text s.id id
        then some (keep_created (own_session s.id (w.sessions s.id)) s)
        else w.sessions id;
  };
  upsert_attempt = λ a w. record w {
    attempts = λ id.
        if same_key a.submission_id id
        then some (keep_attempt (w.attempts id) a)
        else w.attempts id;
  };
}

own_session-id :
    (id : Text) (o : Option TrainingSession) (s : TrainingSession)
    → own_session id o ≡ some s
    → s.id ≡ id
own_session-id id none s h = absurd (ground arith)
own_session-id id (some t) s h = ground (arith, eq_text_iff t.id id)

own_session-kept :
    (s : TrainingSession) (o : Option TrainingSession)
    → own_session s.id (some (keep_created o s)) ≡ some (keep_created o s)
own_session-kept s none = rw (eq_text_refl s.id) refl
own_session-kept s (some old) = rw (eq_text_refl s.id) refl

maps-DatabaseLaws : DatabaseLaws maps
maps-DatabaseLaws = record {
  fingerprint-insert = λ e f t w h. rw (eq_text_refl (event_base e).id) refl;
  fingerprint-session = λ id s w. refl;
  fingerprint-attempt = λ id a w. refl;
  session-insert = λ id e f t w. refl;
  session-attempt = λ id a w. refl;
  session-session =
      λ s w. rw (eq_text_refl s.id) (own_session-kept s (own_session s.id (w.sessions s.id)));
  session_id = λ id w s h. own_session-id id (w.sessions id) s h;
  attempt-insert = λ id e f t w. refl;
  attempt-session = λ id s w. refl;
  attempt-attempt = λ id a w h. rw (h, eq_text_refl id) refl;
}

abbrev formats : Formats
formats = record { is_datetime = λ t. not (at_most 3 t); is_url = λ t. not (at_most 3 t) }

abbrev base_at : Text → Text → Base
base_at id t = record {
  id = id;
  capture_session_id = units "cs1";
  installation_id = units "inst";
  adapter_version = units "1";
  parser_version = units "1";
  page_origin = units "http";
  provenance_level = extension_paired;
  platform = leetcode;
  problem_external_id = units "two-sum";
  problem_title = units "Two Sum";
  canonical_url = units "http";
  occurred_at = t;
}

-- The fingerprint of an event is its time.
abbrev ctx : Context
ctx = record {
  formats = formats;
  fingerprint = λ e. (event_base e).occurred_at;
  canonical = λ platform id url. some (id, units "https");
}

-- The address of every problem is one text.
ctx-ContextLaws : ContextLaws ctx
ctx-ContextLaws = record { canonical-canonical = λ platform id url id' url' h. ground (arith, h) }

abbrev start_event : CaptureEvent
start_event = session_started (record { base = base_at (units "e1") (units "1200") })

abbrev end_event : CaptureEvent
end_event =
    session_ended (record { base = base_at (units "e2") (units "1210"); end_reason = pagehide })

abbrev changed_start : CaptureEvent
changed_start = session_started (record { base = base_at (units "e1") (units "1205") })

abbrev empty_maps : Maps
empty_maps = record { fingerprints = λ _. none; sessions = λ _. none; attempts = λ _. none }

abbrev started : TrainingSession
started = first_session start_event (units "1300")

abbrev after_start : Maps
after_start =
    maps.upsert_session started
      (maps.insert_event start_event (units "1200") (units "1300") empty_maps)

abbrev start_result : CaptureIngestResult
start_result = record {
  event_id = units "e1";
  capture_session_id = units "cs1";
  attempt_id = none;
  attempt_status = none;
  replayed = false;
}

start_ingested :
    ingest_capture_event ctx maps empty_maps start_event (units "1300")
    ≡ ok (start_result, after_start)
unfolding ingest_capture_event first_session event_schema session_schema eq_text
    transition_capture_state transition_session
start_ingested = refl

-- A submission, whose attempt is stored under the canonical address.
abbrev submit_event : CaptureEvent
submit_event = submission_observed (record {
  base = base_at (units "e3") (units "1205");
  submission_id = units "77";
  action = submission_confirmed;
})

abbrev submitted : TrainingAttempt
submitted = record (new_attempt (base_at (units "e3") (units "1205")) (units "77") (units "1301")) {
  submission_event_id = some (units "e3");
  canonical_url = units "https";
}

abbrev after_submit : Maps
after_submit = maps.upsert_attempt submitted (
    maps.upsert_session (merged_session started submit_event (units "1301"))
      (maps.insert_event submit_event (units "1205") (units "1301") after_start))

abbrev submit_result : CaptureIngestResult
submit_result = record {
  event_id = units "e3";
  capture_session_id = units "cs1";
  attempt_id = some (units "attempt_77");
  attempt_status = some draft;
  replayed = false;
}

submit_ingested :
    ingest_capture_event ctx maps after_start submit_event (units "1301")
    ≡ ok (submit_result, after_submit)
unfolding ingest_capture_event event_schema eq_text first_session session_schema
    transition_capture_state transition_session same_session eq_platform restarts merged_session
    lt_text attempt_schema new_attempt source_rule transition_submission_attempt
submit_ingested = refl

ingest_capture_event-again_example :
    ingest_capture_event ctx maps after_submit submit_event (units "1400")
    ≡ ok (record submit_result { replayed = true }, after_submit)
ingest_capture_event-again_example =
    ingest_capture_event-again ctx maps maps-DatabaseLaws ctx-ContextLaws after_start submit_event
      (units "1301") (units "1400") submit_ingested

changed_valid : event_schema formats changed_start ≡ true
unfolding event_schema
changed_valid = refl

changed_differs : units "1205" ≢ units "1200"
changed_differs h = ground arith

ingest_capture_event-conflict_example :
    ingest_capture_event ctx maps after_start changed_start (units "1400")
    ≡ err (capture_error capture_conflict)
ingest_capture_event-conflict_example =
    ingest_capture_event-conflict ctx maps maps-DatabaseLaws empty_maps start_event changed_start
      (units "1300") (units "1400") start_ingested changed_valid refl changed_differs

-- The start again, and an end.
abbrev stream : List (CaptureEvent × Text)
stream = (start_event, units "1301") ∷ (end_event, units "1302") ∷ []

abbrev end_result : CaptureIngestResult
end_result = record start_result { event_id = units "e2" }

abbrev stream_results : List CaptureIngestResult
stream_results = record start_result { replayed = true } ∷ end_result ∷ []

abbrev after_end : Maps
after_end =
    maps.upsert_session (merged_session started end_event (units "1302"))
      (maps.insert_event end_event (units "1210") (units "1302") after_start)

stream_ingested : ingest_events ctx maps after_start stream ≡ ok (stream_results, after_end)
unfolding ingest_events first_session merged_session event_schema session_schema eq_text
    transition_capture_state transition_session same_session eq_platform restarts lt_text
stream_ingested = refl

started_stored : maps.select_session (units "cs1") after_start ≡ some started
unfolding first_session eq_text
started_stored = refl

ingest_events-Follows_example :
    Follows ctx maps maps-DatabaseLaws
      (units "cs1")
      started
      ((end_event, units "1302") ∷ [])
      after_end
ingest_events-Follows_example =
    ingest_events-Follows ctx maps maps-DatabaseLaws (units "cs1") started stream after_start
      {rs = stream_results} {w' = after_end} (refl, (refl, tt)) started_stored stream_ingested
