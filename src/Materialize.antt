-- ===== src/Materialize.antt =====
-- The ingestion of capture events over the database: lib/services/captureMaterializer.ts, the
-- functions of lib/repositories that it calls, and the loop over a bundle's events in
-- lib/services/captureAttemptBundle.ts. The SQL statements are the record `Database`.
pub mod Stored
pub mod Fits
pub mod Again
pub mod Stream
mod Scenarios
use ai_coding_training_platf.Common.{
  Bool, true, false, not, if◌then◌else◌, Option, none, some, List, [], ◌∷◌, Text, eq_text, ◌≡◌,
}
use ai_coding_training_platf.Common.Result.{Result, ok, err, ◌>>=◌}
use ai_coding_training_platf.Domain.{AttemptResult, Platform}
use ai_coding_training_platf.Domain.Event.{
  CaptureEvent, session_started, submission_observed, verdict_observed, session_ended, event_base,
  event_schema,
}
use ai_coding_training_platf.Domain.Training.{TrainingSession, TrainingAttempt, Formats}
use ai_coding_training_platf.Ingest.{
  IngestError, capture_conflict, zod_error, CaptureState, CaptureTransition, guard_that,
  parse_session, parse_attempt, transition_capture_state,
}

-- `url_error` is what normalizeAttempt throws, `session_missing` the error of replayResult.
pub data MaterializeError : Type 0 where
  capture_error : IngestError → MaterializeError
  url_error session_missing : MaterializeError

abbrev pub lift : {A : Type 0} → Result IngestError A → Result MaterializeError A
lift (err e) = err (capture_error e)
lift (ok a) = ok a

pub record CaptureIngestResult : Type 0 where
  pub event_id : Text
  pub capture_session_id : Text
  pub attempt_id : Option Text
  pub attempt_status : Option AttemptResult
  pub replayed : Bool

-- The statements: a row by its id (an attempt's by its submission), an insertion, two upserts.
pub record Database (Db : Type 0) : Type 0 where
  pub select_fingerprint : Text → Db → Option Text
  pub select_session : Text → Db → Option TrainingSession
  pub select_attempt : Text → Db → Option TrainingAttempt
  pub insert_event : CaptureEvent → (fingerprint received_at : Text) → Db → Db
  pub upsert_session : TrainingSession → Db → Db
  pub upsert_attempt : TrainingAttempt → Db → Db

-- The digest of an event's canonical JSON, and `normalizeAttempt` up to its schema, which rewrites
-- the problem's id and address (none where it throws).
pub record Context : Type 0 where
  pub formats : Formats
  pub fingerprint : CaptureEvent → Text
  pub canonical : Platform → (problem_external_id canonical_url : Text) → Option (Text × Text)

-- What is canonical is left as it is.
pub record ContextLaws (ctx : Context) : Type 0 where
  pub canonical-canonical :
      (platform : Platform) (problem_external_id canonical_url id url : Text)
      → ctx.canonical platform problem_external_id canonical_url ≡ some (id, url)
      → ctx.canonical platform id url ≡ some (id, url)

abbrev pub submission_of : CaptureEvent → Option Text
submission_of (session_started e) = none
submission_of (submission_observed e) = some e.submission_id
submission_of (verdict_observed e) = some e.submission_id
submission_of (session_ended e) = none

unfoldable pub transition_result :
    CaptureEvent → Option TrainingAttempt → Bool → CaptureIngestResult
transition_result e attempt replayed = record {
  event_id = (event_base e).id;
  capture_session_id = (event_base e).capture_session_id;
  attempt_id = elim attempt [ none ↦ none | some a ↦ some a.id ];
  attempt_status = elim attempt [ none ↦ none | some a ↦ some a.result ];
  replayed = replayed;
}

module _ (ctx : Context) {Db : Type 0} (db : Database Db) where
  unfoldable pub normalize_attempt : TrainingAttempt → Result MaterializeError TrainingAttempt
  normalize_attempt a = elim (ctx.canonical a.platform a.problem_external_id a.canonical_url) [
    | none ↦ err url_error
    | some (id, url) ↦
        lift
          (parse_attempt ctx.formats (record a { problem_external_id = id; canonical_url = url }))
  ]

  -- `findTrainingSessionById` with its `fromRow`
  unfoldable pub read_session : Text → Db → Result MaterializeError (Option TrainingSession)
  read_session id w = elim (db.select_session id w) [
    | none ↦ ok none
    | some row ↦ lift (parse_session ctx.formats row) >>= λ s. ok (some s)
  ]

  -- `findAttemptBySubmissionId` with its `fromRow`
  unfoldable pub read_attempt : Text → Db → Result MaterializeError (Option TrainingAttempt)
  unfolding normalize_attempt
  read_attempt id w = elim (db.select_attempt id w) [
    | none ↦ ok none
    | some row ↦
        lift (parse_attempt ctx.formats row) >>= λ a. normalize_attempt a >>= λ b. ok (some b)
  ]

  unfoldable pub attempt_in : CaptureEvent → Db → Result MaterializeError (Option TrainingAttempt)
  unfolding read_attempt
  attempt_in e w = elim (submission_of e) [ none ↦ ok none | some id ↦ read_attempt id w ]

  unfoldable pub replay_result : Db → CaptureEvent → Result MaterializeError CaptureIngestResult
  unfolding transition_result read_session attempt_in
  replay_result w e = read_session (event_base e).capture_session_id w >>= λ found. elim found [
    | none ↦ err session_missing
    | some s ↦ attempt_in e w >>= λ a. ok (transition_result e a true)
  ]

  unfoldable pub save_training_session : TrainingSession → Db → Result MaterializeError Db
  save_training_session s w = lift (parse_session ctx.formats s) >>= λ t. ok (db.upsert_session t w)

  unfoldable pub save_training_attempt : TrainingAttempt → Db → Result MaterializeError Db
  unfolding normalize_attempt
  save_training_attempt a w = lift (parse_attempt ctx.formats a) >>= λ b.
      normalize_attempt b >>= λ c. ok (db.upsert_attempt c w)

  unfoldable pub save_attempt_of : Option TrainingAttempt → Db → Result MaterializeError Db
  unfolding save_training_attempt
  save_attempt_of none w = ok w
  save_attempt_of (some a) w = save_training_attempt a w

  unfoldable pub insert_capture_event : CaptureEvent → Text → Text → Db → Result MaterializeError Db
  insert_capture_event e fingerprint received_at w =
      if event_schema ctx.formats e
      then ok (db.insert_event e fingerprint received_at w)
      else err (capture_error zod_error)

  unfoldable pub state_for : CaptureEvent → Db → Result MaterializeError CaptureState
  unfolding read_session attempt_in
  state_for e w = read_session (event_base e).capture_session_id w >>= λ s.
      attempt_in e w >>= λ a. ok (record { session = s; attempt = a })

  -- The end of the transaction, for an event that is not stored.
  unfoldable pub store_transition :
      CaptureEvent
      → Text
      → CaptureTransition
      → Db
      → Result MaterializeError (CaptureIngestResult × Db)
  unfolding insert_capture_event save_training_session save_attempt_of transition_result
  store_transition e received_at t w =
      insert_capture_event e (ctx.fingerprint e) received_at w >>= λ w1.
      save_training_session t.session w1 >>= λ w2.
      save_attempt_of t.attempt w2 >>= λ w3. ok (transition_result e t.attempt false, w3)

  -- An error leaves no database behind: the transaction is rolled back.
  unfoldable pub ingest_capture_event :
      Db → CaptureEvent → (now : Text) → Result MaterializeError (CaptureIngestResult × Db)
  unfolding replay_result state_for store_transition
  ingest_capture_event w e now =
      if not (event_schema ctx.formats e)
      then err (capture_error zod_error)
      else elim (db.select_fingerprint (event_base e).id w) [
        | some stored ↦
            if not (eq_text stored (ctx.fingerprint e))
            then err (capture_error capture_conflict)
            else replay_result w e >>= λ r. ok (r, w)
        | none ↦ state_for e w >>= λ state.
            lift (transition_capture_state ctx.formats state e now) >>= λ t.
            store_transition e now t w
      ]

  -- `bundle.events.map`, with the clock of each event.
  unfoldable pub ingest_events :
      Db → List (CaptureEvent × Text) → Result MaterializeError (List CaptureIngestResult × Db)
  unfolding ingest_capture_event
  ingest_events w [] = ok ([], w)
  ingest_events w ((e, now) ∷ es) = ingest_capture_event w e now >>= λ first.
      ingest_events first.1 es >>= λ rest. ok (first.0 ∷ rest.0, rest.1)

-- `ON CONFLICT(id) DO UPDATE` leaves the former row's created_at.
abbrev pub keep_created : Option TrainingSession → TrainingSession → TrainingSession
keep_created none s = s
keep_created (some old) s = record s { created_at = old.created_at }

abbrev pub keep_attempt : Option TrainingAttempt → TrainingAttempt → TrainingAttempt
keep_attempt none a = a
keep_attempt (some old) a = record a { created_at = old.created_at }

-- What the statements do to the rows that the code reads. An attempt's row is the one of its
-- submission.
pub record DatabaseLaws {Db : Type 0} (db : Database Db) : Type 0 where
  pub fingerprint-insert :
      (e : CaptureEvent) (f t : Text) (w : Db)
      → db.select_fingerprint (event_base e).id w ≡ none
      → db.select_fingerprint (event_base e).id (db.insert_event e f t w) ≡ some f
  pub fingerprint-session :
      (id : Text) (s : TrainingSession) (w : Db)
      → db.select_fingerprint id (db.upsert_session s w) ≡ db.select_fingerprint id w
  pub fingerprint-attempt :
      (id : Text) (a : TrainingAttempt) (w : Db)
      → db.select_fingerprint id (db.upsert_attempt a w) ≡ db.select_fingerprint id w
  pub session-insert :
      (id : Text) (e : CaptureEvent) (f t : Text) (w : Db)
      → db.select_session id (db.insert_event e f t w) ≡ db.select_session id w
  pub session-attempt :
      (id : Text) (a : TrainingAttempt) (w : Db)
      → db.select_session id (db.upsert_attempt a w) ≡ db.select_session id w
  pub session-session :
      (s : TrainingSession) (w : Db)
      → db.select_session s.id (db.upsert_session s w)
        ≡ some (keep_created (db.select_session s.id w) s)
  pub session_id :
      (id : Text) (w : Db) (s : TrainingSession) → db.select_session id w ≡ some s → s.id ≡ id
  pub attempt-insert :
      (id : Text) (e : CaptureEvent) (f t : Text) (w : Db)
      → db.select_attempt id (db.insert_event e f t w) ≡ db.select_attempt id w
  pub attempt-session :
      (id : Text) (s : TrainingSession) (w : Db)
      → db.select_attempt id (db.upsert_session s w) ≡ db.select_attempt id w
  pub attempt-attempt :
      (id : Text) (a : TrainingAttempt) (w : Db)
      → a.submission_id ≡ some id
      → db.select_attempt id (db.upsert_attempt a w)
        ≡ some (keep_attempt (db.select_attempt id w) a)
