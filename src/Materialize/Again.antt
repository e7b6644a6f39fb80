-- ===== src/Materialize/Again.antt =====
-- An event that is ingested again, and another one under its id.
use ai_coding_training_platf.Common.{
  true, false, Option, none, some, Text, eq_text, eq_text_iff, eq_text_refl, ◌≡◌, ◌≢◌, ◌⊎◌, inl,
  inr, sym, subst, ap, ◌∙◌, arith, Option-cases, Bool-cases,
}
use ai_coding_training_platf.Common.Result.{ok, err, ◌>>=◌, Result-cases}
use ai_coding_training_platf.Domain.Event.{CaptureEvent, event_base, event_schema}
use ai_coding_training_platf.Domain.Training.{TrainingSession, TrainingAttempt}
use ai_coding_training_platf.Ingest.{
  CaptureState, CaptureTransition, capture_conflict, transition_capture_state,
}
use ai_coding_training_platf.Materialize.{
  capture_error, CaptureIngestResult, Database, DatabaseLaws, Context, keep_created,
  transition_result, replay_result, state_for, read_session, attempt_in, ContextLaws, submission_of,
  ingest_capture_event,
}
use ai_coding_training_platf.Materialize.Fits.{transition-FitsAttempt, transition-id}
use ai_coding_training_platf.Materialize.Stored.{
  IsStored, store_transition-IsStored, save_attempt_of-result, state_for-rows, read_session-kept,
  after_session-row, IsDated, stored_session, stored_fingerprint,
}

module _ (ctx : Context) {Db : Type 0} (db : Database Db) (laws : DatabaseLaws db) where
  -- An event that is known already changes nothing; a new one is stored.
  abbrev pub Known : Db → CaptureEvent → CaptureIngestResult → Db → Type 0
  Known w e r w' =
      (db.select_fingerprint (event_base e).id w ≡ some (ctx.fingerprint e))
      × (replay_result ctx db w e ≡ ok r)
      × (w' ≡ w)

  abbrev pub New : Db → CaptureEvent → Text → CaptureIngestResult → Db → Type 0
  New w e now r w' =
      (db.select_fingerprint (event_base e).id w ≡ none)
      × (state : CaptureState) × (state_for ctx db e w ≡ ok state)
      × (t : CaptureTransition) × (transition_capture_state ctx.formats state e now ≡ ok t)
      × IsStored ctx db laws e now t w w'
      × (r ≡ transition_result e t.attempt false)

  pub ingest-cases :
      (w : Db) (e : CaptureEvent) (now : Text) {r : CaptureIngestResult} {w' : Db}
      → ingest_capture_event ctx db w e now ≡ ok (r, w')
      → (event_schema ctx.formats e ≡ true) × (Known w e r w' ⊎ New w e now r w')
  unfolding ingest_capture_event
  ingest-cases w e now {r} {w'} h =
      elim (Option-cases (db.select_fingerprint (event_base e).id w)) [
        | inr (f, k) ↦ elim (Result-cases (replay_result ctx db w e)) [
          | inl (thrown, j) ↦ absurd (ground (arith, k, j))
          | inr (res, j) ↦ (
            ground (arith, k, j),
            inl (
              k ∙ ap some (ground (arith, k, j, eq_text_iff f (ctx.fingerprint e))),
              ground (arith, k, j),
              ground (arith, k, j),
            ),
          )
        ]
        | inl k ↦ elim (Result-cases (state_for ctx db e w)) [
          | inl (thrown, i) ↦ absurd (ground (arith, k, i))
          | inr (state, i) ↦
              elim (Result-cases (transition_capture_state ctx.formats state e now)) [
                | inl (thrown, j) ↦ absurd (ground (arith, k, i, j))
                | inr (t, j) ↦
                    let kept =
                      store_transition-IsStored ctx db laws e now t w {r = (r, w')}
                        (ground (arith, k, i, j)) in
                    (ground (arith, k, i, j), inr (k, state, i, t, j, kept.0, kept.1))
              ]
        ]
      ]

  ingest_known :
      (w : Db) (e : CaptureEvent) (now : Text)
      → event_schema ctx.formats e ≡ true
      → db.select_fingerprint (event_base e).id w ≡ some (ctx.fingerprint e)
      → ingest_capture_event ctx db w e now ≡ (replay_result ctx db w e >>= λ r. ok (r, w))
  unfolding ingest_capture_event
  ingest_known w e now valid k = ground (arith, k, eq_text_refl (ctx.fingerprint e))

  known_after :
      (w : Db) (e : CaptureEvent) (now : Text) {r : CaptureIngestResult} {w' : Db}
      → ingest_capture_event ctx db w e now ≡ ok (r, w')
      → db.select_fingerprint (event_base e).id w' ≡ some (ctx.fingerprint e)
  known_after w e now h = elim (ingest-cases w e now h).1 [
    | inl (k, j, same) ↦ rw same k
    | inr (k, state, i, t, j, stored, res) ↦ stored_fingerprint ctx db laws e now t w stored k
  ]

  pub replay_result-replayed :
      (w : Db) (e : CaptureEvent) {r : CaptureIngestResult}
      → replay_result ctx db w e ≡ ok r
      → record r { replayed = true } ≡ r
  unfolding replay_result transition_result
  replay_result-replayed w e h =
      elim (Result-cases (read_session ctx db (event_base e).capture_session_id w)) [
        | inl (thrown, k) ↦ absurd (ground (arith, k))
        | inr (o, k) ↦ elim (Option-cases o) [
          | inl n ↦ absurd (ground (arith, k, n))
          | inr (s, n) ↦ elim (Result-cases (attempt_in ctx db e w)) [
            | inl (thrown, j) ↦ absurd (ground (arith, k, n, j))
            | inr (a, j) ↦ ground (arith, k, n, j)
          ]
        ]
      ]

  pub ingested_session :
      (w : Db) (e : CaptureEvent) (now : Text) {state : CaptureState} (t : CaptureTransition)
      (w' : Db)
      → state_for ctx db e w ≡ ok state
      → transition_capture_state ctx.formats state e now ≡ ok t
      → IsStored ctx db laws e now t w w'
      → db.select_session (event_base e).capture_session_id w'
        ≡ some (keep_created (db.select_session (event_base e).capture_session_id w) t.session)
  ingested_session w e now {state} t w' i j stored =
      let own =
        transition-id ctx.formats state e now
          (λ s k.
            laws.session_id (event_base e).capture_session_id w s
              (sym (state_for-rows ctx db laws e w i).0 ∙ k))
          j in
      subst (λ id. db.select_session id w' ≡ some (keep_created (db.select_session id w) t.session))
        own (stored_session ctx db laws e now t w stored)

  replay_result-reads :
      (w : Db) (e : CaptureEvent) (s : TrainingSession) (a : Option TrainingAttempt)
      → read_session ctx db (event_base e).capture_session_id w ≡ ok (some s)
      → attempt_in ctx db e w ≡ ok a
      → replay_result ctx db w e ≡ ok (transition_result e a true)
  unfolding replay_result
  replay_result-reads w e s a k j = ground (arith, k, j)

  replay_after :
      ContextLaws ctx
      → (w : Db) (e : CaptureEvent) (now : Text) {r : CaptureIngestResult} {w' : Db}
      → ingest_capture_event ctx db w e now ≡ ok (r, w')
      → replay_result ctx db w' e ≡ ok (record r { replayed = true })
  replay_after steady w e now {r} {w'} h = elim (ingest-cases w e now h).1 [
    | inl (k, j, same) ↦ rw same (j ∙ ap ok (sym (replay_result-replayed w e j)))
    | inr (k, state, i, t, j, stored, res) ↦
        let (_, dated, valid) = state_for-rows ctx db laws e w i in
        let row = ingested_session w e now t w' i j stored in
        let session = read_session-kept ctx db laws _ _ t.session w' row valid stored.is_valid in
        let still =
          subst (IsDated ctx db laws)
            (sym (after_session-row ctx db laws e now t w stored (submission_of e))) dated in
        let (found, attempt, result) =
          save_attempt_of-result ctx db laws steady e t.attempt stored.after_session
            (transition-FitsAttempt ctx.formats state e now j) still stored.is_attempt in
        replay_result-reads w' e _ found session attempt
        ∙ ap ok (result ∙ ap (λ (x : CaptureIngestResult). record x { replayed = true }) (sym res))
  ]

  -- Where canonical names of problems are left as they are, an event that was ingested is accepted
  -- again at any later time: the rows it left pass the schemas they are read with, the result is the
  -- same but for its mark as replayed, and the database does not change.
  pub ingest_capture_event-again :
      ContextLaws ctx
      → (w : Db) (e : CaptureEvent) (now later : Text) {r : CaptureIngestResult} {w' : Db}
      → ingest_capture_event ctx db w e now ≡ ok (r, w')
      → ingest_capture_event ctx db w' e later ≡ ok (record r { replayed = true }, w')
  ingest_capture_event-again steady w e now later {r} {w'} h =
      ingest_known w' e later (ingest-cases w e now h).0 (known_after w e now h)
      ∙ ap (λ c. c >>= λ x. ok (x, w')) (replay_after steady w e now h)

  -- After an event was ingested, a valid event of its id with another fingerprint is a conflict.
  pub ingest_capture_event-conflict :
      (w : Db) (e other : CaptureEvent) (now later : Text) {r : CaptureIngestResult} {w' : Db}
      → ingest_capture_event ctx db w e now ≡ ok (r, w')
      → event_schema ctx.formats other ≡ true
      → (event_base other).id ≡ (event_base e).id
      → ctx.fingerprint other ≢ ctx.fingerprint e
      → ingest_capture_event ctx db w' other later ≡ err (capture_error capture_conflict)
  unfolding ingest_capture_event
  ingest_capture_event-conflict w e other now later {r} {w'} h valid same differs =
      let k : db.select_fingerprint (event_base other).id w' ≡ some (ctx.fingerprint e) =
        rw same (known_after w e now h) in
      elim (Bool-cases (eq_text (ctx.fingerprint e) (ctx.fingerprint other))) [
        | inl b ↦
            absurd (differs (sym ((eq_text_iff (ctx.fingerprint e) (ctx.fingerprint other)).0 b)))
        | inr b ↦ ground (arith, k, b)
      ]
