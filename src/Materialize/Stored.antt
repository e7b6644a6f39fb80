-- ===== src/Materialize/Stored.antt =====
-- What the database holds after the transition of an event was stored.
use ai_coding_training_platf.Common.{
  true, false, Option, none, some, Text, ◌≡◌, inl, inr, refl, sym, ap, subst, ◌∙◌, arith,
  Option-cases,
}
use ai_coding_training_platf.Common.Result.{ok, >>=-eq-ok, Result-cases}
use ai_coding_training_platf.Domain.Event.{CaptureEvent, event_base}
use ai_coding_training_platf.Domain.Training.{
  TrainingSession, TrainingAttempt, Formats, session_schema, attempt_schema, source_rule,
}
use ai_coding_training_platf.Ingest.{CaptureState, CaptureTransition, parse_session, parse_attempt}
use ai_coding_training_platf.Materialize.{
  CaptureIngestResult, Database, DatabaseLaws, Context, keep_created, submission_of,
  transition_result, read_session, read_attempt, attempt_in, keep_attempt, ContextLaws, state_for,
  save_training_session, normalize_attempt, save_training_attempt, save_attempt_of,
  insert_capture_event, store_transition,
}
use ai_coding_training_platf.Materialize.Fits.{FitsAttempt}

attempt_schema-created :
    (z : Formats) (a : TrainingAttempt) (t : Text)
    → attempt_schema z a ≡ true
    → z.is_datetime t ≡ true
    → attempt_schema z (record a { created_at = t }) ≡ true
unfolding attempt_schema source_rule
attempt_schema-created z a t h k = ground arith

attempt_schema-datetime :
    (z : Formats) (a : TrainingAttempt)
    → attempt_schema z a ≡ true
    → z.is_datetime a.created_at ≡ true
unfolding attempt_schema
attempt_schema-datetime z a h = ground arith

session_schema-created :
    (z : Formats) (s old : TrainingSession)
    → session_schema z s ≡ true
    → session_schema z old ≡ true
    → session_schema z (record s { created_at = old.created_at }) ≡ true
unfolding session_schema
session_schema-created z s old h k = ground arith

module _ (ctx : Context) {Db : Type 0} (db : Database Db) (laws : DatabaseLaws db) where
  -- The row of a submission, and that its time of creation is one.
  abbrev pub attempt_row : Option Text → Db → Option TrainingAttempt
  attempt_row none w = none
  attempt_row (some id) w = db.select_attempt id w

  abbrev pub IsDated : Option TrainingAttempt → Type 0
  IsDated none = Unit
  IsDated (some a) = ctx.formats.is_datetime a.created_at ≡ true

  save_training_session-ok :
      (s : TrainingSession) (w : Db) {w' : Db}
      → save_training_session ctx db s w ≡ ok w'
      → (session_schema ctx.formats s ≡ true) × (w' ≡ db.upsert_session s w)
  unfolding save_training_session parse_session
  save_training_session-ok s w h = (ground arith, ground arith)

  -- The attempt that is stored is valid, and differs in the problem's id and address only, which
  -- are canonical.
  save_training_attempt-ok :
      (a : TrainingAttempt) (w : Db) {w' : Db}
      → save_training_attempt ctx db a w ≡ ok w'
      → (id : Text) × (url : Text) × (ctx.canonical a.platform a.problem_external_id a.canonical_url
          ≡ some (id, url))
        × (attempt_schema ctx.formats (record a { problem_external_id = id; canonical_url = url })
            ≡ true)
        × (w' ≡ db.upsert_attempt (record a { problem_external_id = id; canonical_url = url }) w)
  unfolding save_training_attempt normalize_attempt parse_attempt
  save_training_attempt-ok a w h =
      elim (Option-cases (ctx.canonical a.platform a.problem_external_id a.canonical_url)) [
        | inl e ↦ absurd (ground (arith, e))
        | inr ((id, url), e) ↦ (id, url, e, ground (arith, e), ground (arith, e))
      ]

  -- The database after a transition is stored, in its three parts.
  pub record IsStored (e : CaptureEvent) (now : Text) (t : CaptureTransition) (w w' : Db)
      : Type 0 where
    pub after_session : Db
    pub is_valid : session_schema ctx.formats t.session ≡ true
    pub is_session :
        after_session ≡ db.upsert_session t.session (db.insert_event e (ctx.fingerprint e) now w)
    pub is_attempt : save_attempt_of ctx db t.attempt after_session ≡ ok w'

  pub store_transition-IsStored :
      (e : CaptureEvent) (now : Text) (t : CaptureTransition) (w : Db)
      {r : CaptureIngestResult × Db}
      → store_transition ctx db e now t w ≡ ok r
      → IsStored e now t w r.1 × (r.0 ≡ transition_result e t.attempt false)
  unfolding store_transition insert_capture_event
  store_transition-IsStored e now t w {r} h =
      let w1 = db.insert_event e (ctx.fingerprint e) now w in
      elim (Result-cases (save_training_session ctx db t.session w1)) [
        | inl (thrown, k) ↦ absurd (ground (arith, k))
        | inr (w2, k) ↦ elim (Result-cases (save_attempt_of ctx db t.attempt w2)) [
          | inl (thrown, j) ↦ absurd (ground (arith, k, j))
          | inr (w3, j) ↦ (
            record {
              after_session = w2;
              is_valid = (save_training_session-ok t.session w1 k).0;
              is_session = (save_training_session-ok t.session w1 k).1;
              is_attempt = ground (arith, k, j);
            },
            ground (arith, k, j),
          )
        ]
      ]

  save_attempt_of-rows :
      (o : Option TrainingAttempt) (w : Db) {w' : Db} (id : Text)
      → save_attempt_of ctx db o w ≡ ok w'
      → (db.select_fingerprint id w' ≡ db.select_fingerprint id w)
        × (db.select_session id w' ≡ db.select_session id w)
  unfolding save_attempt_of
  save_attempt_of-rows none w id h = (ground arith, ground arith)
  save_attempt_of-rows (some a) w id h =
      let (name, url, e, valid, stored) = save_training_attempt-ok a w h in
      rw stored (laws.fingerprint-attempt id _ w, laws.session-attempt id _ w)

  abbrev pub IsSessionValid : Option TrainingSession → Type 0
  IsSessionValid none = Unit
  IsSessionValid (some s) = session_schema ctx.formats s ≡ true

  read_session-ok :
      (id : Text) (w : Db) {o : Option TrainingSession}
      → read_session ctx db id w ≡ ok o
      → (o ≡ db.select_session id w) × IsSessionValid (db.select_session id w)
  unfolding read_session parse_session
  read_session-ok id w h = elim (Option-cases (db.select_session id w)) [
    | inl e ↦ (ground (arith, e), subst IsSessionValid (sym e) tt)
    | inr (s, e) ↦
        let valid : session_schema ctx.formats s ≡ true = ground (arith, e) in
        (ground (arith, e), subst IsSessionValid (sym e) valid)
  ]

  pub read_session-kept :
      (id : Text) (o : Option TrainingSession) (s : TrainingSession) (w : Db)
      → db.select_session id w ≡ some (keep_created o s)
      → IsSessionValid o
      → session_schema ctx.formats s ≡ true
      → read_session ctx db id w ≡ ok (some (keep_created o s))
  unfolding read_session parse_session
  read_session-kept id none s w row dated valid = ground (arith, row, valid)
  read_session-kept id (some old) s w row dated valid =
      ground (arith, row, session_schema-created ctx.formats s old valid dated)

  attempt_in-IsDated :
      (e : CaptureEvent) (w : Db) {o : Option TrainingAttempt}
      → attempt_in ctx db e w ≡ ok o
      → IsDated (attempt_row (submission_of e) w)
  unfolding attempt_in read_attempt parse_attempt
  attempt_in-IsDated e w h = elim (Option-cases (submission_of e)) [
    | inl s ↦ subst (λ i. IsDated (attempt_row i w)) (sym s) tt
    | inr (id, s) ↦
        subst (λ i. IsDated (attempt_row i w)) (sym s)
          (elim (Option-cases (db.select_attempt id w)) [
            | inl k ↦ subst IsDated (sym k) tt
            | inr (a, k) ↦
                let valid : attempt_schema ctx.formats a ≡ true = ground (arith, s, k) in
                subst IsDated (sym k) (attempt_schema-datetime ctx.formats a valid)
          ])
  ]

  -- A row that was stored is read as it is.
  read_attempt-kept :
      (id : Text) (a : TrainingAttempt) (w : Db)
      → db.select_attempt id w ≡ some a
      → attempt_schema ctx.formats a ≡ true
      → ctx.canonical a.platform a.problem_external_id a.canonical_url
        ≡ some (a.problem_external_id, a.canonical_url)
      → read_attempt ctx db id w ≡ ok (some a)
  unfolding read_attempt normalize_attempt parse_attempt
  read_attempt-kept id a w row valid own = ground (arith, row, valid, own)

  kept-read :
      (id : Text) (o : Option TrainingAttempt) (c : TrainingAttempt) (w : Db)
      → db.select_attempt id w ≡ some (keep_attempt o c)
      → IsDated o
      → attempt_schema ctx.formats c ≡ true
      → ctx.canonical c.platform c.problem_external_id c.canonical_url
        ≡ some (c.problem_external_id, c.canonical_url)
      → (x : TrainingAttempt) × (read_attempt ctx db id w ≡ ok (some x))
        × (x.id ≡ c.id)
        × (x.result ≡ c.result)
  kept-read id none c w row dated valid own =
      (c, read_attempt-kept id c w row valid own, refl, refl)
  kept-read id (some old) c w row dated valid own = (
    record c { created_at = old.created_at },
    read_attempt-kept id _ w row (attempt_schema-created ctx.formats c old.created_at valid dated)
        own,
    refl,
    refl,
  )

  pub save_attempt_of-result :
      (steady : ContextLaws ctx) (e : CaptureEvent) (o : Option TrainingAttempt) (w : Db) {w' : Db}
      → FitsAttempt (submission_of e) o
      → IsDated (attempt_row (submission_of e) w)
      → save_attempt_of ctx db o w ≡ ok w'
      → (found : Option TrainingAttempt) × (attempt_in ctx db e w' ≡ ok found)
        × (transition_result e found true
            ≡ record (transition_result e o false) { replayed = true })
  unfolding save_attempt_of transition_result attempt_in
  save_attempt_of-result steady e none w fits dated h = elim (Option-cases (submission_of e)) [
    | inl s ↦ rw (s, attempt_in) (none, refl, refl)
    | inr (id, s) ↦ absurd (rw s at fits)
  ]
  save_attempt_of-result steady e (some a) w {w'} fits dated h =
      elim (Option-cases (submission_of e)) [
        | inl s ↦ absurd (rw s at fits)
        | inr (id, s) ↦
            let own : a.submission_id ≡ some id = rw s at fits in
            let (name, url, named, valid, stored) = save_training_attempt-ok a w h in
            let c : TrainingAttempt = record a {
              problem_external_id = name;
              canonical_url = url;
            } in
            let kept = keep_attempt (db.select_attempt id w) c in
            let row : db.select_attempt id w' ≡ some kept =
              ap (db.select_attempt id) stored ∙ laws.attempt-attempt id c w own in
            let then : IsDated (db.select_attempt id w) =
              subst (λ o. IsDated (attempt_row o w)) s dated in
            let (x, read, is_id, is_result) =
              kept-read id (db.select_attempt id w) c w' row then valid (
                steady.canonical-canonical a.platform a.problem_external_id a.canonical_url name url
                  named) in
            (some x, rw (s, attempt_in) read, rw (is_id, is_result) refl)
      ]

  -- What the reads before a transition say of the rows.
  pub state_for-rows :
      (e : CaptureEvent) (w : Db) {state : CaptureState}
      → state_for ctx db e w ≡ ok state
      → (state.session ≡ db.select_session (event_base e).capture_session_id w)
        × IsDated (attempt_row (submission_of e) w)
        × IsSessionValid (db.select_session (event_base e).capture_session_id w)
  unfolding state_for
  state_for-rows e w h =
      let (s, k, rest) = >>=-eq-ok (read_session ctx db _ w) _ h in
      let (a, j, last) = >>=-eq-ok (attempt_in ctx db e w) _ rest in
      let (same, valid) = read_session-ok (event_base e).capture_session_id w k in
      (ground (arith, same), attempt_in-IsDated e w j, valid)

  pub after_session-row :
      (e : CaptureEvent) (now : Text) (t : CaptureTransition) (w : Db) {w' : Db}
      (stored : IsStored e now t w w') (o : Option Text)
      → attempt_row o stored.after_session ≡ attempt_row o w
  after_session-row e now t w stored none = refl
  after_session-row e now t w stored (some id) =
      ap (db.select_attempt id) stored.is_session
      ∙ laws.attempt-session id t.session (db.insert_event e (ctx.fingerprint e) now w)
      ∙ laws.attempt-insert id e (ctx.fingerprint e) now w

  module _ (e : CaptureEvent) (now : Text) (t : CaptureTransition) (w : Db) {w' : Db}
      (stored : IsStored e now t w w') where
    pub stored_session :
        db.select_session t.session.id w'
        ≡ some (keep_created (db.select_session t.session.id w) t.session)
    stored_session =
        (save_attempt_of-rows t.attempt stored.after_session t.session.id stored.is_attempt).1
        ∙ ap (db.select_session t.session.id) stored.is_session
        ∙ laws.session-session t.session (db.insert_event e (ctx.fingerprint e) now w)
        ∙ ap (λ o. some (keep_created o t.session))
            (laws.session-insert t.session.id e (ctx.fingerprint e) now w)

    pub stored_fingerprint :
        db.select_fingerprint (event_base e).id w ≡ none
        → db.select_fingerprint (event_base e).id w' ≡ some (ctx.fingerprint e)
    stored_fingerprint fresh =
        (save_attempt_of-rows t.attempt stored.after_session (event_base e).id stored.is_attempt).0
        ∙ ap (db.select_fingerprint (event_base e).id) stored.is_session
        ∙ laws.fingerprint-session (event_base e).id t.session
            (db.insert_event e (ctx.fingerprint e) now w)
        ∙ laws.fingerprint-insert e (ctx.fingerprint e) now w fresh
