-- ===== src/Materialize/Stream.antt =====
-- A stored session under a stream of its events, as `run_sessions` of Ingest/Session has it.
use ai_coding_training_platf.Common.{
  true, false, some, List, [], ◌∷◌, Text, Each, ◌≡◌, ◌⊎◌, inl, inr, refl, sym, ap, subst, ◌∙◌,
  arith, if◌then◌else◌,
}
use ai_coding_training_platf.Common.Result.{ok, ◌>>=◌, >>=-eq-ok}
use ai_coding_training_platf.Domain.Event.{
  CaptureEvent, session_started, submission_observed, verdict_observed, session_ended, event_base,
}
use ai_coding_training_platf.Domain.Training.{TrainingSession}
use ai_coding_training_platf.Ingest.{transition_session, merged_session}
use ai_coding_training_platf.Ingest.Session.{run_sessions, transition_session-some}
use ai_coding_training_platf.Materialize.{
  CaptureIngestResult, Database, DatabaseLaws, Context, keep_created, transition_result, state_for,
  ingest_capture_event, ingest_events,
}
use ai_coding_training_platf.Materialize.Fits.{transition-session}
use ai_coding_training_platf.Materialize.Stored.{state_for-rows}
use ai_coding_training_platf.Materialize.Again.{
  ingest-cases, ingested_session, replay_result-replayed,
}

-- The events that were not stored before, by the results.
abbrev pub accepted :
    List (CaptureEvent × Text) → List CaptureIngestResult → List (CaptureEvent × Text)
accepted [] rs = []
accepted (e ∷ es) [] = []
accepted (e ∷ es) (r ∷ rs) = if r.replayed then accepted es rs else e ∷ accepted es rs

accepted-replayed :
    (e : CaptureEvent × Text) (es : List (CaptureEvent × Text)) (r : CaptureIngestResult)
    (rs : List CaptureIngestResult)
    → r.replayed ≡ true
    → accepted (e ∷ es) (r ∷ rs) ≡ accepted es rs
accepted-replayed e es r rs h = rw h refl

accepted-new :
    (e : CaptureEvent × Text) (es : List (CaptureEvent × Text)) (r : CaptureIngestResult)
    (rs : List CaptureIngestResult)
    → r.replayed ≡ false
    → accepted (e ∷ es) (r ∷ rs) ≡ e ∷ accepted es rs
accepted-new e es r rs h = rw h refl

merged_session-created :
    (s : TrainingSession) (e : CaptureEvent) (now : Text)
    → record (merged_session s e now) { created_at = s.created_at } ≡ merged_session s e now
unfolding merged_session
merged_session-created s (session_started e) now = refl
merged_session-created s (submission_observed e) now = refl
merged_session-created s (verdict_observed e) now = refl
merged_session-created s (session_ended e) now = refl

module _ (ctx : Context) {Db : Type 0} (db : Database Db) (laws : DatabaseLaws db) (id : Text) where
  -- The session's row, and the transitions of the accepted events that lead to it.
  abbrev pub Follows : TrainingSession → List (CaptureEvent × Text) → Db → Type 0
  Follows s es w =
      (t : TrainingSession) × (run_sessions ctx.formats s es ≡ ok t)
      × (db.select_session id w ≡ some t)

  ingest_one :
      (s : TrainingSession) (w : Db) (e : CaptureEvent) (now : Text) {r : CaptureIngestResult}
      {w' : Db}
      → (event_base e).capture_session_id ≡ id
      → db.select_session id w ≡ some s
      → ingest_capture_event ctx db w e now ≡ ok (r, w')
      → ((r.replayed ≡ true) × (db.select_session id w' ≡ some s))
        ⊎ ((r.replayed ≡ false)
            × (t : TrainingSession) × (transition_session ctx.formats (some s) e now ≡ ok t)
            × (db.select_session id w' ≡ some t))
  unfolding state_for
  ingest_one s w e now {r} {w'} own row h = elim (ingest-cases ctx db laws w e now h).1 [
    | inl (k, j, same) ↦ inl (
      sym (ap (λ (x : CaptureIngestResult). x.replayed) (replay_result-replayed ctx db laws w e j)),
      rw same row,
    )
    | inr (k, state, i, t, j, stored, res) ↦
        let here = subst (λ i. db.select_session i w ≡ some s) (sym own) row in
        let step : transition_session ctx.formats (some s) e now ≡ ok t.session =
          ap (λ o. transition_session ctx.formats o e now)
            (sym here ∙ sym (state_for-rows ctx db laws e w i).0)
          ∙ transition-session ctx.formats state e now j in
        let merged = (transition_session-some ctx.formats s e now step).2 in
        let kept : keep_created (some s) t.session ≡ t.session =
          rw merged (merged_session-created s e now) in
        let after = ingested_session ctx db laws w e now t w' i j stored in
        inr (
          ap (λ (x : CaptureIngestResult). x.replayed) res ∙ unfold transition_result in refl,
          t.session,
          step,
          subst (λ i. db.select_session i w' ≡ some t.session) own
              (after ∙ ap (λ o. some (keep_created o t.session)) here ∙ ap some kept),
        )
  ]

  -- When a list of events of one stored session is ingested, the session that is stored at the end
  -- is what the calls of transitionSession make of the former one with the events that were not
  -- known already, in their order.
  pub ingest_events-Follows :
      (s : TrainingSession) (es : List (CaptureEvent × Text)) (w : Db)
      {rs : List CaptureIngestResult} {w' : Db}
      → Each (λ e. (event_base e.0).capture_session_id ≡ id) es
      → db.select_session id w ≡ some s
      → ingest_events ctx db w es ≡ ok (rs, w')
      → Follows s (accepted es rs) w'
  unfolding ingest_events run_sessions
  ingest_events-Follows s [] w own row h = (s, ground arith, ground arith)
  ingest_events-Follows s ((e, now) ∷ es) w {rs} {w'} own row h =
      let (first, k, rest) =
        >>=-eq-ok (ingest_capture_event ctx db w e now)
          (λ first. ingest_events ctx db first.1 es >>= λ rest. ok (first.0 ∷ rest.0, rest.1)) h in
      let (more, k', last) =
        >>=-eq-ok (ingest_events ctx db first.1 es) (λ rest. ok (first.0 ∷ rest.0, rest.1)) rest in
      let is_rs : rs ≡ first.0 ∷ more.0 = ground arith in
      let is_end : more.1 ≡ w' = ground arith in
      let same_row = ap (db.select_session id) (sym is_end) in
      let same_events = ap (λ x. run_sessions ctx.formats s (accepted ((e, now) ∷ es) x)) is_rs in
      elim (ingest_one s w e now {r = first.0} {w' = first.1} own.0 row k) [
        | inl (replayed, row') ↦
            let ih = ingest_events-Follows s es first.1 {rs = more.0} {w' = more.1} own.1 row' k' in
            (
              ih.0,
              same_events
                  ∙ ap (run_sessions ctx.formats s)
                      (accepted-replayed (e, now) es first.0 more.0 replayed)
                  ∙ ih.1,
              same_row ∙ ih.2,
            )
        | inr (fresh, t, step, row') ↦
            let ih = ingest_events-Follows t es first.1 {rs = more.0} {w' = more.1} own.1 row' k' in
            (
              ih.0,
              same_events
                  ∙ ap (run_sessions ctx.formats s) (accepted-new (e, now) es first.0 more.0 fresh)
                  ∙ ap (λ c. c >>= λ u. run_sessions ctx.formats u (accepted es more.0)) step
                  ∙ ih.1,
              same_row ∙ ih.2,
            )
      ]
