-- ===== src/Correlation/Runs.antt =====
-- How the records of the correlator change over a run of `mergeE1Lifecycle`, `markE1Outcome` and
-- `recordStableIdentity`: a request that is settled stays settled and is never correlated again.
use ai_coding_training_platf.Common.{
  true, false, some, List, [], ◌∷◌, Text, map, arith, ◌≡◌, refl, sym, ◌∙◌, ap, Bool-cases, inl, inr,
  OneOf, if◌then◌else◌, eq_text, eq_text_iff, subst, ◌≢◌,
}
use ai_coding_training_platf.Common.Maps.{get, get-put, get-OneOf}
use ai_coding_training_platf.Reducer.{E1LifecycleOutcome, E1RequestObserved}
use ai_coding_training_platf.Reducer.Correlator.{MainBridgeSummary}
use ai_coding_training_platf.Correlation.{
  CorrelationRecord, CorrelatorState, set_record, fresh_record, is_pending_record, is_id,
  create_correlator_state,
}
use ai_coding_training_platf.Correlation.Match.{
  NowOrPolicy, resolve_policy, Signal, correlated, correlate_main_summary, awaits,
}
use ai_coding_training_platf.Correlation.Candidates.{correlate_main_summary-is_candidate}
use ai_coding_training_platf.Correlation.Collected.{is_candidate}
use ai_coding_training_platf.Correlation.Steps.{
  Reach, WellKept, stored_id, Write, step-Write, write-WellKept, stay, after, nothing, fresh,
  change,
}

-- No request id is stored twice and each record stands under the id of its evidence, after every
-- run of the three operations from a state where that holds.
pub Reach-WellKept : {s t : CorrelatorState} → Reach s t → WellKept s → WellKept t
Reach-WellKept stay w = w
Reach-WellKept (after run step) w = write-WellKept (step-Write step) (Reach-WellKept run w)

-- The record of a request that is settled.
abbrev pub SettledAs : CorrelatorState → Text → E1LifecycleOutcome → Type 0
SettledAs s id o =
    (r : CorrelationRecord) × (get id s.records ≡ some r)
    × (is_pending_record r ≡ false)
    × (r.outcome ≡ o)

pending_by_outcome :
    (a b : CorrelationRecord) → b.outcome ≡ a.outcome → is_pending_record b ≡ is_pending_record a
unfolding is_pending_record
pending_by_outcome a b e = rw e refl

get-set_record :
    (s : CorrelatorState) (id j : Text) (r : CorrelationRecord)
    → get j (set_record s id r).records ≡ (if eq_text id j then some r else get j s.records)
unfolding set_record
get-set_record s id j r = get-put id j r s.records

write-settled :
    {s t : CorrelatorState} (id : Text) (o : E1LifecycleOutcome)
    → Write s t
    → SettledAs s id o
    → SettledAs t id o
write-settled id o (nothing e) h = subst (λ x. SettledAs x id o) (sym e) h
write-settled {s} {t} id o (fresh e n h) (r, g, k, same) =
    elim (Bool-cases (eq_text e.request_id id)) [
      | inl q ↦ let at_id = (eq_text_iff e.request_id id).0 q in absurd (ground arith)
      | inr q ↦
          let kept : get id t.records ≡ some r =
            rw (h, get-set_record s e.request_id id (fresh_record e), q) g in
          (r, kept, k, same)
    ]
write-settled {s} {t} id o (change j old new g0 h keep i) (r, g, k, same) =
    elim (Bool-cases (eq_text j id)) [
      | inl q ↦
          let at_id = (eq_text_iff j id).0 q in
          let is_old : old ≡ r = ground arith in
          let out : new.outcome ≡ old.outcome = keep (ap is_pending_record is_old ∙ k) in
          let stored : get id t.records ≡ some new = rw (h, get-set_record s j id new, q) refl in
          (
            new,
            stored,
            pending_by_outcome old new out ∙ (ap is_pending_record is_old ∙ k),
            out ∙ (ap (λ x. x.outcome) is_old ∙ same),
          )
      | inr q ↦
          let kept : get id t.records ≡ some r = rw (h, get-set_record s j id new, q) g in
          (r, kept, k, same)
    ]

-- A request whose record is settled keeps that outcome along every run.
pub Reach-settled :
    {s t : CorrelatorState} (id : Text) (o : E1LifecycleOutcome)
    → Reach s t
    → SettledAs s id o
    → SettledAs t id o
Reach-settled id o stay h = h
Reach-settled id o (after run step) h =
    write-settled id o (step-Write step) (Reach-settled id o run h)

value-entry :
    (P : CorrelationRecord → Type 0) (m : List (Text × CorrelationRecord))
    → OneOf P (map (λ x. x.1) m)
    → (k : Text) × (r : CorrelationRecord) × P r × OneOf (λ x. x ≡ (k, r)) m
value-entry P [] h = absurd h
value-entry P ((k, r) ∷ m) (inl h) = (k, r, h, inl refl)
value-entry P ((k, r) ∷ m) (inr h) = let (j, q, p, one) = value-entry P m h in (j, q, p, inr one)

candidate-pending :
    (input : MainBridgeSummary) (pol : NowOrPolicy) (r : CorrelationRecord)
    → is_candidate input (resolve_policy pol) r ≡ true
    → is_pending_record r ≡ true
unfolding is_candidate is_pending_record awaits
candidate-pending input pol r h = ground arith

settled-no_correlation :
    (t : CorrelatorState) (id : Text) (o : E1LifecycleOutcome) (input : MainBridgeSummary)
    (pol : NowOrPolicy) {e : E1RequestObserved} {x : MainBridgeSummary} {by : Signal}
    → WellKept t
    → SettledAs t id o
    → correlate_main_summary t input pol ≡ correlated e x by
    → e.request_id ≢ id
settled-no_correlation t id o input pol w (r, g, k, same) h is_id =
    let (is_input, one, none_stale) = correlate_main_summary-is_candidate t input pol h in
    let (j, q, (ev, cand), entry) = value-entry _ t.records one in
    let stored = get-OneOf j q t.records w.once entry in
    let own : q.evidence.request_id ≡ j = stored_id t j w stored in
    let at_id : j ≡ id = sym own ∙ (ap (λ v. v.request_id) ev ∙ is_id) in
    let is_r : q ≡ r = ground arith in
    let waits = candidate-pending input pol q cand in absurd (ground arith)

empty-WellKept : WellKept create_correlator_state
unfolding create_correlator_state
empty-WellKept = record { once = tt; keyed = tt }

-- Once a run from the empty state has settled a request (matched, rejected, expired, canceled or
-- error), no later state of the run correlates any summary with evidence of that request.
pub Reach-no_correlation :
    {s t : CorrelatorState} (id : Text) (o : E1LifecycleOutcome) (input : MainBridgeSummary)
    (pol : NowOrPolicy) {e : E1RequestObserved} {x : MainBridgeSummary} {by : Signal}
    → Reach create_correlator_state s
    → SettledAs s id o
    → Reach s t
    → correlate_main_summary t input pol ≡ correlated e x by
    → e.request_id ≢ id
Reach-no_correlation {s} {t} id o input pol before h later c =
    settled-no_correlation t id o input pol
      (Reach-WellKept later (Reach-WellKept before empty-WellKept)) (Reach-settled id o later h) c
