-- ===== src/Correlation/Steps.antt =====
-- One call of `mergeE1Lifecycle`, `markE1Outcome` or `recordStableIdentity` and what it writes.
use ai_coding_training_platf.Common.{
  true, false, Option, none, some, Text, arith, ◌≡◌, refl, sym, Bool-cases, Option-cases, inl, inr,
  Each, subst,
}
use ai_coding_training_platf.Common.Result.{ok}
use ai_coding_training_platf.Common.Maps.{get, Unique, put-Unique, put-Each, get-Each}
use ai_coding_training_platf.Reducer.{CorrelatorRejectionReason, E1RequestObserved}
use ai_coding_training_platf.Correlation.{
  CorrelationRecord, CorrelatorState, CorrelatorOutcome, outcome_of, set_record, fresh_record,
  merge_e1_evidence, merged, merge_valid, merge_e1_lifecycle, is_pending_record, mark_e1_outcome,
  normalized_id, record_stable_identity, is_id, identities_equal, compute_identity,
}
use ai_coding_training_platf.Correlation.Schema.{e1_schema}

-- One call that changes the state.
pub data Step : CorrelatorState → CorrelatorState → Type 0 where
  merge :
      {s t : CorrelatorState} (e : E1RequestObserved) → merge_e1_lifecycle s e ≡ merged t → Step s t
  mark :
      {s t : CorrelatorState} (id : Text) (o : CorrelatorOutcome)
      (why : Option CorrelatorRejectionReason)
      → mark_e1_outcome s id o why ≡ ok t
      → Step s t
  stable :
      {s t : CorrelatorState} (id given : Text) → record_stable_identity s id given ≡ t → Step s t

pub data Reach : CorrelatorState → CorrelatorState → Type 0 where
  stay : {s : CorrelatorState} → Reach s s
  after : {s t u : CorrelatorState} → Reach s t → Step t u → Reach s u

-- Each record stands under its request's id.
abbrev pub Keyed : Text × CorrelationRecord → Type 0
Keyed x = x.1.evidence.request_id ≡ x.0

-- No id is stored twice, and each record stands under its own.
pub record WellKept (s : CorrelatorState) : Type 0 where
  pub once : Unique s.records
  pub keyed : Each Keyed s.records

set_record-WellKept :
    (s : CorrelatorState) (id : Text) (r : CorrelationRecord)
    → r.evidence.request_id ≡ id
    → WellKept s
    → WellKept (set_record s id r)
unfolding set_record
set_record-WellKept s id r k w = record {
  once = put-Unique id r s.records w.once;
  keyed = put-Each Keyed id r s.records k w.keyed;
}

pub stored_id :
    (s : CorrelatorState) (id : Text) {r : CorrelationRecord}
    → WellKept s
    → get id s.records ≡ some r
    → r.evidence.request_id ≡ id
stored_id s id {r} w g = get-Each Keyed id s.records {v = r} g w.keyed

-- How a record may change: its outcome only if it was pending.
abbrev pub Kept : CorrelationRecord → CorrelationRecord → Type 0
Kept old new = is_pending_record old ≡ false → new.outcome ≡ old.outcome

-- A step writes nothing or one record, and keeps a settled outcome.
pub data Write : CorrelatorState → CorrelatorState → Type 0 where
  nothing : {s t : CorrelatorState} → t ≡ s → Write s t
  fresh :
      {s t : CorrelatorState} (e : E1RequestObserved)
      → get e.request_id s.records ≡ none
      → t ≡ set_record s e.request_id (fresh_record e)
      → Write s t
  change :
      {s t : CorrelatorState} (id : Text) (old new : CorrelationRecord)
      → get id s.records ≡ some old
      → t ≡ set_record s id new
      → Kept old new
      → (old.evidence.request_id ≡ id → new.evidence.request_id ≡ id)
      → Write s t

merge_e1_evidence-id :
    (a b : E1RequestObserved)
    → a.request_id ≡ b.request_id
    → (merge_e1_evidence a b).request_id ≡ b.request_id
unfolding merge_e1_evidence
merge_e1_evidence-id a b h = ground arith

merge_valid-Write :
    (s t : CorrelatorState) (e : E1RequestObserved) → merge_valid s e ≡ merged t → Write s t
unfolding merge_valid
merge_valid-Write s t e h = elim (Option-cases (get e.request_id s.records)) [
  | inl n ↦ fresh e n (sym (ground arith))
  | inr (r, g) ↦
      elim (Bool-cases (identities_equal (compute_identity r.evidence) (compute_identity e))) [
        | inl same ↦
            change e.request_id r (record r { evidence = merge_e1_evidence r.evidence e }) g
              (ground arith) (λ _. refl) (λ k. merge_e1_evidence-id r.evidence e k)
        | inr other ↦ absurd (ground arith)
      ]
]

mark-pending :
    (s t : CorrelatorState) (id : Text) (o : CorrelatorOutcome)
    (why : Option CorrelatorRejectionReason) (r : CorrelationRecord)
    → get id s.records ≡ some r
    → is_pending_record r ≡ true
    → mark_e1_outcome s id o why ≡ ok t
    → (given : Option CorrelatorRejectionReason) × (t
        ≡ set_record s id (record r { outcome = outcome_of o; rejection_reason = given }))
unfolding mark_e1_outcome
mark-pending s t id CorrelatorOutcome.rejected (some why) r g w h = (some why, ground arith)
mark-pending s t id CorrelatorOutcome.rejected none r g w h = absurd (ground arith)
mark-pending s t id CorrelatorOutcome.matched why r g w h = (none, ground arith)
mark-pending s t id CorrelatorOutcome.expired why r g w h = (none, ground arith)
mark-pending s t id CorrelatorOutcome.canceled why r g w h = (none, ground arith)
mark-pending s t id CorrelatorOutcome.error why r g w h = (none, ground arith)

mark-Write :
    (s t : CorrelatorState) (id : Text) (o : CorrelatorOutcome)
    (why : Option CorrelatorRejectionReason)
    → mark_e1_outcome s id o why ≡ ok t
    → Write s t
unfolding mark_e1_outcome
mark-Write s t id o why h = elim (Option-cases (get id s.records)) [
  | inl n ↦ nothing (ground arith)
  | inr (r, g) ↦ elim (Bool-cases (is_pending_record r)) [
    | inr settled ↦ nothing (ground arith)
    | inl waits ↦
        let (given, e) = mark-pending s t id o why r g waits h in
        change id r (record r { outcome = outcome_of o; rejection_reason = given }) g e
          (λ n. absurd (ground arith)) (λ k. k)
  ]
]

stable-Write :
    (s t : CorrelatorState) (id given : Text) → record_stable_identity s id given ≡ t → Write s t
unfolding record_stable_identity
stable-Write s t id given h = elim (Option-cases (get id s.records)) [
  | inl n ↦ nothing (ground arith)
  | inr (r, g) ↦ elim (Option-cases (normalized_id r.evidence.base.platform given)) [
    | inl n ↦ nothing (ground arith)
    | inr (full, n) ↦ elim (Bool-cases (is_id r.stable_submission_id full)) [
      | inl same ↦ nothing (ground arith)
      | inr other ↦
          change id r (record r { stable_submission_id = some full }) g (ground arith) (λ _. refl)
            (λ k. k)
    ]
  ]
]

pub step-Write : {s t : CorrelatorState} → Step s t → Write s t
unfolding merge_e1_lifecycle
step-Write {s} {t} (merge e h) = elim (Bool-cases (e1_schema e)) [
  | inl good ↦ merge_valid-Write s t e (ground arith)
  | inr bad ↦ absurd (ground arith)
]
step-Write {s} {t} (mark id o why h) = mark-Write s t id o why h
step-Write {s} {t} (stable id given h) = stable-Write s t id given h

fresh_record-id : (e : E1RequestObserved) → (fresh_record e).evidence.request_id ≡ e.request_id
unfolding fresh_record
fresh_record-id e = refl

pub write-WellKept : {s t : CorrelatorState} → Write s t → WellKept s → WellKept t
write-WellKept (nothing e) w = subst WellKept (sym e) w
write-WellKept {s} (fresh e n h) w =
    subst WellKept (sym h)
      (set_record-WellKept s e.request_id (fresh_record e) (fresh_record-id e) w)
write-WellKept {s} (change id old new g h k i) w =
    subst WellKept (sym h) (set_record-WellKept s id new (i (stored_id s id w g)) w)
