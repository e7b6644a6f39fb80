-- ===== src/Verdicts/Justified.antt =====
-- What a resolution of `reconcileVerdictCandidates` rests on.
use ai_coding_training_platf.Common.{
  Each-self, Each-append, filter_by-OneOf, true, false, Option, none, some, List, [], ◌∷◌, Text,
  eq_text, eq_text_iff, filter_by, Each, OneOf, ◌≡◌, ◌⊎◌, inl, inr, refl, arith, Option-cases,
  List-cases,
}
use ai_coding_training_platf.Common.Int.{ℤ}
use ai_coding_training_platf.Verdicts.{
  TransientE1Lifecycle, TransientVerdictCandidate, ConfirmedSubmissionRecord,
  VerdictCandidateResolution, ReconciliationOutcome, pending, resolution, terminal, terminal_result,
  is_expired,
}
use ai_coding_training_platf.Verdicts.Reconcile.{
  legacy_latest, reconcile_legacy, reconcile_armed_candidate, reconcile_one,
  reconcile_verdict_candidates,
}
use ai_coding_training_platf.Verdicts.Latest.{
  Clock, LatestSubmit, single, ambiguous, select_latest_submit, select_eligible_submit_lifecycles,
  is_eligible_submit,
}
use ai_coding_training_platf.Verdicts.Accounts.{
  gather, resolutions_in, reconcile_verdict_candidates-Accounts,
}
use ai_coding_training_platf.Verdicts.Picked.{
  select_latest_submit-single, select_eligible_submit_lifecycles-Each,
}
use ai_coding_training_platf.Verdicts.Joined.{
  IsRequest, Justifies, legacy_latest-Justifies, armed_lifecycle-Justifies,
}

LatestSubmit-cases :
    (s : LatestSubmit) → (s ≡ ambiguous) ⊎ ((l : TransientE1Lifecycle) × (s ≡ single l))
LatestSubmit-cases ambiguous = inl refl
LatestSubmit-cases (single l) = inr (l, refl)

module _ (clock : Clock) (ls : List TransientE1Lifecycle)
    (confirmed : List ConfirmedSubmissionRecord) where
  eligible-IsRequest :
      (c : TransientVerdictCandidate) (l : TransientE1Lifecycle)
      → c.submit_request_id ≡ none
      → is_eligible_submit clock c l ≡ true
      → OneOf (λ x. x ≡ l) ls
      → IsRequest clock ls confirmed c l
  unfolding is_eligible_submit
  eligible-IsRequest c l unbound e found = record {
    is_request = found;
    in_context = ground arith;
    is_completed = ground arith;
    requested = ground arith;
    of_candidate = λ id h. absurd (ground (arith, h));
  }

  reconcile_legacy-Justifies :
      (c : TransientVerdictCandidate) {res : VerdictCandidateResolution}
      → c.submit_request_id ≡ none
      → reconcile_legacy clock c ls confirmed ≡ resolution res
      → Justifies clock ls confirmed c res
  unfolding reconcile_legacy terminal_result
  reconcile_legacy-Justifies c {res} unbound h =
      elim (List-cases (select_eligible_submit_lifecycles clock ls c)) [
        | inl e ↦ absurd (ground (arith, e))
        | inr (x, xs, e) ↦
            let good = λ (l : TransientE1Lifecycle).
              (is_eligible_submit clock c l ≡ true) × OneOf (λ y. y ≡ l) ls in
            let each : Each good (x ∷ xs) = rw e at (
              select_eligible_submit_lifecycles-Each clock (λ l. OneOf (λ y. y ≡ l) ls) c ls
                (Each-self ls)) in
            elim (LatestSubmit-cases (select_latest_submit clock x xs)) [
              | inl a ↦ absurd (unfold legacy_latest in ground (arith, e, a))
              | inr (l, a) ↦
                  let k = select_latest_submit-single clock good x xs each.0 each.1 a in
                  legacy_latest-Justifies clock ls confirmed c l
                    (eligible-IsRequest c l unbound k.0 k.1) (ground (arith, e, a))
            ]
      ]

  reconcile_armed-Justifies :
      (c : TransientVerdictCandidate) (request_id : Text) {res : VerdictCandidateResolution}
      → c.submit_request_id ≡ some request_id
      → reconcile_armed_candidate clock c request_id ls confirmed ≡ resolution res
      → Justifies clock ls confirmed c res
  unfolding reconcile_armed_candidate terminal_result
  reconcile_armed-Justifies c request_id bound h =
      elim (List-cases (filter_by (λ l. eq_text l.evidence.request_id request_id) ls)) [
        | inl e ↦ absurd (ground (arith, e))
        | inr (l, rest, e) ↦
            let found =
              filter_by-OneOf (λ x. eq_text x.evidence.request_id request_id) l ls
                (rw e (inl refl)) in
            armed_lifecycle-Justifies clock ls confirmed c l found.0
              (λ id k.
                ground (arith, bound, k, eq_text_iff l.evidence.request_id request_id, found.1))
              (ground (arith, e))
      ]

  reconcile_one-Justifies :
      (c : TransientVerdictCandidate) (now : Option ℤ) {res : VerdictCandidateResolution}
      → reconcile_one clock c ls confirmed now ≡ resolution res
      → (is_expired (clock.date_parse c.received_at) now ≡ false)
        × Justifies clock ls confirmed c res
  unfolding reconcile_one terminal_result
  reconcile_one-Justifies c now h = elim (Option-cases c.submit_request_id) [
    | inl e ↦ (ground arith, reconcile_legacy-Justifies c e (ground (arith, e)))
    | inr (id, e) ↦ (ground arith, reconcile_armed-Justifies c id e (ground (arith, e)))
  ]

resolutions_in-Each :
    (P : VerdictCandidateResolution → Type 0) (o : ReconciliationOutcome)
    → ((res : VerdictCandidateResolution) → o ≡ resolution res → P res)
    → Each P (resolutions_in o)
resolutions_in-Each P pending f = tt
resolutions_in-Each P (resolution r) f = (f r refl, tt)
resolutions_in-Each P (terminal t) f = tt

module _ (clock : Clock) (ls : List TransientE1Lifecycle)
    (confirmed : List ConfirmedSubmissionRecord) (now : Text) where
  -- A given candidate that has not expired, with what justifies its resolution.
  abbrev pub FromCandidate : List TransientVerdictCandidate → VerdictCandidateResolution → Type 0
  FromCandidate cs res =
      (c : TransientVerdictCandidate) × OneOf (λ x. x ≡ c) cs
      × (is_expired (clock.date_parse c.received_at) (clock.date_parse now) ≡ false)
      × Justifies clock ls confirmed c res

  abbrev outcome : TransientVerdictCandidate → ReconciliationOutcome
  outcome c = reconcile_one clock c ls confirmed (clock.date_parse now)

  gather-FromCandidate :
      (all cs : List TransientVerdictCandidate)
      → ((c : TransientVerdictCandidate) → OneOf (λ x. x ≡ c) cs → OneOf (λ x. x ≡ c) all)
      → Each (FromCandidate all) (gather (λ c. resolutions_in (outcome c)) cs)
  gather-FromCandidate all [] place = tt
  gather-FromCandidate all (c ∷ cs) place =
      Each-append (FromCandidate all) (resolutions_in (outcome c)) _
        (resolutions_in-Each (FromCandidate all) (outcome c) (λ res h.
          let k = reconcile_one-Justifies clock ls confirmed c (clock.date_parse now) h in
          (c, place c (inl refl), k.0, k.1)))
        (gather-FromCandidate all cs (λ d h. place d (inr h)))

  -- Each resolution is of a given candidate that has not expired, for which a request of its
  -- document and a confirmed record, the only one of its key that is not finalized, justify it.
  pub reconcile_verdict_candidates-FromCandidate :
      (cs : List TransientVerdictCandidate)
      → Each (FromCandidate cs) (reconcile_verdict_candidates clock cs ls confirmed now).resolutions
  reconcile_verdict_candidates-FromCandidate cs =
      rw (reconcile_verdict_candidates-Accounts clock cs ls confirmed now).resolved
        (gather-FromCandidate cs cs (λ c h. h))
