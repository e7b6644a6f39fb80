-- ===== src/Verdicts/Accounts.antt =====
-- What becomes of each candidate of a call of `reconcileVerdictCandidates`.
use ai_coding_training_platf.Common.{
  Bool, true, false, Option, List, [], ◌∷◌, ◌++◌, ◌+◌, Text, filter_by, length, length-append, ◌≡◌,
  refl, sym, ◌∙◌, arith,
}
use ai_coding_training_platf.Common.Int.{ℤ}
use mathlib.Core.List.{append_assoc, append-nil}
use ai_coding_training_platf.Verdicts.{
  TransientE1Lifecycle, TransientVerdictCandidate, ConfirmedSubmissionRecord,
  VerdictCandidateResolution, VerdictCandidateTerminal, ReconciliationOutcome, pending, resolution,
  terminal,
}
use ai_coding_training_platf.Verdicts.Reconcile.{
  reconcile_one, note_outcome, reconcile_candidates, reconcile_verdict_candidates,
  VerdictCandidateReconciliation,
}
use ai_coding_training_platf.Verdicts.Latest.{Clock}

abbrev pub is_pending : ReconciliationOutcome → Bool
is_pending pending = true
is_pending (resolution r) = false
is_pending (terminal t) = false

abbrev pub resolutions_in : ReconciliationOutcome → List VerdictCandidateResolution
resolutions_in pending = []
resolutions_in (resolution r) = r ∷ []
resolutions_in (terminal t) = []

abbrev pub terminals_in : ReconciliationOutcome → List VerdictCandidateTerminal
terminals_in pending = []
terminals_in (resolution r) = []
terminals_in (terminal t) = t ∷ []

-- The elements that a list's elements give, in their order.
abbrev pub gather {ℓ κ} : {A : Type ℓ} {B : Type κ} → (A → List B) → List A → List B
gather f [] = []
gather f (x ∷ xs) = f x ++ gather f xs

-- Each candidate is kept, resolved or closed once, by its own outcome and in its place.
pub record Accounts (outcome : TransientVerdictCandidate → ReconciliationOutcome)
    (cs : List TransientVerdictCandidate) (result : VerdictCandidateReconciliation) : Type 0 where
  pub kept : result.pending ≡ filter_by (λ c. is_pending (outcome c)) cs
  pub resolved : result.resolutions ≡ gather (λ c. resolutions_in (outcome c)) cs
  pub closed : result.terminal ≡ gather (λ c. terminals_in (outcome c)) cs
  pub counted :
      length result.pending + length result.resolutions + length result.terminal ≡ length cs

module _ (clock : Clock) (ls : List TransientE1Lifecycle)
    (confirmed : List ConfirmedSubmissionRecord) (now : Option ℤ) where
  abbrev outcome : TransientVerdictCandidate → ReconciliationOutcome
  outcome c = reconcile_one clock c ls confirmed now

  -- The same, with what was there before the loop.
  abbrev Extends :
      VerdictCandidateReconciliation
      → List TransientVerdictCandidate
      → VerdictCandidateReconciliation
      → Type 0
  Extends acc cs result =
      (result.pending ≡ acc.pending ++ filter_by (λ c. is_pending (outcome c)) cs)
      × (result.resolutions ≡ acc.resolutions ++ gather (λ c. resolutions_in (outcome c)) cs)
      × (result.terminal ≡ acc.terminal ++ gather (λ c. terminals_in (outcome c)) cs)
      × (length result.pending + length result.resolutions + length result.terminal
          ≡ length acc.pending + length acc.resolutions + length acc.terminal + length cs)

  note_outcome-Extends :
      (acc : VerdictCandidateReconciliation) (c : TransientVerdictCandidate)
      (cs : List TransientVerdictCandidate) (o : ReconciliationOutcome)
      (result : VerdictCandidateReconciliation)
      → outcome c ≡ o
      → Extends (note_outcome clock acc c o) cs result
      → Extends acc (c ∷ cs) result
  unfolding note_outcome filter_by
  note_outcome-Extends acc c cs pending result e h = rw e (
    h.0 ∙ append_assoc acc.pending (c ∷ []) (filter_by (λ d. is_pending (outcome d)) cs),
    h.1,
    h.2,
    omega (arith, h.3, length-append {0} acc.pending (c ∷ [])),
  )
  note_outcome-Extends acc c cs (resolution r) result e h = rw e (
    h.0,
    h.1 ∙ append_assoc acc.resolutions (r ∷ []) (gather (λ d. resolutions_in (outcome d)) cs),
    h.2,
    omega (arith, h.3, length-append {0} acc.resolutions (r ∷ [])),
  )
  note_outcome-Extends acc c cs (terminal t) result e h = rw e (
    h.0,
    h.1,
    h.2 ∙ append_assoc acc.terminal (t ∷ []) (gather (λ d. terminals_in (outcome d)) cs),
    omega (arith, h.3, length-append {0} acc.terminal (t ∷ [])),
  )

  reconcile_candidates-Extends :
      (cs : List TransientVerdictCandidate) (acc : VerdictCandidateReconciliation)
      → Extends acc cs (reconcile_candidates clock ls confirmed now acc cs)
  unfolding reconcile_candidates filter_by
  reconcile_candidates-Extends [] acc =
      (sym (append-nil _), sym (append-nil _), sym (append-nil _), omega arith)
  reconcile_candidates-Extends (c ∷ cs) acc =
      note_outcome-Extends acc c cs (outcome c) _ refl
        (reconcile_candidates-Extends cs (note_outcome clock acc c (outcome c)))

-- Of the candidates of a call those that its reconciliation leaves pending are kept, in their
-- order; the others give one resolution or one closed reason each, in their order, and there are
-- as many candidates as results.
pub reconcile_verdict_candidates-Accounts :
    (clock : Clock) (cs : List TransientVerdictCandidate) (ls : List TransientE1Lifecycle)
    (confirmed : List ConfirmedSubmissionRecord) (now : Text)
    → Accounts
        (λ c. reconcile_one clock c ls confirmed (clock.date_parse now))
        cs
        (reconcile_verdict_candidates clock cs ls confirmed now)
unfolding reconcile_verdict_candidates
reconcile_verdict_candidates-Accounts clock cs ls confirmed now =
    let h =
      reconcile_candidates-Extends clock ls confirmed (clock.date_parse now) cs
        (record { pending = []; resolutions = []; terminal = [] }) in
    record { kept = h.0; resolved = h.1; closed = h.2; counted = omega (arith, h.3) }
