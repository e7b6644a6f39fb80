-- ===== src/Correlation/Answers.antt =====
-- What an answer of `correlateMainSummary` says of the lists that its loop has collected.
use ai_coding_training_platf.Common.{
  Bool, true, some, List, [], ◌∷◌, ◌++◌, units, arith, ◌≡◌, refl, sym, ◌∙◌, ap, Bool-cases,
  Option-cases, inl, inr, OneOf, filter_by,
}
use ai_coding_training_platf.Reducer.{E1RequestObserved}
use ai_coding_training_platf.Reducer.Correlator.{MainBridgeSummary}
use ai_coding_training_platf.Reducer.Identity.{platform_name}
use ai_coding_training_platf.Correlation.{CorrelationRecord, is_id}
use ai_coding_training_platf.Correlation.Match.{
  CorrelationPolicy, Signal, unique, correlated, Sorted, only_one,
  disambiguate_by_external_submission_id, disambiguate_by_redirect, answer_with,
  disambiguate_by_summary_signals, several_candidates, without_candidates,
}

-- An element that a filter keeps is one of the list and passes the test.
pub filter_by-OneOf :
    {A : Type 0} (p : A → Bool) (a : A) (xs : List A)
    → OneOf (λ x. x ≡ a) (filter_by p xs)
    → OneOf (λ x. x ≡ a) xs × (p a ≡ true)
unfolding filter_by
filter_by-OneOf p a [] h = absurd h
filter_by-OneOf p a (x ∷ xs) h = elim (Bool-cases (p x)) [
  | inl e ↦ elim (rw e at h) [
    | inl k ↦ (inl k, ap p (sym k) ∙ e)
    | inr k ↦ let (one, yes_p) = filter_by-OneOf p a xs k in (inr one, yes_p)
  ]
  | inr e ↦ let (one, yes_p) = filter_by-OneOf p a xs (rw e at h) in (inr one, yes_p)
]

only_one-eq {ℓ} : {A : Type ℓ} (xs : List A) {a : A} → only_one xs ≡ some a → xs ≡ a ∷ []
unfolding only_one
only_one-eq [] h = ground arith
only_one-eq (x ∷ []) h = ground arith
only_one-eq (x ∷ y ∷ rest) h = ground arith

OneOf-map :
    (c : CorrelationRecord) (e : E1RequestObserved) (cs : List CorrelationRecord)
    → OneOf (λ r. r ≡ c) cs
    → c.evidence ≡ e
    → OneOf (λ r. r.evidence ≡ e) cs
OneOf-map c e [] h k = absurd h
OneOf-map c e (r ∷ rs) (inl h) k = inl (ap (λ r. r.evidence) h ∙ k)
OneOf-map c e (r ∷ rs) (inr h) k = inr (OneOf-map c e rs h k)

module _ (summary : MainBridgeSummary) (p : CorrelationPolicy) where
  by_external-OneOf :
      (cs : List CorrelationRecord) {by : Signal} {r : CorrelationRecord}
      → disambiguate_by_external_submission_id cs summary ≡ some (by, r)
      → OneOf (λ c. c ≡ r) cs
  unfolding disambiguate_by_external_submission_id
  by_external-OneOf cs {by} {r} h = elim (Option-cases summary.external_submission_id) [
    | inl e ↦ absurd (ground arith)
    | inr (id, e) ↦
        let mine = λ (c : CorrelationRecord).
          is_id c.stable_submission_id (platform_name summary.platform ++ (units ":" ++ id)) in
        elim (Option-cases (only_one (filter_by mine cs))) [
          | inl f ↦ absurd (ground arith)
          | inr (q, f) ↦
              let same : q ≡ r = ground arith in
              let kept = only_one-eq (filter_by mine cs) f in
              (filter_by-OneOf mine r cs (rw kept (inl same))).0
        ]
  ]

  by_redirect-OneOf :
      (bs cs : List CorrelationRecord) {by : Signal} {r : CorrelationRecord}
      → ((c : CorrelationRecord) → OneOf (λ x. x ≡ c) bs → OneOf (λ x. x ≡ c) cs)
      → disambiguate_by_redirect bs cs summary ≡ some (by, r)
      → OneOf (λ c. c ≡ r) cs
  unfolding disambiguate_by_redirect
  by_redirect-OneOf [] cs sub h = by_external-OneOf cs h
  by_redirect-OneOf (b ∷ []) cs {by} {r} sub h = sub r (inl (ground arith))
  by_redirect-OneOf (b ∷ c ∷ bs) cs {by} {r} sub h = sub r (by_external-OneOf (b ∷ c ∷ bs) h)

  by_signals-OneOf :
      (cs : List CorrelationRecord) {by : Signal} {r : CorrelationRecord}
      → disambiguate_by_summary_signals cs summary ≡ some (by, r)
      → OneOf (λ c. c ≡ r) cs
  unfolding disambiguate_by_summary_signals
  by_signals-OneOf cs {by} {r} h = elim (Option-cases summary.redirect_endpoint_key) [
    | inl e ↦ by_external-OneOf cs (rw (e, disambiguate_by_summary_signals) at h)
    | inr (key, e) ↦
        let same = λ (c : CorrelationRecord). is_id c.evidence.redirect_endpoint_key key in
        by_redirect-OneOf (filter_by same cs) cs (λ c k. (filter_by-OneOf same c cs k).0)
          (rw (e, disambiguate_by_summary_signals) at h)
  ]

  without_candidates-no :
      (s : Sorted) {e : E1RequestObserved} {t : MainBridgeSummary} {by : Signal}
      → without_candidates s ≡ correlated e t by
      → ⊥
  unfolding without_candidates
  without_candidates-no s h = ground arith

  several_candidates-no :
      (cs : List CorrelationRecord) {e : E1RequestObserved} {t : MainBridgeSummary} {by : Signal}
      → several_candidates p summary cs ≡ correlated e t by
      → ⊥
  unfolding several_candidates
  several_candidates-no cs h = ground arith

  -- What a correlation says of the lists of candidates.
  pub answer_with-correlated :
      (s : Sorted) (legal stale : List CorrelationRecord) {e : E1RequestObserved}
      {t : MainBridgeSummary} {by : Signal}
      → answer_with p summary s legal stale ≡ correlated e t by
      → OneOf (λ r. r.evidence ≡ e) legal × (t ≡ summary) × (stale ≡ [])
  unfolding answer_with
  answer_with-correlated s [] stale h = absurd (without_candidates-no s h)
  answer_with-correlated s (r ∷ rs) (o ∷ os) h = absurd (ground arith)
  answer_with-correlated s (r ∷ []) [] h = (inl (ground arith), ground arith, refl)
  answer_with-correlated s (r ∷ q ∷ qs) [] {e} h =
      elim (Option-cases (disambiguate_by_summary_signals (r ∷ q ∷ qs) summary)) [
        | inl n ↦ absurd (several_candidates-no (r ∷ q ∷ qs) (rw (n, answer_with) at h))
        | inr ((by, c), n) ↦
            let k : correlated c.evidence summary by ≡ correlated e _ _ =
              rw (n, answer_with) at h in
            (
              OneOf-map c e (r ∷ q ∷ qs) (by_signals-OneOf (r ∷ q ∷ qs) n) (ground arith),
              ground arith,
              refl,
            )
      ]

  by_external-signal :
      (cs : List CorrelationRecord) {r : CorrelationRecord}
      → disambiguate_by_external_submission_id cs summary ≡ some (unique, r)
      → ⊥
  unfolding disambiguate_by_external_submission_id
  by_external-signal cs h = ground arith

  by_redirect-signal :
      (bs cs : List CorrelationRecord) {r : CorrelationRecord}
      → disambiguate_by_redirect bs cs summary ≡ some (unique, r)
      → ⊥
  unfolding disambiguate_by_redirect
  by_redirect-signal [] cs h = by_external-signal cs h
  by_redirect-signal (b ∷ []) cs h = ground arith
  by_redirect-signal (b ∷ c ∷ bs) cs h = by_external-signal (b ∷ c ∷ bs) h

  by_signals-signal :
      (cs : List CorrelationRecord) {r : CorrelationRecord}
      → disambiguate_by_summary_signals cs summary ≡ some (unique, r)
      → ⊥
  unfolding disambiguate_by_summary_signals
  by_signals-signal cs h = elim (Option-cases summary.redirect_endpoint_key) [
    | inl e ↦ by_external-signal cs (rw (e, disambiguate_by_summary_signals) at h)
    | inr (key, e) ↦
        by_redirect-signal (filter_by (λ c. is_id c.evidence.redirect_endpoint_key key) cs) cs
          (rw (e, disambiguate_by_summary_signals) at h)
  ]

  pub answer_with-unique :
      (s : Sorted) (legal stale : List CorrelationRecord) {e : E1RequestObserved}
      → answer_with p summary s legal stale ≡ correlated e summary unique
      → (r : CorrelationRecord) × (legal ≡ r ∷ []) × (stale ≡ []) × (r.evidence ≡ e)
  unfolding answer_with
  answer_with-unique s [] stale h = absurd (without_candidates-no s h)
  answer_with-unique s (r ∷ rs) (o ∷ os) h = absurd (ground arith)
  answer_with-unique s (r ∷ []) [] h = (r, refl, refl, ground arith)
  answer_with-unique s (r ∷ q ∷ qs) [] {e} h =
      elim (Option-cases (disambiguate_by_summary_signals (r ∷ q ∷ qs) summary)) [
        | inl n ↦ absurd (several_candidates-no (r ∷ q ∷ qs) (rw (n, answer_with) at h))
        | inr ((by, c), n) ↦
            let k : correlated c.evidence summary by ≡ correlated e summary unique =
              rw (n, answer_with) at h in
            let is_unique : by ≡ unique = ground arith in
            absurd (by_signals-signal (r ∷ q ∷ qs) {r = c} (rw is_unique at n))
      ]
