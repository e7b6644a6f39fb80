-- ===== src/Correlation/Candidates.antt =====
-- Which records `correlateMainSummary` takes for candidates, and when a summary is correlated.
use ai_coding_training_platf.Common.{
  Bool, true, some, List, [], ◌∷◌, map, arith, ◌≡◌, refl, sym, ◌∙◌, Bool-cases, Option-cases, inl,
  inr, OneOf, filter_by, ◌↔◌,
}
use ai_coding_training_platf.Reducer.{E1RequestObserved}
use ai_coding_training_platf.Reducer.Correlator.{MainBridgeSummary}
use ai_coding_training_platf.Correlation.{CorrelationRecord, CorrelatorState}
use ai_coding_training_platf.Correlation.Schema.{parse_main_bridge_summary, summary_schema}
use ai_coding_training_platf.Correlation.Match.{
  CorrelationPolicy, NowOrPolicy, resolve_policy, Signal, unique, correlated, nothing_sorted,
  sort_records, answer_with, answer, correlate_main_summary,
}
use ai_coding_training_platf.Correlation.Collected.{is_candidate, is_stale, sort_records-lists}
use ai_coding_training_platf.Correlation.Answers.{answer_with-correlated, answer_with-unique}

abbrev pub values : CorrelatorState → List CorrelationRecord
values state = map (λ x. x.1) state.records

filter_by-evidence :
    (p : CorrelationRecord → Bool) (e : E1RequestObserved) (rs : List CorrelationRecord)
    → OneOf (λ r. r.evidence ≡ e) (filter_by p rs)
    → OneOf (λ r. (r.evidence ≡ e) × (p r ≡ true)) rs
unfolding filter_by
filter_by-evidence p e [] h = absurd h
filter_by-evidence p e (r ∷ rs) h = elim (Bool-cases (p r)) [
  | inl k ↦ elim (rw k at h) [
    | inl same ↦ inl (same, k)
    | inr rest ↦ inr (filter_by-evidence p e rs rest)
  ]
  | inr k ↦ inr (filter_by-evidence p e rs (rw k at h))
]

parse-same :
    (s : MainBridgeSummary) {t : MainBridgeSummary} → parse_main_bridge_summary s ≡ some t → t ≡ s
unfolding parse_main_bridge_summary
parse-same s h = ground arith

answer_from-lists :
    (summary : MainBridgeSummary) (p : CorrelationPolicy) (state : CorrelatorState)
    → let s = sort_records summary p nothing_sorted state.records in
      answer p summary s
      ≡ answer_with p summary s
          (filter_by (is_candidate summary p) (values state))
          (filter_by (is_stale summary p) (values state))
unfolding answer
answer_from-lists summary p state =
    let (legal, stale) = sort_records-lists summary p nothing_sorted state.records in
    rw (legal, stale) refl

pub correlate_main_summary-is_candidate :
    (state : CorrelatorState) (input : MainBridgeSummary) (pol : NowOrPolicy)
    {e : E1RequestObserved} {t : MainBridgeSummary} {by : Signal}
    → correlate_main_summary state input pol ≡ correlated e t by
    → (t ≡ input)
      × OneOf
          (λ r. (r.evidence ≡ e) × (is_candidate input (resolve_policy pol) r ≡ true))
          (values state)
      × (filter_by (is_stale input (resolve_policy pol)) (values state) ≡ [])
unfolding correlate_main_summary
correlate_main_summary-is_candidate state input pol {e} h =
    elim (Option-cases (parse_main_bridge_summary input)) [
      | inl n ↦ absurd (ground arith)
      | inr (s, n) ↦
          let p = resolve_policy pol in
          let same = parse-same input n in
          let k = rw (n, same, correlate_main_summary, answer_from-lists input p state) at h in
          let sorted = sort_records input p nothing_sorted state.records in
          let (one, is_input, none_stale) =
            answer_with-correlated input p sorted (filter_by (is_candidate input p) (values state))
              (filter_by (is_stale input p) (values state)) k in
          (is_input, filter_by-evidence (is_candidate input p) e (values state) one, none_stale)
    ]

parse_valid :
    (s : MainBridgeSummary) → summary_schema s ≡ true → parse_main_bridge_summary s ≡ some s
unfolding parse_main_bridge_summary
parse_valid s h = rw h refl

-- A valid summary is correlated as unique with given evidence exactly if there is one candidate
-- among the records, it has that evidence, and no pending record of the summary's identity that is
-- not later than the summary is out of the window.
pub correlate_main_summary-unique :
    (state : CorrelatorState) (input : MainBridgeSummary) (pol : NowOrPolicy)
    (e : E1RequestObserved)
    → summary_schema input ≡ true
    → (correlate_main_summary state input pol ≡ correlated e input unique) ↔ (
        (r : CorrelationRecord) × (filter_by
            (is_candidate input (resolve_policy pol))
            (values state)
          ≡ r ∷ [])
        × (filter_by (is_stale input (resolve_policy pol)) (values state) ≡ [])
        × (r.evidence ≡ e))
unfolding correlate_main_summary answer_with
correlate_main_summary-unique state input pol e valid =
    let p = resolve_policy pol in
    let sorted = sort_records input p nothing_sorted state.records in
    let lists : correlate_main_summary state input pol
        ≡ answer_with p input sorted (filter_by (is_candidate input p) (values state))
            (filter_by (is_stale input p) (values state)) =
      rw (parse_valid input valid, correlate_main_summary) (answer_from-lists input p state) in
    (
      λ h.
          answer_with-unique input p sorted (filter_by (is_candidate input p) (values state))
            (filter_by (is_stale input p) (values state)) (sym lists ∙ h),
      λ (r, legal, none_stale, same). lists ∙ rw (legal, none_stale, same, answer_with) refl,
    )
