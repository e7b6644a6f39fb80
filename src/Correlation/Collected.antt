-- ===== src/Correlation/Collected.antt =====
-- What the loop of `correlateMainSummary` collects: the candidates of a summary and those out of
-- its window.
use ai_coding_training_platf.Common.{
  Bool, true, false, not, ◌&&◌, List, [], ◌∷◌, ◌++◌, Text, map, arith, ◌≡◌, refl, sym, ◌∙◌, ap,
  filter_by, if◌then◌else◌,
}
use mathlib.Core.List.{append_assoc, append-nil}
use ai_coding_training_platf.Reducer.Correlator.{MainBridgeSummary}
use ai_coding_training_platf.Correlation.{CorrelationRecord}
use ai_coding_training_platf.Correlation.Match.{
  CorrelationPolicy, identity_matches_identity, api_time_stamp_within_window,
  received_at_monotonic_or_equal, awaits, Sorted, sort_record, sort_records,
}

if-append {ℓ} :
    {A : Type ℓ} (b : Bool) (xs : List A) (r : A) (ys : List A)
    → (if b then xs ++ r ∷ [] else xs) ++ ys ≡ xs ++ (if b then r ∷ ys else ys)
if-append true xs r ys = append_assoc xs (r ∷ []) ys
if-append false xs r ys = refl

module _ (summary : MainBridgeSummary) (p : CorrelationPolicy) where
  -- A pending record of the summary's request that is not later and is in the window.
  unfoldable pub is_candidate : CorrelationRecord → Bool
  is_candidate r =
      identity_matches_identity r summary
      && received_at_monotonic_or_equal r.evidence summary
      && api_time_stamp_within_window r.evidence summary p
      && awaits r.outcome

  -- The same out of the window.
  unfoldable pub is_stale : CorrelationRecord → Bool
  is_stale r =
      identity_matches_identity r summary
      && received_at_monotonic_or_equal r.evidence summary
      && not (api_time_stamp_within_window r.evidence summary p)
      && awaits r.outcome

  pub sort_record-lists :
      (s : Sorted) (r : CorrelationRecord)
      → ((sort_record summary p s r).pending_legal
          ≡ (if is_candidate r then s.pending_legal ++ r ∷ [] else s.pending_legal))
        × ((sort_record summary p s r).out_of_window_pending
            ≡ (if is_stale r then s.out_of_window_pending ++ r ∷ [] else s.out_of_window_pending))
  unfolding sort_record is_candidate is_stale
  sort_record-lists s r = ground arith

  pub sort_records-lists :
      (s : Sorted) (rs : List (Text × CorrelationRecord))
      → ((sort_records summary p s rs).pending_legal
          ≡ s.pending_legal ++ filter_by is_candidate (map (λ x. x.1) rs))
        × ((sort_records summary p s rs).out_of_window_pending
            ≡ s.out_of_window_pending ++ filter_by is_stale (map (λ x. x.1) rs))
  unfolding sort_records filter_by
  sort_records-lists s [] =
      (sym (append-nil s.pending_legal), sym (append-nil s.out_of_window_pending))
  sort_records-lists s ((id, r) ∷ rs) =
      let (legal, stale) = sort_record-lists s r in
      let (ih, jh) = sort_records-lists (sort_record summary p s r) rs in
      (
        ih
            ∙ ap (λ ps. ps ++ filter_by is_candidate (map (λ x. x.1) rs)) legal
            ∙ if-append (is_candidate r) s.pending_legal r
                (filter_by is_candidate (map (λ x. x.1) rs)),
        jh
            ∙ ap (λ ps. ps ++ filter_by is_stale (map (λ x. x.1) rs)) stale
            ∙ if-append (is_stale r) s.out_of_window_pending r
                (filter_by is_stale (map (λ x. x.1) rs)),
      )
