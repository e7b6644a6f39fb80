-- ===== src/Verdicts/Latest.antt =====
-- The latest request that a candidate without a request id may belong to:
-- `selectEligibleSubmitLifecycles`, `selectLatestSubmit` and the test for a later request of
-- extension/src/verdictCandidateCoordinator.ts. `Date.parse` and `localeCompare` are parameters.
use ai_coding_training_platf.Common.{
  Bool, false, not, ◌&&◌, ◌||◌, if◌then◌else◌, Option, none, some, List, [], ◌∷◌, ℕ, ltb, ◌==◌,
  Text, any_of, filter_by, length, is_none, map,
}
use ai_coding_training_platf.Common.Int.{ℤ, ltb_ℤ, eqb_ℤ}
use ai_coding_training_platf.Common.Maps.{get, put, add}
use ai_coding_training_platf.Common.Sort.{sort}
use ai_coding_training_platf.Verdicts.{
  TransientE1Lifecycle, TransientVerdictCandidate, ConfirmedSubmissionRecord, is_before, is_at_most,
}
use ai_coding_training_platf.Verdicts.Request.{
  same_candidate_context, names_problem, is_graphql, is_submit_lifecycle_shape, is_answered,
  matched_id, is_later_lifecycle_for_candidate,
}

pub record Clock : Type 0 where
  pub date_parse : Text → Option ℤ
  pub locale_less : Text → Text → Bool

-- What the search for the latest request answers.
pub data LatestSubmit : Type 0 where
  single : TransientE1Lifecycle → LatestSubmit
  ambiguous : LatestSubmit

-- `value > max` where `max` is -Infinity at first
abbrev larger : Option ℤ → Option ℤ → Option ℤ
larger max none = max
larger none (some v) = some v
larger (some m) (some v) = if ltb_ℤ m v then some v else some m

abbrev larger_stamp : Option ℕ → ℕ → Option ℕ
larger_stamp none v = some v
larger_stamp (some m) v = if ltb m v then some v else some m

abbrev is_ms : Option ℤ → Option ℤ → Bool
is_ms none b = false
is_ms (some a) none = false
is_ms (some a) (some b) = eqb_ℤ a b

abbrev is_stamp : Option ℕ → ℕ → Bool
is_stamp none v = false
is_stamp (some m) v = v == m

unfoldable pub max_api : Option ℕ → List TransientE1Lifecycle → Option ℕ
max_api m [] = m
max_api m (l ∷ ls) = max_api (larger_stamp m l.evidence.api_time_stamp) ls

unfoldable pub request_ids : List Text → List TransientE1Lifecycle → List Text
unfolding add
request_ids ids [] = ids
request_ids ids (l ∷ ls) = request_ids (add l.evidence.request_id ids) ls

-- The element at index 0 of a list that is never empty; `l` has no other part.
abbrev first_or : TransientE1Lifecycle → List TransientE1Lifecycle → TransientE1Lifecycle
first_or l [] = l
first_or l (x ∷ xs) = x

module _ (clock : Clock) where
  abbrev pub received_ms : TransientE1Lifecycle → Option ℤ
  received_ms l = clock.date_parse l.evidence.base.received_at

  unfoldable pub max_received : Option ℤ → List TransientE1Lifecycle → Option ℤ
  max_received m [] = m
  max_received m (l ∷ ls) = max_received (larger m (received_ms l)) ls

  unfoldable pub received_ms_after : TransientE1Lifecycle → TransientE1Lifecycle → Bool
  received_ms_after l existing =
      if is_ms (received_ms l) (received_ms existing)
      then ltb existing.evidence.api_time_stamp l.evidence.api_time_stamp
      else is_before (received_ms existing) (received_ms l)

  -- Whether the loop of `selectEligibleSubmitLifecycles` reaches its map.
  unfoldable pub is_eligible_submit : TransientVerdictCandidate → TransientE1Lifecycle → Bool
  is_eligible_submit c l =
      same_candidate_context l.evidence c
      && (names_problem l.evidence.endpoint_key c
          || (is_graphql l.evidence && not (is_none (matched_id l))))
      && is_submit_lifecycle_shape l.evidence
      && is_answered l.evidence
      && is_at_most (received_ms l) (clock.date_parse c.observed_at)

  unfoldable pub note_submit :
      List (Text × TransientE1Lifecycle) → TransientE1Lifecycle → List (Text × TransientE1Lifecycle)
  unfolding received_ms_after
  note_submit by_request l = elim (get l.evidence.request_id by_request) [
    | none ↦ put l.evidence.request_id l by_request
    | some existing ↦
        if received_ms_after l existing then put l.evidence.request_id l by_request else by_request
  ]

  unfoldable pub submits_by_request :
      TransientVerdictCandidate
      → List (Text × TransientE1Lifecycle)
      → List TransientE1Lifecycle
      → List (Text × TransientE1Lifecycle)
  unfolding is_eligible_submit note_submit
  submits_by_request c by_request [] = by_request
  submits_by_request c by_request (l ∷ ls) =
      submits_by_request c (if is_eligible_submit c l then note_submit by_request l else by_request)
        ls

  unfoldable pub select_eligible_submit_lifecycles :
      List TransientE1Lifecycle → TransientVerdictCandidate → List TransientE1Lifecycle
  unfolding submits_by_request
  select_eligible_submit_lifecycles ls c = map (λ x. x.1) (submits_by_request c [] ls)

  -- Over `latest`, the sorted list at the largest times.
  unfoldable pub sole_submit : TransientE1Lifecycle → List TransientE1Lifecycle → LatestSubmit
  unfolding request_ids
  sole_submit l latest =
      if ltb 1 (length (request_ids [] latest)) then ambiguous else single (first_or l latest)

  abbrev pub has_stamp : Option ℕ → TransientE1Lifecycle → Bool
  has_stamp m x = is_stamp m x.evidence.api_time_stamp

  abbrev pub has_time : Option ℤ → TransientE1Lifecycle → Bool
  has_time m x = is_ms (received_ms x) m

  abbrev pub is_request_before : TransientE1Lifecycle → TransientE1Lifecycle → Bool
  is_request_before a b = clock.locale_less a.evidence.request_id b.evidence.request_id

  -- Over the requests at the latest time.
  unfoldable pub latest_among : TransientE1Lifecycle → List TransientE1Lifecycle → LatestSubmit
  unfolding max_api sole_submit sort filter_by
  latest_among l [] = single l
  latest_among l (m ∷ ms) =
      sole_submit l
        (sort is_request_before (filter_by (has_stamp (max_api none (m ∷ ms))) (m ∷ ms)))

  -- Over an eligible list that is not empty.
  unfoldable pub select_latest_submit :
      TransientE1Lifecycle → List TransientE1Lifecycle → LatestSubmit
  unfolding max_received latest_among filter_by
  select_latest_submit l ls =
      latest_among l (filter_by (has_time (max_received none (l ∷ ls))) (l ∷ ls))

  unfoldable pub has_later_matching_submit_lifecycle :
      List TransientE1Lifecycle → TransientVerdictCandidate → List ConfirmedSubmissionRecord → Bool
  unfolding any_of
  has_later_matching_submit_lifecycle ls c confirmed =
      any_of
        (λ l.
          is_before (clock.date_parse c.observed_at) (received_ms l)
          && same_candidate_context l.evidence c
          && is_submit_lifecycle_shape l.evidence
          && is_later_lifecycle_for_candidate l c confirmed)
        ls
