-- ===== src/Verdicts/Request.antt =====
-- The checks of a request and the join with a confirmed record of
-- extension/src/verdictCandidateCoordinator.ts.
use ai_coding_training_platf.Common.{
  Bool, true, false, not, ◌&&◌, ◌||◌, if◌then◌else◌, Option, none, some, List, [], ◌∷◌, ◌++◌, ℕ,
  ◌==◌, leb, Text, units, eq_text, any_of, filter_by, length, is_none,
}
use ai_coding_training_platf.Domain.{leetcode, eq_platform}
use ai_coding_training_platf.Reducer.{E1RequestObserved, E1LifecycleOutcome, Lifecycle}
use ai_coding_training_platf.Verdicts.{
  TransientE1Lifecycle, TransientVerdictCandidate, ConfirmedSubmissionRecord,
}

unfoldable pub eq_lifecycle : Lifecycle → Lifecycle → Bool
eq_lifecycle Lifecycle.before_request Lifecycle.before_request = true
eq_lifecycle Lifecycle.before_redirect Lifecycle.before_redirect = true
eq_lifecycle Lifecycle.response_started Lifecycle.response_started = true
eq_lifecycle Lifecycle.completed Lifecycle.completed = true
eq_lifecycle Lifecycle.error_occurred Lifecycle.error_occurred = true
eq_lifecycle _ _ = false

-- `a === b` for values that may be absent
abbrev pub same_option {ℓ} : {A : Type ℓ} → (A → A → Bool) → Option A → Option A → Bool
same_option eq none none = true
same_option eq none (some b) = false
same_option eq (some a) none = false
same_option eq (some a) (some b) = eq a b

unfoldable pub same_submit_identity : TransientE1Lifecycle → TransientE1Lifecycle → Bool
unfolding eq_lifecycle
same_submit_identity left right =
    let a = left.evidence in
    let b = right.evidence in
    eq_text a.request_id b.request_id
    && eq_platform a.base.platform b.base.platform
    && a.base.tab_id == b.base.tab_id
    && a.base.frame_id == b.base.frame_id
    && eq_text a.base.document_id b.base.document_id
    && eq_text a.method b.method
    && eq_text a.endpoint_key b.endpoint_key
    && eq_text a.resource_type b.resource_type
    && eq_lifecycle a.lifecycle b.lifecycle
    && same_option ◌==◌ a.status_code b.status_code
    && eq_text a.base.received_at b.base.received_at
    && a.api_time_stamp == b.api_time_stamp
    && same_option eq_text left.stable_submission_id right.stable_submission_id

unfoldable pub same_candidate_context : E1RequestObserved → TransientVerdictCandidate → Bool
same_candidate_context e c =
    eq_platform e.base.platform leetcode
    && e.base.tab_id == c.tab_id
    && e.base.frame_id == c.frame_id
    && eq_text e.base.document_id c.document_id

unfoldable pub is_slug_char : ℕ → Bool
is_slug_char c = (leb b'a' c && leb c b'z') || (leb b'0' c && leb c b'9')

-- `[a-z0-9-]*[a-z0-9]`, the end of a slug
unfoldable pub is_slug_tail : Text → Bool
is_slug_tail [] = false
is_slug_tail (c ∷ []) = is_slug_char c
is_slug_tail (c ∷ d ∷ t) = (is_slug_char c || c == b'-') && is_slug_tail (d ∷ t)

-- `/^[a-z0-9](?:[a-z0-9-]{0,126}[a-z0-9])?$/`
unfoldable pub is_slug : Text → Bool
unfolding is_slug_char is_slug_tail
is_slug [] = false
is_slug (c ∷ t) = is_slug_char c && is_slug_tail (c ∷ t) && leb (length t) 127

-- What follows a prefix.
unfoldable pub after_prefix : Text → Text → Option Text
after_prefix [] t = some t
after_prefix (c ∷ p) [] = none
after_prefix (c ∷ p) (d ∷ t) = if c == d then after_prefix p t else none

abbrev pub slug_of : Option Text → Option Text
slug_of none = none
slug_of (some t) = if is_slug t then some t else none

-- The problem's slug.
unfoldable pub parse_submit_endpoint_key : Text → Option Text
unfolding after_prefix is_slug
parse_submit_endpoint_key key = elim (after_prefix (units "leetcode/submit/cn/") key) [
  | some rest ↦ slug_of (some rest)
  | none ↦ slug_of (after_prefix (units "leetcode/submit/com/") key)
]

unfoldable pub names_problem : Text → TransientVerdictCandidate → Bool
unfolding parse_submit_endpoint_key
names_problem key c = elim (parse_submit_endpoint_key key) [
  | none ↦ false
  | some slug ↦ eq_text slug c.problem_external_id
]

abbrev pub is_graphql : E1RequestObserved → Bool
is_graphql e = eq_text e.endpoint_key (units "graphql")

unfoldable pub is_lifecycle_root_for_record :
    E1RequestObserved → TransientVerdictCandidate → (external_submission_id : Text) → Bool
unfolding names_problem
is_lifecycle_root_for_record e c id =
    if eq_text e.method (units "POST")
    then is_graphql e || names_problem e.endpoint_key c
    else eq_text e.method (units "GET")
      && (eq_text e.endpoint_key (units "leetcode/result/" ++ id)
          || eq_text e.endpoint_key (units "leetcode/check/" ++ id))

unfoldable pub is_submit_lifecycle_shape : E1RequestObserved → Bool
is_submit_lifecycle_shape e =
    eq_text e.method (units "POST") && eq_text e.resource_type (units "xmlhttprequest")

-- The request was answered with status 200.
unfoldable pub is_answered : E1RequestObserved → Bool
unfolding eq_lifecycle
is_answered e =
    eq_lifecycle e.lifecycle Lifecycle.completed && same_option ◌==◌ e.status_code (some 200)

-- `stableSubmissionId` of a lifecycle whose outcome is matched
unfoldable pub matched_id : TransientE1Lifecycle → Option Text
matched_id l = elim l.outcome [ E1LifecycleOutcome.matched ↦ l.stable_submission_id | _ ↦ none ]

unfoldable pub same_id : Option Text → Text → Bool
same_id none t = false
same_id (some s) t = eq_text t s

unfoldable pub is_later_lifecycle_for_candidate :
    TransientE1Lifecycle → TransientVerdictCandidate → List ConfirmedSubmissionRecord → Bool
unfolding names_problem matched_id same_id any_of
is_later_lifecycle_for_candidate l c confirmed =
    if not (is_graphql l.evidence)
    then names_problem l.evidence.endpoint_key c
    else any_of
        (λ r.
          eq_platform r.platform leetcode
          && eq_text r.problem_external_id c.problem_external_id
          && same_id (matched_id l) r.storage_key)
        confirmed

pub data JoinResult : Type 0 where
  no_record ambiguous_record : JoinResult
  joined : ConfirmedSubmissionRecord → JoinResult

abbrev pub is_live : Text → ConfirmedSubmissionRecord → Bool
is_live id r = eq_text r.storage_key id && is_none r.finalized_at

unfoldable pub join_confirmed_record : List ConfirmedSubmissionRecord → Text → JoinResult
unfolding filter_by
join_confirmed_record confirmed id = elim (filter_by (is_live id) confirmed) [
  | [] ↦ no_record
  | r ∷ more ↦ elim more [ [] ↦ joined r | _ ∷ _ ↦ ambiguous_record ]
]
