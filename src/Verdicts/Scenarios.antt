-- ===== src/Verdicts/Scenarios.antt =====
-- Two candidates of one problem, over which the theorems of Verdicts are applied.
use ai_coding_training_platf.Common.{
  Option, none, some, List, [], ◌∷◌, map, Text, units, eq_text, lt_text, Each, length, ◌≡◌, refl,
}
use ai_coding_training_platf.Common.Int.{pos}
use ai_coding_training_platf.Domain.{leetcode, eq_platform}
use ai_coding_training_platf.Reducer.{E1RequestObserved, E1LifecycleOutcome, Lifecycle}
use ai_coding_training_platf.Verdicts.{
  TransientE1Lifecycle, TransientVerdictCandidate, ConfirmedSubmissionRecord,
}
use ai_coding_training_platf.Verdicts.Request.{is_submit_lifecycle_shape}
use ai_coding_training_platf.Common.Maps.{get, put, has}
use ai_coding_training_platf.Verdicts.Reconcile.{reconcile_one, reconcile_verdict_candidates}
use ai_coding_training_platf.Verdicts.Latest.{Clock}
use ai_coding_training_platf.Verdicts.Accounts.{Accounts, reconcile_verdict_candidates-Accounts}
use ai_coding_training_platf.Verdicts.Justified.{
  FromCandidate, reconcile_verdict_candidates-FromCandidate,
}

-- A time is written as one code unit per second.
abbrev clock : Clock
clock = record { date_parse = λ t. some (pos (length t)); locale_less = lt_text }

abbrev request : Text → Text → E1RequestObserved
request id t = record {
  base = record {
    evidence_id = id;
    platform = leetcode;
    received_at = t;
    tab_id = 1;
    frame_id = 0;
    document_id = units "doc";
    adapter_version = units "1";
  };
  api_time_stamp = 5;
  request_id = id;
  method = units "POST";
  endpoint_key = units "leetcode/submit/com/two-sum";
  resource_type = units "xmlhttprequest";
  lifecycle = Lifecycle.completed;
  status_code = some 200;
  redirect_endpoint_key = none;
}

abbrev lifecycle_of : Text → Text → TransientE1Lifecycle
lifecycle_of id t = record {
  evidence = request id t;
  outcome = E1LifecycleOutcome.matched;
  stable_submission_id = some (units "leetcode:77");
}

abbrev candidate_of : Text → Option Text → TransientVerdictCandidate
candidate_of id request_id = record {
  candidate_id = id;
  problem_external_id = units "two-sum";
  verdict = units "Accepted";
  observed_at = units "...";
  tab_id = 1;
  frame_id = 0;
  document_id = units "doc";
  received_at = units "...";
  submit_request_id = request_id;
}

abbrev confirmed_of : ConfirmedSubmissionRecord
confirmed_of = record {
  platform = leetcode;
  problem_external_id = units "two-sum";
  external_submission_id = units "com/77";
  confirmed_at = units "..";
  storage_key = units "leetcode:77";
  finalized_at = none;
}

abbrev armed : TransientVerdictCandidate
armed = candidate_of (units "c1") (some (units "r1"))

abbrev unmatched : TransientVerdictCandidate
unmatched = candidate_of (units "c2") (some (units "r9"))

abbrev legacy : TransientVerdictCandidate
legacy = candidate_of (units "c3") none

abbrev candidates : List TransientVerdictCandidate
candidates = armed ∷ unmatched ∷ legacy ∷ []

abbrev lifecycles : List TransientE1Lifecycle
lifecycles = lifecycle_of (units "r1") (units ".") ∷ []

-- Both paths resolve their candidate; the one whose request has not been seen is kept.
two_resolved :
    map
      (λ r. r.candidate_id)
      (reconcile_verdict_candidates clock candidates lifecycles
        (confirmed_of ∷ [])
        (units "....")).resolutions
    ≡ units "c1" ∷ units "c3" ∷ []
unfolding reconcile_verdict_candidates eq_text eq_platform is_submit_lifecycle_shape get put has
two_resolved = refl

reconcile_verdict_candidates-Accounts_example :
    Accounts
      (λ c. reconcile_one clock c lifecycles (confirmed_of ∷ []) (some (pos 4)))
      candidates
      (reconcile_verdict_candidates clock candidates lifecycles (confirmed_of ∷ []) (units "...."))
reconcile_verdict_candidates-Accounts_example =
    reconcile_verdict_candidates-Accounts clock candidates lifecycles (confirmed_of ∷ [])
      (units "....")

reconcile_verdict_candidates-FromCandidate_example :
    Each
      (FromCandidate clock lifecycles (confirmed_of ∷ []) (units "....") candidates)
      (reconcile_verdict_candidates clock candidates lifecycles
        (confirmed_of ∷ [])
        (units "....")).resolutions
reconcile_verdict_candidates-FromCandidate_example =
    reconcile_verdict_candidates-FromCandidate clock lifecycles (confirmed_of ∷ []) (units "....")
      candidates
