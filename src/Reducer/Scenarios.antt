-- ===== src/Reducer/Scenarios.antt =====
-- Concrete inputs of captureStateMachine.ts, over which the theorems of Reducer are applied.
use ai_coding_training_platf.Reducer.Evidence.{handle_safe_evidence}
use ai_coding_training_platf.Reducer.Evidence.Requests.{
  e1_request_new, e1_stored, handle_e1, mark_request_matched, mark_if_pending,
}
use ai_coding_training_platf.Reducer.Evidence.Confirmations.{
  is_taken, is_unusable, new_e2_record, confirm_new, handle_e2_new, handle_e2_keyed, handle_e2,
}
use ai_coding_training_platf.Reducer.Evidence.Verdicts.{
  replay_pending_final, is_finalized, finalize_safe_record, too_early, handle_e3_known,
  handle_e3_unknown, handle_e3,
}
use ai_coding_training_platf.Reducer.{CaptureAttemptBundle, SafeEvidence, CaptureReducerState}
use ai_coding_training_platf.Reducer.Reduce.{
  dispatch, runtime_of, materialize_state, reduce_capture_state, safe_evidence,
  create_capture_state_machine_state,
}
use ai_coding_training_platf.Reducer.Growth.{IsSound, IsOwned, emitted, count_bundle, keyed_bundle}
use ai_coding_training_platf.Reducer.Once.{
  Arrival, reduce_all, Progresses, reduce_all-once, reduce_all-Progresses,
}
use ai_coding_training_platf.Domain.Verdict.{final_capture_verdicts, is_final_capture_verdict}
use ai_coding_training_platf.Reducer.Sha256.{big_endian}
use ai_coding_training_platf.Common.{
  [], Bool, inl, ◌≤◌, List, Text, any_of, eq_text, false, if◌then◌else◌, leb, length, lt_text, map,
  none, refl, some, true, units, ℕ, ◌&&◌, ◌*◌, ◌+◌, ◌-◌, ◌==◌, ◌∷◌, ◌≡◌,
}
use ai_coding_training_platf.Common.Int.{pos}
use ai_coding_training_platf.Common.Result.{ok}
use ai_coding_training_platf.Domain.{eq_platform, eq_provenance, extension_local, leetcode}
use ai_coding_training_platf.Reducer.{
  CaptureCanonicalState, Lifecycle, EvidenceBase, E1RequestObserved, E2SubmissionConfirmed,
  E3FinalVerdictConfirmed, CaptureBundleMetadata, CaptureSubmissionRecord,
}
use ai_coding_training_platf.Reducer.Context.{
  earliest_time, metadata_from_e1, resolve_context, metadata_from_e2, Host, no_metadata,
  compare_times,
}
use ai_coding_training_platf.Reducer.Bundle.{
  sole_pending_request_id, find_record_index, emit_bundle, find_pending_final,
  has_conflicting_record, find_record_key_for_request, set, find_request_index,
  find_request_by_reference, emit_rejected, safe_bundle, built, build_safe_bundle,
}
use ai_coding_training_platf.Reducer.Accepted.{
  bundle_rule, in_text_order, bundle_rule-build_safe_bundle, build_safe_bundle-accepted,
}
use ai_coding_training_platf.Reducer.Identity.{
  canonical_identity_encoding, contains_identity_control_char, encode_field, is_control, utf8,
  namespaced_key,
}
use ai_coding_training_platf.Reducer.Identity.Injective.{canonical_identity_encoding-injective}

abbrev identity : List Text
identity = units "inst" ∷ units "é1" ∷ []

abbrev identity_code : List ℕ
identity_code = 0 ∷ 0 ∷ 0 ∷ 4 ∷ 105 ∷ 110 ∷ 115 ∷ 116 ∷ 0 ∷ 0 ∷ 0 ∷ 3 ∷ 195 ∷ 169 ∷ 49 ∷ []

identity_encoded : canonical_identity_encoding identity ≡ ok identity_code
unfolding canonical_identity_encoding encode_field any_of is_control utf8 big_endian
identity_encoded = refl

canonical_identity_encoding-injective_example : map utf8 identity ≡ map utf8 identity
canonical_identity_encoding-injective_example =
    canonical_identity_encoding-injective identity identity refl identity_encoded identity_encoded

-- The number that the digits of a time make.
abbrev digits : ℕ → Text → ℕ
digits n [] = n
digits n (c ∷ t) = digits (if leb 48 c && leb c 57 then n * 10 + (c - 48) else n) t

-- Times in the format of `toISOString`, with or without a fraction, in the order of their instants.
abbrev host : Host
host = record {
  date_parse = λ t. some (pos (if length t == 20 then digits 0 t * 1000 else digits 0 t));
  url_origin = λ u. some u;
  encode_uri_component = λ t. t;
}

abbrev evidence_at : Text → Text → EvidenceBase
evidence_at id t = record {
  evidence_id = id;
  platform = leetcode;
  received_at = t;
  tab_id = 1;
  frame_id = 0;
  document_id = units "doc";
  adapter_version = units "1";
}

abbrev e1_of : E1RequestObserved
e1_of = record {
  base = evidence_at (units "ev1") (units "2026-03-01T12:00:00.000Z");
  api_time_stamp = 5;
  request_id = units "r1";
  method = units "POST";
  endpoint_key = units "submit";
  resource_type = units "fetch";
  lifecycle = Lifecycle.completed;
  status_code = some 200;
  redirect_endpoint_key = none;
}

abbrev e2_at : Text → E2SubmissionConfirmed
e2_at t = record {
  base = evidence_at (units "ev2") t;
  request_evidence_id = units "ev1";
  external_submission_id = units "77";
  problem_external_id = units "two-sum";
  phase = none;
}

abbrev e3_of : E3FinalVerdictConfirmed
e3_of = record {
  base = evidence_at (units "ev3") (units "2026-03-01T12:00:09.000Z");
  external_submission_id = units "77";
  problem_external_id = units "two-sum";
  verdict = units "Accepted";
}

abbrev context_of : CaptureBundleMetadata
context_of = record {
  installation_id = units "inst";
  capture_session_id = units "doc";
  adapter_version = units "1";
  parser_version = units "1";
  page_origin = units "https://leetcode.com";
  provenance_level = extension_local;
  platform = leetcode;
  problem_external_id = units "two-sum";
  problem_title = units "Two Sum";
  canonical_url = units "https://leetcode.com/problems/two-sum";
}

-- A confirmed submission that began at a time.
abbrev record_of : Text → E2SubmissionConfirmed → CaptureSubmissionRecord
record_of started_at e2 = record {
  submission_key = units "leetcode:77";
  platform = leetcode;
  external_submission_id = units "77";
  problem_external_id = units "two-sum";
  status = CaptureCanonicalState.submission_confirmed;
  phase = none;
  request_evidence_id = some (units "ev1");
  request_id = some (units "r1");
  e1 = some e1_of;
  e2 = some e2;
  e3 = none;
  context = context_of;
  started_at = started_at;
  bundle = none;
  v3_session_started = none;
  v3_submission_observed = none;
  v3_verdict_observed = none;
  v3_session_ended = none;
}

abbrev usual_e2 : E2SubmissionConfirmed
usual_e2 = e2_at (units "2026-03-01T12:00:01.000Z")

abbrev usual : CaptureSubmissionRecord
usual = record_of (units "2026-03-01T12:00:00.000Z") usual_e2

usual_built : build_safe_bundle host usual e3_of ≡ built (safe_bundle usual usual_e2 e3_of)
unfolding build_safe_bundle compare_times contains_identity_control_char any_of is_control
usual_built = refl

build_safe_bundle-accepted_example : bundle_rule (safe_bundle usual usual_e2 e3_of) ≡ true
unfolding is_final_capture_verdict any_of final_capture_verdicts eq_text lt_text compare_times
    safe_bundle
build_safe_bundle-accepted_example =
    build_safe_bundle-accepted host usual e3_of usual_built refl refl refl

-- A start without a fraction of a second and a confirmation half a second later.
abbrev half_later : E2SubmissionConfirmed
half_later = e2_at (units "2026-03-01T12:00:00.500Z")

abbrev mixed : CaptureSubmissionRecord
mixed = record_of (units "2026-03-01T12:00:00Z") half_later

mixed_built : build_safe_bundle host mixed e3_of ≡ built (safe_bundle mixed half_later e3_of)
unfolding build_safe_bundle compare_times contains_identity_control_char any_of is_control
mixed_built = refl

bundle_rule-build_safe_bundle_example :
    bundle_rule (safe_bundle mixed half_later e3_of)
    ≡ in_text_order (safe_bundle mixed half_later e3_of)
unfolding is_final_capture_verdict any_of final_capture_verdicts eq_text
bundle_rule-build_safe_bundle_example =
    bundle_rule-build_safe_bundle host mixed e3_of mixed_built refl

mixed_refused : bundle_rule (safe_bundle mixed half_later e3_of) ≡ false
unfolding bundle_rule safe_bundle eq_text eq_provenance eq_platform lt_text
mixed_refused = refl

abbrev arrival_of : SafeEvidence → Arrival
arrival_of e = record {
  input = safe_evidence (some e);
  metadata = no_metadata;
  clock = λ n. units "2026-03-01T12:00:10.000Z";
}

-- The verdict comes before the confirmation, and again after it.
abbrev arrivals : List Arrival
arrivals =
    arrival_of (SafeEvidence.request_observed e1_of)
    ∷ arrival_of (SafeEvidence.final_verdict_confirmed e3_of)
    ∷ arrival_of (SafeEvidence.submission_confirmed usual_e2)
    ∷ arrival_of (SafeEvidence.final_verdict_confirmed e3_of)
    ∷ []

abbrev all_pass : CaptureAttemptBundle → Bool
all_pass b = true

abbrev only_key : Text
only_key = namespaced_key leetcode (units "77")

only_key-IsOwned :
    IsOwned only_key all_pass
      (reduce_all host create_capture_state_machine_state arrivals).0.records
unfolding any_of build_safe_bundle compare_times confirm_new contains_identity_control_char
    create_capture_state_machine_state dispatch e1_request_new e1_stored earliest_time emit_bundle
    emit_rejected eq_platform eq_text final_capture_verdicts finalize_safe_record find_pending_final
    find_record_index find_record_key_for_request find_request_by_reference find_request_index
    handle_e1 handle_e2 handle_e2_keyed handle_e2_new handle_e3 handle_e3_known handle_e3_unknown
    handle_safe_evidence has_conflicting_record is_control is_final_capture_verdict is_finalized
    is_taken is_unusable mark_if_pending mark_request_matched materialize_state metadata_from_e1
    metadata_from_e2 namespaced_key new_e2_record reduce_all reduce_capture_state
    replay_pending_final resolve_context runtime_of set sole_pending_request_id too_early
only_key-IsOwned = (inl refl, tt)

-- The one bundle of the four inputs.
emitted_one : emitted all_pass (reduce_all host create_capture_state_machine_state arrivals).1 ≡ 1
unfolding any_of build_safe_bundle compare_times confirm_new contains_identity_control_char
    create_capture_state_machine_state dispatch e1_request_new e1_stored earliest_time emit_bundle
    emit_rejected eq_platform eq_text final_capture_verdicts finalize_safe_record find_pending_final
    find_record_index find_record_key_for_request find_request_by_reference find_request_index
    handle_e1 handle_e2 handle_e2_keyed handle_e2_new handle_e3 handle_e3_known handle_e3_unknown
    handle_safe_evidence has_conflicting_record is_control is_final_capture_verdict is_finalized
    is_taken is_unusable mark_if_pending mark_request_matched materialize_state metadata_from_e1
    metadata_from_e2 namespaced_key new_e2_record reduce_all reduce_capture_state
    replay_pending_final resolve_context runtime_of set sole_pending_request_id too_early
emitted_one = refl

reduce_all-once_example :
    let last = reduce_all host create_capture_state_machine_state arrivals in
    (emitted all_pass last.1 ≡ count_bundle all_pass (keyed_bundle only_key last.0.records))
    × (emitted all_pass last.1 ≤ 1)
reduce_all-once_example = reduce_all-once host arrivals only_key all_pass only_key-IsOwned

abbrev waiting_state : CaptureReducerState
waiting_state = record create_capture_state_machine_state {
  status = CaptureCanonicalState.submission_confirmed;
  records = usual ∷ [];
}

waiting_state-IsSound : IsSound waiting_state.records
waiting_state-IsSound = record { final = (tt, tt); keys = (refl, tt) }

reduce_all-Progresses_example :
    Progresses host waiting_state (reduce_all host waiting_state arrivals)
reduce_all-Progresses_example =
    reduce_all-Progresses host waiting_state arrivals waiting_state-IsSound
