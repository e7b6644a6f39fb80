-- ===== src/Reducer/Bundle.antt =====
-- Effects, lookups and `buildSafeBundle` of captureStateMachine.ts.
use ai_coding_training_platf.Common.{
  Bool, true, false, not, ◌&&◌, ◌||◌, Option, none, some, List, [], ◌∷◌, ◌++◌, ℕ, zero, suc, ◌==◌,
  length, if◌then◌else◌, filter_by, find_by, Text, units, eq_text, is_none,
}
use ai_coding_training_platf.Domain.{eq_platform, capture_disabled}
use ai_coding_training_platf.Domain.Event.{Base, submission_confirmed}
use ai_coding_training_platf.Reducer.{
  CaptureCanonicalState, CaptureIgnoredReason, CorrelatorAmbiguityReason, CorrelatorRejectionReason,
  E1LifecycleOutcome, E1RequestObserved, E3FinalVerdictConfirmed, CaptureEffect, bundle,
  rejected_effect, ambiguous_effect, ignored_effect, CaptureRequestRecord, CaptureSubmissionRecord,
  CapturePendingFinal, CaptureBundleMetadata, CaptureAttemptBundle, Runtime, E2SubmissionConfirmed,
}
use ai_coding_training_platf.Reducer.Identity.{
  contains_identity_control_char, deterministic_bundle_id, namespaced_key,
}
use ai_coding_training_platf.Reducer.Context.{Host, compare_times, is_positive}

-- `runtime.effects.push`, with one call of the clock.
unfoldable pub push : (Text → CaptureEffect) → Runtime → Runtime
push effect rt = record rt { effects = rt.effects ++ effect (rt.clock (length rt.effects)) ∷ [] }

unfoldable pub emit_bundle : CaptureAttemptBundle → Runtime → Runtime
unfolding push
emit_bundle b = push (bundle b)

unfoldable pub emit_rejected :
    CorrelatorRejectionReason → Option Text → (preserve_state : Bool) → Runtime → Runtime
unfolding push
emit_rejected reason key true rt = push (rejected_effect reason key) rt
emit_rejected reason key false rt =
    push (rejected_effect reason key)
      (record rt { status = CaptureCanonicalState.rejected; focus_key = key })

unfoldable pub emit_ambiguous : CorrelatorAmbiguityReason → Option Text → Runtime → Runtime
unfolding push
emit_ambiguous reason key = push (ambiguous_effect reason key)

unfoldable pub emit_ignored : CaptureIgnoredReason → Runtime → Runtime
unfolding push
emit_ignored reason = push (ignored_effect reason)

-- `list.findIndex(p)` together with the element found.
unfoldable pub find_index {ℓ} : {A : Type ℓ} → (A → Bool) → List A → Option (ℕ × A)
find_index p [] = none
find_index p (x ∷ xs) =
    if p x
    then some (0, x)
    else elim (find_index p xs) [ none ↦ none | some (i, a) ↦ some (suc i, a) ]

-- `list[i] = v` at an index of the list.
unfoldable pub set {ℓ} : {A : Type ℓ} → List A → ℕ → A → List A
set [] i v = []
set (x ∷ xs) zero v = v ∷ xs
set (x ∷ xs) (suc i) v = x ∷ set xs i v

-- `list.splice(i, 1)`
unfoldable pub remove {ℓ} : {A : Type ℓ} → List A → ℕ → List A
remove [] i = []
remove (x ∷ xs) zero = xs
remove (x ∷ xs) (suc i) = x ∷ remove xs i

abbrev pub names_evidence : Option E1RequestObserved → Text → Bool
names_evidence none id = false
names_evidence (some e) id = eq_text e.base.evidence_id id

unfoldable pub find_request_index :
    List CaptureRequestRecord → Text → Text → Option (ℕ × CaptureRequestRecord)
unfolding find_index
find_request_index requests evidence_id request_id =
    find_index
      (λ r.
        eq_text r.evidence_id evidence_id
        || eq_text r.request_id request_id
        || names_evidence r.evidence evidence_id)
      requests

unfoldable pub find_request_by_reference :
    List CaptureRequestRecord → Text → Option CaptureRequestRecord
unfolding find_by
find_request_by_reference requests reference =
    find_by
      (λ r.
        eq_text r.evidence_id reference
        || eq_text r.request_id reference
        || names_evidence r.evidence reference)
      requests

unfoldable pub find_record_index :
    List CaptureSubmissionRecord → Text → Option (ℕ × CaptureSubmissionRecord)
unfolding find_index
find_record_index records key = find_index (λ r. eq_text r.submission_key key) records

-- `value === text` for a value that may be null
abbrev pub is_text : Option Text → Text → Bool
is_text none t = false
is_text (some s) t = eq_text s t

unfoldable pub find_record_key_for_request : List CaptureSubmissionRecord → Text → Option Text
unfolding find_by
find_record_key_for_request records request_id =
    elim (find_by (λ r. is_text r.request_id request_id) records) [
      | none ↦ none
      | some r ↦ some r.submission_key
    ]

unfoldable pub is_pending : E1LifecycleOutcome → Bool
is_pending E1LifecycleOutcome.pending = true
is_pending _ = false

unfoldable pub is_matched : E1LifecycleOutcome → Bool
is_matched E1LifecycleOutcome.matched = true
is_matched _ = false

unfoldable pub sole_pending_request_id : List CaptureRequestRecord → Option Text
unfolding filter_by is_pending
sole_pending_request_id requests = elim (filter_by (λ r. is_pending r.outcome) requests) [
  | [] ↦ none
  | r ∷ rs ↦ elim rs [ [] ↦ some r.request_id | s ∷ ss ↦ none ]
]

unfoldable pub find_pending_final :
    List CapturePendingFinal → Text → Option (ℕ × CapturePendingFinal)
unfolding find_index
find_pending_final finals key = find_index (λ f. eq_text f.submission_key key) finals

unfoldable pub is_rejected : CaptureCanonicalState → Bool
is_rejected CaptureCanonicalState.rejected = true
is_rejected _ = false

-- Whether `findConflictingRecord` gives a record.
unfoldable pub has_conflicting_record :
    List CaptureSubmissionRecord → E3FinalVerdictConfirmed → Bool
unfolding filter_by is_rejected
has_conflicting_record records e =
    length (
      filter_by
        (λ r.
          eq_platform r.platform e.base.platform
          && eq_text r.problem_external_id e.problem_external_id
          && not
              (eq_text r.submission_key (namespaced_key e.base.platform e.external_submission_id))
          && not (is_rejected r.status))
        records)
    == 1

-- The fields that the four events of a bundle share.
unfoldable pub common_base : CaptureBundleMetadata → Text → Text → Base
common_base c id occurred_at = record {
  id = id;
  capture_session_id = c.capture_session_id;
  installation_id = c.installation_id;
  adapter_version = c.adapter_version;
  parser_version = c.parser_version;
  page_origin = c.page_origin;
  provenance_level = c.provenance_level;
  platform = c.platform;
  problem_external_id = c.problem_external_id;
  problem_title = c.problem_title;
  canonical_url = c.canonical_url;
  occurred_at = occurred_at;
}

-- The bundle of a record, its confirmation and its verdict.
unfoldable pub safe_bundle :
    CaptureSubmissionRecord → E2SubmissionConfirmed → E3FinalVerdictConfirmed → CaptureAttemptBundle
unfolding common_base
safe_bundle r e2 verdict =
    let id =
      deterministic_bundle_id r.context.installation_id r.context.capture_session_id
        r.submission_key r.context.adapter_version r.context.parser_version in
    let at = common_base r.context in
    record {
      bundle_id = id;
      started = record { base = at (id ++ units "_started") r.started_at };
      submitted = record {
        base = at (id ++ units "_submitted") e2.base.received_at;
        submission_id = r.external_submission_id;
        action = submission_confirmed;
      };
      verdict = record {
        base = at (id ++ units "_verdict") verdict.base.received_at;
        submission_id = r.external_submission_id;
        verdict = verdict.verdict;
        language = none;
        result = none;
      };
      ended = record {
        base = at (id ++ units "_ended") verdict.base.received_at;
        end_reason = capture_disabled;
      };
    }

unfoldable pub has_control_char : CaptureSubmissionRecord → Bool
has_control_char r =
    contains_identity_control_char r.context.installation_id r.context.capture_session_id
      r.submission_key r.context.adapter_version r.context.parser_version

-- What `buildSafeBundle` answers: a bundle, or null with or without an effect of its own.
pub data Built : Type 0 where
  built : CaptureAttemptBundle → Built
  refused : Built
  refused_identity : Built

unfoldable pub build_safe_bundle : Host → CaptureSubmissionRecord → E3FinalVerdictConfirmed → Built
unfolding safe_bundle has_control_char
build_safe_bundle host r verdict = elim r.e2 [
  | none ↦ refused
  | some e2 ↦
      if is_none r.e1
      then refused
      else if is_positive (compare_times host r.started_at e2.base.received_at)
          || is_positive (compare_times host e2.base.received_at verdict.base.received_at)
      then refused
      else if has_control_char r
      then refused_identity
      else built (safe_bundle r e2 verdict)
]
