-- ===== src/Reducer/Context.antt =====
-- Times, metadata hints and `resolveContext` of captureStateMachine.ts. What the host implements
-- in its own way, `Date.parse`, `URL` and `encodeURIComponent`, is the record `Host`.
use ai_coding_training_platf.Common.{
  Bool, true, false, Option, none, some, List, [], ◌∷◌, ◌++◌, if◌then◌else◌, Text, units, eq_text,
  lt_text, is_some,
}
use ai_coding_training_platf.Common.Int.{ℤ, ltb_ℤ}
use ai_coding_training_platf.Domain.{Platform, CaptureProvenanceLevel, extension_local}
use ai_coding_training_platf.Reducer.{
  CaptureReducerMetadata, CaptureBundleMetadata, E1RequestObserved, E2SubmissionConfirmed,
}
use ai_coding_training_platf.Reducer.Identity.{first_nonempty, sha256_hex, platform_name}

-- `date_parse` gives no value where `Date.parse` gives NaN, and `url_origin` none where the
-- constructor of `URL` throws.
pub record Host : Type 0 where
  pub date_parse : Text → Option ℤ
  pub url_origin : Text → Option Text
  pub encode_uri_component : Text → Text

-- The sign of a comparison's result.
pub data Sign : Type 0 where
  negative same positive : Sign

abbrev pub is_negative : Sign → Bool
is_negative negative = true
is_negative same = false
is_negative positive = false

abbrev pub is_positive : Sign → Bool
is_positive negative = false
is_positive same = false
is_positive positive = true

unfoldable pub compare_ms : ℤ → ℤ → Sign
compare_ms a b = if ltb_ℤ a b then negative else if ltb_ℤ b a then positive else same

unfoldable pub compare_texts : Text → Text → Sign
compare_texts a b = if eq_text a b then same else if lt_text a b then negative else positive

unfoldable pub compare_parsed : Option ℤ → Option ℤ → Text → Text → Sign
compare_parsed (some a) (some b) left right = compare_ms a b
compare_parsed (some a) none left right = compare_texts left right
compare_parsed none _ left right = compare_texts left right

abbrev pub no_metadata : CaptureReducerMetadata
no_metadata = record {
  installation_id = none;
  capture_session_id = none;
  session_id = none;
  adapter_version = none;
  parser_version = none;
  page_origin = none;
  provenance_level = none;
  platform = none;
  problem_external_id = none;
  problem_title = none;
  canonical_url = none;
  started_at = none;
  ended_at = none;
}

unfoldable pub metadata_from_e1 : E1RequestObserved → CaptureReducerMetadata
metadata_from_e1 e = record no_metadata {
  adapter_version = some e.base.adapter_version;
  platform = some e.base.platform;
  started_at = some e.base.received_at;
}

unfoldable pub metadata_from_e2 : E2SubmissionConfirmed → CaptureReducerMetadata
metadata_from_e2 e = record no_metadata {
  adapter_version = some e.base.adapter_version;
  platform = some e.base.platform;
  problem_external_id = some e.problem_external_id;
  started_at = some e.base.received_at;
}

unfoldable pub context_metadata : CaptureBundleMetadata → CaptureReducerMetadata
context_metadata c = record no_metadata {
  installation_id = some c.installation_id;
  capture_session_id = some c.capture_session_id;
  adapter_version = some c.adapter_version;
  parser_version = some c.parser_version;
  page_origin = some c.page_origin;
  provenance_level = some c.provenance_level;
  platform = some c.platform;
  problem_external_id = some c.problem_external_id;
  problem_title = some c.problem_title;
  canonical_url = some c.canonical_url;
}

-- `all.map((hint) => hint?.field)`
unfoldable pub ask {ℓ} :
    {A : Type ℓ}
    → (CaptureReducerMetadata → Option A)
    → List (Option CaptureReducerMetadata)
    → List (Option A)
ask f [] = []
ask f (none ∷ hints) = none ∷ ask f hints
ask f (some hint ∷ hints) = f hint ∷ ask f hints

-- `a ?? b`
abbrev pub or_else {ℓ} : {A : Type ℓ} → Option A → A → A
or_else none b = b
or_else (some a) b = a

abbrev pub or_option {ℓ} : {A : Type ℓ} → Option A → Option A → Option A
or_option none b = b
or_option (some a) b = some a

unfoldable pub first_defined_provenance :
    List (Option CaptureProvenanceLevel) → Option CaptureProvenanceLevel
first_defined_provenance [] = none
first_defined_provenance (none ∷ vs) = first_defined_provenance vs
first_defined_provenance (some v ∷ vs) = some v

module _ (host : Host) where
  open host use {date_parse, url_origin, encode_uri_component}

  unfoldable pub compare_times : Text → Text → Sign
  unfolding compare_parsed compare_ms compare_texts
  compare_times left right = compare_parsed (date_parse left) (date_parse right) left right

  unfoldable pub earliest_time : Text → Text → Text
  earliest_time left right = if is_positive (compare_times left right) then right else left

  unfoldable pub valid_url : Option Text → Option Text
  valid_url none = none
  valid_url (some u) = if is_some (url_origin u) then some u else none

  unfoldable pub origin_of : Text → Text
  origin_of u = or_else (url_origin u) (units "https://capture.invalid")

  unfoldable pub default_canonical_url : Platform → Text → Text
  unfolding platform_name
  default_canonical_url platform problem =
      units "https://"
      ++ (platform_name platform
          ++ (units ".invalid/problems/"
              ++ encode_uri_component (elim problem [ [] ↦ units "unknown" | c ∷ cs ↦ c ∷ cs ])))

  -- The hint `startedAtHint` is a parameter that the source does not read.
  unfoldable pub resolve_context :
      List (Option CaptureReducerMetadata)
      → Platform
      → Text
      → (canonical_url_hint : Option Text) → (session_id_hint : Option Text)
      → (existing : Option CaptureBundleMetadata) → CaptureBundleMetadata
  unfolding context_metadata ask first_nonempty first_defined_provenance valid_url origin_of
      default_canonical_url sha256_hex platform_name
  resolve_context hints platform problem canonical_url_hint session_id_hint existing =
      let everything =
        hints ++ elim existing [ none ↦ none | some c ↦ some (context_metadata c) ] ∷ [] in
      let installation_id =
        or_else (first_nonempty (ask (λ h. h.installation_id) everything))
          (units "v4-installation") in
      let derived =
        units "session_"
        ++ sha256_hex (installation_id ++ (31 ∷ (platform_name platform ++ (31 ∷ problem)))) in
      let canonical_url =
        or_else
          (valid_url (first_nonempty (canonical_url_hint ∷ ask (λ h. h.canonical_url) everything)))
          (default_canonical_url platform problem) in
      record {
        installation_id = installation_id;
        capture_session_id =
            or_else
              (first_nonempty (ask (λ h. or_option h.capture_session_id h.session_id) everything))
              (or_else session_id_hint derived);
        adapter_version =
            or_else (first_nonempty (ask (λ h. h.adapter_version) everything))
              (units "v4-adapter@1");
        parser_version =
            or_else (first_nonempty (ask (λ h. h.parser_version) everything))
              (units "v4-capture-state-machine@1");
        page_origin =
            or_else (valid_url (first_nonempty (ask (λ h. h.page_origin) everything)))
              (origin_of canonical_url);
        provenance_level =
            or_else (first_defined_provenance (ask (λ h. h.provenance_level) everything))
              extension_local;
        platform = platform;
        problem_external_id = problem;
        problem_title =
            or_else (first_nonempty (ask (λ h. h.problem_title) everything))
              (units "Captured problem");
        canonical_url = canonical_url;
      }
