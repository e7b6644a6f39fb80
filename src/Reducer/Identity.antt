-- ===== src/Reducer/Identity.antt =====
-- The identity of a bundle: `canonicalIdentityEncoding`, `containsIdentityControlChar`,
-- `deterministicBundleId`, and the string helpers of captureStateMachine.ts.
pub mod Injective
use ai_coding_training_platf.Common.{
  Bool, true, false, not, ◌&&◌, ◌||◌, Option, none, some, ℕ, zero, suc, ◌+◌, ◌-◌, ◌*◌, ◌/◌, ◌%◌,
  List, [], ◌∷◌, ◌++◌, length, if◌then◌else◌, ltb, leb, ◌==◌, Text, units, any_of,
}
use mathlib.Core.List.{reverse}
use ai_coding_training_platf.Common.Result.{Result, ok, err}
use ai_coding_training_platf.Domain.{
  Platform, leetcode, nowcoder, luogu, codeforces, atcoder, manual,
}
use ai_coding_training_platf.Reducer.{
  CaptureIgnoredReason, control_character_in_identity, identity_collision,
}
use ai_coding_training_platf.Reducer.Sha256.{big_endian, sha256_hex_bytes}

-- `code < 0x20 || code === 0x7f`
unfoldable pub is_control : ℕ → Bool
is_control c = ltb c 32 || c == 127

unfoldable pub contains_identity_control_char : Text → Text → Text → Text → Text → Bool
contains_identity_control_char a b c d e = any_of (any_of is_control) (a ∷ b ∷ c ∷ d ∷ e ∷ [])

-- The bytes of a code point.
unfoldable pub utf8_point : ℕ → List ℕ
utf8_point p =
    if ltb p 128
    then p ∷ []
    else if ltb p 2048
    then (192 + p / 64) ∷ (128 + p % 64) ∷ []
    else if ltb p 65536
    then (224 + p / 4096) ∷ (128 + p / 64 % 64) ∷ (128 + p % 64) ∷ []
    else (240 + p / 262144) ∷ (128 + p / 4096 % 64) ∷ (128 + p / 64 % 64) ∷ (128 + p % 64) ∷ []

unfoldable pub is_high_surrogate : ℕ → Bool
is_high_surrogate c = leb 55296 c && leb c 56319

unfoldable pub is_low_surrogate : ℕ → Bool
is_low_surrogate c = leb 56320 c && leb c 57343

-- `new TextEncoder().encode(s)`: a surrogate with no partner becomes U+FFFD.
unfoldable pub utf8 : Text → List ℕ
unfolding utf8_point is_high_surrogate is_low_surrogate
utf8 [] = []
utf8 (c ∷ []) = utf8_point (if is_high_surrogate c || is_low_surrogate c then 65533 else c)
utf8 (c ∷ d ∷ s) =
    let paired = utf8 s in
    let alone = utf8 (d ∷ s) in
    if is_high_surrogate c && is_low_surrogate d
    then utf8_point (65536 + (c - 55296) * 1024 + (d - 56320)) ++ paired
    else utf8_point (if is_high_surrogate c || is_low_surrogate c then 65533 else c) ++ alone

-- One turn of the loop of `canonicalIdentityEncoding`: the bytes of a field behind their number.
unfoldable pub encode_field : Text → Result CaptureIgnoredReason (List ℕ)
encode_field field =
    let bytes = utf8 field in
    if any_of is_control field
    then err control_character_in_identity
    else if ltb 4294967295 (length bytes)
    then err identity_collision
    else ok (big_endian (length bytes) ++ bytes)

-- `canonicalIdentityEncoding`, whose parts `concatBytes` joins.
unfoldable pub canonical_identity_encoding : List Text → Result CaptureIgnoredReason (List ℕ)
canonical_identity_encoding [] = ok []
canonical_identity_encoding (field ∷ fields) = elim (encode_field field) [
  | err e ↦ err e
  | ok part ↦ elim (canonical_identity_encoding fields) [
    | err e ↦ err e
    | ok parts ↦ ok (part ++ parts)
  ]
]

-- `error.message`
unfoldable pub message : CaptureIgnoredReason → Text
message control_character_in_identity = units "control_character_in_identity"
message _ = units "identity_collision"

unfoldable pub deterministic_bundle_id : Text → Text → Text → Text → Text → Text
unfolding canonical_identity_encoding encode_field is_control utf8 big_endian sha256_hex_bytes
    message
deterministic_bundle_id installation_id capture_session_id submission_key adapter_version
      parser_version =
    elim (canonical_identity_encoding (
      installation_id ∷ capture_session_id ∷ submission_key ∷ adapter_version ∷ parser_version
      ∷ [])) [
        | err e ↦ units "bundle_invalid_" ++ message e
        | ok bytes ↦ units "bundle_" ++ sha256_hex_bytes bytes
      ]

unfoldable pub sha256_hex : Text → Text
unfolding utf8 sha256_hex_bytes
sha256_hex value = sha256_hex_bytes (utf8 value)

-- The string of a platform.
unfoldable pub platform_name : Platform → Text
platform_name leetcode = units "leetcode"
platform_name nowcoder = units "nowcoder"
platform_name luogu = units "luogu"
platform_name codeforces = units "codeforces"
platform_name atcoder = units "atcoder"
platform_name manual = units "manual"

unfoldable pub namespaced_key : Platform → Text → Text
unfolding platform_name
namespaced_key platform external_submission_id =
    platform_name platform ++ (units ":" ++ external_submission_id)

-- What `trim` takes off: white space and line ends.
unfoldable pub is_space : ℕ → Bool
is_space c =
    (leb 9 c && leb c 13)
    || c == 32
    || c == 160
    || c == 5760
    || (leb 8192 c && leb c 8202)
    || c == 8232
    || c == 8233
    || c == 8239
    || c == 8287
    || c == 12288
    || c == 65279

unfoldable pub trim_start : Text → Text
unfolding is_space
trim_start [] = []
trim_start (c ∷ s) = let rest = trim_start s in if is_space c then rest else c ∷ s

unfoldable pub trim : Text → Text
unfolding trim_start
trim s = reverse (trim_start (reverse (trim_start s)))

unfoldable pub nonempty_text : Text → Option Text
nonempty_text s = elim (trim s) [ [] ↦ none | c ∷ cs ↦ some (c ∷ cs) ]

-- `nonempty`
unfoldable pub nonempty : Option Text → Option Text
unfolding nonempty_text trim
nonempty none = none
nonempty (some s) = nonempty_text s

unfoldable pub first_nonempty : List (Option Text) → Option Text
unfolding nonempty
first_nonempty [] = none
first_nonempty (v ∷ vs) = elim (nonempty v) [ some s ↦ some s | none ↦ first_nonempty vs ]
