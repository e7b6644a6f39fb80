-- ===== src/Domain.antt =====
-- The closed vocabularies of lib/domain that several services share.
pub mod Event
pub mod Training
pub mod Verdict
use ai_coding_training_platf.Common.{Bool, true, false, ◌≡◌, refl, ◌↔◌, arith}

-- lib/domain/source.ts
pub data Platform : Type 0 where
  leetcode nowcoder luogu codeforces atcoder manual : Platform

-- `a === b` on platforms
unfoldable pub eq_platform : Platform → Platform → Bool
eq_platform leetcode leetcode = true
eq_platform nowcoder nowcoder = true
eq_platform luogu luogu = true
eq_platform codeforces codeforces = true
eq_platform atcoder atcoder = true
eq_platform manual manual = true
eq_platform _ _ = false

pub eq_platform_iff : (a b : Platform) → (eq_platform a b ≡ true) ↔ (a ≡ b)
unfolding eq_platform
eq_platform_iff a b = (λ h. ground arith, λ h. ground arith)

pub eq_platform_refl : (a : Platform) → eq_platform a a ≡ true
eq_platform_refl a = (eq_platform_iff a a).1 refl

-- lib/domain/captureCredential.ts
pub data CaptureProvenanceLevel : Type 0 where
  extension_unpaired extension_paired extension_local : CaptureProvenanceLevel

unfoldable pub eq_provenance : CaptureProvenanceLevel → CaptureProvenanceLevel → Bool
eq_provenance extension_unpaired extension_unpaired = true
eq_provenance extension_paired extension_paired = true
eq_provenance extension_local extension_local = true
eq_provenance _ _ = false

pub eq_provenance_iff : (a b : CaptureProvenanceLevel) → (eq_provenance a b ≡ true) ↔ (a ≡ b)
unfolding eq_provenance
eq_provenance_iff a b = (λ h. ground arith, λ h. ground arith)

-- lib/domain/training.ts
pub data SessionEndReason : Type 0 where
  pagehide spa_navigation capture_disabled : SessionEndReason

pub data AttemptResult : Type 0 where
  draft passed failed partial stuck : AttemptResult

pub data AttemptRecordSource : Type 0 where
  capture manual_entry : AttemptRecordSource
