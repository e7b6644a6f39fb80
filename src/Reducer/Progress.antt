-- ===== src/Reducer/Progress.antt =====
-- How the records and the effects of a reduction grow: no record is lost or renamed, no bundle is
-- taken back, and the bundles that are emitted are those that records gain.
pub mod Confirmed
pub mod Effects
pub mod Finals
pub mod Requests
pub mod Submissions
use ai_coding_training_platf.Common.{
  Bool, true, false, not, ◌&&◌, ◌||◌, Option, none, some, List, [], ◌∷◌, ◌++◌, ℕ, zero, suc, ◌+◌,
  ◌≡◌, refl, sym, ◌∙◌, ap, if◌then◌else◌, Text, eq_text, eq_text_refl, eq_text_iff, eq_text_comm,
  length, arith, Each, Bool-cases, Option-cases, ◌⊎◌, inl, inr, ◌≢◌,
}
use ai_coding_training_platf.Reducer.{
  CaptureCanonicalState, CaptureEffect, bundle, rejected_effect, ambiguous_effect, ignored_effect,
  CaptureSubmissionRecord, CaptureAttemptBundle, Runtime, CorrelatorRejectionReason,
  CaptureIgnoredReason,
}
use ai_coding_training_platf.Reducer.Bundle.{
  push, emit_bundle, emit_rejected, emit_ambiguous, emit_ignored, find_index, set,
  find_record_index,
}
use ai_coding_training_platf.Reducer.Evidence.{is_finalized}
use ai_coding_training_platf.Reducer.Growth.{
  Grows, Evolves, count_bundle, bundled, BundleIsFinal, has_key, KeysDiffer, IsSound,
  KeepsBundle-refl, Evolves-refl,
}

-- The place that a search finds.
pub data At {A : Type 0} (a : A) : ℕ → List A → Type 0 where
  front : {xs : List A} → At a zero (a ∷ xs)
  behind : {i : ℕ} {x : A} {xs : List A} → At a i xs → At a (suc i) (x ∷ xs)

pub set-At : {A : Type 0} {a : A} {i : ℕ} {xs : List A} (b : A) → At a i xs → At b i (set xs i b)
unfolding set
set-At b front = front
set-At b (behind h) = behind (set-At b h)

pub length-At : {A : Type 0} (a : A) (xs : List A) → At a (length xs) (xs ++ a ∷ [])
length-At a [] = front
length-At a (x ∷ xs) = behind (length-At a xs)

pub set-Evolves :
    {r : CaptureSubmissionRecord} {i : ℕ} {rs : List CaptureSubmissionRecord}
    (r' : CaptureSubmissionRecord)
    → At r i rs
    → Grows r r'
    → Evolves rs (set rs i r')
unfolding set
set-Evolves r' (front {xs}) g = (g, Evolves-refl xs)
set-Evolves r' (behind {i} {x} h) g = ((refl, KeepsBundle-refl x.bundle), set-Evolves r' h g)

pub set-bundled :
    {r : CaptureSubmissionRecord} {i : ℕ} {rs : List CaptureSubmissionRecord}
    (p : CaptureAttemptBundle → Bool) (r' : CaptureSubmissionRecord)
    → At r i rs
    → bundled p (set rs i r') + count_bundle p r.bundle ≡ bundled p rs + count_bundle p r'.bundle
unfolding set
set-bundled p r' front = omega arith
set-bundled p r' (behind h) = omega (arith, set-bundled p r' h)

set-has_key :
    {r : CaptureSubmissionRecord} {i : ℕ} {rs : List CaptureSubmissionRecord} (k : Text)
    (r' : CaptureSubmissionRecord)
    → At r i rs
    → r'.submission_key ≡ r.submission_key
    → has_key k (set rs i r') ≡ has_key k rs
unfolding set
set-has_key k r' (front {xs}) e = ap (λ t. eq_text t k || has_key k xs) e
set-has_key k r' (behind {i} {x} h) e =
    ap (λ b. eq_text x.submission_key k || b) (set-has_key k r' h e)

set-KeysDiffer :
    {r : CaptureSubmissionRecord} {i : ℕ} {rs : List CaptureSubmissionRecord}
    (r' : CaptureSubmissionRecord)
    → At r i rs
    → r'.submission_key ≡ r.submission_key
    → KeysDiffer rs
    → KeysDiffer (set rs i r')
unfolding set
set-KeysDiffer r' (front {xs}) e k = (ap (λ t. has_key t xs) e ∙ k.0, k.1)
set-KeysDiffer r' (behind {i} {x} h) e k =
    (set-has_key x.submission_key r' h e ∙ k.0, set-KeysDiffer r' h e k.1)

set-Each :
    {r : CaptureSubmissionRecord} {i : ℕ} {rs : List CaptureSubmissionRecord}
    (r' : CaptureSubmissionRecord)
    → At r i rs
    → BundleIsFinal r'
    → Each BundleIsFinal rs
    → Each BundleIsFinal (set rs i r')
unfolding set
set-Each r' front p k = (p, k.1)
set-Each r' (behind h) p k = (k.0, set-Each r' h p k.1)

pub At-Each :
    {r : CaptureSubmissionRecord} {i : ℕ} {rs : List CaptureSubmissionRecord}
    → At r i rs
    → Each BundleIsFinal rs
    → BundleIsFinal r
At-Each front k = k.0
At-Each (behind h) k = At-Each h k.1

pub set-IsSound :
    {r : CaptureSubmissionRecord} {i : ℕ} {rs : List CaptureSubmissionRecord}
    (r' : CaptureSubmissionRecord)
    → At r i rs
    → r'.submission_key ≡ r.submission_key
    → BundleIsFinal r'
    → IsSound rs
    → IsSound (set rs i r')
set-IsSound r' h e b s = record {
  final = set-Each r' h b s.final;
  keys = set-KeysDiffer r' h e s.keys;
}

append-has_key :
    (k : Text) (rs : List CaptureSubmissionRecord) (r : CaptureSubmissionRecord)
    → has_key k (rs ++ r ∷ []) ≡ (has_key k rs || eq_text r.submission_key k)
append-has_key k [] r = ground arith
append-has_key k (x ∷ rs) r = ground (arith, append-has_key k rs r)

append-KeysDiffer :
    (rs : List CaptureSubmissionRecord) (r : CaptureSubmissionRecord)
    → has_key r.submission_key rs ≡ false
    → KeysDiffer rs
    → KeysDiffer (rs ++ r ∷ [])
append-KeysDiffer [] r h k = (refl, tt)
append-KeysDiffer (x ∷ rs) r h k = (
  ground
      (arith, append-has_key x.submission_key rs r, eq_text_comm r.submission_key x.submission_key),
  append-KeysDiffer rs r (ground arith) k.1,
)

append-Each :
    (rs : List CaptureSubmissionRecord) (r : CaptureSubmissionRecord)
    → Each BundleIsFinal rs
    → BundleIsFinal r
    → Each BundleIsFinal (rs ++ r ∷ [])
append-Each [] r k p = (p, tt)
append-Each (x ∷ rs) r k p = (k.0, append-Each rs r k.1 p)

pub append-IsSound :
    (rs : List CaptureSubmissionRecord) (r : CaptureSubmissionRecord)
    → has_key r.submission_key rs ≡ false
    → BundleIsFinal r
    → IsSound rs
    → IsSound (rs ++ r ∷ [])
append-IsSound rs r h b s = record {
  final = append-Each rs r s.final b;
  keys = append-KeysDiffer rs r h s.keys;
}

-- A search that finds something in a list that is not empty.
find_index-cons :
    {A : Type 0} (p : A → Bool) (x : A) (xs : List A) {i : ℕ} {a : A}
    → find_index p (x ∷ xs) ≡ some (i, a)
    → ((p x ≡ true) × (i ≡ 0) × (a ≡ x)) ⊎ ((j : ℕ) × (find_index p xs ≡ some (j, a)) × (i ≡ suc j))
unfolding find_index
find_index-cons p x xs h = elim (Bool-cases (p x)) [
  | inl e ↦ inl (e, ground arith, ground arith)
  | inr e ↦ elim (Option-cases (find_index p xs)) [
    | inl n ↦ absurd (ground arith)
    | inr ((j, b), n) ↦ inr (j, ground arith, ground arith)
  ]
]

pub find_record_index-At :
    (k : Text) (rs : List CaptureSubmissionRecord) {i : ℕ} {r : CaptureSubmissionRecord}
    → find_record_index rs k ≡ some (i, r)
    → At r i rs × (r.submission_key ≡ k)
unfolding find_record_index
find_record_index-At k [] h = absurd (ground arith)
find_record_index-At k (x ∷ rs) {i} {r} h =
    elim (find_index-cons (λ r. eq_text r.submission_key k) x rs h) [
      | inl (e, at, is) ↦ rw (at, is) (front, (eq_text_iff x.submission_key k).0 e)
      | inr (j, e, at) ↦
          let (place, key) = find_record_index-At k rs {i = j} {r = r} e in
          (rw at (behind place), key)
    ]

pub find_record_index-none :
    (k : Text) (rs : List CaptureSubmissionRecord)
    → find_record_index rs k ≡ none
    → has_key k rs ≡ false
unfolding find_record_index
find_record_index-none k [] h = refl
find_record_index-none k (x ∷ rs) h = ground (arith, find_record_index-none k rs)
