-- ===== src/Reducer/Growth.antt =====
-- How the records and the effects of a reduction grow.
use ai_coding_training_platf.Common.{
  Bool, true, false, ◌||◌, Option, none, some, List, [], ◌∷◌, ◌++◌, ℕ, ◌+◌, ◌≡◌, refl, ◌∙◌, Text,
  eq_text, eq_text_iff, arith, Each, ◌⊎◌, inl, inr, Bool-cases, if◌then◌else◌, ◌≤◌, subst,
}
use ai_coding_training_platf.Reducer.{
  CaptureEffect, bundle, rejected_effect, ambiguous_effect, ignored_effect, CaptureSubmissionRecord,
  CaptureAttemptBundle, Runtime,
}
use ai_coding_training_platf.Reducer.Evidence.{is_finalized}

-- A bundle that is there stays.
abbrev pub KeepsBundle : Option CaptureAttemptBundle → Option CaptureAttemptBundle → Type 0
KeepsBundle none y = Unit
KeepsBundle (some b) y = y ≡ some b

abbrev pub Grows : CaptureSubmissionRecord → CaptureSubmissionRecord → Type 0
Grows x y = (y.submission_key ≡ x.submission_key) × KeepsBundle x.bundle y.bundle

-- `ys` holds the records of `xs`, each grown, and perhaps more behind them.
abbrev pub Evolves : List CaptureSubmissionRecord → List CaptureSubmissionRecord → Type 0
Evolves [] ys = Unit
Evolves (x ∷ xs) [] = ⊥
Evolves (x ∷ xs) (y ∷ ys) = Grows x y × Evolves xs ys

abbrev pub tally : Bool → ℕ
tally true = 1
tally false = 0

abbrev pub count_bundle : (CaptureAttemptBundle → Bool) → Option CaptureAttemptBundle → ℕ
count_bundle p none = 0
count_bundle p (some b) = tally (p b)

-- How many records have a bundle of which `p` holds.
abbrev pub bundled : (CaptureAttemptBundle → Bool) → List CaptureSubmissionRecord → ℕ
bundled p [] = 0
bundled p (r ∷ rs) = count_bundle p r.bundle + bundled p rs

-- How many effects are bundles of which `p` holds.
abbrev pub emitted : (CaptureAttemptBundle → Bool) → List CaptureEffect → ℕ
emitted p [] = 0
emitted p (bundle b t ∷ es) = tally (p b) + emitted p es
emitted p (rejected_effect _ _ _ ∷ es) = emitted p es
emitted p (ambiguous_effect _ _ _ ∷ es) = emitted p es
emitted p (ignored_effect _ _ ∷ es) = emitted p es

-- A record with a bundle is finalized.
abbrev pub BundleIsFinal : CaptureSubmissionRecord → Type 0
BundleIsFinal r = elim r.bundle [ none ↦ Unit | some b ↦ is_finalized r.status ≡ true ]

abbrev pub has_key : Text → List CaptureSubmissionRecord → Bool
has_key k [] = false
has_key k (r ∷ rs) = eq_text r.submission_key k || has_key k rs

abbrev pub KeysDiffer : List CaptureSubmissionRecord → Type 0
KeysDiffer [] = Unit
KeysDiffer (r ∷ rs) = (has_key r.submission_key rs ≡ false) × KeysDiffer rs

-- The bundle of the record of a key.
abbrev pub keyed_bundle : Text → List CaptureSubmissionRecord → Option CaptureAttemptBundle
keyed_bundle k [] = none
keyed_bundle k (r ∷ rs) = if eq_text r.submission_key k then r.bundle else keyed_bundle k rs

-- No record of another key has a bundle that passes the test.
abbrev pub IsOwned : Text → (CaptureAttemptBundle → Bool) → List CaptureSubmissionRecord → Type 0
IsOwned k p = Each (λ r. (eq_text r.submission_key k ≡ true) ⊎ (count_bundle p r.bundle ≡ 0))

-- What holds of the records between two inputs.
pub record IsSound (rs : List CaptureSubmissionRecord) : Type 0 where
  pub final : Each BundleIsFinal rs
  pub keys : KeysDiffer rs

-- What a part of a reduction does to a runtime: for each test of bundles, as many that pass it are
-- emitted as records gain.
pub record Advances (rt rt' : Runtime) : Type 0 where
  pub evolves : Evolves rt.records rt'.records
  pub sound : IsSound rt'.records
  pub counted :
      (p : CaptureAttemptBundle → Bool)
      → bundled p rt'.records + emitted p rt.effects ≡ bundled p rt.records + emitted p rt'.effects

pub KeepsBundle-refl : (o : Option CaptureAttemptBundle) → KeepsBundle o o
KeepsBundle-refl none = tt
KeepsBundle-refl (some b) = refl

KeepsBundle-trans :
    (o p q : Option CaptureAttemptBundle) → KeepsBundle o p → KeepsBundle p q → KeepsBundle o q
KeepsBundle-trans none p q h k = tt
KeepsBundle-trans (some b) p q h k = ground arith

pub Evolves-refl : (xs : List CaptureSubmissionRecord) → Evolves xs xs
Evolves-refl [] = tt
Evolves-refl (x ∷ xs) = ((refl, KeepsBundle-refl x.bundle), Evolves-refl xs)

pub Evolves-trans :
    (xs ys zs : List CaptureSubmissionRecord) → Evolves xs ys → Evolves ys zs → Evolves xs zs
Evolves-trans [] ys zs h k = tt
Evolves-trans (x ∷ xs) [] zs h k = absurd h
Evolves-trans (x ∷ xs) (y ∷ ys) [] h k = absurd k
Evolves-trans (x ∷ xs) (y ∷ ys) (z ∷ zs) h k = (
  (k.0.0 ∙ h.0.0, KeepsBundle-trans x.bundle y.bundle z.bundle h.0.1 k.0.1),
  Evolves-trans xs ys zs h.1 k.1,
)

pub Evolves-append : (xs ys : List CaptureSubmissionRecord) → Evolves xs (xs ++ ys)
Evolves-append [] ys = tt
Evolves-append (x ∷ xs) ys = ((refl, KeepsBundle-refl x.bundle), Evolves-append xs ys)

pub bundled-append :
    (p : CaptureAttemptBundle → Bool) (xs ys : List CaptureSubmissionRecord)
    → bundled p (xs ++ ys) ≡ bundled p xs + bundled p ys
bundled-append p [] ys = omega arith
bundled-append p (x ∷ xs) ys = omega (arith, bundled-append p xs ys)

pub emitted-append :
    (p : CaptureAttemptBundle → Bool) (xs ys : List CaptureEffect)
    → emitted p (xs ++ ys) ≡ emitted p xs + emitted p ys
emitted-append p [] ys = omega arith
emitted-append p (bundle b t ∷ xs) ys = omega (arith, emitted-append p xs ys)
emitted-append p (rejected_effect _ _ _ ∷ xs) ys = omega (arith, emitted-append p xs ys)
emitted-append p (ambiguous_effect _ _ _ ∷ xs) ys = omega (arith, emitted-append p xs ys)
emitted-append p (ignored_effect _ _ ∷ xs) ys = omega (arith, emitted-append p xs ys)

bundled-absent :
    (k : Text) (p : CaptureAttemptBundle → Bool) (rs : List CaptureSubmissionRecord)
    → has_key k rs ≡ false
    → IsOwned k p rs
    → bundled p rs ≡ 0
bundled-absent k p [] h owned = refl
bundled-absent k p (r ∷ rs) h owned = elim owned.0 [
  | inl same ↦ absurd (ground (arith, same))
  | inr silent ↦ ground (arith, silent, bundled-absent k p rs (ground arith) owned.1)
]

-- Where keys differ, a test that only the bundle of one key may pass counts that bundle.
pub bundled-IsOwned :
    (k : Text) (p : CaptureAttemptBundle → Bool) (rs : List CaptureSubmissionRecord)
    → KeysDiffer rs
    → IsOwned k p rs
    → bundled p rs ≡ count_bundle p (keyed_bundle k rs)
bundled-IsOwned k p [] keys owned = refl
bundled-IsOwned k p (r ∷ rs) keys owned = elim (Bool-cases (eq_text r.submission_key k)) [
  | inl same ↦
      let absent : has_key k rs ≡ false =
        subst (λ t. has_key t rs ≡ false) ((eq_text_iff r.submission_key k).0 same) keys.0 in
      rw same (omega (arith, bundled-absent k p rs absent owned.1))
  | inr other ↦ elim owned.0 [
    | inl same ↦ absurd (ground (arith, same, other))
    | inr silent ↦ rw (other, silent) (omega (arith, bundled-IsOwned k p rs keys.1 owned.1))
  ]
]

pub count_bundle-most :
    (p : CaptureAttemptBundle → Bool) (o : Option CaptureAttemptBundle) → count_bundle p o ≤ 1
count_bundle-most p none = omega arith
count_bundle-most p (some b) = elim (Bool-cases (p b)) [
  | inl e ↦ rw e (omega arith)
  | inr e ↦ rw e (omega arith)
]
