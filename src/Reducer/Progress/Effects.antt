-- ===== src/Reducer/Progress/Effects.antt =====
-- What the parts of a reduction do to the records and the effects.
use ai_coding_training_platf.Common.{
  Bool, true, false, Option, none, [], ◌∷◌, ℕ, ◌+◌, ◌≡◌, refl, Text, arith, length,
}
use ai_coding_training_platf.Reducer.{
  bundle, rejected_effect, ambiguous_effect, ignored_effect, CaptureSubmissionRecord,
  CaptureAttemptBundle, Runtime, CorrelatorRejectionReason, CorrelatorAmbiguityReason,
  CaptureIgnoredReason,
}
use ai_coding_training_platf.Reducer.Bundle.{
  emit_bundle, emit_rejected, emit_ambiguous, emit_ignored, set,
}
use ai_coding_training_platf.Reducer.Progress.{At, set-Evolves, set-bundled, set-IsSound}
use ai_coding_training_platf.Reducer.Growth.{
  Advances, IsSound, Evolves-refl, Evolves-trans, emitted, emitted-append, BundleIsFinal,
  count_bundle, tally,
}

-- The records stay and no bundle is emitted.
pub record IsQuiet (rt rt' : Runtime) : Type 0 where
  pub records : rt'.records ≡ rt.records
  pub effects : (p : CaptureAttemptBundle → Bool) → emitted p rt'.effects ≡ emitted p rt.effects

pub Advances-quiet : (rt rt' : Runtime) → IsQuiet rt rt' → IsSound rt.records → Advances rt rt'
Advances-quiet rt rt' q s = record {
  evolves = rw q.records (Evolves-refl rt.records);
  sound = rw q.records s;
  counted = λ p. rw (q.records, q.effects p) refl;
}

pub Advances-trans : (rt u v : Runtime) → Advances rt u → Advances u v → Advances rt v
Advances-trans rt u v a b = record {
  evolves = Evolves-trans rt.records u.records v.records a.evolves b.evolves;
  sound = b.sound;
  counted = λ p. omega (arith, a.counted p, b.counted p);
}

pub emit_rejected-IsQuiet :
    (reason : CorrelatorRejectionReason) (key : Option Text) (keep : Bool) (rt : Runtime)
    → IsQuiet rt (emit_rejected reason key keep rt)
unfolding emit_rejected
emit_rejected-IsQuiet reason key true rt = record {
  records = refl;
  effects = λ p. ground (
    arith,
    emitted-append p rt.effects (rejected_effect reason key (rt.clock (length rt.effects)) ∷ []),
  );
}
emit_rejected-IsQuiet reason key false rt = record {
  records = refl;
  effects = λ p. ground (
    arith,
    emitted-append p rt.effects (rejected_effect reason key (rt.clock (length rt.effects)) ∷ []),
  );
}

pub emit_ambiguous-IsQuiet :
    (reason : CorrelatorAmbiguityReason) (key : Option Text) (rt : Runtime)
    → IsQuiet rt (emit_ambiguous reason key rt)
unfolding emit_ambiguous
emit_ambiguous-IsQuiet reason key rt = record {
  records = refl;
  effects = λ p. ground (
    arith,
    emitted-append p rt.effects (ambiguous_effect reason key (rt.clock (length rt.effects)) ∷ []),
  );
}

pub emit_ignored-IsQuiet :
    (reason : CaptureIgnoredReason) (rt : Runtime) → IsQuiet rt (emit_ignored reason rt)
unfolding emit_ignored
emit_ignored-IsQuiet reason rt = record {
  records = refl;
  effects = λ p. ground (
    arith,
    emitted-append p rt.effects (ignored_effect reason (rt.clock (length rt.effects)) ∷ []),
  );
}

pub emit_bundle-effects :
    (b : CaptureAttemptBundle) (rt : Runtime)
    → ((emit_bundle b rt).records ≡ rt.records)
      × ((p : CaptureAttemptBundle → Bool)
          → emitted p (emit_bundle b rt).effects ≡ tally (p b) + emitted p rt.effects)
unfolding emit_bundle
emit_bundle-effects b rt = (
  refl,
  λ p. ground (arith, emitted-append p rt.effects (bundle b (rt.clock (length rt.effects)) ∷ [])),
)

-- A record without a bundle that is put in the place of itself, with no bundle emitted.
pub Advances-set :
    (rt rt' : Runtime) {i : ℕ} {r : CaptureSubmissionRecord} (r' : CaptureSubmissionRecord)
    → At r i rt.records
    → r.bundle ≡ none
    → r'.submission_key ≡ r.submission_key
    → BundleIsFinal r'
    → rt'.records ≡ set rt.records i r'
    → ((p : CaptureAttemptBundle → Bool)
        → emitted p rt'.effects ≡ count_bundle p r'.bundle + emitted p rt.effects)
    → IsSound rt.records
    → Advances rt rt'
Advances-set rt rt' {i} {r} r' h n k f e q s = record {
  evolves = rw e (set-Evolves r' h (k, rw n tt));
  sound = rw e (set-IsSound r' h k f s);
  counted = λ p. rw e (ground (arith, q p, set-bundled p r' h));
}
