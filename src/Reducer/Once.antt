-- ===== src/Reducer/Once.antt =====
-- The whole reducer over a sequence of inputs: `reduceCaptureState` of captureStateMachine.ts.
use ai_coding_training_platf.Common.{
  Bool, false, Option, ◌≤◌, none, some, List, [], ◌∷◌, ◌++◌, ℕ, ◌+◌, ◌≡◌, Text, arith, Option-cases,
  inl, inr,
}
use ai_coding_training_platf.Reducer.{
  CaptureAttemptBundle, CaptureReducerState, CaptureReducerMetadata, CaptureEffect, Runtime,
  missing_metadata, malformed_response,
}
use ai_coding_training_platf.Reducer.Context.{Host}
use ai_coding_training_platf.Reducer.Evidence.{handle_e1, handle_e2}
use ai_coding_training_platf.Reducer.Correlator.{
  Correlated, correlated_e2, handle_correlator_correlated,
}
use ai_coding_training_platf.Reducer.Reduce.{
  CaptureReducerInput, safe_evidence, correlator_correlated, correlator_ambiguous,
  correlator_no_match, correlator_rejected, materialize_state, runtime_of,
  create_capture_state_machine_state, dispatch, reduce_capture_state,
}
use ai_coding_training_platf.Reducer.Growth.{
  Advances, IsSound, Evolves, Evolves-refl, Evolves-trans, emitted, emitted-append, bundled,
  IsOwned, bundled-IsOwned, count_bundle, count_bundle-most, keyed_bundle,
}
use ai_coding_training_platf.Reducer.Progress.Effects.{
  Advances-quiet, Advances-trans, emit_rejected-IsQuiet, emit_ignored-IsQuiet,
}
use ai_coding_training_platf.Reducer.Progress.Requests.{
  handle_e1-IsQuiet, handle_correlator_ambiguous-IsQuiet, handle_correlator_no_match-IsQuiet,
  handle_correlator_rejected-IsQuiet,
}
use ai_coding_training_platf.Reducer.Progress.Submissions.{
  handle_e3-Advances, handle_safe_evidence-Advances,
}
use ai_coding_training_platf.Reducer.Progress.Confirmed.{handle_e2-Advances}

-- An input with the metadata and the clock that come with it.
pub record Arrival : Type 0 where
  pub input : CaptureReducerInput
  pub metadata : CaptureReducerMetadata
  pub clock : ℕ → Text

module _ (host : Host) where
  handle_correlator_correlated-Advances :
      (rt : Runtime) (c : Option Correlated)
      → IsSound rt.records
      → Advances rt (handle_correlator_correlated host rt c)
  unfolding handle_correlator_correlated
  handle_correlator_correlated-Advances rt none s =
      Advances-quiet rt _ (emit_ignored-IsQuiet missing_metadata rt) s
  handle_correlator_correlated-Advances rt (some c) s =
      let observed = handle_e1 rt c.matched_e1 in
      let first = Advances-quiet rt observed (handle_e1-IsQuiet rt c.matched_e1) s in
      elim (Option-cases (correlated_e2 host observed c)) [
        | inl n ↦
            rw (n, handle_correlator_correlated)
              (Advances-trans rt observed _ first (
                Advances-quiet observed _
                  (emit_rejected-IsQuiet malformed_response none false observed) first.sound))
        | inr (e2, n) ↦
            let confirmed = handle_e2 host observed e2 in
            let second =
              Advances-trans rt observed confirmed first
                (handle_e2-Advances host observed e2 first.sound) in
            elim (Option-cases c.e3) [
              | inl m ↦ rw (n, m, handle_correlator_correlated) second
              | inr (e3, m) ↦
                  rw (n, m, handle_correlator_correlated)
                    (Advances-trans rt confirmed _ second
                      (handle_e3-Advances host confirmed e3 second.sound))
            ]
      ]

  dispatch-Advances :
      (rt : Runtime) (x : CaptureReducerInput)
      → IsSound rt.records
      → Advances rt (dispatch host rt x)
  unfolding dispatch
  dispatch-Advances rt (safe_evidence e) s = handle_safe_evidence-Advances host rt e s
  dispatch-Advances rt (correlator_correlated c) s = handle_correlator_correlated-Advances rt c s
  dispatch-Advances rt (correlator_ambiguous reason key) s =
      Advances-quiet rt _ (handle_correlator_ambiguous-IsQuiet rt reason key) s
  dispatch-Advances rt (correlator_no_match reason id key) s =
      Advances-quiet rt _ (handle_correlator_no_match-IsQuiet rt reason id key) s
  dispatch-Advances rt (correlator_rejected reason id key) s =
      Advances-quiet rt _ (handle_correlator_rejected-IsQuiet rt reason id key) s

  -- The calls of `reduceCaptureState` for inputs that arrive one after another, and all effects.
  unfoldable pub reduce_all :
      CaptureReducerState → List Arrival → CaptureReducerState × List CaptureEffect
  reduce_all state [] = (state, [])
  reduce_all state (x ∷ xs) =
      let (next, effects) = reduce_capture_state host state x.input x.metadata x.clock in
      let (last, more) = reduce_all next xs in (last, effects ++ more)

  -- From sound records: they stay sound, each one stays with its bundle, and for each test of
  -- bundles, as many that pass it are emitted as records gain.
  pub record Progresses (before : CaptureReducerState)
      (after : CaptureReducerState × List CaptureEffect) : Type 0 where
    pub evolves : Evolves before.records after.0.records
    pub sound : IsSound after.0.records
    pub counted :
        (p : CaptureAttemptBundle → Bool)
        → bundled p after.0.records ≡ bundled p before.records + emitted p after.1

  reduce_capture_state-Progresses :
      (state : CaptureReducerState) (x : Arrival)
      → IsSound state.records
      → Progresses state (reduce_capture_state host state x.input x.metadata x.clock)
  unfolding reduce_capture_state materialize_state runtime_of
  reduce_capture_state-Progresses state x s =
      let a = dispatch-Advances (runtime_of state x.metadata x.clock) x.input s in
      record { evolves = a.evolves; sound = a.sound; counted = λ p. omega (arith, a.counted p) }

  Progresses-trans :
      (state : CaptureReducerState) (one two : CaptureReducerState × List CaptureEffect)
      → Progresses state one
      → Progresses one.0 two
      → Progresses state (two.0, one.1 ++ two.1)
  Progresses-trans state one two h k = record {
    evolves = Evolves-trans state.records one.0.records two.0.records h.evolves k.evolves;
    sound = k.sound;
    counted = λ p. omega (arith, h.counted p, k.counted p, emitted-append p one.1 two.1);
  }

  -- Over any sequence of inputs from a state whose records are sound, that is, whose keys differ
  -- and whose records with a bundle are finalized: the records stay sound, each keeps its place,
  -- key and bundle, and the bundles emitted are, by any test of bundles, as many as records gain.
  pub reduce_all-Progresses :
      (state : CaptureReducerState) (xs : List Arrival)
      → IsSound state.records
      → Progresses state (reduce_all state xs)
  unfolding reduce_all
  reduce_all-Progresses state [] s = record {
    evolves = Evolves-refl state.records;
    sound = s;
    counted = λ p. omega arith;
  }
  reduce_all-Progresses state (x ∷ xs) s =
      let next = reduce_capture_state host state x.input x.metadata x.clock in
      let first = reduce_capture_state-Progresses state x s in
      let rest = reduce_all-Progresses next.0 xs first.sound in
      Progresses-trans state next (reduce_all next.0 xs) first rest

  initial-IsSound : IsSound create_capture_state_machine_state.records
  unfolding create_capture_state_machine_state
  initial-IsSound = record { final = tt; keys = tt }

  -- Over any sequence of inputs from the initial state, and for a test of bundles that no record
  -- of another submission's key has a bundle to pass: the bundles emitted that pass it are the
  -- passing bundle of the one record of the key, so at most one.
  pub reduce_all-once :
      (xs : List Arrival) (k : Text) (p : CaptureAttemptBundle → Bool)
      → IsOwned k p (reduce_all create_capture_state_machine_state xs).0.records
      → let last = reduce_all create_capture_state_machine_state xs in
        (emitted p last.1 ≡ count_bundle p (keyed_bundle k last.0.records)) × (emitted p last.1 ≤ 1)
  unfolding create_capture_state_machine_state
  reduce_all-once xs k p owned =
      let after = reduce_all create_capture_state_machine_state xs in
      let moved = reduce_all-Progresses create_capture_state_machine_state xs initial-IsSound in
      let one = bundled-IsOwned k p after.0.records moved.sound.keys owned in
      (
        omega (arith, moved.counted p, one),
        omega (arith, moved.counted p, one, count_bundle-most p (keyed_bundle k after.0.records)),
      )
