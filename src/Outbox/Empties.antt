-- ===== src/Outbox/Empties.antt =====
-- A drain while the server acknowledges every bundle.
use ai_coding_training_platf.Common.{
  sym, false, none, List, [], ◌∷◌, ◌++◌, map, ℕ, zero, suc, ◌+◌, ◌≤◌, ◌<◌, Text, eq_text_refl,
  filter_by, find_by, any_of, length, ◌≡◌, ◌∙◌, ap, refl, arith,
}
use mathlib.Core.List.{append-nil, append_assoc}
use ai_coding_training_platf.Outbox.{
  CaptureOutboxItem, CaptureOutboxState, CaptureAttemptAck, delivered, CaptureOutboxPlan,
}
use ai_coding_training_platf.Outbox.Plan.{
  without_item, delivered_plan, plan_current, plan_outbox_after_flush,
}
use ai_coding_training_platf.Outbox.Drain.{
  OutboxDrainDependencies, empty, is_waiting, stop_reason, drain_loop, drain_capture_outbox,
  flush_item, final_reason,
}
use ai_coding_training_platf.Outbox.Keeps.{Returns, Returns-weaken}
use ai_coding_training_platf.Outbox.Stored.{in_outbox}

-- No two items have one id, and none has to wait for an automatic retry.
abbrev pub IsReady : List CaptureOutboxItem → Type 0
IsReady [] = Unit
IsReady (x ∷ xs) =
    (in_outbox x.id xs ≡ false)
    × (x.next_attempt_at ≡ none)
    × (x.automatic_retry_blocked ≡ none)
    × IsReady xs

-- A server that acknowledges every bundle, while nothing else changes the outbox. `requests` has
-- the ids of the items that were sent, in the order of the requests.
pub record IsOnline {World : Type 0} (deps : OutboxDrainDependencies World) : Type 0 where
  pub ack : CaptureOutboxItem → World → CaptureAttemptAck
  pub read-persist :
      (p : CaptureOutboxPlan) (w : World) → deps.read_state (deps.persist p w) ≡ p.state
  pub send_acks : (i : CaptureOutboxItem) (w : World) → (deps.send i w).0 ≡ delivered (ack i w)
  pub read-send :
      (i : CaptureOutboxItem) (w : World) → deps.read_state (deps.send i w).1 ≡ deps.read_state w
  pub requests : World → List Text
  pub requests-send :
      (i : CaptureOutboxItem) (w : World) → requests (deps.send i w).1 ≡ requests w ++ i.id ∷ []
  pub requests-persist :
      (p : CaptureOutboxPlan) (w : World) → requests (deps.persist p w) ≡ requests w

ready :
    (x : CaptureOutboxItem) (now : Text)
    → x.next_attempt_at ≡ none
    → x.automatic_retry_blocked ≡ none
    → is_waiting x now ≡ false
unfolding is_waiting
ready x now h k = ground arith

stop_reason-delivered :
    (x : CaptureOutboxItem) (ack : CaptureAttemptAck) → stop_reason x (delivered ack) ≡ none
unfolding stop_reason
stop_reason-delivered x ack = refl

without_item-absent :
    (id : Text) (xs : List CaptureOutboxItem) → in_outbox id xs ≡ false → without_item id xs ≡ xs
unfolding without_item filter_by any_of
without_item-absent id [] h = refl
without_item-absent id (x ∷ xs) h = ground (arith, without_item-absent id xs)

without_item-head :
    (x : CaptureOutboxItem) (xs : List CaptureOutboxItem)
    → in_outbox x.id xs ≡ false
    → without_item x.id (x ∷ xs) ≡ xs
without_item-head x xs h =
    let step : without_item x.id (x ∷ xs) ≡ without_item x.id xs =
      unfold without_item filter_by in rw (eq_text_refl x.id) refl in
    step ∙ without_item-absent x.id xs h

module _ (later : Text → ℕ → Text) where
  plan-head :
      (s : CaptureOutboxState) (x : CaptureOutboxItem) (xs : List CaptureOutboxItem)
      (ack : CaptureAttemptAck) (now : Text)
      → s.outbox ≡ x ∷ xs
      → in_outbox x.id xs ≡ false
      → ((plan_outbox_after_flush later s x (delivered ack) now).state.outbox ≡ xs)
        × ((plan_outbox_after_flush later s x (delivered ack) now).state.quarantine ≡ s.quarantine)
  unfolding plan_outbox_after_flush plan_current delivered_plan find_by
  plan-head s x xs ack now e fresh = (
    ground (arith, eq_text_refl x.id, without_item-head x xs fresh),
    ground (arith, eq_text_refl x.id),
  )

  module _ {World : Type 0} (deps : OutboxDrainDependencies World) (online : IsOnline deps) where
    flush-head :
        (w : World) (x : CaptureOutboxItem) (xs : List CaptureOutboxItem)
        → (deps.read_state w).outbox ≡ x ∷ xs
        → in_outbox x.id xs ≡ false
        → ((deps.read_state (flush_item later deps x w).1).outbox ≡ xs)
          × ((deps.read_state (flush_item later deps x w).1).quarantine
              ≡ (deps.read_state w).quarantine)
          × ((flush_item later deps x w).0 ≡ delivered (online.ack x w))
          × (online.requests (flush_item later deps x w).1 ≡ online.requests w ++ x.id ∷ [])
    unfolding flush_item
    flush-head w x xs e fresh =
        let w' = (deps.send x w).1 in
        let h =
          plan-head (deps.read_state w') x xs (online.ack x w) (deps.now w')
            (ap (λ s. s.outbox) (online.read-send x w) ∙ e) fresh in
        rw (online.read-persist _ w', online.requests-persist _ w', online.send_acks x w)
          (h.0, h.1 ∙ ap (λ s. s.quarantine) (online.read-send x w), refl, online.requests-send x w)

    drain_loop-empties :
        (xs : List CaptureOutboxItem) (left n : ℕ) (w : World)
        → (deps.read_state w).outbox ≡ xs
        → IsReady xs
        → length xs ≤ left
        → Returns (drain_loop later deps left n w) (λ reason m v.
          (reason ≡ empty)
          × (m ≡ n + length xs)
          × ((deps.read_state v).outbox ≡ [])
          × ((deps.read_state v).quarantine ≡ (deps.read_state w).quarantine)
          × (online.requests v ≡ online.requests w ++ map (λ i. i.id) xs))
    unfolding drain_loop final_reason
    drain_loop-empties [] zero n w e r h =
        rw (e, drain_loop) (refl, omega arith, refl, refl, sym (append-nil _))
    drain_loop-empties [] (suc left) n w e r h =
        rw (e, drain_loop) (refl, omega arith, e, refl, sym (append-nil _))
    drain_loop-empties (x ∷ xs) zero n w e r h = absurd (omega arith)
    drain_loop-empties (x ∷ xs) (suc left) n w e r h =
        let next = flush-head w x xs e r.0 in
        let goes_on : stop_reason x (flush_item later deps x w).0 ≡ none =
          rw next.2 (stop_reason-delivered x (online.ack x w)) in
        rw (e, ready x (deps.now w) r.1 r.2, goes_on, drain_loop)
          (Returns-weaken (drain_loop later deps left (n + 1) (flush_item later deps x w).1)
            (λ reason m v k. (
              k.0,
              omega (arith, k.1),
              k.2,
              k.3 ∙ next.1,
              k.4
                  ∙ ap (λ l. l ++ map (λ i. i.id) xs) next.3
                  ∙ append_assoc (online.requests w) (x.id ∷ []) (map (λ i. i.id) xs),
            ))
            (drain_loop-empties xs left (n + 1) _ next.0 r.3 (omega (arith, h))))

    -- A drain over ready items, with a batch that is large enough, while every request is
    -- acknowledged, plans are stored as they are and nothing else changes the outbox, sends each of
    -- them once, in their order, and leaves the outbox empty and the quarantine as it was.
    pub drain_capture_outbox-empties :
        (batch : ℕ) (w : World)
        → 0 < batch
        → IsReady (deps.read_state w).outbox
        → length (deps.read_state w).outbox ≤ batch
        → Returns (drain_capture_outbox later deps batch w) (λ reason m v.
          (reason ≡ empty)
          × (m ≡ length (deps.read_state w).outbox)
          × ((deps.read_state v).outbox ≡ [])
          × ((deps.read_state v).quarantine ≡ (deps.read_state w).quarantine)
          × (online.requests v ≡ online.requests w ++ map (λ i. i.id) (deps.read_state w).outbox))
    unfolding drain_capture_outbox
    drain_capture_outbox-empties zero w b r h = absurd (omega arith)
    drain_capture_outbox-empties (suc batch) w b r h =
        Returns-weaken (drain_loop later deps (suc batch) 0 w)
          (λ reason m v k. (k.0, omega (arith, k.1), k.2, k.3, k.4))
          (drain_loop-empties _ (suc batch) 0 w refl r h)
