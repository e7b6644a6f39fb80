-- ===== src/Outbox/Keeps.antt =====
-- A drain of the outbox: it returns, and no stored id is lost unless the server acknowledged it.
use ai_coding_training_platf.Common.{
  true, ℕ, suc, zero, ◌+◌, Text, ◌≡◌, ◌⊎◌, inl, inr, arith, Bool-cases, Option-cases, List-cases,
  subst, ◌≤◌, ◌<◌,
}
use ai_coding_training_platf.Outbox.{
  CaptureOutboxItem, CaptureAttemptAck, delivered, CaptureOutboxPlan,
}
use ai_coding_training_platf.Outbox.Drain.{
  OutboxDrainDependencies, DrainReason, Drained, range_error, drained, is_waiting, stop_reason,
  drain_loop, drain_capture_outbox, flush_item,
}
use ai_coding_training_platf.Outbox.Stored.{is_stored, plan_outbox_after_flush-keeps}

-- What the loop relies on: the ids of a plan are stored (its records may be sanitized), and while a
-- request is sent no other code drops a stored id. `Acked id w` says that the server has
-- acknowledged the bundle of the id before `w`.
pub record DrainLaws {World : Type 0} (deps : OutboxDrainDependencies World)
    (Acked : Text → World → Type 0) : Type 0 where
  pub persist_keeps :
      (p : CaptureOutboxPlan) (w : World) (id : Text)
      → is_stored id p.state ≡ true
      → is_stored id (deps.read_state (deps.persist p w)) ≡ true
  pub send_keeps :
      (i : CaptureOutboxItem) (w : World) (id : Text)
      → is_stored id (deps.read_state w) ≡ true
      → is_stored id (deps.read_state (deps.send i w).1) ≡ true
  pub send_acked :
      (i : CaptureOutboxItem) (w : World) (ack : CaptureAttemptAck)
      → (deps.send i w).0 ≡ delivered ack
      → Acked i.id (deps.send i w).1
  pub Acked-send :
      (i : CaptureOutboxItem) (w : World) (id : Text) → Acked id w → Acked id (deps.send i w).1
  pub Acked-persist :
      (p : CaptureOutboxPlan) (w : World) (id : Text) → Acked id w → Acked id (deps.persist p w)

-- The world that a drain leaves, its count and its reason satisfy `P`; it is not refused.
abbrev pub Returns : {World : Type 0} → Drained World → (DrainReason → ℕ → World → Type 0) → Type 0
Returns range_error P = ⊥
Returns (drained reason n w) P = P reason n w

pub Returns-weaken :
    {World : Type 0} {P Q : DrainReason → ℕ → World → Type 0} (d : Drained World)
    → ((reason : DrainReason) (n : ℕ) (w : World) → P reason n w → Q reason n w)
    → Returns d P
    → Returns d Q
Returns-weaken range_error f h = h
Returns-weaken (drained reason n w) f h = f reason n w h

module _ (later : Text → ℕ → Text) {World : Type 0} (deps : OutboxDrainDependencies World)
    (Acked : Text → World → Type 0) (laws : DrainLaws deps Acked) (id : Text) where
  abbrev Safe : World → Type 0
  Safe w = (is_stored id (deps.read_state w) ≡ true) ⊎ Acked id w

  flush_item-Safe :
      (i : CaptureOutboxItem) (w : World) → Safe w → Safe (flush_item later deps i w).1
  unfolding flush_item
  flush_item-Safe i w (inr a) = inr (laws.Acked-persist _ _ id (laws.Acked-send i w id a))
  flush_item-Safe i w (inl h) =
      let w' = (deps.send i w).1 in
      elim (plan_outbox_after_flush-keeps later (deps.read_state w') i id (deps.send i w).0
        (deps.now w') (laws.send_keeps i w id h)) [
          | inl k ↦ inl (laws.persist_keeps _ w' id k)
          | inr (ack, e, same) ↦ inr (
              laws.Acked-persist _ w' id (subst (λ t. Acked t w') same (laws.send_acked i w ack e)))
        ]

  drain_loop-Safe :
      (left n : ℕ) (w : World)
      → Safe w
      → Returns (drain_loop later deps left n w) (λ _ m v. Safe v × (n ≤ m) × (m ≤ n + left))
  unfolding drain_loop
  drain_loop-Safe zero n w s = (s, omega arith, omega arith)
  drain_loop-Safe (suc left) n w s = elim (List-cases (deps.read_state w).outbox) [
    | inl e ↦ rw (e, drain_loop) (s, omega arith, omega arith)
    | inr (item, rest, e) ↦ elim (Bool-cases (is_waiting item (deps.now w))) [
      | inl b ↦ rw (e, b, drain_loop) (s, omega arith, omega arith)
      | inr b ↦
          let (result, w') = flush_item later deps item w in
          let kept = flush_item-Safe item w s in
          elim (Option-cases (stop_reason item (flush_item later deps item w).0)) [
            | inr (reason, r) ↦ rw (e, b, r, drain_loop) (kept, omega arith, omega arith)
            | inl r ↦
                rw (e, b, r, drain_loop)
                  (Returns-weaken
                    (drain_loop later deps left (n + 1) (flush_item later deps item w).1)
                    (λ reason m v h. (h.0, omega (arith, h.1), omega (arith, h.2)))
                    (drain_loop-Safe left (n + 1) _ kept))
          ]
    ]
  ]

  -- A drain of a batch of at least one item returns, and the count of its requests is at most the
  -- batch. If storing a plan keeps the plan's ids and no other code drops a stored id during a
  -- request, each id that was stored before it is stored after it or acknowledged by the server.
  pub drain_capture_outbox-Returns :
      (batch : ℕ) (w : World)
      → 0 < batch
      → is_stored id (deps.read_state w) ≡ true
      → Returns
          (drain_capture_outbox later deps batch w)
          (λ _ processed v. Safe v × (processed ≤ batch))
  unfolding drain_capture_outbox
  drain_capture_outbox-Returns zero w h s = absurd (omega arith)
  drain_capture_outbox-Returns (suc batch) w h s =
      Returns-weaken (drain_loop later deps (suc batch) 0 w) (λ _ m v k. (k.0, omega (arith, k.2)))
        (drain_loop-Safe (suc batch) 0 w (inl s))
