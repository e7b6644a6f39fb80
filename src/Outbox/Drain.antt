-- ===== src/Outbox/Drain.antt =====
-- `drainCaptureOutbox` of extension/src/outboxDrain.ts: the loop that sends the outbox, item by
-- item. `World` is all that the loop's dependencies read and change, the other code of the
-- extension and the time included; other code runs while a request is sent.
use ai_coding_training_platf.Common.{
  Bool, true, false, ◌||◌, if◌then◌else◌, Option, none, some, List, [], ◌∷◌, ℕ, suc, zero, ◌+◌, ltb,
  Text, lt_text,
}
use ai_coding_training_platf.Outbox.{
  CaptureOutboxItem, CaptureOutboxState, CaptureOutboxPlan, CaptureAttemptFlushResult, delivered,
  ack_error, endpoint_error, http_error, network_error, unauthorized, forbidden, server_error,
  max_retry_attempts,
}
use ai_coding_training_platf.Outbox.Plan.{plan_outbox_after_flush}

pub record OutboxDrainDependencies (World : Type 0) : Type 0 where
  pub read_state : World → CaptureOutboxState
  pub send : CaptureOutboxItem → World → CaptureAttemptFlushResult × World
  pub persist : CaptureOutboxPlan → World → World
  pub now : World → Text

pub data DrainReason : Type 0 where
  empty global_blocked deferred batch_limit : DrainReason

pub data Drained (World : Type 0) : Type 0 where
  range_error : Drained World
  drained : DrainReason → (processed : ℕ) → World → Drained World

abbrev is_flag : Option Bool → Bool
is_flag none = false
is_flag (some b) = b

abbrev is_later : Option Text → Text → Bool
is_later none now = false
is_later (some t) now = lt_text now t

-- Whether the item has to wait.
unfoldable pub is_waiting : CaptureOutboxItem → Text → Bool
is_waiting item now = is_flag item.automatic_retry_blocked || is_later item.next_attempt_at now

-- Why the loop ends after a result, if it does.
unfoldable pub stop_reason : CaptureOutboxItem → CaptureAttemptFlushResult → Option DrainReason
stop_reason item endpoint_error = some global_blocked
stop_reason item (network_error e) = some global_blocked
stop_reason item (http_error unauthorized e) = some global_blocked
stop_reason item (http_error forbidden e) = some global_blocked
stop_reason item (ack_error e) = some deferred
stop_reason item (http_error server_error e) =
    if ltb (item.attempts + 1) max_retry_attempts then some global_blocked else none
stop_reason item (http_error status e) = none
stop_reason item (delivered ack) = none

unfoldable pub final_reason : List CaptureOutboxItem → DrainReason
final_reason [] = empty
final_reason (_ ∷ _) = batch_limit

module _ (later : Text → ℕ → Text) {World : Type 0} (deps : OutboxDrainDependencies World) where
  -- The world after an item is sent and its result is stored, and the result.
  unfoldable pub flush_item : CaptureOutboxItem → World → CaptureAttemptFlushResult × World
  unfolding plan_outbox_after_flush
  flush_item item w =
      let (result, w') = deps.send item w in
      (
        result,
        deps.persist (plan_outbox_after_flush later (deps.read_state w') item result (deps.now w'))
            w',
      )

  -- The loop, over the number of rounds that the batch still allows.
  unfoldable pub drain_loop : ℕ → ℕ → World → Drained World
  unfolding is_waiting stop_reason final_reason flush_item
  drain_loop zero processed w = drained (final_reason (deps.read_state w).outbox) processed w
  drain_loop (suc left) processed w = elim (deps.read_state w).outbox [
    | [] ↦ drained empty processed w
    | item ∷ _ ↦ elim (is_waiting item (deps.now w)) [
      | true ↦ drained deferred processed w
      | false ↦ elim (stop_reason item (flush_item item w).0) [
        | some reason ↦ drained reason (processed + 1) (flush_item item w).1
        | none ↦ drain_loop left (processed + 1) (flush_item item w).1
      ]
    ]
  ]

  unfoldable pub drain_capture_outbox : ℕ → World → Drained World
  unfolding drain_loop
  drain_capture_outbox zero w = range_error
  drain_capture_outbox (suc batch) w = drain_loop (suc batch) 0 w
