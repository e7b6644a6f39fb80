-- ===== src/Outbox/Plan.antt =====
-- `planOutboxAfterFlush` of extension/src/outboxDrain.ts: what the result of a request does to the
-- outbox and the quarantine.
use ai_coding_training_platf.Common.{
  Bool, true, false, not, ◌||◌, if◌then◌else◌, none, some, List, [], ◌∷◌, ◌++◌, map, ℕ, ◌+◌, ◌-◌,
  ◌*◌, ◌^◌, leb, Text, units, eq_text, filter_by, find_by,
}
use ai_coding_training_platf.Outbox.{
  max_retry_attempts, ack_retry_base_ms, ack_retry_max_ms, CaptureOutboxItem, CaptureOutboxState,
  CaptureAttemptAck, HttpStatus, bad_request, unauthorized, forbidden, conflict, payload_too_large,
  unsupported_media, server_error, CaptureAttemptFlushResult, delivered, ack_error, endpoint_error,
  http_error, network_error, CaptureOutboxPlan, keep_state,
}

unfoldable pub status_text : HttpStatus → Text
status_text bad_request = units "400"
status_text unauthorized = units "401"
status_text forbidden = units "403"
status_text conflict = units "409"
status_text payload_too_large = units "413"
status_text unsupported_media = units "415"
status_text server_error = units "500"

unfoldable pub capture_flush_error : CaptureAttemptFlushResult → Text
unfolding status_text
capture_flush_error (delivered ack) = []
capture_flush_error endpoint_error = units "unsupported_capture_endpoint"
capture_flush_error (network_error e) = units "Network request failed"
capture_flush_error (ack_error e) = units "ACK mismatch: invalid response"
capture_flush_error (http_error status e) = units "HTTP " ++ status_text status

abbrev pub min : ℕ → ℕ → ℕ
min a b = if leb a b then a else b

-- `ACK_RETRY_BASE_MS * 2 ** max(0, attempts - 1)`, at most `ACK_RETRY_MAX_MS`
unfoldable pub retry_delay_ms : ℕ → ℕ
retry_delay_ms attempts = min (ack_retry_base_ms * 2 ^ (attempts - 1)) ack_retry_max_ms

-- `outbox.map` with a change to the items of one id
unfoldable pub update_items :
    Text → (CaptureOutboxItem → CaptureOutboxItem) → List CaptureOutboxItem → List CaptureOutboxItem
update_items id f = map (λ i. if eq_text i.id id then f i else i)

unfoldable pub with_attempts : ℕ → CaptureOutboxItem → CaptureOutboxItem
with_attempts attempts i = record i { attempts = attempts }

unfoldable pub without_item : Text → List CaptureOutboxItem → List CaptureOutboxItem
without_item id = filter_by (λ i. not (eq_text i.id id))

unfoldable pub delivered_plan :
    CaptureOutboxState → CaptureOutboxItem → CaptureAttemptAck → Text → CaptureOutboxPlan
unfolding without_item
delivered_plan s sent ack now = record {
  state = record s { outbox = without_item sent.id s.outbox };
  last_capture_error = none;
  clear_last_capture_error = true;
  last_successful_capture_at = some now;
  last_delivered_attempt_id = some ack.attempt_id;
  last_delivered_attempt_status = some ack.attempt_status;
}

unfoldable pub failed_plan : CaptureOutboxState → Text → CaptureOutboxPlan
unfolding keep_state
failed_plan s error = record (keep_state s) { last_capture_error = some error }

unfoldable pub isolated_plan :
    CaptureOutboxState → (sent current : CaptureOutboxItem) → Text → Text → CaptureOutboxPlan
unfolding without_item failed_plan
isolated_plan s sent current error now =
    failed_plan
      (record {
        outbox = without_item sent.id s.outbox;
        quarantine =
            s.quarantine
            ++ (record {
              id = sent.id;
              item = record current { attempts = current.attempts + 1 };
              error = error;
              quarantined_at = now;
            }
                ∷ []);
      })
      (units "Isolated result: " ++ error)

-- The end of `planOutboxAfterFlush`, for a status that is neither 401 nor 403.
unfoldable pub refused_plan :
    CaptureOutboxState → (sent current : CaptureOutboxItem) → Bool → Text → Text → CaptureOutboxPlan
unfolding isolated_plan update_items with_attempts failed_plan
refused_plan s sent current is_server_error error now =
    let attempts = current.attempts + 1 in
    if not is_server_error || leb max_retry_attempts attempts
    then isolated_plan s sent current error now
    else failed_plan
        (record s { outbox = update_items current.id (with_attempts attempts) s.outbox }) error

-- `later now ms` stands for `new Date(Date.parse(now) + ms).toISOString()`.
module _ (later : Text → ℕ → Text) where
  unfoldable pub postponed : Text → ℕ → CaptureOutboxItem → CaptureOutboxItem
  postponed now attempts i = record i {
    attempts = attempts;
    next_attempt_at = some (later now (retry_delay_ms attempts));
    automatic_retry_blocked = some (leb max_retry_attempts attempts);
  }

  unfoldable pub ack_retry_plan :
      CaptureOutboxState → CaptureOutboxItem → Text → Text → CaptureOutboxPlan
  unfolding update_items postponed failed_plan
  ack_retry_plan s current error now =
      let attempts = min (current.attempts + 1) max_retry_attempts in
      failed_plan (record s { outbox = update_items current.id (postponed now attempts) s.outbox })
        error

  -- `planOutboxAfterFlush` over the stored item of the sent one's id.
  unfoldable pub plan_current :
      CaptureOutboxState
      → (sent current : CaptureOutboxItem) → CaptureAttemptFlushResult
      → Text
      → CaptureOutboxPlan
  unfolding delivered_plan failed_plan ack_retry_plan refused_plan
  plan_current s sent current (delivered ack) now = delivered_plan s sent ack now
  plan_current s sent current endpoint_error now =
      failed_plan s (units "unsupported_capture_endpoint")
  plan_current s sent current (network_error e) now =
      failed_plan s (units "Network unavailable: " ++ capture_flush_error (network_error e))
  plan_current s sent current (ack_error e) now =
      ack_retry_plan s current (capture_flush_error (ack_error e)) now
  plan_current s sent current (http_error unauthorized e) now =
      failed_plan s
        (units "Capability rejected: " ++ capture_flush_error (http_error unauthorized e))
  plan_current s sent current (http_error forbidden e) now =
      failed_plan s (units "Origin rejected: " ++ capture_flush_error (http_error forbidden e))
  plan_current s sent current (http_error server_error e) now =
      refused_plan s sent current true (capture_flush_error (http_error server_error e)) now
  plan_current s sent current (http_error status e) now =
      refused_plan s sent current false (capture_flush_error (http_error status e)) now

  unfoldable pub plan_outbox_after_flush :
      CaptureOutboxState → CaptureOutboxItem → CaptureAttemptFlushResult → Text → CaptureOutboxPlan
  unfolding plan_current keep_state
  plan_outbox_after_flush s sent result now = elim (find_by (λ i. eq_text i.id sent.id) s.outbox) [
    | none ↦ keep_state s
    | some current ↦ plan_current s sent current result now
  ]
