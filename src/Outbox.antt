-- ===== src/Outbox.antt =====
-- The outbox of finished bundles in the extension: the items and the retry of quarantined ones
-- (extension/src/attemptStorage.ts). Plan has what a request's result does to them
-- (extension/src/outboxDrain.ts), Send the request of extension/src/captureTransport.ts, Drain the
-- loop over the outbox. Records that are malformed are copied along and left out here.
pub mod Plan
pub mod Stored
pub mod Send
pub mod Drain
pub mod Keeps
pub mod Paced
pub mod Delivery
pub mod Empties
mod Scenarios
use ai_coding_training_platf.Common.{
  Bool, true, false, not, ◌||◌, if◌then◌else◌, Option, none, some, List, [], ◌∷◌, ◌++◌, map, ℕ, ◌+◌,
  ◌-◌, ◌*◌, ◌^◌, leb, ltb, Text, units, eq_text, filter_by, find_by, length,
}
use ai_coding_training_platf.Domain.{AttemptResult}
use ai_coding_training_platf.Reducer.{CaptureAttemptBundle}

abbrev pub max_retry_attempts : ℕ
max_retry_attempts = 3

abbrev pub ack_retry_base_ms : ℕ
ack_retry_base_ms = 30000

abbrev pub ack_retry_max_ms : ℕ
ack_retry_max_ms = 120000

pub record CaptureOutboxItem : Type 0 where
  pub id : Text
  pub bundle : CaptureAttemptBundle
  pub attempts : ℕ
  pub created_at : Text
  pub next_attempt_at : Option Text
  pub automatic_retry_blocked : Option Bool

pub record CaptureQuarantineItem : Type 0 where
  pub id : Text
  pub item : CaptureOutboxItem
  pub error : Text
  pub quarantined_at : Text

pub record CaptureOutboxState : Type 0 where
  pub outbox : List CaptureOutboxItem
  pub quarantine : List CaptureQuarantineItem

pub record CaptureAttemptAck : Type 0 where
  pub bundle_id : Text
  pub capture_session_id : Text
  pub attempt_id : Text
  pub attempt_status : AttemptResult
  pub replayed : Bool

pub data HttpStatus : Type 0 where
  bad_request unauthorized forbidden conflict payload_too_large unsupported_media : HttpStatus
  server_error : HttpStatus

pub data CaptureAttemptFlushResult : Type 0 where
  delivered : CaptureAttemptAck → CaptureAttemptFlushResult
  ack_error : Text → CaptureAttemptFlushResult
  endpoint_error : CaptureAttemptFlushResult
  http_error : HttpStatus → Text → CaptureAttemptFlushResult
  network_error : Text → CaptureAttemptFlushResult

-- An absent field is none, an absent flag false.
pub record CaptureOutboxPlan : Type 0 where
  pub state : CaptureOutboxState
  pub last_capture_error : Option Text
  pub clear_last_capture_error : Bool
  pub last_successful_capture_at : Option Text
  pub last_delivered_attempt_id : Option Text
  pub last_delivered_attempt_status : Option AttemptResult

-- The plan `state` itself.
unfoldable pub keep_state : CaptureOutboxState → CaptureOutboxPlan
keep_state s = record {
  state = s;
  last_capture_error = none;
  clear_last_capture_error = false;
  last_successful_capture_at = none;
  last_delivered_attempt_id = none;
  last_delivered_attempt_status = none;
}

abbrev pub reset_item : CaptureOutboxItem → CaptureOutboxItem
reset_item i = record i { attempts = 0; next_attempt_at = none; automatic_retry_blocked = none }

unfoldable pub retry_quarantined : CaptureOutboxState → Text → CaptureOutboxState
retry_quarantined s id = elim (find_by (λ q. eq_text q.id id) s.quarantine) [
  | none ↦ s
  | some q ↦ record {
    outbox = s.outbox ++ reset_item q.item ∷ [];
    quarantine = filter_by (λ e. not (eq_text e.id id)) s.quarantine;
  }
]

-- The quarantine and `deletedCount`, which is a difference of lengths.
unfoldable pub delete_quarantined :
    List CaptureQuarantineItem → Text → List CaptureQuarantineItem × ℕ
delete_quarantined quarantine id =
    let rest = filter_by (λ e. not (eq_text e.id id)) quarantine in
    (rest, length quarantine - length rest)

unfoldable pub retry_all : CaptureOutboxState → CaptureOutboxState
retry_all s = record {
  outbox = map reset_item s.outbox ++ map (λ q. reset_item q.item) s.quarantine;
  quarantine = [];
}
