-- ===== src/Outbox/Scenarios.antt =====
-- An outbox of two bundles and a server, over which the theorems of Outbox are applied.
use ai_coding_training_platf.Common.{
  Bool, true, false, not, none, List, [], ◌∷◌, ◌++◌, ℕ, ◌≤◌, Text, units, eq_text, eq_text_refl,
  any_of, ◌≡◌, ◌⊎◌, ◌↔◌, refl, arith, filter_by, find_by, map,
}
use ai_coding_training_platf.Common.Maps.{has}
use ai_coding_training_platf.Domain.{passed, leetcode, extension_paired, pagehide}
use ai_coding_training_platf.Domain.Event.{Base, submission_confirmed}
use ai_coding_training_platf.Reducer.{CaptureAttemptBundle}
use ai_coding_training_platf.Outbox.{
  CaptureOutboxItem, CaptureOutboxState, CaptureAttemptAck, CaptureAttemptFlushResult, delivered,
  http_error, server_error, ack_error,
}
use ai_coding_training_platf.Outbox.Plan.{plan_outbox_after_flush}
use ai_coding_training_platf.Outbox.Send.{
  Network, Acknowledges, IsForeign, answered, acknowledged, post_capture_attempt_bundle,
}
use ai_coding_training_platf.Outbox.Drain.{OutboxDrainDependencies, empty, drain_capture_outbox}
use ai_coding_training_platf.Outbox.Keeps.{DrainLaws, Returns, drain_capture_outbox-Returns}
use ai_coding_training_platf.Outbox.Stored.{is_stored}
use ai_coding_training_platf.Outbox.Paced.{fresh, next, enqueue, flush, Paced, History-Paced}
use ai_coding_training_platf.Outbox.Delivery.{post-delivered_iff}
use ai_coding_training_platf.Outbox.Empties.{IsOnline, IsReady, drain_capture_outbox-empties}

abbrev base_of : Text → Base
base_of id = record {
  id = id;
  capture_session_id = units "cs1";
  installation_id = units "inst";
  adapter_version = units "1";
  parser_version = units "1";
  page_origin = units "https://leetcode.com";
  provenance_level = extension_paired;
  platform = leetcode;
  problem_external_id = units "two-sum";
  problem_title = units "Two Sum";
  canonical_url = units "https://leetcode.com/problems/two-sum";
  occurred_at = units "2026-03-01T12:00:00.000Z";
}

abbrev bundle_of : Text → CaptureAttemptBundle
bundle_of id = record {
  bundle_id = id;
  started = record { base = base_of (units "e1") };
  submitted = record {
    base = base_of (units "e2");
    submission_id = units "77";
    action = submission_confirmed;
  };
  verdict = record {
    base = base_of (units "e3");
    submission_id = units "77";
    verdict = units "Accepted";
    language = none;
    result = none;
  };
  ended = record { base = base_of (units "e4"); end_reason = pagehide };
}

abbrev item_of : Text → CaptureOutboxItem
item_of id = record {
  id = id;
  bundle = bundle_of id;
  attempts = 0;
  created_at = units "2026-03-01T12:00:00.000Z";
  next_attempt_at = none;
  automatic_retry_blocked = none;
}

abbrev ack_of : Text → CaptureAttemptAck
ack_of id = record {
  bundle_id = id;
  capture_session_id = units "cs1";
  attempt_id = units "attempt_77";
  attempt_status = passed;
  replayed = false;
}

-- The stored state and the ids that the server has acknowledged.
abbrev World : Type 0
World = CaptureOutboxState × List Text

abbrev noon : Text
noon = units "2026-03-01T12:00:00.000Z"

abbrev later : Text → ℕ → Text
later t ms = t ++ ms ∷ []

abbrev reply : Bool → CaptureOutboxItem → World → CaptureAttemptFlushResult × World
reply true i w = (delivered (ack_of i.id), (w.0, w.1 ++ i.id ∷ []))
reply false i w = (http_error server_error (units "HTTP 500"), w)

-- A server that acknowledges the ids of which `answers` holds and fails for the others.
abbrev server : (Text → Bool) → OutboxDrainDependencies World
server answers = record {
  read_state = λ w. w.0;
  send = λ i w. reply (answers i.id) i w;
  persist = λ p w. (p.state, w.1);
  now = λ w. noon;
}

abbrev Acked : Text → World → Type 0
Acked id w = has id w.1 ≡ true

has-last : (id : Text) (ids : List Text) → has id (ids ++ id ∷ []) ≡ true
unfolding has
has-last id [] = ground (arith, eq_text_refl id)
has-last id (k ∷ ids) = ground (arith, has-last id ids)

has-init : (id j : Text) (ids : List Text) → has id ids ≡ true → has id (ids ++ j ∷ []) ≡ true
unfolding has
has-init id j [] h = absurd (ground arith)
has-init id j (k ∷ ids) h = ground (arith, has-init id j ids)

reply_keeps :
    (b : Bool) (i : CaptureOutboxItem) (w : World) (id : Text)
    → is_stored id w.0 ≡ true
    → is_stored id (reply b i w).1.0 ≡ true
reply_keeps true i w id h = h
reply_keeps false i w id h = h

reply-Acked :
    (b : Bool) (i : CaptureOutboxItem) (w : World) (ack : CaptureAttemptAck)
    → (reply b i w).0 ≡ delivered ack
    → Acked i.id (reply b i w).1
reply-Acked true i w ack h = has-last i.id w.1
reply-Acked false i w ack h = absurd (ground arith)

Acked-reply :
    (b : Bool) (i : CaptureOutboxItem) (w : World) (id : Text)
    → Acked id w
    → Acked id (reply b i w).1
Acked-reply true i w id h = has-init id i.id w.1 h
Acked-reply false i w id h = h

server-DrainLaws : (answers : Text → Bool) → DrainLaws (server answers) Acked
server-DrainLaws answers = record {
  persist_keeps = λ p w id h. h;
  send_keeps = λ i w. reply_keeps (answers i.id) i w;
  send_acked = λ i w. reply-Acked (answers i.id) i w;
  Acked-send = λ i w. Acked-reply (answers i.id) i w;
  Acked-persist = λ p w id h. h;
}

abbrev answering : IsOnline (server (λ _. true))
answering = record {
  ack = λ i w. ack_of i.id;
  read-persist = λ p w. refl;
  send_acks = λ i w. refl;
  read-send = λ i w. refl;
  requests = λ w. w.1;
  requests-send = λ i w. refl;
  requests-persist = λ p w. refl;
}

abbrev start : World
start = (record { outbox = item_of (units "b1") ∷ item_of (units "b2") ∷ []; quarantine = [] }, [])

abbrev fails_second : Text → Bool
fails_second id = not (eq_text id (units "b2"))

-- The second request fails, which ends the drain with the item kept for a second attempt.
drain_stops :
    Returns
      (drain_capture_outbox later (server fails_second) 25 start)
      (λ _ n w. (n ≡ 2) × (map (λ i. i.attempts) w.0.outbox ≡ 1 ∷ []) × (w.1 ≡ units "b1" ∷ []))
unfolding drain_capture_outbox eq_text find_by filter_by
drain_stops = (refl, refl, refl)

start_stored : is_stored (units "b2") start.0 ≡ true
unfolding any_of eq_text
start_stored = refl

drain_capture_outbox-Returns_example :
    Returns
      (drain_capture_outbox later (server fails_second) 25 start)
      (λ _ n w. ((is_stored (units "b2") w.0 ≡ true) ⊎ Acked (units "b2") w) × (n ≤ 25))
drain_capture_outbox-Returns_example =
    drain_capture_outbox-Returns later (server fails_second) Acked (server-DrainLaws fails_second)
      (units "b2") 25 start (omega arith) start_stored

start-IsReady : IsReady start.0.outbox
unfolding any_of eq_text
start-IsReady = (refl, refl, refl, (refl, refl, refl, tt))

drain_capture_outbox-empties_example :
    Returns (drain_capture_outbox later (server (λ _. true)) 25 start) (λ reason n w.
      (reason ≡ empty)
      × (n ≡ 2)
      × (w.0.outbox ≡ [])
      × (w.0.quarantine ≡ [])
      × (w.1 ≡ units "b1" ∷ units "b2" ∷ []))
drain_capture_outbox-empties_example =
    drain_capture_outbox-empties later (server (λ _. true)) answering 25 start (omega arith)
      start-IsReady (omega arith)

-- A new bundle whose acknowledgement is wrong three times.
abbrev flushed : CaptureOutboxState → CaptureOutboxState
flushed s = (plan_outbox_after_flush later s (item_of (units "b1")) (ack_error []) noon).state

abbrev one_item : CaptureOutboxState
one_item = record { outbox = item_of (units "b1") ∷ []; quarantine = [] }

History-Paced_example : Paced (flushed (flushed (flushed one_item))).outbox
History-Paced_example = History-Paced later (
    next
      (next
        (next (next fresh (enqueue (item_of (units "b1")) refl))
          (flush (item_of (units "b1")) (ack_error []) noon))
        (flush (item_of (units "b1")) (ack_error []) noon))
      (flush (item_of (units "b1")) (ack_error []) noon))

abbrev net : Network
net = record {
  parse_url = λ t. none;
  fetch = λ url headers b. answered true 200 (acknowledged (ack_of b.bundle_id));
  show = λ n. [];
}

post-delivered_iff_example :
    (post_capture_attempt_bundle net (bundle_of (units "b1")) none none
      ≡ delivered (ack_of (units "b1")))
    ↔ ((¬ IsForeign net none)
        × Acknowledges net (bundle_of (units "b1")) none (ack_of (units "b1")))
post-delivered_iff_example =
    post-delivered_iff net (bundle_of (units "b1")) none none (ack_of (units "b1"))
