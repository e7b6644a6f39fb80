-- ===== src/Outbox/Stored.antt =====
-- A plan after a request loses no stored id: the item stays, or goes into the quarantine.
use ai_coding_training_platf.Common.{
  Bool, true, false, ◌||◌, List, [], ◌∷◌, ◌++◌, ℕ, ◌+◌, Text, eq_text, eq_text_iff, any_of,
  filter_by, find_by, ◌≡◌, ◌⊎◌, inl, inr, refl, arith, Bool-cases, Option-cases,
}
use ai_coding_training_platf.Outbox.{
  CaptureOutboxItem, CaptureQuarantineItem, CaptureOutboxState, CaptureAttemptAck,
  CaptureAttemptFlushResult, delivered, ack_error, endpoint_error, http_error, network_error,
  bad_request, unauthorized, forbidden, conflict, payload_too_large, unsupported_media,
  server_error, keep_state, max_retry_attempts,
}
use ai_coding_training_platf.Outbox.Plan.{
  update_items, without_item, delivered_plan, failed_plan, isolated_plan, refused_plan,
  ack_retry_plan, plan_current, with_attempts, postponed, min, capture_flush_error,
  plan_outbox_after_flush,
}

abbrev pub in_outbox : Text → List CaptureOutboxItem → Bool
in_outbox id = any_of (λ i. eq_text i.id id)

abbrev pub in_quarantine : Text → List CaptureQuarantineItem → Bool
in_quarantine id = any_of (λ q. eq_text q.id id)

-- Whether the outbox or the quarantine holds a bundle of the id.
abbrev pub is_stored : Text → CaptureOutboxState → Bool
is_stored id s = in_outbox id s.outbox || in_quarantine id s.quarantine

in_outbox-without_item :
    (id gone : Text) (xs : List CaptureOutboxItem)
    → eq_text gone id ≡ false
    → in_outbox id (without_item gone xs) ≡ in_outbox id xs
unfolding any_of filter_by without_item
in_outbox-without_item id gone [] h = refl
in_outbox-without_item id gone (x ∷ xs) h =
    ground (arith, eq_text_iff x.id gone, in_outbox-without_item id gone xs h)

in_quarantine-snoc :
    (id : Text) (xs : List CaptureQuarantineItem) (q : CaptureQuarantineItem)
    → in_quarantine id (xs ++ q ∷ []) ≡ (in_quarantine id xs || eq_text q.id id)
unfolding any_of
in_quarantine-snoc id [] q = ground arith
in_quarantine-snoc id (x ∷ xs) q = ground (arith, in_quarantine-snoc id xs q)

in_outbox-update_items :
    (id k : Text) (f : CaptureOutboxItem → CaptureOutboxItem)
    → ((i : CaptureOutboxItem) → (f i).id ≡ i.id)
    → (xs : List CaptureOutboxItem) → in_outbox id (update_items k f xs) ≡ in_outbox id xs
unfolding any_of update_items
in_outbox-update_items id k f same [] = refl
in_outbox-update_items id k f same (x ∷ xs) =
    ground (arith, same x, in_outbox-update_items id k f same xs)

module _ (s : CaptureOutboxState) (sent current : CaptureOutboxItem) (id : Text)
    (stored : is_stored id s ≡ true) where
  isolated_plan-keeps :
      (error now : Text) → is_stored id (isolated_plan s sent current error now).state ≡ true
  unfolding isolated_plan failed_plan keep_state
  isolated_plan-keeps error now =
      let entry : CaptureQuarantineItem = record {
        id = sent.id;
        item = record current { attempts = current.attempts + 1 };
        error = error;
        quarantined_at = now;
      } in
      elim (Bool-cases (eq_text sent.id id)) [
        | inl e ↦ ground (arith, in_quarantine-snoc id s.quarantine entry)
        | inr e ↦ ground (
          arith,
          in_outbox-without_item id sent.id s.outbox e,
          in_quarantine-snoc id s.quarantine entry,
        )
      ]

  refused_plan-keeps :
      (b : Bool) (error now : Text)
      → is_stored id (refused_plan s sent current b error now).state ≡ true
  unfolding refused_plan failed_plan keep_state
  refused_plan-keeps b error now = ground (
    arith,
    isolated_plan-keeps error now,
    in_outbox-update_items id current.id (with_attempts (current.attempts + 1))
        (unfold with_attempts in λ i. refl) s.outbox,
  )

  module _ (later : Text → ℕ → Text) where
    ack_retry_plan-keeps :
        (error now : Text) → is_stored id (ack_retry_plan later s current error now).state ≡ true
    unfolding ack_retry_plan failed_plan keep_state
    ack_retry_plan-keeps error now = ground (
      arith,
      in_outbox-update_items id current.id
          (postponed later now (min (current.attempts + 1) max_retry_attempts))
          (unfold postponed in λ i. refl) s.outbox,
    )

    plan_current-keeps :
        (result : CaptureAttemptFlushResult) (now : Text)
        → (is_stored id (plan_current later s sent current result now).state ≡ true)
          ⊎ ((ack : CaptureAttemptAck) × (result ≡ delivered ack) × (sent.id ≡ id))
    unfolding plan_current failed_plan keep_state delivered_plan
    plan_current-keeps (delivered ack) now = elim (Bool-cases (eq_text sent.id id)) [
      | inl e ↦ inr (ack, refl, (eq_text_iff sent.id id).0 e)
      | inr e ↦ inl (ground (arith, in_outbox-without_item id sent.id s.outbox e))
    ]
    plan_current-keeps endpoint_error now = inl stored
    plan_current-keeps (network_error e) now = inl stored
    plan_current-keeps (ack_error e) now =
        inl (ack_retry_plan-keeps (capture_flush_error (ack_error e)) now)
    plan_current-keeps (http_error unauthorized e) now = inl stored
    plan_current-keeps (http_error forbidden e) now = inl stored
    plan_current-keeps (http_error server_error e) now =
        inl (refused_plan-keeps true (capture_flush_error (http_error server_error e)) now)
    plan_current-keeps (http_error bad_request e) now =
        inl (refused_plan-keeps false (capture_flush_error (http_error bad_request e)) now)
    plan_current-keeps (http_error conflict e) now =
        inl (refused_plan-keeps false (capture_flush_error (http_error conflict e)) now)
    plan_current-keeps (http_error payload_too_large e) now =
        inl (refused_plan-keeps false (capture_flush_error (http_error payload_too_large e)) now)
    plan_current-keeps (http_error unsupported_media e) now =
        inl (refused_plan-keeps false (capture_flush_error (http_error unsupported_media e)) now)

pub plan_outbox_after_flush-keeps :
    (later : Text → ℕ → Text) (s : CaptureOutboxState) (sent : CaptureOutboxItem) (id : Text)
    (result : CaptureAttemptFlushResult) (now : Text)
    → is_stored id s ≡ true
    → (is_stored id (plan_outbox_after_flush later s sent result now).state ≡ true)
      ⊎ ((ack : CaptureAttemptAck) × (result ≡ delivered ack) × (sent.id ≡ id))
unfolding plan_outbox_after_flush keep_state
plan_outbox_after_flush-keeps later s sent id result now h =
    elim (Option-cases (find_by (λ i. eq_text i.id sent.id) s.outbox)) [
      | inl e ↦ rw (e, plan_outbox_after_flush) (inl h)
      | inr (current, e) ↦
          rw (e, plan_outbox_after_flush) (plan_current-keeps s sent current id h later result now)
    ]
