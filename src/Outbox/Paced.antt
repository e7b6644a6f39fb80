-- ===== src/Outbox/Paced.antt =====
-- The attempts that an item of the outbox has had, over any history of the outbox.
use ai_coding_training_platf.Common.{
  Each-append, filter_by-Each, Bool, true, false, not, ◌||◌, some, List, [], ◌∷◌, ◌++◌, map, ℕ, ◌+◌,
  ◌<◌, leb, Text, eq_text, find_by, Each, ◌≡◌, ◌⊎◌, inl, inr, arith, Option-cases, Bool-cases,
}
use ai_coding_training_platf.Outbox.{
  CaptureOutboxItem, CaptureOutboxState, CaptureAttemptFlushResult, delivered, ack_error,
  endpoint_error, http_error, network_error, bad_request, unauthorized, forbidden, conflict,
  payload_too_large, unsupported_media, server_error, keep_state, retry_quarantined, retry_all,
  delete_quarantined, reset_item, max_retry_attempts,
}
use ai_coding_training_platf.Outbox.Plan.{
  update_items, without_item, delivered_plan, failed_plan, isolated_plan, refused_plan,
  ack_retry_plan, plan_current, plan_outbox_after_flush, with_attempts, postponed, min,
  capture_flush_error,
}

-- An item that has not had all its attempts, or had them all and is blocked until a manual retry.
abbrev pub IsPaced : CaptureOutboxItem → Type 0
IsPaced i =
    (i.attempts < max_retry_attempts)
    ⊎ ((i.attempts ≡ max_retry_attempts) × (i.automatic_retry_blocked ≡ some true))

abbrev pub Paced : List CaptureOutboxItem → Type 0
Paced = Each IsPaced

Paced-update :
    (k : Text) (f : CaptureOutboxItem → CaptureOutboxItem)
    → ((i : CaptureOutboxItem) → IsPaced (f i))
    → (xs : List CaptureOutboxItem) → Paced xs
    → Paced (update_items k f xs)
unfolding update_items
Paced-update k f paced [] h = tt
Paced-update k f paced (x ∷ xs) h = elim (Bool-cases (eq_text x.id k)) [
  | inl e ↦ rw e (paced x, Paced-update k f paced xs h.1)
  | inr e ↦ rw e (h.0, Paced-update k f paced xs h.1)
]

Paced-reset {ℓ} :
    {A : Type ℓ} (f : A → CaptureOutboxItem) (xs : List A) → Paced (map (λ a. reset_item (f a)) xs)
Paced-reset f [] = tt
Paced-reset f (x ∷ xs) = (inl (omega arith), Paced-reset f xs)

with_attempts-IsPaced :
    (n : ℕ) → n < max_retry_attempts → (i : CaptureOutboxItem) → IsPaced (with_attempts n i)
unfolding with_attempts
with_attempts-IsPaced n h i = inl h

module _ (later : Text → ℕ → Text) where
  postponed-IsPaced :
      (now : Text) (n : ℕ) (i : CaptureOutboxItem)
      → IsPaced (postponed later now (min (n + 1) max_retry_attempts) i)
  unfolding postponed
  postponed-IsPaced now n i = elim (Bool-cases (leb max_retry_attempts (n + 1))) [
    | inl e ↦ inr (ground (arith, e), ground (arith, e))
    | inr e ↦ inl (ground (arith, e))
  ]

  module _ (s : CaptureOutboxState) (sent current : CaptureOutboxItem) (now : Text)
      (paced : Paced s.outbox) where
    refused_plan-Paced :
        (b : Bool) (error : Text) → Paced (refused_plan s sent current b error now).state.outbox
    unfolding refused_plan failed_plan isolated_plan keep_state without_item
    refused_plan-Paced b error =
        elim (Bool-cases (not b || leb max_retry_attempts (current.attempts + 1))) [
          | inl e ↦ rw (e, refused_plan) (filter_by-Each IsPaced _ s.outbox paced)
          | inr e ↦
              rw (e, refused_plan)
                (Paced-update current.id (with_attempts (current.attempts + 1))
                  (with_attempts-IsPaced (current.attempts + 1) (ground (arith, e))) s.outbox paced)
        ]

    plan_current-Paced :
        (result : CaptureAttemptFlushResult)
        → Paced (plan_current later s sent current result now).state.outbox
    unfolding plan_current failed_plan keep_state delivered_plan without_item ack_retry_plan
    plan_current-Paced (delivered ack) = filter_by-Each IsPaced _ s.outbox paced
    plan_current-Paced endpoint_error = paced
    plan_current-Paced (network_error e) = paced
    plan_current-Paced (ack_error e) =
        Paced-update current.id
          (postponed later now (min (current.attempts + 1) max_retry_attempts))
          (postponed-IsPaced now current.attempts) s.outbox paced
    plan_current-Paced (http_error unauthorized e) = paced
    plan_current-Paced (http_error forbidden e) = paced
    plan_current-Paced (http_error server_error e) =
        refused_plan-Paced true (capture_flush_error (http_error server_error e))
    plan_current-Paced (http_error bad_request e) =
        refused_plan-Paced false (capture_flush_error (http_error bad_request e))
    plan_current-Paced (http_error conflict e) =
        refused_plan-Paced false (capture_flush_error (http_error conflict e))
    plan_current-Paced (http_error payload_too_large e) =
        refused_plan-Paced false (capture_flush_error (http_error payload_too_large e))
    plan_current-Paced (http_error unsupported_media e) =
        refused_plan-Paced false (capture_flush_error (http_error unsupported_media e))

  -- What happens to the outbox: a new bundle, a result, a manual retry, a deletion.
  pub data Change (s : CaptureOutboxState) : CaptureOutboxState → Type 0 where
    enqueue :
        (i : CaptureOutboxItem)
        → i.attempts ≡ 0
        → Change s (record s { outbox = s.outbox ++ i ∷ [] })
    flush :
        (sent : CaptureOutboxItem) (result : CaptureAttemptFlushResult) (now : Text)
        → Change s (plan_outbox_after_flush later s sent result now).state
    retry : (id : Text) → Change s (retry_quarantined s id)
    retry_each : Change s (retry_all s)
    delete :
        (id : Text) → Change s (record s { quarantine = (delete_quarantined s.quarantine id).0 })

  pub data History : CaptureOutboxState → Type 0 where
    fresh : History (record { outbox = []; quarantine = [] })
    next : {s t : CaptureOutboxState} → History s → Change s t → History t

  Change-Paced : {s t : CaptureOutboxState} → Change s t → Paced s.outbox → Paced t.outbox
  unfolding plan_outbox_after_flush keep_state retry_quarantined retry_all
  Change-Paced {s} (enqueue i e) h =
      Each-append IsPaced s.outbox (i ∷ []) h (inl (omega (arith, e)), tt)
  Change-Paced {s} (flush sent result now) h =
      elim (Option-cases (find_by (λ i. eq_text i.id sent.id) s.outbox)) [
        | inl e ↦ rw (e, plan_outbox_after_flush) h
        | inr (current, e) ↦
            rw (e, plan_outbox_after_flush) (plan_current-Paced s sent current now h result)
      ]
  Change-Paced {s} (retry id) h =
      elim (Option-cases (find_by (λ q. eq_text q.id id) s.quarantine)) [
        | inl e ↦ rw (e, retry_quarantined) h
        | inr (q, e) ↦
            rw (e, retry_quarantined) (Each-append IsPaced s.outbox _ h (inl (omega arith), tt))
      ]
  Change-Paced {s} retry_each h =
      Each-append IsPaced (map reset_item s.outbox) _ (Paced-reset (λ i. i) s.outbox)
        (Paced-reset (λ q. q.item) s.quarantine)
  Change-Paced {s} (delete id) h = h

  -- In every state that the outbox reaches from an empty one, each item has had fewer than three
  -- attempts, or just three and automatic retries of it are blocked.
  pub History-Paced : {s : CaptureOutboxState} → History s → Paced s.outbox
  History-Paced fresh = tt
  History-Paced (next h c) = Change-Paced c (History-Paced h)
