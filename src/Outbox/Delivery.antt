-- ===== src/Outbox/Delivery.antt =====
-- When a request delivers its bundle.
use ai_coding_training_platf.Common.{
  Bool, true, false, not, Option, none, some, Text, units, eq_text, eq_text_iff, ◌≡◌, ◌≢◌, ◌↔◌, ◌⊎◌,
  inl, inr, refl, arith, Bool-cases, Option-cases, [], ◌||◌, ℕ,
}
use ai_coding_training_platf.Reducer.{CaptureAttemptBundle}
use ai_coding_training_platf.Outbox.{CaptureAttemptAck, delivered}
use ai_coding_training_platf.Outbox.Send.{
  Network, ParsedUrl, is_loopback, default_capture_endpoint, legacy_default_capture_endpoint,
  capture_endpoint_status, capture_attempt_endpoint, IsForeign, Acknowledges, answer_of,
  post_capture_attempt_bundle, answered, acknowledged, thrown, Fetched, unreadable, invalid,
  refusal,
}

module _ (net : Network) where
  refusal-ne-delivered : (status : ℕ) (ack : CaptureAttemptAck) → refusal net status ≢ delivered ack
  unfolding refusal
  refusal-ne-delivered status ack h = ground arith

  answer_of-delivered :
      (bundle : CaptureAttemptBundle) (f : Fetched) (ack : CaptureAttemptAck)
      → answer_of net bundle f ≡ delivered ack
      → (status : ℕ) × (f ≡ answered true status (acknowledged ack))
        × (ack.bundle_id ≡ bundle.bundle_id)
  unfolding answer_of
  answer_of-delivered bundle thrown ack h = absurd (ground arith)
  answer_of-delivered bundle (answered false status body) ack h =
      absurd (refusal-ne-delivered status ack h)
  answer_of-delivered bundle (answered true status unreadable) ack h = absurd (ground arith)
  answer_of-delivered bundle (answered true status invalid) ack h = absurd (ground arith)
  answer_of-delivered bundle (answered true status (acknowledged a)) ack h =
      let same : (a ≡ ack) × (a.bundle_id ≡ bundle.bundle_id) =
        ground (arith, eq_text_iff a.bundle_id bundle.bundle_id) in
      (status, ground (arith, same), ground (arith, same))

  foreign_has_no_endpoint :
      (e : Option Text) → IsForeign net e → capture_attempt_endpoint net e ≡ none
  unfolding capture_attempt_endpoint capture_endpoint_status
  foreign_has_no_endpoint e h = ground (
    arith,
    h.is_stored,
    h.is_parsed,
    eq_text_iff h.url.protocol (units "http:"),
    eq_text_iff h.url.username [],
    eq_text_iff h.url.password [],
    eq_text_iff h.url.text default_capture_endpoint,
    eq_text_iff h.url.text legacy_default_capture_endpoint,
  )

  -- The two tests of `captureEndpointStatus`.
  abbrev is_refused : ParsedUrl → Bool
  is_refused url =
      not (eq_text url.protocol (units "http:"))
      || not (is_loopback url)
      || not (eq_text url.username [])
      || not (eq_text url.password [])

  abbrev is_own : ParsedUrl → Bool
  is_own url =
      eq_text url.text default_capture_endpoint || eq_text url.text legacy_default_capture_endpoint

  IsForeign-of :
      (v : Text) (u : ParsedUrl)
      → net.parse_url v ≡ some u
      → is_refused u ≡ false
      → is_own u ≡ false
      → IsForeign net (some v)
  IsForeign-of v u e r o = record {
    value = v;
    url = u;
    is_stored = refl;
    is_parsed = e;
    is_http = ground (arith, eq_text_iff u.protocol (units "http:"));
    is_local = ground arith;
    no_username = ground (arith, eq_text_iff u.username []);
    no_password = ground (arith, eq_text_iff u.password []);
    other = (
      λ s. ground (arith, eq_text_iff u.text default_capture_endpoint),
      λ s. ground (arith, eq_text_iff u.text legacy_default_capture_endpoint),
    );
  }

  endpoint_unless-IsForeign :
      (e : Option Text)
      → IsForeign net e ⊎ (capture_attempt_endpoint net e ≡ some default_capture_endpoint)
  unfolding capture_attempt_endpoint capture_endpoint_status
  endpoint_unless-IsForeign none = inr refl
  endpoint_unless-IsForeign (some v) = elim (Option-cases (net.parse_url v)) [
    | inl e ↦ inr (rw (e, capture_attempt_endpoint, capture_endpoint_status) refl)
    | inr (u, e) ↦ elim (Bool-cases (is_refused u)) [
      | inl r ↦ inr (ground (arith, e))
      | inr r ↦ elim (Bool-cases (is_own u)) [
        | inl o ↦ inr (ground (arith, e))
        | inr o ↦ inl (IsForeign-of v u e r o)
      ]
    ]
  ]

  -- A bundle is delivered exactly if the stored endpoint is not a foreign one and the one request,
  -- to the default endpoint, is answered with success by an acknowledgement of this bundle.
  pub post-delivered_iff :
      (bundle : CaptureAttemptBundle) (endpoint capability : Option Text) (ack : CaptureAttemptAck)
      → (post_capture_attempt_bundle net bundle endpoint capability ≡ delivered ack)
        ↔ ((¬ IsForeign net endpoint) × Acknowledges net bundle capability ack)
  unfolding post_capture_attempt_bundle answer_of
  post-delivered_iff bundle endpoint capability ack = (
    λ h. elim (endpoint_unless-IsForeign endpoint) [
      | inl f ↦ absurd (ground (arith, foreign_has_no_endpoint endpoint f))
      | inr e ↦ (
        λ f. ground (arith, foreign_has_no_endpoint endpoint f),
        answer_of-delivered bundle _ ack (rw (e, post_capture_attempt_bundle) at h),
      )
    ],
    λ h. elim (endpoint_unless-IsForeign endpoint) [
      | inl f ↦ absurd (h.0 f)
      | inr e ↦
          rw (e, post_capture_attempt_bundle)
            (rw h.1.1 (ground (arith, eq_text_iff ack.bundle_id bundle.bundle_id, h.1.2)))
    ],
  )
