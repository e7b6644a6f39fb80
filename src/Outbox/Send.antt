-- ===== src/Outbox/Send.antt =====
-- The request that carries a bundle to the server: extension/src/captureTransport.ts. The URL
-- parser, `fetch` and the decimal digits of a number are parameters.
use ai_coding_training_platf.Common.{
  Bool, true, false, not, ◌&&◌, ◌||◌, if◌then◌else◌, Option, none, some, List, [], ◌∷◌, ◌++◌, ℕ,
  ◌==◌, leb, Text, units, eq_text, length, any_of, ◌≡◌, ◌≢◌,
}
use ai_coding_training_platf.Correlation.{starts_with}
use ai_coding_training_platf.Reducer.{CaptureAttemptBundle}
use ai_coding_training_platf.Outbox.{
  CaptureAttemptAck, CaptureAttemptFlushResult, delivered, ack_error, endpoint_error, http_error,
  network_error, bad_request, unauthorized, forbidden, conflict, payload_too_large,
  unsupported_media, server_error,
}

abbrev pub default_capture_endpoint : Text
default_capture_endpoint = units "http://localhost:3000/api/capture/attempts"

abbrev pub legacy_default_capture_endpoint : Text
legacy_default_capture_endpoint = units "http://localhost:3000/api/capture/events"

-- What the code reads of a `URL`, `text` being `url.toString()`.
pub record ParsedUrl : Type 0 where
  pub protocol : Text
  pub hostname : Text
  pub username : Text
  pub password : Text
  pub text : Text

pub data EndpointStatus : Type 0 where
  supported unsupported : EndpointStatus

pub record CaptureEndpointStatus : Type 0 where
  pub endpoint : Text
  pub status : EndpointStatus

abbrev default_status : CaptureEndpointStatus
default_status = record { endpoint = default_capture_endpoint; status = supported }

unfoldable pub is_loopback : ParsedUrl → Bool
is_loopback url =
    eq_text url.hostname (units "localhost")
    || eq_text url.hostname (units "127.0.0.1")
    || eq_text url.hostname (units "[::1]")

unfoldable pub is_token_char : ℕ → Bool
is_token_char c =
    (leb b'A' c && leb c b'Z')
    || (leb b'a' c && leb c b'z')
    || (leb b'0' c && leb c b'9')
    || c == b'_'
    || c == b'-'

-- `/^capture_[A-Za-z0-9_-]{43}$/u`, whose prefix is of the same characters
unfoldable pub is_capability : Text → Bool
unfolding starts_with is_token_char any_of
is_capability t =
    starts_with (units "capture_") t
    && length t == 51
    && not (any_of (λ c. not (is_token_char c)) t)

unfoldable pub capture_request_headers : Option Text → List (Text × Text)
unfolding is_capability
capture_request_headers capability =
    let headers : List (Text × Text) = (units "content-type", units "application/json") ∷ [] in
    elim capability [
      | none ↦ headers
      | some t ↦
          if is_capability t
          then headers ++ (units "authorization", units "Bearer " ++ t) ∷ []
          else headers
    ]

-- The body of an answer: no JSON, not an acknowledgement, or one.
pub data Body : Type 0 where
  unreadable invalid : Body
  acknowledged : CaptureAttemptAck → Body

pub data Fetched : Type 0 where
  thrown : Fetched
  answered : (is_ok : Bool) → (status : ℕ) → Body → Fetched

pub record Network : Type 0 where
  pub parse_url : Text → Option ParsedUrl
  pub fetch : Text → List (Text × Text) → CaptureAttemptBundle → Fetched
  pub show : ℕ → Text

module _ (net : Network) where
  unfoldable pub capture_endpoint_status : Option Text → CaptureEndpointStatus
  unfolding is_loopback
  capture_endpoint_status none = default_status
  capture_endpoint_status (some value) = elim (net.parse_url value) [
    | none ↦ default_status
    | some url ↦
        if not (eq_text url.protocol (units "http:"))
          || not (is_loopback url)
          || not (eq_text url.username [])
          || not (eq_text url.password [])
        then default_status
        else if eq_text url.text default_capture_endpoint
            || eq_text url.text legacy_default_capture_endpoint
        then default_status
        else record { endpoint = url.text; status = unsupported }
  ]

  unfoldable pub capture_attempt_endpoint : Option Text → Option Text
  unfolding capture_endpoint_status
  capture_attempt_endpoint value = elim (capture_endpoint_status value).status [
    | supported ↦ some default_capture_endpoint
    | unsupported ↦ none
  ]

  unfoldable pub refusal : ℕ → CaptureAttemptFlushResult
  refusal status =
      let error = units "HTTP " ++ net.show status in
      if status == 400
      then http_error bad_request error
      else if status == 401
      then http_error unauthorized error
      else if status == 403
      then http_error forbidden error
      else if status == 409
      then http_error conflict error
      else if status == 413
      then http_error payload_too_large error
      else if status == 415
      then http_error unsupported_media error
      else http_error server_error error

  unfoldable pub answer_of : CaptureAttemptBundle → Fetched → CaptureAttemptFlushResult
  unfolding refusal
  answer_of bundle thrown = network_error (units "Network request failed")
  answer_of bundle (answered false status body) = refusal status
  answer_of bundle (answered true status unreadable) =
      network_error (units "Network request failed")
  answer_of bundle (answered true status invalid) =
      ack_error (units "ACK mismatch: invalid response")
  answer_of bundle (answered true status (acknowledged ack)) =
      if not (eq_text ack.bundle_id bundle.bundle_id)
      then ack_error (units "ACK mismatch: bundle identity")
      else delivered ack

  unfoldable pub post_capture_attempt_bundle :
      CaptureAttemptBundle → (endpoint capability : Option Text) → CaptureAttemptFlushResult
  unfolding capture_attempt_endpoint answer_of capture_request_headers
  post_capture_attempt_bundle bundle endpoint capability =
      elim (capture_attempt_endpoint endpoint) [
        | none ↦ endpoint_error
        | some url ↦ answer_of bundle (net.fetch url (capture_request_headers capability) bundle)
      ]

-- A stored endpoint that the code does not support: a loopback address other than its own two.
pub record IsForeign (net : Network) (endpoint : Option Text) : Type 0 where
  pub value : Text
  pub url : ParsedUrl
  pub is_stored : endpoint ≡ some value
  pub is_parsed : net.parse_url value ≡ some url
  pub is_http : url.protocol ≡ units "http:"
  pub is_local : is_loopback url ≡ true
  pub no_username : url.username ≡ []
  pub no_password : url.password ≡ []
  pub other : (url.text ≢ default_capture_endpoint) × (url.text ≢ legacy_default_capture_endpoint)

-- The answer to the one request that may be made: to the default endpoint, with the headers.
abbrev pub Acknowledges : Network → CaptureAttemptBundle → Option Text → CaptureAttemptAck → Type 0
Acknowledges net bundle capability ack =
    (status : ℕ) × (net.fetch default_capture_endpoint (capture_request_headers capability) bundle
      ≡ answered true status (acknowledged ack))
    × (ack.bundle_id ≡ bundle.bundle_id)
