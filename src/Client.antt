-- ===== src/Client.antt =====
-- `MisfinClient` of src/titlani/client/session.py. A connection's course is an answer of the network,
-- which may depend on all that the client did before; the database of trusted certificates is
-- tlacacoca's and a parameter.
pub mod RetryDelay
pub mod Protocol
pub mod Bounds
pub mod Certificates
pub mod Redirects
pub mod Trust
use titlani.Base.{
  ℕ, zero, suc, Bool, true, false, ◌&&◌, ◌||◌, not, List, [], ◌∷◌, ◌++◌, ◌==◌, Option, none, some,
  if◌then◌else◌, length, Result, ok, err, ℤ, pos, negsuc,
}
use titlani.Str.Core.{Text, Bytes, codes, same, ends_with}
use titlani.Str.Split.{rsplit_once}
use titlani.Runtime.{Runtime}
use titlani.Protocol.Constants.{max_redirects}
use titlani.Protocol.Errors.{Error, is_value_error}
use titlani.Protocol.Status.{
  StatusCode, value, slow_down, permanent_failure, temporary_failure, bad_request,
  certificate_required,
}
use titlani.Protocol.Request.{MisfinRequest, Version, version_b, version_c, to_bytes, to_bytes_b}
use titlani.Protocol.Response.{MisfinResponse, redirect_address}
use titlani.Content.Address.{MisfinAddress}
use titlani.Content.Gemmail
use titlani.Content.Gemmail.{GemmailMessage}
use titlani.Server.Commands.{respond}
use titlani.Client.RetryDelay.{Delay, parse_retry_delay}

-- `TOFUDatabase` with the certificates of the peers; the port is the client's.
pub record Tofu (Cert : Type 0) : Type 1 where
  pub Db : Type 0
  pub verify : Db → Text → Cert → Bool × Text
  pub trust : Db → Text → Cert → Db
  pub known_fingerprint : Db → Text → Option Text

-- The course of one connection. `reply_failed` is an exception of the protocol object, or one that
-- the connection ended with.
pub data Reply : Type 0 where
  replied : MisfinResponse → Reply
  reply_timed_out : Reply
  reply_failed : Text → Reply

pub data Attempt (Cert : Type 0) : Type 0 where
  connect_timed_out : Attempt Cert
  connect_failed : Text → Attempt Cert
  connected : Option Cert → Reply → Attempt Cert

-- What the client does that can be seen from outside, the latest first.
pub data Event : Type 0 where
  dialled : Text → Bytes → Event
  slept : Delay → Event

-- The exceptions of a call.
pub data Raised : Type 0 where
  timed_out connection_failed failed invalid_address : Text → Raised
  certificate_changed : Text → Text → Text → Raised
  overflowed : Raised

pub record MisfinClient : Type 0 where
  pub max_retries : ℕ
  pub misfin_b_fallback : Bool

pub record Session (Db : Type 0) : Type 0 where
  pub trace : List Event
  pub tofu_db : Option Db

unfoldable pub has_status : StatusCode → ℤ → Bool
has_status code (pos n) = n == value code
has_status code (negsuc n) = false

-- `_B_FALLBACK_STATUSES`
unfoldable pub is_fallback_status : ℤ → Bool
unfolding has_status
is_fallback_status s =
    has_status bad_request s || has_status temporary_failure s || has_status certificate_required s

-- `request.protocol_version == "C"`
abbrev pub is_c : Version → Bool
is_c version_b = false
is_c version_c = true

module _ (rt : Runtime) where
  open rt use {dt, Cert, certificate_fingerprint}

  -- `MisfinRequest(mailbox=…, hostname=…, content_length=len(…), raw_message=…)`
  abbrev pub request_to : Text → Text → Bytes → MisfinRequest Cert
  request_to mailbox hostname message_bytes = record {
    mailbox = mailbox;
    hostname = hostname;
    content_length = length message_bytes;
    raw_message = message_bytes;
    raw_header = [];
    client_cert = none;
    client_cert_fingerprint = none;
    protocol_version = version_c;
    verification_result = none;
  }

  -- `full_body`
  unfoldable pub full_body : Text → Option Text → Text
  full_body body subject =
      let headed : Text = elim subject [
        | none ↦ body
        | some [] ↦ body
        | some (c ∷ t) ↦ codes "# " ++ ((c ∷ t) ++ (codes "\n\n" ++ body))
      ] in
      if ends_with (codes "\n") headed then headed else headed ++ codes "\n"

  module _ (tofu : Tofu Cert) (client : MisfinClient) (network : List Event → Attempt Cert) where
    open tofu use {Db, verify, trust, known_fingerprint}

    abbrev pub Outcome : Type 0
    Outcome = Result Raised MisfinResponse × Session Db

    -- `create_connection`
    unfoldable pub dial : Text → Bytes → Session Db → Attempt Cert × Session Db
    dial hostname request_bytes s =
        let trace = dialled hostname request_bytes ∷ s.trace in
        (network trace, record s { trace = trace })

    abbrev or_unknown : Option Text → Text
    or_unknown none = codes "unknown"
    or_unknown (some t) = t

    -- the check of the certificate, and the database after it
    unfoldable pub check_certificate : Text → Option Cert → Option Db → Result Raised (Option Db)
    check_certificate hostname cert none = ok none
    check_certificate hostname none (some db) = ok (some db)
    check_certificate hostname (some cert) (some db) =
        let (is_valid, message) = verify db hostname cert in
        if not is_valid && same message (codes "changed")
        then err (
            certificate_changed hostname (or_unknown (known_fingerprint db hostname))
              (certificate_fingerprint cert))
        else if same message (codes "first_use")
        then ok (some (trust db hostname cert))
        else ok (some db)

    unfoldable pub await_reply : Text → Reply → Result Raised MisfinResponse
    await_reply hostname (replied response) = ok response
    await_reply hostname reply_timed_out = err (timed_out (codes "Request timeout: " ++ hostname))
    await_reply hostname (reply_failed text) = err (failed text)

    unfoldable pub on_attempt : Text → Attempt Cert → Session Db → Outcome
    unfolding check_certificate await_reply
    on_attempt hostname connect_timed_out s =
        (err (timed_out (codes "Connection timeout: " ++ hostname)), s)
    on_attempt hostname (connect_failed text) s =
        (err (connection_failed (codes "Connection failed: " ++ text)), s)
    on_attempt hostname (connected cert reply) s =
        elim (check_certificate hostname cert s.tofu_db) [
          | err e ↦ (err e, s)
          | ok db ↦ (await_reply hostname reply, record s { tofu_db = db })
        ]

    -- `_send_request_once`
    unfoldable pub send_request_once : Text → MisfinRequest Cert → Session Db → Outcome
    unfolding dial on_attempt
    send_request_once hostname r s =
        let (attempt, s') = dial hostname (to_bytes r) s in on_attempt hostname attempt s'

    -- `asyncio.sleep` for as long as the response asks
    unfoldable pub wait : Text → Session Db → Session Db
    wait meta s = record s { trace = slept (parse_retry_delay meta) ∷ s.trace }

    -- the loop over SLOW_DOWN, with the retries that are left
    unfoldable pub retry : ℕ → Text → MisfinRequest Cert → Outcome → Outcome
    unfolding send_request_once wait
    retry zero hostname r last = last
    retry (suc n) hostname r (err e, s) = (err e, s)
    retry (suc n) hostname r (ok response, s) = elim (has_status slow_down response.status) [
      | true ↦ retry n hostname r (send_request_once hostname r (wait response.meta s))
      | false ↦ (ok response, s)
    ]

    -- the request with its retries
    abbrev pub attempts : Text → MisfinRequest Cert → Session Db → Outcome
    attempts hostname r s = retry client.max_retries hostname r (send_request_once hostname r s)

    unfoldable pub on_attempt_b : Attempt Cert → Session Db → Outcome
    on_attempt_b connect_timed_out s =
        (ok (respond temporary_failure (codes "Misfin(B) fallback connection failed")), s)
    on_attempt_b (connect_failed text) s =
        (ok (respond temporary_failure (codes "Misfin(B) fallback connection failed")), s)
    on_attempt_b (connected cert (replied response)) s = (ok response, s)
    on_attempt_b (connected cert reply_timed_out) s =
        (ok (respond temporary_failure (codes "Misfin(B) fallback timed out")), s)
    on_attempt_b (connected cert (reply_failed text)) s = (err (failed text), s)

    -- `_send_request_b`
    unfoldable pub send_request_b : Text → MisfinRequest Cert → Session Db → Outcome
    unfolding dial on_attempt_b
    send_request_b hostname r s = elim (to_bytes_b r) [
      | err e ↦ (
        if is_value_error e
            then ok (respond bad_request (codes "Message too large for Misfin(B) format"))
            else err overflowed,
        s,
      )
      | ok b_bytes ↦ let (attempt, s') = dial hostname b_bytes s in on_attempt_b attempt s'
    ]

    -- what follows the retries; `follow` is what a redirect leads to
    unfoldable pub settle :
        (Text → Session Db → Outcome) → Text → MisfinRequest Cert → Outcome → Outcome
    unfolding send_request_b
    settle follow hostname r (err e, s) = (err e, s)
    settle follow hostname r (ok response, s) = elim (redirect_address response) [
      | some target ↦ follow target s
      | none ↦
          if client.misfin_b_fallback
            && is_c r.protocol_version
            && is_fallback_status response.status
          then send_request_b hostname r s
          else (ok response, s)
    ]

    -- a request to the address, where it is one
    unfoldable pub send_to :
        (Text → MisfinRequest Cert → Session Db → Outcome) → Text → Bytes → Session Db → Outcome
    send_to send to message_bytes s = elim (rsplit_once b'@' to) [
      | none ↦ (err (invalid_address to), s)
      | some (mailbox, hostname) ↦ send hostname (request_to mailbox hostname message_bytes) s
    ]

    -- `_send_request`, where `left` is MAX_REDIRECTS - redirect_depth
    unfoldable pub send_request : ℕ → Text → MisfinRequest Cert → Session Db → Outcome
    unfolding retry settle send_to
    send_request zero hostname r s =
        settle (λ target s'. (ok (respond permanent_failure (codes "Too many redirects")), s'))
          hostname r (attempts hostname r s)
    send_request (suc left) hostname r s =
        settle (λ target s'. send_to (send_request left) target r.raw_message s') hostname r
          (attempts hostname r s)

    -- `send_raw`
    unfoldable pub send_raw : Text → Bytes → Session Db → Outcome
    unfolding send_request
    send_raw to message_bytes s = send_to (send_request max_redirects) to message_bytes s

    or_recipient : List MisfinAddress → Text × Text → List MisfinAddress
    or_recipient [] (mailbox, hostname) =
        record { mailbox = mailbox; hostname = hostname; blurb = [] } ∷ []
    or_recipient (a ∷ rest) _ = a ∷ rest

    -- `send`, where `now` is `datetime.now(UTC)`
    unfoldable pub send :
        dt.Time
        → Text
        → Text
        → Option Text
        → Option MisfinAddress
        → List MisfinAddress
        → Session Db
        → Outcome
    unfolding send_raw full_body or_recipient
    send now to body subject sender recipients s = elim (rsplit_once b'@' to) [
      | none ↦ (err (invalid_address to), s)
      | some names ↦
          let message : GemmailMessage dt.Time = record {
            senders = (elim sender [ none ↦ [] | some a ↦ a ∷ [] ]);
            recipients = or_recipient recipients names;
            timestamps = now ∷ [];
            body = full_body body subject;
          } in
          send_raw to (Gemmail.to_bytes dt message) s
    ]
