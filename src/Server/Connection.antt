-- ===== src/Server/Connection.antt =====
-- `MisfinServerProtocol` of src/titlani/server/protocol.py: the two phases of a connection.
-- Its calls of the transport are recorded in order, and so are the tasks that it starts; the end of
-- a task is a call of `handle_middleware_result` or `handle_handler_result`.
pub mod Chunks
pub mod Again
use titlani.Base.{
  ℕ, suc, ◌+◌, Bool, true, false, ◌&&◌, ◌||◌, not, List, [], ◌∷◌, ◌++◌, ◌==◌, Option, none, some,
  if◌then◌else◌, leb, ltb, length, take, any, Result, ok, err, pos, is_some,
}
use titlani.Str.Core.{Text, Bytes, codes, has}
use titlani.Str.Split.{split_crlf}
use titlani.Str.Number.{decimal}
use titlani.Runtime.{Runtime}
use titlani.Identity.{normalize_fingerprint}
use titlani.Protocol.Constants.{max_header_size, max_b_request_size}
use titlani.Protocol.Errors.{Error}
use titlani.Protocol.Status.{
  StatusCode, value, bad_request, temporary_failure, slow_down, domain_not_serviced,
  certificate_required, unauthorized_sender,
}
use titlani.Protocol.Request.{
  MisfinRequest, Version, version_b, version_c, from_header, from_header_b,
}
use titlani.Protocol.Response.{MisfinResponse, to_bytes}

-- What the message handler gives at once: a response, a coroutine, or an exception with its text.
pub data Handled : Type 0 where
  response : MisfinResponse → Handled
  awaitable : Handled
  raised : Text → Handled

-- What a task gives in the end.
pub data Finished : Type 0 where
  returned : MisfinResponse → Finished
  failed : Text → Finished

-- `DenialReason` of tlacacoca, as far as it is mapped, and the outcome of the middleware's task.
pub data DenialReason : Type 0 where
  rate_limit access_denied cert_required cert_not_authorized other_reason : DenialReason

pub data MiddlewareOutcome : Type 0 where
  allowed crashed : MiddlewareOutcome
  denied : DenialReason → Option ℕ → MiddlewareOutcome

pub data Action : Type 0 where
  write : Bytes → Action
  close : Action

pub data Job (Cert : Type 0) : Type 0 where
  ask_middleware : Text → Option Text → Job Cert
  await_handler : MisfinRequest Cert → Job Cert

-- What surrounds the connection: the handler, whether there is middleware, whether an event loop
-- runs, the certificate of the peer, and `str` of an exception of the parser.
pub record Peer (Cert : Type 0) : Type 0 where
  pub message_handler : MisfinRequest Cert → Handled
  pub middleware : Bool
  pub loop_running : Bool
  pub certificate : Option Cert
  pub error_text : Error → Text

pub record Connection (Cert : Type 0) : Type 0 where
  pub is_connected : Bool
  pub buffer : Bytes
  pub timeout_armed : Bool
  pub request : Option (MisfinRequest Cert)
  pub header_received : Bool
  pub awaiting_body : Bool
  pub received_first_byte : Bool
  pub calls : List Action
  pub jobs : List (Job Cert)

-- `_DENIAL_STATUS_MAP`, with the default
unfoldable pub denial_status : DenialReason → StatusCode
denial_status rate_limit = slow_down
denial_status access_denied = domain_not_serviced
denial_status cert_required = certificate_required
denial_status cert_not_authorized = unauthorized_sender
denial_status other_reason = temporary_failure

-- `status.name.replace("_", " ").title()`, and the seconds to wait
unfoldable pub denial_text : DenialReason → Option ℕ → Text
denial_text rate_limit (some (suc n)) =
    codes "Slow Down. Retry after " ++ (decimal (suc n) ++ codes "s")
denial_text rate_limit _ = codes "Slow Down"
denial_text access_denied _ = codes "Domain Not Serviced"
denial_text cert_required _ = codes "Certificate Required"
denial_text cert_not_authorized _ = codes "Unauthorized Sender"
denial_text other_reason _ = codes "Temporary Failure"

is_close : Action → Bool
is_close (write b) = false
is_close close = true

module _ (rt : Runtime) (peer : Peer rt.Cert) where
  open rt use {Cert}

  -- `connection_made`
  unfoldable pub connection_made : Connection Cert
  connection_made = record {
    is_connected = true;
    buffer = [];
    timeout_armed = peer.loop_running;
    request = none;
    header_received = false;
    awaiting_body = false;
    received_first_byte = false;
    calls = [];
    jobs = [];
  }

  -- `_cancel_timeout`
  unfoldable pub cancel_timeout : Connection Cert → Connection Cert
  cancel_timeout c = record c { timeout_armed = false }

  -- `_send_response`
  unfoldable pub send_response : MisfinResponse → Connection Cert → Connection Cert
  send_response r c =
      if c.is_connected then record c { calls = c.calls ++ write (to_bytes r) ∷ close ∷ [] } else c

  -- `_send_error`
  unfoldable pub send_error : StatusCode → Text → Connection Cert → Connection Cert
  unfolding send_response
  send_error status message c =
      send_response (record { status = pos (value status); meta = message }) c

  unfoldable pub start : Job Cert → Connection Cert → Connection Cert
  start job c = record c { jobs = c.jobs ++ job ∷ [] }

  routed : MisfinRequest Cert → Handled → Connection Cert → Connection Cert
  unfolding send_response send_error start
  routed r (response answer) c = send_response answer c
  routed r awaitable c =
      if peer.loop_running
      then start (await_handler r) c
      else send_error temporary_failure (codes "Server error") c
  routed r (raised text) c = send_error temporary_failure (codes "Server error: " ++ text) c

  -- `_route_request`
  unfoldable pub route_request : Connection Cert → Connection Cert
  unfolding routed
  route_request c = elim c.request [ none ↦ c | some r ↦ routed r (peer.message_handler r) c ]

  -- `_process_request`
  unfoldable pub process_request : Connection Cert → Connection Cert
  unfolding route_request start
  process_request c = elim c.request [
    | none ↦ c
    | some r ↦
        if peer.middleware && peer.loop_running
        then start
            (ask_middleware (codes "misfin://" ++ (r.mailbox ++ b'@' ∷ r.hostname))
              r.client_cert_fingerprint)
            c
        else route_request c
  ]

  -- `_handle_middleware_result`
  unfoldable pub handle_middleware_result : MiddlewareOutcome → Connection Cert → Connection Cert
  unfolding route_request send_error denial_status denial_text
  handle_middleware_result allowed c = route_request c
  handle_middleware_result crashed c = send_error temporary_failure (codes "Middleware error") c
  handle_middleware_result (denied reason retry_after) c =
      send_error (denial_status reason) (denial_text reason retry_after) c

  -- `_handle_handler_result`
  unfoldable pub handle_handler_result : Finished → Connection Cert → Connection Cert
  unfolding send_response send_error
  handle_handler_result (returned answer) c = send_response answer c
  handle_handler_result (failed text) c =
      send_error temporary_failure (codes "Server error: " ++ text) c

  -- `_handle_timeout`; the transport is closing once it was told to close
  unfoldable pub handle_timeout : Connection Cert → Connection Cert
  unfolding send_error is_close
  handle_timeout c =
      if not c.is_connected || any is_close c.calls
      then c
      else if c.received_first_byte
      then send_error bad_request (codes "Request timeout") c
      else record c { calls = c.calls ++ close ∷ [] }

  -- `connection_lost`
  unfoldable pub connection_lost : Connection Cert → Connection Cert
  unfolding cancel_timeout
  connection_lost c = record (cancel_timeout c) { is_connected = false }

  -- `_get_peer_certificate`, and what is set from it
  unfoldable pub attach : Option Cert → MisfinRequest Cert → MisfinRequest Cert
  attach none r = r
  attach (some cert) r = record r {
    client_cert = some cert;
    client_cert_fingerprint = some (normalize_fingerprint rt (rt.certificate_fingerprint cert));
  }

  -- the request that the header line is, in either format; `from_header` raises only `ValueError`s
  unfoldable pub parse_header : Bytes → Result Text (MisfinRequest Cert)
  parse_header line = elim (from_header {Cert = Cert} line) [
    | ok r ↦ ok r
    | err e ↦
        if has b'\t' line
        then err (codes "Invalid request header")
        else elim (from_header_b {Cert = Cert} line) [
          | ok r ↦ ok r
          | err e2 ↦ err (peer.error_text e2)
        ]
  ]

  is_b : Version → Bool
  is_b version_b = true
  is_b version_c = false

  -- the body, once all of it is in the buffer
  unfoldable pub take_body : MisfinRequest Cert → Connection Cert → Connection Cert
  unfolding process_request
  take_body r c =
      if leb r.content_length (length c.buffer)
      then process_request (record c {
        timeout_armed = false;
        request = some (record r { raw_message = take r.content_length c.buffer });
      })
      else c

  -- the request of a header that was read
  unfoldable pub header_done : MisfinRequest Cert → Connection Cert → Connection Cert
  unfolding attach is_b take_body process_request
  header_done r c =
      let attached = attach (if c.is_connected then peer.certificate else none) r in
      if is_b r.protocol_version || r.content_length == 0
      then process_request (record c { request = some attached; timeout_armed = false })
      else take_body attached (record c { request = some attached; awaiting_body = true })

  -- `_receive_header`
  unfoldable pub receive_header : Connection Cert → Connection Cert
  unfolding send_error header_done parse_header
  receive_header c = elim (split_crlf c.buffer) [
    | none ↦
        if ltb max_b_request_size (length c.buffer)
        then send_error bad_request (codes "Header exceeds maximum size (2048 bytes)") c
        else c
    | some (line, remaining) ↦ elim (parse_header line) [
      | err text ↦
          send_error bad_request text (record c { buffer = remaining; header_received = true })
      | ok r ↦ header_done r (record c { buffer = remaining; header_received = true })
    ]
  ]

  more_body : Option (MisfinRequest Cert) → Connection Cert → Connection Cert
  unfolding take_body
  more_body none c = c
  more_body (some r) c = if c.awaiting_body then take_body r c else c

  -- `data_received`
  unfoldable pub data_received : Connection Cert → Bytes → Connection Cert
  unfolding receive_header more_body
  data_received c bytes =
      let c' = record c { received_first_byte = true; buffer = c.buffer ++ bytes } in
      if c.header_received then more_body c.request c' else receive_header c'

  -- the chunks of a stream, one call for each
  unfoldable pub receive_all : Connection Cert → List Bytes → Connection Cert
  unfolding data_received
  receive_all c [] = c
  receive_all c (bytes ∷ rest) = receive_all (data_received c bytes) rest
