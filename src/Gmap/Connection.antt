-- ===== src/Gmap/Connection.antt =====
-- `GeminiServerProtocol` of src/titlani/gmap/protocol.py, with its calls of the transport and the
-- coroutines that it starts as lists.
pub mod Chunks
use titlani.Base.{
  ℕ, Bool, true, false, not, ◌&&◌, List, [], ◌∷◌, ◌++◌, Option, none, some, if◌then◌else◌, ltb,
  length, is_some, Result, ok, err,
}
use titlani.Str.Core.{Text, Bytes, codes}
use titlani.Str.Split.{split_crlf}
use titlani.Str.Utf8.{encode}
use titlani.Str.Number.{decimal}
use titlani.Server.Connection.{Action, write, close}
use titlani.Gmap.Mailbox.{GeminiResponse, reply}
use titlani.Gmap.Request.{GeminiRequest, RequestError, parse_gemini_request}

abbrev pub max_gemini_request_size : ℕ
max_gemini_request_size = 1024

-- `to_bytes`
unfoldable pub to_bytes : GeminiResponse → Bytes
to_bytes r = encode (decimal r.status ++ (b' ' ∷ (r.meta ++ codes "\r\n"))) ++ r.body

-- What a call of the handler gives: a response, a coroutine, or an exception with its text.
pub data Started : Type 0 where
  responded : GeminiResponse → Started
  awaitable : Started
  raised : Text → Started

-- What the coroutine ends with.
pub data Finished : Type 0 where
  returned : GeminiResponse → Finished
  failed : Text → Finished

pub record Peer (Cert : Type 0) : Type 0 where
  pub request_handler : GeminiRequest Cert → Started
  pub loop_running : Bool
  pub certificate : Option Cert
  pub error_text : RequestError → Text

pub record GeminiServerProtocol (Cert : Type 0) : Type 0 where
  pub is_connected : Bool
  pub is_closing : Bool
  pub buffer : Bytes
  pub timeout_armed : Bool
  pub received_first_byte : Bool
  pub calls : List Action
  pub tasks : List (GeminiRequest Cert)

module _ {Cert : Type 0} (peer : Peer Cert) where
  abbrev pub Connection : Type 0
  Connection = GeminiServerProtocol Cert

  -- `__init__` and `connection_made`
  unfoldable pub connection_made : Connection
  connection_made = record {
    is_connected = true;
    is_closing = false;
    buffer = [];
    timeout_armed = peer.loop_running;
    received_first_byte = false;
    calls = [];
    tasks = [];
  }

  -- `_send_response`
  unfoldable pub send_response : GeminiResponse → Connection → Connection
  unfolding to_bytes
  send_response r c =
      if c.is_connected
      then record c { is_closing = true; calls = c.calls ++ write (to_bytes r) ∷ close ∷ [] }
      else c

  -- `_send_error`
  unfoldable pub send_error : ℕ → Text → Connection → Connection
  unfolding send_response
  send_error status message c = send_response (reply status message) c

  -- `_process_request`
  unfoldable pub process_request : GeminiRequest Cert → Connection → Connection
  unfolding send_error
  process_request r c = elim (peer.request_handler r) [
    | responded response ↦ send_response response c
    | awaitable ↦
        if peer.loop_running
        then record c { tasks = c.tasks ++ r ∷ [] }
        else send_error 40 (codes "Server error") c
    | raised text ↦ send_error 40 (codes "Server error: " ++ text) c
  ]

  -- `_handle_result`
  unfoldable pub handle_result : Finished → Connection → Connection
  unfolding send_error
  handle_result (returned response) c = send_response response c
  handle_result (failed text) c = send_error 40 (codes "Server error: " ++ text) c

  -- the request line, once it is there
  unfoldable pub take_line : Bytes → Connection → Connection
  unfolding process_request
  take_line request_line c =
      let c' : Connection = record c { timeout_armed = false } in
      elim (parse_gemini_request request_line peer.certificate) [
        | err e ↦ send_error 59 (peer.error_text e) c'
        | ok r ↦ process_request r c'
      ]

  unfoldable pub take_buffer : Connection → Connection
  unfolding take_line
  take_buffer c = elim (split_crlf c.buffer) [
    | some (request_line, _) ↦ take_line request_line c
    | none ↦
        if ltb max_gemini_request_size (length c.buffer)
        then send_error 59 (codes "Request exceeds 1024 bytes") c
        else c
  ]

  -- `data_received`
  unfoldable pub data_received : Bytes → Connection → Connection
  unfolding take_buffer
  data_received chunk c =
      take_buffer (record c { received_first_byte = true; buffer = c.buffer ++ chunk })

  -- `_handle_timeout`
  unfoldable pub handle_timeout : Connection → Connection
  handle_timeout c =
      if c.is_connected && not c.is_closing
      then record c {
        is_closing = true;
        calls =
            c.calls
            ++ (if c.received_first_byte
                then write (to_bytes (reply 59 (codes "Request timeout"))) ∷ []
                else [])
            ++ close ∷ [];
      }
      else c

  -- `connection_lost`
  unfoldable pub connection_lost : Connection → Connection
  connection_lost c = record c { is_connected = false; timeout_armed = false }
