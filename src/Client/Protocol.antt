-- ===== src/Client/Protocol.antt =====
-- `MisfinClientProtocol` of src/titlani/client/protocol.py, with its calls of the transport as a list.
pub mod Chunks
use titlani.Base.{
  ℕ, Bool, true, false, not, ◌&&◌, List, [], ◌∷◌, ◌++◌, Option, none, some, if◌then◌else◌, ltb,
  length, is_some, Result, ok, err, ◌>>=◌, or_raise,
}
use titlani.Str.Core.{Text, Bytes}
use titlani.Str.Split.{split_crlf}
use titlani.Str.Utf8.{decode}
use titlani.Protocol.Constants.{max_response_size}
use titlani.Protocol.Errors.{Error, invalid_utf8}
use titlani.Protocol.Response.{MisfinResponse, from_line}
use titlani.Server.Connection.{Action, write, close}

-- What `response_future` is settled with: a response, the exception of a parser, the one for a
-- response that is too long, the one that the connection was lost with, or the one for a connection
-- closed too early.
pub data Settled : Type 0 where
  response : MisfinResponse → Settled
  malformed : Error → Settled
  too_long closed_early : Settled
  lost : Text → Settled

pub record MisfinClientProtocol : Type 0 where
  pub request_bytes : Bytes
  pub response_future : Option Settled
  pub is_connected : Bool
  pub buffer : Bytes
  pub header_received : Bool
  pub calls : List Action

-- `__init__`
abbrev pub new : Bytes → MisfinClientProtocol
new request_bytes = record {
  request_bytes = request_bytes;
  response_future = none;
  is_connected = false;
  buffer = [];
  header_received = false;
  calls = [];
}

-- a call of the transport, where there is one
unfoldable pub call : Action → MisfinClientProtocol → MisfinClientProtocol
call action c = if c.is_connected then record c { calls = c.calls ++ action ∷ [] } else c

-- `if not self.response_future.done()`
unfoldable pub settle : Settled → MisfinClientProtocol → MisfinClientProtocol
settle outcome c = record c {
  response_future = (elim c.response_future [ none ↦ some outcome | some o ↦ some o ]);
}

-- `connection_made`
unfoldable pub connection_made : MisfinClientProtocol → MisfinClientProtocol
unfolding call
connection_made c = call (write c.request_bytes) (record c { is_connected = true })

-- `MisfinResponse.from_line(header_line.decode("utf-8"))`
unfoldable pub parse_line : Bytes → Settled
parse_line header_line =
    elim (do line ← or_raise (decode header_line) invalid_utf8; from_line line) [
      | ok r ↦ response r
      | err e ↦ malformed e
    ]

-- the header, once it is there
unfoldable pub take_header : MisfinClientProtocol → MisfinClientProtocol
unfolding settle call parse_line
take_header c = elim c.header_received [
  | true ↦ c
  | false ↦ elim (split_crlf c.buffer) [
    | none ↦ c
    | some (header_line, _) ↦
        call close (settle (parse_line header_line) (record c { header_received = true }))
  ]
]

unfoldable pub check_size : MisfinClientProtocol → MisfinClientProtocol
unfolding settle call
check_size c = if ltb max_response_size (length c.buffer) then call close (settle too_long c) else c

-- `data_received`
unfoldable pub data_received : Bytes → MisfinClientProtocol → MisfinClientProtocol
unfolding take_header check_size
data_received chunk c = check_size (take_header (record c { buffer = c.buffer ++ chunk }))

-- `connection_lost`
unfoldable pub connection_lost : Option Text → MisfinClientProtocol → MisfinClientProtocol
connection_lost exc c = elim c.response_future [
  | some _ ↦ c
  | none ↦ elim exc [
    | some text ↦ record c { response_future = some (lost text) }
    | none ↦ if not c.header_received then record c { response_future = some closed_early } else c
  ]
]
