-- ===== src/Tests/Connection.antt =====
-- The connection at concrete inputs.
use titlani.Base.{true, false, List, [], ◌∷◌, ◌++◌, some, length, ok, ◌≡◌, refl, arith, ap}
use titlani.Str.Core.{Text, Bytes, codes}
use titlani.Str.Split.{split_crlf}
use titlani.Protocol.Request.{MisfinRequest, from_header, of_header}
use titlani.Server.Connection.{
  Peer, Connection, awaitable, await_handler, connection_made, receive_all, process_request,
}
use titlani.Server.Connection.Chunks.{complete, IsIdle, receive_all-complete, receive_all-IsIdle}
use titlani.Server.Connection.Again.{IsServing, starts, receive_all-again}
use titlani.Tests.Machine.{handlers, machine}

abbrev Cert : Type 0
Cert = Text × Text × Text

abbrev peer : Peer Cert
peer = record {
  message_handler = λ r. awaitable;
  middleware = false;
  loop_running = true;
  certificate = some (codes "u", codes "h", codes "U");
  error_text = λ e. [];
}

abbrev line : Bytes
line = codes "misfin://a@b\t3"

abbrev body : Bytes
body = codes "hi\n"

abbrev stream : Bytes
stream = line ++ b'\r' ∷ b'\n' ∷ body

abbrev chunks : List Bytes
chunks = codes "misfin://a@b\t3\r" ∷ codes "\nh" ∷ codes "i\n" ∷ []

abbrev request : MisfinRequest Cert
request = of_header (codes "a") (codes "b") 3 line

parsed : from_header {Cert = Cert} line ≡ ok request
unfolding handlers
parsed = refl

whole : split_crlf stream ≡ some (line, body)
unfolding handlers
whole = refl

sized : request.content_length ≡ length body
unfolding handlers
sized = refl

receive_all-complete_example :
    receive_all machine peer (connection_made machine peer) chunks
    ≡ process_request machine peer
        (complete machine peer line body request parsed sized (λ q. omega (arith, ap length q)))
receive_all-complete_example =
    receive_all-complete machine peer line body request parsed sized
      (λ q. omega (arith, ap length q)) stream chunks whole
      (
        (λ q. omega (arith, ap length q)),
        ((λ q. omega (arith, ap length q)), ((λ q. omega (arith, ap length q)), tt)),
      )
      refl

receive_all-IsIdle_example :
    IsIdle machine peer line body request parsed sized
      (λ q. omega (arith, ap length q))
      (receive_all machine peer
        (connection_made machine peer)
        (codes "misfin://a@b\t3\r" ∷ codes "\nh" ∷ []))
receive_all-IsIdle_example =
    receive_all-IsIdle machine peer line body request parsed sized (λ q. omega (arith, ap length q))
      stream (codes "i\n") (codes "misfin://a@b\t3\r" ∷ codes "\nh" ∷ []) whole
      (λ q. omega (arith, ap length q)) refl

-- the connection after the request
abbrev finished : Connection Cert
finished = record (connection_made machine peer) {
  buffer = body;
  timeout_armed = false;
  request = some (record request { raw_message = body });
  header_received = true;
  awaiting_body = true;
  received_first_byte = true;
  jobs = await_handler (record request { raw_message = body }) ∷ [];
}

finished-IsServing : IsServing machine peer finished (record request { raw_message = body })
finished-IsServing = record {
  headed = refl;
  awaiting = refl;
  held = refl;
  sized = sized;
  rest = [];
  spelled = refl;
}

receive_all-again_example :
    (receive_all machine peer finished (codes "x" ∷ codes "y" ∷ [])).jobs
    ≡ finished.jobs
      ++ starts machine peer (record request { raw_message = body }) (codes "x" ∷ codes "y" ∷ [])
receive_all-again_example =
    receive_all-again machine peer finished (record request { raw_message = body })
      (codes "x" ∷ codes "y" ∷ []) refl refl refl finished-IsServing
