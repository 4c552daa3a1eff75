-- ===== src/Server/Connection/Again.antt =====
-- Data behind a complete request, for `MisfinServerProtocol` of src/titlani/server/protocol.py.
use titlani.Base.{
  true, false, [], ◌∷◌, ◌++◌, List, some, if◌then◌else◌, leb, length, take, ◌≡◌, refl, ap, sym, ◌∙◌,
  arith, length-append, append_assoc, append-nil,
}
use titlani.Str.Core.{Bytes}
use titlani.Runtime.{Runtime}
use titlani.Protocol.Request.{MisfinRequest}
use titlani.Server.Connection.{
  awaitable, Peer, Connection, await_handler, start, routed, route_request, process_request,
  take_body, more_body, receive_header, data_received, receive_all, Job,
}

take-append : (b d : Bytes) → take (length b) (b ++ d) ≡ b
take-append [] d = refl
take-append (c ∷ b) d = rw (take-append b d)

module _ (rt : Runtime) (peer : Peer rt.Cert) where
  open rt use {Cert}

  process_request-await :
      (c : Connection Cert) (r : MisfinRequest Cert)
      → peer.middleware ≡ false
      → peer.loop_running ≡ true
      → peer.message_handler r ≡ awaitable
      → process_request rt peer (record c { request = some r })
        ≡ record c { request = some r; jobs = c.jobs ++ await_handler r ∷ [] }
  unfolding process_request route_request routed start
  process_request-await c r bare loop waits = rw (process_request, bare, route_request, waits, loop)

  -- The request was read with its body, which the connection still awaits; behind the body there may
  -- be more in the buffer.
  pub record IsServing (c : Connection Cert) (r : MisfinRequest Cert) : Type 0 where
    pub headed : c.header_received ≡ true
    pub awaiting : c.awaiting_body ≡ true
    pub held : c.request ≡ some r
    pub sized : r.content_length ≡ length r.raw_message
    pub rest : Bytes
    pub spelled : c.buffer ≡ r.raw_message ++ rest

  -- the connection after a further piece of data
  again : Connection Cert → MisfinRequest Cert → Bytes → Connection Cert
  again c r more = record c {
    received_first_byte = true;
    buffer = c.buffer ++ more;
    timeout_armed = false;
    request = some r;
    jobs = c.jobs ++ await_handler r ∷ [];
  }

  data_received-again :
      (c : Connection Cert) (r : MisfinRequest Cert) (more : Bytes)
      → peer.middleware ≡ false
      → peer.loop_running ≡ true
      → peer.message_handler r ≡ awaitable
      → IsServing c r
      → data_received rt peer c more ≡ again c r more
  unfolding data_received more_body take_body again start
  data_received-again c r more bare loop waits h =
      let buffer = c.buffer ++ more in
      let split : buffer ≡ r.raw_message ++ (h.rest ++ more) =
        ap (λ b. b ++ more) h.spelled ∙ append_assoc r.raw_message h.rest more in
      let body : take r.content_length buffer ≡ r.raw_message =
        rw (h.sized, split, take-append r.raw_message (h.rest ++ more)) in
      let enough : leb r.content_length (length buffer) ≡ true =
        ground (arith, h.sized, ap length split, length-append r.raw_message (h.rest ++ more)) in
      let now = record c { received_first_byte = true; buffer = buffer } in
      let last = record now {
        timeout_armed = false;
        request = some (record r { raw_message = take r.content_length buffer });
      } in
      let whole : last ≡ record now { timeout_armed = false; request = some r } =
        ap
          (λ b. record now { timeout_armed = false; request = some (record r { raw_message = b }) })
          body in
      let steps : data_received rt peer c more ≡ process_request rt peer last =
        ap (λ b. if b then more_body rt peer c.request now else receive_header rt peer now) h.headed
        ∙ (ap (λ o. more_body rt peer o now) h.held
            ∙ (ap (λ b. if b then take_body rt peer r now else now) h.awaiting
                ∙ ap (λ b. if b then process_request rt peer last else now) enough)) in
      steps
      ∙ (ap (process_request rt peer) whole
          ∙ process_request-await (record now { timeout_armed = false }) r bare loop waits)

  again-IsServing :
      (c : Connection Cert) (r : MisfinRequest Cert) (more : Bytes)
      → IsServing c r
      → IsServing (again c r more) r
  unfolding again
  again-IsServing c r more h = record {
    headed = h.headed;
    awaiting = h.awaiting;
    held = refl;
    sized = h.sized;
    rest = h.rest ++ more;
    spelled = ap (λ b. b ++ more) h.spelled ∙ append_assoc r.raw_message h.rest more;
  }

  -- one start for each piece
  unfoldable pub starts : MisfinRequest Cert → List Bytes → List (Job Cert)
  starts r [] = []
  starts r (piece ∷ pieces) = await_handler r ∷ starts r pieces

  -- Without middleware and with the event loop running: a connection that holds a request with the
  -- body of its stated length and still awaits the body, as it does once it has started the handler
  -- on the request, starts it again, on the same request, for each further piece of data.
  pub receive_all-again :
      (c : Connection Cert) (r : MisfinRequest Cert) (pieces : List Bytes)
      → peer.middleware ≡ false
      → peer.loop_running ≡ true
      → peer.message_handler r ≡ awaitable
      → IsServing c r
      → (receive_all rt peer c pieces).jobs ≡ c.jobs ++ starts r pieces
  unfolding receive_all starts again
  receive_all-again c r [] bare loop waits h = sym (append-nil c.jobs)
  receive_all-again c r (more ∷ pieces) bare loop waits h =
      ap (λ x. (receive_all rt peer x pieces).jobs) (data_received-again c r more bare loop waits h)
      ∙ (receive_all-again (again c r more) r pieces bare loop waits (again-IsServing c r more h)
          ∙ append_assoc c.jobs (await_handler r ∷ []) (starts r pieces))
