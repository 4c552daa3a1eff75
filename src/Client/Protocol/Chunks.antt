-- ===== src/Client/Protocol/Chunks.antt =====
-- src/titlani/client/protocol.py does not depend on how the response is cut into chunks.
use titlani.Base.{
  ◌≤◌, true, false, List, [], ◌∷◌, ◌++◌, append_assoc, append-nil, Option, none, some, ltb, length,
  length-append, is_some, ◌≡◌, refl, ap, sym, ◌∙◌, arith, Option-cases, Bool-cases, inl, inr, subst,
}
use titlani.Str.Core.{Text, Bytes}
use titlani.Str.Split.{split_crlf}
use titlani.Str.Crlf.{split_crlf-more}
use titlani.Protocol.Constants.{max_response_size}
use titlani.Server.Connection.{Action, close}
use titlani.Client.Protocol.{
  Settled, closed_early, lost, MisfinClientProtocol, new, call, settle, connection_made, parse_line,
  take_header, check_size, data_received, connection_lost,
}

unfoldable pub receive_all : List Bytes → MisfinClientProtocol → MisfinClientProtocol
receive_all [] c = c
receive_all (chunk ∷ chunks) c = receive_all chunks (data_received chunk c)

unfoldable pub whole : List Bytes → Bytes
whole [] = []
whole (chunk ∷ chunks) = chunk ++ whole chunks

-- The outcome by the stream alone: its first line, if it has one.
unfoldable pub answer_in : Bytes → Option Settled
answer_in stream = elim (split_crlf stream) [
  | none ↦ none
  | some (line, _) ↦ some (parse_line line)
]

-- The outcome when the connection is lost.
unfoldable pub final_answer : Bytes → Option Text → Settled
final_answer stream exc = elim (split_crlf stream) [
  | some (line, _) ↦ parse_line line
  | none ↦ elim exc [ none ↦ closed_early | some text ↦ lost text ]
]

record IsReading (stream : Bytes) (c : MisfinClientProtocol) : Type 0 where
  held : c.buffer ≡ stream
  noted : c.header_received ≡ is_some (split_crlf stream)
  answered : c.response_future ≡ answer_in stream

check_size_small :
    (c : MisfinClientProtocol) → length c.buffer ≤ max_response_size → check_size c ≡ c
unfolding check_size
check_size_small c h =
    let e : ltb max_response_size (length c.buffer) ≡ false = ground arith in rw (check_size, e)

answer_in-some :
    (stream : Bytes) {line rest : Bytes}
    → split_crlf stream ≡ some (line, rest)
    → answer_in stream ≡ some (parse_line line)
unfolding answer_in
answer_in-some stream e = rw (answer_in, e)

answer_in-none : (stream : Bytes) → split_crlf stream ≡ none → answer_in stream ≡ none
unfolding answer_in
answer_in-none stream e = rw (answer_in, e)

call-IsReading :
    (stream : Bytes) (action : Action) (c : MisfinClientProtocol)
    → IsReading stream c
    → IsReading stream (call action c)
unfolding call
call-IsReading stream action c r = elim (Bool-cases c.is_connected) [
  | inl e ↦ rw (call, e) (record { held = r.held; noted = r.noted; answered = r.answered })
  | inr e ↦ rw (call, e) (record { held = r.held; noted = r.noted; answered = r.answered })
]

take_header-IsReading :
    (stream chunk : Bytes) (c : MisfinClientProtocol)
    → IsReading stream c
    → IsReading (stream ++ chunk) (take_header (record c { buffer = c.buffer ++ chunk }))
unfolding take_header settle
take_header-IsReading stream chunk c r =
    let held : c.buffer ++ chunk ≡ stream ++ chunk = ap (λ b. b ++ chunk) r.held in
    elim (Option-cases (split_crlf stream)) [
      | inr ((line, rest), e) ↦
          let seen : c.header_received ≡ true = r.noted ∙ ap is_some e in
          let more = split_crlf-more stream chunk e in
          rw (take_header, seen)
            (record {
              held = held;
              noted = seen ∙ sym (ap is_some more);
              answered =
                  r.answered
                  ∙ (answer_in-some stream e ∙ sym (answer_in-some (stream ++ chunk) more));
            })
      | inl e ↦
          let unseen : c.header_received ≡ false = r.noted ∙ ap is_some e in
          let pending : c.response_future ≡ none = r.answered ∙ answer_in-none stream e in
          elim (Option-cases (split_crlf (stream ++ chunk))) [
            | inl f ↦
                rw (take_header, unseen, held, f)
                  (record {
                    held = held;
                    noted = unseen ∙ sym (ap is_some f);
                    answered = pending ∙ sym (answer_in-none (stream ++ chunk) f);
                  })
            | inr ((line, rest), f) ↦
                rw (take_header, unseen, held, f, pending)
                  (call-IsReading (stream ++ chunk) close
                    (record c {
                      buffer = c.buffer ++ chunk;
                      header_received = true;
                      response_future = some (parse_line line);
                    })
                    (record {
                      held = held;
                      noted = sym (ap is_some f);
                      answered = sym (answer_in-some (stream ++ chunk) f);
                    }))
          ]
    ]

data_received-IsReading :
    (stream chunk : Bytes) (c : MisfinClientProtocol)
    → length (stream ++ chunk) ≤ max_response_size
    → IsReading stream c
    → IsReading (stream ++ chunk) (data_received chunk c)
unfolding data_received
data_received-IsReading stream chunk c small r =
    let taken = take_header-IsReading stream chunk c r in
    let size : length (take_header (record c { buffer = c.buffer ++ chunk })).buffer
        ≤ max_response_size =
      rw (taken.held) small in
    subst (IsReading (stream ++ chunk)) (sym (check_size_small _ size)) taken

receive_all-IsReading :
    (stream : Bytes) (chunks : List Bytes) (c : MisfinClientProtocol)
    → length (stream ++ whole chunks) ≤ max_response_size
    → IsReading stream c
    → IsReading (stream ++ whole chunks) (receive_all chunks c)
unfolding receive_all whole
receive_all-IsReading stream [] c small r = rw (append-nil stream) r
receive_all-IsReading stream (chunk ∷ chunks) c small r =
    let joined : (stream ++ chunk) ++ whole chunks ≡ stream ++ (chunk ++ whole chunks) =
      append_assoc stream chunk (whole chunks) in
    let fits : length (stream ++ chunk) ≤ max_response_size =
      omega (arith, small, ap length joined, length-append (stream ++ chunk) (whole chunks)) in
    subst (λ b. IsReading b (receive_all (chunk ∷ chunks) c)) joined
      (receive_all-IsReading (stream ++ chunk) chunks (data_received chunk c) (rw joined small)
        (data_received-IsReading stream chunk c fits r))

connection_made-IsReading : (request : Bytes) → IsReading [] (connection_made (new request))
unfolding connection_made call split_crlf answer_in
connection_made-IsReading request = record { held = refl; noted = refl; answered = refl }

connection_lost-final_answer :
    (stream : Bytes) (exc : Option Text) (c : MisfinClientProtocol)
    → IsReading stream c
    → (connection_lost exc c).response_future ≡ some (final_answer stream exc)
unfolding connection_lost final_answer
connection_lost-final_answer stream exc c r = elim (Option-cases (split_crlf stream)) [
  | inr ((line, rest), e) ↦
      let q : c.response_future ≡ some (parse_line line) = r.answered ∙ answer_in-some stream e in
      rw (connection_lost, q, final_answer, e, q)
  | inl e ↦
      let q : c.response_future ≡ none = r.answered ∙ answer_in-none stream e in
      let u : c.header_received ≡ false = r.noted ∙ ap is_some e in
      elim (Option-cases exc) [
        | inl f ↦ rw (connection_lost, q, f, u, final_answer, e, f)
        | inr (text, f) ↦ rw (connection_lost, q, f, final_answer, e, f)
      ]
]

-- However a response of at most MAX_RESPONSE_SIZE bytes is cut into chunks, the future is settled by
-- the first line as soon as that line is complete and not before; and when the connection is lost,
-- the future is settled: by that line, or else by what the connection was lost with.
pub receive_all-answer_in :
    (request : Bytes) (chunks : List Bytes) (exc : Option Text)
    → length (whole chunks) ≤ max_response_size
    → let c = receive_all chunks (connection_made (new request)) in
      (c.response_future ≡ answer_in (whole chunks))
      × ((connection_lost exc c).response_future ≡ some (final_answer (whole chunks) exc))
receive_all-answer_in request chunks exc small =
    let r =
      receive_all-IsReading [] chunks (connection_made (new request)) small
        (connection_made-IsReading request) in
    (
      r.answered,
      connection_lost-final_answer (whole chunks) exc
          (receive_all chunks (connection_made (new request))) r,
    )
