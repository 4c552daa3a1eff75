-- ===== src/Gmap/Connection/Chunks.antt =====
-- src/titlani/gmap/protocol.py does not depend on how the request is cut into chunks.
use titlani.Base.{
  ◌≤◌, true, false, List, [], ◌∷◌, ◌++◌, append_assoc, append-nil, none, some, ltb, length,
  length-append, All, ◌≡◌, ◌≢◌, refl, ap, sym, ◌∙◌, arith, Option-cases, inl, inr,
}
use titlani.Str.Core.{Bytes}
use titlani.Str.Split.{split_crlf}
use titlani.Str.Crlf.{split_crlf-more}
use titlani.Gmap.Connection.{
  Peer, Connection, connection_made, take_line, take_buffer, data_received, max_gemini_request_size,
}

unfoldable pub joined : List Bytes → Bytes
joined [] = []
joined (chunk ∷ chunks) = chunk ++ joined chunks

append-eq-nil : (a b : Bytes) → a ++ b ≡ [] → (a ≡ []) × (b ≡ [])
append-eq-nil [] b h = (refl, h)
append-eq-nil (x ∷ a) b h = cc h

module _ {Cert : Type 0} (peer : Peer Cert) where
  unfoldable pub receive_all : List Bytes → Connection peer → Connection peer
  receive_all [] c = c
  receive_all (chunk ∷ chunks) c = receive_all chunks (data_received peer chunk c)

  -- The connection that waits for more, and holds these bytes.
  unfoldable pub waiting : Bytes → Connection peer
  unfolding connection_made
  waiting held = record (connection_made peer) { received_first_byte = true; buffer = held }

  take_buffer_short :
      (held : Bytes)
      → split_crlf held ≡ none
      → length held ≤ max_gemini_request_size
      → take_buffer peer (waiting held) ≡ waiting held
  unfolding take_buffer waiting
  take_buffer_short held e h =
      let s : ltb max_gemini_request_size (length held) ≡ false = ground arith in
      rw (take_buffer, e, s)

  data_received-waiting :
      (held chunk : Bytes)
      → data_received peer chunk (waiting held) ≡ take_buffer peer (waiting (held ++ chunk))
  unfolding data_received waiting
  data_received-waiting held chunk = refl

  take_buffer_full :
      (held : Bytes) {line rest : Bytes}
      → split_crlf held ≡ some (line, rest)
      → take_buffer peer (waiting held) ≡ take_line peer line (waiting held)
  unfolding take_buffer waiting
  take_buffer_full held e = rw (take_buffer, e)

  receive_all-waiting :
      (held : Bytes) (chunks : List Bytes) (line : Bytes)
      → All (λ chunk. chunk ≢ []) chunks
      → chunks ≢ []
      → split_crlf (held ++ joined chunks) ≡ some (line, [])
      → length (held ++ joined chunks) ≤ max_gemini_request_size
      → receive_all chunks (waiting held) ≡ take_line peer line (waiting (held ++ joined chunks))
  unfolding receive_all joined
  receive_all-waiting held [] line full some_left e small = absurd (some_left refl)
  receive_all-waiting held (chunk ∷ []) line full some_left e small =
      let w : held ++ (chunk ++ []) ≡ held ++ chunk = ap (λ b. held ++ b) (append-nil chunk) in
      let e' : split_crlf (held ++ chunk) ≡ some (line, []) = ap split_crlf (sym w) ∙ e in
      data_received-waiting held chunk
      ∙ (take_buffer_full (held ++ chunk) e' ∙ ap (λ b. take_line peer line (waiting b)) (sym w))
  receive_all-waiting held (chunk ∷ next ∷ chunks) line (_, (next_full, full)) some_left e small =
      let later = next ++ joined chunks in
      let w : (held ++ chunk) ++ later ≡ held ++ (chunk ++ later) = append_assoc held chunk later in
      elim (Option-cases (split_crlf (held ++ chunk))) [
        | inr ((l, rest), f) ↦
            let g = split_crlf-more (held ++ chunk) later f in
            let none_left : rest ++ later ≡ [] = cc (g, ap split_crlf w, e) in
            absurd (
              next_full
                (append-eq-nil next (joined chunks) (append-eq-nil rest later none_left).1).0)
        | inl f ↦
            let fits : length (held ++ chunk) ≤ max_gemini_request_size =
              omega (arith, small, ap length w, length-append (held ++ chunk) later) in
            let first : data_received peer chunk (waiting held) ≡ waiting (held ++ chunk) =
              data_received-waiting held chunk ∙ take_buffer_short (held ++ chunk) f fits in
            let rest =
              receive_all-waiting (held ++ chunk) (next ∷ chunks) line (next_full, full) (λ q. cc q)
                (ap split_crlf w ∙ e) (rw w small) in
            ap (receive_all (next ∷ chunks)) first
            ∙ (rest ∙ ap (λ b. take_line peer line (waiting b)) w)
      ]

  -- However a request line of at most 1024 bytes is cut into chunks, none empty, of which the last one
  -- completes it, it is taken once, with all of its bytes: the handler is called, or the error of the
  -- parser answered, from the state that has waited for the bytes and has sent and started nothing.
  pub receive_all-take_line :
      (chunks : List Bytes) (line : Bytes)
      → All (λ chunk. chunk ≢ []) chunks
      → split_crlf (joined chunks) ≡ some (line, [])
      → length (joined chunks) ≤ max_gemini_request_size
      → receive_all chunks (connection_made peer) ≡ take_line peer line (waiting (joined chunks))
  unfolding receive_all joined data_received waiting connection_made split_crlf
  receive_all-take_line [] line full e small = cc e
  receive_all-take_line (chunk ∷ chunks) line full e small =
      receive_all-waiting [] (chunk ∷ chunks) line full (λ q. cc q) e small
