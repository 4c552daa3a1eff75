-- ===== src/Server/Connection/Chunks.antt =====
-- A request that arrives in pieces, for `MisfinServerProtocol` of src/titlani/server/protocol.py.
use titlani.Base.{
  ℕ, ◌+◌, ◌≤◌, ◌<◌, true, false, List, [], ◌∷◌, ◌++◌, ◌==◌, Option, none, some, leb, ltb, length,
  take, ok, ◌≡◌, ◌≢◌, refl, ap, sym, ◌∙◌, arith, All, append_assoc, append-nil, length-append,
  Bool-cases, Option-cases, inl, inr, subst,
}
use titlani.Str.Core.{Bytes}
use titlani.Str.Split.{split_crlf}
use titlani.Str.Crlf.{split_crlf-more, split_crlf-none-short, split_crlf_spells}
use titlani.Runtime.{Runtime}
use titlani.Protocol.Constants.{max_b_request_size}
use titlani.Protocol.Request.{MisfinRequest, version_c, from_header}
use titlani.Protocol.Request.Sound.{from_header-IsHeader}
use titlani.Server.Connection.{
  Peer, Connection, connection_made, process_request, attach, is_b, parse_header, take_body,
  header_done, receive_header, more_body, data_received, receive_all,
}

-- What the chunks are together.
abbrev pub joined : List Bytes → Bytes
joined [] = []
joined (bytes ∷ rest) = bytes ++ joined rest

take_all : (b : Bytes) → take (length b) b ≡ b
take_all [] = refl
take_all (c ∷ b) = rw (take_all b)

length-nonzero : (b : Bytes) → b ≢ [] → {n : ℕ} → n ≡ length b → (n == 0) ≡ false
length-nonzero [] ne q = absurd (ne refl)
length-nonzero (c ∷ b) ne q = ground arith

split_crlf-nil : split_crlf [] ≡ none
unfolding split_crlf
split_crlf-nil = refl

module _ (rt : Runtime) (peer : Peer rt.Cert) (line body : Bytes) (r : MisfinRequest rt.Cert)
    (parsed : from_header line ≡ ok r) (sized : r.content_length ≡ length body)
    (nonempty : body ≢ []) where
  open rt use {Cert}

  abbrev pub attached : MisfinRequest Cert
  attached = attach rt peer peer.certificate r

  attach-length : (cert : Option Cert) → (attach rt peer cert r).content_length ≡ r.content_length
  unfolding attach
  attach-length none = refl
  attach-length (some c) = refl

  attach-version :
      (cert : Option Cert) → (attach rt peer cert r).protocol_version ≡ r.protocol_version
  unfolding attach
  attach-version none = refl
  attach-version (some c) = refl

  -- The connection before the line end, and between the line end and the end of the body.
  pub waiting : Bytes → Connection Cert
  waiting p = record (connection_made rt peer) { buffer = p; received_first_byte = true }

  pub reading : Bytes → Connection Cert
  reading rest = record (connection_made rt peer) {
    buffer = rest;
    received_first_byte = true;
    header_received = true;
    awaiting_body = true;
    request = some attached;
  }

  -- The connection that has the whole request, about to process it.
  pub complete : Connection Cert
  complete = record (reading body) {
    timeout_armed = false;
    request = some (record attached { raw_message = body });
  }

  take_body-short :
      (rest : Bytes)
      → length rest < length body
      → take_body rt peer attached (reading rest) ≡ reading rest
  unfolding take_body reading
  take_body-short rest lt =
      let e : leb attached.content_length (length rest) ≡ false =
        rw (attach-length peer.certificate, sized) (ground arith) in
      rw e

  take_body-complete : take_body rt peer attached (reading body) ≡ process_request rt peer complete
  unfolding take_body reading complete
  take_body-complete =
      let n : attached.content_length ≡ length body = attach-length peer.certificate ∙ sized in
      let e : leb attached.content_length (length body) ≡ true = rw n (ground arith) in
      rw (e, n, take_all body)

  receive_header-none :
      (q : Bytes)
      → split_crlf q ≡ none
      → length q < length line + 2
      → receive_header rt peer (waiting q) ≡ waiting q
  unfolding receive_header waiting connection_made
  receive_header-none q e short =
      let fits = (from_header-IsHeader line parsed).line_fits in
      let e' : ltb max_b_request_size (length q) ≡ false = ground arith in
      rw (receive_header, e, e')

  header_done-reading :
      (rest : Bytes)
      → header_done rt peer r (record (waiting rest) { header_received = true })
        ≡ take_body rt peer attached (reading rest)
  unfolding header_done waiting reading is_b connection_made
  header_done-reading rest =
      let c : r.protocol_version ≡ version_c = (from_header-IsHeader line parsed).version in
      let n : (r.content_length == 0) ≡ false = length-nonzero body nonempty sized in rw (c, n)

  parse_header-ok : parse_header rt peer line ≡ ok r
  unfolding parse_header
  parse_header-ok = rw (parsed, parse_header)

  receive_header-some :
      (q rest : Bytes)
      → split_crlf q ≡ some (line, rest)
      → receive_header rt peer (waiting q) ≡ take_body rt peer attached (reading rest)
  unfolding receive_header waiting connection_made
  receive_header-some q rest e = rw (receive_header, e, parse_header-ok, header_done-reading rest)

  -- Nothing has been done with the request: no task and no call of the transport.
  pub record IsIdle (c : Connection Cert) : Type 0 where
    pub no_jobs : c.jobs ≡ []
    pub no_calls : c.calls ≡ []
    pub timeout_kept : c.timeout_armed ≡ peer.loop_running

  reading-IsIdle : (rest : Bytes) → IsIdle (reading rest)
  unfolding reading connection_made
  reading-IsIdle rest = record { no_jobs = refl; no_calls = refl; timeout_kept = refl }

  waiting-IsIdle : (q : Bytes) → IsIdle (waiting q)
  unfolding waiting connection_made
  waiting-IsIdle q = record { no_jobs = refl; no_calls = refl; timeout_kept = refl }

  last_chunk :
      (q : Bytes) (ds : List Bytes)
      → All (λ b. b ≢ []) ds
      → q ++ joined ds ≡ body
      → length body ≤ length q
      → (ds ≡ []) × (q ≡ body)
  last_chunk q [] h s le = (refl, sym (append-nil q) ∙ s)
  last_chunk q ([] ∷ ds) (hd, h) s le = absurd (hd refl)
  last_chunk q ((c ∷ d) ∷ ds) (hd, h) s le =
      absurd (omega (arith, le, ap length s, length-append q ((c ∷ d) ++ joined ds)))

  reading_step :
      (rest d : Bytes)
      → data_received rt peer (reading rest) d ≡ take_body rt peer attached (reading (rest ++ d))
  unfolding data_received more_body reading connection_made
  reading_step rest d = refl

  -- Where the body is whole, the request is processed, and nothing follows.
  finish :
      (rest : Bytes) (ds : List Bytes)
      → All (λ b. b ≢ []) ds
      → rest ++ joined ds ≡ body
      → length body ≤ length rest
      → receive_all rt peer (take_body rt peer attached (reading rest)) ds
        ≡ process_request rt peer complete
  unfolding receive_all
  finish rest ds h s le =
      let (no_more, whole) = last_chunk rest ds h s le in rw (no_more, whole, take_body-complete)

  body_phase :
      (rest : Bytes) (ds : List Bytes)
      → All (λ b. b ≢ []) ds
      → rest ++ joined ds ≡ body
      → length rest < length body
      → receive_all rt peer (reading rest) ds ≡ process_request rt peer complete
  unfolding receive_all
  body_phase rest [] h s lt = absurd (omega (arith, lt, ap length (sym (append-nil rest) ∙ s)))
  body_phase rest (d ∷ ds) (hd, h) s lt =
      let s' : (rest ++ d) ++ joined ds ≡ body = append_assoc rest d (joined ds) ∙ s in
      elim (Bool-cases (ltb (length (rest ++ d)) (length body))) [
        | inl e ↦
            rw (reading_step rest d, take_body-short (rest ++ d) (ground arith))
              (body_phase (rest ++ d) ds h s' (ground arith))
        | inr e ↦ rw (reading_step rest d) (finish (rest ++ d) ds h s' (ground arith))
      ]

  header_found :
      (q rest : Bytes) (ds : List Bytes)
      → All (λ b. b ≢ []) ds
      → rest ++ joined ds ≡ body
      → split_crlf q ≡ some (line, rest)
      → receive_all rt peer (receive_header rt peer (waiting q)) ds
        ≡ process_request rt peer complete
  header_found q rest ds h s e = elim (Bool-cases (ltb (length rest) (length body))) [
    | inl f ↦
        rw (receive_header-some q rest e, take_body-short rest (ground arith))
          (body_phase rest ds h s (ground arith))
    | inr f ↦ rw (receive_header-some q rest e) (finish rest ds h s (ground arith))
  ]

  header_phase :
      (stream q : Bytes) (ds : List Bytes)
      → split_crlf stream ≡ some (line, body)
      → All (λ b. b ≢ []) ds
      → q ++ joined ds ≡ stream
      → receive_all rt peer (receive_header rt peer (waiting q)) ds
        ≡ process_request rt peer complete
  unfolding receive_all data_received waiting connection_made
  header_phase stream q [] whole h s =
      header_found q body [] h (append-nil body) (ap split_crlf (sym (append-nil q) ∙ s) ∙ whole)
  header_phase stream q (d ∷ ds) whole (hd, h) s = elim (Option-cases (split_crlf q)) [
    | inr ((l, rest), e) ↦
        let found : split_crlf stream ≡ some (l, rest ++ joined (d ∷ ds)) =
          subst (λ x. split_crlf x ≡ some (l, rest ++ joined (d ∷ ds))) s
            (split_crlf-more q (joined (d ∷ ds)) e) in
        let same_line : l ≡ line = cc (found, whole) in
        let same_body : rest ++ joined (d ∷ ds) ≡ body = cc (found, whole) in
        header_found q rest (d ∷ ds) (hd, h) same_body (e ∙ ap (λ x. some (x, rest)) same_line)
    | inl e ↦
        let short =
          split_crlf-none-short line body q (joined (d ∷ ds)) e
            (s ∙ split_crlf_spells stream whole) in
        ap (λ c. receive_all rt peer c (d ∷ ds)) (receive_header-none q e short)
        ∙ header_phase stream (q ++ d) ds whole h (append_assoc q d (joined ds) ∙ s)
  ]

  -- However a request with a header in format C and a body is cut into chunks, none of them empty,
  -- the connection processes it when the last one arrives: once, with all of the body, and with the
  -- timeout cancelled.
  pub receive_all-complete :
      (stream : Bytes) (chunks : List Bytes)
      → split_crlf stream ≡ some (line, body)
      → All (λ b. b ≢ []) chunks
      → joined chunks ≡ stream
      → receive_all rt peer (connection_made rt peer) chunks ≡ process_request rt peer complete
  unfolding receive_all data_received waiting connection_made
  receive_all-complete stream [] whole h s =
      let e : split_crlf [] ≡ some (line, body) = ap split_crlf s ∙ whole in cc (e, split_crlf-nil)
  receive_all-complete stream (d ∷ ds) whole (hd, h) s = header_phase stream d ds whole h s

  short_of :
      (q t : Bytes) (ds : List Bytes)
      → t ≢ []
      → (q ++ joined ds) ++ t ≡ body
      → length q < length body
  short_of q [] ds ne s = absurd (ne refl)
  short_of q (c ∷ t) ds ne s =
      omega
        (arith, ap length s, length-append (q ++ joined ds) (c ∷ t), length-append q (joined ds))

  body-IsIdle :
      (rest t : Bytes) (ds : List Bytes)
      → t ≢ []
      → (rest ++ joined ds) ++ t ≡ body
      → IsIdle (receive_all rt peer (take_body rt peer attached (reading rest)) ds)
  unfolding receive_all
  body-IsIdle rest t [] ne s =
      subst IsIdle (sym (take_body-short rest (short_of rest t [] ne s))) (reading-IsIdle rest)
  body-IsIdle rest t (d ∷ ds) ne s =
      subst (λ c. IsIdle (receive_all rt peer c (d ∷ ds)))
        (sym (take_body-short rest (short_of rest t (d ∷ ds) ne s)))
        (subst (λ c. IsIdle (receive_all rt peer c ds)) (sym (reading_step rest d))
          (body-IsIdle (rest ++ d) t ds ne
            (ap (λ x. x ++ t) (append_assoc rest d (joined ds)) ∙ s)))

  found-IsIdle :
      (stream q t : Bytes) (ds : List Bytes) (l rest : Bytes)
      → split_crlf stream ≡ some (line, body)
      → split_crlf q ≡ some (l, rest)
      → t ≢ []
      → (q ++ joined ds) ++ t ≡ stream
      → IsIdle (receive_all rt peer (receive_header rt peer (waiting q)) ds)
  found-IsIdle stream q t ds l rest whole e ne s =
      let found : split_crlf stream ≡ some (l, (rest ++ joined ds) ++ t) =
        subst (λ x. split_crlf x ≡ some (l, (rest ++ joined ds) ++ t)) s
          (split_crlf-more (q ++ joined ds) t (split_crlf-more q (joined ds) e)) in
      let same_line : l ≡ line = cc (found, whole) in
      let same_body : (rest ++ joined ds) ++ t ≡ body = cc (found, whole) in
      subst (λ c. IsIdle (receive_all rt peer c ds))
        (sym (receive_header-some q rest (e ∙ ap (λ x. some (x, rest)) same_line)))
        (body-IsIdle rest t ds ne same_body)

  still_waiting :
      (stream q t : Bytes) (ds : List Bytes)
      → split_crlf stream ≡ some (line, body)
      → split_crlf q ≡ none
      → (q ++ joined ds) ++ t ≡ stream
      → receive_header rt peer (waiting q) ≡ waiting q
  still_waiting stream q t ds whole e s = receive_header-none q e (
      split_crlf-none-short line body q (joined ds ++ t) e
        (sym (append_assoc q (joined ds) t) ∙ (s ∙ split_crlf_spells stream whole)))

  header-IsIdle :
      (stream q t : Bytes) (ds : List Bytes)
      → split_crlf stream ≡ some (line, body)
      → t ≢ []
      → (q ++ joined ds) ++ t ≡ stream
      → IsIdle (receive_all rt peer (receive_header rt peer (waiting q)) ds)
  unfolding receive_all data_received waiting connection_made
  header-IsIdle stream q t [] whole ne s = elim (Option-cases (split_crlf q)) [
    | inr ((l, rest), e) ↦ found-IsIdle stream q t [] l rest whole e ne s
    | inl e ↦ subst IsIdle (sym (still_waiting stream q t [] whole e s)) (waiting-IsIdle q)
  ]
  header-IsIdle stream q t (d ∷ ds) whole ne s = elim (Option-cases (split_crlf q)) [
    | inr ((l, rest), e) ↦ found-IsIdle stream q t (d ∷ ds) l rest whole e ne s
    | inl e ↦
        subst (λ c. IsIdle (receive_all rt peer c (d ∷ ds)))
          (sym (still_waiting stream q t (d ∷ ds) whole e s))
          (header-IsIdle stream (q ++ d) t ds whole ne
            (ap (λ x. x ++ t) (append_assoc q d (joined ds)) ∙ s))
  ]

  -- As long as the end of the request is missing, the connection starts no task, sends nothing and
  -- keeps its timeout, however what has arrived was cut into chunks.
  pub receive_all-IsIdle :
      (stream t : Bytes) (chunks : List Bytes)
      → split_crlf stream ≡ some (line, body)
      → t ≢ []
      → joined chunks ++ t ≡ stream
      → IsIdle (receive_all rt peer (connection_made rt peer) chunks)
  unfolding receive_all data_received waiting connection_made
  receive_all-IsIdle stream t [] whole ne s = record {
    no_jobs = refl;
    no_calls = refl;
    timeout_kept = refl;
  }
  receive_all-IsIdle stream t (d ∷ ds) whole ne s = header-IsIdle stream d t ds whole ne s
