-- ===== src/Client/Bounds.antt =====
-- How many connections src/titlani/client/session.py makes for one message.
use titlani.Base.{
  ℕ, zero, suc, ◌+◌, ◌*◌, ◌≤◌, true, ◌&&◌, List, [], ◌∷◌, ◌≡◌, refl, ap, arith, inl, inr,
  Bool-cases, Option-cases, ok, err, Result-cases,
}
use titlani.Str.Core.{Text, Bytes, codes}
use titlani.Str.Split.{rsplit_once}
use titlani.Runtime.{Runtime}
use titlani.Protocol.Constants.{max_redirects}
use titlani.Protocol.Request.{MisfinRequest, to_bytes, to_bytes_b}
use titlani.Protocol.Response.{MisfinResponse, redirect_address}
use titlani.Client.{
  Tofu, Attempt, connect_timed_out, connect_failed, connected, replied, reply_timed_out,
  reply_failed, Event, dialled, slept, MisfinClient, Session, Outcome, has_status, wait,
  check_certificate, on_attempt, send_request_once, attempts, retry, dial, on_attempt_b,
  send_request_b, settle, request_to, send_to, send_request, send_raw, is_c, is_fallback_status,
}
use titlani.Protocol.Status.{slow_down, permanent_failure}
use titlani.Server.Commands.{respond}

-- The connections among what the client did.
unfoldable pub connections : List Event → ℕ
connections [] = 0
connections (dialled hostname request_bytes ∷ es) = suc (connections es)
connections (slept delay ∷ es) = connections es

module _ (rt : Runtime) (tofu : Tofu rt.Cert) (client : MisfinClient)
    (network : List Event → Attempt rt.Cert) where
  open rt use {Cert}
  open tofu use {Db}

  -- A call, with the connections that it makes counted.
  abbrev made : Outcome rt tofu client network → ℕ
  made p = connections p.1.trace

  on_attempt-trace :
      (hostname : Text) (a : Attempt Cert) (s : Session Db)
      → made (on_attempt rt tofu client network hostname a s) ≡ connections s.trace
  unfolding on_attempt
  on_attempt-trace hostname connect_timed_out s = refl
  on_attempt-trace hostname (connect_failed text) s = refl
  on_attempt-trace hostname (connected cert reply) s =
      elim (Result-cases (check_certificate rt tofu client network hostname cert s.tofu_db)) [
        | inl (db, e) ↦ rw (made, on_attempt, e)
        | inr (x, e) ↦ rw (made, on_attempt, e)
      ]

  send_request_once-made :
      (hostname : Text) (r : MisfinRequest Cert) (s : Session Db)
      → made (send_request_once rt tofu client network hostname r s) ≡ suc (connections s.trace)
  unfolding send_request_once dial connections
  send_request_once-made hostname r s =
      on_attempt-trace hostname (dial rt tofu client network hostname (to_bytes r) s).0
        (dial rt tofu client network hostname (to_bytes r) s).1

  pub retry-true :
      (n : ℕ) (hostname : Text) (r : MisfinRequest Cert) (response : MisfinResponse)
      (s : Session Db)
      → has_status slow_down response.status ≡ true
      → retry rt tofu client network (suc n) hostname r (ok response, s)
        ≡ retry rt tofu client network n hostname r (
            send_request_once rt tofu client network hostname r
              (wait rt tofu client network response.meta s))
  unfolding retry
  retry-true n hostname r response s e = rw (retry, e)

  retry-made :
      (n : ℕ) (hostname : Text) (r : MisfinRequest Cert) (p : Outcome rt tofu client network)
      → made (retry rt tofu client network n hostname r p) ≤ made p + n
  unfolding retry wait connections
  retry-made zero hostname r p = omega arith
  retry-made (suc n) hostname r (err e, s) = omega arith
  retry-made (suc n) hostname r (ok response, s) =
      elim (Bool-cases (has_status slow_down response.status)) [
        | inl e ↦
            let waited = wait rt tofu client network response.meta s in
            let once = send_request_once rt tofu client network hostname r waited in
            rw (retry-true n hostname r response s e) (
              omega (arith, retry-made n hostname r once, send_request_once-made hostname r waited))
        | inr e ↦ rw (made, retry, e) (omega arith)
      ]

  on_attempt_b-trace :
      (a : Attempt Cert) (s : Session Db) → (on_attempt_b rt tofu client network a s).1 ≡ s
  unfolding on_attempt_b
  on_attempt_b-trace connect_timed_out s = refl
  on_attempt_b-trace (connect_failed text) s = refl
  on_attempt_b-trace (connected cert (replied response)) s = refl
  on_attempt_b-trace (connected cert reply_timed_out) s = refl
  on_attempt_b-trace (connected cert (reply_failed text)) s = refl

  send_request_b-made :
      (hostname : Text) (r : MisfinRequest Cert) (s : Session Db)
      → made (send_request_b rt tofu client network hostname r s) ≤ suc (connections s.trace)
  unfolding send_request_b dial connections
  send_request_b-made hostname r s = elim (Result-cases (to_bytes_b r)) [
    | inr (x, e) ↦ rw (made, send_request_b, e) (omega arith)
    | inl (bytes, e) ↦
        let (a, s') = dial rt tofu client network hostname bytes s in
        let q = ap (λ x. connections x.trace) (on_attempt_b-trace a s') in
        rw (made, send_request_b, e, q) (omega arith)
  ]

  settle-made :
      (follow : Text → Session Db → Outcome rt tofu client network) (hostname : Text)
      (r : MisfinRequest Cert) (p : Outcome rt tofu client network) (m : ℕ)
      → 1 ≤ m
      → ((target : Text) (s : Session Db) → made (follow target s) ≤ connections s.trace + m)
      → made (settle rt tofu client network follow hostname r p) ≤ made p + m
  unfolding settle
  settle-made follow hostname r (err e, s) m one h = omega arith
  settle-made follow hostname r (ok response, s) m one h =
      elim (Option-cases (redirect_address response)) [
        | inr (target, e) ↦ rw (made, settle, e) (h target s)
        | inl e ↦
            let b =
              client.misfin_b_fallback
              && is_c r.protocol_version
              && is_fallback_status response.status in
            elim (Bool-cases b) [
              | inl f ↦ rw (made, settle, e, f) (omega (arith, send_request_b-made hostname r s))
              | inr f ↦ rw (made, settle, e, f) (omega arith)
            ]
      ]

  -- what one round of the retries makes
  abbrev round : ℕ
  round = suc client.max_retries

  round-made :
      (hostname : Text) (r : MisfinRequest Cert) (s : Session Db)
      → made (attempts rt tofu client network hostname r s) ≤ connections s.trace + round
  round-made hostname r s =
      let once = send_request_once rt tofu client network hostname r s in
      omega
        (arith, retry-made client.max_retries hostname r once, send_request_once-made hostname r s)

  send_to-made :
      (send : Text → MisfinRequest Cert → Session Db → Outcome rt tofu client network) (to : Text)
      (bytes : Bytes) (s : Session Db) (m : ℕ)
      → ((hostname : Text) (r : MisfinRequest Cert)
          → made (send hostname r s) ≤ connections s.trace + m)
      → made (send_to rt tofu client network send to bytes s) ≤ connections s.trace + m
  unfolding send_to
  send_to-made send to bytes s m h = elim (Option-cases (rsplit_once b'@' to)) [
    | inl e ↦ rw (made, send_to, e) (omega arith)
    | inr ((mailbox, hostname), e) ↦
        rw (made, send_to, e) (h hostname (request_to rt mailbox hostname bytes))
  ]

  abbrev pub too_many : Text → Session Db → Outcome rt tofu client network
  too_many target s = (ok (respond permanent_failure (codes "Too many redirects")), s)

  pub send_request-made :
      (left : ℕ) (hostname : Text) (r : MisfinRequest Cert) (s : Session Db)
      → made (send_request rt tofu client network left hostname r s)
        ≤ connections s.trace + (suc left * round + 1)
  unfolding send_request
  send_request-made zero hostname r s =
      let p = attempts rt tofu client network hostname r s in
      let q = settle-made too_many hostname r p 1 (omega arith) (λ target s'. omega arith) in
      omega (arith, q, round-made hostname r s)
  send_request-made (suc left) hostname r s =
      let p = attempts rt tofu client network hostname r s in
      let m = suc left * round + 1 in
      let q =
        settle-made
          (λ target s'.
            send_to rt tofu client network (send_request rt tofu client network left) target
              r.raw_message s')
          hostname r p m (omega arith)
          (λ target s'.
            send_to-made (send_request rt tofu client network left) target r.raw_message s' m
              (λ h' r'. send_request-made left h' r' s')) in
      omega (arith, q, round-made hostname r s)

  -- Whatever the network answers, one message makes at most as many connections as there are attempts
  -- at an address (one and the retries) for each of six addresses (one and the redirects), and one
  -- more for the fallback to Misfin(B).
  pub send_raw-connections :
      (to : Text) (message_bytes : Bytes) (s : Session Db)
      → connections (send_raw rt tofu client network to message_bytes s).1.trace
        ≤ connections s.trace + (suc max_redirects * suc client.max_retries + 1)
  unfolding send_raw
  send_raw-connections to message_bytes s =
      send_to-made (send_request rt tofu client network max_redirects) to message_bytes s _
        (λ hostname r. send_request-made max_redirects hostname r s)
