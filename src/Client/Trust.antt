-- ===== src/Client/Trust.antt =====
-- What src/titlani/client/session.py makes of the certificates that it knows.
use titlani.Base.{
  ℕ, zero, suc, false, List, [], ◌∷◌, Option, none, some, ◌≡◌, refl, ap, sym, arith, inl, inr, ◌⊎◌,
  Bool-cases, Option-cases, if◌then◌else◌, ok, err, Result-cases, subst,
}
use titlani.Str.Core.{Text, Bytes, same, same_iff}
use titlani.Str.Split.{rsplit_once}
use titlani.Runtime.{Runtime}
use titlani.Protocol.Constants.{max_redirects}
use titlani.Protocol.Status.{slow_down}
use titlani.Protocol.Request.{MisfinRequest, to_bytes}
use titlani.Protocol.Response.{MisfinResponse, redirect_address}
use titlani.Client.{
  Tofu, Reply, Attempt, connect_timed_out, connect_failed, connected, replied, reply_timed_out,
  reply_failed, Event, dialled, slept, MisfinClient, Session, Outcome, has_status,
  check_certificate, await_reply, on_attempt, send_request_once, attempts, retry, wait, dial,
  settle, send_to, send_request, send_raw, request_to,
}
use titlani.Client.Certificates
use titlani.Client.Certificates.{TofuLaws, Knows-some, check_certificate-Knows}
use titlani.Client.Bounds.{retry-true, too_many}

module _ (rt : Runtime) (tofu : Tofu rt.Cert) (client : MisfinClient)
    (network : List Event → Attempt rt.Cert) (laws : TofuLaws rt.certificate_fingerprint tofu)
    (host fp : Text) where
  open rt use {Cert, certificate_fingerprint}
  open tofu use {Db, verify, trust}
  open laws use {pinned}

  -- The host has the entry.
  abbrev Knows : Option Db → Type 0
  Knows = Certificates.Knows rt tofu client network laws host fp

  -- If the last thing done was a connection to the host, its certificate is the one of the entry.
  abbrev Accepts : List Event → Type 0
  Accepts trace =
      (request_bytes : Bytes) (before : List Event) (cert : Cert) (reply : Reply)
      → trace ≡ dialled host request_bytes ∷ before
      → network trace ≡ connected (some cert) reply
      → certificate_fingerprint cert ≡ fp

  -- The entry is kept, and a response comes by an accepted connection.
  abbrev Sound : Outcome rt tofu client network → Type 0
  Sound (err e, s) = Knows s.tofu_db
  Sound (ok response, s) = Knows s.tofu_db × Accepts s.trace

  await_reply-Sound :
      (hostname : Text) (reply : Reply) (s : Session Db)
      → Knows s.tofu_db
      → Accepts s.trace
      → Sound (await_reply rt tofu client network hostname reply, s)
  unfolding await_reply
  await_reply-Sound hostname (replied response) s known fine = (known, fine)
  await_reply-Sound hostname reply_timed_out s known fine = known
  await_reply-Sound hostname (reply_failed text) s known fine = known

  on_attempt-Sound :
      (hostname : Text) (request_bytes : Bytes) (before : List Event) (a : Attempt Cert)
      (s : Session Db)
      → s.trace ≡ dialled hostname request_bytes ∷ before
      → network s.trace ≡ a
      → Knows s.tofu_db
      → Sound (on_attempt rt tofu client network hostname a s)
  unfolding on_attempt
  on_attempt-Sound hostname bytes before connect_timed_out s last came known = known
  on_attempt-Sound hostname bytes before (connect_failed text) s last came known = known
  on_attempt-Sound hostname bytes before (connected cert reply) s last came known =
      elim (Result-cases (check_certificate rt tofu client network hostname cert s.tofu_db)) [
        | inr (x, e) ↦ rw (on_attempt, e) known
        | inl (db, e) ↦
            let (known', matches) =
              check_certificate-Knows rt tofu client network laws host fp hostname cert s.tofu_db
                known e in
            rw (on_attempt, e)
              (await_reply-Sound hostname reply (record s { tofu_db = db }) known'
                (λ b tr c rep last' came'. matches c (cc (last, last')) (cc (came, came'))))
      ]

  send_request_once-Sound :
      (hostname : Text) (r : MisfinRequest Cert) (s : Session Db)
      → Knows s.tofu_db
      → Sound (send_request_once rt tofu client network hostname r s)
  unfolding send_request_once dial
  send_request_once-Sound hostname r s known =
      let (a, s') = dial rt tofu client network hostname (to_bytes r) s in
      on_attempt-Sound hostname (to_bytes r) s.trace a s' refl refl known

  retry-Sound :
      (n : ℕ) (hostname : Text) (r : MisfinRequest Cert) (p : Outcome rt tofu client network)
      → Sound p
      → Sound (retry rt tofu client network n hostname r p)
  unfolding retry wait
  retry-Sound zero hostname r p sound = sound
  retry-Sound (suc n) hostname r (err e, s) sound = sound
  retry-Sound (suc n) hostname r (ok response, s) sound =
      elim (Bool-cases (has_status slow_down response.status)) [
        | inl e ↦
            let waited = wait rt tofu client network response.meta s in
            rw (retry-true rt tofu client network n hostname r response s e) (
              retry-Sound n hostname r (send_request_once rt tofu client network hostname r waited)
                (send_request_once-Sound hostname r waited sound.0))
        | inr e ↦ rw (retry, e) sound
      ]

  settle-Sound :
      (follow : Text → Session Db → Outcome rt tofu client network) (hostname : Text)
      (r : MisfinRequest Cert) (p : Outcome rt tofu client network)
      → client.misfin_b_fallback ≡ false
      → ((target : Text) (s : Session Db)
          → Knows s.tofu_db
          → Accepts s.trace
          → Sound (follow target s))
      → Sound p
      → Sound (settle rt tofu client network follow hostname r p)
  unfolding settle
  settle-Sound follow hostname r (err e, s) off h sound = sound
  settle-Sound follow hostname r (ok response, s) off h sound =
      elim (Option-cases (redirect_address response)) [
        | inr (target, e) ↦ rw (settle, e) (h target s sound.0 sound.1)
        | inl e ↦ rw (settle, e, off) sound
      ]

  send_to-Sound :
      (send : Text → MisfinRequest Cert → Session Db → Outcome rt tofu client network) (to : Text)
      (bytes : Bytes) (s : Session Db)
      → ((hostname : Text) (r : MisfinRequest Cert) → Sound (send hostname r s))
      → Knows s.tofu_db
      → Sound (send_to rt tofu client network send to bytes s)
  unfolding send_to
  send_to-Sound send to bytes s h known = elim (Option-cases (rsplit_once b'@' to)) [
    | inl e ↦ rw (send_to, e) known
    | inr ((mailbox, hostname), e) ↦
        rw (send_to, e) (h hostname (request_to rt mailbox hostname bytes))
  ]

  round-Sound :
      (hostname : Text) (r : MisfinRequest Cert) (s : Session Db)
      → Knows s.tofu_db
      → Sound (attempts rt tofu client network hostname r s)
  round-Sound hostname r s known =
      retry-Sound client.max_retries hostname r
        (send_request_once rt tofu client network hostname r s)
        (send_request_once-Sound hostname r s known)

  send_request-Sound :
      (left : ℕ) (hostname : Text) (r : MisfinRequest Cert) (s : Session Db)
      → client.misfin_b_fallback ≡ false
      → Knows s.tofu_db
      → Sound (send_request rt tofu client network left hostname r s)
  unfolding send_request
  send_request-Sound zero hostname r s off known =
      settle-Sound (too_many rt tofu client network) hostname r
        (attempts rt tofu client network hostname r s) off (λ target s' known' fine. (known', fine))
        (round-Sound hostname r s known)
  send_request-Sound (suc left) hostname r s off known =
      settle-Sound
        (λ target s'.
          send_to rt tofu client network (send_request rt tofu client network left) target
            r.raw_message s')
        hostname r (attempts rt tofu client network hostname r s) off
        (λ target s' known' fine.
          send_to-Sound (send_request rt tofu client network left) target r.raw_message s'
            (λ h' r'. send_request-Sound left h' r' s' off known') known')
        (round-Sound hostname r s known)

  -- The certificate that the last thing done has shown of the host, if it was a connection to it.
  shown_by_attempt : Attempt Cert → Option Cert
  shown_by_attempt connect_timed_out = none
  shown_by_attempt (connect_failed text) = none
  shown_by_attempt (connected cert reply) = cert

  unfoldable pub last_shown : List Event → Option Cert
  unfolding shown_by_attempt
  last_shown [] = none
  last_shown (slept delay ∷ before) = none
  last_shown (dialled hostname request_bytes ∷ before) =
      if same hostname host
      then shown_by_attempt (network (dialled hostname request_bytes ∷ before))
      else none

  shown_by_attempt-some :
      (a : Attempt Cert) {cert : Cert}
      → shown_by_attempt a ≡ some cert
      → (reply : Reply) × (a ≡ connected (some cert) reply)
  unfolding shown_by_attempt
  shown_by_attempt-some connect_timed_out h = cc h
  shown_by_attempt-some (connect_failed text) h = cc h
  shown_by_attempt-some (connected c reply) h = (reply, ap (λ o. connected o reply) h)

  Accepts-last_shown :
      (trace : List Event) {cert : Cert}
      → Accepts trace
      → last_shown trace ≡ some cert
      → certificate_fingerprint cert ≡ fp
  unfolding last_shown
  Accepts-last_shown [] accepts h = cc h
  Accepts-last_shown (slept delay ∷ before) accepts h = cc h
  Accepts-last_shown (dialled hostname bytes ∷ before) {cert} accepts h =
      elim (Bool-cases (same hostname host)) [
        | inr e ↦ absurd (ground arith)
        | inl e ↦
            let (reply, came) =
              shown_by_attempt-some (network (dialled hostname bytes ∷ before)) {cert = cert}
                (ground arith) in
            accepts bytes before cert reply
              (ap (λ x. dialled x bytes ∷ before) ((same_iff hostname host).0 e)) came
      ]

  -- Without the fallback to Misfin(B): if the database has an entry for a host, then a call that
  -- returns a response, whatever its retries and redirects were, has kept the entry; and if the last
  -- thing done was a connection to that host, it has shown no certificate or the one of the entry.
  pub send_raw-pinned :
      (to : Text) (message_bytes : Bytes) (s : Session Db) (db : Db) {response : MisfinResponse}
      {s' : Session Db}
      → client.misfin_b_fallback ≡ false
      → s.tofu_db ≡ some db
      → pinned db host ≡ some fp
      → send_raw rt tofu client network to message_bytes s ≡ (ok response, s')
      → ((db' : Db) × (s'.tofu_db ≡ some db') × (pinned db' host ≡ some fp))
        × ((last_shown s'.trace ≡ none)
            ⊎ ((cert : Cert) × (last_shown s'.trace ≡ some cert)
                × (certificate_fingerprint cert ≡ fp)))
  unfolding send_raw
  send_raw-pinned to message_bytes s db {response} {s'} off has known h =
      let knows : Knows s.tofu_db = subst Knows (sym has) known in
      let sound : Sound (ok response, s') = subst Sound h (
        send_to-Sound (send_request rt tofu client network max_redirects) to message_bytes s
          (λ hostname r. send_request-Sound max_redirects hostname r s off knows) knows) in
      (
        Knows-some rt tofu client network laws host fp s'.tofu_db sound.0,
        elim (Option-cases (last_shown s'.trace)) [
          | inl e ↦ inl e
          | inr (cert, e) ↦ inr (cert, e, Accepts-last_shown s'.trace sound.1 e)
        ],
      )
