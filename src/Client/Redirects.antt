-- ===== src/Client/Redirects.antt =====
-- The redirects that src/titlani/client/session.py follows.
use titlani.Base.{
  ℕ, zero, suc, false, List, none, ◌≡◌, refl, inl, inr, Option-cases, ok, err, subst,
}
use titlani.Str.Core.{Text, Bytes}
use titlani.Str.Split.{rsplit_once}
use titlani.Runtime.{Runtime}
use titlani.Protocol.Constants.{max_redirects}
use titlani.Protocol.Status.{is_redirect}
use titlani.Protocol.Request.{MisfinRequest}
use titlani.Protocol.Response.{MisfinResponse, redirect_address}
use titlani.Client.{
  Tofu, Attempt, Event, MisfinClient, Session, Outcome, attempts, settle, send_to, send_request,
  send_raw, request_to,
}
use titlani.Client.Bounds.{too_many}

module _ (rt : Runtime) (tofu : Tofu rt.Cert) (client : MisfinClient)
    (network : List Event → Attempt rt.Cert) where
  open rt use {Cert}
  open tofu use {Db}

  -- A response has no address to follow.
  abbrev IsLast : Outcome rt tofu client network → Type 0
  IsLast (err e, s) = Unit
  IsLast (ok response, s) = redirect_address response ≡ none

  settle-IsLast :
      (follow : Text → Session Db → Outcome rt tofu client network) (hostname : Text)
      (r : MisfinRequest Cert) (p : Outcome rt tofu client network)
      → client.misfin_b_fallback ≡ false
      → ((target : Text) (s : Session Db) → IsLast (follow target s))
      → IsLast (settle rt tofu client network follow hostname r p)
  unfolding settle
  settle-IsLast follow hostname r (err e, s) off h = tt
  settle-IsLast follow hostname r (ok response, s) off h =
      elim (Option-cases (redirect_address response)) [
        | inr (target, e) ↦ rw (settle, e) (h target s)
        | inl e ↦ rw (settle, e, off) e
      ]

  send_to-IsLast :
      (send : Text → MisfinRequest Cert → Session Db → Outcome rt tofu client network) (to : Text)
      (bytes : Bytes) (s : Session Db)
      → ((hostname : Text) (r : MisfinRequest Cert) → IsLast (send hostname r s))
      → IsLast (send_to rt tofu client network send to bytes s)
  unfolding send_to
  send_to-IsLast send to bytes s h = elim (Option-cases (rsplit_once b'@' to)) [
    | inl e ↦ rw (send_to, e) tt
    | inr ((mailbox, hostname), e) ↦
        rw (send_to, e) (h hostname (request_to rt mailbox hostname bytes))
  ]

  send_request-IsLast :
      (left : ℕ) (hostname : Text) (r : MisfinRequest Cert) (s : Session Db)
      → client.misfin_b_fallback ≡ false
      → IsLast (send_request rt tofu client network left hostname r s)
  unfolding send_request redirect_address is_redirect
  send_request-IsLast zero hostname r s off =
      settle-IsLast (too_many rt tofu client network) hostname r
        (attempts rt tofu client network hostname r s) off (λ target s'. refl)
  send_request-IsLast (suc left) hostname r s off =
      settle-IsLast
        (λ target s'.
          send_to rt tofu client network (send_request rt tofu client network left) target
            r.raw_message s')
        hostname r (attempts rt tofu client network hostname r s) off
        (λ target s'.
          send_to-IsLast (send_request rt tofu client network left) target r.raw_message s'
            (λ h' r'. send_request-IsLast left h' r' s' off))

  -- Without the fallback to Misfin(B), the response that a call returns is never a redirect with an
  -- address: it was followed, or it was one too many and the response is the client's own.
  pub send_raw-redirect_address :
      (to : Text) (message_bytes : Bytes) (s : Session Db) {response : MisfinResponse}
      {s' : Session Db}
      → client.misfin_b_fallback ≡ false
      → send_raw rt tofu client network to message_bytes s ≡ (ok response, s')
      → redirect_address response ≡ none
  unfolding send_raw
  send_raw-redirect_address to message_bytes s off h = subst IsLast h (
      send_to-IsLast (send_request rt tofu client network max_redirects) to message_bytes s
        (λ hostname r. send_request-IsLast max_redirects hostname r s off))
