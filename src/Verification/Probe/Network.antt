-- ===== src/Verification/Probe/Network.antt =====
-- `ProbeVerifier.verify_sender` of src/titlani/verification/verifier.py with the client that it opens
-- for a probe: one without a database of certificates and with the defaults of
-- src/titlani/client/session.py. The texts of the exceptions are a parameter.
use titlani.Base.{true, [], List, none, some, Result, ok, err}
use titlani.Str.Core.{Text}
use titlani.Runtime.{Runtime}
use titlani.Protocol.Constants.{max_redirects}
use titlani.Protocol.Response.{MisfinResponse}
use titlani.Content.Address.{MisfinAddress, address}
use titlani.Client.{
  Tofu, Attempt, Event, Raised, timed_out, MisfinClient, Session, request_to, send_request,
}
use titlani.Verification.Outcome.{VerificationResult, accepted}
use titlani.Verification.Cache.{SenderVerificationCache, get_fingerprint}
use titlani.Verification.Probe
use titlani.Verification.Probe.{Answer, answered, failed, Clock, on_answer, verify_by_probe}

-- `MisfinClient(…, trust_on_first_use=False)`
abbrev pub probe_client : MisfinClient
probe_client = record { max_retries = 3; misfin_b_fallback = true }

-- the `except` clauses
unfoldable pub answer_of : (Raised → Text) → Result Raised MisfinResponse → Answer
answer_of error_text (ok response) = answered response
answer_of error_text (err (timed_out text)) = Probe.timed_out
answer_of error_text (err e) = failed (error_text e)

module _ (rt : Runtime) (tofu : Tofu rt.Cert) (network : List Event → Attempt rt.Cert)
    (error_text : Raised → Text) where
  abbrev pub new_session : Session tofu.Db
  new_session = record { trace = []; tofu_db = none }

  -- the request without content, to the address of the sender
  unfoldable pub send_probe : MisfinAddress → Answer × List Event
  unfolding answer_of
  send_probe a =
      let (outcome, s) =
        send_request rt tofu probe_client network max_redirects a.hostname
          (request_to rt a.mailbox a.hostname []) new_session in
      (answer_of error_text outcome, s.trace)

  -- `verify_sender`, and what it does on the network: nothing where the cache knows the sender
  unfoldable pub verify_over_network :
      Clock
      → MisfinAddress
      → SenderVerificationCache
      → VerificationResult × SenderVerificationCache × List Event
  unfolding send_probe
  verify_over_network clock a c = elim (get_fingerprint c clock.read_at (address a)) [
    | some cached_fp ↦ (accepted cached_fp true, c, [])
    | none ↦
        let (answer, trace) = send_probe a in
        let (v, c') = on_answer rt clock (address a) answer c in (v, c', trace)
  ]
