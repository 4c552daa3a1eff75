-- ===== src/Verification/Wrapper.antt =====
-- `VerifyingHandler` of src/titlani/verification/handler.py, around the handler of the server.
pub mod Required
use titlani.Base.{
  Bool, true, false, not, List, [], ◌∷◌, ◌++◌, ◌==◌, Option, none, some, if◌then◌else◌, Result, ok,
  err,
}
use titlani.Str.Core.{Text, codes}
use titlani.Runtime.{Runtime}
use titlani.Protocol.Errors.{Error, is_value_error}
use titlani.Protocol.Status.{unauthorized_sender}
use titlani.Protocol.Request.{MisfinRequest, parse_message}
use titlani.Protocol.Response.{MisfinResponse}
use titlani.Content.Address.{MisfinAddress}
use titlani.Content.Gemmail.{GemmailMessage}
use titlani.Server.State.{State, Config, Readings}
use titlani.Server.Commands.{respond}
use titlani.Server.Handler
use titlani.Verification.Outcome.{
  VerificationResult, result, verified, no_checks, checks, entry, nil, reason_of, shown,
  VerificationMode, off, optional, required, VerificationMethod, method_value,
}
use titlani.Verification.Cache.{SenderVerificationCache}
use titlani.Verification.Probe.{Answer, Clock, verify_by_probe}
use titlani.Verification.Spki.{Fetch, OnChange, verify_by_spki}
use titlani.Verification.Combined.{verify_by_both}

-- The verifier, with what the clock and the network give it in this call.
pub data Verifier : Type 0 where
  probe_verifier : Clock → Answer → Verifier
  spki_verifier : OnChange → Clock → Fetch → Verifier
  combined_verifier : OnChange → Clock → Answer → Fetch → Verifier

-- `_wrap_result`
unfoldable pub wrap_result : VerificationMethod → VerificationResult → VerificationResult
wrap_result method (result v fingerprint cached reason (checks es)) =
    result v fingerprint cached reason (checks es)
wrap_result method (result v fingerprint cached reason no_checks) =
    result v fingerprint cached reason
      (checks (entry (method_value method) (result v fingerprint cached reason no_checks) nil))

module _ (rt : Runtime) where
  open rt use {dt, Cert}

  -- `self.verifier.verify_sender`
  unfoldable pub verify_sender :
      Verifier
      → MisfinAddress
      → SenderVerificationCache
      → VerificationResult × SenderVerificationCache
  verify_sender (probe_verifier clock answer) = verify_by_probe rt clock answer
  verify_sender (spki_verifier on_change clock fetch) = verify_by_spki on_change clock fetch
  verify_sender (combined_verifier on_change clock answer fetch) =
      verify_by_both rt on_change clock answer fetch

  -- The rest of `handle_message`, behind the verification.
  unfoldable pub after_verification :
      VerificationMode
      → VerificationMethod
      → Config
      → Readings
      → MisfinRequest Cert
      → State dt.Time
      → VerificationResult
      → Result Error (MisfinResponse × State dt.Time)
  unfolding wrap_result
  after_verification mode method config now r s v =
      let forwarded =
        Handler.handle_message rt config now
          (record r { verification_result = some (wrap_result method v) }) s in
      if verified v then forwarded else elim mode [
        | required ↦ ok (
          respond unauthorized_sender (codes "Sender verification failed: " ++ shown (reason_of v)),
          s,
        )
        | optional ↦ forwarded
        | off ↦ forwarded
      ]

  -- the message that was parsed, by its senders
  unfoldable pub check_senders :
      VerificationMode
      → VerificationMethod
      → Verifier
      → Config
      → Readings
      → MisfinRequest Cert
      → State dt.Time
      → SenderVerificationCache
      → List MisfinAddress
      → Result Error (MisfinResponse × State dt.Time) × SenderVerificationCache
  unfolding verify_sender after_verification
  check_senders required method verifier config now r s c [] =
      (ok (respond unauthorized_sender (codes "Sender required for verification"), s), c)
  check_senders optional method verifier config now r s c [] =
      (Handler.handle_message rt config now r s, c)
  check_senders off method verifier config now r s c [] =
      (Handler.handle_message rt config now r s, c)
  check_senders mode method verifier config now r s c (sender ∷ senders) =
      let (v, c') = verify_sender verifier sender c in
      (after_verification mode method config now r s v, c')

  unfoldable pub check_message :
      VerificationMode
      → VerificationMethod
      → Verifier
      → Config
      → Readings
      → MisfinRequest Cert
      → State dt.Time
      → SenderVerificationCache
      → Result Error (GemmailMessage dt.Time)
      → Result Error (MisfinResponse × State dt.Time) × SenderVerificationCache
  unfolding check_senders
  check_message mode method verifier config now r s c (ok m) =
      check_senders mode method verifier config now r s c m.senders
  check_message mode method verifier config now r s c (err e) =
      (if is_value_error e then Handler.handle_message rt config now r s else err e, c)

  -- `handle_message`: what the handler does, and the cache, which also keeps what was written before
  -- an exception
  unfoldable pub handle_message :
      VerificationMode
      → VerificationMethod
      → Verifier
      → Config
      → Readings
      → MisfinRequest Cert
      → State dt.Time
      → SenderVerificationCache
      → Result Error (MisfinResponse × State dt.Time) × SenderVerificationCache
  unfolding check_message
  handle_message off method verifier config now r s c =
      (Handler.handle_message rt config now r s, c)
  handle_message mode method verifier config now r s c =
      if r.content_length == 0
      then (Handler.handle_message rt config now r s, c)
      else check_message mode method verifier config now r s c (parse_message dt r)
