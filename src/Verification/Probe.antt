-- ===== src/Verification/Probe.antt =====
-- `ProbeVerifier` of src/titlani/verification/verifier.py.
pub mod Cached
pub mod Network
use titlani.Base.{ℕ, Bool, true, false, List, [], ◌∷◌, ◌++◌, Option, none, some, if◌then◌else◌, not}
use titlani.Str.Core.{Text, codes}
use titlani.Str.Number.{str_of_int}
use titlani.Runtime.{Runtime}
use titlani.Identity.{normalize_fingerprint}
use titlani.Protocol.Status.{is_success}
use titlani.Protocol.Response.{MisfinResponse, fingerprint}
use titlani.Content.Address.{MisfinAddress, address}
use titlani.Verification.Outcome.{VerificationResult, accepted, refused}
use titlani.Verification.Cache.{SenderVerificationCache, get_fingerprint, add_verified}

-- How the client's request without content ended: in a response, in a `TimeoutError`, or in another
-- exception, with its text.
pub data Answer : Type 0 where
  answered : MisfinResponse → Answer
  timed_out : Answer
  failed : Text → Answer

-- The clock when the cache is read, and when it is written.
pub record Clock : Type 0 where
  pub read_at : ℕ
  pub written_at : ℕ

module _ (rt : Runtime) where
  -- the fingerprint of a successful response; an empty one counts as missing
  unfoldable pub on_success :
      Clock
      → Text
      → Option Text
      → SenderVerificationCache
      → VerificationResult × SenderVerificationCache
  on_success clock sender_addr none c = (refused (codes "Probe response missing fingerprint"), c)
  on_success clock sender_addr (some raw) c =
      let fp = normalize_fingerprint rt raw in
      (accepted fp false, add_verified c clock.written_at sender_addr fp)

  unfoldable pub on_answer :
      Clock → Text → Answer → SenderVerificationCache → VerificationResult × SenderVerificationCache
  unfolding on_success
  on_answer clock sender_addr timed_out c = (refused (codes "Probe timed out"), c)
  on_answer clock sender_addr (failed text) c = (refused (codes "Probe error: " ++ text), c)
  on_answer clock sender_addr (answered r) c =
      if not (is_success r.status)
      then (
        refused (codes "Probe returned status " ++ (str_of_int r.status ++ (codes ": " ++ r.meta))),
        c,
      )
      else on_success clock sender_addr (fingerprint r) c

  -- `verify_sender`
  unfoldable pub verify_by_probe :
      Clock
      → Answer
      → MisfinAddress
      → SenderVerificationCache
      → VerificationResult × SenderVerificationCache
  unfolding on_answer
  verify_by_probe clock answer a c = elim (get_fingerprint c clock.read_at (address a)) [
    | some cached_fp ↦ (accepted cached_fp true, c)
    | none ↦ on_answer clock (address a) answer c
  ]
