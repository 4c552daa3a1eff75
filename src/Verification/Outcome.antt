-- ===== src/Verification/Outcome.antt =====
-- `VerificationResult` of src/titlani/verification/verifier.py, with its `checks` dictionary, and
-- the settings of the verification.
use titlani.Base.{Bool, true, false, Option, none, some}
use titlani.Str.Core.{Text, codes}

mutual
  pub data VerificationResult : Type 0 where
    result : Bool → Option Text → Bool → Option Text → Checks → VerificationResult

  pub data Checks : Type 0 where
    no_checks : Checks
    checks : Entries → Checks

  pub data Entries : Type 0 where
    nil : Entries
    entry : Text → VerificationResult → Entries → Entries

-- The fields by their names.
abbrev pub verified : VerificationResult → Bool
verified (result v fingerprint cached reason sub) = v

abbrev pub fingerprint_of : VerificationResult → Option Text
fingerprint_of (result v fingerprint cached reason sub) = fingerprint

abbrev pub cached : VerificationResult → Bool
cached (result v fingerprint c reason sub) = c

abbrev pub reason_of : VerificationResult → Option Text
reason_of (result v fingerprint c reason sub) = reason

-- `VerificationResult(verified=True, fingerprint=…, cached=…)` and `VerificationResult(verified=False,
-- reason=…)`
abbrev pub accepted : Text → Bool → VerificationResult
accepted fingerprint c = result true (some fingerprint) c none no_checks

abbrev pub refused : Text → VerificationResult
refused reason = result false none false (some reason) no_checks

-- `VerificationMode`
pub data VerificationMode : Type 0 where
  off optional required : VerificationMode

-- `VerificationMethod`, and its value
pub data VerificationMethod : Type 0 where
  probe spki probe_spki : VerificationMethod

abbrev pub method_value : VerificationMethod → Text
method_value probe = codes "probe"
method_value spki = codes "spki"
method_value probe_spki = codes "probe+spki"

-- A text in an f-string, where it may be `None`.
abbrev pub shown : Option Text → Text
shown none = codes "None"
shown (some t) = t
