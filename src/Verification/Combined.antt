-- ===== src/Verification/Combined.antt =====
-- `CombinedVerifier` of src/titlani/verification/combined_verifier.py. The two checks use different
-- tables of the cache, so their order within one verification is of no account: the probe goes first.
pub mod Both
use titlani.Base.{
  ℕ, Bool, true, false, ◌&&◌, not, List, [], ◌∷◌, ◌++◌, Option, none, some, if◌then◌else◌,
}
use titlani.Str.Core.{Text, codes}
use titlani.Str.Split.{join}
use titlani.Runtime.{Runtime}
use titlani.Content.Address.{MisfinAddress}
use titlani.Verification.Outcome.{
  VerificationResult, result, Checks, checks, entry, nil, verified, fingerprint_of, cached,
  reason_of, shown,
}
use titlani.Verification.Cache.{SenderVerificationCache}
use titlani.Verification.Probe.{Answer, Clock, verify_by_probe}
use titlani.Verification.Spki.{Fetch, OnChange, verify_by_spki}

-- `a or b`: a text that is missing or empty gives way
or_else : Option Text → Option Text → Option Text
or_else none b = b
or_else (some []) b = b
or_else (some (c ∷ t)) b = some (c ∷ t)

-- the reasons, of the checks that failed
reasons : VerificationResult → VerificationResult → List Text
reasons p s =
    (if verified p then [] else (codes "probe: " ++ shown (reason_of p)) ∷ [])
    ++ (if verified s then [] else (codes "spki: " ++ shown (reason_of s)) ∷ [])

unfoldable pub combine : VerificationResult → VerificationResult → VerificationResult
unfolding or_else reasons
combine p s =
    result (verified p && verified s) (or_else (fingerprint_of p) (fingerprint_of s))
      (cached p && cached s)
      (if verified p && verified s then none else some (join (codes "; ") (reasons p s)))
      (checks (entry (codes "probe") p (entry (codes "spki") s nil)))

module _ (rt : Runtime) where
  -- `verify_sender`
  unfoldable pub verify_by_both :
      OnChange
      → Clock
      → Answer
      → Fetch
      → MisfinAddress
      → SenderVerificationCache
      → VerificationResult × SenderVerificationCache
  unfolding combine
  verify_by_both on_change clock answer fetch a c =
      let (p, c') = verify_by_probe rt clock answer a c in
      let (s, c'') = verify_by_spki on_change clock fetch a c' in (combine p s, c'')
