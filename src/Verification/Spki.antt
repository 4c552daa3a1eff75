-- ===== src/Verification/Spki.antt =====
-- `SPKIVerifier` of src/titlani/verification/spki_verifier.py. The hash of a certificate's public
-- key comes from a third-party library, and so does the connection: they are the `Fetch`.
pub mod Trust
use titlani.Base.{ℕ, Bool, true, false, List, [], ◌∷◌, ◌++◌, Option, none, some, if◌then◌else◌}
use titlani.Str.Core.{Text, codes, same}
use titlani.Content.Address.{MisfinAddress}
use titlani.Verification.Outcome.{VerificationResult, accepted, refused}
use titlani.Verification.Cache.{
  SenderVerificationCache, get_server_spki, get_last_server_spki, add_server_spki,
}
use titlani.Verification.Probe.{Clock}

-- `_fetch_server_spki`: the hash, `None`, a `TimeoutError`, or another exception with its text.
pub data Fetch : Type 0 where
  hash : Text → Fetch
  no_certificate timed_out : Fetch
  failed : Text → Fetch

-- `on_spki_change`: "accept", or any other text
pub data OnChange : Type 0 where
  accept reject : OnChange

-- `_handle_spki_change`
unfoldable pub handle_spki_change :
    OnChange
    → Clock
    → Text
    → Text
    → SenderVerificationCache
    → VerificationResult × SenderVerificationCache
handle_spki_change accept clock hostname new_spki c =
    (accepted new_spki false, add_server_spki c clock.written_at hostname new_spki)
handle_spki_change reject clock hostname new_spki c = (refused (codes "Server SPKI changed"), c)

-- the comparison with the last known hash
unfoldable pub compare_spki :
    OnChange
    → Clock
    → Text
    → Text
    → Option Text
    → SenderVerificationCache
    → VerificationResult × SenderVerificationCache
unfolding handle_spki_change
compare_spki on_change clock hostname current none c =
    (accepted current false, add_server_spki c clock.written_at hostname current)
compare_spki on_change clock hostname current (some last_known) c =
    if same current last_known
    then (accepted current false, add_server_spki c clock.written_at hostname current)
    else handle_spki_change on_change clock hostname current c

unfoldable pub on_fetch :
    OnChange
    → Clock
    → Text
    → Fetch
    → SenderVerificationCache
    → VerificationResult × SenderVerificationCache
unfolding compare_spki
on_fetch on_change clock hostname timed_out c = (refused (codes "Connection timed out"), c)
on_fetch on_change clock hostname (failed text) c =
    (refused (codes "Connection error: " ++ text), c)
on_fetch on_change clock hostname no_certificate c = (refused (codes "No peer certificate"), c)
on_fetch on_change clock hostname (hash current) c =
    compare_spki on_change clock hostname current (get_last_server_spki c hostname) c

-- `verify_sender`
unfoldable pub verify_by_spki :
    OnChange
    → Clock
    → Fetch
    → MisfinAddress
    → SenderVerificationCache
    → VerificationResult × SenderVerificationCache
unfolding on_fetch
verify_by_spki on_change clock fetch a c = elim (get_server_spki c clock.read_at a.hostname) [
  | some cached_spki ↦ (accepted cached_spki true, c)
  | none ↦ on_fetch on_change clock a.hostname fetch c
]
