-- ===== src/Server/Delivery/Meta.antt =====
-- `_write_message_meta` of src/titlani/server/handler.py: what a verification leaves beside a message.
use titlani.Base.{Bool, List, [], ◌∷◌, Option}
use titlani.Str.Core.{Text}
use titlani.Verification.Outcome.{
  VerificationResult, result, Checks, no_checks, checks, Entries, nil, entry,
}
use titlani.Server.State.{MetaEntry, MetaFile, index, insert}

-- `r.verified`, with `cached` and `reason` where they are set
serialize : VerificationResult → Bool × Bool × Option Text
serialize (result verified fingerprint cached reason sub) = (verified, cached, reason)

serialize_entries : Entries → List (Text × Bool × Bool × Option Text)
unfolding serialize
serialize_entries nil = []
serialize_entries (entry name r es) =
    (name, (serialize r).0, (serialize r).1, (serialize r).2) ∷ serialize_entries es

serialize_checks : Checks → List (Text × Bool × Bool × Option Text)
unfolding serialize_entries
serialize_checks no_checks = []
serialize_checks (checks es) = serialize_entries es

-- What `_write_message_meta` writes for one message.
meta_entry : VerificationResult → MetaEntry
unfolding serialize_checks
meta_entry (result verified fingerprint cached reason sub) = record {
  verified = verified;
  checks = serialize_checks sub;
}

-- `_write_message_meta`
unfoldable pub write_message_meta : MetaFile → Text → VerificationResult → MetaFile
unfolding meta_entry
write_message_meta (index entries) stem r = index (insert stem (meta_entry r) entries)
write_message_meta _ stem r = index ((stem, meta_entry r) ∷ [])
