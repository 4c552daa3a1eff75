-- ===== src/Verification/Cache.antt =====
-- `SenderVerificationCache` of src/titlani/verification/cache.py: its two tables, each with a text
-- as its primary key, and what each SQL statement does. Instants are microseconds; the texts of
-- `isoformat` for UTC sort as their instants do, also where the fraction is left out.
pub mod Keys
pub mod Refinement
use titlani.Base.{
  ℕ, ◌+◌, ◌-◌, ◌*◌, Bool, true, false, not, List, [], ◌∷◌, Option, none, some, if◌then◌else◌, leb,
  ltb, length, map,
}
use titlani.Str.Core.{Text, same}

pub record Row : Type 0 where
  pub key : Text
  pub value : Text
  pub verified_at : ℕ

pub record SenderVerificationCache : Type 0 where
  pub verified_senders : List Row
  pub server_spki : List Row
  pub ttl_seconds : ℕ

-- `WHERE key = ?`
unfoldable pub select : Text → List Row → Option Row
select k [] = none
select k (r ∷ rs) = let rest = select k rs in if same r.key k then some r else rest

-- INSERT … ON CONFLICT(key) DO UPDATE
unfoldable pub upsert : Row → List Row → List Row
upsert row [] = row ∷ []
upsert row (r ∷ rs) = let rest = upsert row rs in if same r.key row.key then row ∷ rs else r ∷ rest

-- DELETE … WHERE
unfoldable pub delete_where : (Row → Bool) → List Row → List Row
delete_where p [] = []
delete_where p (r ∷ rs) = let rest = delete_where p rs in if p r then rest else r ∷ rest

-- `verified_at >= cutoff`
unfoldable pub is_live : ℕ → ℕ → Row → Bool
is_live ttl now r = leb now (r.verified_at + ttl * 1000000)

-- `WHERE key = ? AND verified_at >= ?`
unfoldable pub select_live : ℕ → ℕ → Text → List Row → Option Row
unfolding is_live
select_live ttl now k [] = none
select_live ttl now k (r ∷ rs) =
    let rest = select_live ttl now k rs in
    if same r.key k then (if is_live ttl now r then some r else rest) else rest

unfoldable pub value_of : Option Row → Option Text
value_of none = none
value_of (some r) = some r.value

-- `ORDER BY verified_at DESC`
insert_by_age : Row → List Row → List Row
insert_by_age row [] = row ∷ []
insert_by_age row (r ∷ rs) =
    let rest = insert_by_age row rs in
    if leb r.verified_at row.verified_at then row ∷ r ∷ rs else r ∷ rest

newest_first : List Row → List Row
unfolding insert_by_age
newest_first [] = []
newest_first (r ∷ rs) = insert_by_age r (newest_first rs)

-- `get_fingerprint`
unfoldable pub get_fingerprint : SenderVerificationCache → ℕ → Text → Option Text
unfolding select_live value_of
get_fingerprint c now address = value_of (select_live c.ttl_seconds now address c.verified_senders)

-- `add_verified`
unfoldable pub add_verified : SenderVerificationCache → ℕ → Text → Text → SenderVerificationCache
unfolding upsert
add_verified c now address fingerprint = record c {
  verified_senders =
      upsert (record { key = address; value = fingerprint; verified_at = now }) c.verified_senders;
}

-- `revoke`: whether there was a row
unfoldable pub revoke : SenderVerificationCache → Text → Bool × SenderVerificationCache
unfolding delete_where
revoke c address =
    let rows = delete_where (λ r. same r.key address) c.verified_senders in
    (ltb (length rows) (length c.verified_senders), record c { verified_senders = rows })

-- `list_verified`
unfoldable pub list_verified : SenderVerificationCache → List (Text × Text × ℕ)
unfolding newest_first
list_verified c = map (λ r. (r.key, r.value, r.verified_at)) (newest_first c.verified_senders)

-- `cleanup`: the number of rows removed
unfoldable pub cleanup : SenderVerificationCache → ℕ → ℕ × SenderVerificationCache
unfolding delete_where is_live
cleanup c now =
    let senders = delete_where (λ r. not (is_live c.ttl_seconds now r)) c.verified_senders in
    let servers = delete_where (λ r. not (is_live c.ttl_seconds now r)) c.server_spki in
    (
      (length c.verified_senders - length senders) + (length c.server_spki - length servers),
      record c { verified_senders = senders; server_spki = servers },
    )

-- `get_server_spki`
unfoldable pub get_server_spki : SenderVerificationCache → ℕ → Text → Option Text
unfolding select_live value_of
get_server_spki c now hostname = value_of (select_live c.ttl_seconds now hostname c.server_spki)

-- `get_last_server_spki`
unfoldable pub get_last_server_spki : SenderVerificationCache → Text → Option Text
unfolding select value_of
get_last_server_spki c hostname = value_of (select hostname c.server_spki)

-- `add_server_spki`
unfoldable pub add_server_spki : SenderVerificationCache → ℕ → Text → Text → SenderVerificationCache
unfolding upsert
add_server_spki c now hostname spki_hash = record c {
  server_spki =
      upsert (record { key = hostname; value = spki_hash; verified_at = now }) c.server_spki;
}

-- `list_server_spki`
unfoldable pub list_server_spki : SenderVerificationCache → List (Text × Text × ℕ)
unfolding newest_first
list_server_spki c = map (λ r. (r.key, r.value, r.verified_at)) (newest_first c.server_spki)

-- `clear_server_spki`: the number of rows removed
unfoldable pub clear_server_spki : SenderVerificationCache → ℕ × SenderVerificationCache
clear_server_spki c = (length c.server_spki, record c { server_spki = [] })
