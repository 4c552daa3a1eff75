-- ===== src/Server/Subscription.antt =====
-- `SubscriptionTokenStore` of src/titlani/server/subscription.py: its one table, and what each of its
-- SQL statements does. Instants are microseconds; a row has expired once `created_at < now - ttl`.
pub mod Tokens
use titlani.Base.{
  ℕ, ◌+◌, ◌-◌, ◌*◌, Bool, true, false, ◌&&◌, not, List, [], ◌∷◌, ◌++◌, Option, none, some,
  if◌then◌else◌, leb, ltb, length, map,
}
use titlani.Str.Core.{Text, same}
use titlani.Runtime.{Runtime}

pub record Row : Type 0 where
  pub list_name : Text
  pub address : Text
  pub token : Text
  pub created_at : ℕ

pub record TokenStore : Type 0 where
  pub rows : List Row
  pub ttl_seconds : ℕ

-- `created_at >= cutoff`
unfoldable pub is_live : TokenStore → ℕ → Row → Bool
is_live s now r = leb now (r.created_at + s.ttl_seconds * 1000000)

-- `list_name = ? AND address = ?`
unfoldable pub is_at : Text → Text → Row → Bool
is_at list_name address r = same r.list_name list_name && same r.address address

unfoldable pub remove_rows : (Row → Bool) → List Row → List Row
remove_rows p [] = []
remove_rows p (r ∷ rs) = let rest = remove_rows p rs in if p r then rest else r ∷ rest

unfoldable pub find_row : (Row → Bool) → List Row → Option Row
find_row p [] = none
find_row p (r ∷ rs) = let rest = find_row p rs in if p r then some r else rest

-- INSERT … ON CONFLICT(list_name, address) DO UPDATE
upsert : Row → List Row → List Row
upsert row [] = row ∷ []
upsert row (r ∷ rs) =
    let rest = upsert row rs in if is_at row.list_name row.address r then row ∷ rs else r ∷ rest

-- `ORDER BY created_at DESC`
insert_by_age : Row → List Row → List Row
insert_by_age row [] = row ∷ []
insert_by_age row (r ∷ rs) =
    let rest = insert_by_age row rs in
    if leb r.created_at row.created_at then row ∷ r ∷ rs else r ∷ rest

newest_first : List Row → List Row
unfolding insert_by_age
newest_first [] = []
newest_first (r ∷ rs) = insert_by_age r (newest_first rs)

keep_rows : (Row → Bool) → List Row → List Row
keep_rows p rs = remove_rows (λ r. not (p r)) rs

module _ (rt : Runtime) where
  open rt use {lower, upper}

  -- `create_token`, with the random token and the clock as arguments
  unfoldable pub create_token : TokenStore → ℕ → Text → Text → Text → TokenStore
  unfolding upsert
  create_token s now token list_name address = record s {
    rows =
        upsert
          (record {
            list_name = list_name;
            address = lower address;
            token = token;
            created_at = now;
          })
          s.rows;
  }

  -- the row that `verify_token` selects
  unfoldable pub has_token : TokenStore → ℕ → Text → Text → Row → Bool
  has_token s now list_name token r =
      same r.list_name list_name && (same r.token (upper token) && is_live s now r)

  -- `verify_token`: the address, and the table without its row
  unfoldable pub verify_token : TokenStore → ℕ → Text → Text → Option Text × TokenStore
  unfolding remove_rows find_row has_token
  verify_token s now list_name token = elim (find_row (has_token s now list_name token) s.rows) [
    | none ↦ (none, s)
    | some r ↦ (some r.address, record s { rows = remove_rows (is_at list_name r.address) s.rows })
  ]

  -- `is_pending`
  unfoldable pub is_pending : TokenStore → ℕ → Text → Text → Bool
  unfolding find_row
  is_pending s now list_name address =
      elim (find_row (λ r. is_at list_name (lower address) r && is_live s now r) s.rows) [
        | none ↦ false
        | some _ ↦ true
      ]

  -- `remove_pending`
  unfoldable pub remove_pending : TokenStore → Text → Text → Bool × TokenStore
  unfolding remove_rows
  remove_pending s list_name address =
      let rows = remove_rows (is_at list_name (lower address)) s.rows in
      (ltb (length rows) (length s.rows), record s { rows = rows })

-- `list_pending`
unfoldable pub list_pending : TokenStore → ℕ → Text → List (Text × Text × ℕ)
unfolding newest_first keep_rows
list_pending s now list_name =
    map (λ r. (r.address, r.token, r.created_at))
      (newest_first (keep_rows (λ r. same r.list_name list_name && is_live s now r) s.rows))

-- `cleanup`: the number of rows removed
unfoldable pub cleanup : TokenStore → ℕ → ℕ × TokenStore
unfolding keep_rows
cleanup s now =
    let rows = keep_rows (is_live s now) s.rows in
    (length s.rows - length rows, record s { rows = rows })
