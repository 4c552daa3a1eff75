-- ===== src/Server/Subscription/Tokens.antt =====
-- The life of a token of src/titlani/server/subscription.py.
use titlani.Base.{
  ℕ, ◌+◌, ◌*◌, ◌≤◌, Bool, true, false, ◌&&◌, not, List, [], ◌∷◌, Option, none, some, leb, ◌≡◌, refl,
  ap, sym, ◌∙◌, arith, Bool-cases, Option-cases, inl, inr, is_some,
}
use titlani.Str.Core.{Text, same, same_self}
use titlani.Runtime.{Runtime}
use titlani.Server.Subscription.{
  Row, TokenStore, is_live, is_at, find_row, remove_rows, upsert, keep_rows, create_token,
  has_token, verify_token, is_pending, cleanup,
}

find_row-upsert :
    (p : Row → Bool) (row : Row) (rs : List Row)
    → p row ≡ true
    → find_row p rs ≡ none
    → find_row p (upsert row rs) ≡ some row
unfolding find_row upsert
find_row-upsert p row [] hit e = rw hit
find_row-upsert p row (r ∷ rs) hit e = elim (Bool-cases (p r)) [
  | inl h ↦ absurd (ground arith)
  | inr h ↦ elim (Bool-cases (is_at row.list_name row.address r)) [
    | inl f ↦ rw (f, hit)
    | inr f ↦ rw (f, h, find_row-upsert p row rs hit (ground arith))
  ]
]

-- Rows that are not looked for may be removed.
find_row-remove_rows :
    (p q : Row → Bool) (rs : List Row)
    → ((r : Row) → p r ≡ true → q r ≡ false)
    → find_row p (remove_rows q rs) ≡ find_row p rs
unfolding find_row remove_rows
find_row-remove_rows p q [] apart = refl
find_row-remove_rows p q (r ∷ rs) apart = elim (Bool-cases (p r)) [
  | inl h ↦ rw (apart r h, h)
  | inr h ↦ elim (Bool-cases (q r)) [
    | inl f ↦ rw (f, h, find_row-remove_rows p q rs apart)
    | inr f ↦ rw (f, h, find_row-remove_rows p q rs apart)
  ]
]

-- None of the rows that are removed is found.
find_row-removed :
    (p q : Row → Bool) (rs : List Row)
    → ((r : Row) → p r ≡ true → q r ≡ true)
    → find_row p (remove_rows q rs) ≡ none
unfolding find_row remove_rows
find_row-removed p q [] under = refl
find_row-removed p q (r ∷ rs) under = elim (Bool-cases (p r)) [
  | inl h ↦ rw (under r h, find_row-removed p q rs under)
  | inr h ↦ elim (Bool-cases (q r)) [
    | inl f ↦ rw (f, find_row-removed p q rs under)
    | inr f ↦ rw (f, h, find_row-removed p q rs under)
  ]
]

&&-eq-true : (a b : Bool) → a && b ≡ true → (a ≡ true) × (b ≡ true)
&&-eq-true true b h = (refl, h)
&&-eq-true false b h = cc

-- A row that is live is live at every earlier time.
not-is_live :
    (s : TokenStore) (now later : ℕ) (r : Row)
    → now ≤ later
    → is_live s later r ≡ true
    → not (is_live s now r) ≡ false
unfolding is_live
not-is_live s now later r le h = ground arith

abbrev address_of : Option Row → Option Text
address_of none = none
address_of (some r) = some r.address

module _ (rt : Runtime) where
  open rt use {lower, upper}

  has_token-is_live :
      (s : TokenStore) (now : ℕ) (list_name token : Text) (r : Row)
      → has_token rt s now list_name token r ≡ true
      → is_live s now r ≡ true
  unfolding has_token
  has_token-is_live s now list_name token r h =
      (&&-eq-true (same r.token (upper token)) (is_live s now r)
        (&&-eq-true (same r.list_name list_name) _ h).1).1

  has_token-created :
      (s : TokenStore) (now later : ℕ) (token written list_name address : Text)
      → upper written ≡ token
      → later ≤ now + s.ttl_seconds * 1000000
      → has_token rt s later list_name written (record {
        list_name = list_name;
        address = lower address;
        token = token;
        created_at = now;
      })
        ≡ true
  unfolding has_token is_live
  has_token-created s now later token written list_name address cased young =
      let live : leb later (now + s.ttl_seconds * 1000000) ≡ true = ground arith in
      rw (same_self list_name, cased, same_self token, live)

  verify_token-find_row :
      (s : TokenStore) (now : ℕ) (list_name token : Text)
      → (verify_token rt s now list_name token).0
        ≡ address_of (find_row (has_token rt s now list_name token) s.rows)
  unfolding verify_token
  verify_token-find_row s now list_name token =
      elim (Option-cases (find_row (has_token rt s now list_name token) s.rows)) [
        | inl e ↦ rw (e, verify_token)
        | inr (r, e) ↦ rw (e, verify_token)
      ]

  is_pending-find_row :
      (s : TokenStore) (now : ℕ) (list_name address : Text)
      → is_pending rt s now list_name address
        ≡ is_some (find_row (λ r. is_at list_name (lower address) r && is_live s now r) s.rows)
  unfolding is_pending
  is_pending-find_row s now list_name address =
      elim (Option-cases
        (find_row (λ r. is_at list_name (lower address) r && is_live s now r) s.rows)) [
          | inl e ↦ rw (e, is_pending)
          | inr (r, e) ↦ rw (e, is_pending)
        ]

  -- A token that was created is verified, in whatever case it is written, within its lifetime, and
  -- yields the address in lower case, provided that no other row of the list has it; the address is
  -- then no longer pending.
  pub verify_token-create_token :
      (s : TokenStore) (now later : ℕ) (token written list_name address : Text)
      → upper written ≡ token
      → later ≤ now + s.ttl_seconds * 1000000
      → find_row (has_token rt s later list_name written) s.rows ≡ none
      → (left : TokenStore) × (verify_token rt
            (create_token rt s now token list_name address)
            later
            list_name
            written
          ≡ (some (lower address), left))
        × ((t : ℕ) → is_pending rt left t list_name address ≡ false)
  unfolding has_token is_live verify_token remove_rows create_token
  verify_token-create_token s now later token written list_name address cased young fresh =
      let row : Row = record {
        list_name = list_name;
        address = lower address;
        token = token;
        created_at = now;
      } in
      let created = create_token rt s now token list_name address in
      let hit = has_token-created s now later token written list_name address cased young in
      let q : find_row (has_token rt created later list_name written) created.rows ≡ some row =
        unfold create_token in
        find_row-upsert (has_token rt s later list_name written) row s.rows hit fresh in
      let left : TokenStore = record created {
        rows = remove_rows (is_at list_name (lower address)) created.rows;
      } in
      (
        left,
        rw (q, verify_token),
        λ t.
            is_pending-find_row left t list_name address
            ∙ ap is_some (
                find_row-removed (λ r. is_at list_name (lower address) r && is_live left t r)
                  (is_at list_name (lower address)) created.rows
                  (λ r h. (&&-eq-true (is_at list_name (lower address) r) (is_live left t r) h).0)),
      )

  -- `cleanup` is not seen by anyone who asks later: neither by `verify_token` nor by `is_pending`.
  pub cleanup-unseen :
      (s : TokenStore) (now later : ℕ) (list_name text : Text)
      → now ≤ later
      → ((verify_token rt (cleanup s now).1 later list_name text).0
          ≡ (verify_token rt s later list_name text).0)
        × (is_pending rt (cleanup s now).1 later list_name text
            ≡ is_pending rt s later list_name text)
  unfolding cleanup keep_rows has_token remove_rows verify_token is_live
  cleanup-unseen s now later list_name text le =
      let kept = (cleanup s now).1 in
      (
        verify_token-find_row kept later list_name text
            ∙ ap address_of (
                find_row-remove_rows (has_token rt s later list_name text)
                  (λ r. not (is_live s now r)) s.rows
                  (λ r h.
                    not-is_live s now later r le (has_token-is_live s later list_name text r h)))
            ∙ sym (verify_token-find_row s later list_name text),
        is_pending-find_row kept later list_name text
            ∙ ap is_some (
                find_row-remove_rows (λ r. is_at list_name (lower text) r && is_live s later r)
                  (λ r. not (is_live s now r)) s.rows
                  (λ r h.
                    not-is_live s now later r le
                      (&&-eq-true (is_at list_name (lower text) r) (is_live s later r) h).1))
            ∙ sym (is_pending-find_row s later list_name text),
      )
