-- ===== src/Tests/Tokens.antt =====
-- Tokens at concrete inputs.
use titlani.Base.{ℕ, false, [], ◌∷◌, none, some, ◌≡◌, refl, arith}
use titlani.Str.Core.{codes}
use titlani.Server.Subscription.{
  TokenStore, Row, create_token, verify_token, is_pending, cleanup, find_row, has_token,
}
use titlani.Server.Subscription.Tokens.{verify_token-create_token, cleanup-unseen}
use titlani.Tests.Machine.{handlers, machine}

abbrev old : Row
old = record {
  list_name = codes "l";
  address = codes "a@b";
  token = codes "A1B2C3";
  created_at = 5;
}

abbrev store : TokenStore
store = record { rows = old ∷ []; ttl_seconds = 60 }

is_fresh : find_row (has_token machine store 8 (codes "l") (codes "d4e5f6")) store.rows ≡ none
unfolding handlers
is_fresh = refl

cased : machine.upper (codes "d4e5f6") ≡ codes "D4E5F6"
cased = refl

verify_token-create_token_example :
    (left : TokenStore) × (verify_token machine
        (create_token machine store 7 (codes "D4E5F6") (codes "l") (codes "A@B"))
        8
        (codes "l")
        (codes "d4e5f6")
      ≡ (some (codes "a@b"), left))
    × ((t : ℕ) → is_pending machine left t (codes "l") (codes "A@B") ≡ false)
verify_token-create_token_example =
    verify_token-create_token machine store 7 8 (codes "D4E5F6") (codes "d4e5f6") (codes "l")
      (codes "A@B") cased (omega arith) is_fresh

cleanup-unseen_example :
    ((verify_token machine (cleanup store 7).1 8 (codes "l") (codes "a1b2c3")).0
      ≡ (verify_token machine store 8 (codes "l") (codes "a1b2c3")).0)
    × (is_pending machine (cleanup store 7).1 8 (codes "l") (codes "a1b2c3")
        ≡ is_pending machine store 8 (codes "l") (codes "a1b2c3"))
cleanup-unseen_example = cleanup-unseen machine store 7 8 (codes "l") (codes "a1b2c3") (omega arith)
