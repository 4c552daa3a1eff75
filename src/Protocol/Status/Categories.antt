-- ===== src/Protocol/Status/Categories.antt =====
-- The status categories of src/titlani/protocol/status.py.
use titlani.Base.{ℕ, ◌/◌, Bool, true, ◌≡◌, ◌⊎◌, arith, ℤ, pos}
use titlani.Protocol.Status.{is_success, is_redirect, is_error, is_auth_failure}

data Category : Type 0 where
  succeeded redirected failed unauthenticated : Category

-- The InCategory that the first of the two digits of a status names.
abbrev InCategory : ℕ → Category → Type 0
InCategory s succeeded = s / 10 ≡ 2
InCategory s redirected = s / 10 ≡ 3
InCategory s failed = (s / 10 ≡ 4) ⊎ (s / 10 ≡ 5)
InCategory s unauthenticated = s / 10 ≡ 6

abbrev test : Category → ℤ → Bool
test succeeded = is_success
test redirected = is_redirect
test failed = is_error
test unauthenticated = is_auth_failure

test_iff :
    (c : Category) (s : ℕ)
    → (test c (pos s) ≡ true → InCategory s c) × (InCategory s c → test c (pos s) ≡ true)
unfolding is_success is_redirect is_error is_auth_failure
test_iff _ s = (ground arith, ground arith)
