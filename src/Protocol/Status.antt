-- ===== src/Protocol/Status.antt =====
-- src/titlani/protocol/status.py
pub mod Categories
use titlani.Base.{
  ℕ, ◌/◌, Bool, true, false, ◌&&◌, List, [], ◌∷◌, ◌==◌, if◌then◌else◌, leb, ltb, Option, none, some,
  ℤ, pos, negsuc, ◌≡◌, refl,
}
use titlani.Str.Core.{Text, codes}

-- `StatusCode(IntEnum)`
pub data StatusCode : Type 0 where
  success redirect_temporary redirect_permanent temporary_failure server_unavailable : StatusCode
  cgi_error proxy_error slow_down mailbox_full permanent_failure mailbox_not_found : StatusCode
  mailbox_gone domain_not_serviced bad_request certificate_required unauthorized_sender : StatusCode
  certificate_invalid certificate_changed prove_it : StatusCode

-- the integer that the member is
abbrev pub value : StatusCode → ℕ
value success = 20
value redirect_temporary = 30
value redirect_permanent = 31
value temporary_failure = 40
value server_unavailable = 41
value cgi_error = 42
value proxy_error = 43
value slow_down = 44
value mailbox_full = 45
value permanent_failure = 50
value mailbox_not_found = 51
value mailbox_gone = 52
value domain_not_serviced = 53
value bad_request = 59
value certificate_required = 60
value unauthorized_sender = 61
value certificate_invalid = 62
value certificate_changed = 63
value prove_it = 64

-- `_STATUS_DESCRIPTIONS`
abbrev pub status_descriptions : List (ℕ × Text)
status_descriptions =
    (20, codes "Message delivered")
    ∷ (30, codes "Send here instead")
    ∷ (31, codes "Send here forever")
    ∷ (40, codes "Temporary error")
    ∷ (41, codes "Server unavailable")
    ∷ (42, codes "CGI error")
    ∷ (43, codes "Proxying error")
    ∷ (44, codes "Slow down")
    ∷ (45, codes "Mailbox full")
    ∷ (50, codes "Permanent error")
    ∷ (51, codes "Mailbox not found")
    ∷ (52, codes "Mailbox gone")
    ∷ (53, codes "Domain not serviced")
    ∷ (59, codes "Bad request")
    ∷ (60, codes "Certificate required")
    ∷ (61, codes "Unauthorized sender")
    ∷ (62, codes "Certificate invalid")
    ∷ (63, codes "Certificate changed")
    ∷ (64, codes "Prove it")
    ∷ []

describe : ℕ → List (ℕ × Text) → Option Text
describe s [] = none
describe s ((k, d) ∷ rest) = let more = describe s rest in if s == k then some d else more

category_name : ℕ → Text
category_name c =
    if c == 2
    then codes "Success"
    else if c == 3
    then codes "Redirect"
    else if c == 4
    then codes "Temporary failure"
    else if c == 5
    then codes "Permanent failure"
    else if c == 6
    then codes "Authentication failure"
    else codes "Unknown"

-- A negative status has no description, and `status // 10` is negative too.
unfoldable pub interpret_status : ℤ → Text
unfolding describe category_name
interpret_status (pos s) = elim (describe s status_descriptions) [
  | some d ↦ d
  | none ↦ category_name (s / 10)
]
interpret_status (negsuc _) = codes "Unknown"

abbrev pub between : ℕ → ℕ → ℤ → Bool
between lo hi (pos s) = leb lo s && ltb s hi
between lo hi (negsuc _) = false

unfoldable pub is_success : ℤ → Bool
is_success s = between 20 30 s

unfoldable pub is_redirect : ℤ → Bool
is_redirect s = between 30 40 s

unfoldable pub is_error : ℤ → Bool
is_error s = between 40 60 s

unfoldable pub is_auth_failure : ℤ → Bool
is_auth_failure s = between 60 70 s
