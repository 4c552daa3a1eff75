-- ===== src/Content/Address.antt =====
-- `MisfinAddress` of src/titlani/content/gemmail.py.
pub mod RoundTrip
use titlani.Base.{
  Bool, true, false, List, [], ◌∷◌, ◌++◌, Option, none, some, if◌then◌else◌, Result, ok, err, ◌>>=◌,
  or_raise,
}
use titlani.Str.Core.{Text, codes, has}
use titlani.Str.Strip.{strip}
use titlani.Str.Split.{split_once, rsplit_once}
use titlani.Protocol.Errors.{Error, empty_address, blurb_comma, blurb_at, invalid_address}

pub record MisfinAddress : Type 0 where
  pub mailbox : Text
  pub hostname : Text
  pub blurb : Text

-- both parts of an address are there
nonempty_pair : Text × Text → Option (Text × Text)
nonempty_pair ([], hostname) = none
nonempty_pair (mailbox, []) = none
nonempty_pair (c ∷ mailbox, d ∷ hostname) = some (c ∷ mailbox, d ∷ hostname)

-- `"@" in t`, `t.rsplit("@", 1)` and the test that no part is empty
unfoldable pub split_address : Text → Option (Text × Text)
unfolding nonempty_pair
split_address t = elim (rsplit_once b'@' t) [ none ↦ none | some p ↦ nonempty_pair p ]

-- `text.split(" ", 1)`, the second part stripped, or empty
unfoldable pub address_and_blurb : Text → Text × Text
address_and_blurb t = elim (split_once b' ' t) [ none ↦ (t, []) | some (a, b) ↦ (a, strip b) ]

-- `MisfinAddress.parse` on a text that is stripped already
parse_stripped : Text → Result Error MisfinAddress
parse_stripped [] = err empty_address
parse_stripped (c ∷ t) =
    let (addr_part, blurb) = address_and_blurb (c ∷ t) in
    if has b',' blurb
    then err (blurb_comma blurb)
    else if has b'@' blurb
    then err (blurb_at blurb)
    else do
      p ← or_raise (split_address addr_part) (invalid_address addr_part)
      ok (record { mailbox = p.0; hostname = p.1; blurb = blurb })

-- `MisfinAddress.parse`
unfoldable pub parse : Text → Result Error MisfinAddress
unfolding parse_stripped split_address address_and_blurb
parse text = parse_stripped (strip text)

-- `address`
unfoldable pub address : MisfinAddress → Text
address a = a.mailbox ++ b'@' ∷ a.hostname

-- `__str__`
unfoldable pub str_of : MisfinAddress → Text
unfolding address
str_of a = elim a.blurb [ [] ↦ address a | c ∷ b ↦ address a ++ b' ' ∷ (c ∷ b) ]

-- `long_form`
unfoldable pub long_form : MisfinAddress → Text
unfolding address
long_form a = elim a.blurb [
  | [] ↦ address a
  | c ∷ b ↦ (c ∷ b) ++ (codes " (" ++ (address a ++ codes ")"))
]
