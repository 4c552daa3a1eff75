-- ===== src/Protocol/Response.antt =====
-- src/titlani/protocol/response.py
pub mod RoundTrip
use titlani.Base.{
  List, [], ◌∷◌, ◌++◌, Option, none, some, if◌then◌else◌, Result, ok, err, ◌>>=◌, or_raise, ℤ,
}
use titlani.Str.Core.{Text, Bytes, codes}
use titlani.Str.Strip.{strip}
use titlani.Str.Split.{split_once}
use titlani.Str.Utf8.{encode}
use titlani.Str.Number.{parse_int, str_of_int}
use titlani.Protocol.Errors.{Error, invalid_status}
use titlani.Protocol.Status.{is_success, is_redirect}

pub record MisfinResponse : Type 0 where
  pub status : ℤ
  pub meta : Text

-- `line.split(" ", 1)`: the first part, and the second or the empty text
unfoldable pub status_and_meta : Text → Text × Text
status_and_meta line = elim (split_once b' ' line) [ none ↦ (line, []) | some p ↦ p ]

-- `from_line`
unfoldable pub from_line : Text → Result Error MisfinResponse
unfolding status_and_meta
from_line line =
    let (code, meta) = status_and_meta line in
    do
      status ← or_raise (parse_int code) (invalid_status code)
      ok (record { status = status; meta = meta })

-- `to_bytes`
unfoldable pub to_bytes : MisfinResponse → Bytes
to_bytes r = encode (str_of_int r.status ++ (b' ' ∷ (r.meta ++ codes "\r\n")))

-- `text or None`
or_none : Text → Option Text
or_none [] = none
or_none (c ∷ t) = some (c ∷ t)

-- `fingerprint`
unfoldable pub fingerprint : MisfinResponse → Option Text
unfolding or_none
fingerprint r = if is_success r.status then or_none (strip r.meta) else none

-- `redirect_address`
unfoldable pub redirect_address : MisfinResponse → Option Text
unfolding or_none
redirect_address r = if is_redirect r.status then or_none (strip r.meta) else none
