-- ===== src/Tests/Protocol.antt =====
-- Requests, responses and status codes at concrete inputs.
use titlani.Base.{[], ◌∷◌, none, some, ok, err, ◌≡◌, refl, arith, pos, negsuc}
use titlani.Str.Core.{Text, Bytes, codes}
use titlani.Str.Split.{split_crlf}
use titlani.Str.Utf8.{encode, decode, IsText}
use titlani.Str.Number.{parse_int, decimal}
use titlani.Tests.Run.{texts}
use titlani.Protocol.Errors.{negative_length, invalid_address}
use titlani.Protocol.Status.{interpret_status}
use titlani.Protocol.Response.{MisfinResponse, from_line}
use titlani.Protocol.Response
use titlani.Protocol.Response.RoundTrip.{from_line-to_bytes}
use titlani.Protocol.Request.{
  MisfinRequest, of_header, version_c, version_b, from_header, from_header_b, to_bytes,
}
use titlani.Protocol.Request.RoundTrip.{CanHead, from_header-to_bytes}
use titlani.Protocol.Request.Sound.{
  IsHeader, IsHeaderB, from_header-IsHeader, from_header_b-IsHeaderB,
}

-- numbers as `int` reads them
numbers :
    (parse_int (codes " +1_0 ") ≡ some (pos 10))
    × (parse_int (codes "-3") ≡ some (negsuc 2))
    × (parse_int (codes "1__0") ≡ none)
    × (parse_int (0x663 ∷ []) ≡ some (pos 3))
    × (decimal 16384 ≡ codes "16384")
unfolding texts
numbers = (refl, refl, refl, refl, refl)

utf8 :
    (encode (0xe9 ∷ 0x20ac ∷ []) ≡ 0xc3 ∷ 0xa9 ∷ 0xe2 ∷ 0x82 ∷ 0xac ∷ [])
    × (decode (0xc0 ∷ 0x80 ∷ []) ≡ none)
unfolding texts
utf8 = (refl, refl)

described :
    (interpret_status (pos 51) ≡ codes "Mailbox not found")
    × (interpret_status (pos 47) ≡ codes "Temporary failure")
unfolding interpret_status
described = (refl, refl)

abbrev header : Bytes
header = codes "misfin://a@b@c.d\t12"

abbrev Cert : Type 0
Cert = Unit {0}

header-parsed :
    from_header {Cert = Cert} header ≡ ok (of_header (codes "a@b") (codes "c.d") 12 header)
unfolding texts
header-parsed = refl

header_errors :
    (from_header {Cert = Cert} (codes "misfin://a@b\t-1") ≡ err (negative_length (negsuc 0)))
    × (from_header {Cert = Cert} (codes "misfin://ab\t1") ≡ err (invalid_address (codes "ab")))
unfolding texts
header_errors = (refl, refl)

from_header-IsHeader_example :
    IsHeader header (of_header {Cert = Cert} (codes "a@b") (codes "c.d") 12 header)
from_header-IsHeader_example = from_header-IsHeader header header-parsed

abbrev line_b : Bytes
line_b = codes "misfin://a@c.d hello there"

abbrev request_b : MisfinRequest Cert
request_b = record {
  mailbox = codes "a";
  hostname = codes "c.d";
  content_length = 11;
  raw_message = codes "hello there";
  raw_header = line_b;
  client_cert = none;
  client_cert_fingerprint = none;
  protocol_version = version_b;
  verification_result = none;
}

line_b-parsed : from_header_b {Cert = Cert} line_b ≡ ok request_b
unfolding texts
line_b-parsed = refl

from_header_b-IsHeaderB_example : IsHeaderB line_b request_b
from_header_b-IsHeaderB_example = from_header_b-IsHeaderB line_b line_b-parsed

abbrev sent : MisfinRequest Cert
sent = record request_b { protocol_version = version_c }

sent-CanHead : CanHead (codes "a") (codes "c.d") 11
unfolding texts
sent-CanHead = record {
  mailbox_ne_nil = cc;
  mailbox_lacks_tab = omega arith;
  mailbox_lacks_cr = omega arith;
  mailbox_text = (refl, tt);
  hostname_ne_nil = cc;
  hostname_lacks_at = omega arith;
  hostname_lacks_tab = omega arith;
  hostname_lacks_cr = omega arith;
  hostname_text = (refl, (refl, (refl, tt)));
  length_fits = omega arith;
  header_fits = omega arith;
}

from_header-to_bytes_example :
    (line : Bytes) × (split_crlf (to_bytes sent) ≡ some (line, codes "hello there"))
    × (from_header {Cert = Cert} line ≡ ok (of_header (codes "a") (codes "c.d") 11 line))
from_header-to_bytes_example = from_header-to_bytes sent sent-CanHead

meta-IsText : IsText (codes "ok")
unfolding texts
meta-IsText = (refl, (refl, tt))

from_line-to_bytes_example :
    (line : Text) × (split_crlf (Response.to_bytes (record { status = pos 20; meta = codes "ok" }))
      ≡ some (encode line, []))
    × (decode (encode line) ≡ some line)
    × (from_line line ≡ ok (record { status = pos 20; meta = codes "ok" }))
from_line-to_bytes_example =
    from_line-to_bytes 20 (codes "ok") (omega arith) meta-IsText (omega arith)
