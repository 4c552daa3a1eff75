-- ===== src/Protocol/Request.antt =====
-- src/titlani/protocol/request.py
pub mod RoundTrip
pub mod Sound
use titlani.Base.{
  ℕ, ◌+◌, Bool, true, false, List, [], ◌∷◌, ◌++◌, Option, none, some, if◌then◌else◌, ltb, leb,
  length, drop, Result, ok, err, ◌>>=◌, or_raise, ℤ, pos, negsuc,
}
use titlani.Str.Core.{Text, Bytes, codes, after_prefix}
use titlani.Str.Strip.{strip, words}
use titlani.Str.Split.{split, split_once, join}
use titlani.Str.Utf8.{encode, decode}
use titlani.Str.Number.{parse_int, decimal}
use titlani.Protocol.Constants.{prefix, max_header_size, max_content_length, max_b_request_size}
use titlani.Protocol.Errors.{
  Error, header_too_large, invalid_utf8, missing_tab, invalid_scheme, invalid_address,
  invalid_length, negative_length, length_too_large, b_request_too_large, missing_space,
  empty_message,
}
use titlani.Content.Address.{split_address}
use titlani.Content.Time.{DateTime}
use titlani.Content.Gemmail.{GemmailMessage, from_bytes}
use titlani.Content.Gemmail.FormatB.{from_bytes_b}
use titlani.Verification.Outcome.{VerificationResult}

-- `protocol_version`
pub data Version : Type 0 where
  version_c version_b : Version

-- `Cert` is the certificate type of the TLS library.
pub record MisfinRequest (Cert : Type 0) : Type 0 where
  pub mailbox : Text
  pub hostname : Text
  pub content_length : ℕ
  pub raw_message : Bytes
  pub raw_header : Bytes
  pub client_cert : Option Cert
  pub client_cert_fingerprint : Option Text
  pub protocol_version : Version
  pub verification_result : Option VerificationResult

-- the two tests on the length that the header states
check_length : ℤ → Result Error ℕ
check_length (negsuc n) = err (negative_length (negsuc n))
check_length (pos n) = if ltb max_content_length n then err (length_too_large n) else ok n

-- The body of a B request: the metadata lines dropped where there are three, in words.
body_words : Text → Text
body_words body_text =
    let lines = split b'\n' body_text in
    join (codes " ")
      (words (if leb 4 (length lines) then join (codes "\n") (drop 3 lines) else body_text))

body_of_b : Bytes → Result Error Text
unfolding body_words
body_of_b [] = ok []
body_of_b (b ∷ bs) = do
  body_text ← or_raise (decode (b ∷ bs)) invalid_utf8
  ok (body_words body_text)

module _ {Cert : Type 0} where
  -- The constructor with its default values, as `from_header` calls it.
  unfoldable pub of_header : Text → Text → ℕ → Bytes → MisfinRequest Cert
  of_header mailbox hostname content_length header_line = record {
    mailbox = mailbox;
    hostname = hostname;
    content_length = content_length;
    raw_message = [];
    raw_header = header_line;
    client_cert = none;
    client_cert_fingerprint = none;
    protocol_version = version_c;
    verification_result = none;
  }

  -- `from_header`, behind the test of the size
  header_fields : Bytes → Text → Result Error (MisfinRequest Cert)
  unfolding check_length of_header
  header_fields header_line header_str = do
    parts ← or_raise (split_once b'\t' header_str) missing_tab
    addr ← or_raise (after_prefix prefix parts.0) invalid_scheme
    names ← or_raise (split_address addr) (invalid_address addr)
    stated ← or_raise (parse_int (strip parts.1)) (invalid_length parts.1)
    content_length ← check_length stated
    ok (of_header names.0 names.1 content_length header_line)

  -- `from_header`
  unfoldable pub from_header : Bytes → Result Error (MisfinRequest Cert)
  unfolding header_fields
  from_header header_line =
      if ltb max_header_size (length header_line) then err header_too_large else do
        header_str ← or_raise (decode header_line) invalid_utf8
        header_fields header_line header_str

  -- The constructor, as `from_header_b` calls it.
  unfoldable pub of_header_b : Text → Text → Bytes → Text → MisfinRequest Cert
  of_header_b mailbox hostname header_line message_text = record {
    mailbox = mailbox;
    hostname = hostname;
    content_length = length (encode message_text);
    raw_message = encode message_text;
    raw_header = header_line;
    client_cert = none;
    client_cert_fingerprint = none;
    protocol_version = version_b;
    verification_result = none;
  }

  -- `from_header_b`: the message is not empty
  of_message_b : Text → Text → Bytes → Text → Result Error (MisfinRequest Cert)
  of_message_b mailbox hostname header_line [] = err empty_message
  of_message_b mailbox hostname header_line (c ∷ t) =
      ok (of_header_b mailbox hostname header_line (c ∷ t))

  header_fields_b : Bytes → Text → Result Error (MisfinRequest Cert)
  unfolding of_message_b of_header_b
  header_fields_b header_line header_str = do
    remainder ← or_raise (after_prefix prefix header_str) invalid_scheme
    parts ← or_raise (split_once b' ' remainder) missing_space
    names ← or_raise (split_address parts.0) (invalid_address parts.0)
    of_message_b names.0 names.1 header_line parts.1

  -- `from_header_b`
  unfoldable pub from_header_b : Bytes → Result Error (MisfinRequest Cert)
  unfolding header_fields_b
  from_header_b header_line =
      if ltb max_b_request_size (length header_line) then err b_request_too_large else do
        header_str ← or_raise (decode header_line) invalid_utf8
        header_fields_b header_line header_str

  -- `to_bytes`
  unfoldable pub to_bytes : MisfinRequest Cert → Bytes
  to_bytes r =
      encode (
        prefix
        ++ (r.mailbox
            ++ (b'@' ∷ (r.hostname ++ (b'\t' ∷ (decimal r.content_length ++ codes "\r\n"))))))
      ++ r.raw_message

  -- `to_bytes_b`
  unfoldable pub to_bytes_b : MisfinRequest Cert → Result Error Bytes
  unfolding body_of_b
  to_bytes_b r = do
    body_text ← body_of_b r.raw_message
    let result =
        encode
          (prefix ++ (r.mailbox ++ (b'@' ∷ (r.hostname ++ (b' ' ∷ (body_text ++ codes "\r\n"))))))
    if ltb (max_b_request_size + 2) (length result) then err b_request_too_large else ok result

  -- `parse_message`
  unfoldable pub parse_message :
      (dt : DateTime) → MisfinRequest Cert → Result Error (GemmailMessage dt.Time)
  parse_message dt r = elim r.protocol_version [
    | version_b ↦ from_bytes_b dt r.raw_message
    | version_c ↦ from_bytes dt r.raw_message
  ]
