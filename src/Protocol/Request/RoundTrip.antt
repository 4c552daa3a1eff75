-- ===== src/Protocol/Request/RoundTrip.antt =====
-- `MisfinRequest.from_header` against `to_bytes`.
use titlani.Base.{
  ℕ, ◌≤◌, true, false, [], ◌∷◌, ◌++◌, some, length, ltb, if◌then◌else◌, Result, ok, err, ◌>>=◌,
  or_raise, ◌≡◌, ◌≢◌, refl, ap, ◌∙◌, arith, All, All-append, Lacks, append_assoc, pos,
}
use titlani.Str.Core.{Text, Bytes, codes, after_prefix-append}
use titlani.Str.Strip.{is_space, NoSpace-IsTrimmed, strip, strip_trimmed}
use titlani.Str.Split.{split_once-append, split_crlf, split_crlf-append}
use titlani.Str.Utf8.{encode, decode, IsText, is_scalar, decode-encode, encode-append, encode-Lacks}
use titlani.Str.Number.{IsDigit, decimal, decimal-All, parse_int-decimal}
use titlani.Protocol.Constants.{prefix, max_header_size, max_content_length}
use titlani.Protocol.Errors.{Error, invalid_utf8, header_too_large}
use titlani.Content.Address.RoundTrip.{split_address-address}
use titlani.Protocol.Request.{
  MisfinRequest, of_header, check_length, header_fields, from_header, to_bytes,
}

-- The text of a header line.
abbrev pub header_text : Text → Text → ℕ → Text
header_text mailbox hostname n = (prefix ++ (mailbox ++ b'@' ∷ hostname)) ++ b'\t' ∷ decimal n

-- What a header line can express.
pub record CanHead (mailbox hostname : Text) (n : ℕ) : Type 0 where
  pub mailbox_ne_nil : mailbox ≢ []
  pub mailbox_lacks_tab : Lacks b'\t' mailbox
  pub mailbox_lacks_cr : Lacks b'\r' mailbox
  pub mailbox_text : IsText mailbox
  pub hostname_ne_nil : hostname ≢ []
  pub hostname_lacks_at : Lacks b'@' hostname
  pub hostname_lacks_tab : Lacks b'\t' hostname
  pub hostname_lacks_cr : Lacks b'\r' hostname
  pub hostname_text : IsText hostname
  pub length_fits : n ≤ max_content_length
  pub header_fits : length (encode (header_text mailbox hostname n)) ≤ max_header_size

-- What holds of the separators, the names and the digits holds of the header.
All-header_text :
    (P : ℕ → Type 0) (m h : Text) (n : ℕ)
    → All P prefix
    → P b'@'
    → P b'\t'
    → ((c : ℕ) → IsDigit c → P c)
    → All P m
    → All P h
    → All P (header_text m h n)
All-header_text P m h n hp ha ht hd hm hh =
    All-append P (prefix ++ (m ++ b'@' ∷ h)) (b'\t' ∷ decimal n)
      (All-append P prefix (m ++ b'@' ∷ h) hp (All-append P m (b'@' ∷ h) hm (ha, hh)))
      (ht, decimal-All P n hd)

scalar_prefix : All (λ c. is_scalar c ≡ true) prefix
unfolding is_scalar
scalar_prefix = ground arith

digit_not_space : (c : ℕ) → IsDigit c → is_space c ≡ false
unfolding is_space
digit_not_space c h = ground arith

strip-decimal : (n : ℕ) → strip (decimal n) ≡ decimal n
strip-decimal n =
    strip_trimmed (decimal n)
      (NoSpace-IsTrimmed (decimal n) (decimal-All (λ c. is_space c ≡ false) n digit_not_space))

check_length-fits : (n : ℕ) → n ≤ max_content_length → check_length (pos n) ≡ ok n
unfolding check_length
check_length-fits n h = ground arith

module _ (m h : Text) (n : ℕ) (w : CanHead m h n) where
  header_text-IsText : IsText (header_text m h n)
  unfolding is_scalar
  header_text-IsText =
      All-header_text (λ c. is_scalar c ≡ true) m h n scalar_prefix refl refl (λ c d. ground arith)
        w.mailbox_text w.hostname_text

  header_text-Lacks : Lacks b'\r' (header_text m h n)
  header_text-Lacks =
      All-header_text (λ c. c ≢ b'\r') m h n (omega arith) (omega arith) (omega arith)
        (λ c d. omega arith) w.mailbox_lacks_cr w.hostname_lacks_cr

  address_part-Lacks : Lacks b'\t' (prefix ++ (m ++ b'@' ∷ h))
  address_part-Lacks =
      All-append (λ c. c ≢ b'\t') prefix (m ++ b'@' ∷ h) (omega arith)
        (All-append (λ c. c ≢ b'\t') m (b'@' ∷ h) w.mailbox_lacks_tab
          (omega arith, w.hostname_lacks_tab))

  header_fields-header_text :
      {Cert : Type 0} (raw : Bytes)
      → header_fields {Cert = Cert} raw (header_text m h n) ≡ ok (of_header m h n raw)
  unfolding header_fields
  header_fields-header_text raw =
      rw (split_once-append b'\t' (prefix ++ (m ++ b'@' ∷ h)) (decimal n) address_part-Lacks) (
        rw (after_prefix-append prefix (m ++ b'@' ∷ h)) (
          rw (split_address-address m h w.mailbox_ne_nil w.hostname_ne_nil w.hostname_lacks_at) (
            rw (strip-decimal n) (
              rw (parse_int-decimal n (omega (arith, w.length_fits)))
                (rw (check_length-fits n w.length_fits))))))

  from_header-header_text :
      {Cert : Type 0}
      → from_header {Cert = Cert} (encode (header_text m h n))
        ≡ ok (of_header m h n (encode (header_text m h n)))
  unfolding from_header
  from_header-header_text {Cert} =
      let raw = encode (header_text m h n) in
      let rest =
        ap (λ o. or_raise o invalid_utf8 >>= header_fields {Cert = Cert} raw)
          (decode-encode (header_text m h n) header_text-IsText)
        ∙ header_fields-header_text raw in
      from_small raw w.header_fits rest
    where
      from_small :
          (raw : Bytes)
          → length raw ≤ max_header_size
          → {r : Result Error (MisfinRequest Cert)}
          → (or_raise (decode raw) invalid_utf8 >>= header_fields {Cert = Cert} raw) ≡ r
          → (if ltb max_header_size (length raw)
              then err header_too_large
              else (or_raise (decode raw) invalid_utf8 >>= header_fields {Cert = Cert} raw))
            ≡ r
      from_small raw fits e = ground arith

encode_crlf : (t : Text) → encode (t ++ codes "\r\n") ≡ encode t ++ b'\r' ∷ b'\n' ∷ []
encode_crlf t = encode-append t (codes "\r\n") ∙ ap (λ x. encode t ++ x) (unfold encode in refl)

header_then_crlf :
    (m h : Text) (n : ℕ)
    → prefix ++ (m ++ (b'@' ∷ (h ++ (b'\t' ∷ (decimal n ++ codes "\r\n")))))
      ≡ header_text m h n ++ codes "\r\n"
header_then_crlf m h n = simp append_assoc

to_bytes-header_text :
    {Cert : Type 0} (r : MisfinRequest Cert)
    → to_bytes r
      ≡ encode (header_text r.mailbox r.hostname r.content_length) ++ b'\r' ∷ b'\n' ∷ r.raw_message
unfolding to_bytes
to_bytes-header_text r =
    let line = header_text r.mailbox r.hostname r.content_length in
    ap (λ t. encode t ++ r.raw_message) (header_then_crlf r.mailbox r.hostname r.content_length)
    ∙ ap (λ b. b ++ r.raw_message) (encode_crlf line)
    ∙ append_assoc (encode line) (b'\r' ∷ b'\n' ∷ []) r.raw_message

-- Where the names are not empty, can be encoded and hold neither tab nor carriage return, the host no
-- `@` either, the length is within its limit and the header fits: what the bytes of the request hold up
-- to the first line end is read as its names and length, and what follows is its message.
pub from_header-to_bytes :
    {Cert : Type 0} (r : MisfinRequest Cert)
    → CanHead r.mailbox r.hostname r.content_length
    → (line : Bytes) × (split_crlf (to_bytes r) ≡ some (line, r.raw_message))
      × (from_header {Cert = Cert} line ≡ ok (of_header r.mailbox r.hostname r.content_length line))
from_header-to_bytes r w =
    let line = encode (header_text r.mailbox r.hostname r.content_length) in
    (
      line,
      ap split_crlf (to_bytes-header_text r)
          ∙ split_crlf-append line r.raw_message (
              encode-Lacks b'\r' (header_text r.mailbox r.hostname r.content_length) (omega arith)
                (header_text-Lacks r.mailbox r.hostname r.content_length w)),
      from_header-header_text r.mailbox r.hostname r.content_length w,
    )
