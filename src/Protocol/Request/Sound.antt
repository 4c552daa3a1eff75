-- ===== src/Protocol/Request/Sound.antt =====
-- What `MisfinRequest.from_header` and `from_header_b` accept.
use titlani.Base.{
  ℕ, ◌≤◌, [], ◌∷◌, ◌++◌, some, length, ltb, if◌then◌else◌, Result, ok, err, ◌>>=◌, or_raise, ◌≡◌,
  ◌≢◌, refl, ap, ◌∙◌, arith, Lacks, subst, pos, negsuc, ℤ, >>=-eq-ok, or_raise-eq-ok,
}
use titlani.Str.Core.{Text, Bytes, after_prefix, after_prefix_sound}
use titlani.Str.Strip.{strip}
use titlani.Str.Split.{split_once, split_once_sound}
use titlani.Str.Utf8.{encode, decode}
use titlani.Str.Number.{parse_int}
use titlani.Protocol.Constants.{prefix, max_header_size, max_content_length, max_b_request_size}
use titlani.Protocol.Errors.{
  Error, header_too_large, invalid_utf8, missing_tab, invalid_scheme, invalid_address,
  invalid_length, b_request_too_large, missing_space,
}
use titlani.Content.Address.{split_address}
use titlani.Content.Address.RoundTrip.{split_address_sound}
use titlani.Protocol.Request.{
  version_c, version_b, MisfinRequest, of_header, of_header_b, check_length, header_fields,
  from_header, of_message_b, header_fields_b, from_header_b,
}

-- The two names of a request.
pub record HasNames {Cert : Type 0} (r : MisfinRequest Cert) : Type 0 where
  pub mailbox_ne_nil : r.mailbox ≢ []
  pub hostname_ne_nil : r.hostname ≢ []
  pub hostname_lacks_at : Lacks b'@' r.hostname

-- An accepted C header: its size, its version, no message yet, its names, and the number it states.
pub record IsHeader {Cert : Type 0} (line : Bytes) (r : MisfinRequest Cert) : Type 0 where
  pub names : HasNames r
  pub line_fits : length line ≤ max_header_size
  pub length_fits : r.content_length ≤ max_content_length
  pub version : r.protocol_version ≡ version_c
  pub no_message : r.raw_message ≡ []
  pub stated : Text
  pub number : parse_int (strip stated) ≡ some (pos r.content_length)
  pub spelled :
      (rest : Text) × (decode line ≡ some rest)
      × (split_once b'\t' rest ≡ some (prefix ++ (r.mailbox ++ b'@' ∷ r.hostname), stated))

check_length_sound :
    (z : ℤ) {n : ℕ} → check_length z ≡ ok n → (z ≡ pos n) × (n ≤ max_content_length)
unfolding check_length
check_length_sound (pos k) h = ground arith
check_length_sound (negsuc k) h = cc

split_size :
    {A : Type 0} (k n : ℕ) (e : Error) (m : Result Error A) {a : A}
    → (if ltb k n then err e else m) ≡ ok a
    → (n ≤ k) × (m ≡ ok a)
split_size k n e m h = ground arith

IsHeader-of_header :
    {Cert : Type 0} (line : Bytes) (text addr address stated m h : Text) (n : ℕ)
    → length line ≤ max_header_size
    → decode line ≡ some text
    → split_once b'\t' text ≡ some (address, stated)
    → address ≡ prefix ++ addr
    → (addr ≡ m ++ b'@' ∷ h) × (m ≢ []) × (h ≢ []) × Lacks b'@' h
    → parse_int (strip stated) ≡ some (pos n)
    → n ≤ max_content_length
    → IsHeader {Cert = Cert} line (of_header m h n line)
unfolding of_header
IsHeader-of_header line text addr address stated m h n fits dec sp whole (spell, nm, nh, at) num b =
    record {
      names = record { mailbox_ne_nil = nm; hostname_ne_nil = nh; hostname_lacks_at = at };
      line_fits = fits;
      length_fits = b;
      version = refl;
      no_message = refl;
      stated = stated;
      number = num;
      spelled = (text, dec, sp ∙ ap (λ x. some (x, stated)) (whole ∙ ap (λ x. prefix ++ x) spell));
    }

header_fields-IsHeader :
    {Cert : Type 0} (line : Bytes) (text : Text) {r : MisfinRequest Cert}
    → length line ≤ max_header_size
    → decode line ≡ some text
    → header_fields {Cert = Cert} line text ≡ ok r
    → IsHeader line r
unfolding header_fields
header_fields-IsHeader {Cert} line text {r} fits decoded h =
    let ((address, stated), e1, h1) =
      >>=-eq-ok (or_raise (split_once b'\t' text) missing_tab) _ h in
    let (addr, e2, h2) = >>=-eq-ok (or_raise (after_prefix prefix address) invalid_scheme) _ h1 in
    let ((mailbox, hostname), e3, h3) =
      >>=-eq-ok (or_raise (split_address addr) (invalid_address addr)) _ h2 in
    let (z, e4, h4) =
      >>=-eq-ok (or_raise (parse_int (strip stated)) (invalid_length stated)) _ h3 in
    let (n, e5, h5) = >>=-eq-ok (check_length z) _ h4 in
    let (is_pos, bound) = check_length_sound z e5 in
    let (spell, nm, nh, lacks) =
      split_address_sound addr (or_raise-eq-ok (split_address addr) (invalid_address addr) e3) in
    let whole =
      after_prefix_sound prefix address
        (or_raise-eq-ok (after_prefix prefix address) invalid_scheme e2) in
    let parsed = or_raise-eq-ok (parse_int (strip stated)) (invalid_length stated) e4 in
    let split = or_raise-eq-ok (split_once b'\t' text) missing_tab e1 in
    let q : of_header mailbox hostname n line ≡ r = cc h5 in
    subst (IsHeader line) q (
      IsHeader-of_header line text addr address stated mailbox hostname n fits decoded split whole
        (spell, nm, nh, lacks) (parsed ∙ ap some is_pos) bound)

-- A C header that is accepted fits the size limit, decodes to the scheme, two names that are not
-- empty, a tab and a number, and the request holds those names and that number, which is at most
-- the limit on content.
pub from_header-IsHeader :
    {Cert : Type 0} (line : Bytes) {r : MisfinRequest Cert}
    → from_header line ≡ ok r
    → IsHeader line r
unfolding from_header
from_header-IsHeader {Cert} line h =
    let (fits, body) =
      split_size max_header_size (length line) header_too_large
        (or_raise (decode line) invalid_utf8 >>= header_fields {Cert = Cert} line) h in
    let (text, e, fields) = >>=-eq-ok (or_raise (decode line) invalid_utf8) _ body in
    header_fields-IsHeader line text fits (or_raise-eq-ok (decode line) invalid_utf8 e) fields

-- An accepted B header: its names stand before the first space, its message is the rest of the line,
-- and its length is the message's.
pub record IsHeaderB {Cert : Type 0} (line : Bytes) (r : MisfinRequest Cert) : Type 0 where
  pub names : HasNames r
  pub line_fits : length line ≤ max_b_request_size
  pub version : r.protocol_version ≡ version_b
  pub message_length : r.content_length ≡ length r.raw_message
  pub message : Text
  pub message_ne_nil : message ≢ []
  pub encoded : r.raw_message ≡ encode message
  pub spelled :
      (address : Text) × (decode line ≡ some (prefix ++ (address ++ b' ' ∷ message)))
      × Lacks b' ' address
      × (address ≡ r.mailbox ++ b'@' ∷ r.hostname)

of_message_b-IsHeaderB :
    {Cert : Type 0} (line : Bytes) (text remainder address m h : Text) (message : Text)
    {r : MisfinRequest Cert}
    → length line ≤ max_b_request_size
    → decode line ≡ some text
    → text ≡ prefix ++ remainder
    → (remainder ≡ address ++ b' ' ∷ message) × Lacks b' ' address
    → (address ≡ m ++ b'@' ∷ h) × (m ≢ []) × (h ≢ []) × Lacks b'@' h
    → of_message_b m h line message ≡ ok r
    → IsHeaderB line r
unfolding of_message_b of_header_b
of_message_b-IsHeaderB line text rem address m h [] fits dec whole sp (spell, nm, nh, at) e = cc
of_message_b-IsHeaderB line text rem address m h (c ∷ t) {r} fits dec whole (sp, space)
      (spell, nm, nh, at) e =
    let q : of_header_b m h line (c ∷ t) ≡ r = cc e in
    subst (IsHeaderB line) q (record {
      names = record { mailbox_ne_nil = nm; hostname_ne_nil = nh; hostname_lacks_at = at };
      line_fits = fits;
      version = refl;
      message_length = refl;
      message = c ∷ t;
      message_ne_nil = λ q. cc q;
      encoded = refl;
      spelled = (address, dec ∙ ap some (whole ∙ ap (λ x. prefix ++ x) sp), space, spell);
    })

header_fields_b-IsHeaderB :
    {Cert : Type 0} (line : Bytes) (text : Text) {r : MisfinRequest Cert}
    → length line ≤ max_b_request_size
    → decode line ≡ some text
    → header_fields_b {Cert = Cert} line text ≡ ok r
    → IsHeaderB line r
unfolding header_fields_b
header_fields_b-IsHeaderB {Cert} line text {r} fits decoded h =
    let (rem, e1, h1) = >>=-eq-ok (or_raise (after_prefix prefix text) invalid_scheme) _ h in
    let ((address, message), e2, h2) =
      >>=-eq-ok (or_raise (split_once b' ' rem) missing_space) _ h1 in
    let ((m, hn), e3, h3) =
      >>=-eq-ok (or_raise (split_address address) (invalid_address address)) _ h2 in
    of_message_b-IsHeaderB line text rem address m hn message fits decoded
      (after_prefix_sound prefix text (or_raise-eq-ok (after_prefix prefix text) invalid_scheme e1))
      (split_once_sound b' ' rem (or_raise-eq-ok (split_once b' ' rem) missing_space e2))
      (split_address_sound address
        (or_raise-eq-ok (split_address address) (invalid_address address) e3))
      h3

-- A B header that is accepted fits the size limit and decodes to the scheme, two names that are
-- not empty and hold no space, the host no `@` either, a space and the message, which is not empty;
-- the content length is the message's.
pub from_header_b-IsHeaderB :
    {Cert : Type 0} (line : Bytes) {r : MisfinRequest Cert}
    → from_header_b line ≡ ok r
    → IsHeaderB line r
unfolding from_header_b
from_header_b-IsHeaderB {Cert} line h =
    let (fits, body) =
      split_size max_b_request_size (length line) b_request_too_large
        (or_raise (decode line) invalid_utf8 >>= header_fields_b {Cert = Cert} line) h in
    let (text, e, fields) = >>=-eq-ok (or_raise (decode line) invalid_utf8) _ body in
    header_fields_b-IsHeaderB line text fits (or_raise-eq-ok (decode line) invalid_utf8 e) fields
