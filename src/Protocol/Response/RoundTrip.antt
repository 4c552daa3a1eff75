-- ===== src/Protocol/Response/RoundTrip.antt =====
-- A response is read back from its bytes.
use titlani.Base.{
  ℕ, ◌<◌, [], ◌∷◌, ◌++◌, some, ok, ◌≡◌, ◌≢◌, refl, ap, ◌∙◌, arith, All-append, Lacks, append_assoc,
  sym, true, pos,
}
use titlani.Str.Core.{Text, codes}
use titlani.Str.Split.{split_once-append, split_crlf, split_crlf-append}
use titlani.Str.Utf8.{encode, decode, IsText, is_scalar, decode-encode, encode-append, encode-Lacks}
use titlani.Str.Number.{IsDigit, decimal, decimal-All, parse_int-decimal, str_of_int}
use titlani.Protocol.Response.{status_and_meta, from_line, to_bytes}

line_of : ℕ → Text → Text
line_of s meta = decimal s ++ b' ' ∷ meta

digit_is_scalar : (c : ℕ) → IsDigit c → is_scalar c ≡ true
unfolding is_scalar
digit_is_scalar c h = ground arith

line_of-IsText : (s : ℕ) (meta : Text) → IsText meta → IsText (line_of s meta)
unfolding line_of is_scalar
line_of-IsText s meta it =
    All-append (λ c. is_scalar c ≡ true) (decimal s) (b' ' ∷ meta)
      (decimal-All (λ c. is_scalar c ≡ true) s digit_is_scalar) (refl, it)

line_of-Lacks : (s : ℕ) (meta : Text) → Lacks b'\r' meta → Lacks b'\r' (line_of s meta)
unfolding line_of
line_of-Lacks s meta cr =
    All-append (λ c. c ≢ b'\r') (decimal s) (b' ' ∷ meta)
      (decimal-All (λ c. c ≢ b'\r') s (λ c h. omega arith)) (omega arith, cr)

to_bytes-line_of :
    (s : ℕ) (meta : Text)
    → to_bytes (record { status = pos s; meta = meta })
      ≡ encode (line_of s meta) ++ b'\r' ∷ b'\n' ∷ []
unfolding to_bytes line_of str_of_int
to_bytes-line_of s meta =
    ap encode (sym (append_assoc (decimal s) (b' ' ∷ meta) (codes "\r\n")))
    ∙ encode-append (decimal s ++ b' ' ∷ meta) (codes "\r\n")
    ∙ ap (λ x. encode (decimal s ++ b' ' ∷ meta) ++ x) (unfold encode in refl)

from_line-line_of :
    (s : ℕ) (meta : Text)
    → s < 100000
    → from_line (line_of s meta) ≡ ok (record { status = pos s; meta = meta })
unfolding from_line line_of
from_line-line_of s meta h =
    rw
      (
        split_once-append b' ' (decimal s) meta
            (decimal-All (λ c. c ≢ b' ') s (λ c d. omega arith)),
        status_and_meta,
      )
      (rw (parse_int-decimal s h))

-- Where the status is a number from 0 to 99999 and the meta text can be encoded and holds no carriage
-- return, the first line of the bytes decodes to a line that is read as the response, and nothing
-- follows it.
pub from_line-to_bytes :
    (s : ℕ) (meta : Text)
    → s < 100000
    → IsText meta
    → Lacks b'\r' meta
    → (line : Text) × (split_crlf (to_bytes (record { status = pos s; meta = meta }))
        ≡ some (encode line, []))
      × (decode (encode line) ≡ some line)
      × (from_line line ≡ ok (record { status = pos s; meta = meta }))
from_line-to_bytes s meta hs it cr =
    let line = line_of s meta in
    (
      line,
      ap split_crlf (to_bytes-line_of s meta)
          ∙ split_crlf-append (encode line) []
              (encode-Lacks b'\r' line (omega arith) (line_of-Lacks s meta cr)),
      decode-encode line (line_of-IsText s meta it),
      from_line-line_of s meta hs,
    )
