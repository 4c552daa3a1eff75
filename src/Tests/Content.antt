-- ===== src/Tests/Content.antt =====
-- Addresses and messages at concrete inputs.
use titlani.Base.{ℕ, zero, suc, [], ◌∷◌, map, ok, ◌≡◌, ◌≢◌, refl, arith, Lacks, if◌then◌else◌, ◌==◌}
use titlani.Str.Core.{Text, codes}
use titlani.Str.Strip.{NoSpace}
use titlani.Str.Utf8.{IsText}
use titlani.Content.Address.{MisfinAddress, str_of, parse}
use titlani.Content.Address.RoundTrip.{IsWritable, parse-str_of}
use titlani.Tests.Run.{texts}
use titlani.Content.Time.{DateTime, Parsed, parsed, invalid, out_of_range, replace_z, IsoLaws}
use titlani.Content.Gemmail.{GemmailMessage, from_bytes, to_bytes}
use titlani.Content.Gemmail.RoundTrip.{IsListed, CanSend, from_bytes-to_bytes}
use titlani.Content.Gemmail.FormatB.{from_bytes_b}

-- A calendar for the tests: the date `n` is written as `n + 1` strokes.
unfoldable pub strokes : ℕ → Text
strokes zero = b'I' ∷ []
strokes (suc n) = b'I' ∷ strokes n

unfoldable pub count_strokes : Text → Parsed ℕ
count_strokes [] = invalid
count_strokes (c ∷ []) = if c == b'I' then parsed 0 else invalid
count_strokes (c ∷ d ∷ t) = elim (count_strokes (d ∷ t)) [
  | parsed n ↦ if c == b'I' then parsed (suc n) else invalid
  | invalid ↦ invalid
  | out_of_range ↦ out_of_range
]

abbrev pub calendar : DateTime
calendar = record { Time = ℕ; from_iso = count_strokes; to_iso = strokes }

strokes-count : (n : ℕ) → count_strokes (replace_z (strokes n)) ≡ parsed n
unfolding strokes count_strokes replace_z
strokes-count zero = refl
strokes-count (suc zero) = refl
strokes-count (suc (suc n)) = ground (arith, strokes-count (suc n))

strokes-NoSpace : (n : ℕ) → NoSpace (strokes n)
unfolding strokes texts
strokes-NoSpace zero = (refl, tt)
strokes-NoSpace (suc n) = (refl, strokes-NoSpace n)

strokes-Lacks : (n : ℕ) → Lacks b',' (strokes n)
unfolding strokes
strokes-Lacks zero = omega arith
strokes-Lacks (suc n) = (omega arith, strokes-Lacks n)

strokes-IsText : (n : ℕ) → IsText (strokes n)
unfolding strokes texts
strokes-IsText zero = (refl, tt)
strokes-IsText (suc n) = (refl, strokes-IsText n)

strokes-ne-nil : (n : ℕ) → strokes n ≢ []
unfolding strokes
strokes-ne-nil zero = cc
strokes-ne-nil (suc n) = cc

pub calendar-IsoLaws : IsoLaws calendar (λ n. n)
calendar-IsoLaws = record {
  reads_back = strokes-count;
  one_word = strokes-NoSpace;
  nonempty = strokes-ne-nil;
  lacks_comma = strokes-Lacks;
  is_text = strokes-IsText;
}

abbrev alice : MisfinAddress
alice = record { mailbox = codes "a"; hostname = codes "b.c"; blurb = codes "Al B" }

alice-IsWritable : IsWritable alice
unfolding texts
alice-IsWritable = record {
  mailbox_ne_nil = cc;
  mailbox_NoSpace = (refl, tt);
  hostname_ne_nil = cc;
  hostname_NoSpace = (refl, (refl, (refl, tt)));
  hostname_lacks_at = omega arith;
  blurb_IsTrimmed = (refl, refl);
  blurb_lacks_comma = omega arith;
  blurb_lacks_at = omega arith;
}

parse-str_of_example : parse (str_of alice) ≡ ok alice
parse-str_of_example = parse-str_of alice alice-IsWritable

alice-IsListed : IsListed alice
unfolding texts
alice-IsListed = record {
  writable = alice-IsWritable;
  lacks_comma = omega arith;
  lacks_lf = omega arith;
  lacks_cr = omega arith;
  is_text = (refl, (refl, (refl, (refl, (refl, (refl, (refl, (refl, (refl, (refl, tt))))))))));
}

abbrev letter : GemmailMessage ℕ
letter = record {
  senders = alice ∷ [];
  recipients = [];
  timestamps = 2 ∷ 0 ∷ [];
  body = codes "hi\n";
}

letter-CanSend : CanSend calendar (λ n. n) calendar-IsoLaws letter
unfolding texts strokes
letter-CanSend = record {
  senders = (alice-IsListed, tt);
  recipients = tt;
  body_text = (refl, (refl, (refl, tt)));
  body_lacks_cr = omega arith;
  senders_fit = omega arith;
  recipients_fit = omega arith;
  timestamps_fit = omega arith;
}

from_bytes-to_bytes_example :
    from_bytes calendar (to_bytes calendar letter)
    ≡ ok (record letter { timestamps = map (λ n. n) letter.timestamps })
from_bytes-to_bytes_example =
    from_bytes-to_bytes calendar (λ n. n) calendar-IsoLaws letter letter-CanSend

format_b :
    from_bytes_b calendar (codes "< a@b.c Al B\n: x@y z q@r\n@ III\nhello\n: not@this")
    ≡ ok (record {
      senders = alice ∷ [];
      recipients =
          record { mailbox = codes "x"; hostname = codes "y"; blurb = [] }
          ∷ record { mailbox = codes "q"; hostname = codes "r"; blurb = [] }
          ∷ [];
      timestamps = 2 ∷ [];
      body = codes "hello\n: not@this";
    })
unfolding texts count_strokes
format_b = refl
