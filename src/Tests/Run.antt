-- ===== src/Tests/Run.antt =====
-- A name that opens the text functions and the parsers, for the `unfolding` lines of the tests.
use titlani.Str.Core.{same, has, after_prefix, starts_with, before_suffix, ends_with, contains}
use titlani.Str.Strip.{is_space, drop_while, strip_by, strip, lstrip_char, words, splitlines}
use titlani.Str.Split.{split_once, rsplit_once, split, join, to_lf, cr_before_lf, split_crlf}
use titlani.Str.Utf8.{encode, decode, is_scalar}
use titlani.Str.Number.{parse_int, decimal, str_of_int}
use titlani.Content.Address
use titlani.Content.Address.{split_address, address, str_of}
use titlani.Content.Time.{replace_z, parse_timestamp}
use titlani.Content.Gemmail
use titlani.Content.Gemmail.{text_lines, parse_line, from_lines}
use titlani.Content.Gemmail.FormatB.{scan_lines, from_bytes_b}
use titlani.Protocol.Request.{from_header, from_header_b, of_header, of_header_b, parse_message}

unfoldable pub texts : Unit {0}
unfolding same has after_prefix starts_with before_suffix ends_with contains is_space drop_while
    strip_by strip lstrip_char words splitlines split_once rsplit_once split join to_lf cr_before_lf
    split_crlf encode decode is_scalar parse_int decimal str_of_int split_address address str_of
    Address.parse replace_z parse_timestamp text_lines parse_line from_lines Gemmail.from_bytes
    Gemmail.to_bytes Gemmail.subject scan_lines from_bytes_b from_header from_header_b of_header
    of_header_b parse_message
texts = tt
