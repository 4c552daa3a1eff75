-- ===== src/Content/Gemmail.antt =====
-- `GemmailMessage` of src/titlani/content/gemmail.py: the message of Misfin(C), in `from_bytes` and
-- `to_bytes`; the scan of Misfin(B) is in the child module.
pub mod Lines
pub mod RoundTrip
pub mod FormatB
use titlani.Base.{
  ℕ, ◌+◌, Bool, true, false, ◌&&◌, not, List, [], ◌∷◌, ◌++◌, map, Option, none, some, if◌then◌else◌,
  ltb, length, Result, ok, err, ◌>>=◌, ◌>>◌, or_raise,
}
use titlani.Str.Core.{Text, Bytes, codes, starts_with}
use titlani.Str.Strip.{strip, lstrip_char}
use titlani.Str.Split.{split, join, to_lf, cr_before_lf}
use titlani.Str.Utf8.{encode, decode}
use titlani.Protocol.Constants.{max_metadata_line_size}
use titlani.Protocol.Errors.{Error, invalid_utf8, stray_cr, too_few_lines, metadata_line_too_long}
use titlani.Content.Address
use titlani.Content.Address.{MisfinAddress, str_of}
use titlani.Content.Time.{DateTime, parse_timestamp}

pub record GemmailMessage (Time : Type 0) : Type 0 where
  pub senders : List MisfinAddress
  pub recipients : List MisfinAddress
  pub timestamps : List Time
  pub body : Text

-- The items between commas, each stripped, the empty ones passed over.
unfoldable pub parse_items :
    {A : Type 0} → (Text → Result Error A) → List Text → Result Error (List A)
parse_items f [] = ok []
parse_items f (item ∷ items) = elim (strip item) [
  | [] ↦ parse_items f items
  | c ∷ t ↦ do a ← f (c ∷ t); more ← parse_items f items; ok (a ∷ more)
]

-- A metadata line of items, stripped first; an empty line has none.
unfoldable pub parse_line : {A : Type 0} → (Text → Result Error A) → Text → Result Error (List A)
unfolding parse_items
parse_line f line = elim (strip line) [ [] ↦ ok [] | c ∷ t ↦ parse_items f (split b',' (c ∷ t)) ]

-- `_parse_address_line`
unfoldable pub parse_address_line : Text → Result Error (List MisfinAddress)
parse_address_line = parse_line Address.parse

-- The size of a metadata line with its line feed.
unfoldable pub check_line : ℕ → Text → Result Error (Unit {0})
check_line i line =
    if ltb max_metadata_line_size (length (encode (line ++ b'\n' ∷ [])))
    then err (metadata_line_too_long i)
    else ok tt

-- `subject`, on the lines of the body
subject_in : List Text → Option Text
subject_in [] = none
subject_in (line ∷ lines) =
    let rest = subject_in lines in
    let stripped = strip line in
    if starts_with (codes "#") stripped && not (starts_with (codes "##") stripped)
    then some (strip (lstrip_char b'#' stripped))
    else if starts_with (codes "##") stripped
    then some (strip (lstrip_char b'#' stripped))
    else rest

unfoldable pub subject : {T : Type 0} → GemmailMessage T → Option Text
unfolding subject_in
subject m = subject_in (split b'\n' m.body)

-- The text that both parsers work on: decoded, its carriage returns checked, its lines split.
unfoldable pub text_lines : Bytes → Result Error (List Text)
text_lines raw = do
  text ← or_raise (decode raw) invalid_utf8
  if cr_before_lf text then ok (split b'\n' (to_lf text)) else err stray_cr

module _ (dt : DateTime) where
  open dt use {Time, to_iso}

  -- `_parse_timestamp_line`
  unfoldable pub parse_timestamp_line : Text → Result Error (List Time)
  parse_timestamp_line = parse_line (parse_timestamp dt)

  -- The three metadata lines, and the body behind them.
  unfoldable pub from_lines : List Text → Result Error (GemmailMessage Time)
  unfolding check_line parse_address_line parse_timestamp_line
  from_lines (a ∷ b ∷ c ∷ d ∷ rest) = do
    check_line 1 a
    check_line 2 b
    check_line 3 c
    senders ← parse_address_line a
    recipients ← parse_address_line b
    timestamps ← parse_timestamp_line c
    ok (record {
      senders = senders;
      recipients = recipients;
      timestamps = timestamps;
      body = join (b'\n' ∷ []) (d ∷ rest);
    })
  from_lines _ = err too_few_lines

  -- `GemmailMessage.from_bytes`
  unfoldable pub from_bytes : Bytes → Result Error (GemmailMessage Time)
  unfolding text_lines from_lines
  from_bytes raw = do lines ← text_lines raw; from_lines lines

  unfoldable pub to_text : GemmailMessage Time → Text
  to_text m =
      join (codes ", ") (map str_of m.senders)
      ++ (b'\n'
          ∷ (join (codes ", ") (map str_of m.recipients)
              ++ (b'\n' ∷ (join (codes ", ") (map to_iso m.timestamps) ++ (b'\n' ∷ m.body)))))

  -- `to_bytes`
  unfoldable pub to_bytes : GemmailMessage Time → Bytes
  unfolding to_text
  to_bytes m = encode (to_text m)
