-- ===== src/Content/Gemmail/FormatB.antt =====
-- `GemmailMessage.from_bytes_b` and `_parse_b_metadata` of src/titlani/content/gemmail.py.
use titlani.Base.{
  Bool, true, false, not, List, [], ◌∷◌, ◌++◌, none, some, if◌then◌else◌, Result, ok, err, ◌>>=◌,
}
use titlani.Str.Core.{Text, Bytes, codes, after_prefix}
use titlani.Str.Strip.{strip, words}
use titlani.Str.Split.{join}
use titlani.Protocol.Errors.{Error, overflow}
use titlani.Content.Address
use titlani.Content.Address.{MisfinAddress}
use titlani.Content.Time.{DateTime, Parsed, parsed, invalid, out_of_range, replace_z}
use titlani.Content.Gemmail.{GemmailMessage, text_lines}

-- The variables of the loop.
pub record Scan (Time : Type 0) : Type 0 where
  pub senders : List MisfinAddress
  pub recipients : List MisfinAddress
  pub timestamps : List Time
  pub body_lines : List Text
  pub recipients_found : Bool
  pub timestamp_found : Bool

-- The addresses among the words; a word that is none is passed over.
parse_tokens : List Text → List MisfinAddress
parse_tokens [] = []
parse_tokens (w ∷ ws) = elim (Address.parse w) [
  | ok a ↦ a ∷ parse_tokens ws
  | err _ ↦ parse_tokens ws
]

abbrev keep_line : {T : Type 0} → Scan T → Text → Scan T
keep_line s line = record s { body_lines = s.body_lines ++ line ∷ [] }

module _ (dt : DateTime) where
  open dt use {Time, from_iso}

  sender_line : Scan Time → Text → Text → Scan Time
  sender_line s line rest = elim (Address.parse rest) [
    | ok a ↦ record s { senders = s.senders ++ a ∷ [] }
    | err _ ↦ keep_line s line
  ]

  timestamp_line : Scan Time → Text → Parsed Time → Result Error (Scan Time)
  timestamp_line s line (parsed t) = ok (record s { timestamps = s.timestamps ++ t ∷ [] })
  timestamp_line s line invalid = ok (keep_line s line)
  timestamp_line s line out_of_range = err overflow

  -- the tests that follow the one for a sender
  other_line : Scan Time → Text → Result Error (Scan Time)
  unfolding parse_tokens timestamp_line
  other_line s line =
      let as_timestamp : Result Error (Scan Time) = (elim (after_prefix (codes "@ ") line) [
        | some rest ↦
            if not s.timestamp_found
            then timestamp_line (record s { timestamp_found = true }) line
                (from_iso (replace_z (strip rest)))
            else ok (keep_line s line)
        | none ↦ ok (keep_line s line)
      ]) in
      elim (after_prefix (codes ": ") line) [
        | some rest ↦
            if not s.recipients_found
            then ok (record s {
              recipients_found = true;
              recipients = s.recipients ++ parse_tokens (words rest);
            })
            else as_timestamp
        | none ↦ as_timestamp
      ]

  -- one round of the loop
  unfoldable pub scan_line : Scan Time → Text → Result Error (Scan Time)
  unfolding sender_line other_line
  scan_line s line = elim (after_prefix (codes "< ") line) [
    | some rest ↦ ok (sender_line s line rest)
    | none ↦ other_line s line
  ]

  unfoldable pub scan_lines : Scan Time → List Text → Result Error (Scan Time)
  unfolding scan_line
  scan_lines s [] = ok s
  scan_lines s (line ∷ lines) = do s' ← scan_line s line; scan_lines s' lines

  abbrev pub start : Scan Time
  start = record {
    senders = [];
    recipients = [];
    timestamps = [];
    body_lines = [];
    recipients_found = false;
    timestamp_found = false;
  }

  -- `GemmailMessage.from_bytes_b`
  unfoldable pub from_bytes_b : Bytes → Result Error (GemmailMessage Time)
  unfolding text_lines scan_lines
  from_bytes_b raw = do
    lines ← text_lines raw
    s ← scan_lines start lines
    ok (record {
      senders = s.senders;
      recipients = s.recipients;
      timestamps = s.timestamps;
      body = join (b'\n' ∷ []) s.body_lines;
    })
