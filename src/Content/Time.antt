-- ===== src/Content/Time.antt =====
-- Dates as src/titlani/content/gemmail.py uses them: the standard library's `datetime`, whose parser
-- accepts many forms and reads the local time zone, is a parameter.
use titlani.Base.{[], ◌∷◌, ◌++◌, ◌==◌, if◌then◌else◌, Result, ok, err, ◌≡◌, ◌≢◌, Lacks}
use titlani.Str.Core.{Text, codes}
use titlani.Str.Strip.{NoSpace}
use titlani.Str.Utf8.{IsText}
use titlani.Protocol.Errors.{Error, invalid_timestamp, overflow}

-- What `datetime.fromisoformat(text).astimezone(UTC)` does: a date, a `ValueError`, or the
-- `OverflowError` of a date that leaves the calendar when it is moved to UTC.
pub data Parsed (T : Type 0) : Type 0 where
  parsed : T → Parsed T
  invalid out_of_range : Parsed T

pub record DateTime : Type 1 where
  pub Time : Type 0
  pub from_iso : Text → Parsed Time
  -- `t.strftime("%Y-%m-%dT%H:%M:%SZ")`
  pub to_iso : Time → Text

-- `text.replace("Z", "+00:00")`
unfoldable pub replace_z : Text → Text
replace_z [] = []
replace_z (c ∷ t) = (if c == b'Z' then codes "+00:00" else c ∷ []) ++ replace_z t

module _ (dt : DateTime) where
  open dt use {Time, from_iso, to_iso}

  -- The outcome of the conversion in the handler for `ValueError`.
  unfoldable pub raise_timestamp : Text → Parsed Time → Result Error Time
  raise_timestamp item (parsed t) = ok t
  raise_timestamp item invalid = err (invalid_timestamp item)
  raise_timestamp item out_of_range = err overflow

  unfoldable pub parse_timestamp : Text → Result Error Time
  unfolding raise_timestamp
  parse_timestamp item = raise_timestamp item (from_iso (replace_z item))

  -- What is relied on: a date that `strftime` wrote is read back, with whole seconds, and its text
  -- is one word without a comma.
  pub record IsoLaws (truncate : Time → Time) : Type 0 where
    pub reads_back : (t : Time) → from_iso (replace_z (to_iso t)) ≡ parsed (truncate t)
    pub one_word : (t : Time) → NoSpace (to_iso t)
    pub nonempty : (t : Time) → to_iso t ≢ []
    pub lacks_comma : (t : Time) → Lacks b',' (to_iso t)
    pub is_text : (t : Time) → IsText (to_iso t)
