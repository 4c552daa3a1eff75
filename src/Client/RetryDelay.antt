-- ===== src/Client/RetryDelay.antt =====
-- `_parse_retry_delay` of src/titlani/client/session.py.
use titlani.Base.{ℕ, ◌+◌, ◌*◌, Bool, true, false, [], ◌∷◌, ◌==◌, Option, none, some}
use titlani.Str.Core.{Text}
use titlani.Str.Strip.{is_space, drop_while}
use titlani.Str.Number.{digit_value}

-- `retry_base_delay`, or the seconds that the server asks for
pub data Delay : Type 0 where
  base_delay : Delay
  seconds : ℕ → Delay

-- `\s*s`
starts_unit : Text → Bool
starts_unit t = elim (drop_while is_space t) [ [] ↦ false | c ∷ _ ↦ c == b's' ]

-- the rest of `(\d+)\s*s`, behind digits that are worth `n`
number_match : ℕ → Text → Option ℕ
unfolding starts_unit
number_match n [] = none
number_match n (c ∷ t) = elim (digit_value c) [
  | some d ↦ number_match (n * 10 + d) t
  | none ↦ elim (starts_unit (c ∷ t)) [ true ↦ some n | false ↦ none ]
]

-- `_RETRY_DELAY_RE.search`
unfoldable pub search_delay : Text → Option ℕ
unfolding number_match
search_delay [] = none
search_delay (c ∷ t) = elim (digit_value c) [
  | none ↦ search_delay t
  | some d ↦ elim (number_match d t) [ some n ↦ some n | none ↦ search_delay t ]
]

unfoldable pub parse_retry_delay : Text → Delay
unfolding search_delay
parse_retry_delay meta = elim (search_delay meta) [ none ↦ base_delay | some n ↦ seconds n ]
