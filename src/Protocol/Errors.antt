-- ===== src/Protocol/Errors.antt =====
-- The exceptions that parsing raises: every constructor is a `ValueError`, except `overflow`.
use titlani.Base.{ℕ, Bool, true, false, ℤ}
use titlani.Str.Core.{Text}

pub data Error : Type 0 where
  header_too_large invalid_utf8 missing_tab invalid_scheme missing_space empty_message : Error
  b_request_too_large stray_cr too_few_lines empty_address : Error
  invalid_address invalid_length blurb_comma blurb_at invalid_timestamp invalid_status :
      Text → Error
  negative_length : ℤ → Error
  length_too_large metadata_line_too_long : ℕ → Error
  -- `OverflowError`, from the conversion of a date to UTC
  overflow : Error

-- `except ValueError` catches it.
abbrev pub is_value_error : Error → Bool
is_value_error overflow = false
is_value_error _ = true
