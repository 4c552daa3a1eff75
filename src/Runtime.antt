-- ===== src/Runtime.antt =====
-- What the program takes from the interpreter and from third-party libraries, as one parameter:
-- certificates (cryptography), the full case tables of Unicode, dates and the hash of hashlib.
use titlani.Base.{ℕ, List, Option}
use titlani.Str.Core.{Text, Bytes}
use titlani.Content.Time.{DateTime}

pub record Runtime : Type 1 where
  pub dt : DateTime
  -- `datetime.now(UTC)`, read as microseconds since the epoch, as a date
  pub utc : ℕ → dt.Time
  -- `str.lower`, `str.upper`
  pub lower : Text → Text
  pub upper : Text → Text
  -- `data.decode("utf-8", errors="replace")`
  pub decode_replace : Bytes → Text
  -- an X.509 certificate, with the values of its USER_ID and COMMON_NAME attributes, the DNS names of
  -- its SAN extension (`none`: it has no such extension) and tlacacoca's fingerprint of it
  pub Cert : Type 0
  pub user_ids : Cert → List Text
  pub common_names : Cert → List Text
  pub dns_names : Cert → Option (List Text)
  pub certificate_fingerprint : Cert → Text
  -- `hashlib.sha256(data).hexdigest()`
  pub sha256_hex : Bytes → Text
  -- `strftime` with "%Y-%m-%dT%H:%M:%S.%fZ" and with "%Y%m%dT%H%M%SZ"
  pub iso_micros : ℕ → Text
  pub compact : ℕ → Text
  -- `datetime.strptime` with "%Y%m%dT%H%M%SZ", then `strftime` with "%Y-%m-%dT%H:%M:%SZ"; `none` is
  -- a `ValueError`
  pub compact_to_iso : Text → Option Text
