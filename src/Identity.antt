-- ===== src/Identity.antt =====
-- src/titlani/identity/certificate.py: what is read from a certificate.
use titlani.Base.{
  ℕ, Bool, ◌||◌, ◌&&◌, List, [], ◌∷◌, Option, none, some, if◌then◌else◌, leb, length, drop,
}
use titlani.Str.Core.{Text, codes, starts_with}
use titlani.Str.Split.{split_once}
use titlani.Runtime.{Runtime}

pub record MisfinIdentity : Type 0 where
  pub mailbox : Text
  pub hostname : Text
  pub blurb : Text

-- `attrs[0].value` where there is one
first_or_empty : List Text → Text
first_or_empty [] = []
first_or_empty (t ∷ ts) = t

-- The fallback for a certificate with no USER_ID: the common name is taken apart.
fallback : MisfinIdentity → Option (Text × Text) → MisfinIdentity
fallback i none = i
fallback i (some (user, host)) = record {
  mailbox = user;
  hostname = elim i.hostname [ [] ↦ host | c ∷ t ↦ c ∷ t ];
  blurb = [];
}

-- `[0-9a-fA-F]`
abbrev pub is_hex : ℕ → Bool
is_hex c = (leb b'0' c && leb c b'9') || (leb b'a' c && leb c b'f') || (leb b'A' c && leb c b'F')

-- The text without its other characters.
unfoldable pub keep_hex : Text → Text
keep_hex [] = []
keep_hex (c ∷ t) = let rest = keep_hex t in if is_hex c then c ∷ rest else rest

-- `_ALGO_PREFIXES`, in the order of the loop
abbrev algo_prefixes : List Text
algo_prefixes = codes "sha256:" ∷ codes "sha1:" ∷ codes "sha512:" ∷ codes "md5:" ∷ []

module _ (rt : Runtime) where
  open rt use {Cert, user_ids, common_names, dns_names, lower}

  attributes : Cert → MisfinIdentity
  unfolding first_or_empty
  attributes cert = record {
    mailbox = first_or_empty (user_ids cert);
    hostname = elim (dns_names cert) [ none ↦ [] | some names ↦ first_or_empty names ];
    blurb = first_or_empty (common_names cert);
  }

  -- `extract_identity`
  unfoldable pub extract_identity : Cert → MisfinIdentity
  unfolding attributes fallback
  extract_identity cert =
      let i = attributes cert in
      elim i.mailbox [ [] ↦ fallback i (split_once b'@' i.blurb) | c ∷ t ↦ i ]

  drop_algo : List Text → Text → Text
  drop_algo [] fingerprint = fingerprint
  drop_algo (p ∷ ps) fingerprint =
      let rest = drop_algo ps fingerprint in
      if starts_with p (lower fingerprint) then drop (length p) fingerprint else rest

  -- `normalize_fingerprint`
  unfoldable pub normalize_fingerprint : Text → Text
  unfolding drop_algo keep_hex
  normalize_fingerprint fingerprint = lower (keep_hex (drop_algo algo_prefixes fingerprint))
