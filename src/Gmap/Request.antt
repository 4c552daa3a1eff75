-- ===== src/Gmap/Request.antt =====
-- The request line of src/titlani/gmap/handler.py and the patterns of its routes. A `$` in a pattern
-- also matches before a line feed at the end.
use titlani.Base.{
  ℕ, Bool, false, ◌||◌, List, [], ◌∷◌, ◌++◌, Option, none, some, if◌then◌else◌, Result, ok, ◌>>=◌,
  or_raise,
}
use titlani.Str.Core.{Text, Bytes, codes, same, has, after_prefix, before_suffix}
use titlani.Str.Strip.{strip}
use titlani.Str.Split.{split_once}
use titlani.Str.Utf8.{decode}
use titlani.Content.MessageId.{skip_digits}

pub record GeminiRequest (Cert : Type 0) : Type 0 where
  pub url : Text
  pub hostname : Text
  pub path : Text
  pub query : Option Text
  pub client_cert : Option Cert

pub data RequestError : Type 0 where
  invalid_utf8 not_gemini : RequestError

-- `rest[:slash_idx]` and `rest[slash_idx:]`
unfoldable pub host_and_path : Text → Text × Text
host_and_path rest = elim (split_once b'/' rest) [
  | none ↦ (rest, codes "/")
  | some (hostname, path) ↦ (hostname, b'/' ∷ path)
]

-- `hostname.split(":")[0]`
unfoldable pub without_port : Text → Text
without_port hostname = elim (split_once b':' hostname) [ none ↦ hostname | some (name, _) ↦ name ]

unfoldable pub path_and_query : Text → Text × Option Text
path_and_query path = elim (split_once b'?' path) [
  | none ↦ (path, none)
  | some (before, query) ↦ (before, some query)
]

-- `parse_gemini_request`
unfoldable pub parse_gemini_request :
    {Cert : Type 0} → Bytes → Option Cert → Result RequestError (GeminiRequest Cert)
unfolding host_and_path without_port path_and_query
parse_gemini_request line client_cert = do
  decoded ← or_raise (decode line) invalid_utf8
  let text = strip decoded
  rest ← or_raise (after_prefix (codes "gemini://") text) not_gemini
  let (hostname, whole_path) = host_and_path rest
  let (path, query) = path_and_query whole_path
  ok (record {
    url = text;
    hostname = without_port hostname;
    path = path;
    query = query;
    client_cert = client_cert;
  })

-- `^text$`
unfoldable pub is_path : Text → Text → Bool
is_path text path = same path text || same path (text ++ codes "\n")

-- `([^/?]+)$`, on what is left of a path
unfoldable pub as_name : Text → Option Text
as_name [] = none
as_name (c ∷ t) = if has b'/' (c ∷ t) || has b'?' (c ∷ t) then none else some (c ∷ t)

-- `^prefix([^/?]+)$`
unfoldable pub name_behind : Text → Text → Option Text
unfolding as_name
name_behind prefix path = elim (after_prefix prefix path) [ none ↦ none | some rest ↦ as_name rest ]

-- the text without the line feed that `$` may leave
unfoldable pub before_end : Text → Text
before_end t = elim (before_suffix (codes "\n") t) [ none ↦ t | some s ↦ s ]

-- `_MSGID_RE`: `.` matches no line feed
unfoldable pub one_line : Text → Option Text
one_line [] = none
one_line (c ∷ t) = if has b'\n' (c ∷ t) then none else some (c ∷ t)

unfoldable pub msgid_of : Text → Option Text
unfolding one_line before_end
msgid_of path = elim (after_prefix (codes "/msgid/") path) [
  | none ↦ none
  | some rest ↦ one_line (before_end rest)
]

-- `\d{4}-\d{2}-\d{2}T\d{2}:\d{2}:\d{2}Z`
fields_match : List (ℕ × Text) → Text → Bool
fields_match [] t = same t []
fields_match ((n, sep) ∷ rest) t = elim (skip_digits n t) [
  | none ↦ false
  | some a ↦ elim (after_prefix sep a) [ none ↦ false | some b ↦ fields_match rest b ]
]

unfoldable pub is_iso_stamp : Text → Bool
unfolding fields_match
is_iso_stamp t =
    fields_match
      ((4, codes "-")
        ∷ (2, codes "-")
        ∷ (2, codes "T")
        ∷ (2, codes ":")
        ∷ (2, codes ":")
        ∷ (2, codes "Z")
        ∷ [])
      t

-- `_TAG_NAME_SINCE_RE`: the name and the timestamp
since_parts : Option Text → Text → Option (Text × Text)
unfolding is_iso_stamp
since_parts none stamp = none
since_parts (some name) stamp = if is_iso_stamp stamp then some (name, stamp) else none

unfoldable pub tag_since : Text → Option (Text × Text)
unfolding since_parts as_name before_end
tag_since path = elim (after_prefix (codes "/tag/") path) [
  | none ↦ none
  | some rest ↦ elim (split_once b'/' rest) [
    | none ↦ none
    | some (name, stamp) ↦ since_parts (as_name name) (before_end stamp)
  ]
]
