-- ===== src/Content/MessageId.antt =====
-- src/titlani/content/message_id.py: ids in file names, and the links of replies. The id of a new
-- message is in Server.Delivery.
pub mod Links
use titlani.Base.{
  ℕ, zero, suc, ◌-◌, ◌+◌, Bool, true, false, ◌&&◌, ◌||◌, not, List, [], ◌∷◌, ◌++◌, ◌==◌, Option,
  none, some, if◌then◌else◌, leb, all, length, is_some,
}
use titlani.Str.Core.{Text, codes, same, after_prefix, before_suffix}
use titlani.Str.Strip.{is_space, drop_while}
use titlani.Str.Number.{digit_value}

-- `\d{n}`: what stands behind so many digits
unfoldable pub skip_digits : ℕ → Text → Option Text
skip_digits zero t = some t
skip_digits (suc n) [] = none
skip_digits (suc n) (c ∷ t) = elim (digit_value c) [ none ↦ none | some _ ↦ skip_digits n t ]

-- `\d{8}T\d{6}Z`: what stands behind it
unfoldable pub skip_stamp : Text → Option Text
unfolding skip_digits
skip_stamp t = elim (skip_digits 8 t) [
  | none ↦ none
  | some a ↦ elim (after_prefix (codes "T") a) [
    | none ↦ none
    | some b ↦ elim (skip_digits 6 b) [ none ↦ none | some c ↦ after_prefix (codes "Z") c ]
  ]
]

-- `[0-9a-f]`
abbrev is_lower_hex : ℕ → Bool
is_lower_hex c = (leb b'0' c && leb c b'9') || (leb b'a' c && leb c b'f')

-- the end of `_NEW_FORMAT_RE` or of `_OLD_FORMAT_RE`, which are matched in full
unfoldable pub is_id_end : Text → Bool
is_id_end [] = true
is_id_end (c ∷ []) = false
is_id_end (c ∷ d ∷ t) = c == b'-' && all is_lower_hex (d ∷ t)

unfoldable pub is_message_id : Text → Bool
unfolding skip_stamp is_id_end
is_message_id stem = elim (skip_stamp stem) [ none ↦ false | some rest ↦ is_id_end rest ]

-- `_SUFFIXES`, in the order of the loop
abbrev pub suffixes : List Text
suffixes =
    codes ".gemmail.enc.new" ∷ codes ".gemmail.enc" ∷ codes ".gemmail.new" ∷ codes ".gemmail" ∷ []

unfoldable pub without_suffix : List Text → Text → Option Text
without_suffix [] filename = none
without_suffix (s ∷ ss) filename = elim (before_suffix s filename) [
  | some stem ↦ some stem
  | none ↦ without_suffix ss filename
]

-- `parse_message_id_from_filename`
unfoldable pub parse_message_id_from_filename : Text → Option Text
unfolding without_suffix is_message_id
parse_message_id_from_filename filename = elim (without_suffix suffixes filename) [
  | none ↦ none
  | some stem ↦ if is_message_id stem then some stem else none
]

-- `\S*`
unfoldable pub word : Text → Text
word [] = []
word (c ∷ t) = let rest = word t in if is_space c then [] else c ∷ rest

abbrev pub or_no_match : Text → Option Text
or_no_match [] = none
or_no_match (c ∷ w) = some (c ∷ w)

-- `=>\s*mid:(\S+)` at the beginning of the text: the group
unfoldable pub link_here : Text → Option Text
unfolding word
link_here t = elim (after_prefix (codes "=>") t) [
  | none ↦ none
  | some a ↦ elim (after_prefix (codes "mid:") (drop_while is_space a)) [
    | none ↦ none
    | some b ↦ or_no_match (word b)
  ]
]

-- the characters that the match takes
unfoldable pub link_length : Text → Text → ℕ
link_length t id =
    let behind =
      drop_while is_space (elim (after_prefix (codes "=>") t) [ none ↦ [] | some a ↦ a ]) in
    (length t - length behind) + (4 + length id)

-- `findall`: whether a line begins here, and the characters that the last match still takes
unfoldable pub find_links : Bool → ℕ → Text → List Text
unfolding link_here link_length
find_links start left [] = []
find_links start (suc left) (c ∷ t) = find_links (c == b'\n') left t
find_links start zero (c ∷ t) =
    let line_next = c == b'\n' in
    elim start [
      | false ↦ find_links line_next zero t
      | true ↦ elim (link_here (c ∷ t)) [
        | none ↦ find_links line_next zero t
        | some id ↦ id ∷ find_links line_next (link_length (c ∷ t) id - 1) t
      ]
    ]

-- `extract_reply_to_ids`
unfoldable pub extract_reply_to_ids : Text → List Text
unfolding find_links
extract_reply_to_ids body = find_links true zero body

-- `build_reply_link`
unfoldable pub build_reply_link : Text → Text
build_reply_link message_id = codes "=> mid:" ++ (message_id ++ codes " In reply to")
