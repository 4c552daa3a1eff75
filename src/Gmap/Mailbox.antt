-- ===== src/Gmap/Mailbox.antt =====
-- `GmapMailbox` of src/titlani/gmap/mailbox.py: the index of a mailbox and its tags, with the files
-- of the mailbox, and the handlers of src/titlani/gmap/handler.py that work on them. A set of tags
-- is a list in which `add` puts no tag twice.
pub mod Delete
pub mod Tags
use titlani.Base.{
  ℕ, Bool, true, false, ◌&&◌, ◌||◌, not, List, [], ◌∷◌, ◌++◌, ◌==◌, Option, none, some,
  if◌then◌else◌, leb, all, is_some, Result, ok, err, ◌>>=◌,
}
use titlani.Str.Core.{Text, Bytes, codes, same, contains}
use titlani.Str.Split.{join}
use titlani.Str.Utf8.{encode}
use titlani.Server.Lists.{in_list}
use titlani.Server.State.{lookup, insert}

pub record MessageEntry : Type 0 where
  pub tags : List Text
  pub timestamp : Text
  pub filename : Text

pub record GmapMailbox : Type 0 where
  pub messages : List (Text × MessageEntry)
  pub files : List (Text × Bytes)

-- The exceptions that leave the methods: a path that is a directory, an index that is no UTF-8, and
-- one that is JSON with something else where an object is read.
pub data Raised : Type 0 where
  is_a_directory unicode_decode attribute : Raised

-- `TAG_PATTERN`: a `$` also stands before a line feed at the end
is_tag_char : ℕ → Bool
is_tag_char c =
    (leb b'a' c && leb c b'z')
    || (leb b'A' c && leb c b'Z')
    || (leb b'0' c && leb c b'9')
    || c == b'_'
    || c == b':'
    || c == b'-'

tag_rest : Text → Bool
unfolding is_tag_char
tag_rest [] = true
tag_rest (c ∷ []) = is_tag_char c || c == b'\n'
tag_rest (c ∷ d ∷ t) = is_tag_char c && tag_rest (d ∷ t)

-- `_valid_tag`
unfoldable pub valid_tag : Text → Bool
unfolding is_tag_char tag_rest
valid_tag [] = false
valid_tag (c ∷ t) = is_tag_char c && tag_rest t

unfoldable pub remove {ℓ} : {V : Type ℓ} → Text → List (Text × V) → List (Text × V)
remove k [] = []
remove k ((j, v) ∷ m) = let rest = remove k m in if same j k then rest else (j, v) ∷ rest

-- `has_message`
unfoldable pub has_message : GmapMailbox → Text → Bool
has_message m msgid = is_some (lookup msgid m.messages)

unfoldable pub is_trashed : MessageEntry → Bool
is_trashed e = in_list (codes "Trash") e.tags

unfoldable pub ids_where : (MessageEntry → Bool) → List (Text × MessageEntry) → List Text
ids_where p [] = []
ids_where p ((msgid, e) ∷ rest) =
    let others = ids_where p rest in if p e then msgid ∷ others else others

-- `list_all_msgids`
unfoldable pub list_all_msgids : GmapMailbox → List Text
unfolding ids_where is_trashed
list_all_msgids m = ids_where (λ e. not (is_trashed e)) m.messages

-- the test of `list_by_tag`; `is_old` says of an entry's timestamp that it can be read and is before
-- `since`, where that is given
unfoldable pub is_listed : Text → Option (Text → Bool) → MessageEntry → Bool
unfolding is_trashed
is_listed tag since e =
    in_list tag e.tags
    && not (not (same tag (codes "Trash")) && is_trashed e)
    && elim since [ none ↦ true | some is_old ↦ not (is_old e.timestamp) ]

-- `list_by_tag`
unfoldable pub list_by_tag : GmapMailbox → Text → Option (Text → Bool) → List Text
unfolding ids_where is_listed
list_by_tag m tag since = ids_where (is_listed tag since) m.messages

-- `get_message_bytes`; the empty name is the directory's own path, which exists
unfoldable pub get_message_bytes : GmapMailbox → Text → Result Raised (Option Bytes)
get_message_bytes m msgid = elim (lookup msgid m.messages) [
  | none ↦ ok none
  | some e ↦ if same e.filename [] then err is_a_directory else ok (lookup e.filename m.files)
]

-- `is_encrypted`
unfoldable pub is_encrypted : GmapMailbox → Text → Bool
is_encrypted m msgid = elim (lookup msgid m.messages) [
  | none ↦ false
  | some e ↦ contains (codes ".enc") e.filename
]

unfoldable pub with_tag : Text → MessageEntry → MessageEntry
with_tag tag e = if in_list tag e.tags then e else record e { tags = e.tags ++ tag ∷ [] }

unfoldable pub discard : Text → List Text → List Text
discard tag [] = []
discard tag (t ∷ ts) = let rest = discard tag ts in if same t tag then rest else t ∷ rest

-- `add_tag`
unfoldable pub add_tag : GmapMailbox → Text → Text → Bool × GmapMailbox
unfolding with_tag
add_tag m msgid tag = if not (valid_tag tag) then (false, m) else elim (lookup msgid m.messages) [
  | none ↦ (false, m)
  | some e ↦ (true, record m { messages = insert msgid (with_tag tag e) m.messages })
]

-- `remove_tag`
unfoldable pub remove_tag : GmapMailbox → Text → Text → Bool × GmapMailbox
unfolding discard
remove_tag m msgid tag = elim (lookup msgid m.messages) [
  | none ↦ (false, m)
  | some e ↦ (
    true,
    record m { messages = insert msgid (record e { tags = discard tag e.tags }) m.messages },
  )
]

-- `delete_message`; to unlink the directory's own path raises, before the entry is removed
unfoldable pub delete_message : GmapMailbox → Text → Result Raised (Bool × GmapMailbox)
unfolding remove is_trashed
delete_message m msgid = elim (lookup msgid m.messages) [
  | none ↦ ok (false, m)
  | some e ↦
      if not (is_trashed e)
      then ok (false, m)
      else if same e.filename []
      then err is_a_directory
      else ok
          (true, record { messages = remove msgid m.messages; files = remove e.filename m.files })
]

pub record GeminiResponse : Type 0 where
  pub status : ℕ
  pub meta : Text
  pub body : Bytes

abbrev pub reply : ℕ → Text → GeminiResponse
reply status meta = record { status = status; meta = meta; body = [] }

abbrev pub text_reply : Bytes → GeminiResponse
text_reply body = record { status = 20; meta = codes "text/plain"; body = body }

message_reply : Option Bytes → GeminiResponse
message_reply none = reply 51 (codes "Message file missing")
message_reply (some data_bytes) = text_reply data_bytes

-- `_handle_msgid`
unfoldable pub handle_msgid : Text → GmapMailbox → Result Raised GeminiResponse
unfolding has_message is_encrypted get_message_bytes message_reply
handle_msgid msgid m =
    if not (has_message m msgid)
    then ok (reply 51 (codes "Message not found"))
    else if is_encrypted m msgid
    then ok (reply 40 (codes "Message is encrypted"))
    else get_message_bytes m msgid >>= λ found. ok (message_reply found)

-- `_handle_tag_list_all`
unfoldable pub handle_tag_list_all : GmapMailbox → GeminiResponse
unfolding list_all_msgids
handle_tag_list_all m = text_reply (encode (join (codes ", ") (list_all_msgids m)))

-- `_handle_add_tag`; the index is saved with every change
unfoldable pub handle_add_tag : Text → Text → GmapMailbox → GeminiResponse × GmapMailbox
unfolding has_message add_tag
handle_add_tag tag msgid m =
    if not (valid_tag tag)
    then (reply 59 (codes "Invalid tag name"), m)
    else if not (has_message m msgid)
    then (reply 51 (codes "Message not found"), m)
    else (text_reply (codes "Tag added"), (add_tag m msgid tag).1)

-- `_handle_remove_tag`
unfoldable pub handle_remove_tag : Text → Text → GmapMailbox → GeminiResponse × GmapMailbox
unfolding has_message remove_tag
handle_remove_tag tag msgid m =
    if not (has_message m msgid)
    then (reply 51 (codes "Message not found"), m)
    else (text_reply (codes "Tag removed"), (remove_tag m msgid tag).1)

deleted_reply : GmapMailbox → Bool × GmapMailbox → GeminiResponse × GmapMailbox
deleted_reply m (done, m') =
    if not done
    then (reply 51 (codes "Message not in Trash"), m)
    else (text_reply (codes "Message deleted"), m')

-- `_handle_delete`
unfoldable pub handle_delete : Text → GmapMailbox → Result Raised (GeminiResponse × GmapMailbox)
unfolding has_message delete_message deleted_reply
handle_delete msgid m =
    if not (has_message m msgid)
    then ok (reply 51 (codes "Message not found"), m)
    else delete_message m msgid >>= λ done. ok (deleted_reply m done)
