-- ===== src/Gmap/Index.antt =====
-- The index of `GmapMailbox` in src/titlani/gmap/mailbox.py against the files: `.gmap.json` as it is
-- loaded and saved, and `sync_filesystem`. The names of files are names in the mailbox's directory.
pub mod Has
pub mod Visits
pub mod Sync
use titlani.Base.{
  ℕ, Bool, true, false, ◌&&◌, ◌||◌, not, List, [], ◌∷◌, ◌++◌, ◌==◌, Option, none, some,
  if◌then◌else◌, ltb, is_some, map, Result, ok, err,
}
use titlani.Str.Core.{Text, Bytes, codes, same, has, starts_with, ends_with}
use titlani.Str.Split.{split_once}
use titlani.Runtime.{Runtime}
use titlani.Content.MessageId.{parse_message_id_from_filename}
use titlani.Server.Lists.{in_list}
use titlani.Server.State.{lookup, insert}
use titlani.Gmap.Mailbox.{MessageEntry, GmapMailbox, Raised, unicode_decode, attribute}

-- `.gmap.json`: not there; no JSON, or JSON whose tags make no set; no UTF-8; JSON with something else
-- where an object is read; or an index, whose entries have texts for fields.
pub data IndexFile : Type 0 where
  missing corrupt no_utf8 no_object : IndexFile
  index : List (Text × MessageEntry) → IndexFile

-- `load`; only the exceptions of a corrupt index are caught
unfoldable pub load : IndexFile → Result Raised (List (Text × MessageEntry))
load missing = ok []
load corrupt = ok []
load no_utf8 = err unicode_decode
load no_object = err attribute
load (index messages) = ok messages

-- the order of texts by their code points
unfoldable pub before : Text → Text → Bool
before [] [] = false
before [] (d ∷ u) = true
before (c ∷ t) [] = false
before (c ∷ t) (d ∷ u) = let rest = before t u in if c == d then rest else ltb c d

unfoldable pub insert_sorted :
    Text × MessageEntry → List (Text × MessageEntry) → List (Text × MessageEntry)
unfolding before
insert_sorted p [] = p ∷ []
insert_sorted p (q ∷ qs) =
    let rest = insert_sorted p qs in if before q.0 p.0 then q ∷ rest else p ∷ q ∷ qs

-- `sorted(self.messages.items())`
unfoldable pub sorted : List (Text × MessageEntry) → List (Text × MessageEntry)
unfolding insert_sorted
sorted [] = []
sorted (p ∷ ps) = insert_sorted p (sorted ps)

-- `save`
unfoldable pub save : GmapMailbox → IndexFile
unfolding sorted
save m = index (sorted m.messages)

-- `(self.mailbox_path / filename).exists()`; the empty name is the directory's own path
unfoldable pub file_exists : GmapMailbox → Text → Bool
file_exists m filename = same filename [] || is_some (lookup filename m.files)

-- the patterns of the loop; `glob` takes the names in the order of the directory
abbrev pub patterns : List Text
patterns =
    codes ".gemmail" ∷ codes ".gemmail.new" ∷ codes ".gemmail.enc" ∷ codes ".gemmail.enc.new" ∷ []

unfoldable pub filenames : List (Text × MessageEntry) → List Text
filenames [] = []
filenames ((msgid, e) ∷ rest) = e.filename ∷ filenames rest

-- `_remove_stale_entries`, on the entries
unfoldable pub keep_existing : GmapMailbox → List (Text × MessageEntry) → List (Text × MessageEntry)
unfolding file_exists
keep_existing m [] = []
keep_existing m ((msgid, e) ∷ rest) =
    let others = keep_existing m rest in
    if file_exists m e.filename then (msgid, e) ∷ others else others

unfoldable pub any_stale : GmapMailbox → List (Text × MessageEntry) → Bool
unfolding file_exists
any_stale m [] = false
any_stale m ((msgid, e) ∷ rest) = not (file_exists m e.filename) || any_stale m rest

module _ (rt : Runtime) where
  -- `_parse_timestamp_from_msgid`
  unfoldable pub parse_timestamp_from_msgid : Text → Text
  parse_timestamp_from_msgid msgid =
      let ts_part : Text = (elim (split_once b'-' msgid) [ none ↦ msgid | some p ↦ p.0 ]) in
      elim (rt.compact_to_iso ts_part) [ none ↦ [] | some iso ↦ iso ]

  -- an entry for a file that is new
  unfoldable pub new_entry : Bool → Text → Text → MessageEntry
  unfolding parse_timestamp_from_msgid
  new_entry is_list msgid name = record {
    tags = codes "Inbox" ∷ codes "Unread" ∷ (if is_list then codes "List" ∷ [] else []);
    timestamp = parse_timestamp_from_msgid msgid;
    filename = name;
  }

  -- one file of a pattern: whether the index was modified so far, and the index
  unfoldable pub visit :
      Bool
      → List Text
      → Text
      → Bool × List (Text × MessageEntry)
      → Bool × List (Text × MessageEntry)
  unfolding new_entry
  visit is_list known_files name (modified, messages) =
      if starts_with (codes ".") name || in_list name known_files
      then (modified, messages)
      else elim (parse_message_id_from_filename name) [
        | none ↦ (modified, messages)
        | some msgid ↦ elim (lookup msgid messages) [
          | some e ↦ (true, insert msgid (record e { filename = name }) messages)
          | none ↦ (true, insert msgid (new_entry is_list msgid name) messages)
        ]
      ]

  -- a name of the directory, under a pattern of `glob`
  unfoldable pub visit_matching :
      Bool
      → List Text
      → Text
      → Text
      → Bool × List (Text × MessageEntry)
      → Bool × List (Text × MessageEntry)
  unfolding visit
  visit_matching is_list known_files pattern name p =
      if ends_with pattern name then visit is_list known_files name p else p

  unfoldable pub visit_files :
      Bool
      → List Text
      → Text
      → List (Text × Bytes)
      → Bool × List (Text × MessageEntry)
      → Bool × List (Text × MessageEntry)
  unfolding visit_matching
  visit_files is_list known_files pattern [] p = p
  visit_files is_list known_files pattern ((name, content) ∷ files) p =
      visit_files is_list known_files pattern files
        (visit_matching is_list known_files pattern name p)

  unfoldable pub visit_patterns :
      Bool
      → List Text
      → List Text
      → List (Text × Bytes)
      → Bool × List (Text × MessageEntry)
      → Bool × List (Text × MessageEntry)
  unfolding visit_files
  visit_patterns is_list known_files [] files p = p
  visit_patterns is_list known_files (pattern ∷ rest) files p =
      visit_patterns is_list known_files rest files
        (visit_files is_list known_files pattern files p)

  -- `sync_filesystem`, where `is_list` is `self._is_list`
  unfoldable pub sync_filesystem : Bool → GmapMailbox → Bool × GmapMailbox
  unfolding visit_patterns filenames keep_existing any_stale
  sync_filesystem is_list m =
      let (modified, found) =
        visit_patterns is_list (filenames m.messages) patterns m.files (false, m.messages) in
      (modified || any_stale m found, record m { messages = keep_existing m found })
