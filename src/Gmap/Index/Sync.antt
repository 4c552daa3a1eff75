-- ===== src/Gmap/Index/Sync.antt =====
-- What `sync_filesystem` of src/titlani/gmap/mailbox.py leaves in the index.
use titlani.Base.{Bool, true, false, some, is_some, ◌≡◌, refl, arith}
use titlani.Str.Core.{Text}
use titlani.Runtime.{Runtime}
use titlani.Server.State.{lookup}
use titlani.Gmap.Mailbox.{MessageEntry, GmapMailbox}
use titlani.Gmap.Index.{file_exists, filenames, patterns, sync_filesystem}
use titlani.Gmap.Index.Has.{Has, keep_existing-Has}
use titlani.Gmap.Index.Visits.{IsFound, visit_patterns-Has}

listed-exists :
    (m : GmapMailbox) (name : Text)
    → is_some (lookup name m.files) ≡ true
    → file_exists m name ≡ true
unfolding file_exists
listed-exists m name h = ground arith

module _ (rt : Runtime) (is_list : Bool) (m : GmapMailbox) where
  abbrev synced : GmapMailbox
  synced = (sync_filesystem rt is_list m).1

  -- A message of the index whose file is there stays in the index with its tags, and with a file that
  -- is there.
  pub sync_filesystem-Has :
      (msgid : Text) (e : MessageEntry)
      → lookup msgid m.messages ≡ some e
      → file_exists m e.filename ≡ true
      → Has m msgid (λ i. i.tags ≡ e.tags) synced.messages
  unfolding sync_filesystem
  sync_filesystem-Has msgid e found there =
      keep_existing-Has m msgid (λ i. i.tags ≡ e.tags) _
        (visit_patterns-Has rt is_list (filenames m.messages) m msgid (λ i. i.tags ≡ e.tags)
          patterns m.files (false, m.messages) (listed-exists m) (λ i name new id kept. kept)
          (record { entry = e; found = found; tagged = refl; there = there }))

  -- The message is in the index with a file of the mailbox that is not hidden, that no entry named
  -- before, and that holds the message's id.
  pub record IsIndexed (msgid : Text) : Type 0 where
    pub entry : MessageEntry
    pub found : lookup msgid synced.messages ≡ some entry
    pub listed : is_some (lookup entry.filename m.files) ≡ true
    pub is_new : IsFound rt is_list (filenames m.messages) m msgid entry
