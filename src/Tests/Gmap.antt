-- ===== src/Tests/Gmap.antt =====
-- The index of a mailbox at concrete inputs.
use titlani.Base.{true, false, [], ◌∷◌, none, some, ◌≡◌, refl, ok, err}
use titlani.Str.Core.{codes}
use titlani.Server.Lists.{in_list}
use titlani.Server.State.{lookup}
use titlani.Gmap.Mailbox.{
  MessageEntry, GmapMailbox, valid_tag, is_trashed, list_by_tag, add_tag, handle_delete,
  has_message, remove, delete_message, text_reply, reply, is_a_directory,
}
use titlani.Gmap.Mailbox.Delete.{DeleteAnswer, handle_delete-DeleteAnswer}
use titlani.Gmap.Mailbox.Tags.{list_by_tag-add_tag}
use titlani.Tests.Run.{texts}

abbrev inbox : MessageEntry
inbox = record { tags = codes "Inbox" ∷ []; timestamp = []; filename = codes "a.gemmail" }

abbrev gone : MessageEntry
gone = record { tags = codes "Trash" ∷ []; timestamp = []; filename = codes "b.gemmail" }

abbrev box : GmapMailbox
box = record {
  messages = (codes "a", inbox) ∷ (codes "b", gone) ∷ [];
  files = (codes "a.gemmail", codes "x") ∷ (codes "b.gemmail", codes "y") ∷ [];
}

found : lookup (codes "a") box.messages ≡ some inbox
unfolding texts lookup
found = refl

kept : is_trashed inbox ≡ false
unfolding texts is_trashed in_list
kept = refl

-- the pattern also lets a line feed stand at the end
valid :
    (valid_tag (codes "Work") ≡ true) × (valid_tag (codes "Work\n") ≡ true) × (valid_tag [] ≡ false)
unfolding valid_tag
valid = (refl, refl, refl)

list_by_tag-add_tag_example :
    in_list (codes "a") (list_by_tag (add_tag box (codes "a") (codes "Work")).1 (codes "Work") none)
    ≡ true
list_by_tag-add_tag_example =
    list_by_tag-add_tag box (codes "a") (codes "Work") inbox found kept valid.0

handle_delete-DeleteAnswer_example : DeleteAnswer box (codes "b") (handle_delete (codes "b") box)
handle_delete-DeleteAnswer_example = handle_delete-DeleteAnswer box (codes "b")

-- an entry with no file name, as an index without the field gives it
abbrev nameless : GmapMailbox
nameless = record { messages = (codes "b", record gone { filename = [] }) ∷ []; files = [] }

deletions :
    (handle_delete (codes "b") box
      ≡ ok (
        text_reply (codes "Message deleted"),
        record { messages = (codes "a", inbox) ∷ []; files = (codes "a.gemmail", codes "x") ∷ [] },
      ))
    × (handle_delete (codes "a") box ≡ ok (reply 51 (codes "Message not in Trash"), box))
    × (handle_delete (codes "b") nameless ≡ err is_a_directory)
unfolding texts lookup has_message is_trashed in_list remove delete_message handle_delete
deletions = (refl, refl, refl)
