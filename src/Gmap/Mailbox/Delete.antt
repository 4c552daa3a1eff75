-- ===== src/Gmap/Mailbox/Delete.antt =====
-- What deleting does, for src/titlani/gmap/mailbox.py and src/titlani/gmap/handler.py.
use titlani.Base.{
  Bool, true, false, List, [], ◌∷◌, none, some, ◌≡◌, ◌≢◌, refl, sym, ◌∙◌, inl, inr, Bool-cases,
  Option-cases, Result, ok, err,
}
use titlani.Str.Core.{Text, codes, same, same_iff, same-false}
use titlani.Server.State.{lookup}
use titlani.Gmap.Mailbox.{
  MessageEntry, GmapMailbox, remove, has_message, is_trashed, delete_message, deleted_reply,
  text_reply, handle_delete, GeminiResponse, Raised, is_a_directory,
}

pub lookup-remove {ℓ} : {V : Type ℓ} (k : Text) (m : List (Text × V)) → lookup k (remove k m) ≡ none
unfolding lookup remove
lookup-remove k [] = refl
lookup-remove k ((j, v) ∷ m) = elim (Bool-cases (same j k)) [
  | inl e ↦ rw (e, lookup-remove k m)
  | inr e ↦ rw (e, e, lookup-remove k m)
]

pub lookup-remove_other {ℓ} :
    {V : Type ℓ} (j k : Text) (m : List (Text × V)) → j ≢ k → lookup j (remove k m) ≡ lookup j m
unfolding lookup remove
lookup-remove_other j k [] n = refl
lookup-remove_other j k ((i, v) ∷ m) n = elim (Bool-cases (same i k)) [
  | inl e ↦
      let q : same i j ≡ false = same-false i j (λ a. n (sym a ∙ (same_iff i k).0 e)) in
      rw (e, q, lookup-remove_other j k m n)
  | inr e ↦ rw (e, lookup-remove_other j k m n)
]

-- The message was in the trash; its entry and its file are gone, and nothing else is.
pub record IsDeletion (m : GmapMailbox) (msgid : Text) (m' : GmapMailbox) : Type 0 where
  pub entry : MessageEntry
  pub found : lookup msgid m.messages ≡ some entry
  pub trashed : is_trashed entry ≡ true
  pub entry_gone : lookup msgid m'.messages ≡ none
  pub file_gone : lookup entry.filename m'.files ≡ none
  pub others_kept :
      (other : Text) → other ≢ msgid → lookup other m'.messages ≡ lookup other m.messages
  pub files_kept :
      (name : Text) → name ≢ entry.filename → lookup name m'.files ≡ lookup name m.files

-- The message is in the index, with the tag `Trash`.
unfoldable pub in_trash : GmapMailbox → Text → Bool
unfolding is_trashed
in_trash m msgid = elim (lookup msgid m.messages) [ none ↦ false | some e ↦ is_trashed e ]

-- The three ends of a request to delete.
pub data DeleteAnswer (m : GmapMailbox) (msgid : Text)
    : Result Raised (GeminiResponse × GmapMailbox) → Type 0 where
  deleted :
      (m' : GmapMailbox)
      → IsDeletion m msgid m'
      → DeleteAnswer m msgid (ok (text_reply (codes "Message deleted"), m'))
  refused :
      (r : GeminiResponse)
      → in_trash m msgid ≡ false
      → r.status ≡ 51
      → DeleteAnswer m msgid (ok (r, m))
  raised :
      (e : MessageEntry)
      → lookup msgid m.messages ≡ some e
      → is_trashed e ≡ true
      → e.filename ≡ []
      → DeleteAnswer m msgid (err is_a_directory)

removal-IsDeletion :
    (m : GmapMailbox) (msgid : Text) (e : MessageEntry)
    → lookup msgid m.messages ≡ some e
    → is_trashed e ≡ true
    → IsDeletion m msgid
        (record { messages = remove msgid m.messages; files = remove e.filename m.files })
removal-IsDeletion m msgid e found trashed = record {
  entry = e;
  found = found;
  trashed = trashed;
  entry_gone = lookup-remove msgid m.messages;
  file_gone = lookup-remove e.filename m.files;
  others_kept = λ other n. lookup-remove_other other msgid m.messages n;
  files_kept = λ name n. lookup-remove_other name e.filename m.files n;
}

trashed-DeleteAnswer :
    (m : GmapMailbox) (msgid : Text) (e : MessageEntry)
    → lookup msgid m.messages ≡ some e
    → is_trashed e ≡ true
    → DeleteAnswer m msgid (handle_delete msgid m)
unfolding handle_delete has_message delete_message deleted_reply
trashed-DeleteAnswer m msgid e found trashed = elim (Bool-cases (same e.filename [])) [
  | inl f ↦
      rw (handle_delete, has_message, found, delete_message, trashed, f)
        (raised e found trashed ((same_iff e.filename []).0 f))
  | inr f ↦
      rw (handle_delete, has_message, found, delete_message, trashed, f)
        (deleted _ (removal-IsDeletion m msgid e found trashed))
]

-- A request to delete has one of three ends: a message of the trash is deleted, with its file and
-- nothing else, and the answer is 20; the message is not in the index or not in the trash, the answer
-- is 51 and nothing changes; or the message is in the trash with an empty file name, which names the
-- directory, and an exception is raised.
pub handle_delete-DeleteAnswer :
    (m : GmapMailbox) (msgid : Text) → DeleteAnswer m msgid (handle_delete msgid m)
unfolding handle_delete has_message delete_message deleted_reply in_trash
handle_delete-DeleteAnswer m msgid = elim (Option-cases (lookup msgid m.messages)) [
  | inl e ↦ rw (handle_delete, has_message, e) (refused _ (rw (in_trash, e)) refl)
  | inr (entry, e) ↦ elim (Bool-cases (is_trashed entry)) [
    | inr f ↦
        rw (handle_delete, has_message, e, delete_message, f) (refused _ (rw (in_trash, e, f)) refl)
    | inl f ↦ trashed-DeleteAnswer m msgid entry e f
  ]
]
