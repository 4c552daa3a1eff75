-- ===== src/Gmap/Mailbox/Tags.antt =====
-- What tagging does to the lists, for src/titlani/gmap/mailbox.py.
use titlani.Base.{
  Bool, true, false, List, [], ◌∷◌, ◌++◌, none, some, ◌≡◌, ◌≢◌, ap, sym, ◌∙◌, arith, Bool-cases,
  inl, inr,
}
use titlani.Str.Core.{Text, codes, same, same_self, same-false}
use titlani.Server.Lists.{in_list}
use titlani.Server.State.{lookup, insert}
use titlani.Server.State.Dict.{lookup-insert}
use titlani.Gmap.Mailbox.{
  MessageEntry, GmapMailbox, valid_tag, is_trashed, ids_where, is_listed, list_by_tag, with_tag,
  add_tag,
}

in_list-append : (a : Text) (ts : List Text) → in_list a (ts ++ a ∷ []) ≡ true
unfolding in_list
in_list-append a [] = rw (same_self a)
in_list-append a (t ∷ ts) = ground (arith, in_list-append a ts)

in_list-append_left :
    (a b : Text) (ts : List Text) → a ≢ b → in_list a (ts ++ b ∷ []) ≡ in_list a ts
unfolding in_list
in_list-append_left a b [] n = let q = same-false b a (λ e. n (sym e)) in rw q
in_list-append_left a b (t ∷ ts) n = rw (in_list-append_left a b ts n)

in_list-with_tag : (tag : Text) (e : MessageEntry) → in_list tag (with_tag tag e).tags ≡ true
unfolding with_tag
in_list-with_tag tag e = elim (Bool-cases (in_list tag e.tags)) [
  | inl h ↦ rw (h, h)
  | inr h ↦ rw (h, in_list-append tag e.tags)
]

is_trashed-with_tag :
    (tag : Text) (e : MessageEntry)
    → tag ≢ codes "Trash"
    → is_trashed (with_tag tag e) ≡ is_trashed e
unfolding with_tag is_trashed
is_trashed-with_tag tag e n = elim (Bool-cases (in_list tag e.tags)) [
  | inl h ↦ rw h
  | inr h ↦ rw (h, in_list-append_left (codes "Trash") tag e.tags (λ q. n (sym q)))
]

-- An entry that passes a test is among the ids for the test.
pub in_list-ids_where :
    (p : MessageEntry → Bool) (msgid : Text) (ms : List (Text × MessageEntry)) (e : MessageEntry)
    → lookup msgid ms ≡ some e
    → p e ≡ true
    → in_list msgid (ids_where p ms) ≡ true
unfolding lookup ids_where in_list
in_list-ids_where p msgid [] e found h = cc
in_list-ids_where p msgid ((j, f) ∷ ms) e found h = elim (Bool-cases (same j msgid)) [
  | inl q ↦ let f_is_e : f ≡ e = ground arith in rw (f_is_e, h, q)
  | inr q ↦
      let rest = in_list-ids_where p msgid ms e (ground arith) h in
      elim (Bool-cases (p f)) [ inl k ↦ rw (k, q, rest) | inr k ↦ rw (k, rest) ]
]

is_listed-with_tag :
    (tag : Text) (e : MessageEntry)
    → is_trashed e ≡ false
    → is_listed tag none (with_tag tag e) ≡ true
unfolding is_listed
is_listed-with_tag tag e kept = elim (Bool-cases (same tag (codes "Trash"))) [
  | inl h ↦ rw (in_list-with_tag tag e, h)
  | inr h ↦
      let n : tag ≢ codes "Trash" =
        λ q. cc (ap (λ t. same t (codes "Trash")) q, h, same_self (codes "Trash")) in
      rw (in_list-with_tag tag e, h, is_trashed-with_tag tag e n, kept)
]

add_tag-found :
    (m : GmapMailbox) (msgid tag : Text) (e : MessageEntry)
    → lookup msgid m.messages ≡ some e
    → valid_tag tag ≡ true
    → (add_tag m msgid tag).1.messages ≡ insert msgid (with_tag tag e) m.messages
unfolding add_tag
add_tag-found m msgid tag e found valid = rw (add_tag, valid, found)

-- A message that is not in the trash is listed under each valid tag that is put on it.
pub list_by_tag-add_tag :
    (m : GmapMailbox) (msgid tag : Text) (e : MessageEntry)
    → lookup msgid m.messages ≡ some e
    → is_trashed e ≡ false
    → valid_tag tag ≡ true
    → in_list msgid (list_by_tag (add_tag m msgid tag).1 tag none) ≡ true
unfolding list_by_tag
list_by_tag-add_tag m msgid tag e found kept valid =
    in_list-ids_where (is_listed tag none) msgid (add_tag m msgid tag).1.messages (with_tag tag e)
      (ap (lookup msgid) (add_tag-found m msgid tag e found valid)
        ∙ lookup-insert msgid (with_tag tag e) m.messages)
      (is_listed-with_tag tag e kept)
