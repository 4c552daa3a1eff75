-- ===== src/Gmap/Index/Has.antt =====
-- A message in the index of src/titlani/gmap/mailbox.py, and what keeps it there.
use titlani.Base.{true, false, List, [], ◌∷◌, some, ◌≡◌, refl, ap, ◌∙◌, arith, Bool-cases, inl, inr}
use titlani.Str.Core.{Text, same, same_iff}
use titlani.Server.State.{lookup, insert}
use titlani.Server.State.Dict.{lookup-insert, lookup-insert_other}
use titlani.Gmap.Mailbox.{MessageEntry, GmapMailbox}
use titlani.Gmap.Index.{file_exists, keep_existing, any_stale}

-- The message is in the index, with such an entry, and its file is there.
pub record Has (m : GmapMailbox) (msgid : Text) (T : MessageEntry → Type 0)
    (messages : List (Text × MessageEntry)) : Type 0 where
  pub entry : MessageEntry
  pub found : lookup msgid messages ≡ some entry
  pub tagged : T entry
  pub there : file_exists m entry.filename ≡ true

pub keep_existing-Has :
    (m : GmapMailbox) (msgid : Text) (T : MessageEntry → Type 0)
    (messages : List (Text × MessageEntry))
    → Has m msgid T messages
    → Has m msgid T (keep_existing m messages)
unfolding keep_existing lookup
keep_existing-Has m msgid T [] h = absurd (cc (h.found))
keep_existing-Has m msgid T ((j, e) ∷ rest) h = elim (Bool-cases (same j msgid)) [
  | inl f ↦
      let q : e ≡ h.entry = ground (arith, h.found) in
      let there : file_exists m e.filename ≡ true = rw q h.there in
      record {
        entry = h.entry;
        found = rw (there, f) (ap some q);
        tagged = h.tagged;
        there = h.there;
      }
  | inr f ↦
      let later : Has m msgid T rest = record {
        entry = h.entry;
        found = ground (arith, h.found);
        tagged = h.tagged;
        there = h.there;
      } in
      let k = keep_existing-Has m msgid T rest later in
      elim (Bool-cases (file_exists m e.filename)) [
        | inl g ↦ record {
          entry = k.entry;
          found = rw (g, f) k.found;
          tagged = k.tagged;
          there = k.there;
        }
        | inr g ↦ record {
          entry = k.entry;
          found = rw g k.found;
          tagged = k.tagged;
          there = k.there;
        }
      ]
]

pub insert-Has :
    (m : GmapMailbox) (msgid other : Text) (T : MessageEntry → Type 0)
    (messages : List (Text × MessageEntry)) (e : MessageEntry)
    → Has m msgid T messages
    → (msgid ≡ other → T e)
    → file_exists m e.filename ≡ true
    → Has m msgid T (insert other e messages)
insert-Has m msgid other T messages e h tagged there = elim (Bool-cases (same msgid other)) [
  | inl f ↦
      let q = (same_iff msgid other).0 f in
      record {
        entry = e;
        found = ap (λ k. lookup k (insert other e messages)) q ∙ lookup-insert other e messages;
        tagged = tagged q;
        there = there;
      }
  | inr f ↦ record {
    entry = h.entry;
    found =
        lookup-insert_other msgid other e messages (λ q. ground (arith, (same_iff msgid other).1 q))
        ∙ h.found;
    tagged = h.tagged;
    there = h.there;
  }
]

pub any_stale-keep_existing :
    (m : GmapMailbox) (messages : List (Text × MessageEntry))
    → any_stale m (keep_existing m messages) ≡ false
unfolding any_stale keep_existing
any_stale-keep_existing m [] = refl
any_stale-keep_existing m ((msgid, e) ∷ rest) = elim (Bool-cases (file_exists m e.filename)) [
  | inl g ↦ rw (g, g, any_stale-keep_existing m rest)
  | inr g ↦ rw (g, any_stale-keep_existing m rest)
]
