-- ===== src/Gmap/Index/Visits.antt =====
-- What the loops of `sync_filesystem` in src/titlani/gmap/mailbox.py do to a message of the index.
use titlani.Base.{
  Bool, true, false, ◌||◌, List, [], ◌∷◌, some, any, is_some, ◌≡◌, ap, sym, ◌∙◌, arith,
  Option-cases, Bool-cases, inl, inr, subst,
}
use titlani.Str.Core.{Text, Bytes, codes, same, same_iff, same_self, starts_with, ends_with}
use titlani.Runtime.{Runtime}
use titlani.Content.MessageId.{parse_message_id_from_filename}
use titlani.Server.Lists.{in_list}
use titlani.Server.State.{lookup}
use titlani.Server.State.Dict.{lookup-insert}
use titlani.Gmap.Mailbox.{MessageEntry, GmapMailbox}
use titlani.Gmap.Index.{file_exists, new_entry, visit, visit_matching, visit_files, visit_patterns}
use titlani.Gmap.Index.Has.{Has, insert-Has}

module _ (rt : Runtime) (is_list : Bool) (known_files : List Text) (m : GmapMailbox) where
  -- What holds of an entry for the message still holds when it takes the name of a new file.
  abbrev pub Renames : Text → (MessageEntry → Type 0) → Type 0
  Renames msgid T =
      (e : MessageEntry) (name : Text)
      → (starts_with (codes ".") name || in_list name known_files) ≡ false
      → parse_message_id_from_filename name ≡ some msgid
      → T e
      → T (record e { filename = name })

  -- The entry's file is not hidden, was not named before, and holds the message's id.
  pub record IsFound (msgid : Text) (e : MessageEntry) : Type 0 where
    pub new_file : (starts_with (codes ".") e.filename || in_list e.filename known_files) ≡ false
    pub holds_id : parse_message_id_from_filename e.filename ≡ some msgid

  IsFound-Renames : (msgid : Text) → Renames msgid (IsFound msgid)
  IsFound-Renames msgid e name new id found = record { new_file = new; holds_id = id }

  -- A file leaves a message in the index with its tags.
  visit-Has :
      (msgid : Text) (T : MessageEntry → Type 0) (name : Text)
      (p : Bool × List (Text × MessageEntry))
      → file_exists m name ≡ true
      → Renames msgid T
      → Has m msgid T p.1
      → Has m msgid T (visit rt is_list known_files name p).1
  unfolding visit
  visit-Has msgid T name (modified, messages) there renames h =
      elim (Bool-cases (starts_with (codes ".") name || in_list name known_files)) [
        | inl a ↦ rw (visit, a) h
        | inr a ↦ elim (Option-cases (parse_message_id_from_filename name)) [
          | inl b ↦ rw (visit, a, b) h
          | inr (id, b) ↦ elim (Option-cases (lookup id messages)) [
            | inl c ↦
                rw (visit, a, b, c)
                  (insert-Has m msgid id T messages (new_entry rt is_list id name) h
                    (λ q. absurd (cc (ap (λ k. lookup k messages) q, h.found, c))) there)
            | inr (e, c) ↦
                rw (visit, a, b, c)
                  (insert-Has m msgid id T messages (record e { filename = name }) h
                    (λ q.
                      let same_entry : h.entry ≡ e =
                        cc (ap (λ k. lookup k messages) q, h.found, c) in
                      renames e name a (b ∙ ap some (sym q)) (subst T same_entry h.tagged))
                    there)
          ]
        ]
      ]

  -- A file that is not known is in the index after it was visited.
  visit-indexed :
      (name msgid : Text) (p : Bool × List (Text × MessageEntry))
      → file_exists m name ≡ true
      → (starts_with (codes ".") name || in_list name known_files) ≡ false
      → parse_message_id_from_filename name ≡ some msgid
      → Has m msgid (IsFound msgid) (visit rt is_list known_files name p).1
  unfolding visit
  visit-indexed name msgid (modified, messages) there new id =
      elim (Option-cases (lookup msgid messages)) [
        | inl c ↦
            rw (visit, new, id, c)
              (record {
                entry = new_entry rt is_list msgid name;
                found = lookup-insert msgid (new_entry rt is_list msgid name) messages;
                tagged = record { new_file = new; holds_id = id };
                there = there;
              })
        | inr (e, c) ↦
            rw (visit, new, id, c)
              (record {
                entry = record e { filename = name };
                found = lookup-insert msgid (record e { filename = name }) messages;
                tagged = record { new_file = new; holds_id = id };
                there = there;
              })
      ]

  visit_matching-Has :
      (msgid : Text) (T : MessageEntry → Type 0) (pattern name : Text)
      (p : Bool × List (Text × MessageEntry))
      → file_exists m name ≡ true
      → Renames msgid T
      → Has m msgid T p.1
      → Has m msgid T (visit_matching rt is_list known_files pattern name p).1
  unfolding visit_matching
  visit_matching-Has msgid T pattern name p there renames h =
      elim (Bool-cases (ends_with pattern name)) [
        | inl e ↦ rw (visit_matching, e) (visit-Has msgid T name p there renames h)
        | inr e ↦ rw (visit_matching, e) h
      ]

  visit_matching-indexed :
      (name msgid pattern : Text) (p : Bool × List (Text × MessageEntry))
      → file_exists m name ≡ true
      → ends_with pattern name ≡ true
      → (starts_with (codes ".") name || in_list name known_files) ≡ false
      → parse_message_id_from_filename name ≡ some msgid
      → Has m msgid (IsFound msgid) (visit_matching rt is_list known_files pattern name p).1
  unfolding visit_matching
  visit_matching-indexed name msgid pattern p there fits new id =
      rw (visit_matching, fits) (visit-indexed name msgid p there new id)

  visit_files-Has :
      (msgid : Text) (T : MessageEntry → Type 0) (pattern : Text) (files : List (Text × Bytes))
      (p : Bool × List (Text × MessageEntry))
      → ((name : Text) → is_some (lookup name files) ≡ true → file_exists m name ≡ true)
      → Renames msgid T
      → Has m msgid T p.1
      → Has m msgid T (visit_files rt is_list known_files pattern files p).1
  unfolding visit_files lookup
  visit_files-Has msgid T pattern [] p there renames h = h
  visit_files-Has msgid T pattern ((name, content) ∷ files) p there renames h =
      let here : file_exists m name ≡ true = there name (rw (same_self name)) in
      let rest : (other : Text) → is_some (lookup other files) ≡ true → file_exists m other ≡ true =
        λ other q.
          there other (elim (Bool-cases (same name other)) [ inl e ↦ rw e | inr e ↦ rw e q ]) in
      visit_files-Has msgid T pattern files (visit_matching rt is_list known_files pattern name p)
        rest renames (visit_matching-Has msgid T pattern name p here renames h)

  visit_files-indexed :
      (name msgid pattern : Text) (files : List (Text × Bytes))
      (p : Bool × List (Text × MessageEntry))
      → ((name : Text) → is_some (lookup name files) ≡ true → file_exists m name ≡ true)
      → is_some (lookup name files) ≡ true
      → ends_with pattern name ≡ true
      → (starts_with (codes ".") name || in_list name known_files) ≡ false
      → parse_message_id_from_filename name ≡ some msgid
      → Has m msgid (IsFound msgid) (visit_files rt is_list known_files pattern files p).1
  unfolding visit_files lookup
  visit_files-indexed name msgid pattern [] p there listed fits new id = cc listed
  visit_files-indexed name msgid pattern ((other, content) ∷ files) p there listed fits new id =
      let rest : (n : Text) → is_some (lookup n files) ≡ true → file_exists m n ≡ true =
        λ n q. there n (elim (Bool-cases (same other n)) [ inl e ↦ rw e | inr e ↦ rw e q ]) in
      elim (Bool-cases (same other name)) [
        | inl e ↦
            let q : name ≡ other = sym ((same_iff other name).0 e) in
            let done =
              visit_matching-indexed name msgid pattern p (there name listed) fits new id in
            visit_files-Has msgid (IsFound msgid) pattern files
              (visit_matching rt is_list known_files pattern other p) rest (IsFound-Renames msgid)
              (subst
                (λ n.
                  Has m msgid (IsFound msgid) (visit_matching rt is_list known_files pattern n p).1)
                q done)
        | inr e ↦
            visit_files-indexed name msgid pattern files
              (visit_matching rt is_list known_files pattern other p) rest (ground arith) fits new
              id
      ]

  pub visit_patterns-Has :
      (msgid : Text) (T : MessageEntry → Type 0) (ps : List Text) (files : List (Text × Bytes))
      (p : Bool × List (Text × MessageEntry))
      → ((name : Text) → is_some (lookup name files) ≡ true → file_exists m name ≡ true)
      → Renames msgid T
      → Has m msgid T p.1
      → Has m msgid T (visit_patterns rt is_list known_files ps files p).1
  unfolding visit_patterns
  visit_patterns-Has msgid T [] files p there renames h = h
  visit_patterns-Has msgid T (pattern ∷ ps) files p there renames h =
      visit_patterns-Has msgid T ps files (visit_files rt is_list known_files pattern files p) there
        renames (visit_files-Has msgid T pattern files p there renames h)

  pub visit_patterns-indexed :
      (name msgid : Text) (ps : List Text) (files : List (Text × Bytes))
      (p : Bool × List (Text × MessageEntry))
      → ((name : Text) → is_some (lookup name files) ≡ true → file_exists m name ≡ true)
      → is_some (lookup name files) ≡ true
      → any (λ pattern. ends_with pattern name) ps ≡ true
      → (starts_with (codes ".") name || in_list name known_files) ≡ false
      → parse_message_id_from_filename name ≡ some msgid
      → Has m msgid (IsFound msgid) (visit_patterns rt is_list known_files ps files p).1
  unfolding visit_patterns
  visit_patterns-indexed name msgid [] files p there listed fits new id = cc fits
  visit_patterns-indexed name msgid (pattern ∷ ps) files p there listed fits new id =
      let after = visit_files rt is_list known_files pattern files p in
      elim (Bool-cases (ends_with pattern name)) [
        | inl e ↦
            visit_patterns-Has msgid (IsFound msgid) ps files after there (IsFound-Renames msgid)
              (visit_files-indexed name msgid pattern files p there listed e new id)
        | inr e ↦
            visit_patterns-indexed name msgid ps files after there listed (ground arith) new id
      ]
