-- ===== src/Gmap/Routes/Lists.antt =====
-- The public routes of src/titlani/gmap/handler.py: the discovery of lists and what is told of one.
use titlani.Base.{ℕ, suc, ◌||◌, List, [], ◌∷◌, ◌++◌, Option, none, some, if◌then◌else◌, length}
use titlani.Str.Core.{Text, Bytes, codes, same, has, after_prefix, before_suffix, ends_with}
use titlani.Str.Split.{join}
use titlani.Str.Utf8.{encode}
use titlani.Str.Number.{decimal}
use titlani.Runtime.{Runtime}
use titlani.Server.Lists.{File, is_mailing_list, get_list_description, load_subscribers}
use titlani.Server.State.{lookup}
use titlani.Gmap.Mailbox.{GeminiResponse, reply}
use titlani.Gmap.Index.{IndexFile, before}

-- A mailbox's directory, an entry of the mailbox directory by its name.
pub record Directory : Type 0 where
  pub index : IndexFile
  pub files : List (Text × Bytes)
  pub subscribers : File

gemtext : Bytes → GeminiResponse
gemtext body = record { status = 20; meta = codes "text/gemini"; body = body }

insert_name : Text × Directory → List (Text × Directory) → List (Text × Directory)
insert_name p [] = p ∷ []
insert_name p (q ∷ qs) =
    let rest = insert_name p qs in if before q.0 p.0 then q ∷ rest else p ∷ q ∷ qs

-- `sorted(self.mailbox_dir.iterdir())`
sorted_dirs : List (Text × Directory) → List (Text × Directory)
unfolding insert_name
sorted_dirs [] = []
sorted_dirs (p ∷ ps) = insert_name p (sorted_dirs ps)

list_lines : List (Text × Directory) → List Text
list_lines [] = []
list_lines ((name, d) ∷ rest) =
    let others = list_lines rest in
    if is_mailing_list d.subscribers
    then (codes "=> /list/" ++ (name ++ (b' ' ∷ name))) ∷ others
    else others

body_of : List Text → Text
body_of [] = []
body_of (line ∷ lines) = join (codes "\n") (line ∷ lines) ++ codes "\n"

-- `_handle_list_discovery`
unfoldable pub handle_list_discovery : List (Text × Directory) → GeminiResponse
unfolding gemtext sorted_dirs list_lines body_of
handle_list_discovery dirs = gemtext (encode (body_of (list_lines (sorted_dirs dirs))))

-- the messages among the files
message_count : List (Text × Bytes) → ℕ
message_count [] = 0
message_count ((name, content) ∷ files) =
    let rest = message_count files in
    if ends_with (codes ".gemmail") name
      || ends_with (codes ".gemmail.new") name
      || ends_with (codes ".gemmail.enc") name
      || ends_with (codes ".gemmail.enc.new") name
    then suc rest
    else rest

description_line : Option Text → List Text
description_line none = []
description_line (some []) = []
description_line (some (c ∷ t)) = (c ∷ t) ∷ []

module _ (rt : Runtime) where
  list_info : Text → Text → Directory → GeminiResponse
  unfolding message_count description_line gemtext
  list_info hostname name d =
      let address = name ++ (b'@' ∷ hostname) in
      let lines =
        ((codes "# " ++ name) ∷ description_line (get_list_description d.subscribers))
        ++ ((codes "Subscribers: " ++ decimal (length (load_subscribers rt d.subscribers)))
            ∷ (codes "Messages: " ++ decimal (message_count d.files))
            ∷ []
            ∷ (codes "=> misfin:" ++ (address ++ codes "?subscribe Subscribe to this list"))
            ∷ (codes "=> misfin:" ++ (address ++ codes "?unsubscribe Unsubscribe from this list"))
            ∷ []) in
      gemtext (encode (join (codes "\n") lines ++ codes "\n"))

  -- `_handle_list_info`
  unfoldable pub handle_list_info : Text → Text → List (Text × Directory) → GeminiResponse
  unfolding list_info
  handle_list_info hostname name dirs = elim (lookup name dirs) [
    | none ↦ reply 51 (codes "List not found")
    | some d ↦
        if is_mailing_list d.subscribers
        then list_info hostname name d
        else reply 51 (codes "List not found")
  ]

  -- `^/list/([^/?]+)/info$`, where the path holds no `?`
  list_name : Text → Option Text
  list_name path = elim (after_prefix (codes "/list/") path) [
    | none ↦ none
    | some rest ↦
        let bare : Text = (elim (before_suffix (codes "\n") rest) [ none ↦ rest | some s ↦ s ]) in
        elim (before_suffix (codes "/info") bare) [
          | none ↦ none
          | some [] ↦ none
          | some (c ∷ t) ↦ if has b'/' (c ∷ t) || has b'?' (c ∷ t) then none else some (c ∷ t)
        ]
  ]

  -- `_route_list`
  unfoldable pub route_list : Text → Text → List (Text × Directory) → GeminiResponse
  unfolding handle_list_info list_name handle_list_discovery
  route_list hostname path dirs =
      if same path (codes "/list/") || same path (codes "/list/\n")
      then handle_list_discovery dirs
      else elim (list_name path) [
        | some name ↦ handle_list_info hostname name dirs
        | none ↦ reply 51 (codes "Unknown list route")
      ]
