-- ===== src/Server/Lists.antt =====
-- src/titlani/server/lists.py: the subscribers of a mailing list, kept in `subscribers.txt`.
-- A file is what `read_text` finds: nothing, something it cannot read, or a text in which every
-- line end is a line feed.
use titlani.Base.{
  ℕ, Bool, true, false, ◌&&◌, ◌||◌, List, [], ◌∷◌, ◌++◌, ◌==◌, Option, none, some, if◌then◌else◌,
  leb, all, any,
}
use titlani.Str.Core.{Text, codes, same, starts_with}
use titlani.Str.Strip.{strip, lstrip_char, splitlines}
use titlani.Str.Split.{split_once, join}
use titlani.Runtime.{Runtime}
use titlani.Content.Address.{address}
use titlani.Content.Gemmail.{GemmailMessage}

pub data File : Type 0 where
  missing unreadable : File
  contents : Text → File

-- `path.exists()`
unfoldable pub exists : File → Bool
exists missing = false
exists unreadable = true
exists (contents t) = true

-- `is_mailing_list`, on the file `subscribers.txt`
unfoldable pub is_mailing_list : File → Bool
unfolding exists
is_mailing_list subscribers_file = exists subscribers_file

first_comment : List Text → Option Text
first_comment [] = none
first_comment (line ∷ lines) =
    let rest = first_comment lines in
    if starts_with (codes "#") (strip line)
    then some (strip (lstrip_char b'#' (strip line)))
    else rest

-- `get_list_description`
unfoldable pub get_list_description : File → Option Text
unfolding first_comment
get_list_description (contents t) = first_comment (splitlines (strip t))
get_list_description _ = none

-- `[a-zA-Z0-9._-]`
unfoldable pub is_name_char : ℕ → Bool
is_name_char c =
    (leb b'a' c && leb c b'z')
    || (leb b'A' c && leb c b'Z')
    || (leb b'0' c && leb c b'9')
    || c == b'.'
    || c == b'_'
    || c == b'-'

-- `[a-zA-Z0-9._-]+`
unfoldable pub is_name : Text → Bool
unfolding is_name_char
is_name [] = false
is_name (c ∷ t) = all is_name_char (c ∷ t)

-- `re.fullmatch(r"[a-zA-Z0-9._-]+@[a-zA-Z0-9._-]+", line)`: neither class holds the `@`
unfoldable pub is_list_address : Text → Bool
unfolding is_name
is_list_address line = elim (split_once b'@' line) [
  | none ↦ false
  | some (mailbox, hostname) ↦ is_name mailbox && is_name hostname
]

-- The member of a list that is `address`.
unfoldable pub in_list : Text → List Text → Bool
in_list a [] = false
in_list a (b ∷ bs) = same b a || in_list a bs

module _ (rt : Runtime) where
  open rt use {lower}

  -- One line of the file: an address in lower case, or nothing.
  unfoldable pub subscriber_of : Text → Option Text
  unfolding is_list_address
  subscriber_of line = elim (strip line) [
    | [] ↦ none
    | c ∷ t ↦
        if starts_with (codes "#") (c ∷ t)
        then none
        else if is_list_address (c ∷ t)
        then some (lower (c ∷ t))
        else none
  ]

  unfoldable pub subscribers_in : List Text → List Text
  subscribers_in [] = []
  subscribers_in (line ∷ lines) = elim (subscriber_of line) [
    | none ↦ subscribers_in lines
    | some a ↦ a ∷ subscribers_in lines
  ]

  -- `load_subscribers`
  unfoldable pub load_subscribers : File → List Text
  unfolding subscribers_in
  load_subscribers (contents t) = subscribers_in (splitlines (strip t))
  load_subscribers _ = []

  -- `f.write` on a file opened with "a"
  append_text : File → Text → File
  append_text missing t = contents t
  append_text unreadable t = unreadable
  append_text (contents old) t = contents (old ++ t)

  -- `add_subscriber`: whether the address was new, and the file
  unfoldable pub add_subscriber : File → Text → Bool × File
  unfolding append_text in_list
  add_subscriber file address_text =
      let a = lower (strip address_text) in
      if in_list a (load_subscribers file)
      then (false, file)
      else (true, append_text file (a ++ b'\n' ∷ []))

  -- the lines that `remove_subscriber` writes back
  unfoldable pub other_lines : Text → List Text → List Text
  other_lines a [] = []
  other_lines a (line ∷ lines) =
      let rest = other_lines a lines in if same (lower (strip line)) a then rest else line ∷ rest

  rewrite_without : File → Text → File
  unfolding other_lines
  rewrite_without (contents t) a =
      contents (join (codes "\n") (other_lines a (splitlines t)) ++ b'\n' ∷ [])
  rewrite_without file a = file

  -- `remove_subscriber`
  unfoldable pub remove_subscriber : File → Text → Bool × File
  unfolding rewrite_without in_list
  remove_subscriber file address_text =
      let a = lower (strip address_text) in
      if in_list a (load_subscribers file) then (true, rewrite_without file a) else (false, file)

  -- `is_subscriber`
  unfoldable pub is_subscriber : Text → List Text → Bool
  unfolding in_list
  is_subscriber sender_addr subscribers = in_list (lower sender_addr) subscribers

  -- `should_prevent_loop`
  unfoldable pub should_prevent_loop : {T : Type 0} → GemmailMessage T → Text → Bool
  should_prevent_loop message list_address =
      any (λ r. same (lower (address r)) (lower list_address)) message.recipients
