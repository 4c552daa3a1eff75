-- ===== src/Server/Commands.antt =====
-- The subscription commands of src/titlani/server/handler.py.
pub mod Effect
use titlani.Base.{
  ℕ, ◌-◌, Bool, true, false, ◌&&◌, ◌||◌, List, [], ◌∷◌, ◌++◌, ◌==◌, Option, none, some,
  if◌then◌else◌, all, pos, map,
}
use titlani.Str.Core.{Text, Bytes, codes, after_prefix}
use titlani.Str.Strip.{is_space, drop_while, strip}
use titlani.Runtime.{Runtime}
use titlani.Identity.{is_hex}
use titlani.Protocol.Status.{StatusCode, value, success, bad_request}
use titlani.Protocol.Response.{MisfinResponse}
use titlani.Content.Address.{MisfinAddress, address}
use titlani.Server.Subscription.{TokenStore, create_token, verify_token}
use titlani.Server.Lists.{
  load_subscribers, is_subscriber, add_subscriber, remove_subscriber, in_list,
}
use titlani.Server.State.{Local, Task, send_confirmation, Readings}

-- `MisfinResponse(status=…, meta=…)`
abbrev pub respond : StatusCode → Text → MisfinResponse
respond code meta = record { status = pos (value code); meta = meta }

pub data Command : Type 0 where
  subscribe unsubscribe : Command
  confirm : Text → Command

-- A lower case letter of a pattern under IGNORECASE: its capital too, and the letters that Unicode
-- takes for an `i` or an `s`.
letter : ℕ → ℕ → Bool
letter p c =
    c == p || c == p - 32 || (p == b'i' && (c == 0x130 || c == 0x131)) || (p == b's' && c == 0x17f)

match_word : Text → Text → Option Text
unfolding letter
match_word [] t = some t
match_word (p ∷ ps) [] = none
match_word (p ∷ ps) (c ∷ t) = let rest = match_word ps t in if letter p c then rest else none

-- `^\s*word\s*$`
word_alone : Text → Text → Bool
unfolding match_word
word_alone word t = elim (match_word word (drop_while is_space t)) [
  | none ↦ false
  | some rest ↦ all is_space rest
]

-- `([A-Fa-f0-9]{6})\s*$`
six_hex : Text → Option Text
six_hex (a ∷ b ∷ c ∷ d ∷ e ∷ f ∷ rest) =
    if all is_hex (a ∷ b ∷ c ∷ d ∷ e ∷ f ∷ []) && all is_space rest
    then some (a ∷ b ∷ c ∷ d ∷ e ∷ f ∷ [])
    else none
six_hex _ = none

-- `\s+`, then the token
spaced_token : Text → Option Text
unfolding six_hex
spaced_token [] = none
spaced_token (c ∷ t) = if is_space c then six_hex (drop_while is_space t) else none

-- `^\s*confirm\s+([A-Fa-f0-9]{6})\s*$`
confirm_token : Text → Option Text
unfolding match_word spaced_token
confirm_token t = elim (match_word (codes "confirm") (drop_while is_space t)) [
  | none ↦ none
  | some rest ↦ spaced_token rest
]

-- The body without its heading marker.
command_body : Text → Text
command_body body = elim (after_prefix (codes "# ") (strip body)) [
  | none ↦ strip body
  | some rest ↦ strip rest
]

-- The command that the body of a message is, if it is one.
unfoldable pub command_in : Text → Option Command
unfolding word_alone confirm_token command_body
command_in body =
    if word_alone (codes "subscribe") (command_body body)
    then some subscribe
    else elim (confirm_token (command_body body)) [
      | some token ↦ some (confirm token)
      | none ↦
          if word_alone (codes "unsubscribe") (command_body body) then some unsubscribe else none
    ]

module _ (rt : Runtime) where
  open rt use {lower}

  -- `_handle_subscribe`
  unfoldable pub handle_subscribe :
      {T : Type 0}
      → Readings
      → Text
      → List MisfinAddress
      → TokenStore
      → Local T
      → MisfinResponse × Local T
  handle_subscribe now mailbox [] store l = (respond bad_request (codes "No sender identity"), l)
  handle_subscribe now mailbox (sender ∷ _) store l =
      let sender_addr = lower (address sender) in
      if is_subscriber rt sender_addr (load_subscribers rt l.box.subscribers)
      then (respond success (codes "Already subscribed"), l)
      else (
        respond success (codes "Confirmation sent"),
        record l {
          subscription_store =
              some (create_token rt store now.command_at now.next_token mailbox sender_addr);
          tasks = l.tasks ++ send_confirmation mailbox sender_addr now.next_token ∷ [];
        },
      )

  -- the test on the address that the token stands for
  unfoldable pub confirm_address :
      {T : Type 0} → List MisfinAddress → Text → Local T → MisfinResponse × Local T
  confirm_address senders addr l =
      if in_list (lower addr) (map (λ s. lower (address s)) senders)
      then (
        respond success (codes "Subscription confirmed"),
        record l {
          box = record l.box { subscribers = (add_subscriber rt l.box.subscribers addr).1 };
        },
      )
      else (respond bad_request (codes "Token does not match sender"), l)

  -- what the token leads to, with the tokens that are left
  unfoldable pub confirm_found :
      {T : Type 0}
      → List MisfinAddress
      → Local T
      → TokenStore
      → Option Text
      → MisfinResponse × Local T
  unfolding confirm_address
  confirm_found senders l left none = (respond bad_request (codes "Invalid or expired token"), l)
  confirm_found senders l left (some addr) =
      confirm_address senders addr (record l { subscription_store = some left })

  -- `_handle_confirm`
  unfoldable pub handle_confirm :
      {T : Type 0}
      → Readings
      → Text
      → List MisfinAddress
      → Text
      → TokenStore
      → Local T
      → MisfinResponse × Local T
  unfolding confirm_found
  handle_confirm now mailbox senders token store l =
      let (found, left) = verify_token rt store now.command_at mailbox token in
      confirm_found senders l left found

  -- `_handle_unsubscribe`
  unfoldable pub handle_unsubscribe :
      {T : Type 0} → List MisfinAddress → Local T → MisfinResponse × Local T
  handle_unsubscribe [] l = (respond bad_request (codes "No sender identity"), l)
  handle_unsubscribe (sender ∷ _) l =
      let sender_addr = lower (address sender) in
      if is_subscriber rt sender_addr (load_subscribers rt l.box.subscribers)
      then (
        respond success (codes "Unsubscribed"),
        record l {
          box = record l.box {
            subscribers = (remove_subscriber rt l.box.subscribers sender_addr).1;
          };
        },
      )
      else (respond bad_request (codes "Not subscribed"), l)

  unfoldable pub run_command :
      {T : Type 0}
      → Readings
      → Text
      → List MisfinAddress
      → TokenStore
      → Local T
      → Command
      → MisfinResponse × Local T
  unfolding handle_subscribe handle_confirm handle_unsubscribe
  run_command now mailbox senders store l subscribe = handle_subscribe now mailbox senders store l
  run_command now mailbox senders store l unsubscribe = handle_unsubscribe senders l
  run_command now mailbox senders store l (confirm token) =
      handle_confirm now mailbox senders token store l
