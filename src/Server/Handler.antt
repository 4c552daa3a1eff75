-- ===== src/Server/Handler.antt =====
-- `FileMailboxHandler.handle_message` of src/titlani/server/handler.py.
pub mod Cases
pub mod Safety
pub mod Storage
use titlani.Base.{
  ℕ, Bool, true, false, ◌&&◌, ◌||◌, not, List, [], ◌∷◌, ◌++◌, ◌==◌, Option, none, some,
  if◌then◌else◌, Result, ok, err, ◌>>=◌,
}
use titlani.Str.Core.{Text, Bytes, codes, same, has, contains, starts_with}
use titlani.Runtime.{Runtime}
use titlani.Identity.{normalize_fingerprint}
use titlani.Protocol.Errors.{Error, is_value_error}
use titlani.Protocol.Status.{
  success, bad_request, domain_not_serviced, mailbox_not_found, unauthorized_sender,
}
use titlani.Protocol.Request.{MisfinRequest}
use titlani.Protocol.Response.{MisfinResponse}
use titlani.Content.Address.{MisfinAddress}
use titlani.Content.Gemmail.{GemmailMessage, from_bytes}
use titlani.Server.Subscription.{TokenStore}
use titlani.Server.Lists.{is_name}
use titlani.Server.State.{Mailbox, Local, State, Config, Readings, lookup, insert}
use titlani.Server.Commands.{Command, respond, command_in, run_command}
use titlani.Server.Delivery.{
  collect_senders, find_blocked_sender, prepare_message, store_message, maybe_trigger_auto_reply,
  is_active_list, maybe_trigger_list_forwarding, check_list_posting,
}

-- The test on the name of a mailbox.
unfoldable pub is_valid_name : Text → Bool
is_valid_name mailbox =
    not (same mailbox [])
    && not (has 0 mailbox)
    && not (has b'/' mailbox)
    && not (has b'\\' mailbox)
    && not (contains (codes "..") mailbox)
    && is_name mailbox

-- `str(resolved).startswith(str(mailbox_dir_resolved) + os.sep)`
unfoldable pub is_inside : Config → Text → Bool
is_inside config mailbox = elim (config.resolve mailbox) [
  | none ↦ false
  | some resolved ↦ starts_with (config.resolved_dir ++ codes "/") resolved
]

-- `_validate_mailbox`
unfoldable pub validate_mailbox :
    {T : Type 0} → Config → Text → State T → Result MisfinResponse Mailbox
unfolding is_valid_name is_inside
validate_mailbox config mailbox s =
    if not (is_valid_name mailbox)
    then err (respond bad_request (codes "Invalid mailbox name"))
    else if not (is_inside config mailbox)
    then err (respond bad_request (codes "Invalid mailbox name"))
    else elim (lookup mailbox s.mailboxes) [
      | none ↦ err (respond mailbox_not_found (codes "Mailbox does not exist"))
      | some box ↦ ok box
    ]

-- What the handling of one message sees of the state, and the state after it; two names stand for two
-- directories.
unfoldable pub local : {T : Type 0} → State T → Mailbox → Local T
local s box = record {
  box = box;
  subscription_store = s.subscription_store;
  auto_reply_last_sent = s.auto_reply_last_sent;
  tasks = s.tasks;
}

unfoldable pub merge : {T : Type 0} → Text → State T → Local T → State T
merge mailbox s l = record {
  mailboxes = insert mailbox l.box s.mailboxes;
  subscription_store = l.subscription_store;
  auto_reply_last_sent = l.auto_reply_last_sent;
  tasks = l.tasks;
}

module _ (rt : Runtime) where
  open rt use {dt, Cert}

  -- `_get_recipient_fingerprint`
  normalized : Option Text → Text
  normalized none = []
  normalized (some []) = []
  normalized (some (c ∷ t)) = normalize_fingerprint rt (c ∷ t)

  unfoldable pub recipient_fingerprint : Config → Text → Text
  unfolding normalized
  recipient_fingerprint config mailbox = elim config.recipient_fingerprint_fn [
    | none ↦ []
    | some fn ↦ normalized (fn mailbox)
  ]

  -- the command that a readable message is; `none` lets the message through
  unfoldable pub command_of : Result Error (GemmailMessage dt.Time) → Result Error (Option Command)
  command_of (ok m) = ok (command_in m.body)
  command_of (err e) = if is_value_error e then ok none else err e

  unfoldable pub command_reply :
      Readings
      → Text
      → List MisfinAddress
      → TokenStore
      → Local dt.Time
      → Option Command
      → Option (MisfinResponse × Local dt.Time)
  command_reply now mailbox senders store l none = none
  command_reply now mailbox senders store l (some c) =
      some (run_command rt now mailbox senders store l c)

  -- `_handle_list_command`
  unfoldable pub handle_list_command :
      Config
      → Readings
      → Text
      → List MisfinAddress
      → Bytes
      → Local dt.Time
      → Result Error (Option (MisfinResponse × Local dt.Time))
  unfolding command_of command_reply
  handle_list_command config now mailbox senders raw l =
      if is_active_list rt config l.box
      then elim l.subscription_store [
        | none ↦ ok none
        | some store ↦ do
          c ← command_of (from_bytes dt raw)
          ok (command_reply now mailbox senders store l c)
      ]
      else ok none

  -- a message that may be stored: kept if the mailbox is no list, or if lists are archived
  unfoldable pub keep_message :
      Config
      → Readings
      → Text
      → Bytes
      → MisfinRequest Cert
      → Local dt.Time
      → Result Error (Local dt.Time)
  keep_message config now mailbox raw r l =
      if not (is_active_list rt config l.box) || config.lists_archive
      then store_message rt config now mailbox raw r l
      else ok l

  -- the message is stored, answered and passed on
  unfoldable pub accept :
      Config
      → Readings
      → Text
      → Bytes
      → MisfinRequest Cert
      → Local dt.Time
      → Result Error (MisfinResponse × Local dt.Time)
  accept config now mailbox raw r l = do
    stored ← keep_message config now mailbox raw r l
    let replied = maybe_trigger_auto_reply rt config now mailbox raw stored
    ok (
      respond success (recipient_fingerprint config r.mailbox),
      maybe_trigger_list_forwarding rt config mailbox raw replied,
    )

  -- behind the posting restriction
  unfoldable pub post :
      Config
      → Readings
      → Text
      → List MisfinAddress
      → Bytes
      → MisfinRequest Cert
      → Local dt.Time
      → Result Error (MisfinResponse × Local dt.Time)
  unfolding accept
  post config now mailbox senders raw r l = do
    rejection ← check_list_posting rt config mailbox senders raw l.box
    elim rejection [ some response ↦ ok (response, l) | none ↦ accept config now mailbox raw r l ]

  -- a message in the form in which it is stored
  unfoldable pub admit :
      Config
      → Readings
      → Text
      → List MisfinAddress
      → Bytes
      → MisfinRequest Cert
      → Local dt.Time
      → Result Error (MisfinResponse × Local dt.Time)
  unfolding post
  admit config now mailbox senders raw r l = do
    reply ← handle_list_command config now mailbox senders raw l
    elim reply [ some done ↦ ok done | none ↦ post config now mailbox senders raw r l ]

  -- `handle_message`, in a mailbox that exists
  unfoldable pub deliver :
      Config
      → Readings
      → MisfinRequest Cert
      → Local dt.Time
      → Result Error (MisfinResponse × Local dt.Time)
  unfolding admit
  deliver config now r l =
      let senders = collect_senders rt r in
      elim (find_blocked_sender rt l.box.blocked senders) [
        | some _ ↦ ok (respond unauthorized_sender (codes "Sender blocked"), l)
        | none ↦ do
          prepared ← prepare_message rt now r
          elim prepared [
            | none ↦ ok (respond bad_request (codes "Invalid message format"), l)
            | some raw ↦ admit config now r.mailbox senders raw r l
          ]
      ]

  -- `handle_message`: the response and the state after it; an exception leaves the state as it was
  unfoldable pub handle_message :
      Config
      → Readings
      → MisfinRequest Cert
      → State dt.Time
      → Result Error (MisfinResponse × State dt.Time)
  unfolding local merge
  handle_message config now r s =
      if not (same r.hostname config.hostname)
      then ok (respond domain_not_serviced (codes "Domain not serviced by this server"), s)
      else if r.content_length == 0
      then ok (respond success config.identity_cert_fingerprint, s)
      else elim (validate_mailbox config r.mailbox s) [
        | err response ↦ ok (response, s)
        | ok box ↦ do
          done ← deliver config now r (local s box)
          ok (done.0, merge r.mailbox s done.1)
      ]
