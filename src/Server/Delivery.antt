-- ===== src/Server/Delivery.antt =====
-- The parts of `FileMailboxHandler` in src/titlani/server/handler.py that check a message, prepare
-- it and store it.
pub mod Effect
pub mod Meta
pub mod RateLimit
use titlani.Base.{
  ℕ, ◌+◌, ◌*◌, Bool, true, false, ◌&&◌, ◌||◌, not, take, List, [], ◌∷◌, ◌++◌, Option, none, some,
  if◌then◌else◌, ltb, map, Result, ok, err, ◌>>=◌,
}
use titlani.Str.Core.{Text, Bytes, codes, same, contains, ends_with}
use titlani.Str.Strip.{strip, splitlines}
use titlani.Str.Utf8.{encode}
use titlani.Runtime.{Runtime}
use titlani.Identity.{extract_identity}
use titlani.Protocol.Errors.{Error, is_value_error}
use titlani.Protocol.Request.{MisfinRequest, Version, version_b, version_c, parse_message}
use titlani.Protocol.Status.{bad_request, unauthorized_sender}
use titlani.Protocol.Response.{MisfinResponse}
use titlani.Server.Commands.{respond}
use titlani.Content.Address.{MisfinAddress, address}
use titlani.Content.Gemmail.{GemmailMessage, from_bytes, to_bytes, subject}
use titlani.Verification.Outcome.{
  VerificationResult, result, Checks, no_checks, checks, Entries, nil, entry,
}
use titlani.Server.Lists.{
  File, missing, unreadable, contents, exists, in_list, is_mailing_list, load_subscribers,
  is_subscriber, should_prevent_loop,
}
unfoldable pub use titlani.Server.Delivery.Meta.{write_message_meta}
use titlani.Server.State.{
  Mailbox, MetaEntry, MetaFile, absent, corrupt, index, Local, Task, send_auto_reply,
  forward_to_list, Config, Readings, lookup, insert,
}

-- `sender.address.lower()` among the lines of the block list, each stripped, the empty ones left out
nonempty_lines : List Text → List Text
nonempty_lines [] = []
nonempty_lines (line ∷ lines) = elim (strip line) [
  | [] ↦ nonempty_lines lines
  | c ∷ t ↦ (c ∷ t) ∷ nonempty_lines lines
]

module _ (rt : Runtime) where
  open rt use {dt, utc, lower, Cert, sha256_hex, iso_micros, compact, decode_replace}

  -- the addresses of the block list
  unfoldable pub blocked_addresses : File → List Text
  unfolding nonempty_lines
  blocked_addresses (contents t) = map lower (nonempty_lines (splitlines (strip t)))
  blocked_addresses _ = []

  unfoldable pub first_blocked : List Text → List MisfinAddress → Option MisfinAddress
  unfolding in_list
  first_blocked blocked [] = none
  first_blocked blocked (s ∷ ss) =
      let rest = first_blocked blocked ss in
      if in_list (lower (address s)) blocked then some s else rest

  -- `_find_blocked_sender`; a file that is not there or cannot be read blocks nobody
  unfoldable pub find_blocked_sender : File → List MisfinAddress → Option MisfinAddress
  unfolding blocked_addresses first_blocked
  find_blocked_sender file senders = first_blocked (blocked_addresses file) senders

  -- `_extract_sender`
  unfoldable pub sender_of : Text → Text → Text → Option MisfinAddress
  sender_of [] hostname blurb = none
  sender_of (c ∷ m) [] blurb = none
  sender_of (c ∷ m) (d ∷ h) blurb =
      some (record { mailbox = c ∷ m; hostname = d ∷ h; blurb = blurb })

  unfoldable pub extract_sender : MisfinRequest Cert → Option MisfinAddress
  unfolding sender_of
  extract_sender r = elim r.client_cert [
    | none ↦ none
    | some cert ↦ let i = extract_identity rt cert in sender_of i.mailbox i.hostname i.blurb
  ]

  unfoldable pub to_list {ℓ} : {A : Type ℓ} → Option A → List A
  to_list none = []
  to_list (some a) = a ∷ []

  unfoldable pub claimed_senders : MisfinRequest Cert → Bytes → List MisfinAddress
  claimed_senders r [] = []
  claimed_senders r (b ∷ bs) = elim (parse_message dt r) [ ok m ↦ m.senders | err _ ↦ [] ]

  -- `_collect_senders`
  unfoldable pub collect_senders : MisfinRequest Cert → List MisfinAddress
  unfolding claimed_senders to_list
  collect_senders r = to_list (extract_sender r) ++ claimed_senders r r.raw_message

  -- A message of format B that cannot be read becomes the body of a message.
  body_only : Bytes → GemmailMessage dt.Time
  body_only raw =
      let text = decode_replace raw in
      record {
        senders = [];
        recipients = [];
        timestamps = [];
        body = (if ends_with (codes "\n") text then text else text ++ codes "\n");
      }

  unfoldable pub message_b :
      Bytes → Result Error (GemmailMessage dt.Time) → Result Error (GemmailMessage dt.Time)
  unfolding body_only
  message_b raw (ok m) = ok m
  message_b raw (err e) = if is_value_error e then ok (body_only raw) else err e

  -- The server's time and the sender of the certificate go in front.
  unfoldable pub stamp :
      Readings → MisfinRequest Cert → GemmailMessage dt.Time → GemmailMessage dt.Time
  unfolding to_list
  stamp now r m = record m {
    timestamps = utc now.prepared_at ∷ m.timestamps;
    senders = to_list (extract_sender r) ++ m.senders;
  }

  or_recipient : Text → Text → List MisfinAddress → List MisfinAddress
  or_recipient mailbox hostname [] =
      record { mailbox = mailbox; hostname = hostname; blurb = [] } ∷ []
  or_recipient mailbox hostname (a ∷ rest) = a ∷ rest

  unfoldable pub with_recipient :
      MisfinRequest Cert → GemmailMessage dt.Time → GemmailMessage dt.Time
  unfolding or_recipient
  with_recipient r m = record m { recipients = or_recipient r.mailbox r.hostname m.recipients }

  unfoldable pub prepare_c :
      Readings
      → MisfinRequest Cert
      → Result Error (GemmailMessage dt.Time)
      → Result Error (Option Bytes)
  unfolding stamp
  prepare_c now r (ok m) = ok (some (to_bytes dt (stamp now r m)))
  prepare_c now r (err e) = if is_value_error e then ok none else err e

  -- `_prepare_message`; `none` is an invalid message
  unfoldable pub prepare_message : Readings → MisfinRequest Cert → Result Error (Option Bytes)
  unfolding message_b stamp with_recipient prepare_c
  prepare_message now r = elim r.protocol_version [
    | version_b ↦ do
      m ← message_b r.raw_message (parse_message dt r)
      ok (some (to_bytes dt (with_recipient r (stamp now r m))))
    | version_c ↦ prepare_c now r (parse_message dt r)
  ]

  -- `generate_message_id` of src/titlani/content/message_id.py
  unfoldable pub generate_message_id : Text → ℕ → Text
  generate_message_id sender timestamp =
      take 8 (sha256_hex (encode (sender ++ (codes ":" ++ iso_micros timestamp))))

  first_address : List MisfinAddress → Text
  first_address [] = []
  first_address (s ∷ ss) = address s

  unfoldable pub stored_sender : Result Error (GemmailMessage dt.Time) → Result Error Text
  unfolding first_address
  stored_sender (ok m) = ok (first_address m.senders)
  stored_sender (err e) = if is_value_error e then ok [] else err e

  unfoldable pub write_message : Config → Text → Text → Bytes → Mailbox → Mailbox
  write_message config mailbox stem raw box = elim (config.encryptor mailbox) [
    | some encrypt ↦ record box {
      messages = insert (stem ++ codes ".gemmail.enc.new") (encrypt raw) box.messages;
    }
    | none ↦ record box { messages = insert (stem ++ codes ".gemmail.new") raw box.messages }
  ]

  unfoldable pub write_meta : Text → Option VerificationResult → Mailbox → Mailbox
  write_meta stem none box = box
  write_meta stem (some r) box = record box { meta = write_message_meta box.meta stem r }

  -- `_store_message`
  unfoldable pub store_message :
      Config
      → Readings
      → Text
      → Bytes
      → MisfinRequest Cert
      → Local dt.Time
      → Result Error (Local dt.Time)
  unfolding stored_sender write_message write_meta generate_message_id
  store_message config now mailbox raw r l = do
    sender ← stored_sender (from_bytes dt raw)
    let stem = compact now.stored_at ++ (codes "-" ++ generate_message_id sender now.stored_at)
    ok (record l {
      box = write_meta stem r.verification_result (write_message config mailbox stem raw l.box);
    })

  -- the time of the last reply to this sender is at least the interval ago
  unfoldable pub reply_due : ℕ → ℕ → Option ℕ → Bool
  reply_due interval now none = true
  reply_due interval now (some last) = not (ltb now (last + interval * 1000000))

  unfoldable pub subject_or_empty : Option Text → Text
  subject_or_empty none = []
  subject_or_empty (some t) = t

  unfoldable pub reply_to :
      Config
      → ℕ
      → Text
      → GemmailMessage dt.Time
      → List MisfinAddress
      → Local dt.Time
      → Local dt.Time
  unfolding reply_due
  reply_to config now mailbox m [] l = l
  reply_to config now mailbox m (s ∷ ss) l =
      let sender_addr = lower (address s) in
      if reply_due config.auto_reply_interval now (lookup sender_addr l.auto_reply_last_sent)
      then record l {
        auto_reply_last_sent = insert sender_addr now l.auto_reply_last_sent;
        tasks = l.tasks ++ send_auto_reply mailbox m ∷ [];
      }
      else l

  -- `_should_auto_reply`, and the task that follows it
  unfoldable pub auto_reply :
      Config → Readings → Text → GemmailMessage dt.Time → Local dt.Time → Local dt.Time
  unfolding reply_to subject_or_empty
  auto_reply config now mailbox m l =
      if not (exists l.box.auto_reply)
      then l
      else if contains (codes "[Auto-Reply]") (subject_or_empty (subject m))
      then l
      else reply_to config now.replied_at mailbox m m.senders l

  -- `_maybe_trigger_auto_reply`; every exception is caught
  unfoldable pub maybe_trigger_auto_reply :
      Config → Readings → Text → Bytes → Local dt.Time → Local dt.Time
  unfolding auto_reply
  maybe_trigger_auto_reply config now mailbox raw l =
      if config.auto_reply_enabled
      then elim (from_bytes dt raw) [ ok m ↦ auto_reply config now mailbox m l | err _ ↦ l ]
      else l

  -- `_is_active_list`
  unfoldable pub is_active_list : Config → Mailbox → Bool
  is_active_list config box = config.lists_enabled && is_mailing_list box.subscribers

  unfoldable pub forward : Text → GemmailMessage dt.Time → List Text → Local dt.Time → Local dt.Time
  forward mailbox m [] l = l
  forward mailbox m (a ∷ rest) l = record l {
    tasks = l.tasks ++ forward_to_list mailbox m (a ∷ rest) ∷ [];
  }

  -- `_maybe_trigger_list_forwarding`; every exception is caught
  unfoldable pub maybe_trigger_list_forwarding :
      Config → Text → Bytes → Local dt.Time → Local dt.Time
  unfolding is_active_list forward
  maybe_trigger_list_forwarding config mailbox raw l =
      if is_active_list config l.box
      then elim (from_bytes dt raw) [
        | ok m ↦ forward mailbox m (load_subscribers rt l.box.subscribers) l
        | err _ ↦ l
      ]
      else l

  -- whether the list address is a recipient; an unreadable message is not tested
  unfoldable pub looped : Config → Text → Result Error (GemmailMessage dt.Time) → Result Error Bool
  looped config mailbox (ok m) =
      ok (should_prevent_loop rt m (mailbox ++ (codes "@" ++ config.hostname)))
  looped config mailbox (err e) = if is_value_error e then ok false else err e

  unfoldable pub any_subscriber : List MisfinAddress → List Text → Bool
  any_subscriber [] subscribers = false
  any_subscriber (s ∷ ss) subscribers =
      is_subscriber rt (address s) subscribers || any_subscriber ss subscribers

  unfoldable pub posting_verdict : Bool → Bool → Option MisfinResponse
  posting_verdict true subscribed =
      some (respond bad_request (codes "Loop detected: list address in recipients"))
  posting_verdict false true = none
  posting_verdict false false =
      some (respond unauthorized_sender (codes "Only subscribers may post to this list"))

  -- `_check_list_posting`
  unfoldable pub check_list_posting :
      Config → Text → List MisfinAddress → Bytes → Mailbox → Result Error (Option MisfinResponse)
  unfolding is_active_list looped any_subscriber posting_verdict
  check_list_posting config mailbox senders raw box =
      if not (is_active_list config box) then ok none else do
        loop ← looped config mailbox (from_bytes dt raw)
        ok (posting_verdict loop (any_subscriber senders (load_subscribers rt box.subscribers)))
