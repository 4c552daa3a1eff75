-- ===== src/Tests/Server.antt =====
-- The handler and the tokens at concrete inputs.
use titlani.Base.{
  ℕ, true, false, [], ◌∷◌, ◌++◌, none, some, length, ok, err, ◌≡◌, ◌≢◌, refl, arith, pos, any, ap,
  sym, ◌∙◌, ℤ, negsuc,
}
use titlani.Str.Core.{Text, Bytes, codes}
use titlani.Protocol.Status.{unauthorized_sender, success}
use titlani.Protocol.Request.{MisfinRequest, version_c}
use titlani.Protocol.Response.{MisfinResponse}
use titlani.Server.Lists.{missing, contents, in_list, load_subscribers}
use titlani.Content.Address.{address}
use titlani.Server.State.{Mailbox, absent, State, Config, Readings, lookup}
use titlani.Server.Commands.{respond}
use titlani.Server.Delivery.{
  is_active_list, prepare_message, blocked_addresses, collect_senders, any_subscriber,
}
use titlani.Server.Handler.{validate_mailbox, handle_message}
use titlani.Server.Handler.Safety.{KeepsMail, handle_message-KeepsMail, handle_message-blocked}
use titlani.Server.Handler.Storage.{sealed, handle_message-stored, handle_message-unsubscribed}
use titlani.Tests.Machine.{handlers, machine}

abbrev magnitude : ℤ → ℕ
magnitude (pos n) = n
magnitude (negsuc n) = n

abbrev first : Text → ℕ
first [] = 0
first (c ∷ t) = c

abbrev pub config : Config
config = record {
  hostname = codes "h";
  resolved_dir = codes "/d";
  resolve = λ m. some (codes "/d/" ++ m);
  recipient_fingerprint_fn = none;
  identity_cert_fingerprint = codes "ab";
  encryptor = λ m. none;
  auto_reply_enabled = true;
  auto_reply_interval = 10;
  lists_enabled = true;
  lists_archive = true;
}

abbrev pub now : Readings
now = record {
  prepared_at = 1;
  command_at = 2;
  stored_at = 3;
  replied_at = 4;
  next_token = codes "ABC123";
}

-- a mailbox, and a mailing list with one subscriber
abbrev pub box : Mailbox
box = record {
  blocked = contents (codes "E@b\n");
  subscribers = missing;
  auto_reply = contents [];
  messages = [];
  meta = absent;
}

abbrev list_box : Mailbox
list_box = record box { subscribers = contents (codes "# l\ns@b\n") }

abbrev pub state : State ℕ
state = record {
  mailboxes = (codes "m", box) ∷ (codes "l", list_box) ∷ [];
  subscription_store = some (record { rows = []; ttl_seconds = 60 });
  auto_reply_last_sent = [];
  tasks = [];
}

abbrev request : Text → Bytes → MisfinRequest (Text × Text × Text)
request mailbox raw = record {
  mailbox = mailbox;
  hostname = codes "h";
  content_length = length raw;
  raw_message = raw;
  raw_header = [];
  client_cert = none;
  client_cert_fingerprint = none;
  protocol_version = version_c;
  verification_result = none;
}

abbrev hello : Bytes
hello = codes "a@b\n\n\nhi\n"

abbrev evil : Bytes
evil = codes "e@b\n\n\nhi\n"

abbrev run : MisfinRequest (Text × Text × Text) → MisfinResponse × State ℕ
run r = elim (handle_message machine config now r state) [
  | ok done ↦ done
  | err _ ↦ (respond success [], state)
]

-- an ordinary message, a post to a list, and a message to a mailbox that is not there
abbrev pub mail : MisfinRequest (Text × Text × Text)
mail = request (codes "m") hello

abbrev post : MisfinRequest (Text × Text × Text)
post = request (codes "l") hello

abbrev lost : MisfinRequest (Text × Text × Text)
lost = request (codes "n") hello

mail-runs : handle_message machine config now mail state ≡ ok ((run mail).0, (run mail).1)
unfolding handlers
mail-runs = refl

mail-status : (run mail).0.status ≡ pos 20
unfolding handlers
mail-status = refl

post-runs : handle_message machine config now post state ≡ ok ((run post).0, (run post).1)
unfolding handlers
post-runs = refl

post-refused : (run post).0.status ≡ pos 61
unfolding handlers
post-refused = refl

post-status : (run post).0.status ≢ pos 20
post-status q = omega (arith, ap magnitude (sym post-refused ∙ q))

mail-valid : validate_mailbox config (codes "m") state ≡ ok box
unfolding handlers
mail-valid = refl

plain : is_active_list machine config box ≡ false
unfolding handlers
plain = refl

active : is_active_list machine config list_box ≡ true
unfolding handlers
active = refl

found : lookup (codes "l") state.mailboxes ≡ some list_box
unfolding handlers
found = refl

handle_message-KeepsMail_example : KeepsMail state (run post).1
handle_message-KeepsMail_example =
    handle_message-KeepsMail machine config now post state post-runs post-status

is_evil_blocked :
    any
      (λ a. in_list (machine.lower (address a)) (blocked_addresses machine box.blocked))
      (collect_senders machine (request (codes "m") evil))
    ≡ true
unfolding handlers
is_evil_blocked = refl

handle_message-blocked_example :
    handle_message machine config now (request (codes "m") evil) state
    ≡ ok (respond unauthorized_sender (codes "Sender blocked"), state)
handle_message-blocked_example =
    handle_message-blocked machine config now (request (codes "m") evil) state box refl
      (omega arith) mail-valid is_evil_blocked

handle_message-stored_example :
    (raw : Bytes) × (box' : Mailbox) × (name : Text) × (prepare_message machine now mail
      ≡ ok (some raw))
    × (lookup (codes "m") (run mail).1.mailboxes ≡ some box')
    × (lookup name box'.messages ≡ some (sealed machine config now mail raw))
handle_message-stored_example =
    handle_message-stored machine config now mail state box mail-runs mail-status (omega arith)
      mail-valid plain

is_alone :
    any_subscriber machine
      (collect_senders machine post)
      (load_subscribers machine list_box.subscribers)
    ≡ false
unfolding handlers
is_alone = refl

handle_message-unsubscribed_example :
    (box' : Mailbox) × (lookup (codes "l") (run post).1.mailboxes ≡ some box')
    × (box'.messages ≡ list_box.messages)
    × ((run post).1.auto_reply_last_sent ≡ state.auto_reply_last_sent)
handle_message-unsubscribed_example =
    handle_message-unsubscribed machine config now post state list_box post-runs found active
      is_alone
