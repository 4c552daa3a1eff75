-- ===== src/Tests/Machine.antt =====
-- An interpreter for the tests, and a name that opens the server's functions.
use titlani.Base.{◌+◌, ◌-◌, ◌&&◌, [], ◌∷◌, some, map, leb, if◌then◌else◌}
use titlani.Str.Core.{Text, codes}
use titlani.Str.Number.{decimal}
use titlani.Runtime.{Runtime}
use titlani.Identity.{extract_identity, normalize_fingerprint, keep_hex}
use titlani.Server.Subscription.{
  create_token, verify_token, is_pending, remove_pending, list_pending, cleanup, find_row,
  remove_rows, has_token, is_live, is_at,
}
use titlani.Server.Lists.{
  subscriber_of, exists, is_name, is_list_address, is_name_char, load_subscribers, is_subscriber,
  in_list, add_subscriber, remove_subscriber, should_prevent_loop, is_mailing_list,
}
use titlani.Server.State.{lookup, insert}
use titlani.Server.Commands.{
  command_in, run_command, handle_subscribe, handle_confirm, handle_unsubscribe, confirm_found,
  confirm_address,
}
use titlani.Server.Delivery.{
  find_blocked_sender, blocked_addresses, first_blocked, extract_sender, collect_senders,
  prepare_message, stamp, with_recipient, generate_message_id, write_message, write_meta,
  store_message, maybe_trigger_auto_reply, auto_reply, reply_to, reply_due, is_active_list,
  maybe_trigger_list_forwarding, forward, check_list_posting, any_subscriber, looped,
  posting_verdict, to_list, sender_of, claimed_senders, message_b, prepare_c, stored_sender,
  subject_or_empty, write_message_meta,
}
use titlani.Server.Handler.{
  is_valid_name, is_inside, validate_mailbox, local, merge, recipient_fingerprint, command_of,
  command_reply, handle_list_command, keep_message, accept, post, admit, deliver, handle_message,
}
use titlani.Tests.Run.{texts}
use titlani.Tests.Content.{calendar, strokes, count_strokes}

unfoldable pub handlers : Unit {0}
unfolding texts strokes count_strokes extract_identity normalize_fingerprint keep_hex create_token
    verify_token is_pending remove_pending list_pending cleanup find_row remove_rows has_token
    is_live is_at subscriber_of exists is_name is_list_address is_name_char load_subscribers
    is_subscriber in_list add_subscriber remove_subscriber should_prevent_loop is_mailing_list
    lookup insert command_in run_command handle_subscribe handle_confirm handle_unsubscribe
    confirm_found confirm_address find_blocked_sender blocked_addresses first_blocked extract_sender
    collect_senders prepare_message stamp with_recipient generate_message_id write_message
    write_meta store_message maybe_trigger_auto_reply auto_reply reply_to reply_due is_active_list
    maybe_trigger_list_forwarding forward check_list_posting any_subscriber looped posting_verdict
    to_list sender_of claimed_senders message_b prepare_c stored_sender subject_or_empty
    write_message_meta is_valid_name is_inside validate_mailbox local merge recipient_fingerprint
    command_of command_reply handle_list_command keep_message accept post admit deliver
    handle_message
handlers = tt

-- `A` to `Z` as `a` to `z`, and back
abbrev pub lower_ascii : Text → Text
lower_ascii t = map (λ c. if leb b'A' c && leb c b'Z' then c + 32 else c) t

abbrev pub upper_ascii : Text → Text
upper_ascii t = map (λ c. if leb b'a' c && leb c b'z' then c - 32 else c) t

-- A certificate is its user, its host and its name.
abbrev pub machine : Runtime
machine = record {
  dt = calendar;
  utc = λ n. n;
  lower = lower_ascii;
  upper = upper_ascii;
  decode_replace = λ b. b;
  Cert = Text × Text × Text;
  user_ids = λ c. c.0 ∷ [];
  common_names = λ c. c.2 ∷ [];
  dns_names = λ c. some (c.1 ∷ []);
  certificate_fingerprint = λ c. c.0;
  sha256_hex = λ b. codes "0123456789abcdef";
  iso_micros = decimal;
  compact = decimal;
  compact_to_iso = λ t. some t;
}
