-- ===== src/Server/Handler/Storage.antt =====
-- What `handle_message` in src/titlani/server/handler.py stores.
use titlani.Base.{
  true, false, ◌++◌, Option, none, some, ◌≡◌, ◌≢◌, refl, ap, sym, ◌∙◌, arith, inl, inr,
  Option-cases, ok, Result-cases, pos,
}
use titlani.Str.Core.{Text, Bytes, codes}
use titlani.Runtime.{Runtime}
use titlani.Protocol.Request.{MisfinRequest}
use titlani.Protocol.Response.{MisfinResponse}
use titlani.Content.Gemmail.{from_bytes}
use titlani.Verification.Outcome.{VerificationResult}
use titlani.Server.Lists.{load_subscribers}
use titlani.Server.State.{Mailbox, Local, State, Config, Readings, lookup}
use titlani.Server.State.Dict.{lookup-insert}
use titlani.Server.Commands.Effect.{run_command-KeepsMessages}
use titlani.Server.Delivery.{
  collect_senders, prepare_message, stored_sender, write_message, write_meta, store_message,
  generate_message_id, is_active_list, any_subscriber, maybe_trigger_auto_reply,
  maybe_trigger_list_forwarding,
}
use titlani.Server.Delivery.Effect.{maybe_trigger_auto_reply-box, maybe_trigger_list_forwarding-box}
use titlani.Server.Handler.{local, merge, keep_message, accept, handle_message, validate_mailbox}
use titlani.Server.Handler.Cases.{
  validate_mailbox-eq-ok, handle_message-cases, IsOutcome, refused, commanded, accepted,
  deliver-IsOutcome, check_list_posting-none,
}

module _ (rt : Runtime) (config : Config) (now : Readings) (r : MisfinRequest rt.Cert) where
  open rt use {dt}

  -- The bytes of the message's file.
  pub sealed : Bytes → Bytes
  sealed raw = elim (config.encryptor r.mailbox) [ none ↦ raw | some encrypt ↦ encrypt raw ]

  write_meta-messages :
      (stem : Text) (v : Option VerificationResult) (box : Mailbox)
      → (write_meta rt stem v box).messages ≡ box.messages
  unfolding write_meta
  write_meta-messages stem none box = refl
  write_meta-messages stem (some v) box = refl

  write_message-messages :
      (stem : Text) (raw : Bytes) (box : Mailbox)
      → (name : Text) × (lookup name (write_message rt config r.mailbox stem raw box).messages
          ≡ some (sealed raw))
  unfolding write_message sealed
  write_message-messages stem raw box = elim (Option-cases (config.encryptor r.mailbox)) [
    | inl e ↦
        let name = stem ++ codes ".gemmail.new" in
        (name, rw (e, write_message, sealed, lookup-insert name raw box.messages))
    | inr (encrypt, e) ↦
        let name = stem ++ codes ".gemmail.enc.new" in
        (name, rw (e, write_message, sealed, lookup-insert name (encrypt raw) box.messages))
  ]

  store_message-messages :
      (raw : Bytes) (l : Local dt.Time) {stored : Local dt.Time}
      → store_message rt config now r.mailbox raw r l ≡ ok stored
      → (name : Text) × (lookup name stored.box.messages ≡ some (sealed raw))
  unfolding store_message
  store_message-messages raw l {stored} h =
      elim (Result-cases (stored_sender rt (from_bytes dt raw))) [
        | inr (e, q) ↦ absurd (ground arith)
        | inl (sender, q) ↦
            let stem =
              rt.compact now.stored_at
              ++ (codes "-" ++ generate_message_id rt sender now.stored_at) in
            let box = write_message rt config r.mailbox stem raw l.box in
            let e : write_meta rt stem r.verification_result box ≡ stored.box = ground arith in
            let (name, found) = write_message-messages stem raw l.box in
            (
              name,
              ap (λ m. lookup name m)
                    (sym (ap (λ b. b.messages) e)
                      ∙ write_meta-messages stem r.verification_result box)
                  ∙ found,
            )
      ]

  accept-box :
      (raw : Bytes) (l : Local dt.Time) {answer : MisfinResponse} {done : Local dt.Time}
      → accept rt config now r.mailbox raw r l ≡ ok (answer, done)
      → (stored : Local dt.Time) × (keep_message rt config now r.mailbox raw r l ≡ ok stored)
        × (done.box ≡ stored.box)
  unfolding accept
  accept-box raw l {answer} {done} h =
      elim (Result-cases (keep_message rt config now r.mailbox raw r l)) [
        | inr (e, q) ↦ absurd (ground arith)
        | inl (stored, q) ↦
            let replied = maybe_trigger_auto_reply rt config now r.mailbox raw stored in
            let d : done ≡ maybe_trigger_list_forwarding rt config r.mailbox raw replied =
              ground arith in
            (
              stored,
              q,
              ap (λ l. l.box) d
                  ∙ (maybe_trigger_list_forwarding-box rt config r.mailbox raw replied
                      ∙ maybe_trigger_auto_reply-box rt config now r.mailbox raw stored),
            )
      ]

  keep_message-messages :
      (raw : Bytes) (l : Local dt.Time) {stored : Local dt.Time}
      → is_active_list rt config l.box ≡ false
      → keep_message rt config now r.mailbox raw r l ≡ ok stored
      → (name : Text) × (lookup name stored.box.messages ≡ some (sealed raw))
  unfolding keep_message
  keep_message-messages raw l {stored} plain h =
      store_message-messages raw l {stored = stored} (ground arith)

  IsOutcome-stored :
      (l : Local dt.Time) {answer : MisfinResponse} {done : Local dt.Time}
      → answer.status ≡ pos 20
      → is_active_list rt config l.box ≡ false
      → IsOutcome rt config now r l answer done
      → (raw : Bytes) × (name : Text) × (prepare_message rt now r ≡ ok (some raw))
        × (lookup name done.box.messages ≡ some (sealed raw))
  IsOutcome-stored l ok20 plain (refused n _) = absurd (n ok20)
  IsOutcome-stored l ok20 plain (commanded store c active e) = cc
  IsOutcome-stored l {done = done} ok20 plain (accepted raw free prepared checked e) =
      let (stored, kept, same_box) = accept-box raw l e in
      let (name, found) = keep_message-messages raw l plain kept in
      (raw, name, prepared, ap (λ b. lookup name b.messages) same_box ∙ found)

  -- A message with a body that is answered 20, to a mailbox that is not a mailing list, is stored
  -- there: one file of the mailbox holds the prepared message, encrypted where the mailbox has a key.
  pub handle_message-stored :
      (s : State dt.Time) (box : Mailbox) {answer : MisfinResponse} {s' : State dt.Time}
      → handle_message rt config now r s ≡ ok (answer, s')
      → answer.status ≡ pos 20
      → r.content_length ≢ 0
      → validate_mailbox config r.mailbox s ≡ ok box
      → is_active_list rt config box ≡ false
      → (raw : Bytes) × (box' : Mailbox) × (name : Text) × (prepare_message rt now r
          ≡ ok (some raw))
        × (lookup r.mailbox s'.mailboxes ≡ some box')
        × (lookup name box'.messages ≡ some (sealed raw))
  unfolding local merge
  handle_message-stored s box {answer} {s'} h ok20 sized valid plain =
      elim (handle_message-cases rt config now r s h) [
        | inl (_, probe) ↦ absurd (sized (probe ok20))
        | inr d ↦
            let e : d.box ≡ box = cc (d.valid, valid) in
            let outcome = deliver-IsOutcome rt config now r (local s d.box) d.delivered in
            let (raw, name, prepared, found) =
              IsOutcome-stored (local s d.box) ok20 (ap (is_active_list rt config) e ∙ plain)
                outcome in
            (
              raw,
              d.done.box,
              name,
              prepared,
              ap (λ x. lookup r.mailbox x.mailboxes) d.merged
                  ∙ lookup-insert r.mailbox d.done.box s.mailboxes,
              found,
            )
      ]

  IsOutcome-unsubscribed :
      (l : Local dt.Time) {answer : MisfinResponse} {done : Local dt.Time}
      → is_active_list rt config l.box ≡ true
      → any_subscriber rt (collect_senders rt r) (load_subscribers rt l.box.subscribers) ≡ false
      → IsOutcome rt config now r l answer done
      → (done.box.messages ≡ l.box.messages) × (done.auto_reply_last_sent ≡ l.auto_reply_last_sent)
  IsOutcome-unsubscribed l active alone (refused _ e) = (rw e, rw e)
  IsOutcome-unsubscribed l active alone (commanded store c _ e) =
      let kept = run_command-KeepsMessages rt now r.mailbox (collect_senders rt r) store l c in
      (
        ap (λ p. p.1.box.messages) e ∙ kept.messages_kept,
        ap (λ p. p.1.auto_reply_last_sent) e ∙ kept.replies_kept,
      )
  IsOutcome-unsubscribed l active alone (accepted raw free prepared checked e) =
      cc (check_list_posting-none rt config now r raw l active checked, alone)

  -- A mailing list stores nothing from a message none of whose senders is subscribed, whatever the
  -- message is answered: the stored messages and the times of automatic replies stay as they were.
  pub handle_message-unsubscribed :
      (s : State dt.Time) (box : Mailbox) {answer : MisfinResponse} {s' : State dt.Time}
      → handle_message rt config now r s ≡ ok (answer, s')
      → lookup r.mailbox s.mailboxes ≡ some box
      → is_active_list rt config box ≡ true
      → any_subscriber rt (collect_senders rt r) (load_subscribers rt box.subscribers) ≡ false
      → (box' : Mailbox) × (lookup r.mailbox s'.mailboxes ≡ some box')
        × (box'.messages ≡ box.messages)
        × (s'.auto_reply_last_sent ≡ s.auto_reply_last_sent)
  unfolding local merge
  handle_message-unsubscribed s box {answer} {s'} h found active alone =
      elim (handle_message-cases rt config now r s h) [
        | inl (e, _) ↦ (box, ap (λ x. lookup r.mailbox x.mailboxes) e ∙ found, refl, rw e)
        | inr d ↦
            let (_, _, there) = validate_mailbox-eq-ok config r.mailbox s d.valid in
            let e : d.box ≡ box = cc (there, found) in
            let outcome = deliver-IsOutcome rt config now r (local s d.box) d.delivered in
            let (messages, replies) =
              IsOutcome-unsubscribed (local s d.box) (ap (is_active_list rt config) e ∙ active)
                (ap
                    (λ b.
                      any_subscriber rt (collect_senders rt r) (load_subscribers rt b.subscribers))
                    e
                  ∙ alone)
                outcome in
            (
              d.done.box,
              ap (λ x. lookup r.mailbox x.mailboxes) d.merged
                  ∙ lookup-insert r.mailbox d.done.box s.mailboxes,
              messages ∙ ap (λ b. b.messages) e,
              ap (λ x. x.auto_reply_last_sent) d.merged ∙ replies,
            )
      ]
