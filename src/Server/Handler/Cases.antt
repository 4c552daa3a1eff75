-- ===== src/Server/Handler/Cases.antt =====
-- What an answer of `handle_message` in src/titlani/server/handler.py can come from.
use titlani.Base.{
  Bool, true, false, ◌==◌, none, some, ◌≡◌, ◌≢◌, refl, arith, pos, Bool-cases, inl, inr, ◌⊎◌,
  Option-cases, Result, ok, err, ◌>>=◌, Result-cases, Result-cases,
}
use titlani.Str.Core.{Text, Bytes, same}
use titlani.Runtime.{Runtime}
use titlani.Protocol.Errors.{Error}
use titlani.Protocol.Request.{MisfinRequest}
use titlani.Protocol.Response.{MisfinResponse}
use titlani.Content.Gemmail.{from_bytes}
use titlani.Server.Subscription.{TokenStore}
use titlani.Server.Lists.{load_subscribers}
use titlani.Server.State.{Mailbox, Local, State, Config, Readings, lookup}
use titlani.Server.Commands.{Command, run_command}
use titlani.Server.Delivery.{
  collect_senders, find_blocked_sender, prepare_message, is_active_list, check_list_posting, looped,
  any_subscriber, posting_verdict,
}
use titlani.Server.Handler.{
  is_valid_name, is_inside, validate_mailbox, local, merge, command_of, command_reply,
  handle_list_command, accept, post, admit, deliver, handle_message,
}

-- A mailbox that passes the test has a name that is valid, lies inside the mailbox directory, and
-- is the one found.
pub validate_mailbox-eq-ok :
    {T : Type 0} (config : Config) (name : Text) (s : State T) {box : Mailbox}
    → validate_mailbox config name s ≡ ok box
    → (is_valid_name name ≡ true)
      × (is_inside config name ≡ true)
      × (lookup name s.mailboxes ≡ some box)
unfolding validate_mailbox
validate_mailbox-eq-ok config name s h = elim (Bool-cases (is_valid_name name)) [
  | inr e ↦ absurd (ground arith)
  | inl e ↦ elim (Bool-cases (is_inside config name)) [
    | inr f ↦ absurd (ground arith)
    | inl f ↦ elim (Option-cases (lookup name s.mailboxes)) [
      | inl n ↦ absurd (ground arith)
      | inr (b, q) ↦ (e, f, ground arith)
    ]
  ]
]

validate_mailbox-eq-err :
    {T : Type 0} (config : Config) (name : Text) (s : State T) {answer : MisfinResponse}
    → validate_mailbox config name s ≡ err answer
    → answer.status ≢ pos 20
unfolding validate_mailbox
validate_mailbox-eq-err config name s h = elim (Bool-cases (is_valid_name name)) [
  | inr e ↦ ground arith
  | inl e ↦ elim (Bool-cases (is_inside config name)) [
    | inr f ↦ ground arith
    | inl f ↦ elim (Option-cases (lookup name s.mailboxes)) [
      | inl n ↦ ground arith
      | inr (b, q) ↦ absurd (ground arith)
    ]
  ]
]

module _ (rt : Runtime) (config : Config) (now : Readings) (r : MisfinRequest rt.Cert) where
  open rt use {dt}

  -- The mailbox that the message was delivered to, and what the delivery left.
  pub record IsDelivered (s : State dt.Time) (answer : MisfinResponse) (s' : State dt.Time)
      : Type 0 where
    pub box : Mailbox
    pub done : Local dt.Time
    pub valid : validate_mailbox config r.mailbox s ≡ ok box
    pub delivered : deliver rt config now r (local s box) ≡ ok (answer, done)
    pub merged : s' ≡ merge r.mailbox s done

  merge-eq-ok :
      (s : State dt.Time) (m : Result Error (MisfinResponse × Local dt.Time))
      {answer : MisfinResponse} {s' : State dt.Time}
      → ◌>>=◌ {B = MisfinResponse × State dt.Time} m (λ done. ok (done.0, merge r.mailbox s done.1))
        ≡ ok (answer, s')
      → (l : Local dt.Time) × (m ≡ ok (answer, l)) × (s' ≡ merge r.mailbox s l)
  merge-eq-ok s (err e) h = cc
  merge-eq-ok s (ok (a, l)) h = (l, cc, cc)

  pub handle_message-cases :
      (s : State dt.Time) {answer : MisfinResponse} {s' : State dt.Time}
      → handle_message rt config now r s ≡ ok (answer, s')
      → ((s' ≡ s) × (answer.status ≡ pos 20 → r.content_length ≡ 0)) ⊎ IsDelivered s answer s'
  unfolding handle_message
  handle_message-cases s {answer} {s'} h = elim (Bool-cases (same r.hostname config.hostname)) [
    | inr e ↦ inl (ground arith, λ q. ground arith)
    | inl e ↦ elim (Bool-cases (r.content_length == 0)) [
      | inl f ↦ inl (ground arith, λ q. ground arith)
      | inr f ↦ elim (Result-cases (validate_mailbox config r.mailbox s)) [
        | inr (a, q) ↦
            let w = validate_mailbox-eq-err config r.mailbox s q in
            inl (ground arith, λ k. ground arith)
        | inl (b, q) ↦
            let (l, d, m) = merge-eq-ok s (deliver rt config now r (local s b)) (ground arith) in
            inr (record { box = b; done = l; valid = q; delivered = d; merged = m })
      ]
    ]
  ]

  -- A delivery ends with a refusal, with a command or with an acceptance.
  pub data IsOutcome (l : Local dt.Time) (answer : MisfinResponse) (done : Local dt.Time)
      : Type 0 where
    refused : answer.status ≢ pos 20 → done ≡ l → IsOutcome l answer done
    commanded :
        (store : TokenStore) (c : Command)
        → is_active_list rt config l.box ≡ true
        → (answer, done) ≡ run_command rt now r.mailbox (collect_senders rt r) store l c
        → IsOutcome l answer done
    accepted :
        (raw : Bytes)
        → find_blocked_sender rt l.box.blocked (collect_senders rt r) ≡ none
        → prepare_message rt now r ≡ ok (some raw)
        → check_list_posting rt config r.mailbox (collect_senders rt r) raw l.box ≡ ok none
        → accept rt config now r.mailbox raw r l ≡ ok (answer, done)
        → IsOutcome l answer done

  handle_list_command-eq-ok :
      (raw : Bytes) (l : Local dt.Time) {reply : MisfinResponse × Local dt.Time}
      → handle_list_command rt config now r.mailbox (collect_senders rt r) raw l ≡ ok (some reply)
      → (store : TokenStore) × (c : Command) × (is_active_list rt config l.box ≡ true)
        × (reply ≡ run_command rt now r.mailbox (collect_senders rt r) store l c)
  unfolding handle_list_command command_reply
  handle_list_command-eq-ok raw l {reply} h = elim (Bool-cases (is_active_list rt config l.box)) [
    | inr e ↦ absurd (ground arith)
    | inl e ↦ elim (Option-cases l.subscription_store) [
      | inl n ↦ absurd (ground arith)
      | inr (store, q) ↦ elim (Result-cases (command_of rt (from_bytes dt raw))) [
        | inr (x, p) ↦ absurd (ground arith)
        | inl (none, p) ↦ absurd (ground arith)
        | inl (some c, p) ↦ (store, c, e, ground arith)
      ]
    ]
  ]

  posting_verdict-status :
      (loop subscribed : Bool) {answer : MisfinResponse}
      → posting_verdict rt loop subscribed ≡ some answer
      → answer.status ≢ pos 20
  unfolding posting_verdict
  posting_verdict-status true subscribed h = ground arith
  posting_verdict-status false true h = cc
  posting_verdict-status false false h = ground arith

  check_list_posting-status :
      (raw : Bytes) (l : Local dt.Time) {answer : MisfinResponse}
      → check_list_posting rt config r.mailbox (collect_senders rt r) raw l.box ≡ ok (some answer)
      → answer.status ≢ pos 20
  unfolding check_list_posting
  check_list_posting-status raw l {answer} h = elim (Bool-cases (is_active_list rt config l.box)) [
    | inr e ↦ absurd (ground arith)
    | inl e ↦ elim (Result-cases (looped rt config r.mailbox (from_bytes dt raw))) [
      | inr (x, q) ↦ absurd (ground arith)
      | inl (loop, q) ↦
          posting_verdict-status loop
            (any_subscriber rt (collect_senders rt r) (load_subscribers rt l.box.subscribers))
            {answer = answer} (ground arith)
    ]
  ]

  posting_verdict-none :
      (loop subscribed : Bool) → posting_verdict rt loop subscribed ≡ none → subscribed ≡ true
  unfolding posting_verdict
  posting_verdict-none true subscribed h = cc
  posting_verdict-none false true h = refl
  posting_verdict-none false false h = cc

  -- A message passes the posting restriction of a list only if one of its senders is subscribed.
  pub check_list_posting-none :
      (raw : Bytes) (l : Local dt.Time)
      → is_active_list rt config l.box ≡ true
      → check_list_posting rt config r.mailbox (collect_senders rt r) raw l.box ≡ ok none
      → any_subscriber rt (collect_senders rt r) (load_subscribers rt l.box.subscribers) ≡ true
  unfolding check_list_posting
  check_list_posting-none raw l active h =
      elim (Result-cases (looped rt config r.mailbox (from_bytes dt raw))) [
        | inr (x, q) ↦ absurd (ground arith)
        | inl (loop, q) ↦
            posting_verdict-none loop
              (any_subscriber rt (collect_senders rt r) (load_subscribers rt l.box.subscribers))
              (ground arith)
      ]

  post-IsOutcome :
      (raw : Bytes) (l : Local dt.Time) {answer : MisfinResponse} {done : Local dt.Time}
      → find_blocked_sender rt l.box.blocked (collect_senders rt r) ≡ none
      → prepare_message rt now r ≡ ok (some raw)
      → post rt config now r.mailbox (collect_senders rt r) raw r l ≡ ok (answer, done)
      → IsOutcome l answer done
  unfolding post
  post-IsOutcome raw l {answer} {done} free prepared h =
      elim (Result-cases
        (check_list_posting rt config r.mailbox (collect_senders rt r) raw l.box)) [
          | inr (e, q) ↦ absurd (ground arith)
          | inl (none, q) ↦ accepted raw free prepared q (ground arith)
          | inl (some response, q) ↦
              let w = check_list_posting-status raw l q in refused (ground arith) (ground arith)
        ]

  admit-IsOutcome :
      (raw : Bytes) (l : Local dt.Time) {answer : MisfinResponse} {done : Local dt.Time}
      → find_blocked_sender rt l.box.blocked (collect_senders rt r) ≡ none
      → prepare_message rt now r ≡ ok (some raw)
      → admit rt config now r.mailbox (collect_senders rt r) raw r l ≡ ok (answer, done)
      → IsOutcome l answer done
  unfolding admit
  admit-IsOutcome raw l {answer} {done} free prepared h =
      elim (Result-cases
        (handle_list_command rt config now r.mailbox (collect_senders rt r) raw l)) [
          | inr (e, q) ↦ absurd (ground arith)
          | inl (none, q) ↦ post-IsOutcome raw l free prepared (ground arith)
          | inl (some reply, q) ↦
              let (store, c, active, run) = handle_list_command-eq-ok raw l q in
              commanded store c active (ground arith)
        ]

  pub deliver-IsOutcome :
      (l : Local dt.Time) {answer : MisfinResponse} {done : Local dt.Time}
      → deliver rt config now r l ≡ ok (answer, done)
      → IsOutcome l answer done
  unfolding deliver
  deliver-IsOutcome l {answer} {done} h =
      elim (Option-cases (find_blocked_sender rt l.box.blocked (collect_senders rt r))) [
        | inr (a, q) ↦ refused (ground arith) (ground arith)
        | inl q ↦ elim (Result-cases (prepare_message rt now r)) [
          | inr (e, p) ↦ absurd (ground arith)
          | inl (none, p) ↦ refused (ground arith) (ground arith)
          | inl (some raw, p) ↦ admit-IsOutcome raw l q p (ground arith)
        ]
      ]
