-- ===== src/Server/Delivery/RateLimit.antt =====
-- The limit on automatic replies of src/titlani/server/handler.py.
use titlani.Base.{
  ℕ, ◌+◌, ◌*◌, ◌<◌, true, false, List, [], ◌∷◌, ◌++◌, some, ltb, ◌≡◌, ap, sym, ◌∙◌, arith,
  Bool-cases, inl, inr,
}
use titlani.Str.Core.{Text, codes, contains, same, same_iff}
use titlani.Runtime.{Runtime}
use titlani.Content.Address.{MisfinAddress, address}
use titlani.Content.Gemmail.{GemmailMessage, subject}
use titlani.Server.Lists.{exists}
use titlani.Server.State.{Mailbox, Local, Readings, Config, lookup}
use titlani.Server.State.Dict.{lookup-insert, lookup-insert_other}
use titlani.Server.Delivery.{reply_due, reply_to, auto_reply, subject_or_empty}

module _ (rt : Runtime) (config : Config) where
  open rt use {dt, lower}

  reply_to-due :
      (now : ℕ) (mailbox : Text) (m : GemmailMessage dt.Time) (s : MisfinAddress)
      (ss : List MisfinAddress) (l : Local dt.Time)
      → reply_due rt config.auto_reply_interval now
          (lookup (lower (address s)) l.auto_reply_last_sent)
        ≡ true
      → lookup
          (lower (address s))
          (reply_to rt config now mailbox m (s ∷ ss) l).auto_reply_last_sent
        ≡ some now
  unfolding reply_to
  reply_to-due now mailbox m s ss l due =
      rw (reply_to, due) (lookup-insert (lower (address s)) now l.auto_reply_last_sent)

  reply_to-early :
      (now later : ℕ) (mailbox : Text) (m : GemmailMessage dt.Time) (s : MisfinAddress)
      (ss : List MisfinAddress) (l : Local dt.Time)
      → lookup (lower (address s)) l.auto_reply_last_sent ≡ some now
      → later < now + config.auto_reply_interval * 1000000
      → reply_to rt config later mailbox m (s ∷ ss) l ≡ l
  unfolding reply_to reply_due
  reply_to-early now later mailbox m s ss l sent early =
      let e : ltb later (now + config.auto_reply_interval * 1000000) ≡ true = ground arith in
      rw (reply_to, sent, reply_due, e)

  reply_to-kept :
      (now later : ℕ) (key mailbox : Text) (m : GemmailMessage dt.Time) (ss : List MisfinAddress)
      (l : Local dt.Time)
      → lookup key l.auto_reply_last_sent ≡ some now
      → later < now + config.auto_reply_interval * 1000000
      → lookup key (reply_to rt config later mailbox m ss l).auto_reply_last_sent ≡ some now
  unfolding reply_to
  reply_to-kept now later key mailbox m [] l sent early = sent
  reply_to-kept now later key mailbox m (s ∷ ss) l sent early =
      elim (Bool-cases (same key (lower (address s)))) [
        | inl e ↦
            let q = (same_iff key (lower (address s))).0 e in
            ap (λ x. lookup key x.auto_reply_last_sent)
              (reply_to-early now later mailbox m s ss l
                (sym (ap (λ k. lookup k l.auto_reply_last_sent) q) ∙ sent) early)
            ∙ sent
        | inr e ↦
            elim (Bool-cases (
              reply_due rt config.auto_reply_interval later
                (lookup (lower (address s)) l.auto_reply_last_sent))) [
                  | inr f ↦ rw (reply_to, f) sent
                  | inl f ↦
                      rw (reply_to, f)
                        (lookup-insert_other key (lower (address s)) later l.auto_reply_last_sent
                            (λ q. ground (arith, (same_iff key (lower (address s))).1 q))
                          ∙ sent)
                ]
      ]

  -- A message that is stored, with the clock, in a mailbox.
  pub record Arrival : Type 0 where
    pub readings : Readings
    pub mailbox : Text
    pub box : Mailbox
    pub message : GemmailMessage dt.Time

  -- What the automatic reply to it does, and to several of them.
  unfoldable pub arrive : Arrival → Local dt.Time → Local dt.Time
  unfolding auto_reply
  arrive a l = auto_reply rt config a.readings a.mailbox a.message (record l { box = a.box })

  unfoldable pub arrive_all : List Arrival → Local dt.Time → Local dt.Time
  unfolding arrive
  arrive_all [] l = l
  arrive_all (a ∷ rest) l = arrive_all rest (arrive a l)

  abbrev pub AllBefore : ℕ → List Arrival → Type 0
  AllBefore end [] = Unit
  AllBefore end (a ∷ rest) = (a.readings.replied_at < end) × AllBefore end rest

  AllBefore-append :
      (end : ℕ) (arrivals : List Arrival) (b : Arrival)
      → AllBefore end (arrivals ++ b ∷ [])
      → AllBefore end arrivals × (b.readings.replied_at < end)
  AllBefore-append end [] b early = (tt, early.0)
  AllBefore-append end (a ∷ rest) b early =
      let (before, last) = AllBefore-append end rest b early.1 in ((early.0, before), last)

  arrive-kept :
      (now : ℕ) (key : Text) (a : Arrival) (l : Local dt.Time)
      → lookup key l.auto_reply_last_sent ≡ some now
      → a.readings.replied_at < now + config.auto_reply_interval * 1000000
      → lookup key (arrive a l).auto_reply_last_sent ≡ some now
  unfolding arrive auto_reply
  arrive-kept now key a l sent early = elim (Bool-cases (exists a.box.auto_reply)) [
    | inr e ↦ rw (auto_reply, e) sent
    | inl e ↦
        elim (Bool-cases
          (contains (codes "[Auto-Reply]") (subject_or_empty rt (subject a.message)))) [
            | inl f ↦ rw (auto_reply, e, f) sent
            | inr f ↦
                rw (auto_reply, e, f)
                  (reply_to-kept now a.readings.replied_at key a.mailbox a.message a.message.senders
                    (record l { box = a.box }) sent early)
          ]
  ]

  arrive_all-kept :
      (now : ℕ) (key : Text) (arrivals : List Arrival) (l : Local dt.Time)
      → lookup key l.auto_reply_last_sent ≡ some now
      → AllBefore (now + config.auto_reply_interval * 1000000) arrivals
      → lookup key (arrive_all arrivals l).auto_reply_last_sent ≡ some now
  unfolding arrive_all
  arrive_all-kept now key [] l sent early = sent
  arrive_all-kept now key (a ∷ rest) l sent early =
      arrive_all-kept now key rest (arrive a l) (arrive-kept now key a l sent early.0) early.1

  arrive-early :
      (now : ℕ) (a : Arrival) (s : MisfinAddress) (ss : List MisfinAddress) (l : Local dt.Time)
      → a.message.senders ≡ s ∷ ss
      → lookup (lower (address s)) l.auto_reply_last_sent ≡ some now
      → a.readings.replied_at < now + config.auto_reply_interval * 1000000
      → arrive a l ≡ record l { box = a.box }
  unfolding arrive auto_reply
  arrive-early now a s ss l senders sent early =
      let l' : Local dt.Time = record l { box = a.box } in
      let none_sent : reply_to rt config a.readings.replied_at a.mailbox a.message a.message.senders
            l'
          ≡ l' =
        ap (λ x. reply_to rt config a.readings.replied_at a.mailbox a.message x l') senders
        ∙ reply_to-early now a.readings.replied_at a.mailbox a.message s ss l' sent early in
      elim (Bool-cases (exists a.box.auto_reply)) [
        | inr e ↦ rw (auto_reply, e)
        | inl e ↦
            elim (Bool-cases
              (contains (codes "[Auto-Reply]") (subject_or_empty rt (subject a.message)))) [
                | inl f ↦ rw (auto_reply, e, f)
                | inr f ↦ rw (auto_reply, e, f) none_sent
              ]
      ]

  -- Once a message has started an automatic reply to its sender, then, whatever messages arrive in
  -- whatever mailboxes before the interval is over, a further message before that whose first sender
  -- has the same address, in whatever case it is written, starts no reply: it changes neither the
  -- tasks nor the times of the last replies.
  pub auto_reply-once :
      (a b : Arrival) (between : List Arrival) (s s' : MisfinAddress) (ss ss' : List MisfinAddress)
      (l : Local dt.Time)
      → a.message.senders ≡ s ∷ ss
      → b.message.senders ≡ s' ∷ ss'
      → lower (address s') ≡ lower (address s)
      → exists a.box.auto_reply ≡ true
      → contains (codes "[Auto-Reply]") (subject_or_empty rt (subject a.message)) ≡ false
      → reply_due rt config.auto_reply_interval a.readings.replied_at
          (lookup (lower (address s)) l.auto_reply_last_sent)
        ≡ true
      → AllBefore (a.readings.replied_at + config.auto_reply_interval * 1000000) (between ++ b ∷ [])
      → let done = arrive_all between (arrive a l) in arrive b done ≡ record done { box = b.box }
  unfolding arrive auto_reply
  auto_reply-once a b between s s' ss ss' l senders senders' same_sender there plain due early =
      let now = a.readings.replied_at in
      let l' : Local dt.Time = record l { box = a.box } in
      let first : arrive a l ≡ reply_to rt config now a.mailbox a.message (s ∷ ss) l' =
        rw (auto_reply, there, plain)
          (ap (λ x. reply_to rt config now a.mailbox a.message x l') senders) in
      let sent : lookup (lower (address s)) (arrive a l).auto_reply_last_sent ≡ some now =
        ap (λ x. lookup (lower (address s)) x.auto_reply_last_sent) first
        ∙ reply_to-due now a.mailbox a.message s ss l' due in
      let (before, last) = AllBefore-append _ between b early in
      let done = arrive_all between (arrive a l) in
      arrive-early now b s' ss' done senders'
        (ap (λ k. lookup k done.auto_reply_last_sent) same_sender
          ∙ arrive_all-kept now (lower (address s)) between (arrive a l) sent before)
        last
