-- ===== src/Server/Delivery/Effect.antt =====
-- What storing, replying and forwarding in src/titlani/server/handler.py leave of the mailbox.
use titlani.Base.{ℕ, List, [], ◌∷◌, ◌≡◌, refl, Bool-cases, inl, inr, Result-cases}
use titlani.Str.Core.{Text, Bytes, codes, contains}
use titlani.Runtime.{Runtime}
use titlani.Content.Address.{MisfinAddress, address}
use titlani.Content.Gemmail.{GemmailMessage, from_bytes, subject}
use titlani.Server.Lists.{load_subscribers, exists}
use titlani.Server.State.{Local, Readings, Config, lookup}
use titlani.Server.Delivery.{
  reply_to, auto_reply, maybe_trigger_auto_reply, forward, maybe_trigger_list_forwarding,
  is_active_list, reply_due, subject_or_empty,
}

module _ (rt : Runtime) (config : Config) where
  open rt use {dt}

  reply_to-box :
      (now : ℕ) (mailbox : Text) (m : GemmailMessage dt.Time) (senders : List MisfinAddress)
      (l : Local dt.Time)
      → (reply_to rt config now mailbox m senders l).box ≡ l.box
  unfolding reply_to
  reply_to-box now mailbox m [] l = refl
  reply_to-box now mailbox m (s ∷ ss) l =
      elim (Bool-cases (
        reply_due rt config.auto_reply_interval now
          (lookup (rt.lower (address s)) l.auto_reply_last_sent))) [ inl e ↦ rw e | inr e ↦ rw e ]

  auto_reply-box :
      (now : Readings) (mailbox : Text) (m : GemmailMessage dt.Time) (l : Local dt.Time)
      → (auto_reply rt config now mailbox m l).box ≡ l.box
  unfolding auto_reply
  auto_reply-box now mailbox m l = elim (Bool-cases (exists l.box.auto_reply)) [
    | inr e ↦ rw e
    | inl e ↦
        elim (Bool-cases (contains (codes "[Auto-Reply]") (subject_or_empty rt (subject m)))) [
          | inl f ↦ rw (e, f)
          | inr f ↦ rw (e, f, reply_to-box now.replied_at mailbox m m.senders l)
        ]
  ]

  -- A reply leaves the mailbox.
  pub maybe_trigger_auto_reply-box :
      (now : Readings) (mailbox : Text) (raw : Bytes) (l : Local dt.Time)
      → (maybe_trigger_auto_reply rt config now mailbox raw l).box ≡ l.box
  unfolding maybe_trigger_auto_reply
  maybe_trigger_auto_reply-box now mailbox raw l = elim (Bool-cases config.auto_reply_enabled) [
    | inr e ↦ rw e
    | inl e ↦ elim (Result-cases (from_bytes dt raw)) [
      | inl (m, q) ↦ rw (e, q, auto_reply-box now mailbox m l)
      | inr (x, q) ↦ rw (e, q)
    ]
  ]

  forward-box :
      (mailbox : Text) (m : GemmailMessage dt.Time) (subscribers : List Text) (l : Local dt.Time)
      → (forward rt mailbox m subscribers l).box ≡ l.box
  unfolding forward
  forward-box mailbox m [] l = refl
  forward-box mailbox m (a ∷ rest) l = refl

  -- Forwarding leaves the mailbox.
  pub maybe_trigger_list_forwarding-box :
      (mailbox : Text) (raw : Bytes) (l : Local dt.Time)
      → (maybe_trigger_list_forwarding rt config mailbox raw l).box ≡ l.box
  unfolding maybe_trigger_list_forwarding
  maybe_trigger_list_forwarding-box mailbox raw l =
      elim (Bool-cases (is_active_list rt config l.box)) [
        | inr e ↦ rw e
        | inl e ↦ elim (Result-cases (from_bytes dt raw)) [
          | inl (m, q) ↦ rw (e, q, forward-box mailbox m (load_subscribers rt l.box.subscribers) l)
          | inr (x, q) ↦ rw (e, q)
        ]
      ]
