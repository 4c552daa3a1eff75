-- ===== src/Server/Commands/Effect.antt =====
-- What a subscription command of src/titlani/server/handler.py leaves of its mailbox.
use titlani.Base.{List, [], ◌∷◌, Option, none, some, ◌≡◌, ◌≢◌, refl, pos, Bool-cases, inl, inr, map}
use titlani.Str.Core.{Text}
use titlani.Runtime.{Runtime}
use titlani.Content.Address.{MisfinAddress, address}
use titlani.Server.Subscription.{TokenStore, verify_token}
use titlani.Server.Lists.{load_subscribers, is_subscriber, in_list}
use titlani.Server.State.{Local, Readings}
use titlani.Server.Commands.{
  Command, subscribe, unsubscribe, confirm, handle_subscribe, confirm_address, confirm_found,
  handle_confirm, handle_unsubscribe, run_command,
}

-- The state but for the tokens.
pub record KeepsBox {T : Type 0} (l l' : Local T) : Type 0 where
  pub box_kept : l'.box ≡ l.box
  pub replies_kept : l'.auto_reply_last_sent ≡ l.auto_reply_last_sent
  pub tasks_kept : l'.tasks ≡ l.tasks

-- No stored message, and no reply's time.
pub record KeepsMessages {T : Type 0} (l l' : Local T) : Type 0 where
  pub messages_kept : l'.box.messages ≡ l.box.messages
  pub replies_kept : l'.auto_reply_last_sent ≡ l.auto_reply_last_sent

module _ (rt : Runtime) {T : Type 0} (now : Readings) (mailbox : Text) where
  open rt use {lower}

  confirm_address-KeepsBox :
      (senders : List MisfinAddress) (addr : Text) (l : Local T)
      → (confirm_address rt senders addr l).0.status ≢ pos 20
      → KeepsBox l (confirm_address rt senders addr l).1
  unfolding confirm_address
  confirm_address-KeepsBox senders addr l n =
      elim (Bool-cases (in_list (lower addr) (map (λ s. lower (address s)) senders))) [
        | inl e ↦ absurd (n (rw e))
        | inr e ↦ record { box_kept = rw e; replies_kept = rw e; tasks_kept = rw e }
      ]

  confirm_found-KeepsBox :
      (senders : List MisfinAddress) (l : Local T) (left : TokenStore) (found : Option Text)
      → (confirm_found rt senders l left found).0.status ≢ pos 20
      → KeepsBox l (confirm_found rt senders l left found).1
  unfolding confirm_found
  confirm_found-KeepsBox senders l left none n = record {
    box_kept = refl;
    replies_kept = refl;
    tasks_kept = refl;
  }
  confirm_found-KeepsBox senders l left (some addr) n =
      let kept =
        confirm_address-KeepsBox senders addr (record l { subscription_store = some left }) n in
      record {
        box_kept = kept.box_kept;
        replies_kept = kept.replies_kept;
        tasks_kept = kept.tasks_kept;
      }

  confirm_found-KeepsMessages :
      (senders : List MisfinAddress) (l : Local T) (left : TokenStore) (found : Option Text)
      → KeepsMessages l (confirm_found rt senders l left found).1
  unfolding confirm_found confirm_address
  confirm_found-KeepsMessages senders l left none = record {
    messages_kept = refl;
    replies_kept = refl;
  }
  confirm_found-KeepsMessages senders l left (some addr) =
      elim (Bool-cases (in_list (lower addr) (map (λ s. lower (address s)) senders))) [
        | inl e ↦ record { messages_kept = rw e; replies_kept = rw e }
        | inr e ↦ record { messages_kept = rw e; replies_kept = rw e }
      ]

  -- A command that is not answered 20 leaves the mailbox, the replies and the tasks.
  pub run_command-KeepsBox :
      (senders : List MisfinAddress) (store : TokenStore) (l : Local T) (c : Command)
      → (run_command rt now mailbox senders store l c).0.status ≢ pos 20
      → KeepsBox l (run_command rt now mailbox senders store l c).1
  unfolding run_command handle_subscribe handle_confirm handle_unsubscribe
  run_command-KeepsBox [] store l subscribe n = record {
    box_kept = refl;
    replies_kept = refl;
    tasks_kept = refl;
  }
  run_command-KeepsBox [] store l unsubscribe n = record {
    box_kept = refl;
    replies_kept = refl;
    tasks_kept = refl;
  }
  run_command-KeepsBox (s ∷ ss) store l subscribe n =
      elim (Bool-cases
        (is_subscriber rt (lower (address s)) (load_subscribers rt l.box.subscribers))) [
          | inl e ↦ absurd (n (rw e))
          | inr e ↦ absurd (n (rw e))
        ]
  run_command-KeepsBox (s ∷ ss) store l unsubscribe n =
      elim (Bool-cases
        (is_subscriber rt (lower (address s)) (load_subscribers rt l.box.subscribers))) [
          | inl e ↦ absurd (n (rw e))
          | inr e ↦ record { box_kept = rw e; replies_kept = rw e; tasks_kept = rw e }
        ]
  run_command-KeepsBox senders store l (confirm token) n =
      confirm_found-KeepsBox senders l (verify_token rt store now.command_at mailbox token).1
        (verify_token rt store now.command_at mailbox token).0 n

  -- A command stores no message and counts for no reply.
  pub run_command-KeepsMessages :
      (senders : List MisfinAddress) (store : TokenStore) (l : Local T) (c : Command)
      → KeepsMessages l (run_command rt now mailbox senders store l c).1
  unfolding run_command handle_subscribe handle_confirm handle_unsubscribe
  run_command-KeepsMessages [] store l subscribe = record {
    messages_kept = refl;
    replies_kept = refl;
  }
  run_command-KeepsMessages [] store l unsubscribe = record {
    messages_kept = refl;
    replies_kept = refl;
  }
  run_command-KeepsMessages (s ∷ ss) store l subscribe =
      elim (Bool-cases
        (is_subscriber rt (lower (address s)) (load_subscribers rt l.box.subscribers))) [
          | inl e ↦ record { messages_kept = rw e; replies_kept = rw e }
          | inr e ↦ record { messages_kept = rw e; replies_kept = rw e }
        ]
  run_command-KeepsMessages (s ∷ ss) store l unsubscribe =
      elim (Bool-cases
        (is_subscriber rt (lower (address s)) (load_subscribers rt l.box.subscribers))) [
          | inl e ↦ record { messages_kept = rw e; replies_kept = rw e }
          | inr e ↦ record { messages_kept = rw e; replies_kept = rw e }
        ]
  run_command-KeepsMessages senders store l (confirm token) =
      confirm_found-KeepsMessages senders l (verify_token rt store now.command_at mailbox token).1
        (verify_token rt store now.command_at mailbox token).0
