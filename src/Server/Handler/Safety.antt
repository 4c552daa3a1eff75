-- ===== src/Server/Handler/Safety.antt =====
-- What `handle_message` in src/titlani/server/handler.py leaves alone.
use titlani.Base.{
  true, false, List, [], ◌∷◌, ◌==◌, some, ◌≡◌, ◌≢◌, refl, ap, sym, ◌∙◌, arith, Bool-cases, inl, inr,
  ok, Result-cases, pos, any, subst,
}
use titlani.Str.Core.{Text, Bytes, codes, same, same_iff}
use titlani.Runtime.{Runtime}
use titlani.Protocol.Status.{unauthorized_sender}
use titlani.Protocol.Request.{MisfinRequest}
use titlani.Protocol.Response.{MisfinResponse}
use titlani.Content.Address.{MisfinAddress, address}
use titlani.Server.Lists.{in_list}
use titlani.Server.State.{Mailbox, Local, State, Config, Readings, lookup}
use titlani.Server.State.Dict.{insert-lookup}
use titlani.Server.Commands.{respond}
use titlani.Server.Commands.Effect.{KeepsBox, run_command-KeepsBox}
use titlani.Server.Delivery.{collect_senders, find_blocked_sender, first_blocked, blocked_addresses}
use titlani.Server.Handler.{
  validate_mailbox, local, merge, keep_message, accept, deliver, handle_message,
}
use titlani.Server.Handler.Cases.{
  validate_mailbox-eq-ok, handle_message-cases, IsOutcome, refused, commanded, accepted,
  deliver-IsOutcome,
}

-- The state but for the tokens.
pub record KeepsMail {T : Type 0} (s s' : State T) : Type 0 where
  pub mailboxes_kept : s'.mailboxes ≡ s.mailboxes
  pub replies_kept : s'.auto_reply_last_sent ≡ s.auto_reply_last_sent
  pub tasks_kept : s'.tasks ≡ s.tasks

module _ (rt : Runtime) (config : Config) (now : Readings) (r : MisfinRequest rt.Cert) where
  open rt use {dt}

  merge-KeepsMail :
      (s : State dt.Time) (box : Mailbox) (l : Local dt.Time)
      → lookup r.mailbox s.mailboxes ≡ some box
      → KeepsBox (local s box) l
      → KeepsMail s (merge r.mailbox s l)
  unfolding local merge
  merge-KeepsMail s box l found kept = record {
    mailboxes_kept = rw kept.box_kept (insert-lookup r.mailbox s.mailboxes found);
    replies_kept = kept.replies_kept;
    tasks_kept = kept.tasks_kept;
  }

  accept-status :
      (raw : Bytes) (l : Local dt.Time) {answer : MisfinResponse} {done : Local dt.Time}
      → accept rt config now r.mailbox raw r l ≡ ok (answer, done)
      → answer.status ≡ pos 20
  unfolding accept
  accept-status raw l h = elim (Result-cases (keep_message rt config now r.mailbox raw r l)) [
    | inl (stored, q) ↦ ground arith
    | inr (e, q) ↦ absurd (ground arith)
  ]

  IsOutcome-KeepsBox :
      (l : Local dt.Time) {answer : MisfinResponse} {done : Local dt.Time}
      → answer.status ≢ pos 20
      → IsOutcome rt config now r l answer done
      → KeepsBox l done
  IsOutcome-KeepsBox l n (refused _ e) =
      subst (KeepsBox l) (sym e)
        (record { box_kept = refl; replies_kept = refl; tasks_kept = refl })
  IsOutcome-KeepsBox l n (commanded store c active e) =
      subst (λ p. KeepsBox l p.1) (sym e)
        (run_command-KeepsBox rt now r.mailbox (collect_senders rt r) store l c
          (λ q. n (ap (λ p. p.0.status) e ∙ q)))
  IsOutcome-KeepsBox l n (accepted raw free prepared checked e) = absurd (n (accept-status raw l e))

  -- A message whose answer is not 20 changes no mailbox, is not counted for an automatic reply and
  -- starts no task.
  pub handle_message-KeepsMail :
      (s : State dt.Time) {answer : MisfinResponse} {s' : State dt.Time}
      → handle_message rt config now r s ≡ ok (answer, s')
      → answer.status ≢ pos 20
      → KeepsMail s s'
  handle_message-KeepsMail s {answer} {s'} h n = elim (handle_message-cases rt config now r s h) [
    | inl (e, _) ↦
        subst (KeepsMail s) (sym e)
          (record { mailboxes_kept = refl; replies_kept = refl; tasks_kept = refl })
    | inr d ↦
        let (_, _, found) = validate_mailbox-eq-ok config r.mailbox s d.valid in
        subst (KeepsMail s) (sym d.merged) (
          merge-KeepsMail s d.box d.done found (
            IsOutcome-KeepsBox (local s d.box) n
              (deliver-IsOutcome rt config now r (local s d.box) d.delivered)))
  ]

  first_blocked-some :
      (blocked : List Text) (senders : List MisfinAddress)
      → any (λ s. in_list (rt.lower (address s)) blocked) senders ≡ true
      → (a : MisfinAddress) × (first_blocked rt blocked senders ≡ some a)
  unfolding first_blocked
  first_blocked-some blocked [] h = cc
  first_blocked-some blocked (s ∷ ss) h =
      elim (Bool-cases (in_list (rt.lower (address s)) blocked)) [
        | inl e ↦ (s, rw e)
        | inr e ↦ let (a, q) = first_blocked-some blocked ss (ground arith) in (a, ground arith)
      ]

  deliver-blocked :
      (l : Local dt.Time) (a : MisfinAddress)
      → find_blocked_sender rt l.box.blocked (collect_senders rt r) ≡ some a
      → deliver rt config now r l ≡ ok (respond unauthorized_sender (codes "Sender blocked"), l)
  unfolding deliver
  deliver-blocked l a q = rw (q, deliver)

  -- A message of another length than 0 for the served host, to a mailbox that passes the test and
  -- exists, with a sender (by its certificate or by its own claim) whose address stands on the block
  -- list of the mailbox, is answered 61 and changes nothing.
  pub handle_message-blocked :
      (s : State dt.Time) (box : Mailbox)
      → r.hostname ≡ config.hostname
      → r.content_length ≢ 0
      → validate_mailbox config r.mailbox s ≡ ok box
      → any
          (λ a. in_list (rt.lower (address a)) (blocked_addresses rt box.blocked))
          (collect_senders rt r)
        ≡ true
      → handle_message rt config now r s
        ≡ ok (respond unauthorized_sender (codes "Sender blocked"), s)
  unfolding handle_message find_blocked_sender local merge
  handle_message-blocked s box host body valid blocked =
      let served : same r.hostname config.hostname ≡ true =
        (same_iff r.hostname config.hostname).1 host in
      let sized : (r.content_length == 0) ≡ false = ground arith in
      let (a, q) =
        first_blocked-some (blocked_addresses rt box.blocked) (collect_senders rt r) blocked in
      let (_, _, found) = validate_mailbox-eq-ok config r.mailbox s valid in
      rw (
        served,
        sized,
        valid,
        deliver-blocked (local s box) a q,
        insert-lookup r.mailbox s.mailboxes found,
      )
