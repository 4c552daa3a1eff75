-- ===== src/Verification/Wrapper/Required.antt =====
-- The mode REQUIRED of src/titlani/verification/handler.py.
use titlani.Base.{
  true, List, [], ◌∷◌, ◌==◌, none, ◌≡◌, ◌≢◌, refl, sym, arith, pos, Bool-cases, inl, inr, ◌⊎◌, ok,
  err, Result-cases, Option-cases, subst,
}
use titlani.Runtime.{Runtime}
use titlani.Protocol.Errors.{Error, is_value_error}
use titlani.Protocol.Request.{MisfinRequest, parse_message, version_c}
use titlani.Protocol.Response.{MisfinResponse}
use titlani.Content.Address.{MisfinAddress}
use titlani.Content.Gemmail.{GemmailMessage}
use titlani.Server.State.{State, Local, Config, Readings}
use titlani.Server.Delivery.{prepare_message, prepare_c, find_blocked_sender, collect_senders}
use titlani.Server.Handler
use titlani.Server.Handler.{deliver}
use titlani.Server.Handler.Cases.{handle_message-cases}
use titlani.Server.Handler.Safety.{KeepsMail, handle_message-KeepsMail}
use titlani.Verification.Outcome.{verified, required, VerificationMethod}
use titlani.Verification.Cache.{SenderVerificationCache}
use titlani.Verification.Wrapper.{
  Verifier, verify_sender, after_verification, check_senders, check_message, handle_message,
}

module _ (rt : Runtime) (config : Config) (now : Readings) (r : MisfinRequest rt.Cert) where
  open rt use {dt}

  -- The message of the request could be read, names a first sender, and the verifier accepts that
  -- sender, on the cache given.
  pub record IsVerified (verifier : Verifier) (c : SenderVerificationCache) : Type 0 where
    pub message : GemmailMessage dt.Time
    pub sender : MisfinAddress
    pub others : List MisfinAddress
    pub parsed : parse_message dt r ≡ ok message
    pub claimed : message.senders ≡ sender ∷ others
    pub accepted : verified (verify_sender rt verifier sender c).0 ≡ true

  KeepsMail-refl : (s : State dt.Time) → KeepsMail s s
  KeepsMail-refl s = record { mailboxes_kept = refl; replies_kept = refl; tasks_kept = refl }

  prepare_message-eq-none :
      {e : Error}
      → r.protocol_version ≡ version_c
      → parse_message dt r ≡ err e
      → is_value_error e ≡ true
      → prepare_message rt now r ≡ ok none
  unfolding prepare_message prepare_c
  prepare_message-eq-none {e} version failed ve = rw (prepare_message, version, failed, ve)

  deliver-invalid :
      (l : Local dt.Time) {answer : MisfinResponse} {done : Local dt.Time}
      → prepare_message rt now r ≡ ok none
      → deliver rt config now r l ≡ ok (answer, done)
      → answer.status ≢ pos 20
  unfolding deliver
  deliver-invalid l {answer} {done} none_left h =
      elim (Option-cases (find_blocked_sender rt l.box.blocked (collect_senders rt r))) [
        | inr (a, q) ↦ ground arith
        | inl q ↦ ground arith
      ]

  unread-KeepsMail :
      (s : State dt.Time) {e : Error} {answer : MisfinResponse} {s' : State dt.Time}
      → r.protocol_version ≡ version_c
      → parse_message dt r ≡ err e
      → is_value_error e ≡ true
      → Handler.handle_message rt config now r s ≡ ok (answer, s')
      → KeepsMail s s'
  unread-KeepsMail s version failed ve h = elim (handle_message-cases rt config now r s h) [
    | inl (kept, _) ↦ subst (KeepsMail s) (sym kept) (KeepsMail-refl s)
    | inr d ↦ handle_message-KeepsMail rt config now r s h (
        deliver-invalid (Handler.local s d.box) (prepare_message-eq-none version failed ve)
          d.delivered)
  ]

  empty-KeepsMail :
      (s : State dt.Time) {answer : MisfinResponse} {s' : State dt.Time}
      → r.content_length ≡ 0
      → Handler.handle_message rt config now r s ≡ ok (answer, s')
      → KeepsMail s s'
  unfolding Handler.handle_message
  empty-KeepsMail s {answer} {s'} empty h =
      let kept : s' ≡ s = ground arith in subst (KeepsMail s) (sym kept) (KeepsMail-refl s)

  check_senders-IsVerified :
      (method : VerificationMethod) (verifier : Verifier) (s : State dt.Time)
      (c c' : SenderVerificationCache) (m : GemmailMessage dt.Time) (senders : List MisfinAddress)
      {answer : MisfinResponse} {s' : State dt.Time}
      → parse_message dt r ≡ ok m
      → m.senders ≡ senders
      → check_senders rt required method verifier config now r s c senders ≡ (ok (answer, s'), c')
      → KeepsMail s s' ⊎ IsVerified verifier c
  unfolding check_senders after_verification
  check_senders-IsVerified method verifier s c c' m [] {answer} {s'} parsed claimed h =
      let kept : s' ≡ s = ground arith in inl (subst (KeepsMail s) (sym kept) (KeepsMail-refl s))
  check_senders-IsVerified method verifier s c c' m (sender ∷ others) {answer} {s'} parsed claimed
        h =
      elim (Bool-cases (verified (verify_sender rt verifier sender c).0)) [
        | inl e ↦ inr (record {
          message = m;
          sender = sender;
          others = others;
          parsed = parsed;
          claimed = claimed;
          accepted = e;
        })
        | inr e ↦
            let kept : s' ≡ s = ground arith in
            inl (subst (KeepsMail s) (sym kept) (KeepsMail-refl s))
      ]

  -- With verification required, a message of Misfin(C) that changes a mailbox, the times of the
  -- automatic replies or the tasks could be read and names a first sender whom the verifier accepts.
  pub handle_message-IsVerified :
      (method : VerificationMethod) (verifier : Verifier) (s : State dt.Time)
      (c : SenderVerificationCache) {answer : MisfinResponse} {s' : State dt.Time}
      {c' : SenderVerificationCache}
      → r.protocol_version ≡ version_c
      → handle_message rt required method verifier config now r s c ≡ (ok (answer, s'), c')
      → KeepsMail s s' ⊎ IsVerified verifier c
  unfolding handle_message check_message
  handle_message-IsVerified method verifier s c {answer} {s'} {c'} version h =
      elim (Bool-cases (r.content_length == 0)) [
        | inl e ↦ inl (empty-KeepsMail s {answer = answer} (ground arith) (ground arith))
        | inr e ↦ elim (Result-cases (parse_message dt r)) [
          | inl (m, parsed) ↦
              check_senders-IsVerified method verifier s c c' m m.senders {answer = answer} parsed
                refl (ground arith)
          | inr (x, failed) ↦ elim (Bool-cases (is_value_error x)) [
            | inl ve ↦ inl (unread-KeepsMail s {answer = answer} version failed ve (ground arith))
            | inr ve ↦ absurd (ground arith)
          ]
        ]
      ]
