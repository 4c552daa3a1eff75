-- ===== src/Tests/Replies.antt =====
-- Automatic replies at concrete inputs.
use titlani.Base.{ℕ, true, false, [], ◌∷◌, none, ◌≡◌, refl, arith, length}
use titlani.Str.Core.{Text, codes, contains}
use titlani.Content.Address.{MisfinAddress, address}
use titlani.Content.Gemmail.{GemmailMessage, subject}
use titlani.Server.Lists.{exists}
use titlani.Server.State.{Local, lookup}
use titlani.Server.Delivery.{auto_reply, reply_due, subject_or_empty}
use titlani.Server.Delivery.RateLimit.{Arrival, arrive, arrive_all, auto_reply-once}
use titlani.Tests.Machine.{handlers, machine}
use titlani.Tests.Server.{config, now, box}

abbrev sender : Text → MisfinAddress
sender mailbox = record { mailbox = mailbox; hostname = codes "b"; blurb = [] }

abbrev message : Text → GemmailMessage ℕ
message mailbox = record {
  senders = sender mailbox ∷ [];
  recipients = [];
  timestamps = [];
  body = codes "hi\n";
}

abbrev before : Local ℕ
before = record { box = box; subscription_store = none; auto_reply_last_sent = []; tasks = [] }

abbrev arrival : ℕ → Text → Arrival machine config
arrival at mailbox = record {
  readings = record now { replied_at = at };
  mailbox = codes "m";
  box = box;
  message = message mailbox;
}

there : exists box.auto_reply ≡ true
unfolding handlers
there = refl

plain :
    contains (codes "[Auto-Reply]") (subject_or_empty machine (subject (message (codes "a"))))
    ≡ false
unfolding handlers
plain = refl

due :
    reply_due machine config.auto_reply_interval 4
      (lookup (machine.lower (address (sender (codes "a")))) before.auto_reply_last_sent)
    ≡ true
unfolding handlers
due = refl

same_sender :
    machine.lower (address (sender (codes "A"))) ≡ machine.lower (address (sender (codes "a")))
unfolding handlers
same_sender = refl

-- another sender is answered in between
auto_reply-once_example :
    let done =
      arrive_all machine config
        (arrival 7 (codes "c") ∷ [])
        (arrive machine config (arrival 4 (codes "a")) before) in
    arrive machine config (arrival 10000003 (codes "A")) done ≡ record done { box = box }
auto_reply-once_example =
    auto_reply-once machine config (arrival 4 (codes "a")) (arrival 10000003 (codes "A"))
      (arrival 7 (codes "c") ∷ []) (sender (codes "a")) (sender (codes "A")) [] [] before refl refl
      same_sender there plain due (omega arith, (omega arith, tt))

replies-started :
    length
      (arrive_all machine config
        (arrival 4 (codes "a") ∷ arrival 7 (codes "c") ∷ arrival 10000003 (codes "A") ∷ [])
        before).tasks
    ≡ 2
unfolding handlers auto_reply arrive arrive_all
replies-started = refl
