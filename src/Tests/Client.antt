-- ===== src/Tests/Client.antt =====
-- The client at concrete inputs.
use titlani.Base.{
  ℕ, suc, ◌+◌, ◌*◌, ◌≤◌, Bool, true, false, [], ◌∷◌, ◌==◌, List, Option, none, some, if◌then◌else◌,
  length, Result, ok, err, ◌≡◌, ◌≢◌, refl, ap, sym, ◌∙◌, arith, pos, Bool-cases, inl, inr, ◌⊎◌,
}
use titlani.Str.Core.{Text, Bytes, codes, same, same_iff, same-false}
use titlani.Str.Number.{digit_in, digit_value}
use titlani.Protocol.Constants.{max_redirects, max_response_size}
use titlani.Protocol.Status.{success, is_redirect}
use titlani.Protocol.Request
use titlani.Protocol.Request.{to_bytes_b}
use titlani.Protocol.Response.{MisfinResponse, redirect_address, from_line, status_and_meta}
use titlani.Server.Commands.{respond}
use titlani.Server.State.{lookup, insert}
use titlani.Server.State.Dict.{lookup-insert, lookup-insert_other}
use titlani.Client.RetryDelay.{base_delay, seconds, search_delay, parse_retry_delay}
use titlani.Client.{
  Tofu, Attempt, connected, replied, Event, Raised, MisfinClient, Session, has_status,
  is_fallback_status, dial, check_certificate, await_reply, on_attempt, send_request_once, wait,
  retry, on_attempt_b, send_request_b, settle, send_to, send_request, send_raw,
}
use titlani.Client.Bounds.{connections, send_raw-connections}
use titlani.Client.Redirects.{send_raw-redirect_address}
use titlani.Client.Certificates.{TofuLaws}
use titlani.Client.Trust.{last_shown, send_raw-pinned}
use titlani.Client.Protocol
use titlani.Client.Protocol.{Settled, response, connection_made, connection_lost, new}
use titlani.Client.Protocol.Chunks.{
  receive_all, whole, answer_in, final_answer, receive_all-answer_in,
}
use titlani.Tests.Machine.{handlers, machine}

unfoldable clients : Unit {0}
unfolding handlers digit_in digit_value search_delay parse_retry_delay has_status is_fallback_status
    dial check_certificate await_reply on_attempt send_request_once wait retry on_attempt_b
    send_request_b settle send_to send_request send_raw connections is_redirect redirect_address
    Request.to_bytes to_bytes_b from_line status_and_meta
clients = tt

delay-read : parse_retry_delay (codes "wait 15 s") ≡ seconds 15
unfolding clients
delay-read = refl

delay-missing : parse_retry_delay (codes "1 2 minutes") ≡ base_delay
unfolding clients
delay-missing = refl

-- a database of fingerprints by host
abbrev compared : Bool → Bool × Text
compared true = (true, [])
compared false = (false, codes "changed")

abbrev verdict : Text → Option Text → Bool × Text
verdict fp none = (true, codes "first_use")
verdict fp (some known) = compared (same fp known)

abbrev pins : Tofu (Text × Text × Text)
pins = record {
  Db = List (Text × Text);
  verify = λ db hostname cert. verdict cert.0 (lookup hostname db);
  trust = λ db hostname cert. insert hostname cert.0 db;
  known_fingerprint = λ db hostname. lookup hostname db;
}

abbrev first : Text → ℕ
first [] = 0
first (c ∷ t) = c

compared-first_use : (b : Bool) → (compared b).1 ≢ codes "first_use"
compared-first_use true h = omega (arith, ap first h)
compared-first_use false h = omega (arith, ap first h)

verdict-first_use : (fp : Text) (o : Option Text) → (verdict fp o).1 ≡ codes "first_use" → o ≡ none
verdict-first_use fp none h = refl
verdict-first_use fp (some known) h = absurd (compared-first_use (same fp known) h)

insert-lookup_any :
    (db : List (Text × Text)) (hostname fp other : Text)
    → lookup other (insert hostname fp db)
      ≡ (if same hostname other then some fp else lookup other db)
insert-lookup_any db hostname fp other = elim (Bool-cases (same hostname other)) [
  | inl e ↦
      let q : hostname ≡ other = (same_iff hostname other).0 e in
      rw e (ap (λ k. lookup k (insert hostname fp db)) (sym q) ∙ lookup-insert hostname fp db)
  | inr e ↦ rw e (
      lookup-insert_other other hostname fp db
        (λ q. ground (arith, (same_iff hostname other).1 (sym q))))
]

abbrev pins_laws : TofuLaws machine.certificate_fingerprint pins
pins_laws = record {
  pinned = λ db hostname. lookup hostname db;
  tells_change = λ db hostname cert fp known differs.
      ap (verdict cert.0) known ∙ ap compared (same-false cert.0 fp differs);
  tells_first_use = λ db hostname cert h. verdict-first_use cert.0 (lookup hostname db) h;
  replaces = λ db hostname cert other. insert-lookup_any db hostname cert.0 other;
}

-- the server asks to wait, sends to another address, and accepts there
abbrev cert : Text × Text × Text
cert = (codes "fp", codes "h", [])

abbrev network : List Event → Attempt (Text × Text × Text)
network trace =
    if length trace == 1
    then connected (some cert) (replied (record { status = pos 44; meta = codes "5 s" }))
    else if length trace == 3
    then connected (some cert) (replied (record { status = pos 30; meta = codes "c@h" }))
    else connected (some cert) (replied (record { status = pos 20; meta = codes "ab" }))

abbrev client : MisfinClient
client = record { max_retries = 3; misfin_b_fallback = false }

abbrev session : Session (List (Text × Text))
session = record { trace = []; tofu_db = some ((codes "h", codes "fp") ∷ []) }

abbrev sent : Result Raised MisfinResponse × Session (List (Text × Text))
sent = send_raw machine pins client network (codes "a@h") (codes "x") session

abbrev answer : MisfinResponse
answer = elim sent.0 [ ok r ↦ r | err _ ↦ respond success [] ]

sent-runs : sent ≡ (ok answer, sent.1)
unfolding clients
sent-runs = refl

send_raw-connections_example :
    connections sent.1.trace
    ≤ connections session.trace + (suc max_redirects * suc client.max_retries + 1)
send_raw-connections_example =
    send_raw-connections machine pins client network (codes "a@h") (codes "x") session

send_raw-redirect_address_example : redirect_address answer ≡ none
send_raw-redirect_address_example =
    send_raw-redirect_address machine pins client network (codes "a@h") (codes "x") session refl
      sent-runs

known : lookup (codes "h") ((codes "h", codes "fp") ∷ []) ≡ some (codes "fp")
unfolding clients
known = refl

send_raw-pinned_example :
    ((db' : List (Text × Text)) × (sent.1.tofu_db ≡ some db')
      × (lookup (codes "h") db' ≡ some (codes "fp")))
    × ((last_shown machine pins client network pins_laws (codes "h") (codes "fp") sent.1.trace
          ≡ none)
        ⊎ ((c : Text × Text × Text) × (last_shown machine pins client network pins_laws
                (codes "h")
                (codes "fp")
                sent.1.trace
              ≡ some c)
            × (machine.certificate_fingerprint c ≡ codes "fp")))
send_raw-pinned_example =
    send_raw-pinned machine pins client network pins_laws (codes "h") (codes "fp") (codes "a@h")
      (codes "x") session ((codes "h", codes "fp") ∷ []) refl refl known sent-runs

-- the last connection was to the host and has shown its certificate
shown :
    last_shown machine pins client network pins_laws (codes "h") (codes "fp") sent.1.trace
    ≡ some cert
unfolding clients last_shown
shown = refl

abbrev pieces : List Bytes
pieces = codes "20 a" ∷ codes "b\r" ∷ codes "\n" ∷ []

pieces-short : length (whole pieces) ≤ max_response_size
unfolding whole
pieces-short = omega arith

pieces-answer :
    answer_in (whole pieces) ≡ some (response (record { status = pos 20; meta = codes "ab" }))
unfolding clients answer_in whole Protocol.parse_line
pieces-answer = refl

receive_all-answer_in_example :
    let c = receive_all pieces (connection_made (new (codes "misfin://c@h\t0\r\n"))) in
    (c.response_future ≡ answer_in (whole pieces))
    × ((connection_lost none c).response_future ≡ some (final_answer (whole pieces) none))
receive_all-answer_in_example =
    receive_all-answer_in (codes "misfin://c@h\t0\r\n") pieces none pieces-short
