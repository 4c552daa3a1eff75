-- ===== src/Tests/Verification.antt =====
-- The verification of senders at concrete inputs.
use titlani.Base.{
  ℕ, true, false, List, Result, err, [], ◌∷◌, none, some, ok, ◌≡◌, refl, arith, pos, ◌⊎◌,
}
use titlani.Str.Core.{Text, codes}
use titlani.Identity.{normalize_fingerprint}
use titlani.Protocol.Errors.{Error}
use titlani.Protocol.Status.{success, is_success}
use titlani.Protocol.Response.{MisfinResponse, fingerprint}
use titlani.Content.Address.{MisfinAddress, address}
use titlani.Server.State.{State}
use titlani.Server.Commands.{respond}
use titlani.Server.Handler.Safety.{KeepsMail}
use titlani.Verification.Outcome.{accepted, verified, fingerprint_of, required, probe}
use titlani.Verification.Cache.{
  SenderVerificationCache, select, upsert, delete_where, is_live, select_live, value_of,
  get_fingerprint, add_verified, revoke, cleanup, get_server_spki, get_last_server_spki,
  add_server_spki,
}
use titlani.Verification.Cache.Keys.{IsKeyed}
use titlani.Verification.Cache.Refinement.{
  Call, adds_verified, adds_spki, revokes, cleans_up, run, empty, promised, stays, value_in,
  cache-refines,
}
use titlani.Verification.Probe.{Answer, answered, Clock, on_answer, on_success, verify_by_probe}
use titlani.Verification.Probe.Cached.{IsProbed, verify_by_probe-verify_by_probe}
use titlani.Verification.Spki.{
  hash, reject, handle_spki_change, compare_spki, on_fetch, verify_by_spki,
}
use titlani.Verification.Spki.Trust.{Visit, verify_all, verify_by_spki-pinned}
use titlani.Verification.Combined.{combine, verify_by_both}
use titlani.Verification.Combined.Both.{verify_by_both_comm}
use titlani.Verification.Wrapper
use titlani.Verification.Wrapper.{
  probe_verifier, verify_sender, after_verification, check_senders, check_message,
}
use titlani.Verification.Wrapper.Required.{IsVerified, handle_message-IsVerified}
use titlani.Tests.Machine.{handlers, machine}
use titlani.Tests.Server.{config, now, state, mail}

unfoldable verifiers : Unit {0}
unfolding handlers select upsert delete_where is_live select_live value_of get_fingerprint
    add_verified cleanup get_server_spki get_last_server_spki add_server_spki on_answer on_success
    verify_by_probe handle_spki_change compare_spki on_fetch verify_by_spki combine verify_by_both
    verify_sender after_verification check_senders check_message Wrapper.handle_message verify_all
    run empty revoke is_success fingerprint
verifiers = tt

abbrev alice : MisfinAddress
alice = record { mailbox = codes "a"; hostname = codes "b"; blurb = [] }

abbrev at : ℕ → Clock
at n = record { read_at = n; written_at = n }

-- the server of the sender knows the mailbox, or asks for another address
abbrev known : Answer
known = answered (record { status = pos 20; meta = codes "AB" })

abbrev moved : Answer
moved = answered (record { status = pos 30; meta = codes "c@d" })

abbrev nothing : SenderVerificationCache
nothing = record { verified_senders = []; server_spki = []; ttl_seconds = 60 }

abbrev calls : List Call
calls =
    adds_verified 1 (codes "a@b") (codes "ab")
    ∷ adds_spki 2 (codes "b") (codes "f")
    ∷ revokes (codes "c@d")
    ∷ cleans_up 70000000
    ∷ []

cache-refines_example :
    let c = run calls (empty 60) in
    let m = promised 60 calls ((λ j. none), (λ j. none)) in
    (get_fingerprint c 3 (codes "a@b") ≡ value_in (stays 60 3 (m.0 (codes "a@b"))))
    × (get_server_spki c 3 (codes "a@b") ≡ value_in (stays 60 3 (m.1 (codes "a@b"))))
    × (get_last_server_spki c (codes "a@b") ≡ value_in (m.1 (codes "a@b")))
cache-refines_example = cache-refines 60 3 calls (codes "a@b")

-- An entry outlives `cleanup` by its lifetime only, and the known key of a server with it.
cleanup-forgets : get_last_server_spki (run calls (empty 60)) (codes "b") ≡ none
unfolding verifiers
cleanup-forgets = refl

unknown : get_fingerprint nothing 5 (address alice) ≡ none
unfolding verifiers
unknown = refl

abbrev first : SenderVerificationCache
first = (verify_by_probe machine (at 5) known alice nothing).1

probe-runs :
    verify_by_probe machine (at 5) known alice nothing ≡ (accepted (codes "ab") false, first)
unfolding verifiers
probe-runs = refl

verify_by_probe-verify_by_probe_example :
    (p : IsProbed machine (at 5) known alice nothing (accepted (codes "ab") false) first)
    × (verify_by_probe machine (at 9) moved alice first
        ≡ (accepted (normalize_fingerprint machine p.raw) true, first))
verify_by_probe-verify_by_probe_example =
    verify_by_probe-verify_by_probe machine (at 5) (at 9) known moved alice nothing unknown
      probe-runs refl (omega arith)

abbrev pinned : SenderVerificationCache
pinned = add_server_spki nothing 1 (codes "b") (codes "f")

abbrev visit : ℕ → Text → Visit
visit n key = record { clock = at n; fetch = hash key; sender = alice }

pinned-last : get_last_server_spki pinned (codes "b") ≡ some (codes "f")
unfolding verifiers
pinned-last = refl

pinned-table : IsKeyed pinned.server_spki
unfolding verifiers
pinned-table = (refl, tt)

still-verified :
    verified
      (verify_by_spki reject
        (at 90000000)
        (hash (codes "f"))
        alice
        (verify_all reject (visit 80000000 (codes "g") ∷ []) pinned)).0
    ≡ true
unfolding verifiers
still-verified = refl

verify_by_spki-pinned_example :
    fingerprint_of
      (verify_by_spki reject
        (at 90000000)
        (hash (codes "f"))
        alice
        (verify_all reject (visit 80000000 (codes "g") ∷ []) pinned)).0
    ≡ some (codes "f")
verify_by_spki-pinned_example =
    verify_by_spki-pinned pinned (codes "f") (visit 80000000 (codes "g") ∷ [])
      (visit 90000000 (codes "f")) pinned-table pinned-last still-verified

verify_by_both_comm_example :
    verify_by_both machine reject (at 5) known (hash (codes "f")) alice nothing ≡ (
      let (s, c') = verify_by_spki reject (at 5) (hash (codes "f")) alice nothing in
      let (p, c'') = verify_by_probe machine (at 5) known alice c' in (combine p s, c''))
verify_by_both_comm_example =
    verify_by_both_comm machine reject (at 5) known (hash (codes "f")) alice nothing

abbrev handled : (Result Error (MisfinResponse × State ℕ)) × SenderVerificationCache
handled =
    Wrapper.handle_message machine required probe (probe_verifier (at 5) known) config now mail
      state nothing

abbrev outcome : MisfinResponse × State ℕ
outcome = elim handled.0 [ ok done ↦ done | err _ ↦ (respond success [], state) ]

mail-verified : handled ≡ (ok (outcome.0, outcome.1), first)
unfolding verifiers
mail-verified = refl

handle_message-IsVerified_example :
    KeepsMail state outcome.1
    ⊎ IsVerified machine config now mail (probe_verifier (at 5) known) nothing
handle_message-IsVerified_example =
    handle_message-IsVerified machine config now mail probe (probe_verifier (at 5) known) state
      nothing refl mail-verified
