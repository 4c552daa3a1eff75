-- ===== src/Verification/Combined/Both.antt =====
-- The two checks of src/titlani/verification/combined_verifier.py, which runs them concurrently, do
-- not interfere.
use titlani.Base.{
  List, Option, none, some, ◌≡◌, refl, ap, sym, ◌∙◌, Option-cases, inl, inr, Bool-cases,
}
use titlani.Str.Core.{Text, same}
use titlani.Runtime.{Runtime}
use titlani.Protocol.Status.{is_success}
use titlani.Protocol.Response.{fingerprint}
use titlani.Content.Address.{MisfinAddress, address}
use titlani.Verification.Outcome.{VerificationResult}
use titlani.Verification.Cache.{
  Row, SenderVerificationCache, get_fingerprint, add_verified, get_server_spki,
  get_last_server_spki, add_server_spki,
}
use titlani.Verification.Probe
use titlani.Verification.Spki
use titlani.Verification.Probe.{Answer, answered, Clock, on_success, on_answer, verify_by_probe}
use titlani.Verification.Spki.{
  Fetch, hash, no_certificate, OnChange, accept, reject, handle_spki_change, compare_spki, on_fetch,
  verify_by_spki,
}
use titlani.Verification.Combined.{combine, verify_by_both}

-- The cache with another table.
abbrev with_senders : List Row → SenderVerificationCache → SenderVerificationCache
with_senders rows c = record c { verified_senders = rows }

abbrev with_spki : List Row → SenderVerificationCache → SenderVerificationCache
with_spki rows c = record c { server_spki = rows }

-- A pair with its cache changed.
abbrev then_with :
    (SenderVerificationCache → SenderVerificationCache)
    → VerificationResult × SenderVerificationCache
    → VerificationResult × SenderVerificationCache
then_with f p = (p.0, f p.1)

compare_spki-with_senders :
    (on_change : OnChange) (clock : Clock) (h current : Text) (last : Option Text) (rows : List Row)
    (c : SenderVerificationCache)
    → compare_spki on_change clock h current last (with_senders rows c)
      ≡ then_with (with_senders rows) (compare_spki on_change clock h current last c)
unfolding compare_spki handle_spki_change add_server_spki
compare_spki-with_senders on_change clock h current none rows c = refl
compare_spki-with_senders accept clock h current (some t) rows c =
    elim (Bool-cases (same current t)) [ inl e ↦ rw e | inr e ↦ rw e ]
compare_spki-with_senders reject clock h current (some t) rows c =
    elim (Bool-cases (same current t)) [ inl e ↦ rw e | inr e ↦ rw e ]

on_fetch-with_senders :
    (on_change : OnChange) (clock : Clock) (h : Text) (fetch : Fetch) (rows : List Row)
    (c : SenderVerificationCache)
    → on_fetch on_change clock h fetch (with_senders rows c)
      ≡ then_with (with_senders rows) (on_fetch on_change clock h fetch c)
unfolding on_fetch get_last_server_spki
on_fetch-with_senders on_change clock h Spki.timed_out rows c = refl
on_fetch-with_senders on_change clock h (Spki.failed text) rows c = refl
on_fetch-with_senders on_change clock h no_certificate rows c = refl
on_fetch-with_senders on_change clock h (hash current) rows c =
    compare_spki-with_senders on_change clock h current (get_last_server_spki c h) rows c

verify_by_spki-with_senders :
    (on_change : OnChange) (clock : Clock) (a : MisfinAddress) (fetch : Fetch) (rows : List Row)
    (c : SenderVerificationCache)
    → verify_by_spki on_change clock fetch a (with_senders rows c)
      ≡ then_with (with_senders rows) (verify_by_spki on_change clock fetch a c)
unfolding verify_by_spki get_server_spki
verify_by_spki-with_senders on_change clock a fetch rows c =
    elim (Option-cases (get_server_spki c clock.read_at a.hostname)) [
      | inl e ↦
          rw (verify_by_spki, e, on_fetch-with_senders on_change clock a.hostname fetch rows c)
      | inr (v, e) ↦ rw (verify_by_spki, e)
    ]

-- A check leaves the other's table, and the lifetime.
abbrev SparesSenders : SenderVerificationCache → SenderVerificationCache → Type 0
SparesSenders c c' = c' ≡ with_spki c'.server_spki c

abbrev SparesSpki : SenderVerificationCache → SenderVerificationCache → Type 0
SparesSpki c c' = c' ≡ with_senders c'.verified_senders c

compare_spki-SparesSenders :
    (on_change : OnChange) (clock : Clock) (h current : Text) (last : Option Text)
    (c : SenderVerificationCache)
    → SparesSenders c (compare_spki on_change clock h current last c).1
unfolding compare_spki handle_spki_change add_server_spki
compare_spki-SparesSenders on_change clock h current none c = refl
compare_spki-SparesSenders accept clock h current (some t) c = elim (Bool-cases (same current t)) [
  | inl e ↦ rw e
  | inr e ↦ rw e
]
compare_spki-SparesSenders reject clock h current (some t) c = elim (Bool-cases (same current t)) [
  | inl e ↦ rw e
  | inr e ↦ rw e
]

on_fetch-SparesSenders :
    (on_change : OnChange) (clock : Clock) (h : Text) (fetch : Fetch) (c : SenderVerificationCache)
    → SparesSenders c (on_fetch on_change clock h fetch c).1
unfolding on_fetch
on_fetch-SparesSenders on_change clock h Spki.timed_out c = refl
on_fetch-SparesSenders on_change clock h (Spki.failed text) c = refl
on_fetch-SparesSenders on_change clock h no_certificate c = refl
on_fetch-SparesSenders on_change clock h (hash current) c =
    compare_spki-SparesSenders on_change clock h current (get_last_server_spki c h) c

verify_by_spki-SparesSenders :
    (on_change : OnChange) (clock : Clock) (a : MisfinAddress) (fetch : Fetch)
    (c : SenderVerificationCache)
    → SparesSenders c (verify_by_spki on_change clock fetch a c).1
unfolding verify_by_spki
verify_by_spki-SparesSenders on_change clock a fetch c =
    elim (Option-cases (get_server_spki c clock.read_at a.hostname)) [
      | inl e ↦ rw (verify_by_spki, e) (on_fetch-SparesSenders on_change clock a.hostname fetch c)
      | inr (v, e) ↦ rw (verify_by_spki, e)
    ]

module _ (rt : Runtime) where
  on_answer-with_spki :
      (clock : Clock) (a : Text) (answer : Answer) (rows : List Row) (c : SenderVerificationCache)
      → on_answer rt clock a answer (with_spki rows c)
        ≡ then_with (with_spki rows) (on_answer rt clock a answer c)
  unfolding on_answer on_success add_verified
  on_answer-with_spki clock a Probe.timed_out rows c = refl
  on_answer-with_spki clock a (Probe.failed text) rows c = refl
  on_answer-with_spki clock a (answered r) rows c = elim (Bool-cases (is_success r.status)) [
    | inr e ↦ rw e
    | inl e ↦ elim (Option-cases (fingerprint r)) [ inl f ↦ rw (e, f) | inr (raw, f) ↦ rw (e, f) ]
  ]

  verify_by_probe-with_spki :
      (clock : Clock) (a : MisfinAddress) (answer : Answer) (rows : List Row)
      (c : SenderVerificationCache)
      → verify_by_probe rt clock answer a (with_spki rows c)
        ≡ then_with (with_spki rows) (verify_by_probe rt clock answer a c)
  unfolding verify_by_probe get_fingerprint
  verify_by_probe-with_spki clock a answer rows c =
      elim (Option-cases (get_fingerprint c clock.read_at (address a))) [
        | inl e ↦ rw (verify_by_probe, e, on_answer-with_spki clock (address a) answer rows c)
        | inr (fp, e) ↦ rw (verify_by_probe, e)
      ]

  on_answer-SparesSpki :
      (clock : Clock) (a : Text) (answer : Answer) (c : SenderVerificationCache)
      → SparesSpki c (on_answer rt clock a answer c).1
  unfolding on_answer on_success add_verified
  on_answer-SparesSpki clock a Probe.timed_out c = refl
  on_answer-SparesSpki clock a (Probe.failed text) c = refl
  on_answer-SparesSpki clock a (answered r) c = elim (Bool-cases (is_success r.status)) [
    | inr e ↦ rw e
    | inl e ↦ elim (Option-cases (fingerprint r)) [ inl f ↦ rw (e, f) | inr (raw, f) ↦ rw (e, f) ]
  ]

  verify_by_probe-SparesSpki :
      (clock : Clock) (a : MisfinAddress) (answer : Answer) (c : SenderVerificationCache)
      → SparesSpki c (verify_by_probe rt clock answer a c).1
  unfolding verify_by_probe
  verify_by_probe-SparesSpki clock a answer c =
      elim (Option-cases (get_fingerprint c clock.read_at (address a))) [
        | inl e ↦ rw (verify_by_probe, e) (on_answer-SparesSpki clock (address a) answer c)
        | inr (fp, e) ↦ rw (verify_by_probe, e)
      ]

  -- The two checks of one sender: running the SPKI check first, on the cache as it was, gives both
  -- results and the cache that `verify_by_both` gives.
  pub verify_by_both_comm :
      (on_change : OnChange) (clock : Clock) (answer : Answer) (fetch : Fetch) (a : MisfinAddress)
      (c : SenderVerificationCache)
      → verify_by_both rt on_change clock answer fetch a c ≡ (
          let (s, c') = verify_by_spki on_change clock fetch a c in
          let (p, c'') = verify_by_probe rt clock answer a c' in (combine p s, c''))
  unfolding verify_by_both
  verify_by_both_comm on_change clock answer fetch a c =
      let (p, c') = verify_by_probe rt clock answer a c in
      let (s, d) = verify_by_spki on_change clock fetch a c in
      let after_probe : verify_by_spki on_change clock fetch a c'
          ≡ (s, with_senders c'.verified_senders d) =
        ap (verify_by_spki on_change clock fetch a) (verify_by_probe-SparesSpki clock a answer c)
        ∙ verify_by_spki-with_senders on_change clock a fetch c'.verified_senders c in
      let after_spki : verify_by_probe rt clock answer a d ≡ (p, with_spki d.server_spki c') =
        ap (verify_by_probe rt clock answer a)
          (verify_by_spki-SparesSenders on_change clock a fetch c)
        ∙ verify_by_probe-with_spki clock a answer d.server_spki c in
      let met : with_senders c'.verified_senders d ≡ with_spki d.server_spki c' =
        ap (with_senders c'.verified_senders)
          (verify_by_spki-SparesSenders on_change clock a fetch c)
        ∙ sym (ap (with_spki d.server_spki) (verify_by_probe-SparesSpki clock a answer c)) in
      rw (verify_by_both, after_probe, after_spki, met)
