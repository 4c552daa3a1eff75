-- ===== src/Verification/Probe/Cached.antt =====
-- A probe of src/titlani/verification/verifier.py that succeeded is remembered.
use titlani.Base.{
  ℕ, ◌+◌, ◌*◌, ◌≤◌, true, false, List, [], ◌∷◌, none, some, leb, ◌≡◌, refl, ap, ◌∙◌, arith,
  Option-cases, inl, inr, Bool-cases,
}
use titlani.Str.Core.{Text, same, same_self}
use titlani.Runtime.{Runtime}
use titlani.Identity.{normalize_fingerprint}
use titlani.Protocol.Status.{is_success}
use titlani.Protocol.Response.{MisfinResponse, fingerprint}
use titlani.Content.Address.{MisfinAddress, address}
use titlani.Verification.Outcome.{VerificationResult, verified, accepted}
use titlani.Verification.Cache.{
  Row, SenderVerificationCache, upsert, is_live, select_live, value_of, get_fingerprint,
  add_verified,
}
use titlani.Verification.Probe.{
  Answer, answered, timed_out, failed, Clock, on_success, on_answer, verify_by_probe,
}

select_live-upsert :
    (ttl now : ℕ) (row : Row) (rs : List Row)
    → is_live ttl now row ≡ true
    → select_live ttl now row.key (upsert row rs) ≡ some row
unfolding select_live upsert
select_live-upsert ttl now row [] live = rw (same_self row.key, live)
select_live-upsert ttl now row (r ∷ rs) live = elim (Bool-cases (same r.key row.key)) [
  | inl e ↦ rw (e, same_self row.key, live)
  | inr e ↦ rw (e, e, select_live-upsert ttl now row rs live)
]

get_fingerprint-add_verified :
    (c : SenderVerificationCache) (now later : ℕ) (k v : Text)
    → later ≤ now + c.ttl_seconds * 1000000
    → get_fingerprint (add_verified c now k v) later k ≡ some v
unfolding get_fingerprint add_verified is_live
get_fingerprint-add_verified c now later k v young =
    let row : Row = record { key = k; value = v; verified_at = now } in
    let live : leb later (now + c.ttl_seconds * 1000000) ≡ true = ground arith in
    ap value_of (select_live-upsert c.ttl_seconds later row c.verified_senders live)

module _ (rt : Runtime) where
  -- What stands behind a verification without the cache: a successful response that names a
  -- fingerprint, which is stored in its normal form.
  pub record IsProbed (clock : Clock) (answer : Answer) (a : MisfinAddress)
      (c : SenderVerificationCache) (r : VerificationResult) (c' : SenderVerificationCache)
      : Type 0 where
    pub response : MisfinResponse
    pub raw : Text
    pub came : answer ≡ answered response
    pub success : is_success response.status ≡ true
    pub named : fingerprint response ≡ some raw
    pub outcome : r ≡ accepted (normalize_fingerprint rt raw) false
    pub stored : c' ≡ add_verified c clock.written_at (address a) (normalize_fingerprint rt raw)

  on_answer-IsProbed :
      (clock : Clock) (answer : Answer) (a : MisfinAddress) (c : SenderVerificationCache)
      {r : VerificationResult} {c' : SenderVerificationCache}
      → on_answer rt clock (address a) answer c ≡ (r, c')
      → verified r ≡ true
      → IsProbed clock answer a c r c'
  unfolding on_answer on_success
  on_answer-IsProbed clock timed_out a c h v = cc (ap (λ p. verified p.0) h, v)
  on_answer-IsProbed clock (failed text) a c h v = cc (ap (λ p. verified p.0) h, v)
  on_answer-IsProbed clock (answered response) a c {r} {c'} h v =
      elim (Bool-cases (is_success response.status)) [
        | inr e ↦ absurd (ground (arith, ap (λ p. verified p.0) h))
        | inl e ↦ elim (Option-cases (fingerprint response)) [
          | inl f ↦ absurd (ground (arith, ap (λ p. verified p.0) h))
          | inr (raw, f) ↦ record {
            response = response;
            raw = raw;
            came = refl;
            success = e;
            named = f;
            outcome = ground arith;
            stored = ground arith;
          }
        ]
      ]

  -- A verification by probe that accepts a sender whom the cache did not know rests on a successful
  -- response that names a fingerprint; as long as the entry lives, every later verification of the
  -- address answers from the cache with the normal form of that fingerprint, whatever a probe would
  -- have brought, and changes nothing.
  pub verify_by_probe-verify_by_probe :
      (clock later : Clock) (answer other : Answer) (a : MisfinAddress)
      (c : SenderVerificationCache) {r : VerificationResult} {c' : SenderVerificationCache}
      → get_fingerprint c clock.read_at (address a) ≡ none
      → verify_by_probe rt clock answer a c ≡ (r, c')
      → verified r ≡ true
      → later.read_at ≤ clock.written_at + c.ttl_seconds * 1000000
      → (p : IsProbed clock answer a c r c') × (verify_by_probe rt later other a c'
          ≡ (accepted (normalize_fingerprint rt p.raw) true, c'))
  unfolding verify_by_probe
  verify_by_probe-verify_by_probe clock later answer other a c {r} {c'} unknown h v young =
      let first : on_answer rt clock (address a) answer c ≡ (r, c') = ground arith in
      let p = on_answer-IsProbed clock answer a c first v in
      let known : get_fingerprint c' later.read_at (address a)
          ≡ some (normalize_fingerprint rt p.raw) =
        ap (λ x. get_fingerprint x later.read_at (address a)) p.stored
        ∙ get_fingerprint-add_verified c clock.written_at later.read_at (address a)
            (normalize_fingerprint rt p.raw) young in
      (p, rw (verify_by_probe, known))
