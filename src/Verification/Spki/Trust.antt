-- ===== src/Verification/Spki/Trust.antt =====
-- Trust on first use, for src/titlani/verification/spki_verifier.py with `on_spki_change` "reject".
use titlani.Base.{
  ℕ, true, List, [], ◌∷◌, some, if◌then◌else◌, ◌≡◌, ap, ◌∙◌, arith, Option-cases, inl, inr,
  Bool-cases, subst,
}
use titlani.Str.Core.{Text, same, same_iff}
use titlani.Content.Address.{MisfinAddress}
use titlani.Verification.Outcome.{verified, fingerprint_of}
use titlani.Verification.Cache.{
  SenderVerificationCache, select, value_of, get_server_spki, get_last_server_spki, add_server_spki,
}
use titlani.Verification.Cache.Keys.{IsKeyed, select-upsert, upsert-IsKeyed, select_live-select}
use titlani.Verification.Probe.{Clock}
use titlani.Verification.Spki.{
  Fetch, hash, no_certificate, timed_out, failed, OnChange, reject, handle_spki_change,
  compare_spki, on_fetch, verify_by_spki,
}

-- What one verification reads from its surroundings.
pub record Visit : Type 0 where
  pub clock : Clock
  pub fetch : Fetch
  pub sender : MisfinAddress

unfoldable pub verify_all :
    OnChange → List Visit → SenderVerificationCache → SenderVerificationCache
verify_all on_change [] c = c
verify_all on_change (v ∷ vs) c =
    verify_all on_change vs (verify_by_spki on_change v.clock v.fetch v.sender c).1

get_last_server_spki-add_server_spki :
    (c : SenderVerificationCache) (now : ℕ) (k v j : Text)
    → get_last_server_spki (add_server_spki c now k v) j
      ≡ (if same k j then some v else get_last_server_spki c j)
unfolding get_last_server_spki add_server_spki value_of
get_last_server_spki-add_server_spki c now k v j =
    let e = select-upsert j (record { key = k; value = v; verified_at = now }) c.server_spki in
    ground arith

-- Every key in the cache is the key of one row.
abbrev pub IsTable : SenderVerificationCache → Type 0
IsTable c = IsKeyed c.server_spki

-- A visit that stores a hash for its host stores the one it knows, if it knows one.
record Keeps (host pinned : Text) (c : SenderVerificationCache) : Type 0 where
  table : IsTable c
  last : get_last_server_spki c host ≡ some pinned

add_server_spki-Keeps :
    (host pinned k v : Text) (now : ℕ) (c : SenderVerificationCache)
    → Keeps host pinned c
    → (k ≡ host → v ≡ pinned)
    → Keeps host pinned (add_server_spki c now k v)
unfolding add_server_spki
add_server_spki-Keeps host pinned k v now c s same_value = record {
  table = upsert-IsKeyed _ c.server_spki s.table;
  last = elim (Bool-cases (same k host)) [
    | inl e ↦
        get_last_server_spki-add_server_spki c now k v host
        ∙ (let q = same_value ((same_iff k host).0 e) in ground arith)
    | inr e ↦ get_last_server_spki-add_server_spki c now k v host ∙ rw e s.last
  ];
}

compare_spki-Keeps :
    (host pinned : Text) (clock : Clock) (k current : Text) (c : SenderVerificationCache)
    → Keeps host pinned c
    → Keeps host pinned (compare_spki reject clock k current (get_last_server_spki c k) c).1
unfolding compare_spki handle_spki_change
compare_spki-Keeps host pinned clock k current c s =
    elim (Option-cases (get_last_server_spki c k)) [
      | inl e ↦ rw e (
          add_server_spki-Keeps host pinned k current clock.written_at c s
            (λ q. cc (ap (get_last_server_spki c) q, e, s.last)))
      | inr (last, e) ↦ elim (Bool-cases (same current last)) [
        | inl f ↦
            let is_last : current ≡ last = (same_iff current last).0 f in
            rw (e, f)
              (add_server_spki-Keeps host pinned k current clock.written_at c s
                (λ q. cc (ap (get_last_server_spki c) q, e, s.last, is_last)))
        | inr f ↦ rw (e, f) s
      ]
    ]

on_fetch-Keeps :
    (host pinned : Text) (clock : Clock) (k : Text) (fetch : Fetch) (c : SenderVerificationCache)
    → Keeps host pinned c
    → Keeps host pinned (on_fetch reject clock k fetch c).1
unfolding on_fetch
on_fetch-Keeps host pinned clock k timed_out c s = s
on_fetch-Keeps host pinned clock k (failed text) c s = s
on_fetch-Keeps host pinned clock k no_certificate c s = s
on_fetch-Keeps host pinned clock k (hash current) c s =
    compare_spki-Keeps host pinned clock k current c s

verify_by_spki-Keeps :
    (host pinned : Text) (clock : Clock) (fetch : Fetch) (a : MisfinAddress)
    (c : SenderVerificationCache)
    → Keeps host pinned c
    → Keeps host pinned (verify_by_spki reject clock fetch a c).1
unfolding verify_by_spki
verify_by_spki-Keeps host pinned clock fetch a c s =
    elim (Option-cases (get_server_spki c clock.read_at a.hostname)) [
      | inl e ↦ rw (verify_by_spki, e) (on_fetch-Keeps host pinned clock a.hostname fetch c s)
      | inr (known, e) ↦ rw (verify_by_spki, e) s
    ]

verify_all-Keeps :
    (host pinned : Text) (vs : List Visit) (c : SenderVerificationCache)
    → Keeps host pinned c
    → Keeps host pinned (verify_all reject vs c)
unfolding verify_all
verify_all-Keeps host pinned [] c s = s
verify_all-Keeps host pinned (v ∷ vs) c s =
    verify_all-Keeps host pinned vs (verify_by_spki reject v.clock v.fetch v.sender c).1
      (verify_by_spki-Keeps host pinned v.clock v.fetch v.sender c s)

-- A live entry is the last known one.
get_server_spki-get_last_server_spki :
    (c : SenderVerificationCache) (now : ℕ) (k : Text) {v : Text}
    → IsTable c
    → get_server_spki c now k ≡ some v
    → get_last_server_spki c k ≡ some v
unfolding get_server_spki get_last_server_spki value_of
get_server_spki-get_last_server_spki c now k {v} table h =
    let d = select_live-select c.ttl_seconds now k c.server_spki table in
    elim (Option-cases (select k c.server_spki)) [
      | inl e ↦ ground arith
      | inr (r, e) ↦ ground arith
    ]

compare_spki-verdict :
    (clock : Clock) (k current pinned : Text) (c : SenderVerificationCache)
    → verified (compare_spki reject clock k current (some pinned) c).0 ≡ true
    → fingerprint_of (compare_spki reject clock k current (some pinned) c).0 ≡ some pinned
unfolding compare_spki handle_spki_change
compare_spki-verdict clock k current pinned c v = elim (Bool-cases (same current pinned)) [
  | inl e ↦ rw e (ap some ((same_iff current pinned).0 e))
  | inr e ↦ absurd (ground arith)
]

on_fetch-verdict :
    (clock : Clock) (k pinned : Text) (fetch : Fetch) (c : SenderVerificationCache)
    → get_last_server_spki c k ≡ some pinned
    → verified (on_fetch reject clock k fetch c).0 ≡ true
    → fingerprint_of (on_fetch reject clock k fetch c).0 ≡ some pinned
unfolding on_fetch
on_fetch-verdict clock k pinned timed_out c e v = cc v
on_fetch-verdict clock k pinned (failed text) c e v = cc v
on_fetch-verdict clock k pinned no_certificate c e v = cc v
on_fetch-verdict clock k pinned (hash current) c e v =
    let q = compare_spki-verdict clock k current pinned c in
    rw e (q (subst (λ o. verified (compare_spki reject clock k current o c).0 ≡ true) e v))

verify_by_spki-verdict :
    (clock : Clock) (fetch : Fetch) (a : MisfinAddress) (pinned : Text)
    (c : SenderVerificationCache)
    → Keeps a.hostname pinned c
    → verified (verify_by_spki reject clock fetch a c).0 ≡ true
    → fingerprint_of (verify_by_spki reject clock fetch a c).0 ≡ some pinned
unfolding verify_by_spki
verify_by_spki-verdict clock fetch a pinned c s v =
    elim (Option-cases (get_server_spki c clock.read_at a.hostname)) [
      | inl e ↦
          let v' : verified (on_fetch reject clock a.hostname fetch c).0 ≡ true = ground arith in
          let q = on_fetch-verdict clock a.hostname pinned fetch c s.last v' in ground arith
      | inr (known, e) ↦
          let q = get_server_spki-get_last_server_spki c clock.read_at a.hostname s.table e in
          let same_key : known ≡ pinned = cc (q, s.last) in
          rw (verify_by_spki, e) (ap some same_key)
    ]

-- Where changes are rejected, a server whose key is known keeps it: after any verifications of any
-- senders, at any times and whatever the servers showed, a sender of that server is verified with
-- that key or not at all.
pub verify_by_spki-pinned :
    (c : SenderVerificationCache) (pinned : Text) (vs : List Visit) (v : Visit)
    → IsTable c
    → get_last_server_spki c v.sender.hostname ≡ some pinned
    → verified (verify_by_spki reject v.clock v.fetch v.sender (verify_all reject vs c)).0 ≡ true
    → fingerprint_of (verify_by_spki reject v.clock v.fetch v.sender (verify_all reject vs c)).0
      ≡ some pinned
verify_by_spki-pinned c pinned vs v table last =
    verify_by_spki-verdict v.clock v.fetch v.sender pinned (verify_all reject vs c)
      (verify_all-Keeps v.sender.hostname pinned vs c (record { table = table; last = last }))
