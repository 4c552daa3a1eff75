-- ===== src/Verification/Cache/Refinement.antt =====
-- The cache of src/titlani/verification/cache.py against what it promises: two finite maps from
-- texts to values with the time of their last verification.
use titlani.Base.{
  ℕ, ◌+◌, ◌*◌, true, not, List, [], ◌∷◌, Option, none, some, if◌then◌else◌, leb, ◌≡◌, refl, ap, ◌∙◌,
  arith, Option-cases, inl, inr, Bool-cases, subst,
}
use titlani.Str.Core.{Text, same, same_iff}
use titlani.Verification.Cache.{
  Row, SenderVerificationCache, select, upsert, delete_where, is_live, select_live, value_of,
  get_fingerprint, add_verified, revoke, cleanup, get_server_spki, get_last_server_spki,
  add_server_spki, clear_server_spki,
}
use titlani.Verification.Cache.Keys.{
  IsKeyed, select-upsert, upsert-IsKeyed, delete_where-IsKeyed, select-delete_where,
  select_live-select,
}

-- A call that writes, with the clock that it reads.
pub data Call : Type 0 where
  adds_verified adds_spki : ℕ → Text → Text → Call
  revokes : Text → Call
  cleans_up : ℕ → Call
  clears_spki : Call

unfoldable pub run : List Call → SenderVerificationCache → SenderVerificationCache
run [] c = c
run (adds_verified now k v ∷ cs) c = run cs (add_verified c now k v)
run (adds_spki now k v ∷ cs) c = run cs (add_server_spki c now k v)
run (revokes k ∷ cs) c = run cs (revoke c k).1
run (cleans_up now ∷ cs) c = run cs (cleanup c now).1
run (clears_spki ∷ cs) c = run cs (clear_server_spki c).1

unfoldable pub empty : ℕ → SenderVerificationCache
empty ttl = record { verified_senders = []; server_spki = []; ttl_seconds = ttl }

-- The promise: maps, and what the calls do to them.
abbrev pub Known : Type 0
Known = Text → Option (Text × ℕ)

abbrev pub stays : ℕ → ℕ → Option (Text × ℕ) → Option (Text × ℕ)
stays ttl now none = none
stays ttl now (some (v, at)) = if leb now (at + ttl * 1000000) then some (v, at) else none

abbrev pub value_in : Option (Text × ℕ) → Option Text
value_in none = none
value_in (some (v, at)) = some v

unfoldable pub promised : ℕ → List Call → Known × Known → Known × Known
promised ttl [] m = m
promised ttl (adds_verified now k v ∷ cs) (senders, servers) =
    promised ttl cs ((λ j. if same k j then some (v, now) else senders j), servers)
promised ttl (adds_spki now k v ∷ cs) (senders, servers) =
    promised ttl cs (senders, (λ j. if same k j then some (v, now) else servers j))
promised ttl (revokes k ∷ cs) (senders, servers) =
    promised ttl cs ((λ j. if same j k then none else senders j), servers)
promised ttl (cleans_up now ∷ cs) (senders, servers) =
    promised ttl cs ((λ j. stays ttl now (senders j)), (λ j. stays ttl now (servers j)))
promised ttl (clears_spki ∷ cs) (senders, servers) = promised ttl cs (senders, (λ j. none))

abbrev stamped : Option Row → Option (Text × ℕ)
stamped none = none
stamped (some r) = some (r.value, r.verified_at)

-- A table that stands for a map.
record StandsFor (rows : List Row) (m : Known) : Type 0 where
  keyed : IsKeyed rows
  same_values : (k : Text) → stamped (select k rows) ≡ m k

upsert-StandsFor :
    (rows : List Row) (m : Known) (k v : Text) (now : ℕ)
    → StandsFor rows m
    → StandsFor
        (upsert (record { key = k; value = v; verified_at = now }) rows)
        (λ j. if same k j then some (v, now) else m j)
upsert-StandsFor rows m k v now s = record {
  keyed = upsert-IsKeyed _ rows s.keyed;
  same_values = λ j.
      let e = select-upsert j (record { key = k; value = v; verified_at = now }) rows in
      ground (arith, s.same_values j);
}

select-key : (k : Text) (rows : List Row) {r : Row} → select k rows ≡ some r → same r.key k ≡ true
unfolding select
select-key k [] h = cc
select-key k (q ∷ rows) {r} h = elim (Bool-cases (same q.key k)) [
  | inl e ↦ ground arith
  | inr e ↦ select-key k rows {r = r} (ground arith)
]

revoke-StandsFor :
    (rows : List Row) (m : Known) (k : Text)
    → StandsFor rows m
    → StandsFor (delete_where (λ r. same r.key k) rows) (λ j. if same j k then none else m j)
revoke-StandsFor rows m k s = record {
  keyed = delete_where-IsKeyed _ rows s.keyed;
  same_values = λ j.
      let d = select-delete_where j (λ r. same r.key k) rows s.keyed in
      elim (Option-cases (select j rows)) [
        | inl e ↦ ground (arith, s.same_values j)
        | inr (r, e) ↦
            let q : same r.key k ≡ same j k =
              ap (λ x. same x k) ((same_iff r.key j).0 (select-key j rows e)) in
            ground (arith, s.same_values j)
      ];
}

purge-StandsFor :
    (rows : List Row) (m : Known) (ttl now : ℕ)
    → StandsFor rows m
    → StandsFor (delete_where (λ r. not (is_live ttl now r)) rows) (λ j. stays ttl now (m j))
unfolding is_live
purge-StandsFor rows m ttl now s = record {
  keyed = delete_where-IsKeyed _ rows s.keyed;
  same_values = λ j.
      let d = select-delete_where j (λ r. not (is_live ttl now r)) rows s.keyed in
      elim (Option-cases (select j rows)) [
        | inl e ↦ ground (arith, s.same_values j)
        | inr (r, e) ↦ ground (arith, s.same_values j)
      ];
}

-- The cache that stands for two maps.
record Refines (c : SenderVerificationCache) (ttl : ℕ) (m : Known × Known) : Type 0 where
  senders : StandsFor c.verified_senders m.0
  servers : StandsFor c.server_spki m.1
  lifetime : c.ttl_seconds ≡ ttl

run-Refines :
    (ttl : ℕ) (cs : List Call) (c : SenderVerificationCache) (m : Known × Known)
    → Refines c ttl m
    → Refines (run cs c) ttl (promised ttl cs m)
unfolding run promised add_verified add_server_spki revoke cleanup clear_server_spki select
run-Refines ttl [] c m h = h
run-Refines ttl (adds_verified now k v ∷ cs) c (senders, servers) h =
    run-Refines ttl cs (add_verified c now k v) _ (record {
      senders = upsert-StandsFor c.verified_senders senders k v now h.senders;
      servers = h.servers;
      lifetime = h.lifetime;
    })
run-Refines ttl (adds_spki now k v ∷ cs) c (senders, servers) h =
    run-Refines ttl cs (add_server_spki c now k v) _ (record {
      senders = h.senders;
      servers = upsert-StandsFor c.server_spki servers k v now h.servers;
      lifetime = h.lifetime;
    })
run-Refines ttl (revokes k ∷ cs) c (senders, servers) h =
    run-Refines ttl cs (revoke c k).1 _ (record {
      senders = revoke-StandsFor c.verified_senders senders k h.senders;
      servers = h.servers;
      lifetime = h.lifetime;
    })
run-Refines ttl (cleans_up now ∷ cs) c (senders, servers) h =
    run-Refines ttl cs (cleanup c now).1 _ (record {
      senders =
          subst (λ t. StandsFor (cleanup c now).1.verified_senders (λ j. stays t now (senders j)))
            h.lifetime (purge-StandsFor c.verified_senders senders c.ttl_seconds now h.senders);
      servers =
          subst (λ t. StandsFor (cleanup c now).1.server_spki (λ j. stays t now (servers j)))
            h.lifetime (purge-StandsFor c.server_spki servers c.ttl_seconds now h.servers);
      lifetime = h.lifetime;
    })
run-Refines ttl (clears_spki ∷ cs) c (senders, servers) h =
    run-Refines ttl cs (clear_server_spki c).1 _ (record {
      senders = h.senders;
      servers = record { keyed = tt; same_values = λ k. refl };
      lifetime = h.lifetime;
    })

empty-Refines : (ttl : ℕ) → Refines (empty ttl) ttl ((λ j. none), (λ j. none))
unfolding empty select
empty-Refines ttl = record {
  senders = record { keyed = tt; same_values = λ k. refl };
  servers = record { keyed = tt; same_values = λ k. refl };
  lifetime = refl;
}

live_value :
    (ttl now : ℕ) (k : Text) (rows : List Row) (m : Known)
    → StandsFor rows m
    → value_of (select_live ttl now k rows) ≡ value_in (stays ttl now (m k))
unfolding value_of is_live
live_value ttl now k rows m s =
    let d = select_live-select ttl now k rows s.keyed in
    elim (Option-cases (select k rows)) [
      | inl e ↦ ground (arith, s.same_values k)
      | inr (r, e) ↦ ground (arith, s.same_values k)
    ]

last_value :
    (k : Text) (rows : List Row) (m : Known)
    → StandsFor rows m
    → value_of (select k rows) ≡ value_in (m k)
unfolding value_of
last_value k rows m s = elim (Option-cases (select k rows)) [
  | inl e ↦ ground (arith, s.same_values k)
  | inr (r, e) ↦ ground (arith, s.same_values k)
]

-- After any calls on an empty cache, the cache answers as two maps would: with the value that was
-- stored last and neither revoked nor cleaned up, while it is live; for a server's last key also
-- when it has expired.
pub cache-refines :
    (ttl now : ℕ) (cs : List Call) (k : Text)
    → let c = run cs (empty ttl) in
      let m = promised ttl cs ((λ j. none), (λ j. none)) in
      (get_fingerprint c now k ≡ value_in (stays ttl now (m.0 k)))
      × (get_server_spki c now k ≡ value_in (stays ttl now (m.1 k)))
      × (get_last_server_spki c k ≡ value_in (m.1 k))
unfolding get_fingerprint get_server_spki get_last_server_spki value_of
cache-refines ttl now cs k =
    let c = run cs (empty ttl) in
    let m = promised ttl cs ((λ j. none), (λ j. none)) in
    let h : Refines c ttl m =
      run-Refines ttl cs (empty ttl) ((λ j. none), (λ j. none)) (empty-Refines ttl) in
    (
      ap (λ t. value_of (select_live t now k c.verified_senders)) h.lifetime
          ∙ live_value ttl now k c.verified_senders m.0 h.senders,
      ap (λ t. value_of (select_live t now k c.server_spki)) h.lifetime
          ∙ live_value ttl now k c.server_spki m.1 h.servers,
      last_value k c.server_spki m.1 h.servers,
    )
