-- ===== src/Server/State/Dict.antt =====
-- The laws of a dictionary: what is found after an insertion.
use titlani.Base.{false, List, [], ◌∷◌, some, ◌≡◌, ◌≢◌, sym, ◌∙◌, arith, Bool-cases, inl, inr}
use titlani.Str.Core.{Text, same, same_iff, same_self, same-false}
use titlani.Server.State.{lookup, insert}

module _ {ℓ} {V : Type ℓ} where
  pub lookup-insert : (k : Text) (v : V) (m : List (Text × V)) → lookup k (insert k v m) ≡ some v
  unfolding lookup insert
  lookup-insert k v [] = rw (same_self k)
  lookup-insert k v ((j, w) ∷ m) = elim (Bool-cases (same j k)) [
    | inl e ↦ rw (e, e)
    | inr e ↦ rw (e, e, lookup-insert k v m)
  ]

  pub lookup-insert_other :
      (j k : Text) (v : V) (m : List (Text × V)) → j ≢ k → lookup j (insert k v m) ≡ lookup j m
  unfolding lookup insert
  lookup-insert_other j k v [] n = rw (same-false k j (λ e. n (sym e)))
  lookup-insert_other j k v ((i, w) ∷ m) n = elim (Bool-cases (same i k)) [
    | inl e ↦
        let q : same i j ≡ false = same-false i j (λ a. n (sym a ∙ (same_iff i k).0 e)) in rw (e, q)
    | inr e ↦ rw (e, lookup-insert_other j k v m n)
  ]

  pub insert-lookup :
      (k : Text) (m : List (Text × V)) {v : V} → lookup k m ≡ some v → insert k v m ≡ m
  unfolding lookup insert
  insert-lookup k [] h = cc
  insert-lookup k ((j, w) ∷ m) {v} h = elim (Bool-cases (same j k)) [
    | inl e ↦ let p : w ≡ v = ground arith in rw (e, p)
    | inr e ↦ let q : lookup k m ≡ some v = ground arith in rw (e, insert-lookup k m q)
  ]
