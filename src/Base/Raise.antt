-- ===== src/Base/Raise.antt =====
-- A computation that may raise: a value, or the exception it stops with.
use mathlib.Core.Path.{◌≡◌, refl}
use mathlib.Core.Logic.{◌⊎◌, inl, inr}
use mathlib.Core.Option.{Option, none, some}

pub data Result {ℓ' ℓ} (Exn : Type ℓ') (V : Type ℓ) : Type (ℓ' ⊔ ℓ) where
  err : Exn → Result Exn V
  ok : V → Result Exn V

-- `None` and a missing value raise the exception given.
abbrev pub or_raise {ℓ' ℓ} : {Exn : Type ℓ'} {V : Type ℓ} → Option V → Exn → Result Exn V
or_raise (some v) exn = ok v
or_raise none exn = err exn

pub or_raise-eq-ok {ℓ' ℓ} :
    {Exn : Type ℓ'} {V : Type ℓ} (found : Option V) (exn : Exn) {v : V}
    → or_raise found exn ≡ ok v
    → found ≡ some v
or_raise-eq-ok (some w) exn q = cc
or_raise-eq-ok none exn q = cc

pub Result-cases {ℓ' ℓ} :
    {Exn : Type ℓ'} {V : Type ℓ} (r : Result Exn V)
    → ((v : V) × (r ≡ ok v)) ⊎ ((exn : Exn) × (r ≡ err exn))
Result-cases (err exn) = inr (exn, refl)
Result-cases (ok v) = inl (v, refl)

module _ {ℓ' ℓ ℓ''} {Exn : Type ℓ'} {V : Type ℓ} {B : Type ℓ''} where
  infixl 5 ◌>>=◌
  abbrev pub ◌>>=◌ : Result Exn V → (V → Result Exn B) → Result Exn B
  err exn >>= next = err exn
  ok v >>= next = next v

  -- Where a chain ends well, its first step did, and the rest on that value.
  pub >>=-eq-ok :
      (r : Result Exn V) (next : V → Result Exn B) {last : B}
      → (r >>= next) ≡ ok last
      → (v : V) × (r ≡ ok v) × (next v ≡ ok last)
  >>=-eq-ok (err exn) next q = cc
  >>=-eq-ok (ok v) next q = (v, refl, q)

-- A step that only may raise.
infixl 5 ◌>>◌
abbrev pub ◌>>◌ {ℓ' ℓ} :
    {Exn : Type ℓ'} {B : Type ℓ} → Result Exn (Unit {0}) → Result Exn B → Result Exn B
err exn >> after = err exn
ok _ >> after = after
