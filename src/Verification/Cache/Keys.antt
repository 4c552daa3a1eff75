-- ===== src/Verification/Cache/Keys.antt =====
-- The tables of src/titlani/verification/cache.py by their keys: what is selected after a statement.
use titlani.Base.{
  ℕ, Bool, true, false, not, List, [], ◌∷◌, Option, none, some, if◌then◌else◌, ◌≡◌, refl, ap, sym,
  ◌∙◌, arith, Bool-cases, inl, inr,
}
use titlani.Str.Core.{Text, same, same_iff, same-false}
use titlani.Verification.Cache.{Row, select, upsert, delete_where, is_live, select_live}

pub select-upsert :
    (k : Text) (row : Row) (rs : List Row)
    → select k (upsert row rs) ≡ (if same row.key k then some row else select k rs)
unfolding select upsert
select-upsert k row [] = refl
select-upsert k row (r ∷ rs) = elim (Bool-cases (same r.key row.key)) [
  | inl e ↦
      let q : same r.key k ≡ same row.key k = ap (λ x. same x k) ((same_iff r.key row.key).0 e) in
      ground arith
  | inr e ↦
      let q : same row.key k ≡ true → same r.key k ≡ false =
        λ f. ap (same r.key) (sym ((same_iff row.key k).0 f)) ∙ e in
      elim (Bool-cases (same row.key k)) [
        | inl f ↦ let g = q f in ground (arith, select-upsert k row rs)
        | inr f ↦ ground (arith, select-upsert k row rs)
      ]
]

-- Each key stands in one row at most.
abbrev pub IsKeyed : List Row → Type 0
IsKeyed [] = Unit
IsKeyed (r ∷ rs) = (select r.key rs ≡ none) × IsKeyed rs

pub upsert-IsKeyed : (row : Row) (rs : List Row) → IsKeyed rs → IsKeyed (upsert row rs)
unfolding upsert select
upsert-IsKeyed row [] h = (refl, tt)
upsert-IsKeyed row (r ∷ rs) (hr, h) = elim (Bool-cases (same r.key row.key)) [
  | inl e ↦ rw e (ap (λ k. select k rs) (sym ((same_iff r.key row.key).0 e)) ∙ hr, h)
  | inr e ↦
      let q : same row.key r.key ≡ false =
        same-false row.key r.key (λ a. ground (arith, (same_iff r.key row.key).1 (sym a))) in
      let absent : select r.key (upsert row rs) ≡ none =
        ground (arith, select-upsert r.key row rs) in
      rw e (absent, upsert-IsKeyed row rs h)
]

select-delete_where-none :
    (k : Text) (p : Row → Bool) (rs : List Row)
    → select k rs ≡ none
    → select k (delete_where p rs) ≡ none
unfolding select delete_where
select-delete_where-none k p [] h = refl
select-delete_where-none k p (r ∷ rs) h = elim (Bool-cases (p r)) [
  | inl e ↦ ground (arith, select-delete_where-none k p rs)
  | inr e ↦ ground (arith, select-delete_where-none k p rs)
]

pub delete_where-IsKeyed :
    (p : Row → Bool) (rs : List Row) → IsKeyed rs → IsKeyed (delete_where p rs)
unfolding delete_where
delete_where-IsKeyed p [] h = tt
delete_where-IsKeyed p (r ∷ rs) (hr, h) = elim (Bool-cases (p r)) [
  | inl e ↦ rw e (delete_where-IsKeyed p rs h)
  | inr e ↦ rw e (select-delete_where-none r.key p rs hr, delete_where-IsKeyed p rs h)
]

-- The row that passes the test, if it is to stay.
abbrev pub unless : (Row → Bool) → Option Row → Option Row
unless p none = none
unless p (some r) = if p r then none else some r

pub select-delete_where :
    (k : Text) (p : Row → Bool) (rs : List Row)
    → IsKeyed rs
    → select k (delete_where p rs) ≡ unless p (select k rs)
unfolding select delete_where
select-delete_where k p [] h = refl
select-delete_where k p (r ∷ rs) (hr, h) = elim (Bool-cases (same r.key k)) [
  | inl e ↦
      let absent : select k rs ≡ none = ap (λ x. select x rs) (sym ((same_iff r.key k).0 e)) ∙ hr in
      let gone = select-delete_where-none k p rs absent in ground arith
  | inr e ↦ ground (arith, select-delete_where k p rs h)
]

-- A live row is the row of its key, if that is live.
pub select_live-select :
    (ttl now : ℕ) (k : Text) (rs : List Row)
    → IsKeyed rs
    → select_live ttl now k rs ≡ unless (λ r. not (is_live ttl now r)) (select k rs)
unfolding select select_live
select_live-select ttl now k [] h = refl
select_live-select ttl now k (r ∷ rs) (hr, h) = elim (Bool-cases (same r.key k)) [
  | inl e ↦
      let absent : select k rs ≡ none = ap (λ x. select x rs) (sym ((same_iff r.key k).0 e)) ∙ hr in
      ground (arith, select_live-select ttl now k rs h)
  | inr e ↦ ground (arith, select_live-select ttl now k rs h)
]
