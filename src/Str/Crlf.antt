-- ===== src/Str/Crlf.antt =====
-- What a line end, once found, means for longer and for shorter texts.
use titlani.Base.{
  ℕ, ◌+◌, ◌<◌, ◌&&◌, [], ◌∷◌, ◌++◌, ◌==◌, none, some, length, ◌≡◌, refl, arith, Bool-cases,
  Option-cases, inl, inr,
}
use titlani.Str.Core.{Bytes}
use titlani.Str.Split.{split_crlf}

pub split_crlf-more :
    (q t : Bytes) {line rest : Bytes}
    → split_crlf q ≡ some (line, rest)
    → split_crlf (q ++ t) ≡ some (line, rest ++ t)
unfolding split_crlf
split_crlf-more [] t e = cc
split_crlf-more (c ∷ []) t e = cc
split_crlf-more (c ∷ d ∷ q) t {line} {rest} e = elim (Bool-cases (c == b'\r' && d == b'\n')) [
  | inl f ↦ ground arith
  | inr f ↦ elim (Option-cases (split_crlf (d ∷ q))) [
    | inl g ↦ absurd (ground arith)
    | inr ((l, r), g) ↦ let k = split_crlf-more (d ∷ q) t g in ground arith
  ]
]

split_crlf_tail : (c : ℕ) (q : Bytes) → split_crlf (c ∷ q) ≡ none → split_crlf q ≡ none
unfolding split_crlf
split_crlf_tail c [] e = refl
split_crlf_tail c (d ∷ q) e = elim (Option-cases (split_crlf (d ∷ q))) [
  | inl g ↦ g
  | inr ((l, r), g) ↦ ground arith
]

-- A beginning of the stream without a line end stops before the line feed.
pub split_crlf-none-short :
    (line body q t : Bytes)
    → split_crlf q ≡ none
    → q ++ t ≡ line ++ b'\r' ∷ b'\n' ∷ body
    → length q < length line + 2
unfolding split_crlf
split_crlf-none-short line body [] t e s = omega arith
split_crlf-none-short [] body (c ∷ []) t e s = omega arith
split_crlf-none-short [] body (c ∷ d ∷ q) t e s =
    let hc : c ≡ b'\r' = cc s in let hd : d ≡ b'\n' = cc s in ground arith
split_crlf-none-short (x ∷ line) body (c ∷ q) t e s =
    let rec = split_crlf-none-short line body q t (split_crlf_tail c q e) (cc s) in
    omega (arith, rec)

pub split_crlf_spells :
    (q : Bytes) {line rest : Bytes}
    → split_crlf q ≡ some (line, rest)
    → q ≡ line ++ b'\r' ∷ b'\n' ∷ rest
unfolding split_crlf
split_crlf_spells [] e = cc
split_crlf_spells (c ∷ []) e = cc
split_crlf_spells (c ∷ d ∷ q) {line} {rest} e = elim (Bool-cases (c == b'\r' && d == b'\n')) [
  | inl f ↦
      let hc : c ≡ b'\r' = ground arith in
      let hd : d ≡ b'\n' = ground arith in
      let hl : line ≡ [] = ground arith in let hr : rest ≡ q = ground arith in rw (hc, hd, hl, hr)
  | inr f ↦ elim (Option-cases (split_crlf (d ∷ q))) [
    | inl g ↦ absurd (ground arith)
    | inr ((l, r), g) ↦
        let k = split_crlf_spells (d ∷ q) g in
        let hl : line ≡ c ∷ l = ground arith in let hr : rest ≡ r = ground arith in rw (hl, hr, k)
  ]
]
