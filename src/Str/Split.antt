-- ===== src/Str/Split.antt =====
-- `str.split` with a separator, `str.rsplit(c, 1)`, `str.join` and the replacement of `"\r\n"`.
use titlani.Base.{
  ℕ, Bool, true, false, ◌&&◌, List, [], ◌∷◌, ◌++◌, ◌==◌, ◌≡◌, ◌≢◌, refl, ap, ◌∙◌, arith,
  if◌then◌else◌, Option, none, some, All, Lacks, ==_iff, subst, inl, inr, Option-cases, Bool-cases,
}
use titlani.Str.Core.{Text}

-- `t.split(c, 1)` where the separator occurs, and `none` where it does not
unfoldable pub split_once : ℕ → Text → Option (Text × Text)
split_once sep [] = none
split_once sep (c ∷ t) =
    let rest = split_once sep t in
    if c == sep then some ([], t) else elim rest [ none ↦ none | some (a, b) ↦ some (c ∷ a, b) ]

-- `t.rsplit(c, 1)` where the separator occurs, and `none` where it does not
unfoldable pub rsplit_once : ℕ → Text → Option (Text × Text)
rsplit_once sep [] = none
rsplit_once sep (c ∷ t) = elim (rsplit_once sep t) [
  | some (a, b) ↦ some (c ∷ a, b)
  | none ↦ if c == sep then some ([], t) else none
]

unfoldable pub onto_first : ℕ → List Text → List Text
onto_first c [] = (c ∷ []) ∷ []
onto_first c (p ∷ ps) = (c ∷ p) ∷ ps

-- `t.split(c)`: never empty
unfoldable pub split : ℕ → Text → List Text
unfolding onto_first
split sep [] = [] ∷ []
split sep (c ∷ t) = let rest = split sep t in if c == sep then [] ∷ rest else onto_first c rest

-- `sep.join(parts)`
unfoldable pub join : Text → List Text → Text
join sep [] = []
join sep (p ∷ []) = p
join sep (p ∷ q ∷ ps) = p ++ (sep ++ join sep (q ∷ ps))

pub split_once-append :
    (sep : ℕ) (a b : Text) → Lacks sep a → split_once sep (a ++ sep ∷ b) ≡ some (a, b)
unfolding split_once
split_once-append sep [] b h = ground arith
split_once-append sep (c ∷ a) b (hc, h) = ground (arith, split_once-append sep a b h)

split_first :
    (sep c : ℕ) (t x y : Text) {a b : Text}
    → (if◌then◌else◌ {A = Option (Text × Text)} (c == sep) (some ([], t)) (some (c ∷ x, y)))
      ≡ some (a, b)
    → t ≡ x ++ sep ∷ y
    → Lacks sep x
    → (c ∷ t ≡ a ++ sep ∷ b) × Lacks sep a
split_first sep c t x y {a} {b} e spell lacks = elim (Bool-cases (c == sep)) [
  | inl q ↦
      let p : ◌≡◌ {A = Option (Text × Text)} (some ([], t)) (some (a, b)) = ground arith in
      let pa : [] ≡ a = ground arith in (ground arith, subst (Lacks sep) pa tt)
  | inr q ↦
      let pa : c ∷ x ≡ a = ground arith in
      let pb : y ≡ b = ground arith in
      (
        ap (◌∷◌ c) spell ∙ ap (λ z. z ++ sep ∷ y) pa ∙ ap (λ z. a ++ sep ∷ z) pb,
        subst (Lacks sep) pa (ground arith, lacks),
      )
]

-- The parts of a split spell the text, and the first holds no separator.
pub split_once_sound :
    (sep : ℕ) (t : Text) {a b : Text}
    → split_once sep t ≡ some (a, b)
    → (t ≡ a ++ sep ∷ b) × Lacks sep a
unfolding split_once
split_once_sound sep [] h = cc
split_once_sound sep (c ∷ t) {a} {b} h = elim (Option-cases (split_once sep t)) [
  | inr ((x, y), e) ↦
      let (spell, lacks) = split_once_sound sep t e in
      split_first sep c t x y {a = a} {b = b} (ground arith) spell lacks
  | inl e ↦
      let pa : [] ≡ a = ground arith in
      let pb : t ≡ b = ground arith in (ground arith, subst (Lacks sep) pa tt)
]

pub split_once-Lacks : (sep : ℕ) (t : Text) → Lacks sep t → split_once sep t ≡ none
unfolding split_once
split_once-Lacks sep [] h = refl
split_once-Lacks sep (c ∷ t) (hc, h) = ground (arith, split_once-Lacks sep t h)

pub rsplit_once-Lacks : (sep : ℕ) (t : Text) → Lacks sep t → rsplit_once sep t ≡ none
unfolding rsplit_once
rsplit_once-Lacks sep [] h = refl
rsplit_once-Lacks sep (c ∷ t) (hc, h) = ground (arith, rsplit_once-Lacks sep t h)

pub rsplit_once-append :
    (sep : ℕ) (a b : Text) → Lacks sep b → rsplit_once sep (a ++ sep ∷ b) ≡ some (a, b)
unfolding rsplit_once
rsplit_once-append sep [] b h = ground (arith, rsplit_once-Lacks sep b h)
rsplit_once-append sep (c ∷ a) b h = ground (arith, rsplit_once-append sep a b h)

pub rsplit_once-none : (sep : ℕ) (t : Text) → rsplit_once sep t ≡ none → Lacks sep t
unfolding rsplit_once
rsplit_once-none sep [] h = tt
rsplit_once-none sep (c ∷ t) h =
    (ground (arith, ==_iff c sep), rsplit_once-none sep t (ground arith))

rsplit_last :
    (sep c : ℕ) (t : Text) {a b : Text}
    → rsplit_once sep t ≡ none
    → (if◌then◌else◌ {A = Option (Text × Text)} (c == sep) (some ([], t)) none) ≡ some (a, b)
    → Lacks sep b
rsplit_last sep c t {a} {b} e h = subst (Lacks sep) (ground arith) (rsplit_once-none sep t e)

-- The parts of a right split spell the text, and the last holds no separator.
pub rsplit_once_sound :
    (sep : ℕ) (t : Text) {a b : Text}
    → rsplit_once sep t ≡ some (a, b)
    → (t ≡ a ++ sep ∷ b) × Lacks sep b
unfolding rsplit_once
rsplit_once_sound sep [] h = cc
rsplit_once_sound sep (c ∷ t) {a} {b} h = elim (Option-cases (rsplit_once sep t)) [
  | inl e ↦ (ground arith, rsplit_last sep c t {a = a} {b = b} e (ground arith))
  | inr ((x, y), e) ↦
      let (spell, lacks) = rsplit_once_sound sep t e in
      let q : y ≡ b = ground arith in (ground arith, subst (Lacks sep) q lacks)
]

pub split-ne-nil : (sep : ℕ) (t : Text) → split sep t ≢ []
unfolding split
split-ne-nil sep [] = cc
split-ne-nil sep (c ∷ t) = ground (arith, split-ne-nil sep t)

-- A text with no separator is one part.
pub split-Lacks : (sep : ℕ) (t : Text) → Lacks sep t → split sep t ≡ t ∷ []
unfolding split
split-Lacks sep [] h = refl
split-Lacks sep (c ∷ t) (hc, h) = ground (arith, split-Lacks sep t h)

-- The first part ends at the first separator.
pub split-append : (sep : ℕ) (a b : Text) → Lacks sep a → split sep (a ++ sep ∷ b) ≡ a ∷ split sep b
unfolding split
split-append sep [] b h = ground arith
split-append sep (c ∷ a) b (hc, h) = ground (arith, split-append sep a b h)

join-onto_first :
    (s : Text) (c : ℕ) (ps : List Text) → ps ≢ [] → join s (onto_first c ps) ≡ c ∷ join s ps
unfolding join onto_first
join-onto_first s c [] h = absurd (h refl)
join-onto_first s c (p ∷ []) h = refl
join-onto_first s c (p ∷ q ∷ ps) h = refl

join-cons_nil :
    (sep : ℕ) (ps : List Text) → ps ≢ [] → join (sep ∷ []) ([] ∷ ps) ≡ sep ∷ join (sep ∷ []) ps
unfolding join
join-cons_nil sep [] h = absurd (h refl)
join-cons_nil sep (p ∷ ps) h = refl

-- Joining what a split at one character gives spells the text again.
pub join-split : (sep : ℕ) (t : Text) → join (sep ∷ []) (split sep t) ≡ t
unfolding split
join-split sep [] = unfold join in refl
join-split sep (c ∷ t) = ground (
  arith,
  join-split sep t,
  join-onto_first (sep ∷ []) c (split sep t) (split-ne-nil sep t),
  join-cons_nil sep (split sep t) (split-ne-nil sep t),
)

onto_first-All :
    (sep c : ℕ) (ps : List Text) → c ≢ sep → All (Lacks sep) ps → All (Lacks sep) (onto_first c ps)
unfolding onto_first
onto_first-All sep c [] h _ = ((h, tt), tt)
onto_first-All sep c (p ∷ ps) h (hp, hps) = ((h, hp), hps)

-- Every part of a split lacks the separator.
pub split-All-Lacks : (sep : ℕ) (t : Text) → All (Lacks sep) (split sep t)
unfolding split
split-All-Lacks sep [] = (tt, tt)
split-All-Lacks sep (c ∷ t) = elim (Bool-cases (c == sep)) [
  | inl e ↦ rw e (tt, split-All-Lacks sep t)
  | inr e ↦ rw e (onto_first-All sep c (split sep t) (ground arith) (split-All-Lacks sep t))
]

-- `t.replace("\r\n", "\n")`
unfoldable pub to_lf : Text → Text
to_lf [] = []
to_lf (c ∷ []) = c ∷ []
to_lf (c ∷ d ∷ t) = let rest = to_lf (d ∷ t) in if c == b'\r' && d == b'\n' then rest else c ∷ rest

-- Every carriage return stands immediately before a line feed.
unfoldable pub cr_before_lf : Text → Bool
cr_before_lf [] = true
cr_before_lf (c ∷ []) = if c == b'\r' then false else true
cr_before_lf (c ∷ d ∷ t) =
    let rest = cr_before_lf (d ∷ t) in
    if c == b'\r' then (if d == b'\n' then rest else false) else rest

pub to_lf-Lacks : (t : Text) → Lacks b'\r' t → to_lf t ≡ t
unfolding to_lf
to_lf-Lacks [] h = refl
to_lf-Lacks (c ∷ []) h = refl
to_lf-Lacks (c ∷ d ∷ t) (hc, h) = ground (arith, to_lf-Lacks (d ∷ t) h)

pub cr_before_lf-Lacks : (t : Text) → Lacks b'\r' t → cr_before_lf t ≡ true
unfolding cr_before_lf
cr_before_lf-Lacks [] h = refl
cr_before_lf-Lacks (c ∷ []) (hc, h) = ground arith
cr_before_lf-Lacks (c ∷ d ∷ t) (hc, h) = ground (arith, cr_before_lf-Lacks (d ∷ t) h)

-- `raw.split(b"\r\n", 1)` where the pair occurs, and `none` where it does not
unfoldable pub split_crlf : Text → Option (Text × Text)
split_crlf [] = none
split_crlf (c ∷ []) = none
split_crlf (c ∷ d ∷ t) =
    let rest = split_crlf (d ∷ t) in
    if c == b'\r' && d == b'\n'
    then some ([], t)
    else elim rest [ none ↦ none | some (a, b) ↦ some (c ∷ a, b) ]

pub split_crlf-append :
    (a b : Text) → Lacks b'\r' a → split_crlf (a ++ b'\r' ∷ b'\n' ∷ b) ≡ some (a, b)
unfolding split_crlf
split_crlf-append [] b h = refl
split_crlf-append (c ∷ []) b (hc, h) = ground arith
split_crlf-append (c ∷ d ∷ a) b (hc, h) = ground (arith, split_crlf-append (d ∷ a) b h)
