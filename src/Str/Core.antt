-- ===== src/Str/Core.antt =====
-- Comparison, prefixes, suffixes and containment.
use Prim.Native.Char.{code}
use titlani.Base.{
  ℕ, String, Bool, true, false, ◌&&◌, List, [], ◌∷◌, ◌++◌, ◌==◌, ◌≡◌, ◌≢◌, ◌↔◌, refl, arith,
  if◌then◌else◌, Option, none, some, Lacks, any, Bool-cases, inl, inr,
}

abbrev pub Text : Type 0
Text = List ℕ

abbrev pub Bytes : Type 0
Bytes = List ℕ

-- The code points of a literal.
abbrev pub codes : String → Text
codes String.[] = []
codes (String.◌∷◌ c s) = code c ∷ codes s

-- `a == b`
unfoldable pub same : Text → Text → Bool
same [] [] = true
same (x ∷ xs) (y ∷ ys) = x == y && same xs ys
same _ _ = false

pub same_iff : (a b : Text) → (same a b ≡ true) ↔ (a ≡ b)
unfolding same
same_iff (x ∷ a) (y ∷ b) = ground (arith, same_iff a b)
same_iff _ _ = ground arith

pub same_self : (a : Text) → same a a ≡ true
same_self a = (same_iff a a).1 refl

pub same-false : (a b : Text) → a ≢ b → same a b ≡ false
same-false a b n = elim (Bool-cases (same a b)) [
  | inl e ↦ absurd (n ((same_iff a b).0 e))
  | inr e ↦ e
]

-- `c in t` for one character
unfoldable pub has : ℕ → Text → Bool
has c t = any (λ d. d == c) t

pub has-false : (c : ℕ) (t : Text) → has c t ≡ false → Lacks c t
unfolding has
has-false c [] h = tt
has-false c (d ∷ t) h = (ground arith, has-false c t (ground arith))

pub has-Lacks : (c : ℕ) (t : Text) → Lacks c t → has c t ≡ false
unfolding has
has-Lacks c [] h = refl
has-Lacks c (d ∷ t) (p, h) = ground (arith, has-Lacks c t h)

-- `t.startswith(p)`, with the rest of the text
unfoldable pub after_prefix : Text → Text → Option Text
after_prefix [] t = some t
after_prefix (p ∷ ps) [] = none
after_prefix (p ∷ ps) (c ∷ t) = let rest = after_prefix ps t in if c == p then rest else none

pub after_prefix-append : (p t : Text) → after_prefix p (p ++ t) ≡ some t
unfolding after_prefix
after_prefix-append [] t = refl
after_prefix-append (x ∷ p) t = ground (arith, after_prefix-append p t)

pub after_prefix_sound : (p t : Text) {r : Text} → after_prefix p t ≡ some r → t ≡ p ++ r
unfolding after_prefix
after_prefix_sound [] t h = ground arith
after_prefix_sound (x ∷ p) [] h = cc
after_prefix_sound (x ∷ p) (c ∷ t) {r} h = ground (arith, after_prefix_sound p t {r = r})

-- `t.startswith(p)`
unfoldable pub starts_with : Text → Text → Bool
starts_with p t = elim (after_prefix p t) [ none ↦ false | some _ ↦ true ]

-- `t.removesuffix` where `t.endswith(s)`: the text before the suffix
unfoldable pub before_suffix : Text → Text → Option Text
unfolding same
before_suffix s [] = if same s [] then some [] else none
before_suffix s (c ∷ t) =
    if same s (c ∷ t)
    then some []
    else elim (before_suffix s t) [ none ↦ none | some r ↦ some (c ∷ r) ]

unfoldable pub ends_with : Text → Text → Bool
ends_with s t = elim (before_suffix s t) [ none ↦ false | some _ ↦ true ]

-- `p in t`
unfoldable pub contains : Text → Text → Bool
contains p [] = starts_with p []
contains p (c ∷ t) = if starts_with p (c ∷ t) then true else contains p t
