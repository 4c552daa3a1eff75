-- ===== src/Str/Strip.antt =====
-- `str.strip`, `str.lstrip`, `str.split()`, `str.splitlines` and the white space they use.
use titlani.Base.{
  ℕ, Bool, false, ◌&&◌, ◌||◌, List, [], ◌∷◌, ◌++◌, ◌==◌, ◌≡◌, ◌≢◌, refl, arith, if◌then◌else◌, leb,
  All, ap, ◌∙◌,
}
use titlani.Str.Core.{Text}

-- `c.isspace()`
unfoldable pub is_space : ℕ → Bool
is_space c =
    (leb 9 c && leb c 13)
    || (leb 28 c && leb c 32)
    || c == 0x85
    || c == 0xa0
    || c == 0x1680
    || (leb 0x2000 c && leb c 0x200a)
    || c == 0x2028
    || c == 0x2029
    || c == 0x202f
    || c == 0x205f
    || c == 0x3000

-- The rest of the text from the first character that the test refuses.
unfoldable pub drop_while : (ℕ → Bool) → Text → Text
drop_while p [] = []
drop_while p (c ∷ t) = let rest = drop_while p t in if p c then rest else c ∷ t

-- One character in front of a text that is already stripped at its right end.
unfoldable pub keep_before : (ℕ → Bool) → ℕ → Text → Text
keep_before p c [] = if p c then [] else c ∷ []
keep_before p c (d ∷ t) = c ∷ d ∷ t

unfoldable pub drop_end_while : (ℕ → Bool) → Text → Text
unfolding keep_before
drop_end_while p [] = []
drop_end_while p (c ∷ t) = keep_before p c (drop_end_while p t)

unfoldable pub strip_by : (ℕ → Bool) → Text → Text
unfolding drop_while drop_end_while
strip_by p t = drop_end_while p (drop_while p t)

-- `t.strip()`
unfoldable pub strip : Text → Text
unfolding strip_by is_space
strip t = strip_by is_space t

-- `t.lstrip(c)` for one character
unfoldable pub lstrip_char : ℕ → Text → Text
unfolding drop_while
lstrip_char c t = drop_while (λ d. d == c) t

-- What `strip` leaves has no white space in front and none behind.
abbrev pub IsTrimmed : Text → Type 0
IsTrimmed t = (drop_while is_space t ≡ t) × (drop_end_while is_space t ≡ t)

abbrev pub NoSpace : Text → Type 0
NoSpace = All (λ c. is_space c ≡ false)

pub drop_while_id : (p : ℕ → Bool) (c : ℕ) (t : Text) → p c ≡ false → drop_while p (c ∷ t) ≡ c ∷ t
unfolding drop_while
drop_while_id p c t h = ground arith

-- Stripping at the right end does not reach past a suffix that stays.
pub drop_end_while-append :
    (p : ℕ → Bool) (s t : Text)
    → drop_end_while p t ≡ t
    → t ≢ []
    → drop_end_while p (s ++ t) ≡ s ++ t
unfolding drop_end_while
drop_end_while-append p [] t h ne = h
drop_end_while-append p (c ∷ s) t h ne =
    ap (keep_before p c) (drop_end_while-append p s t h ne) ∙ keep (s ++ t) (nonempty s t ne)
  where
    keep : (u : Text) → u ≢ [] → keep_before p c u ≡ c ∷ u
    keep [] n = absurd (n refl)
    keep (d ∷ u) n = refl

    nonempty : (a b : Text) → b ≢ [] → a ++ b ≢ []
    nonempty [] b n = n
    nonempty (x ∷ a) b n = cc

pub drop_end_while-All :
    (p : ℕ → Bool) (t : Text) → All (λ c. p c ≡ false) t → drop_end_while p t ≡ t
unfolding drop_end_while
drop_end_while-All p [] h = refl
drop_end_while-All p (c ∷ t) (hc, h) = ap (keep_before p c) (drop_end_while-All p t h) ∙ keep t
  where
    keep : (u : Text) → keep_before p c u ≡ c ∷ u
    keep [] = ground arith
    keep (d ∷ u) = refl

pub drop_while-All : (p : ℕ → Bool) (t : Text) → All (λ c. p c ≡ false) t → drop_while p t ≡ t
unfolding drop_while
drop_while-All p [] h = refl
drop_while-All p (c ∷ t) (hc, h) = ground arith

pub strip_by-All : (p : ℕ → Bool) (t : Text) → All (λ c. p c ≡ false) t → strip_by p t ≡ t
unfolding strip_by
strip_by-All p t h = ap (drop_end_while p) (drop_while-All p t h) ∙ drop_end_while-All p t h

pub strip_trimmed : (t : Text) → IsTrimmed t → strip t ≡ t
unfolding strip
strip_trimmed t (front, back) = ap (drop_end_while is_space) front ∙ back

pub NoSpace-IsTrimmed : (t : Text) → NoSpace t → IsTrimmed t
NoSpace-IsTrimmed t h = (drop_while-All is_space t h, drop_end_while-All is_space t h)

-- A text with a first character that is no white space, and a trimmed end, is trimmed.
pub IsTrimmed-append :
    (c : ℕ) (s t : Text)
    → is_space c ≡ false
    → drop_end_while is_space t ≡ t
    → t ≢ []
    → IsTrimmed ((c ∷ s) ++ t)
IsTrimmed-append c s t hc ht ne =
    (drop_while_id is_space c (s ++ t) hc, drop_end_while-append is_space (c ∷ s) t ht ne)

-- The words of a text: `cur` is the word being read.
words_from : Text → Text → List Text
words_from [] [] = []
words_from (d ∷ cur) [] = (d ∷ cur) ∷ []
words_from [] (c ∷ t) =
    let more = words_from (c ∷ []) t in
    let rest = words_from [] t in if is_space c then rest else more
words_from (d ∷ cur) (c ∷ t) =
    let more = words_from ((d ∷ cur) ++ c ∷ []) t in
    let rest = words_from [] t in if is_space c then (d ∷ cur) ∷ rest else more

-- `t.split()`
unfoldable pub words : Text → List Text
unfolding words_from is_space
words t = words_from [] t

-- The line boundaries of `str.splitlines`; a carriage return and a line feed are one.
is_line_end : ℕ → Bool
is_line_end c =
    (leb 10 c && leb c 13) || (leb 28 c && leb c 30) || c == 0x85 || c == 0x2028 || c == 0x2029

-- `after_cr`: the last character was a carriage return, which has ended its line.
lines_from : Bool → Text → Text → List Text
lines_from after_cr [] [] = []
lines_from after_cr (d ∷ cur) [] = (d ∷ cur) ∷ []
lines_from after_cr cur (c ∷ t) =
    let skip = lines_from false cur t in
    let end = lines_from (c == b'\r') [] t in
    let more = lines_from false (cur ++ c ∷ []) t in
    if after_cr && c == b'\n' then skip else if is_line_end c then cur ∷ end else more

-- `t.splitlines()`
unfoldable pub splitlines : Text → List Text
unfolding lines_from is_line_end
splitlines t = lines_from false [] t
