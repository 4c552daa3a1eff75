-- ===== src/Content/Gemmail/Lines.antt =====
-- A metadata line of items is read back from its items, whatever their type.
use titlani.Base.{
  ℕ, ◌≤◌, true, false, List, [], ◌∷◌, ◌++◌, map, length, Result, ok, ◌≡◌, ◌≢◌, refl, ap, ◌∙◌, arith,
  All, Lacks, All-append, append_assoc, Bool-cases, inl, inr, subst,
}
use titlani.Str.Core.{Text, codes}
use titlani.Str.Strip.{
  is_space, drop_while, drop_end_while, drop_while_id, drop_end_while-append, strip, strip_trimmed,
  IsTrimmed,
}
use titlani.Str.Split.{split, join, split-append, split-Lacks}
use titlani.Protocol.Errors.{Error}
use titlani.Content.Gemmail.{parse_items, parse_line}

-- A text that may stand between commas.
pub record IsItem (t : Text) : Type 0 where
  pub trimmed : IsTrimmed t
  pub nonempty : t ≢ []
  pub lacks_comma : Lacks b',' t

pub All-join {ℓ} :
    (P : ℕ → Type ℓ) (sep : Text) (ts : List Text)
    → All P sep
    → All (All P) ts
    → All P (join sep ts)
unfolding join
All-join P sep [] hs h = tt
All-join P sep (t ∷ []) hs h = h.0
All-join P sep (t ∷ u ∷ ts) hs (ht, h) =
    All-append P t (sep ++ join sep (u ∷ ts)) ht
      (All-append P sep (join sep (u ∷ ts)) hs (All-join P sep (u ∷ ts) hs h))

-- A text in front of which nothing is dropped begins with no white space.
length-drop_while-le : (t : Text) → length (drop_while is_space t) ≤ length t
unfolding drop_while
length-drop_while-le [] = omega arith
length-drop_while-le (c ∷ t) = ground (arith, length-drop_while-le t)

first_not_space : (c : ℕ) (t : Text) → drop_while is_space (c ∷ t) ≡ c ∷ t → is_space c ≡ false
first_not_space c t h = elim (Bool-cases (is_space c)) [ inr e ↦ e | inl e ↦ absurd (too_short e) ]
  where
    too_short : is_space c ≡ true → ⊥
    too_short e =
        let shorter : length (drop_while is_space (c ∷ t)) ≤ length t =
          unfold drop_while in rw e (length-drop_while-le t) in
        omega (arith, ap length h)

join-ne-nil : (t : Text) (ts : List Text) → t ≢ [] → join (codes ", ") (t ∷ ts) ≢ []
unfolding join
join-ne-nil [] ts h = absurd (h refl)
join-ne-nil (c ∷ t) [] h = h
join-ne-nil (c ∷ t) (u ∷ ts) h = cc

drop_end_while-join :
    (t : Text) (ts : List Text)
    → IsItem t
    → All IsItem ts
    → drop_end_while is_space (join (codes ", ") (t ∷ ts)) ≡ join (codes ", ") (t ∷ ts)
unfolding join
drop_end_while-join t [] ht h = ht.trimmed.1
drop_end_while-join t (u ∷ ts) ht (hu, h) =
    let rest = join (codes ", ") (u ∷ ts) in
    let e =
      drop_end_while-append is_space (t ++ codes ", ") rest (drop_end_while-join u ts hu h)
        (join-ne-nil u ts hu.nonempty) in
    subst (λ x. drop_end_while is_space x ≡ x) (append_assoc t (codes ", ") rest) e

drop_while-join :
    (t : Text) (ts : List Text)
    → IsItem t
    → drop_while is_space (join (codes ", ") (t ∷ ts)) ≡ join (codes ", ") (t ∷ ts)
unfolding join
drop_while-join [] ts h = absurd (h.nonempty refl)
drop_while-join (c ∷ t) [] h = h.trimmed.0
drop_while-join (c ∷ t) (u ∷ ts) h =
    drop_while_id is_space c (t ++ (codes ", " ++ join (codes ", ") (u ∷ ts)))
      (first_not_space c t h.trimmed.0)

IsTrimmed-join :
    (t : Text) (ts : List Text) → IsItem t → All IsItem ts → IsTrimmed (join (codes ", ") (t ∷ ts))
IsTrimmed-join t ts ht h = (drop_while-join t ts ht, drop_end_while-join t ts ht h)

abbrev spaced : List Text → List Text
spaced = map (λ t. b' ' ∷ t)

split_behind_space :
    (t u : Text) (us : List Text) → split b',' t ≡ u ∷ us → split b',' (b' ' ∷ t) ≡ (b' ' ∷ u) ∷ us
unfolding split
split_behind_space t u us e = rw e

split-join :
    (t : Text) (ts : List Text)
    → IsItem t
    → All IsItem ts
    → split b',' (join (codes ", ") (t ∷ ts)) ≡ t ∷ spaced ts
unfolding join
split-join t [] ht h = split-Lacks b',' t ht.lacks_comma
split-join t (u ∷ ts) ht (hu, h) =
    split-append b',' t (b' ' ∷ join (codes ", ") (u ∷ ts)) ht.lacks_comma
    ∙ ap (◌∷◌ t)
        (split_behind_space (join (codes ", ") (u ∷ ts)) u (spaced ts) (split-join u ts hu h))

strip_space : (t : Text) → IsTrimmed t → strip (b' ' ∷ t) ≡ t
unfolding strip drop_while is_space
strip_space t h = strip_trimmed t h

parse_items-cons :
    {B : Type 0} (f : Text → Result Error B) (item t : Text) (rest : List Text) {b : B}
    {bs : List B}
    → strip item ≡ t
    → t ≢ []
    → f t ≡ ok b
    → parse_items f rest ≡ ok bs
    → parse_items f (item ∷ rest) ≡ ok (b ∷ bs)
unfolding parse_items
parse_items-cons f item [] rest e ne hf hr = absurd (ne refl)
parse_items-cons f item (c ∷ t) rest e ne hf hr = rw (e, parse_items) (rw hf (rw hr))

module _ {A B : Type 0} (f : Text → Result Error B) (g : A → Text) (h : A → B) where
  -- The item's text is one between commas, and `f` reads it.
  abbrev pub Reads : A → Type 0
  Reads x = IsItem (g x) × (f (g x) ≡ ok (h x))

  Reads-IsItem : (xs : List A) → All Reads xs → All IsItem (map g xs)
  Reads-IsItem [] r = tt
  Reads-IsItem (x ∷ xs) (rx, r) = (rx.0, Reads-IsItem xs r)

  parse_items-spaced :
      (xs : List A) → All Reads xs → parse_items f (spaced (map g xs)) ≡ ok (map h xs)
  parse_items-spaced [] r = unfold parse_items in refl
  parse_items-spaced (x ∷ xs) (rx, r) =
      parse_items-cons f (b' ' ∷ g x) (g x) (spaced (map g xs)) (strip_space (g x) rx.0.trimmed)
        rx.0.nonempty rx.1 (parse_items-spaced xs r)

  parse_line-trimmed :
      (t : Text) → strip t ≡ t → t ≢ [] → parse_line f t ≡ parse_items f (split b',' t)
  unfolding parse_line
  parse_line-trimmed [] e ne = absurd (ne refl)
  parse_line-trimmed (c ∷ t) e ne = rw (e, parse_line)

  -- The line of the items, joined xs they are written, is read xs the items.
  pub parse_line-join :
      (xs : List A) → All Reads xs → parse_line f (join (codes ", ") (map g xs)) ≡ ok (map h xs)
  parse_line-join [] r = unfold parse_line join strip in refl
  parse_line-join (x ∷ xs) (rx, r) =
      let ts = map g xs in
      let hs = Reads-IsItem xs r in
      let line = join (codes ", ") (g x ∷ ts) in
      parse_line-trimmed line (strip_trimmed line (IsTrimmed-join (g x) ts rx.0 hs))
        (join-ne-nil (g x) ts rx.0.nonempty)
      ∙ ap (parse_items f) (split-join (g x) ts rx.0 hs)
      ∙ parse_items-cons f (g x) (g x) (spaced ts) (strip_trimmed (g x) rx.0.trimmed) rx.0.nonempty
          rx.1 (parse_items-spaced xs r)
