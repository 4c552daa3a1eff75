-- ===== src/Content/Address/RoundTrip.antt =====
-- `MisfinAddress.parse` against `str`.
use titlani.Base.{
  ℕ, false, [], ◌∷◌, ◌++◌, some, ok, ◌≡◌, ◌≢◌, refl, ap, ◌∙◌, arith, Lacks, All-append,
  append_assoc, Option-cases, inl, inr, subst,
}
use titlani.Str.Core.{Text, has, has-Lacks}
use titlani.Str.Strip.{
  is_space, drop_end_while, IsTrimmed, NoSpace, strip_trimmed, IsTrimmed-append, NoSpace-IsTrimmed,
}
use titlani.Str.Split.{
  rsplit_once, split_once-append, split_once-Lacks, rsplit_once-append, rsplit_once_sound,
}
use titlani.Content.Address.{
  MisfinAddress, nonempty_pair, split_address, address_and_blurb, parse_stripped, parse, address,
  str_of,
}

-- What the text form of an address can express.
pub record IsWritable (a : MisfinAddress) : Type 0 where
  pub mailbox_ne_nil : a.mailbox ≢ []
  pub mailbox_NoSpace : NoSpace a.mailbox
  pub hostname_ne_nil : a.hostname ≢ []
  pub hostname_NoSpace : NoSpace a.hostname
  pub hostname_lacks_at : Lacks b'@' a.hostname
  pub blurb_IsTrimmed : IsTrimmed a.blurb
  pub blurb_lacks_comma : Lacks b',' a.blurb
  pub blurb_lacks_at : Lacks b'@' a.blurb

NoSpace-Lacks : (t : Text) → NoSpace t → Lacks b' ' t
unfolding is_space
NoSpace-Lacks [] h = tt
NoSpace-Lacks (c ∷ t) (hc, h) = (ground arith, NoSpace-Lacks t h)

pub split_address-address :
    (m h : Text) → m ≢ [] → h ≢ [] → Lacks b'@' h → split_address (m ++ b'@' ∷ h) ≡ some (m, h)
unfolding split_address
split_address-address [] h nm nh at = absurd (nm refl)
split_address-address (c ∷ m) [] nm nh at = absurd (nh refl)
split_address-address (c ∷ m) (d ∷ h) nm nh at =
    rw (rsplit_once-append b'@' (c ∷ m) (d ∷ h) at, split_address)

nonempty_pair_sound :
    (p : Text × Text) {m h : Text}
    → nonempty_pair p ≡ some (m, h)
    → (p.0 ≡ m) × (p.1 ≡ h) × (m ≢ []) × (h ≢ [])
unfolding nonempty_pair
nonempty_pair_sound ([], y) e = cc
nonempty_pair_sound (c ∷ x, []) e = cc
nonempty_pair_sound (c ∷ x, d ∷ y) e = ground arith

-- An address that is taken apart is spelled by its parts, of which none is empty.
pub split_address_sound :
    (t : Text) {m h : Text}
    → split_address t ≡ some (m, h)
    → (t ≡ m ++ b'@' ∷ h) × (m ≢ []) × (h ≢ []) × Lacks b'@' h
unfolding split_address
split_address_sound t {m} {h} e = elim (Option-cases (rsplit_once b'@' t)) [
  | inl n ↦ absurd (ground arith)
  | inr ((x, y), q) ↦
      let (em, eh, nm, nh) = nonempty_pair_sound (x, y) {m = m} {h = h} (ground arith) in
      let (spell, lacks) = rsplit_once_sound b'@' t q in (cc, nm, nh, subst (Lacks b'@') eh lacks)
]

NoSpace-address : (a : MisfinAddress) → IsWritable a → NoSpace (address a)
unfolding address is_space
NoSpace-address a w =
    All-append (λ c. is_space c ≡ false) a.mailbox (b'@' ∷ a.hostname) w.mailbox_NoSpace
      (refl, w.hostname_NoSpace)

-- A text without white space, then a trimmed one behind a space, is trimmed.
front :
    (a b : Text)
    → NoSpace a
    → drop_end_while is_space b ≡ b
    → a ≢ []
    → b ≢ []
    → IsTrimmed (a ++ b' ' ∷ b)
front [] b h e na nb = absurd (na refl)
front (x ∷ a) b (hx, h) e na nb =
    subst IsTrimmed (append_assoc (x ∷ a) (b' ' ∷ []) b)
      (IsTrimmed-append x (a ++ b' ' ∷ []) b hx e nb)

-- The tests of the parser, passed one by one.
parse_stripped-eq :
    (c : ℕ) (t a b m h : Text)
    → address_and_blurb (c ∷ t) ≡ (a, b)
    → has b',' b ≡ false
    → has b'@' b ≡ false
    → split_address a ≡ some (m, h)
    → parse_stripped (c ∷ t) ≡ ok (record { mailbox = m; hostname = h; blurb = b })
unfolding parse_stripped
parse_stripped-eq c t a b m h ea hc hat es = ground arith

address_and_blurb-plain : (t : Text) → Lacks b' ' t → address_and_blurb t ≡ (t, [])
unfolding address_and_blurb
address_and_blurb-plain t h = rw (split_once-Lacks b' ' t h, address_and_blurb)

address_and_blurb-append :
    (a b : Text) → Lacks b' ' a → IsTrimmed b → address_and_blurb (a ++ b' ' ∷ b) ≡ (a, b)
unfolding address_and_blurb
address_and_blurb-append a b h tb =
    rw (split_once-append b' ' a b h, address_and_blurb) (rw (strip_trimmed b tb))

parse_parts :
    (x : ℕ) (m h b : Text)
    → (let a : MisfinAddress = record { mailbox = x ∷ m; hostname = h; blurb = b } in
        IsWritable a → parse (str_of a) ≡ ok a)
unfolding parse str_of
parse_parts x m h [] w =
    let a : MisfinAddress = record { mailbox = x ∷ m; hostname = h; blurb = [] } in
    let plain = NoSpace-address a w in
    ap parse_stripped (strip_trimmed (address a) (NoSpace-IsTrimmed (address a) plain))
    ∙ parse_stripped-eq x (m ++ b'@' ∷ h) (address a) [] (x ∷ m) h
        (address_and_blurb-plain (address a) (NoSpace-Lacks (address a) plain))
        (has-Lacks b',' [] tt) (has-Lacks b'@' [] tt)
        (split_address-address (x ∷ m) h w.mailbox_ne_nil w.hostname_ne_nil w.hostname_lacks_at)
parse_parts x m h (d ∷ b) w =
    let a : MisfinAddress = record { mailbox = x ∷ m; hostname = h; blurb = d ∷ b } in
    let whole = address a ++ b' ' ∷ (d ∷ b) in
    let plain = NoSpace-address a w in
    ap parse_stripped
      (strip_trimmed whole (front (address a) (d ∷ b) plain w.blurb_IsTrimmed.1 (cc) (cc)))
    ∙ parse_stripped-eq x (m ++ (b'@' ∷ h) ++ b' ' ∷ (d ∷ b)) (address a) (d ∷ b) (x ∷ m) h
        (address_and_blurb-append (address a) (d ∷ b) (NoSpace-Lacks (address a) plain)
          w.blurb_IsTrimmed)
        (has-Lacks b',' (d ∷ b) w.blurb_lacks_comma) (has-Lacks b'@' (d ∷ b) w.blurb_lacks_at)
        (split_address-address (x ∷ m) h w.mailbox_ne_nil w.hostname_ne_nil w.hostname_lacks_at)

parts-IsTrimmed :
    (m h b : Text)
    → (let a : MisfinAddress = record { mailbox = m; hostname = h; blurb = b } in
        IsWritable a → IsTrimmed (str_of a) × (str_of a ≢ []))
unfolding str_of
parts-IsTrimmed [] h b w = absurd (w.mailbox_ne_nil refl)
parts-IsTrimmed (x ∷ m) h [] w =
    let a : MisfinAddress = record { mailbox = x ∷ m; hostname = h; blurb = [] } in
    (NoSpace-IsTrimmed (address a) (NoSpace-address a w), cc)
parts-IsTrimmed (x ∷ m) h (d ∷ b) w =
    let a : MisfinAddress = record { mailbox = x ∷ m; hostname = h; blurb = d ∷ b } in
    (front (address a) (d ∷ b) (NoSpace-address a w) w.blurb_IsTrimmed.1 (cc) (cc), cc)

-- The text form is not empty and has no white space at its ends.
pub str_of-IsTrimmed : (a : MisfinAddress) → IsWritable a → IsTrimmed (str_of a) × (str_of a ≢ [])
str_of-IsTrimmed a w = parts-IsTrimmed a.mailbox a.hostname a.blurb w

by_parts :
    (m h b : Text)
    → (let a : MisfinAddress = record { mailbox = m; hostname = h; blurb = b } in
        IsWritable a → parse (str_of a) ≡ ok a)
by_parts [] h b w = absurd (w.mailbox_ne_nil refl)
by_parts (x ∷ m) h b w = parse_parts x m h b w

-- An address that can be written is read back from its text form, blurb included.
pub parse-str_of : (a : MisfinAddress) → IsWritable a → parse (str_of a) ≡ ok a
parse-str_of a w = by_parts a.mailbox a.hostname a.blurb w
