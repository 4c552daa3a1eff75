-- ===== src/Content/Gemmail/RoundTrip.antt =====
-- `GemmailMessage.from_bytes` against `to_bytes`.
use titlani.Base.{
  ℕ, ◌≤◌, true, List, [], ◌∷◌, ◌++◌, map, length, ok, ◌>>=◌, ◌≡◌, ◌≢◌, refl, ap, ◌∙◌, arith, All,
  Lacks, All-append, All-imp, All-map, All-pure,
}
use titlani.Str.Core.{Text, codes}
use titlani.Str.Strip.{is_space, NoSpace, NoSpace-IsTrimmed}
use titlani.Str.Split.{
  split, join, split-append, split-ne-nil, join-split, to_lf-Lacks, cr_before_lf-Lacks,
}
use titlani.Str.Utf8.{encode, IsText, is_scalar, decode-encode}
use titlani.Protocol.Constants.{max_metadata_line_size}
use titlani.Content.Address
use titlani.Content.Address.{MisfinAddress, str_of}
use titlani.Content.Address.RoundTrip.{IsWritable, parse-str_of, str_of-IsTrimmed}
use titlani.Content.Time.{DateTime, parse_timestamp, IsoLaws}
use titlani.Content.Gemmail.{
  GemmailMessage, parse_address_line, check_line, text_lines, parse_timestamp_line, from_lines,
  from_bytes, to_text, to_bytes,
}
use titlani.Content.Gemmail.Lines.{IsItem, Reads, All-join, parse_line-join}

-- An address that can stand in a metadata line.
pub record IsListed (a : MisfinAddress) : Type 0 where
  pub writable : IsWritable a
  pub lacks_comma : Lacks b',' (str_of a)
  pub lacks_lf : Lacks b'\n' (str_of a)
  pub lacks_cr : Lacks b'\r' (str_of a)
  pub is_text : IsText (str_of a)

separator-IsText : IsText (codes ", ")
unfolding is_scalar
separator-IsText = (refl, (refl, tt))

is_text_lf : is_scalar b'\n' ≡ true
unfolding is_scalar
is_text_lf = refl

abbrev line_size : Text → ℕ
line_size line = length (encode (line ++ b'\n' ∷ []))

check_line-ok :
    (i : ℕ) (line : Text) → line_size line ≤ max_metadata_line_size → check_line i line ≡ ok tt
unfolding check_line
check_line-ok i line h = ground arith

text_lines-encode :
    (t : Text) → IsText t → Lacks b'\r' t → text_lines (encode t) ≡ ok (split b'\n' t)
unfolding text_lines
text_lines-encode t it cr =
    rw (decode-encode t it, text_lines) (rw (cr_before_lf-Lacks t cr) (rw (to_lf-Lacks t cr)))

NoSpace-Lacks : (t : Text) → NoSpace t → Lacks b'\n' t × Lacks b'\r' t
unfolding is_space
NoSpace-Lacks [] h = (tt, tt)
NoSpace-Lacks (c ∷ t) (hc, h) =
    let (lf, cr) = NoSpace-Lacks t h in ((ground arith, lf), (ground arith, cr))

split_three :
    (a b c body : Text)
    → Lacks b'\n' a
    → Lacks b'\n' b
    → Lacks b'\n' c
    → split b'\n' (a ++ (b'\n' ∷ (b ++ (b'\n' ∷ (c ++ (b'\n' ∷ body))))))
      ≡ a ∷ b ∷ c ∷ split b'\n' body
split_three a b c body ha hb hc =
    split-append b'\n' a (b ++ (b'\n' ∷ (c ++ (b'\n' ∷ body)))) ha
    ∙ ap (◌∷◌ a)
        (split-append b'\n' b (c ++ (b'\n' ∷ body)) hb ∙ ap (◌∷◌ b) (split-append b'\n' c body hc))

-- What holds of the separators and of each address holds of the line of addresses.
All-addresses :
    (P : ℕ → Type 0) (xs : List MisfinAddress)
    → All IsListed xs
    → All P (codes ", ")
    → ((a : MisfinAddress) → IsListed a → All P (str_of a))
    → All P (join (codes ", ") (map str_of xs))
All-addresses P xs h hs f =
    All-join P (codes ", ") (map str_of xs) hs
      (All-map (All P) str_of xs (All-imp IsListed (λ a. All P (str_of a)) f xs h))

Reads-address : (a : MisfinAddress) → IsListed a → Reads Address.parse str_of (λ x. x) a
Reads-address a h =
    let (trimmed, ne) = str_of-IsTrimmed a h.writable in
    (
      record { trimmed = trimmed; nonempty = ne; lacks_comma = h.lacks_comma },
      parse-str_of a h.writable,
    )

map_id : {A : Type 0} (xs : List A) → map (λ x. x) xs ≡ xs
map_id [] = refl
map_id (x ∷ xs) = ap (◌∷◌ x) (map_id xs)

parse_address_line-join :
    (xs : List MisfinAddress)
    → All IsListed xs
    → parse_address_line (join (codes ", ") (map str_of xs)) ≡ ok xs
unfolding parse_address_line
parse_address_line-join xs h =
    parse_line-join Address.parse str_of (λ x. x) xs
      (All-imp IsListed (Reads Address.parse str_of (λ x. x)) Reads-address xs h)
    ∙ ap ok (map_id xs)

module _ (dt : DateTime) (truncate : dt.Time → dt.Time) (laws : IsoLaws dt truncate) where
  open dt use {Time, to_iso}

  -- What the bytes of a message can express.
  pub record CanSend (m : GemmailMessage Time) : Type 0 where
    pub senders : All IsListed m.senders
    pub recipients : All IsListed m.recipients
    pub body_text : IsText m.body
    pub body_lacks_cr : Lacks b'\r' m.body
    pub senders_fit : line_size (join (codes ", ") (map str_of m.senders)) ≤ max_metadata_line_size
    pub recipients_fit :
        line_size (join (codes ", ") (map str_of m.recipients)) ≤ max_metadata_line_size
    pub timestamps_fit :
        line_size (join (codes ", ") (map to_iso m.timestamps)) ≤ max_metadata_line_size

  from_lines-eq :
      (a b c : Text) (ls : List Text) {s r : List MisfinAddress} {t : List Time}
      → check_line 1 a ≡ ok tt
      → check_line 2 b ≡ ok tt
      → check_line 3 c ≡ ok tt
      → parse_address_line a ≡ ok s
      → parse_address_line b ≡ ok r
      → parse_timestamp_line dt c ≡ ok t
      → ls ≢ []
      → from_lines dt (a ∷ b ∷ c ∷ ls)
        ≡ ok (record { senders = s; recipients = r; timestamps = t; body = join (b'\n' ∷ []) ls })
  unfolding from_lines
  from_lines-eq a b c [] ca cb cc' pa pb pc ne = absurd (ne refl)
  from_lines-eq a b c (d ∷ ls) ca cb cc' pa pb pc ne =
      rw (ca, from_lines) (rw cb (rw cc' (rw pa (rw pb (rw pc)))))

  IsItem-to_iso : (t : Time) → IsItem (to_iso t)
  IsItem-to_iso t = record {
    trimmed = NoSpace-IsTrimmed (to_iso t) (laws.one_word t);
    nonempty = laws.nonempty t;
    lacks_comma = laws.lacks_comma t;
  }

  parse_timestamp-to_iso : (t : Time) → parse_timestamp dt (to_iso t) ≡ ok (truncate t)
  unfolding parse_timestamp
  parse_timestamp-to_iso t = rw (laws.reads_back t)

  parse_timestamp_line-join :
      (ts : List Time)
      → parse_timestamp_line dt (join (codes ", ") (map to_iso ts)) ≡ ok (map truncate ts)
  unfolding parse_timestamp_line
  parse_timestamp_line-join ts = parse_line-join (parse_timestamp dt) to_iso truncate ts (
      All-pure (Reads (parse_timestamp dt) to_iso truncate)
        (λ t. (IsItem-to_iso t, parse_timestamp-to_iso t)) ts)

  -- What holds of the separators and of each timestamp holds of the line of timestamps.
  All-times :
      (P : ℕ → Type 0) (ts : List Time)
      → All P (codes ", ")
      → ((t : Time) → All P (to_iso t))
      → All P (join (codes ", ") (map to_iso ts))
  All-times P ts hs f =
      All-join P (codes ", ") (map to_iso ts) hs
        (All-map (All P) to_iso ts (All-pure (λ t. All P (to_iso t)) f ts))

  -- Together: a property of characters of the text, from those of its lines.
  All-to_text :
      (P : ℕ → Type 0) (m : GemmailMessage Time)
      → CanSend m
      → All P (codes ", ")
      → P b'\n'
      → ((a : MisfinAddress) → IsListed a → All P (str_of a))
      → ((t : Time) → All P (to_iso t))
      → All P m.body
      → All P (to_text dt m)
  unfolding to_text
  All-to_text P m w hs lf fa ft hb =
      let l1 = All-addresses P m.senders w.senders hs fa in
      let l2 = All-addresses P m.recipients w.recipients hs fa in
      let l3 = All-times P m.timestamps hs ft in
      All-append P _ _ l1 (lf, All-append P _ _ l2 (lf, All-append P _ _ l3 (lf, hb)))

  lines_of :
      (m : GemmailMessage Time)
      → CanSend m
      → split b'\n' (to_text dt m)
        ≡ join (codes ", ") (map str_of m.senders)
          ∷ join (codes ", ") (map str_of m.recipients)
          ∷ join (codes ", ") (map to_iso m.timestamps)
          ∷ split b'\n' m.body
  unfolding to_text
  lines_of m w =
      let comma_space : Lacks b'\n' (codes ", ") = omega arith in
      let fa = λ (a : MisfinAddress) (h : IsListed a). h.lacks_lf in
      let ft = λ (t : Time). (NoSpace-Lacks (to_iso t) (laws.one_word t)).0 in
      split_three _ _ _ m.body (All-addresses (λ c. c ≢ b'\n') m.senders w.senders comma_space fa)
        (All-addresses (λ c. c ≢ b'\n') m.recipients w.recipients comma_space fa)
        (All-times (λ c. c ≢ b'\n') m.timestamps comma_space ft)

  -- A message that can be sent is read back from its bytes, its timestamps in whole seconds.
  pub from_bytes-to_bytes :
      (m : GemmailMessage Time)
      → CanSend m
      → from_bytes dt (to_bytes dt m) ≡ ok (record m { timestamps = map truncate m.timestamps })
  unfolding from_bytes to_bytes
  from_bytes-to_bytes m w =
      let is_text =
        All-to_text (λ c. is_scalar c ≡ true) m w separator-IsText is_text_lf (λ a h. h.is_text)
          laws.is_text w.body_text in
      let lacks_cr =
        All-to_text (λ c. c ≢ b'\r') m w (omega arith) (omega arith) (λ a h. h.lacks_cr)
          (λ t. (NoSpace-Lacks (to_iso t) (laws.one_word t)).1) w.body_lacks_cr in
      ap (λ r. r >>= from_lines dt) (text_lines-encode (to_text dt m) is_text lacks_cr)
      ∙ ap (from_lines dt) (lines_of m w)
      ∙ from_lines-eq _ _ _ (split b'\n' m.body) (check_line-ok 1 _ w.senders_fit)
          (check_line-ok 2 _ w.recipients_fit) (check_line-ok 3 _ w.timestamps_fit)
          (parse_address_line-join m.senders w.senders)
          (parse_address_line-join m.recipients w.recipients)
          (parse_timestamp_line-join m.timestamps) (split-ne-nil b'\n' m.body)
      ∙ ap
          (λ b. ok (record {
            senders = m.senders;
            recipients = m.recipients;
            timestamps = map truncate m.timestamps;
            body = b;
          }))
          (join-split b'\n' m.body)
