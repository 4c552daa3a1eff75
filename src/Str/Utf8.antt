-- ===== src/Str/Utf8.antt =====
-- UTF-8: `str.encode("utf-8")` and the strict `bytes.decode("utf-8")`.
use titlani.Base.{
  ℕ, zero, suc, ◌+◌, ◌-◌, ◌*◌, ◌/◌, ◌%◌, ◌<◌, Bool, true, ◌&&◌, ◌||◌, [], ◌∷◌, ◌++◌, ◌≡◌, refl,
  arith, if◌then◌else◌, leb, ltb, Option, none, some, All, append_assoc, All-append, Lacks, ◌≢◌,
}
use titlani.Str.Core.{Text, Bytes}

encode_char : ℕ → Bytes
encode_char c =
    if ltb c 0x80
    then c ∷ []
    else if ltb c 0x800
    then (0xc0 + c / 64) ∷ (0x80 + c % 64) ∷ []
    else if ltb c 0x10000
    then (0xe0 + c / 4096) ∷ (0x80 + c / 64 % 64) ∷ (0x80 + c % 64) ∷ []
    else (0xf0 + c / 262144) ∷ (0x80 + c / 4096 % 64) ∷ (0x80 + c / 64 % 64) ∷ (0x80 + c % 64) ∷ []

-- `t.encode("utf-8")`
unfoldable pub encode : Text → Bytes
unfolding encode_char
encode [] = []
encode (c ∷ t) = encode_char c ++ encode t

-- A scalar value: a code point that is no surrogate.
unfoldable pub is_scalar : ℕ → Bool
is_scalar c = ltb c 0xd800 || (leb 0xe000 c && leb c 0x10ffff)

-- What a byte does where a character is due: the continuation bytes to come, the bits so far and
-- the least value that this length may spell.
pub record Pending : Type 0 where
  pub need : ℕ
  pub bits : ℕ
  pub least : ℕ

lead : ℕ → Option Pending
lead b =
    if ltb b 0x80
    then some (record { need = 0; bits = b; least = 0 })
    else if leb 0xc0 b && ltb b 0xe0
    then some (record { need = 1; bits = b - 0xc0; least = 0x80 })
    else if leb 0xe0 b && ltb b 0xf0
    then some (record { need = 2; bits = b - 0xe0; least = 0x800 })
    else if leb 0xf0 b && ltb b 0xf8
    then some (record { need = 3; bits = b - 0xf0; least = 0x10000 })
    else none

-- The decoder between characters (`idle`), or inside one: `need` more bytes after this one.
pub data State : Type 0 where
  idle : State
  inside : ℕ → ℕ → ℕ → State

-- A character is complete: its value, if UTF-8 may spell it so.
complete : ℕ → ℕ → Option (State × Text)
unfolding is_scalar
complete bits least = if leb least bits && is_scalar bits then some (idle, bits ∷ []) else none

begin : Option Pending → Option (State × Text)
unfolding complete
begin none = none
begin (some p) = start p.need p.bits p.least
  where
    start : ℕ → ℕ → ℕ → Option (State × Text)
    start zero bits least = complete bits least
    start (suc n) bits least = some (inside n bits least, [])

step : State → ℕ → Option (State × Text)
unfolding lead begin complete
step idle b = begin (lead b)
step (inside zero bits least) b =
    if leb 0x80 b && ltb b 0xc0 then complete (bits * 64 + (b - 0x80)) least else none
step (inside (suc n) bits least) b =
    if leb 0x80 b && ltb b 0xc0 then some (inside n (bits * 64 + (b - 0x80)) least, []) else none

decode_from : State → Bytes → Option Text
unfolding step
decode_from idle [] = some []
decode_from (inside _ _ _) [] = none
decode_from s (b ∷ bs) = elim (step s b) [
  | none ↦ none
  | some (s', out) ↦ elim (decode_from s' bs) [ none ↦ none | some t ↦ some (out ++ t) ]
]

-- `b.decode("utf-8")`; `none` is `UnicodeDecodeError`.
unfoldable pub decode : Bytes → Option Text
unfolding decode_from
decode bs = decode_from idle bs

abbrev pub IsText : Text → Type 0
IsText = All (λ c. is_scalar c ≡ true)

decode_from-encode_char :
    (c : ℕ) (bs : Bytes) {t : Text}
    → is_scalar c ≡ true
    → decode_from idle bs ≡ some t
    → decode_from idle (encode_char c ++ bs) ≡ some (c ∷ t)
unfolding decode_from encode_char
decode_from-encode_char c bs h e = ground arith

-- Every text is what its encoding decodes to.
pub decode-encode : (t : Text) → IsText t → decode (encode t) ≡ some t
unfolding decode encode
decode-encode [] h = refl
decode-encode (c ∷ t) (hc, h) = decode_from-encode_char c (encode t) hc (decode-encode t h)

pub encode-append : (s t : Text) → encode (s ++ t) ≡ encode s ++ encode t
unfolding encode
encode-append [] t = refl
encode-append (c ∷ s) t = simp (encode-append s t, append_assoc)

-- An ASCII character that the text lacks is no byte of its encoding.
encode_char-Lacks : (b c : ℕ) → b < 128 → c ≢ b → Lacks b (encode_char c)
unfolding encode_char
encode_char-Lacks b c hb ne = ground arith

pub encode-Lacks : (b : ℕ) (t : Text) → b < 128 → Lacks b t → Lacks b (encode t)
unfolding encode
encode-Lacks b [] hb h = tt
encode-Lacks b (c ∷ t) hb (hc, h) =
    All-append (λ d. d ≢ b) (encode_char c) (encode t) (encode_char-Lacks b c hb hc)
      (encode-Lacks b t hb h)
