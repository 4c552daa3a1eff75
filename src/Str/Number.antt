-- ===== src/Str/Number.antt =====
-- `int(text)` and `str(n)` in decimal.
use titlani.Base.{
  ℕ, zero, suc, ◌+◌, ◌-◌, ◌*◌, ◌/◌, ◌%◌, ◌^◌, ◌≤◌, ◌<◌, Bool, true, false, ◌&&◌, List, [], ◌∷◌,
  ◌==◌, ◌≡◌, ◌≢◌, refl, ap, ◌∙◌, arith, if◌then◌else◌, leb, ltb, Option, none, some, All, All-imp,
  ℤ, pos, negsuc, neg_of,
}
use titlani.Str.Core.{Text}
use titlani.Str.Strip.{is_space, strip_by, strip_by-All}
use native.Mathlib.Nat.{pow-suc}

-- Where the other decimal digits of Unicode begin; each row has ten of them in order.
abbrev other_zeros : List ℕ
other_zeros =
    0x660 ∷ 0x6f0 ∷ 0x7c0 ∷ 0x966 ∷ 0x9e6 ∷ 0xa66 ∷ 0xae6 ∷ 0xb66 ∷ 0xbe6 ∷ 0xc66 ∷ 0xce6 ∷ 0xd66
    ∷ 0xde6 ∷ 0xe50 ∷ 0xed0 ∷ 0xf20 ∷ 0x1040 ∷ 0x1090 ∷ 0x17e0 ∷ 0x1810 ∷ 0x1946 ∷ 0x19d0 ∷ 0x1a80
    ∷ 0x1a90 ∷ 0x1b50 ∷ 0x1bb0 ∷ 0x1c40 ∷ 0x1c50 ∷ 0xa620 ∷ 0xa8d0 ∷ 0xa900 ∷ 0xa9d0 ∷ 0xa9f0
    ∷ 0xaa50 ∷ 0xabf0 ∷ 0xff10 ∷ 0x104a0 ∷ 0x10d30 ∷ 0x11066 ∷ 0x110f0 ∷ 0x11136 ∷ 0x111d0 ∷ 0x112f0
    ∷ 0x11450 ∷ 0x114d0 ∷ 0x11650 ∷ 0x116c0 ∷ 0x11730 ∷ 0x118e0 ∷ 0x11950 ∷ 0x11c50 ∷ 0x11d50
    ∷ 0x11da0 ∷ 0x11f50 ∷ 0x16a60 ∷ 0x16ac0 ∷ 0x16b50 ∷ 0x1d7ce ∷ 0x1d7d8 ∷ 0x1d7e2 ∷ 0x1d7ec
    ∷ 0x1d7f6 ∷ 0x1e140 ∷ 0x1e2f0 ∷ 0x1e4f0 ∷ 0x1e950 ∷ 0x1fbf0 ∷ []

unfoldable pub digit_in : List ℕ → ℕ → Option ℕ
digit_in [] c = none
digit_in (z ∷ zs) c =
    let rest = digit_in zs c in if leb z c && ltb c (z + 10) then some (c - z) else rest

unfoldable pub digit_value : ℕ → Option ℕ
unfolding digit_in
digit_value c = if leb b'0' c && leb c b'9' then some (c - b'0') else digit_in other_zeros c

-- One character of a number: `after` says that the last one was a digit, as it must be before an
-- underscore and at the end.
scan_char : Bool → ℕ → ℕ → Option (Bool × ℕ)
unfolding digit_value
scan_char after n c = elim (digit_value c) [
  | some d ↦ some (true, n * 10 + d)
  | none ↦ if c == b'_' && after then some (false, n) else none
]

scan : Bool → ℕ → Text → Option ℕ
unfolding scan_char
scan after n [] = if after then some n else none
scan after n (c ∷ t) = elim (scan_char after n c) [ none ↦ none | some (b, m) ↦ scan b m t ]

-- The interpreter refuses to read more than this many digits.
abbrev max_str_digits : ℕ
max_str_digits = 4300

digit_count : Text → ℕ
digit_count [] = 0
digit_count (c ∷ t) = (if c == b'_' then 0 else 1) + digit_count t

magnitude : Text → Option ℕ
unfolding scan digit_count
magnitude t = if ltb max_str_digits (digit_count t) then none else scan false 0 t

signed : Text → Option ℤ
unfolding magnitude
signed [] = none
signed (c ∷ t) =
    if c == b'-'
    then elim (magnitude t) [ none ↦ none | some n ↦ some (neg_of n) ]
    else if c == b'+'
    then elim (magnitude t) [ none ↦ none | some n ↦ some (pos n) ]
    else elim (magnitude (c ∷ t)) [ none ↦ none | some n ↦ some (pos n) ]

-- The white space that `int` skips: that of `isspace`, less the four ASCII separators.
int_space : ℕ → Bool
int_space c = if leb 28 c && leb c 31 then false else is_space c

-- `int(t)`; `none` is `ValueError`.
unfoldable pub parse_int : Text → Option ℤ
unfolding signed int_space
parse_int t = signed (strip_by int_space t)

-- The digits of `n` in front of `out`; the fuel `n + 1` is enough.
digits : ℕ → ℕ → Text → Text
digits zero n out = out
digits (suc f) n out = elim (ltb n 10) [
  | true ↦ (b'0' + n) ∷ out
  | false ↦ digits f (n / 10) ((b'0' + n % 10) ∷ out)
]

-- `str(n)` for a number that is not negative
unfoldable pub decimal : ℕ → Text
unfolding digits
decimal n = digits (suc n) n []

-- `str(n)`
unfoldable pub str_of_int : ℤ → Text
str_of_int (pos n) = decimal n
str_of_int (negsuc n) = b'-' ∷ decimal (suc n)

abbrev pub IsDigit : ℕ → Type 0
IsDigit c = (b'0' ≤ c) × (c ≤ b'9')

digits-All : (f n : ℕ) (out : Text) → All IsDigit out → All IsDigit (digits f n out)
unfolding digits
digits-All zero n out h = h
digits-All (suc f) n out h = ground (arith, digits-All f (n / 10) ((b'0' + n % 10) ∷ out))

scan-digits :
    (f n : ℕ) (after : Bool) (out : Text) → n < f → scan after 0 (digits f n out) ≡ scan true n out
unfolding scan digits digit_value
scan-digits zero n after out h = absurd (omega arith)
scan-digits (suc f) n after out h =
    ground (arith, scan-digits f (n / 10) after ((b'0' + n % 10) ∷ out))

-- A number below a hundred thousand has at most five digits.
digit_count-digits :
    (f n k : ℕ) (out : Text)
    → n < 10 ^ suc k
    → digit_count (digits f n out) ≤ suc k + digit_count out
unfolding digits digit_count
digit_count-digits zero n k out h = omega arith
digit_count-digits (suc f) n zero out h = ground arith
digit_count-digits (suc f) n (suc k) out h = ground (
  arith,
  digit_count-digits f (n / 10) k ((b'0' + n % 10) ∷ out) (omega (arith, pow-suc 10 (suc k))),
)

digits-ne-nil : (f n : ℕ) (out : Text) → digits (suc f) n out ≢ []
unfolding digits
digits-ne-nil zero n out = ground arith
digits-ne-nil (suc f) n out = ground (arith, digits-ne-nil f (n / 10) ((b'0' + n % 10) ∷ out))

pub decimal-ne-nil : (n : ℕ) → decimal n ≢ []
unfolding decimal
decimal-ne-nil n = digits-ne-nil n n []

decimal_digits : (n : ℕ) → All IsDigit (decimal n)
unfolding decimal
decimal_digits n = digits-All (suc n) n [] tt

-- What holds of the ten digits holds of each character of a decimal print.
pub decimal-All : (P : ℕ → Type 0) (n : ℕ) → ((c : ℕ) → IsDigit c → P c) → All P (decimal n)
decimal-All P n f = All-imp IsDigit P f (decimal n) (decimal_digits n)

IsDigit-int_space : (t : Text) → All IsDigit t → All (λ c. int_space c ≡ false) t
unfolding int_space is_space
IsDigit-int_space [] h = tt
IsDigit-int_space (c ∷ t) (hc, h) = (ground arith, IsDigit-int_space t h)

signed_digits :
    (t : Text) {n : ℕ} → t ≢ [] → All IsDigit t → magnitude t ≡ some n → signed t ≡ some (pos n)
unfolding signed
signed_digits [] ne h e = absurd (ne refl)
signed_digits (c ∷ t) ne (hc, h) e = ground arith

magnitude_short :
    (t : Text) {n : ℕ}
    → digit_count t ≤ max_str_digits
    → scan false 0 t ≡ some n
    → magnitude t ≡ some n
unfolding magnitude
magnitude_short t h e = ground arith

-- Every number below a hundred thousand is read back from its decimal print.
pub parse_int-decimal : (n : ℕ) → n < 100000 → parse_int (decimal n) ≡ some (pos n)
unfolding parse_int decimal
parse_int-decimal n h =
    let all_digits = digits-All (suc n) n [] tt in
    let few = digit_count-digits (suc n) n 4 [] h in
    ap signed (strip_by-All int_space (digits (suc n) n []) (IsDigit-int_space _ all_digits))
    ∙ signed_digits (digits (suc n) n []) (digits-ne-nil n n []) all_digits (
        magnitude_short (digits (suc n) n []) (omega (arith, few))
          (scan-digits (suc n) n false [] (omega arith)))
