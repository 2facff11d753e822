-- ===== src/Text/Numbers.antt =====
-- `strconv.ParseInt` for 64 bits in base 10 and in base 0, with the value that it gives beside an error.
use goreplay.Base.{
  ℕ, ◌+◌, ◌-◌, ◌*◌, ◌^◌, ◌<◌, ◌≡◌, ◌≢◌, All, lt→ltb, refl, ap, ◌∙◌, Bool, true, false, not, ◌&&◌,
  ◌||◌, Bytes, [], ◌∷◌, Option, none, some, ltb, leb, ◌==◌, if◌then◌else◌, arith,
}
use goreplay.Text.Ints.{ℤ, pos}
use goreplay.Text.Decimal.{
  is_digit, negative, format_ℕ, read_digits, read_digits-format, read_digits-grows, IsDigit,
  format_ℕ-IsDigit, format_ℕ-ne-nil,
}

-- What `ParseUint` comes to: a number, a text that is none, a number above 64 bits.
pub data Parsed : Type 0 where
  value : ℕ → Parsed
  syntax range : Parsed

-- A letter in its lower case.
abbrev pub lower : ℕ → ℕ
lower c = if leb b'A' c && leb c b'Z' then c + 32 else c

abbrev pub digit_value : ℕ → Option ℕ
digit_value c =
    if is_digit c
    then some (c - b'0')
    else if leb b'a' (lower c) && leb (lower c) b'z'
    then some (lower c - b'a' + 10)
    else none

-- The loop of `ParseUint`; `lines` says that underscores are passed over.
unfoldable pub read_uint : Bool → ℕ → ℕ → Bytes → Parsed
read_uint lines base n [] = value n
read_uint lines base n (c ∷ s) =
    let skipped = read_uint lines base n s in
    elim (digit_value c) [
      | none ↦ if lines && c == b'_' then skipped else syntax
      | some d ↦
          let rest = read_uint lines base (n * base + d) s in
          if leb base d then syntax else if leb (2 ^ 64) (n * base + d) then range else rest
    ]

-- `underscoreOK` behind the sign and the prefix: `seen` is the class of the byte in front.
pub data Seen : Type 0 where
  start digit line other : Seen

unfoldable pub lines_ok : Bool → Seen → Bytes → Bool
lines_ok hex line [] = false
lines_ok hex _ [] = true
lines_ok hex seen (c ∷ s) =
    let behind_digit = lines_ok hex digit s in
    let behind_line = lines_ok hex line s in
    let behind_other = lines_ok hex other s in
    if is_digit c || (hex && (leb b'a' (lower c) && leb (lower c) b'f'))
    then behind_digit
    else if c == b'_'
    then elim seen [ digit ↦ behind_line | _ ↦ false ]
    else elim seen [ line ↦ false | _ ↦ behind_other ]

-- The base that a prefix `0b`, `0o` or `0x` gives.
abbrev pub prefix_base : ℕ → Option ℕ
prefix_base c =
    if c == b'b' then some 2 else if c == b'o' then some 8 else if c == b'x' then some 16 else none

unfoldable pub underscore_ok : Bytes → Bool
underscore_ok (c ∷ (d ∷ s)) =
    if c == b'0'
    then elim (prefix_base (lower d)) [
      | none ↦ lines_ok false start (c ∷ (d ∷ s))
      | some base ↦ lines_ok (base == 16) digit s
    ]
    else lines_ok false start (c ∷ (d ∷ s))
underscore_ok s = lines_ok false start s

abbrev pub has_line : Bytes → Bool
has_line [] = false
has_line (c ∷ s) = c == b'_' || has_line s

-- The digits behind the prefix in their base. A prefix needs a digit behind it.
unfoldable pub read_prefixed : Bytes → Parsed
read_prefixed [] = value 0
read_prefixed (d ∷ []) = read_uint true 8 0 (d ∷ [])
read_prefixed (d ∷ (e ∷ s)) = elim (prefix_base (lower d)) [
  | none ↦ read_uint true 8 0 (d ∷ (e ∷ s))
  | some base ↦ read_uint true base 0 (e ∷ s)
]

-- `ParseUint` with base 0.
unfoldable pub parse_uint : Bytes → Parsed
parse_uint [] = syntax
parse_uint (c ∷ s) =
    let n = if c == b'0' then read_prefixed s else read_uint true 10 0 (c ∷ s) in
    elim n [
      | value m ↦ if has_line (c ∷ s) && not (underscore_ok (c ∷ s)) then syntax else value m
      | syntax ↦ syntax
      | range ↦ range
    ]

-- `ParseUint` with base 10.
abbrev pub parse_decimal : Bytes → Parsed
parse_decimal [] = syntax
parse_decimal s = read_uint false 10 0 s

abbrev pub max_int : ℤ
max_int = pos (2 ^ 63 - 1)

abbrev pub min_int : ℤ
min_int = negative (2 ^ 63)

-- The end of `ParseInt`: the value, and whether there was no error.
abbrev pub signed : Bool → Parsed → ℤ × Bool
signed minus syntax = (pos 0, false)
signed true range = (min_int, false)
signed false range = (max_int, false)
signed true (value n) = if leb n (2 ^ 63) then (negative n, true) else (min_int, false)
signed false (value n) = if ltb n (2 ^ 63) then (pos n, true) else (max_int, false)

-- `ParseInt`, with the reader of the digits behind the sign.
unfoldable pub parse_signed : (Bytes → Parsed) → Bytes → ℤ × Bool
parse_signed digits_of [] = (pos 0, false)
parse_signed digits_of (c ∷ s) =
    if c == b'-'
    then signed true (digits_of s)
    else if c == b'+'
    then signed false (digits_of s)
    else signed false (digits_of (c ∷ s))

-- The value of a decimal text, where the error is dropped.
unfoldable pub int_of : Bytes → ℤ
int_of s = (parse_signed parse_decimal s).0

-- The value in base 0, where the prefix says the base.
unfoldable pub parse_int_any : Bytes → ℤ × Bool
parse_int_any s = parse_signed parse_uint s

read_uint-digits :
    (n : ℕ) (s : Bytes) (m : ℕ)
    → read_digits n s ≡ some m
    → m < 2 ^ 64
    → read_uint false 10 n s ≡ value m
unfolding read_digits read_uint
read_uint-digits n [] m h k = ground arith
read_uint-digits n (c ∷ s) m h k =
    let low = read_digits-grows (n * 10 + (c - b'0')) s m in
    ground (arith, low, read_uint-digits (n * 10 + (c - b'0')) s m)

parse_signed-digit :
    (f : Bytes → Parsed) (c : ℕ) (s : Bytes)
    → IsDigit c
    → parse_signed f (c ∷ s) ≡ signed false (f (c ∷ s))
unfolding parse_signed
parse_signed-digit f c s d =
    let minus : (c == b'-') ≡ false = ground arith in
    let plus : (c == b'+') ≡ false = ground arith in rw (minus, parse_signed) (rw plus refl)

signed-small : (n : ℕ) → n < 2 ^ 63 → signed false (value n) ≡ (pos n, true)
signed-small n k = rw (lt→ltb n (2 ^ 63) k) refl

int_of-digits :
    (c : ℕ) (s : Bytes) (n : ℕ)
    → IsDigit c
    → read_digits 0 (c ∷ s) ≡ some n
    → n < 2 ^ 63
    → int_of (c ∷ s) ≡ pos n
unfolding int_of
int_of-digits c s n d e k =
    ap (λ r. r.0)
      (parse_signed-digit parse_decimal c s d
        ∙ (ap (signed false) (read_uint-digits 0 (c ∷ s) n e (omega arith)) ∙ signed-small n k))

-- The value of a printed number.
pub int_of-format : (n : ℕ) → n < 2 ^ 63 → int_of (format_ℕ n) ≡ pos n
int_of-format n k =
    of_digits (format_ℕ n) (format_ℕ-ne-nil n) (format_ℕ-IsDigit n) (read_digits-format n)
  where
    of_digits : (s : Bytes) → s ≢ [] → All IsDigit s → read_digits 0 s ≡ some n → int_of s ≡ pos n
    of_digits [] h d e = absurd (h refl)
    of_digits (c ∷ s) h (d, ds) e = int_of-digits c s n d e k
