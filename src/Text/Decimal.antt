-- ===== src/Text/Decimal.antt =====
-- `strconv.Itoa`, `strconv.Atoi` and the `%d` of `fmt`, for 64-bit integers.
use goreplay.Base.{
  ℕ, zero, suc, ◌+◌, ◌-◌, ◌*◌, ◌/◌, ◌%◌, ◌^◌, ◌≤◌, ◌<◌, ◌≡◌, ◌≢◌, refl, sym, ap, subst, ◌∙◌, Bool,
  false, ◌&&◌, Bytes, [], ◌∷◌, ◌++◌, Option, none, some, All, All-append, ltb, leb, ◌==◌,
  if◌then◌else◌, arith, lt→ltb, le→ltb, dec_lt,
}
use goreplay.Text.Ints.{ℤ, pos, negsuc}

-- The digits of a number, with a round for each; `n + 1` rounds are enough, since each divides by ten.
unfoldable pub digits : ℕ → ℕ → Bytes
digits zero n = []
digits (suc fuel) n =
    let more = digits fuel (n / 10) ++ ((b'0' + n % 10) ∷ []) in
    if ltb n 10 then (b'0' + n) ∷ [] else more

unfoldable pub format_ℕ : ℕ → Bytes
format_ℕ n = digits (suc n) n

unfoldable pub format_int : ℤ → Bytes
format_int (pos n) = format_ℕ n
format_int (negsuc n) = b'-' ∷ format_ℕ (n + 1)

abbrev pub is_digit : ℕ → Bool
is_digit c = leb b'0' c && leb c b'9'

-- The number that digits spell behind `n`; `none` at any other byte.
unfoldable pub read_digits : ℕ → Bytes → Option ℕ
read_digits n [] = some n
read_digits n (c ∷ s) =
    let rest = read_digits (n * 10 + (c - b'0')) s in if is_digit c then rest else none

abbrev pub in_range : ℕ → (ℕ → ℤ) → Option ℕ → Option ℤ
in_range bound f none = none
in_range bound f (some n) = if ltb n bound then some (f n) else none

abbrev pub negative : ℕ → ℤ
negative zero = pos 0
negative (suc n) = negsuc n

-- `strconv.Atoi`, with `none` for its error: a sign and digits of a 64-bit integer.
unfoldable pub parse_int : Bytes → Option ℤ
parse_int [] = none
parse_int (c ∷ []) = if is_digit c then some (pos (c - b'0')) else none
parse_int (c ∷ (d ∷ s)) =
    if c == b'-'
    then in_range (2 ^ 63 + 1) negative (read_digits 0 (d ∷ s))
    else if c == b'+'
    then in_range (2 ^ 63) pos (read_digits 0 (d ∷ s))
    else in_range (2 ^ 63) pos (read_digits 0 (c ∷ (d ∷ s)))

abbrev pub IsDigit : ℕ → Type 0
IsDigit c = (b'0' ≤ c) × (c ≤ b'9')

pub digits-IsDigit : (fuel n : ℕ) → All IsDigit (digits fuel n)
unfolding digits
digits-IsDigit zero n = tt
digits-IsDigit (suc fuel) n = elim (dec_lt n 10) [
  | yes h ↦ rw (lt→ltb n 10 h) ((omega arith, omega arith), tt)
  | no h ↦ rw (le→ltb n 10 (omega arith)) (
      All-append IsDigit (digits fuel (n / 10)) _ (digits-IsDigit fuel (n / 10))
        ((omega arith, omega arith), tt))
]

pub read_digits-grows : (n : ℕ) (s : Bytes) (m : ℕ) → read_digits n s ≡ some m → n ≤ m
unfolding read_digits
read_digits-grows n [] m h = ground (arith, h)
read_digits-grows n (c ∷ s) m h = ground (arith, read_digits-grows (n * 10 + (c - 48)) s m)

read_digits-append :
    (n : ℕ) (s t : Bytes) (m : ℕ)
    → read_digits n s ≡ some m
    → read_digits n (s ++ t) ≡ read_digits m t
unfolding read_digits
read_digits-append n [] t m h = ground (arith, h)
read_digits-append n (c ∷ s) t m h = ground (arith, read_digits-append (n * 10 + (c - b'0')) s t m)

read_digits-digits : (fuel n : ℕ) → n < fuel → read_digits 0 (digits fuel n) ≡ some n
unfolding digits read_digits
read_digits-digits zero n h = absurd (omega arith)
read_digits-digits (suc fuel) n h = elim (dec_lt n 10) [
  | yes small ↦ rw (lt→ltb n 10 small) (ground arith)
  | no large ↦ rw (le→ltb n 10 (omega arith)) (
      read_digits-append 0 (digits fuel (n / 10)) _ (n / 10)
        (read_digits-digits fuel (n / 10) (omega arith))
      ∙ ground arith)
]

pub read_digits-format : (n : ℕ) → read_digits 0 (format_ℕ n) ≡ some n
unfolding format_ℕ
read_digits-format n = read_digits-digits (suc n) n (omega arith)

pub format_ℕ-IsDigit : (n : ℕ) → All IsDigit (format_ℕ n)
unfolding format_ℕ
format_ℕ-IsDigit n = digits-IsDigit (suc n) n

-- A text of digits is read as its number.
parse_int-one :
    (c n : ℕ) → IsDigit c → read_digits 0 (c ∷ []) ≡ some n → parse_int (c ∷ []) ≡ some (pos n)
unfolding parse_int read_digits
parse_int-one c n d e = ground arith

parse_int-more :
    (c x : ℕ) (s : Bytes) (n : ℕ)
    → IsDigit c
    → read_digits 0 (c ∷ (x ∷ s)) ≡ some n
    → n < 2 ^ 63
    → parse_int (c ∷ (x ∷ s)) ≡ some (pos n)
unfolding parse_int
parse_int-more c x s n d e k =
    let minus : (c == b'-') ≡ false = ground arith in
    let plus : (c == b'+') ≡ false = ground arith in
    rw (minus, parse_int) (rw plus (rw e (rw (lt→ltb n (2 ^ 63) k) refl)))

pub parse_int-digits :
    (s : Bytes) (n : ℕ)
    → s ≢ []
    → All IsDigit s
    → read_digits 0 s ≡ some n
    → n < 2 ^ 63
    → parse_int s ≡ some (pos n)
parse_int-digits [] n h d e k = absurd (h refl)
parse_int-digits (c ∷ []) n h (d, ds) e k = parse_int-one c n d e
parse_int-digits (c ∷ (x ∷ s)) n h (d, ds) e k = parse_int-more c x s n d e k

pub format_ℕ-ne-nil : (n : ℕ) → format_ℕ n ≢ []
unfolding read_digits
format_ℕ-ne-nil n e =
    let read : read_digits 0 [] ≡ some n = ap (read_digits 0) (sym e) ∙ read_digits-format n in
    let zero_is : n ≡ 0 = ground arith in ne_at_zero (subst (λ k. format_ℕ k ≡ []) zero_is e)
  where
    ne_at_zero : format_ℕ 0 ≢ []
    ne_at_zero = unfold format_ℕ digits in λ h. cc

-- Every 64-bit number is read back from its decimal print.
pub parse_int-format : (n : ℕ) → n < 2 ^ 63 → parse_int (format_ℕ n) ≡ some (pos n)
parse_int-format n h =
    parse_int-digits (format_ℕ n) n (format_ℕ-ne-nil n) (format_ℕ-IsDigit n) (read_digits-format n)
      h
