-- ===== src/Text/Hex.antt =====
-- `hex.Encode` and `hex.Decode` of `encoding/hex`.
use goreplay.Base.{
  ℕ, ◌+◌, ◌-◌, ◌*◌, ◌/◌, ◌%◌, ◌≤◌, ◌<◌, ◌≡◌, refl, ap, Bool, true, false, ◌&&◌, Bytes, [], ◌∷◌,
  Option, none, some, All, ltb, leb, if◌then◌else◌, arith, length,
}

abbrev pub hex_digit : ℕ → ℕ
hex_digit n = if ltb n 10 then b'0' + n else b'a' + (n - 10)

unfoldable pub hex_encode : Bytes → Bytes
hex_encode [] = []
hex_encode (c ∷ s) = hex_digit (c / 16) ∷ (hex_digit (c % 16) ∷ hex_encode s)

-- `fromHexChar`
abbrev pub hex_digit_value : ℕ → Option ℕ
hex_digit_value c =
    if leb b'0' c && leb c b'9'
    then some (c - b'0')
    else if leb b'a' c && leb c b'f'
    then some (c - b'a' + 10)
    else if leb b'A' c && leb c b'F'
    then some (c - b'A' + 10)
    else none

abbrev pub hex_pair : Option ℕ → Option ℕ → Option ℕ
hex_pair (some a) (some b) = some (a * 16 + b)
hex_pair _ _ = none

-- What `hex.Decode` has written when it returns: the bytes in front of the first fault, and whether
-- it met one. An odd length is a fault too.
unfoldable pub hex_decode : Bytes → Bytes × Bool
hex_decode [] = ([], true)
hex_decode (c ∷ []) = ([], false)
hex_decode (c ∷ (d ∷ s)) =
    let rest = hex_decode s in
    elim (hex_pair (hex_digit_value c) (hex_digit_value d)) [
      | none ↦ ([], false)
      | some n ↦ (n ∷ rest.0, rest.1)
    ]

abbrev pub IsByte : ℕ → Type 0
IsByte c = c < 256

hex_digit_value-digit : (n : ℕ) → n < 16 → hex_digit_value (hex_digit n) ≡ some n
hex_digit_value-digit n h = ground arith

pub hex_decode-encode : (s : Bytes) → All IsByte s → hex_decode (hex_encode s) ≡ (s, true)
unfolding hex_decode hex_encode
hex_decode-encode [] h = refl
hex_decode-encode (c ∷ s) (hc, h) =
    rw (hex_digit_value-digit (c / 16) (omega arith), hex_decode)
      (rw (hex_digit_value-digit (c % 16) (omega arith))
        (rw (hex_decode-encode s h) (ap (λ n. (n ∷ s, true)) (omega arith))))

pub length-hex_encode : (s : Bytes) → length (hex_encode s) ≡ 2 * length s
unfolding hex_encode
length-hex_encode [] = refl
length-hex_encode (c ∷ s) = omega (arith, length-hex_encode s)

abbrev pub IsHexDigit : ℕ → Type 0
IsHexDigit c = (b'0' ≤ c) × (c ≤ b'f')

hex_digit_bounds : (n : ℕ) → n < 16 → IsHexDigit (hex_digit n)
hex_digit_bounds n h = ground arith

pub hex_encode-IsHexDigit : (s : Bytes) → All IsByte s → All IsHexDigit (hex_encode s)
unfolding hex_encode
hex_encode-IsHexDigit [] h = tt
hex_encode-IsHexDigit (c ∷ s) (hc, h) = (
  hex_digit_bounds (c / 16) (omega arith),
  (hex_digit_bounds (c % 16) (omega arith), hex_encode-IsHexDigit s h),
)
