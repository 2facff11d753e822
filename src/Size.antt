-- ===== src/Size.antt =====
-- size/size.go: `Set`, for texts in ASCII. The expressions are written out: an optional prefix and one or
-- more digits, letters a to f or underscores, with a unit behind them.
pub mod Examples
use goreplay.Base.{
  ℕ, suc, ◌+◌, ◌-◌, ◌*◌, ◌%◌, ◌^◌, Bool, true, false, not, ◌&&◌, ◌||◌, Bytes, Option, none, some,
  List, [], ◌∷◌, length, take, drop, ltb, leb, ◌==◌, if◌then◌else◌,
}
use goreplay.Text.Ints.{ℤ, pos, negsuc}
use goreplay.Text.Decimal.{is_digit, negative}
use goreplay.Text.Numbers.{lower, prefix_base, parse_int_any}
use goreplay.Modifier.{is_nil}

-- `[\da-f_]`, in either case.
abbrev pub is_number_byte : ℕ → Bool
is_number_byte c = is_digit c || ((leb b'a' (lower c) && leb (lower c) b'f') || c == b'_')

abbrev pub are_number_bytes : Bytes → Bool
are_number_bytes [] = true
are_number_bytes (c ∷ s) = is_number_byte c && are_number_bytes s

abbrev pub is_some : Option ℕ → Bool
is_some none = false
is_some (some n) = true

-- The prefix and the bytes behind it, of which there is one at least.
abbrev pub behind_prefix : Bytes → Bool
behind_prefix (c ∷ (d ∷ s)) =
    (c == b'0' && is_some (prefix_base (lower d))) && (not (is_nil s) && are_number_bytes s)
behind_prefix _ = false

-- The part of the expressions in front of the unit.
unfoldable pub is_number_text : Bytes → Bool
is_number_text s = (not (is_nil s) && are_number_bytes s) || behind_prefix s

-- The exponent of a unit: kb, mb, gb and tb.
abbrev pub unit_of : Bytes → Option ℕ
unit_of (c ∷ (d ∷ [])) =
    if not (lower d == b'b')
    then none
    else if lower c == b'k'
    then some 10
    else if lower c == b'm'
    then some 20
    else if lower c == b'g'
    then some 30
    else if lower c == b't'
    then some 40
    else none
unit_of _ = none

-- The product of 64-bit integers, by its pattern of bits.
abbrev pub from_pattern : ℕ → ℤ
from_pattern p = if ltb p (2 ^ 63) then pos p else negsuc (2 ^ 64 - 1 - p)

abbrev pub times : ℤ → ℕ → ℤ
times (pos n) k = from_pattern (n * k % 2 ^ 64)
times (negsuc n) k = from_pattern ((2 ^ 64 - suc n * k % 2 ^ 64) % 2 ^ 64)

-- `Set`: the size behind it, and whether there was no error. The size changes with an error of
-- `ParseInt` too.
unfoldable pub set_size : ℤ → Bytes → ℤ × Bool
set_size old [] = (old, true)
set_size old s =
    let front = take (length s - 2) s in
    let number = parse_int_any front in
    if is_number_text s
    then parse_int_any s
    else if not (is_number_text front)
    then (old, false)
    else elim (unit_of (drop (length s - 2) s)) [
      | none ↦ (old, false)
      | some e ↦ (times number.0 (2 ^ e), number.1)
    ]
