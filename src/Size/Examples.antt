-- ===== src/Size/Examples.antt =====
-- Runs of `Set`.
use goreplay.Base.{◌≡◌, refl, true, false, codes}
use goreplay.Text.Ints.{pos, negsuc}
use goreplay.Text.Numbers.{parse_int_any, parse_signed, parse_uint, read_uint, read_prefixed}
use goreplay.Size.{set_size, is_number_text}

megabytes : set_size (pos 1) (codes "32mb") ≡ (pos 33554432, true)
unfolding set_size is_number_text parse_int_any parse_signed parse_uint read_uint
megabytes = refl

no_unit : set_size (pos 1) (codes "32m") ≡ (pos 1, false)
unfolding set_size is_number_text
no_unit = refl

hexadecimal : set_size (pos 1) (codes "0x10KB") ≡ (pos 16384, true)
unfolding set_size is_number_text parse_int_any parse_signed parse_uint read_uint read_prefixed
hexadecimal = refl

-- A size above 64 bits wraps, with no error.
wrapped : set_size (pos 1) (codes "8388608tb") ≡ (negsuc 9223372036854775807, true)
unfolding set_size is_number_text parse_int_any parse_signed parse_uint read_uint
wrapped = refl
