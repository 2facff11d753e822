-- ===== src/Modifier/OptionExamples.antt =====
-- Runs of `Set`, and their theorem at concrete options.
use goreplay.Base.{
  ℕ, ◌/◌, ◌*◌, ◌≡◌, refl, Bytes, codes, if◌then◌else◌, Bool, true, has_prefix, Option, none, some,
  [], ◌∷◌,
}
use goreplay.Modifier.{Regexp}
use goreplay.Modifier.Options.{Result, appended, set_hash_filter}

-- A compiler that knows literal texts, and refuses what begins with a star.
abbrev compile_text : Bytes → Option Regexp
compile_text s =
    if has_prefix s (b'*' ∷ [])
    then none
    else some (record { matches = λ t. true; replace_all = λ t target. t })

abbrev share : ℕ → ℕ → ℕ
share num den = num * 100 / den

-- A leading zero makes the share an octal number.
octal :
    set_hash_filter share [] (codes "user: 025%")
    ≡ appended [] (record { name = codes "user"; percent = 21 })
unfolding set_hash_filter goreplay.Text.Split.split_two goreplay.Base.index_byte
    goreplay.Modifier.Options.percent_of goreplay.Text.Split.contains goreplay.Base.index
    goreplay.Text.Split.trim_space goreplay.Text.Split.trim_right goreplay.Text.Split.trim_left
    goreplay.Text.Numbers.parse_int_any goreplay.Text.Numbers.parse_signed
    goreplay.Text.Numbers.parse_uint goreplay.Text.Numbers.read_prefixed
    goreplay.Text.Numbers.read_uint
octal = refl
