-- ===== src/Modifier/Options.antt =====
-- http_modifier_settings.go: the `Set` methods, which add an option to a list. `regexp.Compile` is an
-- argument, and so is the arithmetic on floating-point numbers of the old form of a share.
use goreplay.Base.{
  ℕ, ◌-◌, ◌%◌, ◌^◌, Bytes, Option, none, some, List, [], ◌∷◌, ◌++◌, length, take, if◌then◌else◌,
}
use goreplay.Text.Ints.{ℤ, pos, negsuc}
use goreplay.Text.Split.{split_two, split_byte, trim_space, contains}
use goreplay.Text.Numbers.{value, syntax, range, parse_decimal, parse_int_any}
use goreplay.Modifier.{Regexp, HeaderFilter, HashFilter, Setting, UrlRewrite, HeaderRewrite}

-- Why a `Set` fails: too few parts, a bad expression, or a share that is none.
pub data SetError : Type 0 where
  no_separator bad_regexp no_share : SetError

-- The list behind a `Set`, and its error.
abbrev pub Result {ℓ} : Type ℓ → Type ℓ
Result A = List A × Option SetError

abbrev pub appended {ℓ} : {A : Type ℓ} → List A → A → Result A
appended xs x = (xs ++ (x ∷ []), none)

abbrev pub failed {ℓ} : {A : Type ℓ} → List A → SetError → Result A
failed xs e = (xs, some e)

-- `HTTPHeaderFilters.Set`
unfoldable pub set_header_filter :
    (Bytes → Option Regexp) → List HeaderFilter → Bytes → Result HeaderFilter
set_header_filter compile fs s = elim (split_two s b':') [
  | none ↦ failed fs no_separator
  | some (name, pattern) ↦ elim (compile (trim_space pattern)) [
    | none ↦ failed fs bad_regexp
    | some r ↦ appended fs (record { name = name; regexp = r })
  ]
]

-- `HTTPHeaderBasicAuthFilters.Set`
unfoldable pub set_basic_auth : (Bytes → Option Regexp) → List Regexp → Bytes → Result Regexp
set_basic_auth compile fs s = elim (compile s) [
  | none ↦ failed fs bad_regexp
  | some r ↦ appended fs r
]

-- The conversion of an `int64` to a `uint32`.
abbrev pub to_uint32 : ℤ → ℕ
to_uint32 (pos n) = n % 2 ^ 32
to_uint32 (negsuc n) = 2 ^ 32 - 1 - n % 2 ^ 32

-- `ParseUint` in base 10, without its error.
abbrev pub uint_of : Bytes → ℕ
uint_of s = elim (parse_decimal s) [ value n ↦ n | syntax ↦ 0 | range ↦ 2 ^ 64 - 1 ]

abbrev pub first_two : List Bytes → Bytes × Bytes
first_two (a ∷ (b ∷ more)) = (a, b)
first_two _ = ([], [])

-- The share behind the colon of a hash filter, in percent.
unfoldable pub percent_of : (ℕ → ℕ → ℕ) → Bytes → Option ℕ
percent_of fraction val =
    if contains val (b'%' ∷ [])
    then some (to_uint32 (parse_int_any (take (length val - 1) val)).0)
    else if contains val (b'/' ∷ [])
    then (let (num, den) = first_two (split_byte val b'/') in
        some (fraction (uint_of num) (uint_of den)))
    else none

-- `HTTPHashFilters.Set`
unfoldable pub set_hash_filter : (ℕ → ℕ → ℕ) → List HashFilter → Bytes → Result HashFilter
set_hash_filter fraction fs s = elim (split_two s b':') [
  | none ↦ failed fs no_separator
  | some (name, share) ↦ elim (percent_of fraction (trim_space share)) [
    | none ↦ failed fs no_share
    | some p ↦ appended fs (record { name = name; percent = p })
  ]
]

-- `HTTPHeaders.Set`, and `HTTPParams.Set`: the text in front of the separator and the text behind it.
unfoldable pub set_setting : ℕ → List Setting → Bytes → Result Setting
set_setting separator fs s = elim (split_two s separator) [
  | none ↦ failed fs no_separator
  | some (name, v) ↦ appended fs (record { name = trim_space name; value = trim_space v })
]

unfoldable pub set_header_option : List Setting → Bytes → Result Setting
set_header_option = set_setting b':'

unfoldable pub set_param_option : List Setting → Bytes → Result Setting
set_param_option = set_setting b'='

-- `HTTPMethods.Set`
unfoldable pub set_method : List Bytes → Bytes → Result Bytes
set_method fs s = appended fs s

-- `URLRewriteMap.Set`
unfoldable pub set_url_rewrite :
    (Bytes → Option Regexp) → List UrlRewrite → Bytes → Result UrlRewrite
set_url_rewrite compile fs s = elim (split_two s b':') [
  | none ↦ failed fs no_separator
  | some (pattern, target) ↦ elim (compile pattern) [
    | none ↦ failed fs bad_regexp
    | some r ↦ appended fs (record { src = r; target = target })
  ]
]

-- `HeaderRewriteMap.Set`
unfoldable pub set_header_rewrite :
    (Bytes → Option Regexp) → List HeaderRewrite → Bytes → Result HeaderRewrite
set_header_rewrite compile fs s = elim (split_two s b':') [
  | none ↦ failed fs no_separator
  | some (name, rest) ↦ elim (split_two (trim_space rest) b',') [
    | none ↦ failed fs no_separator
    | some (pattern, target) ↦ elim (compile pattern) [
      | none ↦ failed fs bad_regexp
      | some r ↦ appended fs (record { header = name; src = r; target = target })
    ]
  ]
]

-- `HTTPURLRegexp.Set`: the list gets an entry also when there is no expression.
unfoldable pub set_url_regexp :
    (Bytes → Option Regexp) → List (Option Regexp) → Bytes → Result (Option Regexp)
set_url_regexp compile fs s = elim (compile s) [
  | none ↦ (fs ++ (none ∷ []), some bad_regexp)
  | some r ↦ appended fs (some r)
]
