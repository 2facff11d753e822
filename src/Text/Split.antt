-- ===== src/Text/Split.antt =====
-- `bytes.Split`, `strings.SplitN`, `strings.TrimSpace`, `strings.LastIndex` and the like.
use goreplay.Base.{
  ℕ, suc, ◌+◌, ◌-◌, ◌≡◌, refl, sym, ap, ◌∙◌, Bool, true, false, ◌&&◌, ◌||◌, Bytes, List, [], ◌∷◌,
  ◌++◌, append_assoc, Option, none, some, Lacks, length, length-append, take, drop, take-append,
  drop-append, leb, ◌==◌, if◌then◌else◌, index_byte, index_byte-append, index_byte-none,
  index_byte-some, Option-cases, ◌⊎◌, inl, inr, index, has_prefix, arith,
}

-- A byte in front of the first part.
abbrev pub push : ℕ → List Bytes → List Bytes
push c [] = (c ∷ []) ∷ []
push c (p ∷ ps) = (c ∷ p) ∷ ps

-- `bytes.Split` by one byte.
unfoldable pub split_byte : Bytes → ℕ → List Bytes
split_byte [] c = [] ∷ []
split_byte (x ∷ s) c = let rest = split_byte s c in if x == c then [] ∷ rest else push x rest

-- `strings.SplitN(s, sep, 2)` by one byte, with `none` for a single part.
unfoldable pub split_two : Bytes → ℕ → Option (Bytes × Bytes)
split_two s c = elim (index_byte s c) [ none ↦ none | some i ↦ some (take i s, drop (i + 1) s) ]

pub split_byte-Lacks : (p : Bytes) (c : ℕ) → Lacks c p → split_byte p c ≡ p ∷ []
unfolding split_byte
split_byte-Lacks [] c h = refl
split_byte-Lacks (x ∷ p) c (hx, h) = ground (arith, split_byte-Lacks p c h)

pub split_byte-append :
    (p s : Bytes) (c : ℕ) → Lacks c p → split_byte (p ++ (c ∷ s)) c ≡ p ∷ split_byte s c
unfolding split_byte
split_byte-append [] s c h = ground arith
split_byte-append (x ∷ p) s c (hx, h) = ground (arith, split_byte-append p s c h)

pub split_two-append : (p s : Bytes) (c : ℕ) → Lacks c p → split_two (p ++ (c ∷ s)) c ≡ some (p, s)
unfolding split_two
split_two-append p s c h =
    rw (index_byte-append p s c h, split_two)
      (ap some (λ i. (take-append p (c ∷ s) (length p) refl i, behind i)))
  where
    behind : drop (length p + 1) (p ++ (c ∷ s)) ≡ s
    behind =
        ap (drop (length p + 1)) (sym (append_assoc p (c ∷ []) s))
        ∙ drop-append (p ++ (c ∷ [])) s (length p + 1) (omega (arith, length-append p (c ∷ [])))

-- A text in two parts at the first place of a byte, or with no such byte.
abbrev pub IsSplit : Bytes → ℕ → Bytes → Bytes → Type 0
IsSplit s c front behind = (s ≡ front ++ (c ∷ behind)) × Lacks c front

pub split_two-cases :
    (s : Bytes) (c : ℕ)
    → (Lacks c s × (split_two s c ≡ none))
      ⊎ ((front behind : Bytes) × IsSplit s c front behind × (split_two s c ≡ some (front, behind)))
unfolding split_two
split_two-cases s c = elim (Option-cases (index_byte s c)) [
  | inl e ↦ inl (index_byte-none s c e, rw (e, split_two) refl)
  | inr (i, e) ↦ inr (take i s, drop (i + 1) s, index_byte-some s c i e, rw (e, split_two) refl)
]

-- White space of `strings.TrimSpace`, in ASCII.
abbrev pub is_space : ℕ → Bool
is_space c = c == 0x20 || (leb 9 c && leb c 13)

unfoldable pub trim_left : Bytes → Bytes
trim_left [] = []
trim_left (c ∷ s) = let rest = trim_left s in if is_space c then rest else c ∷ s

-- Blanks at the end go: a blank stays only in front of something that stays.
unfoldable pub trim_right : Bytes → Bytes
trim_right [] = []
trim_right (c ∷ s) = elim (trim_right s) [
  | [] ↦ if is_space c then [] else c ∷ []
  | d ∷ t ↦ c ∷ (d ∷ t)
]

unfoldable pub trim_space : Bytes → Bytes
trim_space s = trim_right (trim_left s)

-- `strings.Contains`
unfoldable pub contains : Bytes → Bytes → Bool
contains s sub = elim (index s sub) [ none ↦ false | some i ↦ true ]

-- `strings.LastIndex` of one byte.
unfoldable pub last_index : Bytes → ℕ → Option ℕ
last_index [] c = none
last_index (x ∷ s) c = elim (last_index s c) [
  | some i ↦ some (suc i)
  | none ↦ if x == c then some 0 else none
]

pub last_index-Lacks : (s : Bytes) (c : ℕ) → Lacks c s → last_index s c ≡ none
unfolding last_index
last_index-Lacks [] c h = refl
last_index-Lacks (x ∷ s) c (hx, h) = ground (arith, last_index-Lacks s c h)

-- The last of a byte, with none behind it.
pub last_index-append :
    (p s : Bytes) (c : ℕ) → Lacks c s → last_index (p ++ (c ∷ s)) c ≡ some (length p)
unfolding last_index
last_index-append [] s c h = ground (arith, last_index-Lacks s c h)
last_index-append (x ∷ p) s c h = ground (arith, last_index-append p s c h)

-- `strings.HasSuffix`
unfoldable pub has_suffix : Bytes → Bytes → Bool
has_suffix s suf = leb (length suf) (length s) && has_prefix (drop (length s - length suf) s) suf
