-- ===== src/Base/Slices.antt =====
-- Byte slices as lists of numbers, and what the code uses of Go's slices and `bytes` package.
-- A slice's capacity is its length here: a bound beyond the length panics.
use Prim.Native.Char.{code}
use Prim.Native.Nat.{ℕ, zero, suc, ◌+◌, ◌-◌, ◌<◌}
use Prim.Native.String.{String}
use mathlib.Core.Bool.{Bool, true, false, ◌&&◌}
use mathlib.Core.List.{List, [], ◌∷◌, ◌++◌}
use mathlib.Core.Logic.{◌↔◌, ◌≢◌, inl, inr}
use mathlib.Core.Option.{Option, none, some}
use mathlib.Core.Path.{◌≡◌, refl, ap}
use native.Mathlib.Omega.{arith}
use goreplay.Base.Lists.{length, take, drop, All, take-append, drop-append, length-append}
use goreplay.Base.Outcomes.{Outcome, done, panic}
use goreplay.Base.Tests.{Option-cases, leb, ◌==◌, if◌then◌else◌, le→leb}

abbrev pub Bytes : Type 0
Bytes = List ℕ

-- The code points of a text: its bytes, if it is ASCII.
abbrev pub codes : String → Bytes
codes String.[] = []
codes (String.◌∷◌ c s) = code c ∷ codes s

-- `a[i:]`, `a[:j]` and `a[i:j]`.
abbrev pub slice_from : Bytes → ℕ → Outcome Bytes
slice_from a i = if leb i (length a) then done (drop i a) else panic

abbrev pub slice_to : Bytes → ℕ → Outcome Bytes
slice_to a j = if leb j (length a) then done (take j a) else panic

abbrev pub slice : Bytes → ℕ → ℕ → Outcome Bytes
slice a i j = if leb i j && leb j (length a) then done (take (j - i) (drop i a)) else panic

-- `bytes.Equal`
unfoldable pub equal : Bytes → Bytes → Bool
equal [] [] = true
equal (c ∷ s) (d ∷ t) = equal s t && c == d
equal _ _ = false

pub equal_iff : (s t : Bytes) → (equal s t ≡ true) ↔ (s ≡ t)
unfolding equal
equal_iff [] [] = ground arith
equal_iff [] (d ∷ t) = ground arith
equal_iff (c ∷ s) [] = ground arith
equal_iff (c ∷ s) (d ∷ t) = ground (arith, equal_iff s t)

abbrev pub shift : Option ℕ → Option ℕ
shift none = none
shift (some i) = some (suc i)

-- `bytes.IndexByte`, with `none` for -1
unfoldable pub index_byte : Bytes → ℕ → Option ℕ
index_byte [] c = none
index_byte (x ∷ xs) c = if x == c then some 0 else shift (index_byte xs c)

-- `bytes.HasPrefix`
unfoldable pub has_prefix : Bytes → Bytes → Bool
has_prefix s [] = true
has_prefix [] (y ∷ p) = false
has_prefix (x ∷ s) (y ∷ p) = x == y && has_prefix s p

-- `bytes.Index`
unfoldable pub index : Bytes → Bytes → Option ℕ
unfolding has_prefix
index [] sep = if has_prefix [] sep then some 0 else none
index (x ∷ xs) sep = if has_prefix (x ∷ xs) sep then some 0 else shift (index xs sep)

abbrev pub Lacks : ℕ → Bytes → Type 0
Lacks b = All (λ c. c ≢ b)

pub index_byte-append :
    (p s : Bytes) (c : ℕ) → Lacks c p → index_byte (p ++ c ∷ s) c ≡ some (length p)
unfolding index_byte
index_byte-append [] s c h = ground arith
index_byte-append (x ∷ p) s c (hx, hp) = ground (arith, index_byte-append p s c hp)

pub index_byte-Lacks : (p : Bytes) (c : ℕ) → Lacks c p → index_byte p c ≡ none
unfolding index_byte
index_byte-Lacks [] c h = refl
index_byte-Lacks (x ∷ p) c (hx, hp) = ground (arith, index_byte-Lacks p c hp)

-- Where a byte is found, and where not.
pub index_byte-none : (p : Bytes) (c : ℕ) → index_byte p c ≡ none → Lacks c p
unfolding index_byte
index_byte-none [] c h = tt
index_byte-none (x ∷ p) c h = elim (Option-cases (index_byte p c)) [
  | inl e ↦ ((λ same. ground (arith, h, same)), index_byte-none p c e)
  | inr (i, e) ↦ ground (arith, h, e)
]

pub index_byte-some :
    (p : Bytes) (c i : ℕ)
    → index_byte p c ≡ some i
    → (p ≡ take i p ++ (c ∷ drop (i + 1) p)) × Lacks c (take i p)
unfolding index_byte
index_byte-some [] c i h = cc
index_byte-some (x ∷ p) c zero h = ground (arith, h)
index_byte-some (x ∷ p) c (suc i) h = ground (arith, index_byte-some p c i)

pub index_byte-lt : (p : Bytes) (c i : ℕ) → index_byte p c ≡ some i → i < length p
unfolding index_byte
index_byte-lt [] c i h = cc
index_byte-lt (x ∷ p) c zero h = omega arith
index_byte-lt (x ∷ p) c (suc i) h = ground (arith, index_byte-lt p c i)

pub slice_from-append : (p s : Bytes) (n : ℕ) → n ≡ length p → slice_from (p ++ s) n ≡ done s
slice_from-append p s n h =
    rw (le→leb n (length (p ++ s)) (omega (arith, length-append p s)))
      (ap done (drop-append p s n h))

pub slice_to-append : (p s : Bytes) (n : ℕ) → n ≡ length p → slice_to (p ++ s) n ≡ done p
slice_to-append p s n h =
    rw (le→leb n (length (p ++ s)) (omega (arith, length-append p s)))
      (ap done (take-append p s n h))

pub slice-append :
    (p m s : Bytes) (i j : ℕ)
    → i ≡ length p
    → j ≡ length p + length m
    → slice (p ++ (m ++ s)) i j ≡ done m
slice-append p m s i j h k =
    rw
      (
        le→leb i j (omega arith),
        le→leb j (length (p ++ (m ++ s)))
            (omega (arith, length-append p (m ++ s), length-append m s)),
      )
      (rw (drop-append p (m ++ s) i h) (ap done (take-append m s (j - i) (omega arith))))
