-- ===== src/Stat/Bounds.antt =====
-- What the counters hold behind a run of writes.
use native.Mathlib.Nat.{div-le_of_le-mul}
use goreplay.Base.{
  ℕ, ◌+◌, ◌*◌, ◌/◌, ◌≤◌, ◌≡◌, refl, ap, Bool, true, false, List, [], ◌∷◌, length, ltb, ◌==◌,
  if◌then◌else◌, arith,
}
use goreplay.Stat.{Stat, new_stat, write}

-- The counters behind the writes of a history, the newest one first.
unfoldable pub behind : List ℕ → Stat
behind [] = new_stat
behind (x ∷ xs) = write true (behind xs) x

abbrev pub maximum : List ℕ → ℕ
maximum [] = 0
maximum (x ∷ xs) = if ltb (maximum xs) x then x else maximum xs

mean_le :
    (mean count latest top : ℕ)
    → mean ≤ top
    → latest ≤ top
    → (mean * count + latest) / (count + 1) ≤ top
mean_le mean count latest top h k =
    let sum : mean * count + latest ≤ (count + 1) * top = grind arith in
    div-le_of_le-mul (count + 1) sum

choice_le : (b : Bool) (x y top : ℕ) → x ≤ top → y ≤ top → (if b then x else y) ≤ top
choice_le true x y top h k = h
choice_le false x y top h k = k

-- The counter counts the writes since the last reset, the maximum is the greatest number written,
-- and the running mean, rounded down at each step, never exceeds it.
pub behind-bounds :
    (xs : List ℕ)
    → ((behind xs).count ≡ length xs)
      × ((behind xs).max ≡ maximum xs)
      × ((behind xs).mean ≤ maximum xs)
unfolding behind write new_stat
behind-bounds [] = (refl, refl, omega arith)
behind-bounds (x ∷ xs) =
    let (count, top, mean) = behind-bounds xs in
    let grows : maximum xs ≤ maximum (x ∷ xs) = ground arith in
    let above : x ≤ maximum (x ∷ xs) = ground arith in
    (
      omega (arith, count),
      ap (λ t. if ltb t x then x else t) top,
      choice_le (x == 0) _ _ (maximum (x ∷ xs)) (omega (arith, mean, grows)) (
          mean_le (behind xs).mean (behind xs).count x (maximum (x ∷ xs))
            (omega (arith, mean, grows)) above),
    )
