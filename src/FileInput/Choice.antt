-- ===== src/FileInput/Choice.antt =====
-- The choice of `nextReader`.
use goreplay.Base.{
  ℕ, suc, ◌+◌, ◌≡◌, ◌⊎◌, inl, inr, refl, sym, ap, ◌∙◌, true, false, Bool-cases, Option, none, some,
  List, [], ◌∷◌, arith,
}
use goreplay.Text.Ints.{ℤ, ltb_ℤ, ◌≤ℤ◌}
use goreplay.FileInput.{Reader, earlier, next_from, next_reader}
use goreplay.FileInput.Reads.{IsAt}

-- No open reader is earlier.
abbrev pub IsLeast : ℤ → List (Option Reader) → Type 0
IsLeast t [] = Unit
IsLeast t (none ∷ rs) = IsLeast t rs
IsLeast t (some r ∷ rs) = ((r.closed ≡ true) ⊎ (t ≤ℤ r.timestamp)) × IsLeast t rs

abbrev pub AllClosed : List (Option Reader) → Type 0
AllClosed [] = Unit
AllClosed (none ∷ rs) = AllClosed rs
AllClosed (some r ∷ rs) = (r.closed ≡ true) × AllClosed rs

-- What the loop finds: the reader it began with, or one of the list.
abbrev Better : ℕ → ℕ → ℤ → List (Option Reader) → ℕ × ℤ → Type 0
Better k j t rs found =
    (found.1 ≤ℤ t)
    × IsLeast found.1 rs
    × ((found ≡ (j, t)) ⊎ ((n : ℕ) × (found.0 ≡ k + n) × IsAt n found.1 rs))

-- A reader found behind place `k` is found behind the place in front of it as well.
Better-behind :
    (k j : ℕ) (t : ℤ) (o : Option Reader) (rs : List (Option Reader)) (found : ℕ × ℤ)
    → IsLeast found.1 (o ∷ rs)
    → Better (suc k) j t rs found
    → Better k j t (o ∷ rs) found
Better-behind k j t o rs found least (low, l, inl e) = (low, least, inl e)
Better-behind k j t o rs found least (low, l, inr (n, e, at)) =
    (low, least, inr (suc n, omega (arith, e), at))

-- The reader at place `k` is the earliest so far.
Better-here :
    (k j : ℕ) (t : ℤ) (r : Reader) (rs : List (Option Reader)) (found : ℕ × ℤ)
    → r.closed ≡ false
    → r.timestamp ≤ℤ t
    → Better (suc k) k r.timestamp rs found
    → Better k j t (some r ∷ rs) found
Better-here k j t r rs found c le (low, l, inl e) = (
  omega (arith, low, le),
  (inr low, l),
  inr (0, omega (arith, ap (λ p. p.0) e), (r, refl, c, sym (ap (λ p. p.1) e))),
)
Better-here k j t r rs found c le (low, l, inr (n, e, at)) =
    (omega (arith, low, le), (inr low, l), inr (suc n, omega (arith, e), at))

-- What the loop finds when it has a reader already, and when it has none.
abbrev Finds : ℕ → ℕ → ℤ → List (Option Reader) → Type 0
Finds k j t rs =
    (found : ℕ × ℤ) × (next_from k (some (j, t)) rs ≡ some found) × Better k j t rs found

next_from-Finds : (k j : ℕ) (t : ℤ) (rs : List (Option Reader)) → Finds k j t rs
unfolding next_from earlier
next_from-Finds k j t [] = ((j, t), refl, (omega arith, tt, inl refl))
next_from-Finds k j t (none ∷ rs) =
    let (found, ran, (low, l, which)) = next_from-Finds (suc k) j t rs in
    (found, ran, Better-behind k j t none rs found l (low, l, which))
next_from-Finds k j t (some r ∷ rs) = elim (Bool-cases r.closed) [
  | inl c ↦
      (let (found, ran, (low, l, which)) = next_from-Finds (suc k) j t rs in
        (found, rw c ran, Better-behind k j t (some r) rs found (inl c, l) (low, l, which)))
  | inr c ↦ elim (Bool-cases (ltb_ℤ r.timestamp t)) [
    | inl less ↦
        (let (found, ran, better) = next_from-Finds (suc k) k r.timestamp rs in
          (
            found,
            rw c (rw less ran),
            Better-here k j t r rs found c (ltb-le r.timestamp t less) better,
          ))
    | inr other ↦
        (let (found, ran, (low, l, which)) = next_from-Finds (suc k) j t rs in
          (
            found,
            rw c (rw other ran),
            Better-behind k j t (some r) rs found (inr (later found.1 t r.timestamp low other), l)
                (low, l, which),
          ))
  ]
]
  where
    ltb-le : (a b : ℤ) → ltb_ℤ a b ≡ true → a ≤ℤ b
    ltb-le a b h = ground arith

    later : (a b c : ℤ) → a ≤ℤ b → ltb_ℤ c b ≡ false → a ≤ℤ c
    later a b c le h = ground arith

-- The loop finds a reader when it has none yet.
abbrev FindsFirst : ℕ → List (Option Reader) → Type 0
FindsFirst k rs =
    (n : ℕ) × (t : ℤ) × (next_from k none rs ≡ some (k + n, t)) × IsAt n t rs × IsLeast t rs

-- A reader found behind the first one, or the first one itself.
Finds-first :
    (k : ℕ) (r : Reader) (rs : List (Option Reader)) (found : ℕ × ℤ)
    → r.closed ≡ false
    → next_from k none (some r ∷ rs) ≡ some found
    → Better (suc k) k r.timestamp rs found
    → FindsFirst k (some r ∷ rs)
Finds-first k r rs found c ran (low, l, inl e) = (
  0,
  found.1,
  ran ∙ ap (λ m. some (m, found.1)) (omega (arith, ap (λ p. p.0) e)),
  (r, refl, c, sym (ap (λ p. p.1) e)),
  (inr low, l),
)
Finds-first k r rs found c ran (low, l, inr (n, e, at)) =
    (suc n, found.1, ran ∙ ap (λ m. some (m, found.1)) (omega (arith, e)), at, (inr low, l))

shifted : (k n : ℕ) (t : ℤ) (m : Option (ℕ × ℤ)) → m ≡ some (suc k + n, t) → m ≡ some (k + suc n, t)
shifted k n t m e = e ∙ ap (λ i. some (i, t)) (omega arith)

next_from-none :
    (k : ℕ) (rs : List (Option Reader))
    → ((next_from k none rs ≡ none) × AllClosed rs) ⊎ FindsFirst k rs
unfolding next_from earlier
next_from-none k [] = inl (refl, tt)
next_from-none k (none ∷ rs) = elim (next_from-none (suc k) rs) [
  | inl (ran, c) ↦ inl (ran, c)
  | inr (n, t, ran, at, l) ↦ inr (suc n, t, shifted k n t _ ran, at, l)
]
next_from-none k (some r ∷ rs) = elim (Bool-cases r.closed) [
  | inl c ↦ elim (next_from-none (suc k) rs) [
    | inl (ran, cs) ↦ inl (rw c ran, (c, cs))
    | inr (n, t, ran, at, l) ↦ inr (suc n, t, rw c (shifted k n t _ ran), at, (inl c, l))
  ]
  | inr c ↦
      (let (found, ran, better) = next_from-Finds (suc k) k r.timestamp rs in
        inr (Finds-first k r rs found c (rw c ran) better))
]

-- `nextReader` finds an open reader that no open reader is earlier than, unless all are closed.
pub next_reader-IsLeast :
    (rs : List (Option Reader))
    → ((next_reader rs ≡ none) × AllClosed rs)
      ⊎ ((k : ℕ) × (t : ℤ) × (next_reader rs ≡ some (k, t)) × IsAt k t rs × IsLeast t rs)
unfolding next_reader
next_reader-IsLeast rs = elim (next_from-none 0 rs) [
  | inl e ↦ inl e
  | inr (n, t, ran, at, l) ↦ inr (n, t, ran ∙ ap (λ i. some (i, t)) (omega arith), at, l)
]
