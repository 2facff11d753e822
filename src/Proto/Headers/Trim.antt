-- ===== src/Proto/Headers/Trim.antt =====
-- The two trimming loops of `header`: from a position they stop at the first byte that is no blank.
use goreplay.Base.{
  ℕ, zero, suc, ◌+◌, ◌-◌, ◌≤◌, ◌<◌, ◌≡◌, ap, ◌∙◌, Bytes, some, done, arith, get_elem?, dec_lt,
  lt→ltb, le→ltb, All, length, get_elem?-append, append_assoc, subst, length-append, ◌≢◌, [], ◌∷◌,
  ◌++◌,
}
use goreplay.Proto.Headers.{trim_start, trim_end}

-- The byte at a position, and whether it is a blank.
pub record BlankAt (p : Bytes) (i : ℕ) : Type 0 where
  pub byte : ℕ
  pub here : get_elem? p i ≡ some byte
  pub blank : byte < 0x21

pub record SolidAt (p : Bytes) (i : ℕ) : Type 0 where
  pub byte : ℕ
  pub here : get_elem? p i ≡ some byte
  pub solid : 0x21 ≤ byte

-- With blanks from `i` up to `t`, and no blank at `t`, the first loop ends at `t`.
pub trim_start_lem :
    (fuel : ℕ) (p : Bytes) (i t j : ℕ)
    → t < i + fuel
    → i ≤ t
    → t ≤ j
    → ((k : ℕ) → i ≤ k → k < t → BlankAt p k)
    → (t < j → SolidAt p t)
    → trim_start fuel p i j ≡ done t
unfolding trim_start
trim_start_lem zero p i t j h l m blanks stop = absurd (omega arith)
trim_start_lem (suc fuel) p i t j h l m blanks stop = elim (dec_lt i t) [
  | yes r ↦
      let b = blanks i (omega arith) r in
      rw (lt→ltb i j (omega arith), b.here, lt→ltb b.byte 0x21 b.blank)
        (trim_start_lem fuel p (i + 1) t j (omega arith) (omega arith) m
          (λ k x y. blanks k (omega arith) y) stop)
  | no r ↦ let e : i ≡ t = omega arith in ap (λ u. trim_start (suc fuel) p u j) e ∙ at_end
]
  where
    at_end : trim_start (suc fuel) p t j ≡ done t
    at_end = elim (dec_lt t j) [
      | yes q ↦ let s = stop q in rw (lt→ltb t j q, s.here, le→ltb s.byte 0x21 s.solid)
      | no q ↦ rw (le→ltb t j (omega arith))
    ]

-- With blanks behind `t` up to `j`, and no blank at `t`, the second loop ends at `t`.
pub trim_end_lem :
    (fuel : ℕ) (p : Bytes) (i t j : ℕ)
    → j < t + fuel
    → i ≤ t
    → t ≤ j
    → ((k : ℕ) → t < k → k ≤ j → BlankAt p k)
    → (i < t → SolidAt p t)
    → trim_end fuel p i j ≡ done t
unfolding trim_end
trim_end_lem zero p i t j h l m blanks stop = absurd (omega arith)
trim_end_lem (suc fuel) p i t j h l m blanks stop = elim (dec_lt t j) [
  | yes r ↦
      let b = blanks j r (omega arith) in
      rw (lt→ltb i j (omega arith), b.here, lt→ltb b.byte 0x21 b.blank)
        (trim_end_lem fuel p i t (j - 1) (omega arith) l (omega arith)
          (λ k x y. blanks k x (omega arith)) stop)
  | no r ↦ let e : j ≡ t = omega arith in ap (λ u. trim_end (suc fuel) p i u) e ∙ at_end
]
  where
    at_end : trim_end (suc fuel) p i t ≡ done t
    at_end = elim (dec_lt i t) [
      | yes q ↦ let s = stop q in rw (lt→ltb i t q, s.here, le→ltb s.byte 0x21 s.solid)
      | no q ↦ rw (le→ltb i t (omega arith))
    ]

-- With the bounds the other way round neither loop makes a round.
pub trim_start_stays :
    (fuel : ℕ) (p : Bytes) (i j : ℕ) → j ≤ i → trim_start (suc fuel) p i j ≡ done i
unfolding trim_start
trim_start_stays fuel p i j h = rw (le→ltb i j h)

pub trim_end_stays : (fuel : ℕ) (p : Bytes) (i j : ℕ) → j ≤ i → trim_end (suc fuel) p i j ≡ done j
unfolding trim_end
trim_end_stays fuel p i j h = rw (le→ltb i j h)

-- Positions inside a part of the payload.
pub BlankAt-part :
    (p m s : Bytes) (k i : ℕ)
    → All (λ c. (c < 0x21) × (c ≢ b'\n')) m
    → k < length m
    → i ≡ length p + k
    → BlankAt (p ++ (m ++ s)) i
BlankAt-part p [] s k i h l e = absurd (omega arith)
BlankAt-part p (c ∷ m) s zero i (b, h) l e = record {
  byte = c;
  here = rw e (get_elem?-append p (c ∷ (m ++ s)) 0);
  blank = b.0;
}
BlankAt-part p (c ∷ m) s (suc k) i (b, h) l e =
    subst (λ u. BlankAt u i) (append_assoc p (c ∷ []) (m ++ s))
      (BlankAt-part (p ++ (c ∷ [])) m s k i h (omega arith)
        (omega (arith, length-append p (c ∷ []))))

pub SolidAt-part : (p s : Bytes) (c i : ℕ) → 0x21 ≤ c → i ≡ length p → SolidAt (p ++ (c ∷ s)) i
SolidAt-part p s c i h e = record {
  byte = c;
  here = let e' : i ≡ length p + 0 = omega arith in rw e' (get_elem?-append p (c ∷ s) 0);
  solid = h;
}
