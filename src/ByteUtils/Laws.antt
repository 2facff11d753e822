-- ===== src/ByteUtils/Laws.antt =====
-- `Cut`, `Insert` and `Replace` against list surgery: each is stated on a slice that is written
-- as its parts, and then at any positions in range.
use goreplay.Base.{
  ℕ, ◌+◌, ◌-◌, ◌≤◌, ◌≡◌, refl, sym, ap, ◌∙◌, ap₂, ◌<◌, take-append-drop, dec_lt, Bytes, done, [],
  ◌∷◌, ◌++◌, append_assoc, append-nil, slice_from, slice_to, length, take, drop, replicate, arith,
  zero, suc, length-append, length-replicate, take-append, drop-append, slice_from-append,
  slice_to-append, slice-append, lt→ltb, le→ltb, split_three, length-take, length-drop,
}
use goreplay.ByteUtils.{overwrite, copy_from, copy_between, grow, cut, insert, replace}

-- What a write leaves of the bytes that it does not reach.
overwrite-prefix :
    (t new : Bytes) → length new ≤ length t → overwrite t new ≡ new ++ drop (length new) t
unfolding overwrite
overwrite-prefix [] [] h = refl
overwrite-prefix (x ∷ t) [] h = refl
overwrite-prefix [] (y ∷ new) h = absurd (omega arith)
overwrite-prefix (x ∷ t) (y ∷ new) h = ap (◌∷◌ y) (overwrite-prefix t new (omega arith))

pub copy_from-append :
    (p t new : Bytes) (i : ℕ)
    → i ≡ length p
    → length new ≤ length t
    → copy_from (p ++ t) i new ≡ done (p ++ (new ++ drop (length new) t))
unfolding copy_from
copy_from-append p t new i h k =
    rw (slice_from-append p t i h, take-append p t i h) (rw (overwrite-prefix t new k))

drop-append_le : (m s : Bytes) (n : ℕ) → n ≤ length m → drop n (m ++ s) ≡ drop n m ++ s
drop-append_le m s zero h = refl
drop-append_le [] s (suc n) h = absurd (omega arith)
drop-append_le (x ∷ m) s (suc n) h = drop-append_le m s n (omega arith)

drop-append_two : (p m s : Bytes) (j : ℕ) → j ≡ length p + length m → drop j (p ++ (m ++ s)) ≡ s
drop-append_two p m s j h =
    rw (← append_assoc p m s) (drop-append (p ++ m) s j (omega (arith, length-append p m)))

slice_from-append_two :
    (p m s : Bytes) (j : ℕ) → j ≡ length p + length m → slice_from (p ++ (m ++ s)) j ≡ done s
slice_from-append_two p m s j h =
    rw (← append_assoc p m s) (slice_from-append (p ++ m) s j (omega (arith, length-append p m)))

slice_to-append_two :
    (p m s : Bytes) (j : ℕ) → j ≡ length p + length m → slice_to (p ++ (m ++ s)) j ≡ done (p ++ m)
slice_to-append_two p m s j h =
    rw (← append_assoc p m s) (slice_to-append (p ++ m) s j (omega (arith, length-append p m)))

copy_from-append_two :
    (p m t new : Bytes) (i : ℕ)
    → i ≡ length p + length m
    → length new ≤ length t
    → copy_from (p ++ (m ++ t)) i new ≡ done (p ++ (m ++ (new ++ drop (length new) t)))
copy_from-append_two p m t new i h k = rw (← append_assoc p m t) (
    copy_from-append (p ++ m) t new i (omega (arith, length-append p m)) k
    ∙ ap done (append_assoc p m (new ++ drop (length new) t)))

copy_between-append :
    (p front rest new : Bytes) (i j : ℕ)
    → i ≡ length p
    → j ≡ length p + length front
    → length front ≡ length new
    → copy_between (p ++ (front ++ rest)) i j new ≡ done (p ++ (new ++ rest))
unfolding copy_between
copy_between-append p front rest new i j h k l =
    rw (slice-append p front rest i j h k, take-append p (front ++ rest) i h)
      (rw (over, drop-append_two p front rest j k))
  where
    all : drop (length new) front ≡ []
    all = rw append-nil at (drop-append front [] (length new) (omega arith))

    over : overwrite front new ≡ new
    over = overwrite-prefix front new (omega arith) ∙ ap (◌++◌ new) all ∙ append-nil new

-- Cutting the middle out of a slice keeps what stands before and after it.
pub cut-append :
    (p m s : Bytes) (from to : ℕ)
    → from ≡ length p
    → to ≡ length p + length m
    → cut (p ++ (m ++ s)) from to ≡ done (p ++ s)
unfolding cut
cut-append p m s from to h k =
    let t = drop (length s) (m ++ s) in
    rw
      (
        slice_from-append_two p m s to k,
        copy_from-append p (m ++ s) s from h (omega (arith, length-append m s)),
      )
      (slice_to-append_two p s t (length (p ++ (s ++ t)) + from - to) (
        omega (
          arith,
          length-append p (s ++ t),
          length-append s t,
          length-append m s,
          length-drop (length s) (m ++ s),
        )))

-- A write of more bytes than there is room for.
overwrite-long : (t new : Bytes) → length t ≤ length new → overwrite t new ≡ take (length t) new
unfolding overwrite
overwrite-long [] new h = refl
overwrite-long (x ∷ t) [] h = absurd (omega arith)
overwrite-long (x ∷ t) (y ∷ new) h = ap (◌∷◌ y) (overwrite-long t new (omega arith))

-- Moving a tail up by the number of bytes that were appended behind it.
open_gap :
    (p s z : Bytes) (i : ℕ)
    → i ≡ length p + length z
    → copy_from (p ++ (s ++ z)) i (s ++ z) ≡ done (p ++ (take (length z) (s ++ z) ++ s))
unfolding copy_from
open_gap p s z i h =
    let t = s ++ z in
    let front = take (length z) t in
    let back = drop (length z) t in
    let le : length front ≡ length z = omega (arith, length-take (length z) t, length-append s z) in
    let lb : length back ≡ length s = omega (arith, length-drop (length z) t, length-append s z) in
    let lt : length t ≡ length s + length z = length-append s z in
    let split : t ≡ front ++ back = sym (take-append-drop (length z) t) in
    let dst : slice_from (p ++ t) i ≡ done back =
      ap (λ u. slice_from (p ++ u) i) split ∙ slice_from-append_two p front back i (omega arith) in
    let kept : take i (p ++ t) ≡ p ++ front =
      ap (λ u. take i (p ++ u)) split
      ∙ ap (take i) (sym (append_assoc p front back))
      ∙ take-append (p ++ front) back i (omega (arith, length-append p front)) in
    let moved : overwrite back t ≡ s =
      overwrite-long back t (omega arith) ∙ take-append s z (length back) lb in
    rw dst (ap₂ (λ u v. done (u ++ v)) kept moved ∙ ap done (append_assoc p front s))

fill_gap :
    (p m s z new : Bytes) (i j : ℕ)
    → i ≡ length p
    → j ≡ length p + length new
    → length m + length z ≡ length new
    → copy_between ((p ++ m) ++ (take (length z) (s ++ z) ++ s)) i j new ≡ done (p ++ (new ++ s))
fill_gap p m s z new i j h k l =
    let front = take (length z) (s ++ z) in
    let le : length front ≡ length z =
      omega (arith, length-take (length z) (s ++ z), length-append s z) in
    ap (λ u. copy_between u i j new)
      (append_assoc p m (front ++ s) ∙ ap (◌++◌ p) (sym (append_assoc m front s)))
    ∙ copy_between-append p (m ++ front) s new i j h (omega (arith, length-append m front))
        (omega (arith, length-append m front))

-- Inserting at the seam of a slice.
pub insert-append :
    (p s b : Bytes) (i : ℕ) → i ≡ length p → insert (p ++ s) i b ≡ done (p ++ (b ++ s))
unfolding insert grow
insert-append p s b i h =
    let z : Bytes = replicate (length b) 0 in
    let lz : length z ≡ length b = length-replicate (length b) 0 in
    rw (append_assoc p s z) (
      rw (slice_from-append p (s ++ z) i h, open_gap p s z (i + length b) (omega arith))
        (ap (λ u. copy_between (u ++ (take (length z) (s ++ z) ++ s)) i (i + length b) b)
            (sym (append-nil p))
          ∙ fill_gap p [] s z b i (i + length b) h (omega arith) (omega arith)))

module _ (p m s new : Bytes) (from to : ℕ) (h : from ≡ length p)
    (k : to ≡ length p + length m) where
  replace_longer :
      to < from + length new → replace (p ++ (m ++ s)) from to new ≡ done (p ++ (new ++ s))
  unfolding replace grow
  replace_longer l =
      let d = from + length new - to in
      let z : Bytes = replicate d 0 in
      let lz : length z ≡ d = length-replicate d 0 in
      let regroup : (p ++ (m ++ s)) ++ z ≡ (p ++ m) ++ (s ++ z) =
        ap (λ u. u ++ z) (sym (append_assoc p m s)) ∙ append_assoc (p ++ m) s z in
      let lpm : length (p ++ m) ≡ length p + length m = length-append p m in
      rw (lt→ltb to (from + length new) l, regroup)
        (rw
          (
            slice_from-append (p ++ m) (s ++ z) to (omega arith),
            open_gap (p ++ m) s z (to + d) (omega arith),
          )
          (fill_gap p m s z new from (from + length new) h (omega arith) (omega arith)))

  replace_shorter :
      from + length new < to → replace (p ++ (m ++ s)) from to new ≡ done (p ++ (new ++ s))
  unfolding replace
  replace_shorter l =
      let dm = drop (length new) m in
      let rest = drop (length s) (dm ++ s) in
      let ld : length dm ≡ length m - length new = length-drop (length new) m in
      let kept : drop (length new) (m ++ s) ≡ dm ++ s =
        drop-append_le m s (length new) (omega arith) in
      let first : copy_from (p ++ (m ++ s)) from new ≡ done (p ++ (new ++ (dm ++ s))) =
        copy_from-append p (m ++ s) new from h (omega (arith, length-append m s))
        ∙ ap (λ u. done (p ++ (new ++ u))) kept in
      let tail : slice_from (p ++ (new ++ (dm ++ s))) to ≡ done s =
        ap (λ u. slice_from u to) (sym (append_assoc p new (dm ++ s)))
        ∙ slice_from-append_two (p ++ new) dm s to (omega (arith, length-append p new)) in
      let second : copy_from (p ++ (new ++ (dm ++ s))) (from + length new) s
          ≡ done (p ++ (new ++ (s ++ rest))) =
        copy_from-append_two p new (dm ++ s) s (from + length new) (omega arith)
          (omega (arith, length-append dm s)) in
      rw (le→ltb to (from + length new) (omega arith), lt→ltb (from + length new) to l, first)
        (rw (tail, second)
          (last rest (length-drop (length s) (dm ++ s) ∙ omega (arith, length-append dm s))))
    where
      last :
          (rest : Bytes)
          → length rest ≡ length (drop (length new) m)
          → slice_to
              (p ++ (new ++ (s ++ rest)))
              (length (p ++ (new ++ (s ++ rest))) + from + length new - to)
            ≡ done (p ++ (new ++ s))
      last rest e =
          let n = length (p ++ (new ++ (s ++ rest))) + from + length new - to in
          ap (λ u. slice_to u n)
            (ap (◌++◌ p) (sym (append_assoc new s rest)) ∙ sym (append_assoc p (new ++ s) rest))
          ∙ slice_to-append (p ++ (new ++ s)) rest n (
              omega (
                arith,
                length-append p (new ++ (s ++ rest)),
                length-append new (s ++ rest),
                length-append s rest,
                length-append p (new ++ s),
                length-append new s,
                length-drop (length new) m,
              ))

  replace_same :
      from + length new ≡ to → replace (p ++ (m ++ s)) from to new ≡ done (p ++ (new ++ s))
  unfolding replace
  replace_same l =
      rw (le→ltb to (from + length new) (omega arith), le→ltb (from + length new) to (omega arith))
        (copy_from-append p (m ++ s) new from h (omega (arith, length-append m s))
          ∙ ap (λ u. done (p ++ (new ++ u))) (drop-append m s (length new) (omega arith)))

  -- Replacing the middle of a slice keeps what stands before and after it, whether the slice grows,
  -- shrinks or keeps its length.
  pub replace-append : replace (p ++ (m ++ s)) from to new ≡ done (p ++ (new ++ s))
  replace-append = elim (dec_lt to (from + length new)) [
    | yes l ↦ replace_longer l
    | no l ↦ elim (dec_lt (from + length new) to) [
      | yes r ↦ replace_shorter r
      | no r ↦ replace_same (omega arith)
    ]
  ]

-- `Cut`, `Insert` and `Replace` at any positions in range are the list surgery that their names
-- promise: nothing before or behind the range changes, and no call panics.
pub surgery :
    (a new : Bytes) (from to : ℕ)
    → from ≤ to
    → to ≤ length a
    → (cut a from to ≡ done (take from a ++ drop to a))
      × (insert a from new ≡ done (take from a ++ (new ++ drop from a)))
      × (replace a from to new ≡ done (take from a ++ (new ++ drop to a)))
surgery a new from to h k =
    let p = take from a in
    let m = take (to - from) (drop from a) in
    let s = drop to a in
    let lp : from ≡ length p = omega (arith, length-take from a) in
    let lm : to ≡ length p + length m =
      omega (arith, length-take (to - from) (drop from a), length-drop from a, lp) in
    let whole = split_three a from to h k in
    let front = take-append-drop from a in
    (
      ap (λ u. cut u from to) (sym whole) ∙ cut-append p m s from to lp lm,
      ap (λ u. insert u from new) (sym front) ∙ insert-append p (drop from a) new from lp,
      ap (λ u. replace u from to new) (sym whole) ∙ replace-append p m s new from to lp lm,
    )
