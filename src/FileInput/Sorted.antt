-- ===== src/FileInput/Sorted.antt =====
-- Files that are in the order of time are emitted in that order.
use goreplay.Base.{
  ℕ, zero, suc, ◌<◌, ◌≡◌, refl, subst, false, done, ◌>>=◌, Option, some, List, [], ◌∷◌, get_elem?,
  All, map, arith,
}
use mathlib.Core.Option.{some-injective}
use goreplay.Text.Ints.{ℤ, negsuc, ◌≤ℤ◌}
use goreplay.Tcp.Store.{modify}
use goreplay.FileInput.{Reader, Input, open_files, file_input}
use goreplay.FileInput.Reads.{Entry, IsEntry, file_of, HoldsAll, new_reader-Holds}
use goreplay.FileInput.Order.{IsFirst, Merged, finished, taken, paused, count, emit-Merged}

abbrev pub IsSorted : List Entry → Type 0
IsSorted [] = Unit
IsSorted (e ∷ es) = All (λ f. e.time ≤ℤ f.time) es × IsSorted es

All-get {ℓ κ} :
    {A : Type ℓ} (P : A → Type κ) (xs : List A) (k : ℕ) (x : A)
    → All P xs
    → get_elem? xs k ≡ some x
    → P x
All-get P [] k x h e = cc
All-get P (y ∷ ys) zero x (hy, h) e = subst P (some-injective y x e) hy
All-get P (y ∷ ys) (suc k) x (hy, h) e = All-get P ys k x h e

All-modify {ℓ κ} :
    {A : Type ℓ} (P : A → Type κ) (xs : List A) (k : ℕ) (x : A)
    → All P xs
    → P x
    → All P (modify k (λ old. x) xs)
unfolding modify
All-modify P [] k x h hx = tt
All-modify P (y ∷ ys) zero x (hy, h) hx = (hx, h)
All-modify P (y ∷ ys) (suc k) x (hy, h) hx = (hy, All-modify P ys k x h hx)

Merged-All :
    (P : Entry → Type 0) {ess : List (List Entry)} {out : List Entry}
    → Merged ess out
    → All (All P) ess
    → All P out
Merged-All P (finished empty) h = tt
Merged-All P {ess = ess} (taken k e es found first more) h =
    let (he, hes) = All-get (All P) ess k (e ∷ es) h found in
    (he, Merged-All P more (All-modify (All P) ess k es h hes))

first-below :
    (t : ℤ) (e : Entry) (es : List Entry)
    → t ≤ℤ e.time
    → All (λ f. e.time ≤ℤ f.time) es
    → All (λ f. t ≤ℤ f.time) es
first-below t e [] le h = tt
first-below t e (f ∷ es) le (hf, h) = (omega (arith, le, hf), first-below t e es le h)

IsFirst-All :
    (t : ℤ) (ess : List (List Entry))
    → IsFirst t ess
    → All IsSorted ess
    → All (All (λ f. t ≤ℤ f.time)) ess
IsFirst-All t [] f s = tt
IsFirst-All t ([] ∷ ess) f (se, s) = (tt, IsFirst-All t ess f s)
IsFirst-All t ((e ∷ es) ∷ ess) (le, f) ((below, se), s) =
    ((le, first-below t e es le below), IsFirst-All t ess f s)

Merged-IsSorted :
    {ess : List (List Entry)} {out : List Entry} → Merged ess out → All IsSorted ess → IsSorted out
Merged-IsSorted (finished empty) s = tt
Merged-IsSorted {ess = ess} (taken k e es found first more) s =
    let (below, sorted) = All-get IsSorted ess k (e ∷ es) s found in
    let all_below = IsFirst-All e.time ess first s in
    let (le, rest) = All-get (All (λ f. e.time ≤ℤ f.time)) ess k (e ∷ es) all_below found in
    (
      Merged-All (λ f. e.time ≤ℤ f.time) more
          (All-modify (All (λ f. e.time ≤ℤ f.time)) ess k es all_below rest),
      Merged-IsSorted more (All-modify IsSorted ess k es s sorted),
    )

open_files-HoldsAll :
    (files : List (List Entry))
    → All (All IsEntry) files
    → (rs : List (Option Reader)) × (open_files (map (λ es. some (file_of es)) files) ≡ done rs)
      × HoldsAll rs files
unfolding open_files
open_files-HoldsAll [] h = ([], refl, tt)
open_files-HoldsAll (es ∷ files) (hes, h) =
    let (r, opened, held) = new_reader-Holds es hes in
    let (rs, more, helds) = open_files-HoldsAll files h in
    (some r ∷ rs, rw (opened, ◌>>=◌) (rw (more, ◌>>=◌) refl), (held, helds))

-- A file input that does not loop, on files each of which is in the order of time, emits their records
-- to the last, with as many rounds as there are records and one more. What it emits is a merge of the
-- files, each in its order, and it is in the order of time.
pub file_input-Merged :
    (fuel : ℕ) (c : Input) (files : List (List Entry))
    → c.loop ≡ false
    → All (All IsEntry) files
    → All IsSorted files
    → count files < fuel
    → (out : List Entry) × (file_input fuel c (map (λ es. some (file_of es)) files)
        ≡ done (paused c (negsuc 0) out))
      × Merged files out
      × IsSorted out
unfolding file_input
file_input-Merged fuel c files once h s enough =
    let (rs, opened, held) = open_files-HoldsAll files h in
    let (out, ran, merged) = emit-Merged fuel c (negsuc 0) rs files once held enough in
    (out, rw (opened, ◌>>=◌) ran, merged, Merged-IsSorted merged s)
