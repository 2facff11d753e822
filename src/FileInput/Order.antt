-- ===== src/FileInput/Order.antt =====
-- The records that `emit` gives: a merge of the files, by time.
use goreplay.Base.{
  ℕ, zero, suc, ◌+◌, ◌<◌, ◌≡◌, ◌⊎◌, inl, inr, refl, sym, ap, subst, true, false, Bytes, done, ◌>>=◌,
  Option, none, some, List, [], ◌∷◌, length, get_elem?, arith,
}
use mathlib.Core.Option.{some-injective}
use goreplay.Text.Ints.{ℤ, ◌≤ℤ◌}
use goreplay.Tcp.Store.{modify}
use goreplay.FileInput.{Reader, Input, pause, emit}
use goreplay.FileInput.Reads.{Entry, Holds, HoldsAll, read_at-Gives}
use goreplay.FileInput.Choice.{IsLeast, AllClosed, next_reader-IsLeast}

-- No file has an earlier record in front.
abbrev pub IsFirst : ℤ → List (List Entry) → Type 0
IsFirst t [] = Unit
IsFirst t ([] ∷ ess) = IsFirst t ess
IsFirst t ((e ∷ es) ∷ ess) = (t ≤ℤ e.time) × IsFirst t ess

abbrev pub AllEmpty : List (List Entry) → Type 0
AllEmpty [] = Unit
AllEmpty (es ∷ ess) = (es ≡ []) × AllEmpty ess

-- A list is a merge of files: each time it takes the first record that is left of a file, and none
-- of the files has an earlier one in front.
pub data Merged : List (List Entry) → List Entry → Type 0 where
  finished : {ess : List (List Entry)} → AllEmpty ess → Merged ess []
  taken :
      {ess : List (List Entry)} {out : List Entry} (k : ℕ) (e : Entry) (es : List Entry)
      → get_elem? ess k ≡ some (e ∷ es)
      → IsFirst e.time ess
      → Merged (modify k (λ old. es) ess) out
      → Merged ess (e ∷ out)

-- The records with the pauses in front of them.
abbrev pub paused : Input → ℤ → List Entry → List (ℤ × Bytes)
paused c last [] = []
paused c last (e ∷ es) = (pause c last e.time, e.text) ∷ paused c e.time es

abbrev pub count : List (List Entry) → ℕ
count [] = 0
count (es ∷ ess) = length es + count ess

count-modify :
    (ess : List (List Entry)) (k : ℕ) (e : Entry) (es : List Entry)
    → get_elem? ess k ≡ some (e ∷ es)
    → count ess ≡ suc (count (modify k (λ old. es) ess))
unfolding modify
count-modify [] k e es h = cc
count-modify (xs ∷ ess) zero e es h = omega (arith, ap length (some-injective xs (e ∷ es) h))
count-modify (xs ∷ ess) (suc k) e es h = omega (arith, count-modify ess k e es h)

Holds-IsFirst :
    (t : ℤ) (r : Reader) (es : List Entry) (ess : List (List Entry))
    → Holds r es
    → (r.closed ≡ true) ⊎ (t ≤ℤ r.timestamp)
    → IsFirst t ess
    → IsFirst t (es ∷ ess)
Holds-IsFirst t r [] ess h le f = f
Holds-IsFirst t r (e ∷ es) ess (c, (d, (is, h))) (inl closed) f = cc
Holds-IsFirst t r (e ∷ es) ess (c, (d, (is, h))) (inr le) f = (subst (λ u. t ≤ℤ u) is le, f)

IsLeast-IsFirst :
    (t : ℤ) (rs : List (Option Reader)) (ess : List (List Entry))
    → HoldsAll rs ess
    → IsLeast t rs
    → IsFirst t ess
IsLeast-IsFirst t [] [] h l = tt
IsLeast-IsFirst t [] (es ∷ ess) h l = absurd h
IsLeast-IsFirst t (none ∷ rs) [] h l = absurd h
IsLeast-IsFirst t (some r ∷ rs) [] h l = absurd h
IsLeast-IsFirst t (none ∷ rs) ([] ∷ ess) (is, h) l = IsLeast-IsFirst t rs ess h l
IsLeast-IsFirst t (none ∷ rs) ((e ∷ es) ∷ ess) (is, h) l = cc
IsLeast-IsFirst t (some r ∷ rs) (es ∷ ess) (hr, h) (le, l) =
    Holds-IsFirst t r es ess hr le (IsLeast-IsFirst t rs ess h l)

Holds-closed : (r : Reader) (es : List Entry) → Holds r es → r.closed ≡ true → es ≡ []
Holds-closed r [] h c = refl
Holds-closed r (e ∷ es) (o, h) c = cc

AllClosed-empty :
    (rs : List (Option Reader)) (ess : List (List Entry))
    → HoldsAll rs ess
    → AllClosed rs
    → AllEmpty ess
AllClosed-empty [] [] h c = tt
AllClosed-empty [] (es ∷ ess) h c = absurd h
AllClosed-empty (none ∷ rs) [] h c = absurd h
AllClosed-empty (some r ∷ rs) [] h c = absurd h
AllClosed-empty (none ∷ rs) (es ∷ ess) (is, h) c = (is, AllClosed-empty rs ess h c)
AllClosed-empty (some r ∷ rs) (es ∷ ess) (hr, h) (c, cs) =
    (Holds-closed r es hr c, AllClosed-empty rs ess h cs)

-- `emit` runs to the end of the files, and what it emits is a merge of them.
abbrev Emits : ℕ → Input → ℤ → List (Option Reader) → List (List Entry) → Type 0
Emits fuel c last rs ess =
    (out : List Entry) × (emit fuel c last rs ≡ done (paused c last out)) × Merged ess out

pub emit-Merged :
    (fuel : ℕ) (c : Input) (last : ℤ) (rs : List (Option Reader)) (ess : List (List Entry))
    → c.loop ≡ false
    → HoldsAll rs ess
    → count ess < fuel
    → Emits fuel c last rs ess
unfolding emit
emit-Merged zero c last rs ess once h enough = absurd (omega arith)
emit-Merged (suc fuel) c last rs ess once h enough = elim (next_reader-IsLeast rs) [
  | inl (ran, closed) ↦
      ([], rw (ran, emit) (rw once refl), finished (AllClosed-empty rs ess h closed))
  | inr (k, t, ran, at, l) ↦
      (let (e, es, qs, found, is, read, held) = read_at-Gives k t rs ess h at in
        let fewer : count (modify k (λ old. es) ess) < fuel =
          omega (arith, enough, count-modify ess k e es found) in
        let (out, later, merged) =
          emit-Merged fuel c t qs (modify k (λ old. es) ess) once held fewer in
        (
          e ∷ out,
          rw (ran, emit)
              (rw (read, ◌>>=◌)
                (rw (later, ◌>>=◌)
                  (ap (λ u. done ((pause c last u, e.text) ∷ paused c u out)) (sym is)))),
          taken k e es found (subst (λ u. IsFirst u ess) (sym is) (IsLeast-IsFirst t rs ess h l))
              merged,
        ))
]
