-- ===== src/FileOutput/Closing.antt =====
-- The flag `closed`, and the goroutine that it ends.
use goreplay.Base.{
  ℕ, ◌≡◌, ◌⊎◌, refl, sym, ap, ◌∙◌, subst, Bool, true, false, inl, inr, Bool-cases, Bytes, Outcome,
  done, panic, timeout, done-injective, ◌>>=◌, Option, none, some, List, [], ◌∷◌, if◌then◌else◌,
}
use goreplay.Protocol.{payload_meta}
use goreplay.Protocol.Stream.{write_record}
use goreplay.FileOutput.{
  Config, Output, is_named, close_file, open_file, note_meta, write_named, write_file, flush,
  new_output, asleep, naming, ended, Step, writes, closes, wakes, names, flushes, Reach, here, next,
}

abbrev is_open : Option (Bytes × Bytes) → Bool
is_open none = false
is_open (some f) = true

-- With an open file the output counts as closed.
abbrev IsLate : Output → Type 0
IsLate o = is_open o.file ≡ true → o.closed ≡ true

-- What an operation keeps, and what it ends with.
abbrev IsWritten : Output → Output → Type 0
IsWritten o q = (q.closed ≡ true) × ((q.chunk_size ≡ o.chunk_size) × (q.flusher ≡ o.flusher))

is_named-is_open :
    (f : Option (Bytes × Bytes)) (name : Bytes) → is_named f name ≡ true → is_open f ≡ true
is_named-is_open none name e = e
is_named-is_open (some f) name e = refl

open_file-IsWritten : (o : Output) → IsLate o → IsWritten o (open_file o)
unfolding open_file close_file
open_file-IsWritten o late = elim (Bool-cases (is_named o.file o.current_name)) [
  | inl e ↦ rw e (late (is_named-is_open o.file o.current_name e), (refl, refl))
  | inr e ↦ rw e (refl, (refl, refl))
]

write_named-IsWritten :
    (c : Config) (o : Output) (name text : Bytes)
    → IsLate o
    → IsWritten o (write_named c o name text).0
unfolding write_named
write_named-IsWritten c o name text late =
    open_file-IsWritten (record o { current_name = name }) late

-- What noting the identifiers keeps.
abbrev IsKept : Output → Output → Type 0
IsKept o q = (IsLate o → IsLate q) × ((q.chunk_size ≡ o.chunk_size) × (q.flusher ≡ o.flusher))

note_meta-IsKept :
    (o p : Output) (b : Bool) (meta : List Bytes) → note_meta o b meta ≡ done p → IsKept o p
unfolding note_meta
note_meta-IsKept o p false meta e = subst (IsKept o) (done-injective o p e) (λ h. h, (refl, refl))
note_meta-IsKept o p true [] e = cc
note_meta-IsKept o p true (a ∷ []) e = cc
note_meta-IsKept o p true (a ∷ (id ∷ more)) e =
    subst (IsKept o) (done-injective _ p e) (λ h. h, (refl, refl))

first_done :
    {A B : Type 0} (f : A → B) (m : Outcome A) (b : B)
    → (m >>= (λ a. done (f a))) ≡ done b
    → (a : A) × ((m ≡ done a) × (f a ≡ b))
first_done f (done a) b e = (a, (refl, done-injective (f a) b e))
first_done f panic b e = cc
first_done f timeout b e = cc

write_file-IsWritten :
    (c : Config) (name_of : Output → Bytes) (o : Output) (payload : Bytes) (q : Output × ℕ × Bool)
    → IsLate o
    → write_file c name_of o payload ≡ done q
    → IsWritten o q.0
unfolding write_file
write_file-IsWritten c name_of o payload q late e =
    let (p, (noted, is)) =
      first_done (λ p. write_named c p (name_of p) (write_record payload))
        (note_meta o o.request_per_file (payload_meta payload)) q e in
    let kept = note_meta-IsKept o p o.request_per_file (payload_meta payload) noted in
    let wrote = write_named-IsWritten c p (name_of p) (write_record payload) (kept.0 late) in
    subst (λ x. IsWritten o x.0) is (wrote.0, (wrote.1.0 ∙ kept.1.0, wrote.1.1 ∙ kept.1.1))

Step-IsLate : {c : Config} {o q : Output} → Step c o q → IsLate o → IsLate q
unfolding close_file flush
Step-IsLate {c = c} {o = o} (writes name_of payload n full e) late =
    λ h. (write_file-IsWritten c name_of o payload _ late e).0
Step-IsLate (closes is) late = subst IsLate (sym is) (λ h. refl)
Step-IsLate (wakes e is) late = subst IsLate (sym is) late
Step-IsLate (names name e is) late = subst IsLate (sym is) late
Step-IsLate (flushes size e is) late = subst IsLate (sym is) late

pub Reach-IsLate :
    {c : Config} (b : Bool) (name : Bytes) {q : Output} → Reach c (new_output b name) q → IsLate q
unfolding new_output
Reach-IsLate b name here = λ h. cc
Reach-IsLate b name (next r s) = Step-IsLate s (Reach-IsLate b name r)

-- The goroutine has no round under way, and will not begin one.
abbrev IsEnding : ℕ → Output → Type 0
IsEnding k o =
    (o.closed ≡ true) × ((o.chunk_size ≡ k) × ((o.flusher ≡ asleep) ⊎ (o.flusher ≡ ended)))

IsEnding-IsLate : (k : ℕ) (o : Output) → IsEnding k o → IsLate o
IsEnding-IsLate k o (closed, more) = λ h. closed

Step-IsEnding : {c : Config} {o q : Output} (k : ℕ) → Step c o q → IsEnding k o → IsEnding k q
unfolding close_file
Step-IsEnding {c = c} {o = o} k (writes name_of payload n full e) ending =
    let wrote = write_file-IsWritten c name_of o payload _ (IsEnding-IsLate k o ending) e in
    (wrote.0, (wrote.1.0 ∙ ending.1.0, rw wrote.1.1 ending.1.1))
Step-IsEnding k (closes is) ending = subst (IsEnding k) (sym is) (refl, ending.1)
Step-IsEnding {o = o} k (wakes e is) ending =
    subst (IsEnding k) (sym is)
      (ending.0, (ending.1.0, inr (ap (λ b. if b then ended else naming) ending.0)))
Step-IsEnding k (names name e is) ending = absurd (elim ending.1.1 [ inl a ↦ cc | inr a ↦ cc ])
Step-IsEnding k (flushes size e is) ending = absurd (elim ending.1.1 [ inl a ↦ cc | inr a ↦ cc ])

Reach-IsEnding : {c : Config} {o q : Output} (k : ℕ) → IsEnding k o → Reach c o q → IsEnding k q
Reach-IsEnding k ending here = ending
Reach-IsEnding k ending (next r s) = Step-IsEnding k s (Reach-IsEnding k ending r)

-- Let a `Write` return in a state that the output reached from its start, with the goroutine of
-- `NewFileOutput` asleep. Then the output counts as closed, whatever happens after that, and
-- the size that the limit is compared with stays what it was.
pub write_file-chunk_size :
    {c : Config} (b : Bool) (name : Bytes) {o q r : Output} (name_of : Output → Bytes)
    (payload : Bytes) (n : ℕ) (full : Bool)
    → Reach c (new_output b name) o
    → o.flusher ≡ asleep
    → write_file c name_of o payload ≡ done (q, n, full)
    → Reach c q r
    → (r.closed ≡ true) × (r.chunk_size ≡ o.chunk_size)
write_file-chunk_size {c = c} b name {o = o} {q = q} name_of payload n full start idle e run =
    let wrote =
      write_file-IsWritten c name_of o payload (q, n, full) (Reach-IsLate b name start) e in
    let ending = Reach-IsEnding o.chunk_size (wrote.0, (wrote.1.0, inl (wrote.1.1 ∙ idle))) run in
    (ending.0, ending.1.0)
