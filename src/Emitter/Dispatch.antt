-- ===== src/Emitter/Dispatch.antt =====
-- Which writer gets which record.
use goreplay.Base.{
  ℕ, zero, suc, ◌+◌, ◌%◌, ◌≡◌, refl, ap, Bool, true, false, Bytes, done, ◌>>=◌, none, List, [], ◌∷◌,
  ◌++◌, All, map, if◌then◌else◌, index_byte,
}
use goreplay.Protocol.{payload_meta}
use goreplay.Emitter.{
  Options, State, Round, again, stops, kept, modify, write_each, dispatch, clean, clean_round,
  pretty, round, copy_multy,
}

-- A record with a header of three words at least.
abbrev pub IsRecord : Bytes → Type 0
IsRecord payload =
    (a : Bytes) × (id : Bytes) × (b : Bytes) × (more : List Bytes) × (payload_meta payload
      ≡ a ∷ (id ∷ (b ∷ more)))

abbrev pub IsRead : ℕ × Bytes → Type 0
IsRead (now, payload) = IsRecord payload

-- Options that leave every record as it is.
pub record IsPlain (o : Options) : Type 0 where
  pub no_modifier : o.modifier ≡ none
  pub no_prettify : o.prettify ≡ none

abbrev pub never : ℕ → Bytes → Bool
never i payload = false

modify-plain :
    (o : Options) (s : State) (now : ℕ) (id payload : Bytes)
    → IsPlain o
    → modify o.modifier s now id payload ≡ done (kept payload)
unfolding modify
modify-plain o s now id payload plain = ap (λ m. modify m s now id payload) plain.no_modifier

round-plain :
    (o : Options) (fails : ℕ → Bytes → Bool) (n : ℕ) (s : State) (now : ℕ) (payload : Bytes)
    (r : Round)
    → IsPlain o
    → IsRecord payload
    → dispatch o fails n s payload ≡ done r
    → round o fails n s now payload ≡ done (clean_round now r)
unfolding round
round-plain o fails n s now [] r plain (a, id, b, more, e) h =
    let no : [] ≡ a ∷ (id ∷ (b ∷ more)) = unfold payload_meta index_byte in e in cc
round-plain o fails n s now (c ∷ text) r plain (a, id, b, more, e) h =
    rw (e, round)
      (rw (modify-plain o s now id (c ∷ text) plain, ◌>>=◌)
        (rw (ap (λ f. pretty f (c ∷ text)) plain.no_prettify) (rw (h, ◌>>=◌) refl)))

-- Every writer in turn, from the `k`-th on: the payloads are dealt out like cards.
abbrev pub deal : ℕ → ℕ → List Bytes → List (ℕ × Bytes)
deal n k [] = []
deal n k (p ∷ ps) = (k % n, p) ∷ deal n (k + 1) ps

-- Options for the simple round robin.
pub record IsRoundRobin (o : Options) : Type 0 where
  pub plain : IsPlain o
  pub splits : o.split_output ≡ true
  pub no_sessions : o.recognize_sessions ≡ false

-- A payload for each of `n` writers, from the `i`-th on.
abbrev pub to_all : ℕ → ℕ → Bytes → List (ℕ × Bytes)
to_all zero i payload = []
to_all (suc n) i payload = (i, payload) ∷ to_all n (i + 1) payload

abbrev pub broadcast : ℕ → List Bytes → List (ℕ × Bytes)
broadcast n [] = []
broadcast n (p ∷ ps) = to_all n 0 p ++ broadcast n ps

write_each-never :
    (n i : ℕ) (payload : Bytes) → write_each never n i payload ≡ (to_all n i payload, true)
unfolding write_each
write_each-never zero i payload = refl
write_each-never (suc n) i payload =
    ap (λ r. ((i, payload) ∷ r.0, r.1)) (write_each-never n (i + 1) payload)

dispatch-broadcast :
    (o : Options) (n : ℕ) (s : State) (payload : Bytes)
    → o.split_output ≡ false
    → dispatch o never n s payload ≡ done (again s (to_all n 0 payload))
unfolding dispatch
dispatch-broadcast o n s payload e =
    simp e (ap (λ w. done (if w.1 then again s w.0 else stops w.0)) (write_each-never n 0 payload))

-- Without the split every record goes to every writer, in the order of the writers.
pub copy_multy-broadcast :
    (o : Options) (n : ℕ) (s : State) (reads : List (ℕ × Bytes))
    → IsPlain o
    → o.split_output ≡ false
    → All IsRead reads
    → copy_multy o never n s reads ≡ done (broadcast n (map (λ r. r.1) reads))
unfolding copy_multy clean_round
copy_multy-broadcast o n s [] w e all = refl
copy_multy-broadcast o n s ((now, payload) ∷ reads) w e (hr, all) =
    rw (round-plain o never n s now payload _ w hr (dispatch-broadcast o n s payload e), ◌>>=◌)
      (rw (copy_multy-broadcast o n (clean now s) reads w e all, ◌>>=◌) refl)
