-- ===== src/Emitter/Without.antt =====
-- `CopyMulty` without one of the dropped requests.
use goreplay.Base.{
  ℕ, ◌+◌, ◌-◌, ◌≤◌, ◌≡◌, ◌≢◌, refl, sym, ap, ◌∙◌, Bool, true, false, Bytes, Outcome, done, panic,
  timeout, ◌>>=◌, Option, none, some, List, [], ◌∷◌, ◌++◌, drop, All, ltb, le→ltb, arith, ◌==◌, ◌%◌,
  ◌&&◌, Bool-cases, Option-cases, inl, inr, equal, if◌then◌else◌,
}
use goreplay.Tcp.Store.{lookup, delete}
use goreplay.Modifier.{Config, rewrite, is_nil}
use goreplay.Protocol.{payload_meta, is_request_payload, payload_id}
use goreplay.Emitter.{
  Options, State, Round, again, stops, Passed, dropped, kept, head_size, modify_request,
  pass_response, modify, round, copy_multy, dispatch, write_each, minute, clean, clean_round,
  pretty,
}
use goreplay.Emitter.Forget.{
  store-delete, lookup-store_other, delete-delete, lookup-delete_other, forget_old-delete,
  lookup-forget_old,
}
use goreplay.Emitter.Simulation.{over, Keeps, Sim, bind-Sim, Sim-bind, IsOther, equal-false}

-- A request with the identifier `uuid` was dropped at `time`: the loop without it does the same on
-- records with other identifiers.
module _ (uuid : Bytes) (time : ℕ) where
  abbrev without : State → State
  without s = record s { filtered = delete s.filtered uuid }

  abbrev Waits : State → Type 0
  Waits s = lookup s.filtered uuid ≡ some time

  abbrev passed_without : Passed → Passed
  passed_without (dropped s) = dropped (without s)
  passed_without (kept p) = kept p

  abbrev PassedWaits : Passed → Type 0
  PassedWaits (dropped s) = Waits s
  PassedWaits (kept p) = Unit

  abbrev round_without : Round → Round
  round_without (again s writes) = again (without s) writes
  round_without (stops writes) = stops writes

  abbrev RoundWaits : Round → Type 0
  RoundWaits (again s writes) = Waits s
  RoundWaits (stops writes) = Unit

  request-Sim :
      (c : Config) (s : State) (now : ℕ) (id payload : Bytes)
      → Waits s
      → equal id uuid ≡ false
      → Sim passed_without PassedWaits
          (modify_request c (without s) now id payload)
          (modify_request c s now id payload)
  unfolding modify_request
  request-Sim c s now id payload w ne =
      bind-Sim passed_without PassedWaits (rewrite c (drop (head_size payload) payload)) _ _
        (λ body. elim (Bool-cases (is_nil body)) [
          | inl h ↦ rw h (
            ap (λ f. done (dropped (record s { filtered = f })))
                (store-delete s.filtered id uuid now ne),
            lookup-store_other s.filtered id uuid now ne ∙ w,
          )
          | inr h ↦ rw h (refl, tt)
        ])

  response-Sim :
      (s : State) (id payload : Bytes)
      → Waits s
      → equal id uuid ≡ false
      → equal uuid id ≡ false
      → (pass_response (without s) id payload ≡ passed_without (pass_response s id payload))
        × PassedWaits (pass_response s id payload)
  unfolding pass_response
  response-Sim s id payload w ne ne' = elim (Option-cases (lookup s.filtered id)) [
    | inl e ↦
        rw (lookup-delete_other s.filtered uuid id ne' ∙ e, pass_response)
          (rw (e, pass_response) (refl, tt))
    | inr (v, e) ↦
        rw (lookup-delete_other s.filtered uuid id ne' ∙ e, pass_response)
          (rw (e, pass_response)
            (
              ap (λ f. dropped (record s { filtered = f })) (delete-delete s.filtered uuid id),
              lookup-delete_other s.filtered id uuid ne ∙ w,
            ))
  ]

  modify-Sim :
      (mo : Option Config) (s : State) (now : ℕ) (id payload : Bytes)
      → Waits s
      → id ≢ uuid
      → Sim passed_without PassedWaits
          (modify mo (without s) now id payload)
          (modify mo s now id payload)
  unfolding modify
  modify-Sim none s now id payload w ne = (refl, tt)
  modify-Sim (some c) s now id payload w ne =
      bind-Sim passed_without PassedWaits (is_request_payload payload) _ _ (λ b. go b)
    where
      differ : equal id uuid ≡ false
      differ = equal-false id uuid ne

      differ' : equal uuid id ≡ false
      differ' = equal-false uuid id (λ e. ne (sym e))

      go :
          (b : Bool)
          → Sim passed_without PassedWaits
              (if b
                then modify_request c (without s) now id payload
                else done (pass_response (without s) id payload))
              (if b then modify_request c s now id payload else done (pass_response s id payload))
      go true = request-Sim c s now id payload w differ
      go false = let (e, k) = response-Sim s id payload w differ differ' in (ap done e, k)

  dispatch-Sim :
      (o : Options) (fails : ℕ → Bytes → Bool) (n : ℕ) (s : State) (payload : Bytes)
      → Waits s
      → Sim round_without RoundWaits
          (dispatch o fails n (without s) payload)
          (dispatch o fails n s payload)
  unfolding dispatch
  dispatch-Sim o fails n s payload w = elim (Bool-cases o.split_output) [
    | inr all ↦ elim (Bool-cases (write_each fails n 0 payload).1) [
      | inl h ↦ simp (all, h) (refl, w)
      | inr h ↦ simp (all, h) (refl, tt)
    ]
    | inl split ↦ elim (Bool-cases o.recognize_sessions) [
      | inl sessions ↦ elim (Bool-cases o.is_pro) [
        | inr free ↦ simp (split, sessions, free) (refl, tt)
        | inl pro ↦
            rw (split, dispatch)
              (rw (sessions, dispatch)
                (rw (pro, dispatch)
                  (bind-Sim round_without RoundWaits (payload_id payload) _ _ (λ id.
                    elim (Bool-cases (n == 0)) [
                      | inl h ↦ rw h (refl, tt)
                      | inr h ↦ rw h (refl, w)
                    ]))))
      ]
      | inr turns ↦ elim (Bool-cases (ltb s.w_index n)) [
        | inr h ↦ simp (split, turns, h) (refl, tt)
        | inl h ↦ elim (Bool-cases (fails s.w_index payload)) [
          | inl bad ↦ simp (split, turns, h, bad) (refl, tt)
          | inr good ↦ simp (split, turns, h, good) (refl, w)
        ]
      ]
    ]
  ]

  clean-Sim :
      (now : ℕ) (s : State)
      → Waits s
      → ltb minute (now - time) ≡ false
      → (clean now (without s) ≡ without (clean now s)) × Waits (clean now s)
  unfolding clean
  clean-Sim now s w young =
      elim (Bool-cases (s.rounds % 1000 == 0 && ltb minute (now - s.last_clean))) [
        | inl h ↦ rw h (
          ap (λ f. record s { rounds = s.rounds + 1; filtered = f; last_clean = now })
              (forget_old-delete now s.filtered uuid),
          lookup-forget_old now time s.filtered uuid young w,
        )
        | inr h ↦ rw h (refl, w)
      ]

  clean_round-Sim :
      (now : ℕ) (r : Round)
      → ltb minute (now - time) ≡ false
      → RoundWaits r
      → Sim round_without RoundWaits
          (done (clean_round now (round_without r)))
          (done (clean_round now r))
  unfolding clean_round
  clean_round-Sim now (again s writes) young w =
      let (e, k) = clean-Sim now s w young in (ap (λ u. done (again u writes)) e, k)
  clean_round-Sim now (stops writes) young w = (refl, tt)

  round-Sim :
      (o : Options) (fails : ℕ → Bytes → Bool) (n : ℕ) (s : State) (now : ℕ) (payload : Bytes)
      → Waits s
      → ltb minute (now - time) ≡ false
      → IsOther uuid payload
      → Sim round_without RoundWaits
          (round o fails n (without s) now payload)
          (round o fails n s now payload)
  unfolding round
  round-Sim o fails n s now [] w young other =
      let (e, k) = clean-Sim now s w young in (ap (λ u. done (again u [])) e, k)
  round-Sim o fails n s now (c ∷ text) w young other = go (payload_meta (c ∷ text)) refl
    where
      shown-Sim :
          (shown : Option Bytes)
          → Sim round_without RoundWaits
              (elim shown [
                | none ↦ done (again (without s) [])
                | some p ↦ dispatch o fails n (without s) p >>= λ r. done (clean_round now r)
              ])
              (elim shown [
                | none ↦ done (again s [])
                | some p ↦ dispatch o fails n s p >>= λ r. done (clean_round now r)
              ])
      shown-Sim none = (refl, w)
      shown-Sim (some p) =
          Sim-bind round_without RoundWaits round_without RoundWaits
            (dispatch o fails n (without s) p) (dispatch o fails n s p) _ _
            (dispatch-Sim o fails n s p w) (λ r k. clean_round-Sim now r young k)

      passed-Sim :
          (passed : Passed)
          → PassedWaits passed
          → Sim round_without RoundWaits
              (elim (passed_without passed) [
                | dropped next ↦ done (again next [])
                | kept payload ↦ elim (pretty o.prettify payload) [
                  | none ↦ done (again (without s) [])
                  | some p ↦ dispatch o fails n (without s) p >>= λ r. done (clean_round now r)
                ]
              ])
              (elim passed [
                | dropped next ↦ done (again next [])
                | kept payload ↦ elim (pretty o.prettify payload) [
                  | none ↦ done (again s [])
                  | some p ↦ dispatch o fails n s p >>= λ r. done (clean_round now r)
                ]
              ])
      passed-Sim (dropped next) k = (refl, k)
      passed-Sim (kept p) k = shown-Sim (pretty o.prettify p)

      go :
          (meta : List Bytes)
          → payload_meta (c ∷ text) ≡ meta
          → Sim round_without RoundWaits
              (round o fails n (without s) now (c ∷ text))
              (round o fails n s now (c ∷ text))
      go [] e = rw (e, round) (refl, w)
      go (a ∷ []) e = rw (e, round) (refl, w)
      go (a ∷ (b ∷ [])) e = rw (e, round) (refl, w)
      go (a ∷ (id ∷ (b ∷ more))) e =
          rw (e, round)
            (Sim-bind passed_without PassedWaits round_without RoundWaits
              (modify o.modifier (without s) now id (c ∷ text))
              (modify o.modifier s now id (c ∷ text)) _ _
              (modify-Sim o.modifier s now id (c ∷ text) w (other a id b more e)) passed-Sim)

  -- Reads of other records, not more than a minute behind the request.
  abbrev pub AreBetween : List (ℕ × Bytes) → Type 0
  AreBetween = All (λ read. (read.0 ≤ time + minute) × IsOther uuid read.1)

  pub copy_multy-without :
      (o : Options) (fails : ℕ → Bytes → Bool) (n : ℕ) (s : State)
      (between tail tail' : List (ℕ × Bytes))
      → Waits s
      → AreBetween between
      → ((s : State)
          → Waits s
          → copy_multy o fails n s tail ≡ copy_multy o fails n (without s) tail')
      → copy_multy o fails n s (between ++ tail)
        ≡ copy_multy o fails n (without s) (between ++ tail')
  unfolding copy_multy
  copy_multy-without o fails n s [] tail tail' w a h = h s w
  copy_multy-without o fails n s ((now, payload) ∷ between) tail tail' w ((early, other), a) h =
      let inside : now ≤ time + 60000000000 = early in
      let young : ltb minute (now - time) ≡ false =
        le→ltb minute (now - time) (omega (arith, inside)) in
      let (e, k) = round-Sim o fails n s now payload w young other in
      go (λ s' j. copy_multy-without o fails n s' between tail tail' j a h)
        (round o fails n s now payload) k
      ∙ ap (λ m. m >>= λ r. next (between ++ tail') r) (sym e)
    where
      next : List (ℕ × Bytes) → Round → Outcome (List (ℕ × Bytes))
      next reads (stops writes) = done writes
      next reads (again s' writes) = copy_multy o fails n s' reads >>= λ more. done (writes ++ more)

      go :
          ((s' : State)
            → Waits s'
            → copy_multy o fails n s' (between ++ tail)
              ≡ copy_multy o fails n (without s') (between ++ tail'))
          → (m : Outcome Round) → Keeps RoundWaits m
          → (m >>= λ r. next (between ++ tail) r)
            ≡ (over round_without m >>= λ r. next (between ++ tail') r)
      go ih (done (again s' writes)) j = ap (λ u. u >>= λ more. done (writes ++ more)) (ih s' j)
      go ih (done (stops writes)) j = refl
      go ih panic j = refl
      go ih timeout j = refl
