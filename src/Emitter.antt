-- ===== src/Emitter.antt =====
-- emitter.go: `CopyMulty`, which reads records, rewrites or drops them and writes them to the outputs.
-- An output is its place in the list of writers; which writes fail is a parameter. The edits of the
-- modifier take place in the read buffer, which is taken to have room for them: a rewritten record
-- is the header with the new body. The clock is read once in a round.
pub mod Filtered
pub mod Forget
pub mod Simulation
pub mod Without
pub mod Delayed
pub mod Dispatch
pub mod Examples
use goreplay.Base.{
  ℕ, zero, suc, ◌+◌, ◌-◌, ◌%◌, ◌<◌, Bool, true, false, not, ◌&&◌, ◌||◌, Bytes, Outcome, done, panic,
  ◌>>=◌, Option, none, some, List, [], ◌∷◌, ◌++◌, length, take, drop, ltb, leb, ◌==◌, if◌then◌else◌,
  index_byte,
}
use goreplay.Tcp.Store.{Map, lookup, delete, store}
use goreplay.Protocol.{payload_meta, payload_id, is_request_payload}
use goreplay.Modifier.{Config, rewrite, is_nil}

-- `Settings`, with the modifier that `NewHTTPModifier` gives, `prettifyHTTP` and the FNV hash.
pub record Options : Type 0 where
  pub modifier : Option Config
  pub prettify : Option (Bytes → Bytes)
  pub split_output : Bool
  pub recognize_sessions : Bool
  pub is_pro : Bool
  pub hash : Bytes → ℕ

-- The variables of the loop; `filtered` maps the identifiers of dropped requests to times.
pub record State : Type 0 where
  pub w_index : ℕ
  pub filtered : Map
  pub last_clean : ℕ
  pub rounds : ℕ

abbrev pub start : ℕ → State
start now = record { w_index = 0; filtered = []; last_clean = now; rounds = 0 }

-- What a round comes to: the next state, and the writes with the places of their writers; or the end
-- of the loop by a failed write.
pub data Round : Type 0 where
  again : State → List (ℕ × Bytes) → Round
  stops : List (ℕ × Bytes) → Round

-- The record with the rewritten body; `none` when the record is dropped.
pub data Passed : Type 0 where
  dropped : State → Passed
  kept : Bytes → Passed

abbrev pub head_size : Bytes → ℕ
head_size payload = elim (index_byte payload b'\n') [ none ↦ 0 | some i ↦ i + 1 ]

unfoldable pub modify_request : Config → State → ℕ → Bytes → Bytes → Outcome Passed
modify_request c s now id payload = do
  body ← rewrite c (drop (head_size payload) payload)
  done (
      if is_nil body
      then dropped (record s { filtered = store s.filtered id now })
      else kept (take (head_size payload) payload ++ body))

unfoldable pub pass_response : State → Bytes → Bytes → Passed
pass_response s id payload = elim (lookup s.filtered id) [
  | none ↦ kept payload
  | some time ↦ dropped (record s { filtered = delete s.filtered id })
]

unfoldable pub modify : Option Config → State → ℕ → Bytes → Bytes → Outcome Passed
modify none s now id payload = done (kept payload)
modify (some c) s now id payload = do
  request ← is_request_payload payload
  if request then modify_request c s now id payload else done (pass_response s id payload)

-- The loop over all writers; it ends at a failed write.
unfoldable pub write_each : (ℕ → Bytes → Bool) → ℕ → ℕ → Bytes → List (ℕ × Bytes) × Bool
write_each fails zero i payload = ([], true)
write_each fails (suc n) i payload =
    let rest = write_each fails n (i + 1) payload in
    if fails i payload then ((i, payload) ∷ [], false) else ((i, payload) ∷ rest.0, rest.1)

-- The writes of one record, to `n` writers.
unfoldable pub dispatch : Options → (ℕ → Bytes → Bool) → ℕ → State → Bytes → Outcome Round
dispatch o fails n s payload =
    if not o.split_output
    then (let writes = write_each fails n 0 payload in
        done (if writes.1 then again s writes.0 else stops writes.0))
    else if o.recognize_sessions
    then (if not o.is_pro then panic else (do
      id ← payload_id payload
      if n == 0
          then panic
          else (let chosen = o.hash id % n in
              done (again (record s { w_index = chosen }) ((chosen, payload) ∷ [])))))
    else if ltb s.w_index n
    then done (
        if fails s.w_index payload
        then stops ((s.w_index, payload) ∷ [])
        else again (record s { w_index = if leb n (s.w_index + 1) then 0 else s.w_index + 1 })
            ((s.w_index, payload) ∷ []))
    else panic

abbrev pub minute : ℕ
minute = 60000000000

unfoldable pub forget_old : ℕ → Map → Map
forget_old now [] = []
forget_old now ((k, time) ∷ m) =
    let rest = forget_old now m in if ltb minute (now - time) then rest else (k, time) ∷ rest

-- The end of a round that did not `continue`: every 1000 rounds old identifiers are forgotten.
unfoldable pub clean : ℕ → State → State
clean now s =
    let next = record s { rounds = s.rounds + 1 } in
    if s.rounds % 1000 == 0 && ltb minute (now - s.last_clean)
    then record next { filtered = forget_old now s.filtered; last_clean = now }
    else next

unfoldable pub clean_round : ℕ → Round → Round
clean_round now (again s writes) = again (clean now s) writes
clean_round now (stops writes) = stops writes

abbrev pub pretty : Option (Bytes → Bytes) → Bytes → Option Bytes
pretty none payload = some payload
pretty (some f) payload = if is_nil (f payload) then none else some (f payload)

-- One round for the `nr` bytes of a read.
unfoldable pub round : Options → (ℕ → Bytes → Bool) → ℕ → State → ℕ → Bytes → Outcome Round
round o fails n s now [] = done (again (clean now s) [])
round o fails n s now (c ∷ text) = elim (payload_meta (c ∷ text)) [
  | a ∷ (id ∷ (b ∷ more)) ↦ do
    passed ← modify o.modifier s now id (c ∷ text)
    elim passed [
      | dropped next ↦ done (again next [])
      | kept payload ↦ elim (pretty o.prettify payload) [
        | none ↦ done (again s [])
        | some shown ↦ do r ← dispatch o fails n s shown; done (clean_round now r)
      ]
    ]
  | _ ↦ done (again s [])
]

-- The writes of the loop on the records that it reads, with the times of the reads.
unfoldable pub copy_multy :
    Options → (ℕ → Bytes → Bool) → ℕ → State → List (ℕ × Bytes) → Outcome (List (ℕ × Bytes))
copy_multy o fails n s [] = done []
copy_multy o fails n s ((now, payload) ∷ reads) = do
  r ← round o fails n s now payload
  elim r [
    | stops writes ↦ done writes
    | again next writes ↦ do more ← copy_multy o fails n next reads; done (writes ++ more)
  ]
