-- ===== src/Emitter/Filtered.antt =====
-- The responses of dropped requests.
use goreplay.Base.{
  ℕ, ◌+◌, ◌≡◌, ◌≢◌, refl, ap, ◌∙◌, Bool, true, false, Bytes, Outcome, done, panic, timeout, ◌>>=◌,
  Option, none, some, List, [], ◌∷◌, ◌++◌, drop, arith, ◌==◌, index_byte, Bool-cases, inl, inr,
  equal,
}
use goreplay.Text.Ints.{ℤ}
use goreplay.Tcp.Store.{Map, lookup, delete, store, equal_refl}
use goreplay.Modifier.{Config, rewrite}
use goreplay.Protocol.{
  payload_header, payload_meta, payload_body, is_request_payload, request_payload,
}
use goreplay.Protocol.Records.{IsWord, meta-header}
use goreplay.Emitter.{
  Options, State, again, dropped, head_size, modify_request, pass_response, modify, round,
}

drop-head_size : (payload : Bytes) → drop (head_size payload) payload ≡ payload_body payload
unfolding payload_body
drop-head_size payload = go (index_byte payload b'\n')
  where
    go :
        (o : Option ℕ)
        → drop (elim o [ none ↦ 0 | some i ↦ i + 1 ]) payload
          ≡ elim o [ none ↦ payload | some i ↦ drop (i + 1) payload ]
    go none = refl
    go (some i) = refl

delete_idem : (m : Map) (k : Bytes) → delete (delete m k) k ≡ delete m k
unfolding delete
delete_idem [] k = refl
delete_idem ((a, v) ∷ m) k = elim (Bool-cases (equal a k)) [
  | inl h ↦ rw h (delete_idem m k)
  | inr h ↦ rw h (rw h (ap (◌∷◌ (a, v)) (delete_idem m k)))
]

delete-absent : (m : Map) (k : Bytes) → lookup m k ≡ none → delete m k ≡ m
unfolding delete lookup
delete-absent [] k e = refl
delete-absent ((a, v) ∷ m) k e = elim (Bool-cases (equal a k)) [
  | inl h ↦ (let no : some v ≡ none = rw h at e in cc)
  | inr h ↦ rw h (ap (◌∷◌ (a, v)) (delete-absent m k (rw h at e)))
]

pub delete-store : (m : Map) (k : Bytes) (v : ℕ) → lookup m k ≡ none → delete (store m k v) k ≡ m
unfolding delete store
delete-store m k v e = rw (equal_refl k) (delete_idem m k ∙ delete-absent m k e)

pub lookup-store_self : (m : Map) (k : Bytes) (v : ℕ) → lookup (store m k v) k ≡ some v
unfolding lookup store
lookup-store_self m k v = rw (equal_refl k) refl

is_request-header :
    (uuid : Bytes) (timing latency : ℤ) (body : Bytes)
    → is_request_payload (payload_header request_payload uuid timing latency ++ body) ≡ done true
unfolding is_request_payload payload_header
is_request-header uuid timing latency body = refl

is_response-header :
    (t : ℕ) (uuid : Bytes) (timing latency : ℤ) (body : Bytes)
    → t ≢ request_payload
    → is_request_payload (payload_header t uuid timing latency ++ body) ≡ done false
unfolding is_request_payload payload_header
is_response-header t uuid timing latency body h =
    let no : (t == request_payload) ≡ false = ground arith in ap done no

modify_request-drops :
    (c : Config) (s : State) (now : ℕ) (id payload body : Bytes)
    → payload_body payload ≡ body
    → rewrite c body ≡ done []
    → is_request_payload payload ≡ done true
    → modify (some c) s now id payload
      ≡ done (dropped (record s { filtered = store s.filtered id now }))
unfolding modify modify_request
modify_request-drops c s now id payload body e drops request =
    rw (request, ◌>>=◌) (rw (ap (rewrite c) (drop-head_size payload ∙ e) ∙ drops, ◌>>=◌) refl)

pass_response-drops :
    (c : Config) (s : State) (now time : ℕ) (id payload : Bytes)
    → lookup s.filtered id ≡ some time
    → is_request_payload payload ≡ done false
    → modify (some c) s now id payload
      ≡ done (dropped (record s { filtered = delete s.filtered id }))
unfolding modify pass_response
pass_response-drops c s now time id payload known response =
    rw (response, ◌>>=◌) (rw (known, pass_response) refl)

round-dropped :
    (o : Options) (fails : ℕ → Bytes → Bool) (n : ℕ) (s next : State) (now : ℕ)
    (payload a id b : Bytes) (more : List Bytes)
    → payload_meta payload ≡ a ∷ (id ∷ (b ∷ more))
    → modify o.modifier s now id payload ≡ done (dropped next)
    → round o fails n s now payload ≡ done (again next [])
unfolding round
round-dropped o fails n s next now [] a id b more e h =
    let no : [] ≡ a ∷ (id ∷ (b ∷ more)) = unfold payload_meta index_byte in e in cc
round-dropped o fails n s next now (x ∷ text) a id b more e h = rw (e, round) (rw (h, ◌>>=◌) refl)

module _ (o : Options) (fails : ℕ → Bytes → Bool) (n : ℕ) (c : Config) (uuid : Bytes)
    (hu : IsWord uuid) (on : o.modifier ≡ some c) where
  -- A request whose body the modifier drops is remembered.
  pub round-request :
      (s : State) (now : ℕ) (timing latency : ℤ) (body : Bytes)
      → rewrite c body ≡ done []
      → round o fails n s now (payload_header request_payload uuid timing latency ++ body)
        ≡ done (again (record s { filtered = store s.filtered uuid now }) [])
  round-request s now timing latency body drops =
      let (meta, behind) =
        meta-header request_payload uuid timing latency body
          ((λ e. omega arith), (λ e. omega arith)) hu in
      let payload = payload_header request_payload uuid timing latency ++ body in
      round-dropped o fails n s _ now payload _ uuid _ _ meta (
        ap (λ m. modify m s now uuid payload) on
        ∙ modify_request-drops c s now uuid payload body behind drops
            (is_request-header uuid timing latency body))

  -- The response of a remembered request is dropped, and the request forgotten.
  pub round-response :
      (s : State) (now time : ℕ) (t : ℕ) (timing latency : ℤ) (body : Bytes)
      → (t ≢ b' ') × (t ≢ b'\n')
      → t ≢ request_payload
      → lookup s.filtered uuid ≡ some time
      → round o fails n s now (payload_header t uuid timing latency ++ body)
        ≡ done (again (record s { filtered = delete s.filtered uuid }) [])
  round-response s now time t timing latency body ht other known =
      let (meta, behind) = meta-header t uuid timing latency body ht hu in
      let payload = payload_header t uuid timing latency ++ body in
      round-dropped o fails n s _ now payload _ uuid _ _ meta (
        ap (λ m. modify m s now uuid payload) on
        ∙ pass_response-drops c s now time uuid payload known
            (is_response-header t uuid timing latency body other))

pub bind_nil : (m : Outcome (List (ℕ × Bytes))) → (m >>= λ more. done ([] ++ more)) ≡ m
bind_nil (done a) = refl
bind_nil panic = refl
bind_nil timeout = refl
