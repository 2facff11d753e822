-- ===== src/HttpOutput/Scaling.antt =====
-- Bounds on the number of workers that two goroutines can break.
use goreplay.Base.{
  ℕ, zero, suc, ◌+◌, ◌-◌, ◌≤◌, ◌<◌, ◌≡◌, ◌≢◌, refl, sym, ap, ◌∙◌, true, false, Bytes, done, some,
  List, [], ◌∷◌, ◌++◌, length, length-append, get_elem?, arith, ◌==◌, lt→leb,
}
use goreplay.Tcp.Store.{modify}
use goreplay.Protocol.{is_request_payload, request_payload}
use goreplay.HttpOutput.{
  Config, Worker, ready, leaving, gone, Output, extra_workers, ask, write, add_workers, may_leave,
  set_worker, writes, adds, idles, leaves, Reach, here, next,
}

get_elem?-modify_self :
    (ws : List Worker) (i : ℕ) (w w' : Worker)
    → get_elem? ws i ≡ some w
    → get_elem? (modify i (λ old. w') ws) i ≡ some w'
unfolding modify
get_elem?-modify_self [] i w w' e = cc
get_elem?-modify_self (v ∷ ws) zero w w' e = refl
get_elem?-modify_self (v ∷ ws) (suc i) w w' e = get_elem?-modify_self ws i w w' e

get_elem?-modify_other :
    (ws : List Worker) (i j : ℕ) (w' : Worker)
    → i ≢ j
    → get_elem? (modify i (λ old. w') ws) j ≡ get_elem? ws j
unfolding modify
get_elem?-modify_other [] i j w' h = refl
get_elem?-modify_other (v ∷ ws) zero zero w' h = absurd (h refl)
get_elem?-modify_other (v ∷ ws) zero (suc j) w' h = refl
get_elem?-modify_other (v ∷ ws) (suc i) zero w' h = refl
get_elem?-modify_other (v ∷ ws) (suc i) (suc j) w' h =
    get_elem?-modify_other ws i j w' (λ e. h (ap suc e))

-- Two workers that are idle at the same time can both pass the test that keeps the minimum alive,
-- since the count is read before it is lowered: with one worker above the minimum the pool falls
-- below it, and with a minimum of one no worker is left.
pub workers_below_min :
    (c : Config) (o : Output) (i j : ℕ)
    → c.workers_min ≢ c.workers_max
    → 1 ≤ c.workers_min
    → o.active ≡ c.workers_min + 1
    → i ≢ j
    → get_elem? o.workers i ≡ some ready
    → get_elem? o.workers j ≡ some ready
    → (q : Output) × Reach c o q × (q.active < c.workers_min)
unfolding may_leave
workers_below_min c o i j h pos at ne hi hj =
    let may : may_leave c o.active ≡ true = ground arith in
    let o₁ : Output = set_worker o i leaving in
    let o₂ : Output = set_worker o₁ j leaving in
    let j₁ : get_elem? o₁.workers j ≡ some ready =
      get_elem?-modify_other o.workers i j leaving ne ∙ hj in
    let i₂ : get_elem? o₂.workers i ≡ some leaving =
      get_elem?-modify_other o₁.workers j i leaving (λ e. ne (sym e))
      ∙ get_elem?-modify_self o.workers i ready leaving hi in
    let o₃ : Output = record (set_worker o₂ i gone) { active = o₂.active - 1 } in
    let j₃ : get_elem? o₃.workers j ≡ some leaving =
      get_elem?-modify_other o₂.workers i j gone ne
      ∙ get_elem?-modify_self o₁.workers j ready leaving j₁ in
    (
      record (set_worker o₃ j gone) { active = o₃.active - 1 },
      next (next (next (next here (idles i hi may refl)) (idles j j₁ may refl)) (leaves i i₂ refl))
          (leaves j j₃ refl),
      omega arith,
    )

-- With as many requests in the queue as workers are wanted, a `Write` asks for all that are missing.
write-asks :
    (c : Config) (o : Output) (text : Bytes)
    → c.workers_min ≢ c.workers_max
    → o.active < c.workers_max
    → c.workers_max ≤ length o.queue + 1
    → length o.queue < c.queue_len
    → write c o (request_payload ∷ text)
      ≡ done (
          some (record o {
            queue = o.queue ++ ((request_payload ∷ text) ∷ []);
            need = o.need ++ ((c.workers_max - o.active) ∷ []);
          }))
unfolding write is_request_payload extra_workers
write-asks c o text h room full fits =
    let amount : extra_workers c (length o.queue + 1) o.active ≡ c.workers_max - o.active =
      ground arith in
    let some_more : (c.workers_max - o.active == 0) ≡ false = ground arith in
    let wanted : ask (extra_workers c (length o.queue + 1) o.active) o.need
        ≡ o.need ++ ((c.workers_max - o.active) ∷ []) =
      rw amount (rw some_more refl) in
    rw (lt→leb c.queue_len (length o.queue) fits) (
      ap
        (λ n.
          done (some (record o { queue = o.queue ++ ((request_payload ∷ text) ∷ []); need = n })))
        wanted)

-- The requests for workers do not know of each other: two writers that find a long queue both ask for
-- all the workers up to the maximum, and then as many too many are started.
pub workers_exceed_max :
    (c : Config) (o : Output) (text text' : Bytes)
    → c.workers_min ≢ c.workers_max
    → o.active < c.workers_max
    → c.workers_max ≤ length o.queue + 1
    → length o.queue + 1 < c.queue_len
    → o.need ≡ []
    → (q : Output) × Reach c o q
      × (q.active ≡ c.workers_max + (c.workers_max - o.active))
      × (c.workers_max < q.active)
unfolding add_workers
workers_exceed_max c o text text' h room full fits free =
    let missing : ℕ = c.workers_max - o.active in
    let o₁ : Output = record o {
      queue = o.queue ++ ((request_payload ∷ text) ∷ []);
      need = o.need ++ (missing ∷ []);
    } in
    let longer : length o₁.queue ≡ length o.queue + 1 =
      length-append o.queue ((request_payload ∷ text) ∷ []) in
    let o₂ : Output = record o₁ {
      queue = o₁.queue ++ ((request_payload ∷ text') ∷ []);
      need = o₁.need ++ (missing ∷ []);
    } in
    let o₃ : Output = add_workers o₂ missing (missing ∷ []) in
    (
      add_workers o₃ missing [],
      next
          (next
            (next
              (next here
                (writes (request_payload ∷ text) (write-asks c o text h room full (omega arith))))
              (writes (request_payload ∷ text')
                (write-asks c o₁ text' h room (omega (arith, longer)) (omega (arith, longer)))))
            (adds missing (missing ∷ []) (ap (λ n. (n ++ (missing ∷ [])) ++ (missing ∷ [])) free)
              refl))
          (adds missing [] refl refl),
      omega arith,
      omega arith,
    )
