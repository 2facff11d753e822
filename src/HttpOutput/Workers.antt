-- ===== src/HttpOutput/Workers.antt =====
-- The count of the workers, and the order of the requests.
use mathlib.Core.Option.{some-injective}
use goreplay.Base.{
  ℕ, zero, suc, ◌+◌, ◌≤◌, ◌≡◌, refl, sym, ap, ◌∙◌, subst, Bytes, true, false, done, some, List, [],
  ◌∷◌, ◌++◌, get_elem?, replicate, arith,
}
use goreplay.Tcp.Store.{modify}
use goreplay.Protocol.{is_request_payload}
use goreplay.HttpOutput.{
  Config, Worker, ready, leaving, gone, Output, new_output, write, add_workers, Step, writes, adds,
  sends, idles, leaves, stops, quits, Reach, here, next,
}

abbrev is_alive : Worker → ℕ
is_alive ready = 1
is_alive leaving = 1
is_alive gone = 0

-- The workers that have not left.
abbrev pub alive : List Worker → ℕ
alive [] = 0
alive (w ∷ ws) = is_alive w + alive ws

alive-append : (ws vs : List Worker) → alive (ws ++ vs) ≡ alive ws + alive vs
alive-append [] vs = omega arith
alive-append (w ∷ ws) vs = omega (arith, alive-append ws vs)

alive-replicate : (n : ℕ) → alive (replicate n ready) ≡ n
alive-replicate zero = refl
alive-replicate (suc n) = omega (arith, alive-replicate n)

alive-modify :
    (ws : List Worker) (i : ℕ) (w w' : Worker)
    → get_elem? ws i ≡ some w
    → alive (modify i (λ old. w') ws) + is_alive w ≡ alive ws + is_alive w'
unfolding modify
alive-modify [] i w w' e = cc
alive-modify (v ∷ ws) zero w w' e =
    (let same : v ≡ w = some-injective v w e in omega (arith, ap is_alive same))
alive-modify (v ∷ ws) (suc i) w w' e = omega (arith, alive-modify ws i w w' e)

-- The count is at least that of the workers, and until `Close` it is that.
pub record IsCounted (o : Output) : Type 0 where
  pub covers : alive o.workers ≤ o.active
  pub exact : o.stopped ≡ false → o.active ≡ alive o.workers

-- A step that changes the count and the number of workers alike.
quits-IsCounted :
    (o q : Output)
    → IsCounted o
    → q.active + alive o.workers ≡ o.active + alive q.workers
    → q.stopped ≡ o.stopped
    → IsCounted q
quits-IsCounted o q w same stop = record {
  covers = omega (arith, w.covers, same);
  exact = λ h. omega (arith, w.exact (sym stop ∙ h), same);
}

write-IsCounted :
    (c : Config) (o q : Output) (payload : Bytes)
    → IsCounted o
    → write c o payload ≡ done (some q)
    → IsCounted q
unfolding write is_request_payload
write-IsCounted c o q [] w e = cc
write-IsCounted c o q (x ∷ payload) w e = record {
  covers = ground (arith, e, w.covers);
  exact = λ h. ground (arith, e, h, w.exact);
}

pub Step-IsCounted : {c : Config} {o q : Output} → Step c o q → IsCounted o → IsCounted q
unfolding add_workers
Step-IsCounted {c = c} {o = o} {q = q} (writes payload e) w = write-IsCounted c o q payload w e
Step-IsCounted {o = o} (adds n rest e is) w = subst IsCounted (sym is) (
    quits-IsCounted o _ w
      (omega (arith, alive-append o.workers (replicate n ready), alive-replicate n)) refl)
Step-IsCounted {o = o} (sends i payload rest r e found titled is) w =
    subst IsCounted (sym is) (quits-IsCounted o _ w refl refl)
Step-IsCounted {o = o} (idles i e may is) w =
    subst IsCounted (sym is)
      (quits-IsCounted o _ w (omega (arith, alive-modify o.workers i ready leaving e)) refl)
Step-IsCounted {o = o} (leaves i e is) w =
    let one = alive-modify o.workers i leaving gone e in
    subst IsCounted (sym is) (quits-IsCounted o _ w (omega (arith, one, w.covers)) refl)
Step-IsCounted {o = o} (stops open_yet is) w =
    subst IsCounted (sym is) (record { covers = w.covers; exact = λ h. cc })
Step-IsCounted {o = o} (quits i e stop is) w = subst IsCounted (sym is) (record {
  covers = omega (arith, w.covers, alive-modify o.workers i ready gone e);
  exact = λ h. absurd (differ (sym stop ∙ h));
})
  where
    differ : true ≡ false → ⊥
    differ h = cc

-- In every state that an output reaches from its start, `activeWorkers` is the number of the workers
-- that were started and have not left, until `Close`; behind it no more workers than that are left.
pub Reach-IsCounted : {c : Config} {q : Output} → Reach c (new_output c) q → IsCounted q
unfolding new_output
Reach-IsCounted here = record { covers = omega arith; exact = λ h. refl }
Reach-IsCounted (next r s) = Step-IsCounted s (Reach-IsCounted r)
