-- ===== src/Tcp/Pool/Delivery.antt =====
-- `MessagePool`: a message whose last packet arrived in time.
use goreplay.Base.{ℕ, zero, suc, ◌≡◌, refl, ap, none, some, List, [], ◌∷◌, ◌++◌, get_elem?}
use goreplay.Tcp.Store.{lookup, lookup-delete_same, modify}
use goreplay.Tcp.Pool.{
  waiting, received, replying, ended, idle, offering, taking, Slot, Pool, Reach, here, next,
  set_phase, deliver, meets, delivers, replies, with_phase,
}

get_elem?-modify_same :
    (xs : List Slot) (id : ℕ) (f : Slot → Slot) (s : Slot)
    → get_elem? xs id ≡ some s
    → get_elem? (modify id f xs) id ≡ some (f s)
unfolding modify
get_elem?-modify_same [] id f s e = cc
get_elem?-modify_same (x ∷ xs) zero f s e = ap (λ o. elim o [ none ↦ none | some y ↦ some (f y) ]) e
get_elem?-modify_same (x ∷ xs) (suc id) f s e = get_elem?-modify_same xs id f s e

-- When `Handler` offers to end a message whose goroutine still waits, the pool can always run to a
-- state in which `Handler` has returned, the handler was given that message as the next one, and its
-- key is free.
pub offering-delivered :
    (p : Pool) (id : ℕ) (s : Slot)
    → p.caller ≡ offering id
    → get_elem? p.slots id ≡ some s
    → s.phase ≡ waiting
    → (q : Pool) × Reach p q
      × (q.caller ≡ idle)
      × (q.handled ≡ p.handled ++ (s.message ∷ []))
      × (lookup q.pool s.key ≡ none)
unfolding deliver
offering-delivered p id s offered found phase = (
  returned,
  next
      (next (next here (meets id s found phase offered refl)) (
        delivers id (with_phase received s)
          (get_elem?-modify_same p.slots id (with_phase received) s found) refl refl))
      (replies id (with_phase replying s) answered refl refl refl),
  refl,
  refl,
  lookup-delete_same p.pool s.key,
)
  where
    met : Pool
    met = record (set_phase p id received) { caller = taking id }

    given : Pool
    given = deliver met id (with_phase received s)

    returned : Pool
    returned = record (set_phase given id ended) { caller = idle }

    answered : get_elem? given.slots id ≡ some (with_phase replying s)
    answered =
        get_elem?-modify_same met.slots id (with_phase replying) (with_phase received s)
          (get_elem?-modify_same p.slots id (with_phase received) s found)
