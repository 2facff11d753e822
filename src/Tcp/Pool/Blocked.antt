-- ===== src/Tcp/Pool/Blocked.antt =====
-- `MessagePool`: goroutines that wait for each other, and the end of a message.
use mathlib.Core.Option.{some-injective}
use goreplay.Base.{
  done-injective, ℕ, ◌≡◌, ◌≢◌, inl, inr, refl, sym, ap, ◌∙◌, subst, true, done, some, get_elem?,
}
use goreplay.Tcp.Message.{Packet}
use goreplay.Tcp.Store.{get_elem?-modify}
use goreplay.Tcp.Pool.{
  waiting, expired, idle, offering, taking, resetting, Slot, Pool, Step, Reach, here, next, find,
  handle, set_phase, arrives, fires, meets, delivers, replies, replies_reset, replies_peer,
  times_out, with_phase,
}
use goreplay.Tcp.Pool.Invariant.{IsSafe, serving}
use goreplay.Tcp.Pool.Safety.{handle-result, serving-taking, Step-IsSafe}

-- The caller waits on a channel that no goroutine can serve.
record IsBlocked (p : Pool) : Type 0 where
  busy : p.caller ≢ idle
  untaken : (id : ℕ) → p.caller ≢ taking id
  unmet :
      (id : ℕ) (s : Slot)
      → get_elem? p.slots id ≡ some s
      → s.phase ≡ waiting
      → p.caller ≢ offering id

abbrev IsStill : Pool → Pool → Type 0
IsStill p q = IsBlocked q × (q.caller ≡ p.caller) × (q.handled ≡ p.handled)

fires-IsStill : (p : Pool) (id : ℕ) → IsBlocked p → IsStill p (set_phase p id expired)
fires-IsStill p id b = (
  record {
    busy = b.busy;
    untaken = b.untaken;
    unmet = λ j s found phase offered.
        elim (get_elem?-modify id (with_phase expired) p.slots j s found) [
          | inl (x, same, old, is) ↦
              (let no : expired ≡ waiting = sym (ap (λ y. y.phase) is) ∙ phase in cc)
          | inr (other, old) ↦ b.unmet j s old phase offered
        ];
  },
  refl,
  refl,
)

Step-IsStill : {p q : Pool} → Step p q → IsSafe p → IsBlocked p → IsStill p q
Step-IsStill (arrives packet free e) w b = absurd (b.busy free)
Step-IsStill {p = p} (fires id s found phase e) w b =
    subst (IsStill p) (sym e) (fires-IsStill p id b)
Step-IsStill (meets id s found phase offered e) w b = absurd (b.unmet id s found phase offered)
Step-IsStill {p = p} (delivers id s found phase e) w b =
    absurd (b.untaken id (serving-taking p id s w found (ap serving phase)))
Step-IsStill (replies id s found phase taken e) w b = absurd (b.untaken id taken)
Step-IsStill {p = p} (replies_reset id s packet found phase waits e) w b =
    absurd (b.untaken id (serving-taking p id s w found (ap serving phase)))
Step-IsStill {p = p} (replies_peer id s found phase waits e) w b =
    absurd (b.untaken id (serving-taking p id s w found (ap serving phase)))
Step-IsStill (times_out id s found phase free e) w b = absurd (b.busy free)

Reach-IsStill : {p q : Pool} → Reach p q → IsSafe p → IsBlocked p → IsSafe q × IsStill p q
Reach-IsStill here w b = (w, (b, refl, refl))
Reach-IsStill (next r s) w b =
    let (w', (b', caller, handled)) = Reach-IsStill r w b in
    let (b'', caller', handled') = Step-IsStill s w' b' in
    (Step-IsSafe s w', (b'', caller' ∙ caller, handled' ∙ handled))

-- A packet with RST that belongs to a message in the pool blocks the pool for ever: `Handler` holds
-- the lock and waits for a send on the message's channel that no goroutine makes. No later packet
-- and no timeout is handled, and the handler is given no message again.
pub handle-reset_blocks :
    (p q r : Pool) (packet : Packet) (id : ℕ)
    → IsSafe p
    → p.caller ≡ idle
    → packet.rst ≡ true
    → find p.pool packet.src packet.dst ≡ some id
    → handle p packet ≡ done q
    → Reach q r
    → (r.caller ≡ resetting id packet) × (r.handled ≡ p.handled)
unfolding handle
handle-reset_blocks p q r packet id w free reset found e reached =
    let stopped : Pool = record p { caller = resetting id packet } in
    let ran : handle p packet ≡ done stopped = simp (reset, found) in
    let stops : stopped ≡ q = done-injective stopped q (sym ran ∙ e) in
    let safe : IsSafe stopped = subst IsSafe (sym stops) (handle-result p q packet w free e) in
    let (w'', (b, caller, handled)) =
      Reach-IsStill (subst (λ u. Reach u r) (sym stops) reached) safe
        (record { busy = λ h. cc; untaken = λ i h. cc; unmet = λ i s f phase h. cc }) in
    (caller, handled)

-- In a safe state in which `Handler` already offers to end a message while the timer of that
-- message's goroutine has fired, and the goroutine waits for the lock that `Handler` holds, the pool
-- is blocked for ever: the offer stays, and the handler is given no message again.
pub late_timer_blocks :
    (p q : Pool) (id : ℕ) (s : Slot)
    → IsSafe p
    → p.caller ≡ offering id
    → get_elem? p.slots id ≡ some s
    → s.phase ≡ expired
    → Reach p q
    → (q.caller ≡ offering id) × (q.handled ≡ p.handled)
late_timer_blocks p q id s w offered found late reached =
    let (w', (b, caller, handled)) = Reach-IsStill reached w (record {
      busy = λ h. (let no : offering id ≡ idle = sym offered ∙ h in cc);
      untaken = λ i h. (let no : offering id ≡ taking i = sym offered ∙ h in cc);
      unmet = λ i x found' phase h.
          (let same : id ≡ i = offering-injective id i (sym offered ∙ h) in
            let is : s ≡ x =
              some-injective s x (sym found ∙ ap (get_elem? p.slots) same ∙ found') in
            let no : expired ≡ waiting = sym late ∙ ap (λ y. y.phase) is ∙ phase in cc);
    }) in
    (caller ∙ offered, handled)
  where
    offering-injective : (i j : ℕ) → offering i ≡ offering j → i ≡ j
    offering-injective i j e = cc
