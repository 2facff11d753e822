-- ===== src/Capture/Readers/Stopping.antt =====
-- `Listen` behind the end of its context.
use mathlib.Core.Option.{some-injective}
use goreplay.Base.{
  ℕ, zero, suc, ◌+◌, ◌*◌, ◌<◌, ◌≤◌, ◌≡◌, ◌≢◌, ◌⊎◌, inl, inr, refl, sym, ap, ◌∙◌, subst, true, false,
  some, List, [], ◌∷◌, ◌++◌, length, length-append, get_elem?, arith, Bool-cases, if◌then◌else◌,
  ◌==◌,
}
use goreplay.Tcp.Store.{modify}
use goreplay.Capture.Readers.{
  Captured, Goroutine, selecting, sending, closing, over, has_handle, handles, Run, set_reader,
  reading_from, close_handles, Step, takes, ends, quits, sends, sends_on_closed, closes, cancels,
  handles_packet, returns, Reach, here, next,
}
use goreplay.Capture.Readers.Order.{of_interface}
use goreplay.Capture.Readers.Ends.{returned-handled}
use goreplay.Capture.Readers.Safety.{IsCalm, Step-IsCalm, Reach-IsCalm, still_open}

work : Goroutine → ℕ
work over = 0
work closing = 1
work selecting = 2
work (sending p) = 5

works : List Goroutine → ℕ
unfolding work
works [] = 0
works (r ∷ rs) = work r + works rs

works-modify :
    (rs : List Goroutine) (i : ℕ) (r r' : Goroutine)
    → get_elem? rs i ≡ some r
    → works (modify i (λ old. r') rs) + work r ≡ works rs + work r'
unfolding works modify
works-modify [] i r r' e = cc
works-modify (q ∷ rs) zero r r' e =
    (let same : q ≡ r = some-injective q r e in omega (arith, ap work same))
works-modify (q ∷ rs) (suc i) r r' e = omega (arith, works-modify rs i r r' e)

-- What is left to do.
abbrev to_do : Run → ℕ
to_do s = works s.readers + 2 * length s.packets + (if s.returned then 0 else 1)

-- A step of a run that was told to quit, to one with less to do.
record NextStep (s : Run) : Type 0 where
  reached : Run
  step : Step s reached
  less : to_do reached < to_do s
  still : reached.quit ≡ true

a_reader :
    (rs : List Goroutine)
    → (handles rs ≡ 0)
      ⊎ ((i : ℕ) × (r : Goroutine) × (get_elem? rs i ≡ some r) × (has_handle r ≡ 1))
unfolding handles
a_reader [] = inl refl
a_reader (selecting ∷ rs) = inr (0, selecting, refl, refl)
a_reader (closing ∷ rs) = inr (0, closing, refl, refl)
a_reader (sending p ∷ rs) = inr (0, sending p, refl, refl)
a_reader (over ∷ rs) = elim (a_reader rs) [
  | inl e ↦ inl (omega (arith, e))
  | inr (i, r, e, one) ↦ inr (suc i, r, e, one)
]

close_handles-less :
    (s : Run) (i : ℕ)
    → get_elem? s.readers i ≡ some closing
    → (to_do (close_handles s i) < to_do s) × ((close_handles s i).quit ≡ s.quit)
unfolding close_handles set_reader work
close_handles-less s i e = elim (Bool-cases (handles (modify i (λ old. over) s.readers) == 0)) [
  | inl last ↦ rw last (omega (arith, works-modify s.readers i closing over e), refl)
  | inr more ↦ rw more (omega (arith, works-modify s.readers i closing over e), refl)
]

Goroutine-NextStep :
    (s : Run) (i : ℕ) (r : Goroutine)
    → IsCalm s
    → s.quit ≡ true
    → s.packets ≡ []
    → get_elem? s.readers i ≡ some r
    → has_handle r ≡ 1
    → NextStep s
unfolding set_reader work
Goroutine-NextStep s i selecting w q none_left e one = record {
  reached = set_reader s i closing;
  step = quits i e q refl;
  less = omega (arith, works-modify s.readers i selecting closing e);
  still = q;
}
Goroutine-NextStep s i closing w q none_left e one = record {
  reached = close_handles s i;
  step = closes i e refl;
  less = (close_handles-less s i e).0;
  still = (close_handles-less s i e).1 ∙ q;
}
Goroutine-NextStep s i (sending p) w q none_left e one = record {
  reached = record (set_reader s i selecting) { packets = s.packets ++ (p ∷ []) };
  step =
      sends i p e (still_open s i (sending p) e refl w) (omega (arith, ap length none_left)) refl;
  less =
      omega
        (arith, works-modify s.readers i (sending p) selecting e, length-append s.packets (p ∷ []));
  still = q;
}
Goroutine-NextStep s i over w q none_left e one = absurd (omega (arith, one))

run-NextStep :
    (s : Run) (ps : List Captured)
    → s.packets ≡ ps
    → IsCalm s
    → s.quit ≡ true
    → s.returned ≡ false
    → NextStep s
run-NextStep s (p ∷ rest) e w q going = record {
  reached = record s { packets = rest; handled = s.handled ++ (p ∷ []) };
  step = handles_packet p rest going e refl;
  less = omega (arith, ap length e);
  still = q;
}
run-NextStep s [] e w q going = elim (a_reader s.readers) [
  | inl none_left ↦ record {
    reached = record s { returned = true };
    step = returns going e (w.closed_then none_left) refl;
    less = rw going (omega arith);
    still = q;
  }
  | inr (i, r, at, one) ↦ Goroutine-NextStep s i r w q e at one
]

first_step : {s p q : Run} → Step s p → Reach p q → Reach s q
first_step st here = next here st
first_step st (next r more) = next (first_step st r) more

stops :
    (fuel : ℕ) (s : Run)
    → to_do s ≤ fuel
    → IsCalm s
    → s.quit ≡ true
    → (q : Run) × Reach s q × (q.returned ≡ true)
stops zero s h w q = elim (Bool-cases s.returned) [
  | inl done ↦ (s, here, done)
  | inr going ↦ absurd (omega (arith, h, (run-NextStep s s.packets refl w q going).less))
]
stops (suc fuel) s h w q = elim (Bool-cases s.returned) [
  | inl done ↦ (s, here, done)
  | inr going ↦
      (let p = run-NextStep s s.packets refl w q going in
        let (t, r, done) =
          stops fuel p.reached (omega (arith, h, p.less)) (Step-IsCalm p.step w) p.still in
        (t, first_step p.step r, done))
]

absent : (rs : List Goroutine) (i : ℕ) (r : Goroutine) → rs ≡ [] → get_elem? rs i ≢ some r
absent [] i r e h = cc
absent (x ∷ rs) i r e h = cc

Idle : Run → Type 0
Idle s = (s.readers ≡ []) × (s.packets_closed ≡ false) × (s.returned ≡ false)

Step-Idle : {p q : Run} → Step p q → Idle p → Idle q
unfolding Idle
Step-Idle {p = p} (takes i d e from is) w = absurd (absent p.readers i selecting w.0 e)
Step-Idle {p = p} (ends i e is) w = absurd (absent p.readers i selecting w.0 e)
Step-Idle {p = p} (quits i e h is) w = absurd (absent p.readers i selecting w.0 e)
Step-Idle {p = p} (sends i d e unclosed room is) w = absurd (absent p.readers i (sending d) w.0 e)
Step-Idle {p = p} (sends_on_closed i d e shut is) w = absurd (absent p.readers i (sending d) w.0 e)
Step-Idle {p = p} (closes i e is) w = absurd (absent p.readers i closing w.0 e)
Step-Idle (cancels h k is) w = subst Idle (sym is) (w.0, w.1, w.2)
Step-Idle (handles_packet d rest h e is) w = subst Idle (sym is) (w.0, w.1, w.2)
Step-Idle (returns h e k is) (none_left, unclosed, going) = cc

Reach-Idle : {s : Run} → Reach (reading_from 0) s → Idle s
unfolding reading_from Idle
Reach-Idle here = (refl, refl, refl)
Reach-Idle (next r s) = Step-Idle s (Reach-Idle r)

-- Without a handle at the start `Listen` never returns.
pub no_handles-returned : {s : Run} → Reach (reading_from 0) s → s.returned ≡ false
unfolding Idle
no_handles-returned r = (Reach-Idle r).2

Reach-append : {s p q : Run} → Reach s p → Reach p q → Reach s q
Reach-append r here = r
Reach-append r (next more st) = next (Reach-append r more) st

-- With a handle at the start: from every state behind the end of the context there is a way to a state in which `Listen` has returned and the
-- handler got of every interface exactly the packets that were taken of it, in their order.
pub Reach-returns :
    (n : ℕ) {s : Run}
    → 1 ≤ n
    → Reach (reading_from n) s
    → s.quit ≡ true
    → (q : Run) × Reach s q
      × (q.returned ≡ true)
      × ((k : ℕ) → of_interface k q.handled ≡ of_interface k q.taken)
Reach-returns n {s = s} some_handle r quit =
    let (q, more, done) = stops (to_do s) s (omega arith) (Reach-IsCalm some_handle r) quit in
    (q, more, done, returned-handled n some_handle (Reach-append r more) done)
