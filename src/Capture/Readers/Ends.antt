-- ===== src/Capture/Readers/Ends.antt =====
-- The end of `Listen`: what it has handled, and the way to it.
use goreplay.Base.{
  ℕ, zero, suc, ◌≤◌, ◌≡◌, inl, inr, refl, sym, ap, ap₂, ◌∙◌, subst, true, List, [], ◌∷◌, ◌++◌,
  append-nil, arith, Bool-cases, ◌==◌,
}
use goreplay.Tcp.Store.{modify}
use goreplay.Capture.Readers.{
  Goroutine, selecting, sending, closing, over, handles, Run, set_reader, reading_from,
  close_handles, Step, takes, ends, quits, sends, sends_on_closed, closes, cancels, handles_packet,
  returns, Reach, here, next,
}
use goreplay.Capture.Readers.Safety.{IsCalm, Reach-IsCalm}
use goreplay.Capture.Readers.Order.{of_interface, held, Reach-IsOrdered}

-- `Listen` returns on an empty channel that is closed.
pub record IsDrained (s : Run) : Type 0 where
  pub no_packets : s.returned ≡ true → s.packets ≡ []
  pub is_closed : s.returned ≡ true → s.packets_closed ≡ true

closes-IsDrained : (s : Run) (i : ℕ) → IsDrained s → IsDrained (close_handles s i)
unfolding close_handles set_reader
closes-IsDrained s i w = elim (Bool-cases (handles (modify i (λ old. over) s.readers) == 0)) [
  | inl last ↦ rw last (record { no_packets = w.no_packets; is_closed = λ h. refl })
  | inr more ↦ rw more (record { no_packets = w.no_packets; is_closed = w.is_closed })
]

Step-IsDrained : {s q : Run} → Step s q → IsDrained s → IsDrained q
unfolding set_reader
Step-IsDrained (takes i p e from is) w =
    subst IsDrained (sym is) (record { no_packets = w.no_packets; is_closed = w.is_closed })
Step-IsDrained (ends i e is) w =
    subst IsDrained (sym is) (record { no_packets = w.no_packets; is_closed = w.is_closed })
Step-IsDrained (quits i e h is) w =
    subst IsDrained (sym is) (record { no_packets = w.no_packets; is_closed = w.is_closed })
Step-IsDrained {s = s} (sends i p e unclosed room is) w =
    subst IsDrained (sym is)
      (record { no_packets = λ h. (let shut = w.is_closed h in cc); is_closed = w.is_closed })
Step-IsDrained (sends_on_closed i p e shut is) w =
    subst IsDrained (sym is) (record { no_packets = w.no_packets; is_closed = w.is_closed })
Step-IsDrained {s = s} (closes i e is) w = subst IsDrained (sym is) (closes-IsDrained s i w)
Step-IsDrained (cancels h k is) w =
    subst IsDrained (sym is) (record { no_packets = w.no_packets; is_closed = w.is_closed })
Step-IsDrained (handles_packet p rest h e is) w =
    subst IsDrained (sym is)
      (record { no_packets = λ k. (let going = h in cc); is_closed = w.is_closed })
Step-IsDrained (returns h e k is) w =
    subst IsDrained (sym is) (record { no_packets = λ t. e; is_closed = λ t. k })

Reach-IsDrained : (n : ℕ) {s : Run} → Reach (reading_from n) s → IsDrained s
unfolding reading_from
Reach-IsDrained n here = record { no_packets = λ h. refl; is_closed = λ h. cc }
Reach-IsDrained n (next r s) = Step-IsDrained s (Reach-IsDrained n r)

-- Without handles nothing is held.
held_none : (k : ℕ) (rs : List Goroutine) → handles rs ≡ 0 → held k rs ≡ []
unfolding handles
held_none k [] e = refl
held_none zero (selecting ∷ rs) e = refl
held_none zero (closing ∷ rs) e = refl
held_none zero (over ∷ rs) e = refl
held_none zero (sending p ∷ rs) e = absurd (omega (arith, e))
held_none (suc k) (r ∷ rs) e = held_none k rs (omega (arith, e))

-- When `Listen` has returned, the handler got of every interface exactly the packets that were taken of it, in
-- their order.
pub returned-handled :
    (n : ℕ) {s : Run}
    → 1 ≤ n
    → Reach (reading_from n) s
    → s.returned ≡ true
    → (k : ℕ) → of_interface k s.handled ≡ of_interface k s.taken
returned-handled n {s = s} some_handle r done k = sym (
    (Reach-IsOrdered n r).all_there k
    ∙ ap₂ (λ a b. of_interface k (s.handled ++ a) ++ b) (w.no_packets done)
        (held_none k s.readers (v.closed_behind (w.is_closed done)))
    ∙ append-nil _
    ∙ ap (of_interface k) (append-nil s.handled))
  where
    w : IsDrained s
    w = Reach-IsDrained n r

    v : IsCalm s
    v = Reach-IsCalm some_handle r
