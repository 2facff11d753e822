-- ===== src/Capture/Readers/Safety.antt =====
-- The channel of the packets is closed once, behind the last handle.
use mathlib.Core.Option.{some-injective}
use goreplay.Base.{
  ℕ, zero, suc, ◌+◌, ◌≤◌, ◌≡◌, refl, sym, ap, ◌∙◌, subst, true, false, some, List, [], ◌∷◌,
  get_elem?, replicate, arith, Bool-cases, inl, inr, ◌==◌, ==_iff,
}
use goreplay.Tcp.Store.{modify}
use goreplay.Capture.Readers.{
  Goroutine, selecting, sending, closing, over, has_handle, handles, Run, set_reader, reading_from,
  close_handles, Step, takes, ends, quits, sends, sends_on_closed, closes, cancels, handles_packet,
  returns, Reach, here, next,
}

pub handles-modify :
    (rs : List Goroutine) (i : ℕ) (r r' : Goroutine)
    → get_elem? rs i ≡ some r
    → handles (modify i (λ old. r') rs) + has_handle r ≡ handles rs + has_handle r'
unfolding modify handles
handles-modify [] i r r' e = cc
handles-modify (q ∷ rs) zero r r' e =
    (let same : q ≡ r = some-injective q r e in omega (arith, ap has_handle same))
handles-modify (q ∷ rs) (suc i) r r' e = omega (arith, handles-modify rs i r r' e)

-- The channel is closed exactly when no handle is left, and nothing panicked.
pub record IsCalm (s : Run) : Type 0 where
  pub calm : s.panicked ≡ false
  pub closed_behind : s.packets_closed ≡ true → handles s.readers ≡ 0
  pub closed_then : handles s.readers ≡ 0 → s.packets_closed ≡ true

-- A step of a goroutine that keeps its handle.
keeps :
    (s : Run) (i : ℕ) (r r' : Goroutine)
    → IsCalm s
    → get_elem? s.readers i ≡ some r
    → has_handle r ≡ has_handle r'
    → handles (modify i (λ old. r') s.readers) ≡ handles s.readers
keeps s i r r' w e same = omega (arith, handles-modify s.readers i r r' e, same)

-- A reader with a handle leaves the channel open.
pub still_open :
    (s : Run) (i : ℕ) (r : Goroutine)
    → get_elem? s.readers i ≡ some r
    → has_handle r ≡ 1
    → IsCalm s
    → s.packets_closed ≡ false
still_open s i r e one w = elim (Bool-cases s.packets_closed) [
  | inl shut ↦
      absurd (omega (arith, handles-modify s.readers i r over e, one, w.closed_behind shut))
  | inr unclosed ↦ unclosed
]

moved-IsCalm :
    (s q : Run)
    → IsCalm s
    → q.panicked ≡ s.panicked
    → q.packets_closed ≡ s.packets_closed
    → handles q.readers ≡ handles s.readers
    → IsCalm q
moved-IsCalm s q w calm shut same = record {
  calm = calm ∙ w.calm;
  closed_behind = λ h. same ∙ w.closed_behind (sym shut ∙ h);
  closed_then = λ h. shut ∙ w.closed_then (sym same ∙ h);
}

closes-IsCalm :
    (s : Run) (i : ℕ) → get_elem? s.readers i ≡ some closing → IsCalm s → IsCalm (close_handles s i)
unfolding close_handles set_reader
closes-IsCalm s i e w = elim (Bool-cases (handles (modify i (λ old. over) s.readers) == 0)) [
  | inl last ↦ rw last (record {
    calm = rw w.calm (still_open s i closing e refl w);
    closed_behind = λ h. (==_iff (handles (modify i (λ old. over) s.readers)) 0).0 last;
    closed_then = λ h. refl;
  })
  | inr more ↦ rw more (record {
    calm = w.calm;
    closed_behind = λ h. absurd (ff (sym (still_open s i closing e refl w) ∙ h));
    closed_then =
        λ h. absurd (ff (sym more ∙ (==_iff (handles (modify i (λ old. over) s.readers)) 0).1 h));
  })
]
  where
    ff : false ≡ true → ⊥
    ff h = cc

pub Step-IsCalm : {s q : Run} → Step s q → IsCalm s → IsCalm q
unfolding set_reader
Step-IsCalm {s = s} {q = q} (takes i p e from is) w =
    moved-IsCalm s q w (ap (λ t. t.panicked) is) (ap (λ t. t.packets_closed) is)
      (ap (λ t. handles t.readers) is ∙ keeps s i selecting (sending p) w e refl)
Step-IsCalm {s = s} {q = q} (ends i e is) w =
    moved-IsCalm s q w (ap (λ t. t.panicked) is) (ap (λ t. t.packets_closed) is)
      (ap (λ t. handles t.readers) is ∙ keeps s i selecting closing w e refl)
Step-IsCalm {s = s} {q = q} (quits i e h is) w =
    moved-IsCalm s q w (ap (λ t. t.panicked) is) (ap (λ t. t.packets_closed) is)
      (ap (λ t. handles t.readers) is ∙ keeps s i selecting closing w e refl)
Step-IsCalm {s = s} {q = q} (sends i p e unclosed room is) w =
    moved-IsCalm s q w (ap (λ t. t.panicked) is) (ap (λ t. t.packets_closed) is)
      (ap (λ t. handles t.readers) is ∙ keeps s i (sending p) selecting w e refl)
Step-IsCalm {s = s} (sends_on_closed i p e shut is) w =
    let unclosed = still_open s i (sending p) e refl w in cc
Step-IsCalm {s = s} (closes i e is) w = subst IsCalm (sym is) (closes-IsCalm s i e w)
Step-IsCalm {s = s} {q = q} (cancels h k is) w =
    moved-IsCalm s q w (ap (λ t. t.panicked) is) (ap (λ t. t.packets_closed) is)
      (ap (λ t. handles t.readers) is)
Step-IsCalm {s = s} {q = q} (handles_packet p rest h e is) w =
    moved-IsCalm s q w (ap (λ t. t.panicked) is) (ap (λ t. t.packets_closed) is)
      (ap (λ t. handles t.readers) is)
Step-IsCalm {s = s} {q = q} (returns h e k is) w =
    moved-IsCalm s q w (ap (λ t. t.panicked) is) (ap (λ t. t.packets_closed) is)
      (ap (λ t. handles t.readers) is)

handles-replicate : (n : ℕ) → handles (replicate n selecting) ≡ n
unfolding handles
handles-replicate zero = refl
handles-replicate (suc n) = omega (arith, handles-replicate n)

-- In every state that a listener with a handle reaches, nothing was sent on the closed channel of the packets, it was
-- not closed twice, and it is closed exactly when no handle is left.
pub Reach-IsCalm : {n : ℕ} {s : Run} → 1 ≤ n → Reach (reading_from n) s → IsCalm s
unfolding reading_from
Reach-IsCalm {n = n} some_handle here = record {
  calm = refl;
  closed_behind = λ h. cc;
  closed_then = λ h. absurd (omega (arith, some_handle, h, handles-replicate n));
}
Reach-IsCalm some_handle (next r s) = Step-IsCalm s (Reach-IsCalm some_handle r)
