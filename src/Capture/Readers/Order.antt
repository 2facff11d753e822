-- ===== src/Capture/Readers/Order.antt =====
-- What the handler gets of each interface.
use goreplay.Base.{
  ℕ, zero, suc, ◌≡◌, ◌≢◌, inl, inr, refl, sym, ap, ap₂, ◌∙◌, subst, true, false, Option, some, List,
  [], ◌∷◌, ◌++◌, append_assoc, append-nil, get_elem?, replicate, Bool-cases, ◌==◌, if◌then◌else◌,
  ==_iff,
}
use goreplay.Tcp.Store.{modify, get_elem?-modify}
use goreplay.Capture.Readers.{
  Captured, Goroutine, selecting, sending, closing, over, handles, Run, set_reader, reading_from,
  close_handles, Step, takes, ends, quits, sends, sends_on_closed, closes, cancels, handles_packet,
  returns, Reach, here, next,
}

-- The packets of one interface.
abbrev pub of_interface : ℕ → List Captured → List Captured
of_interface k [] = []
of_interface k (p ∷ ps) =
    let rest = of_interface k ps in if p.interface == k then p ∷ rest else rest

abbrev held_by : Option Goroutine → List Captured
held_by (some (sending p)) = p ∷ []
held_by _ = []

-- The packet that a goroutine has taken and not yet sent.
abbrev pub held : ℕ → List Goroutine → List Captured
held k rs = held_by (get_elem? rs k)

of_interface-append :
    (k : ℕ) (ps qs : List Captured)
    → of_interface k (ps ++ qs) ≡ of_interface k ps ++ of_interface k qs
of_interface-append k [] qs = refl
of_interface-append k (p ∷ ps) qs = elim (Bool-cases (p.interface == k)) [
  | inl e ↦ rw e (ap (λ t. p ∷ t) (of_interface-append k ps qs))
  | inr e ↦ rw e (of_interface-append k ps qs)
]

of_interface-same : (k : ℕ) (p : Captured) → p.interface ≡ k → of_interface k (p ∷ []) ≡ p ∷ []
of_interface-same k p e = rw ((==_iff p.interface k).1 e) refl

of_interface-other : (k : ℕ) (p : Captured) → p.interface ≢ k → of_interface k (p ∷ []) ≡ []
of_interface-other k p ne = elim (Bool-cases (p.interface == k)) [
  | inl e ↦ absurd (ne ((==_iff p.interface k).0 e))
  | inr e ↦ rw e refl
]

get_elem?-same :
    (rs : List Goroutine) (i : ℕ) (r r' : Goroutine)
    → get_elem? rs i ≡ some r
    → get_elem? (modify i (λ old. r') rs) i ≡ some r'
unfolding modify
get_elem?-same [] i r r' e = cc
get_elem?-same (x ∷ rs) zero r r' e = refl
get_elem?-same (x ∷ rs) (suc i) r r' e = get_elem?-same rs i r r' e

get_elem?-other :
    (rs : List Goroutine) (i k : ℕ) (r' : Goroutine)
    → i ≢ k
    → get_elem? (modify i (λ old. r') rs) k ≡ get_elem? rs k
unfolding modify
get_elem?-other [] i k r' ne = refl
get_elem?-other (x ∷ rs) zero zero r' ne = absurd (ne refl)
get_elem?-other (x ∷ rs) zero (suc k) r' ne = refl
get_elem?-other (x ∷ rs) (suc i) zero r' ne = refl
get_elem?-other (x ∷ rs) (suc i) (suc k) r' ne = get_elem?-other rs i k r' (λ h. ne (ap suc h))

-- What was taken of an interface was handled, waits in the channel, or is held, in this order; and what a
-- goroutine holds is of its own interface.
pub record IsOrdered (s : Run) : Type 0 where
  pub all_there :
      (k : ℕ) → of_interface k s.taken ≡ of_interface k (s.handled ++ s.packets) ++ held k s.readers
  pub own : (i : ℕ) (p : Captured) → get_elem? s.readers i ≡ some (sending p) → p.interface ≡ i

there :
    (s : Run) (i : ℕ) (r : Goroutine)
    → IsOrdered s
    → get_elem? s.readers i ≡ some r
    → of_interface i s.taken ≡ of_interface i (s.handled ++ s.packets) ++ held_by (some r)
there s i r w e = w.all_there i ∙ ap (λ o. of_interface i (s.handled ++ s.packets) ++ held_by o) e

-- A goroutine changes, with what concerns its own interface.
changed-IsOrdered :
    (s q : Run) (i : ℕ) (r r' : Goroutine)
    → IsOrdered s
    → get_elem? s.readers i ≡ some r
    → q.readers ≡ modify i (λ old. r') s.readers
    → of_interface i q.taken ≡ of_interface i (q.handled ++ q.packets) ++ held_by (some r')
    → ((k : ℕ) → i ≢ k → of_interface k q.taken ≡ of_interface k s.taken)
    → ((k : ℕ)
        → i ≢ k
        → of_interface k (q.handled ++ q.packets) ≡ of_interface k (s.handled ++ s.packets))
    → ((p : Captured) → r' ≡ sending p → p.interface ≡ i)
    → IsOrdered q
changed-IsOrdered s q i r r' w e is mine taken got own = record {
  all_there = λ k. elim (Bool-cases (i == k)) [
    | inl same ↦
        subst
          (λ j.
            of_interface j q.taken ≡ of_interface j (q.handled ++ q.packets) ++ held j q.readers)
          ((==_iff i k).0 same)
          (mine
            ∙ ap (λ o. of_interface i (q.handled ++ q.packets) ++ held_by o)
                (sym (ap (λ rs. get_elem? rs i) is ∙ get_elem?-same s.readers i r r' e)))
    | inr other ↦
        (let ne : i ≢ k = λ h. differ (sym other ∙ (==_iff i k).1 h) in
          taken k ne
          ∙ w.all_there k
          ∙ ap₂ (λ t o. t ++ held_by o) (sym (got k ne))
              (sym (ap (λ rs. get_elem? rs k) is ∙ get_elem?-other s.readers i k r' ne)))
  ];
  own = λ j p f.
      elim (get_elem?-modify i (λ old. r') s.readers j (sending p)
        (ap (λ rs. get_elem? rs j) (sym is) ∙ f)) [
          | inl (x, same, found, was) ↦ own p (sym was) ∙ same
          | inr (ne, found) ↦ w.own j p found
        ];
}
  where
    differ : false ≡ true → ⊥
    differ h = cc

-- A goroutine that held nothing and holds nothing.
idle-IsOrdered :
    (s q : Run) (i : ℕ) (r r' : Goroutine)
    → IsOrdered s
    → get_elem? s.readers i ≡ some r
    → q.readers ≡ modify i (λ old. r') s.readers
    → held_by (some r) ≡ []
    → held_by (some r') ≡ []
    → ((p : Captured) → r' ≢ sending p)
    → q.taken ≡ s.taken
    → q.handled ≡ s.handled
    → q.packets ≡ s.packets
    → IsOrdered q
idle-IsOrdered s q i r r' w e is before behind no_packet taken handled packets =
    changed-IsOrdered s q i r r' w e is
      (ap (of_interface i) taken
        ∙ there s i r w e
        ∙ ap₂ (λ t h. of_interface i t ++ h) (ap₂ (λ a b. a ++ b) (sym handled) (sym packets))
            (before ∙ sym behind))
      (λ k ne. ap (of_interface k) taken)
      (λ k ne. ap₂ (λ a b. of_interface k (a ++ b)) handled packets) (λ p h. absurd (no_packet p h))

takes-IsOrdered :
    (s : Run) (i : ℕ) (p : Captured)
    → IsOrdered s
    → get_elem? s.readers i ≡ some selecting
    → p.interface ≡ i
    → IsOrdered (record (set_reader s i (sending p)) { taken = s.taken ++ (p ∷ []) })
unfolding set_reader
takes-IsOrdered s i p w e own =
    changed-IsOrdered s _ i selecting (sending p) w e refl
      (of_interface-append i s.taken (p ∷ [])
        ∙ ap₂ (λ a b. a ++ b) (there s i selecting w e ∙ append-nil _) (of_interface-same i p own))
      (λ k ne.
        of_interface-append k s.taken (p ∷ [])
        ∙ ap (λ t. of_interface k s.taken ++ t) (of_interface-other k p (λ h. ne (sym own ∙ h)))
        ∙ append-nil _)
      (λ k ne. refl)
      (λ p' h.
        let same : p ≡ p' = ap (λ r. packet_of p r) h in ap (λ t. t.interface) (sym same) ∙ own)
  where
    packet_of : Captured → Goroutine → Captured
    packet_of d (sending x) = x
    packet_of d _ = d

sends-IsOrdered :
    (s : Run) (i : ℕ) (p : Captured)
    → IsOrdered s
    → get_elem? s.readers i ≡ some (sending p)
    → IsOrdered (record (set_reader s i selecting) { packets = s.packets ++ (p ∷ []) })
unfolding set_reader
sends-IsOrdered s i p w e =
    changed-IsOrdered s _ i (sending p) selecting w e refl
      (there s i (sending p) w e
        ∙ ap (λ t. of_interface i (s.handled ++ s.packets) ++ t)
            (sym (of_interface-same i p (w.own i p e)))
        ∙ sym (longer i)
        ∙ sym (append-nil _))
      (λ k ne. refl)
      (λ k ne.
        longer k
        ∙ ap (λ t. of_interface k (s.handled ++ s.packets) ++ t)
            (of_interface-other k p (λ h. ne (sym (w.own i p e) ∙ h)))
        ∙ append-nil _)
      (λ p' h. cc)
  where
    longer :
        (k : ℕ)
        → of_interface k (s.handled ++ (s.packets ++ (p ∷ [])))
          ≡ of_interface k (s.handled ++ s.packets) ++ of_interface k (p ∷ [])
    longer k =
        ap (of_interface k) (sym (append_assoc s.handled s.packets (p ∷ [])))
        ∙ of_interface-append k (s.handled ++ s.packets) (p ∷ [])

closes-IsOrdered :
    (s : Run) (i : ℕ)
    → IsOrdered s
    → get_elem? s.readers i ≡ some closing
    → IsOrdered (close_handles s i)
unfolding close_handles set_reader
closes-IsOrdered s i w e = elim (Bool-cases (handles (modify i (λ old. over) s.readers) == 0)) [
  | inl last ↦
      rw last (idle-IsOrdered s _ i closing over w e refl refl refl (λ p h. cc) refl refl refl)
  | inr more ↦
      rw more (idle-IsOrdered s _ i closing over w e refl refl refl (λ p h. cc) refl refl refl)
]

pub Step-IsOrdered : {s q : Run} → Step s q → IsOrdered s → IsOrdered q
unfolding set_reader
Step-IsOrdered {s = s} (takes i p e from is) w =
    subst IsOrdered (sym is) (takes-IsOrdered s i p w e from)
Step-IsOrdered {s = s} {q = q} (ends i e is) w =
    subst IsOrdered (sym is)
      (idle-IsOrdered s _ i selecting closing w e refl refl refl (λ p h. cc) refl refl refl)
Step-IsOrdered {s = s} {q = q} (quits i e h is) w =
    subst IsOrdered (sym is)
      (idle-IsOrdered s _ i selecting closing w e refl refl refl (λ p h. cc) refl refl refl)
Step-IsOrdered {s = s} (sends i p e unclosed room is) w =
    subst IsOrdered (sym is) (sends-IsOrdered s i p w e)
Step-IsOrdered {s = s} (sends_on_closed i p e shut is) w =
    subst IsOrdered (sym is) (record { all_there = w.all_there; own = w.own })
Step-IsOrdered {s = s} (closes i e is) w = subst IsOrdered (sym is) (closes-IsOrdered s i w e)
Step-IsOrdered {s = s} (cancels h k is) w =
    subst IsOrdered (sym is) (record { all_there = w.all_there; own = w.own })
Step-IsOrdered {s = s} (handles_packet p rest h e is) w = subst IsOrdered (sym is) (record {
  all_there = λ k.
      w.all_there k
      ∙ ap (λ t. of_interface k t ++ held k s.readers)
          (ap (λ t. s.handled ++ t) e ∙ sym (append_assoc s.handled (p ∷ []) rest));
  own = w.own;
})
Step-IsOrdered {s = s} (returns h e k is) w =
    subst IsOrdered (sym is) (record { all_there = w.all_there; own = w.own })

held-replicate : (n k : ℕ) → held k (replicate n selecting) ≡ []
held-replicate zero k = refl
held-replicate (suc n) zero = refl
held-replicate (suc n) (suc k) = held-replicate n k

none_sends : (n i : ℕ) (p : Captured) → get_elem? (replicate n selecting) i ≢ some (sending p)
none_sends zero i p e = cc
none_sends (suc n) zero p e = cc
none_sends (suc n) (suc i) p e = none_sends n i p e

pub Reach-IsOrdered : (n : ℕ) {s : Run} → Reach (reading_from n) s → IsOrdered s
unfolding reading_from
Reach-IsOrdered n here = record {
  all_there = λ k. sym (held-replicate n k);
  own = λ i p e. absurd (none_sends n i p e);
}
Reach-IsOrdered n (next r s) = Step-IsOrdered s (Reach-IsOrdered n r)
