-- ===== src/HttpClient/Parts.antt =====
-- Texts that come in parts, and the rounds of the loop that gathers them.
use goreplay.Base.{
  ℕ, suc, ◌+◌, ◌-◌, ◌≤◌, ◌<◌, ◌≡◌, ◌≢◌, refl, Bool, Bytes, done, ◌>>=◌, List, [], ◌∷◌, ◌++◌, All,
  length, lt→ltb, le→leb, arith,
}
use goreplay.HttpClient.Receive.{
  Status, fine, Answer, read_answers, Progress, going, ended, round_within, one_round, receive,
}

abbrev pub joined : List Bytes → Bytes
joined [] = []
joined (s ∷ segs) = s ++ joined segs

-- The parts of a response, as answers to reads.
abbrev pub in_parts : List Bytes → List Answer
in_parts [] = []
in_parts (s ∷ segs) = (s, fine) ∷ in_parts segs

-- Behind the whole of a text no part of it is left.
pub none_left : (segs : List Bytes) → All (λ s. s ≢ []) segs → length (joined segs) ≡ 0 → segs ≡ []
none_left [] a e = refl
none_left ([] ∷ segs) a e = absurd (a.0 refl)
none_left ((x ∷ s) ∷ segs) a e = absurd (omega (arith, e))

pub some_bytes : (s : Bytes) → s ≢ [] → 1 ≤ length s
some_bytes [] ne = absurd (ne refl)
some_bytes (x ∷ s) ne = omega arith

-- A read that the buffer has room for.
pub one_round-fits :
    (size : ℕ) (p : Progress) (s : Bytes) (more : List Answer)
    → p.received < size
    → p.received + length s ≤ size
    → one_round size p ((s, fine) ∷ more) ≡ (round_within p s fine >>= (λ turn. done (turn, more)))
unfolding one_round read_answers
one_round-fits size p s more h k =
    rw (lt→ltb p.received size h, one_round)
      (rw (le→leb (length s) (size - p.received) (omega arith)) refl)

pub receive-going :
    (fuel size : ℕ) (p q : Progress) (answers more : List Answer)
    → one_round size p answers ≡ done (going q, more)
    → receive (suc fuel) size p answers ≡ receive fuel size q more
unfolding receive
receive-going fuel size p q answers more e = rw (e, receive) refl

pub receive-ended :
    (fuel size : ℕ) (p q : Progress) (status : Status) (closed : Bool) (answers more : List Answer)
    → one_round size p answers ≡ done (ended q status closed, more)
    → receive (suc fuel) size p answers ≡ done (q, status, closed, more)
unfolding receive
receive-ended fuel size p q status closed answers more e = rw (e, receive) refl
