-- ===== src/Limiter/Rate.antt =====
-- How many writes an absolute limit lets through.
use goreplay.Base.{
  ℕ, ◌+◌, ◌-◌, ◌≤◌, ◌<◌, ◌≡◌, refl, sym, ap, ◌∙◌, Bool, true, false, Bytes, List, [], ◌∷◌, All,
  take, map, lt→leb, le→ltb, if◌then◌else◌, arith, dec_lt, Bool-cases, inl, inr, le→leb, zero, suc,
}
use goreplay.Limiter.{Limiter, Reading, second, refresh, count_call, is_limited, write_all}

-- A call whose clock is within a second of the start of the window.
abbrev pub IsWithin : ℕ → Reading × Bytes → Type 0
IsWithin start (r, data') = r.now ≤ start + second

is_limited-absolute :
    (l : Limiter) (r : Reading)
    → l.is_percent ≡ false
    → r.now ≤ l.current_time + second
    → is_limited l r ≡ count_call l
unfolding is_limited refresh
is_limited-absolute l r e h = elim (Bool-cases l.is_file) [
  | inl f ↦ simp (f, e, le→ltb second (r.now - l.current_time) (omega arith))
  | inr f ↦ simp (f, e, le→ltb second (r.now - l.current_time) (omega arith))
]

take_nil : (n : ℕ) → take {A = Bytes} n [] ≡ []
take_nil zero = refl
take_nil (suc n) = refl

count_call-full : (l : Limiter) → l.limit ≤ l.current_rps → count_call l ≡ (true, l)
unfolding count_call
count_call-full l h = simp (le→leb l.limit l.current_rps h)

count_call-room :
    (l : Limiter)
    → l.current_rps < l.limit
    → count_call l ≡ (false, record l { current_rps = l.current_rps + 1 })
unfolding count_call
count_call-room l h = simp (lt→leb l.limit l.current_rps h)

-- Within one second an absolute limit lets through the first writes, up to what is left of the limit,
-- and no other one.
pub write_all-take :
    (l : Limiter) (calls : List (Reading × Bytes))
    → l.is_percent ≡ false
    → All (IsWithin l.current_time) calls
    → (write_all l calls).0 ≡ take (l.limit - l.current_rps) (map (λ c. c.1) calls)
unfolding write_all
write_all-take l [] e w = sym (take_nil (l.limit - l.current_rps))
write_all-take l ((r, data') ∷ calls) e (h, w) = elim (dec_lt l.current_rps l.limit) [
  | yes room ↦
      (let more : Limiter = record l { current_rps = l.current_rps + 1 } in
        let left : l.limit - l.current_rps ≡ suc (l.limit - (l.current_rps + 1)) = omega arith in
        ap after (is_limited-absolute l r e h ∙ count_call-room l room)
        ∙ ap (◌∷◌ data') (write_all-take more calls e w)
        ∙ sym (ap (λ n. take n (data' ∷ map (λ c. c.1) calls)) left))
  | no full ↦
      (let used : l.limit - l.current_rps ≡ 0 = omega arith in
        ap after (is_limited-absolute l r e h ∙ count_call-full l (omega arith))
        ∙ write_all-take l calls e w
        ∙ ap (λ n. take n (map (λ c. c.1) calls)) used
        ∙ sym (ap (λ n. take n (data' ∷ map (λ c. c.1) calls)) used))
]
  where
    after : Bool × Limiter → List Bytes
    after step =
        (if step.0
          then write_all step.1 calls
          else (data' ∷ (write_all step.1 calls).0, (write_all step.1 calls).1)).0
