-- ===== src/Limiter/Examples.antt =====
-- The limiter at a concrete run.
use goreplay.Base.{◌≡◌, refl, false, Bytes, codes, [], ◌∷◌, arith}
use goreplay.Limiter.{Limiter, Reading, refresh, count_call, is_limited, write_all}
use goreplay.Limiter.Rate.{write_all-take}

abbrev two_left : Limiter
two_left = record {
  is_file = false;
  limit = 3;
  is_percent = false;
  current_rps = 1;
  current_time = 5;
}

abbrev at : Bytes → Reading × Bytes
at text = (record { random = 0; now = 7; later = 7 }, text)

write_all-take_example :
    (write_all two_left (at (codes "a") ∷ at (codes "b") ∷ at (codes "c") ∷ [])).0
    ≡ codes "a" ∷ codes "b" ∷ []
write_all-take_example =
    write_all-take two_left (at (codes "a") ∷ at (codes "b") ∷ at (codes "c") ∷ []) refl
      (omega arith)

-- More than a second later the window starts again.
refresh_test :
    (write_all
      (record two_left { current_rps = 3 })
      (at (codes "a")
        ∷ (record { random = 0; now = 1000000006; later = 1000000007 }, codes "b")
        ∷ [])).0
    ≡ codes "b" ∷ []
unfolding write_all is_limited refresh count_call
refresh_test = refl
