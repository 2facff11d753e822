-- ===== src/Stat/Examples.antt =====
-- The counters at a concrete history.
use goreplay.Base.{◌≡◌, ◌≤◌, refl, [], ◌∷◌}
use goreplay.Stat.{new_stat, write}
use goreplay.Stat.Bounds.{behind, behind-bounds}

behind-bounds_example :
    ((behind (3 ∷ 0 ∷ 8 ∷ 4 ∷ [])).count ≡ 4)
    × ((behind (3 ∷ 0 ∷ 8 ∷ 4 ∷ [])).max ≡ 8)
    × ((behind (3 ∷ 0 ∷ 8 ∷ 4 ∷ [])).mean ≤ 8)
behind-bounds_example = behind-bounds (3 ∷ 0 ∷ 8 ∷ 4 ∷ [])

-- Each step rounds the running mean down.
mean_test : (behind (1 ∷ 1 ∷ 2 ∷ [])).mean ≡ 1
unfolding behind write new_stat
mean_test = refl
