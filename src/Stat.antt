-- ===== src/Stat.antt =====
-- gor_stat.go: the counters of `GorStat`. The numbers written are lengths of queues, and not
-- negative. `Settings.Stats` is an argument.
pub mod Bounds
pub mod Examples
use goreplay.Base.{ℕ, ◌+◌, ◌*◌, ◌/◌, Bool, true, false, List, [], ◌∷◌, ltb, ◌==◌, if◌then◌else◌}

pub record Stat : Type 0 where
  pub latest : ℕ
  pub mean : ℕ
  pub max : ℕ
  pub count : ℕ

unfoldable pub new_stat : Stat
new_stat = record { latest = 0; mean = 0; max = 0; count = 0 }

unfoldable pub write : Bool → Stat → ℕ → Stat
write stats s latest = if stats then written else s
  where
    written : Stat
    written = record {
      latest = latest;
      mean = if latest == 0 then s.mean else (s.mean * s.count + latest) / (s.count + 1);
      max = if ltb s.max latest then latest else s.max;
      count = s.count + 1;
    }

unfoldable pub reset : Stat → Stat
reset s = new_stat
