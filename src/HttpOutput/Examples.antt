-- ===== src/HttpOutput/Examples.antt =====
-- The workers at concrete states.
use goreplay.Base.{◌<◌, refl, false, [], ◌∷◌, arith}
use goreplay.HttpOutput.{Config, Output, ready, new_output, add_workers, Reach, here, next, adds}
use goreplay.HttpOutput.Workers.{IsCounted, Reach-IsCounted}
use goreplay.HttpOutput.Scaling.{workers_below_min}

abbrev config : Config
config = record { workers_min = 1; workers_max = 4; queue_len = 10 }

abbrev started : Output
started = record {
  active = 4;
  need = [];
  queue = [];
  workers = ready ∷ ready ∷ ready ∷ ready ∷ [];
  sent = [];
  stopped = false;
}

Reach-IsCounted_example : IsCounted started
unfolding new_output add_workers
Reach-IsCounted_example = Reach-IsCounted {c = config} (next here (adds 4 [] refl refl))

abbrev two_idle : Output
two_idle = record {
  active = 2;
  need = [];
  queue = [];
  workers = ready ∷ ready ∷ [];
  sent = [];
  stopped = false;
}

workers_below_min_example : (q : Output) × Reach config two_idle q × (q.active < 1)
workers_below_min_example =
    workers_below_min config two_idle 0 1 (λ e. omega arith) (omega arith) refl (λ e. omega arith)
      refl refl
