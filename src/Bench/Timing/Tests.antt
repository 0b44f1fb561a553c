-- ===== src/Bench/Timing/Tests.antt =====
-- The timing loops of include/sciforge/bench.hpp on a clock that a call moves on by seven ticks.
use sciforge.Base.{ltb, ℕ, ◌+◌, ◌-◌, ◌*◌, ◌≡◌, refl, arith, length}
use sciforge.Base.Int.{pos, negsuc}
use sciforge.Bench.Timing.{Progress, Machine, collect}
use sciforge.Bench.Timing.Counts.{
  collect_sized, collect_calibrated, samples_from, fitting_size, further, after_sizing,
}

-- A time is its whole ticks.
abbrev ticking : Machine
ticking = record {
  F = ℕ;
  tick = λ runs readings. 7 * runs + readings * readings;
  seconds = λ n. n;
  nano = 1;
  less = λ t u. ltb t u;
  divide = λ t n. t;
  over = λ target once. target - 7 * once;
  to_int = λ t. pos t;
}

abbrev started : Progress
started = record { runs = 3; readings = 5 }

collect_sized_example :
    (collect ticking (pos 3) (pos 2) 40 started
      ≡ (samples_from ticking 2 3 started, further 6 6 started))
    × (length (samples_from ticking 2 3 started) ≡ 3)
collect_sized_example = collect_sized ticking (pos 3) 2 40 started (omega arith)

collect_calibrated_example : collect ticking (pos 2) (negsuc 0) 140 started ≡ (
  samples_from ticking (fitting_size ticking 140 started) 2 (after_sizing started),
  further (2 * fitting_size ticking 140 started) 4 (after_sizing started),
)
collect_calibrated_example = collect_calibrated ticking (pos 2) (negsuc 0) 140 started refl
