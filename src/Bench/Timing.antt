-- ===== src/Bench/Timing.antt =====
-- The timing loops of include/sciforge/bench.hpp: run_thunk, calibrate, batch_time and collect. The
-- clock and the arithmetic on `double` are parameters; the thunk is seen by how often it has run, on
-- which the clock may depend.
pub mod Counts
mod Tests
use sciforge.Base.{ℕ, zero, suc, ◌+◌, ◌-◌, Bool, true, false, List, [], ◌∷◌, ltb, if◌then◌else◌}
use sciforge.Base.Int.{ℤ, pos, pos_part, leb_ℤ}

-- What the loops have done so far: calls of the thunk, and readings of steady_clock.
pub record Progress : Type 0 where
  pub runs : ℕ
  pub readings : ℕ

-- The clock's tick, by the calls of the thunk and the readings made before, and what the loops compute
-- with `double`: the seconds of a difference of ticks, 1e-9, `<`, a division by an `int`, one by a
-- `double`, and the cast to an `int`.
pub record Machine : Type 1 where
  pub F : Type 0
  pub tick : ℕ → ℕ → ℕ
  pub seconds : ℕ → F
  pub nano : F
  pub less : F → F → Bool
  pub divide : F → ℕ → F
  pub over : F → F → F
  pub to_int : F → ℤ

-- `std::max(1, n)` and `std::max(0, n)`.
abbrev pub max_one : ℤ → ℕ
max_one n = if leb_ℤ n (pos 1) then 1 else pos_part n

pub run_thunk : Progress → Progress
run_thunk p = record p { runs = suc p.runs }

-- `for (i = 0; i < n; ++i) run_thunk(thunk);`.
run_batch : ℕ → Progress → Progress
unfolding run_thunk
run_batch zero p = p
run_batch (suc n) p = run_batch n (run_thunk p)

module _ (M : Machine) where
  open M use {F, tick, seconds, nano, less, divide, over, to_int}

  abbrev now : Progress → ℕ × Progress
  now p = (tick p.runs p.readings, record p { readings = suc p.readings })

  -- `std::max(t, 1e-9)`.
  abbrev max_nano : F → F
  max_nano t = if less t nano then nano else t

  pub calibrate : F → Progress → ℕ × Progress
  unfolding run_thunk
  calibrate batch_target p =
      let (start, p₁) = now (run_thunk p) in
      let (stop, p₂) = now (run_thunk p₁) in
      let once = max_nano (seconds (stop - start)) in
      (max_one (to_int (over batch_target once)), p₂)

  pub batch_time : ℕ → Progress → F × Progress
  unfolding run_batch
  batch_time n p =
      let (start, p₁) = now p in
      let (stop, p₂) = now (run_batch n p₁) in (divide (seconds (stop - start)) n, p₂)

  sample_loop : ℕ → ℕ → Progress → List F × Progress
  sample_loop zero n p = ([], p)
  sample_loop (suc k) n p =
      let (time, p') = batch_time n p in let (raw, p'') = sample_loop k n p' in (time ∷ raw, p'')

  -- `samples` and `inner` are signed; `inner > 0` is taken as it is.
  pub collect : ℤ → ℤ → F → Progress → List F × Progress
  unfolding sample_loop
  collect samples inner batch_target p =
      let (n, p') =
        if ltb 0 (pos_part inner) then (pos_part inner, p) else calibrate batch_target p in
      sample_loop (pos_part samples) n p'
