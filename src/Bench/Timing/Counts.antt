-- ===== src/Bench/Timing/Counts.antt =====
-- How often the timing loops run the thunk and read the clock, and what they measure.
use sciforge.Base.{
  if◌then◌else◌, ℕ, zero, suc, ◌+◌, ◌-◌, ◌*◌, ◌≤◌, ◌≡◌, refl, ap, lt→ltb, List, [], ◌∷◌, arith,
  length,
}
use sciforge.Base.Int.{ℤ, pos, negsuc, pos_part}
use sciforge.Bench.Timing.{
  Progress, Machine, run_thunk, run_batch, max_one, calibrate, batch_time, sample_loop, collect,
}

run_batch_counts : (n : ℕ) (p : Progress) → run_batch n p ≡ record p { runs = p.runs + n }
unfolding run_batch
run_batch_counts zero p = ground arith
run_batch_counts (suc n) p = ground (arith, run_batch_counts n (run_thunk p))

-- Two more calls and two more readings, as calibrate leaves it.
abbrev pub after_sizing : Progress → Progress
after_sizing p = record { runs = suc (suc p.runs); readings = suc (suc p.readings) }

-- `n` more calls of the thunk and `r` more readings.
abbrev pub further : ℕ → ℕ → Progress → Progress
further n r p = record { runs = p.runs + n; readings = p.readings + r }

max_one_lem : (z : ℤ) → max_one z ≡ 1 + (pos_part z - 1)
max_one_lem (pos n) = ground arith
max_one_lem (negsuc n) = ground arith

module _ (M : Machine) where
  open M use {F, tick, seconds, nano, less, divide, over, to_int}

  -- What the clock shows between two moments.
  abbrev between : Progress → Progress → F
  between p q = seconds (tick q.runs q.readings - tick p.runs p.readings)

  -- The time of each of `n` calls from `p` on: one reading before them, one behind them.
  abbrev pub per_call : ℕ → Progress → F
  per_call n p = divide (between p (further n 1 p)) n

  -- `k` samples of `n` calls each from `p` on, each behind the one before it.
  pub samples_from : ℕ → ℕ → Progress → List F
  samples_from n zero p = []
  samples_from n (suc k) p = per_call n p ∷ samples_from n k (further n 2 p)

  -- The time of the second call of the thunk from `p` on.
  abbrev pub one_call : Progress → F
  one_call p =
      let before : Progress = record p { runs = suc p.runs } in
      let behind : Progress = record { runs = suc (suc p.runs); readings = suc p.readings } in
      between before behind

  -- The size that fits the target: how often that call goes into it, where it takes 1e-9 or more.
  abbrev pub fitting_size : F → Progress → ℕ
  fitting_size target p =
      let once : F = if less (one_call p) nano then nano else one_call p in
      1 + (pos_part (to_int (over target once)) - 1)

  batch_time_lem : (n : ℕ) (p : Progress) → batch_time M n p ≡ (per_call n p, further n 2 p)
  unfolding batch_time
  batch_time_lem n p = ground (arith, run_batch_counts n (record p { readings = suc p.readings }))

  further-suc :
      (k n : ℕ) (p : Progress)
      → further (k * n) (2 * k) (further n 2 p) ≡ further (suc k * n) (2 * suc k) p
  further-suc k n p = grind arith

  sample_loop_lem :
      (k n : ℕ) (p : Progress)
      → sample_loop M k n p ≡ (samples_from n k p, further (k * n) (2 * k) p)
  unfolding sample_loop samples_from
  sample_loop_lem zero n p = ground arith
  sample_loop_lem (suc k) n p =
      rw (batch_time_lem n p, sample_loop_lem k n _)
        (ap (λ q. (per_call n p ∷ samples_from n k (further n 2 p), q)) (further-suc k n p))

  calibrate_lem :
      (target : F) (p : Progress) → calibrate M target p ≡ (fitting_size target p, after_sizing p)
  unfolding calibrate run_thunk
  calibrate_lem target p =
      let once : F = if less (one_call p) nano then nano else one_call p in
      ap (λ n. (n, after_sizing p)) (max_one_lem (to_int (over target once)))

  length-samples_from : (n k : ℕ) (p : Progress) → length (samples_from n k p) ≡ k
  unfolding samples_from
  length-samples_from n zero p = refl
  length-samples_from n (suc k) p = ap suc (length-samples_from n k (further n 2 p))

  -- With a positive inner size, collect times one batch of that size for each sample, in order and
  -- one after another: it gives that many samples (none for a negative count), each the difference of
  -- the clock before and the clock behind the calls of its batch, over the batch size, and runs the
  -- thunk no more often than the batches. The clock may depend on the calls and readings before it.
  pub collect_sized :
      (samples : ℤ) (inner : ℕ) (target : F) (p : Progress)
      → 1 ≤ inner
      → let k = pos_part samples in
        (collect M samples (pos inner) target p
          ≡ (samples_from inner k p, further (k * inner) (2 * k) p))
        × (length (samples_from inner k p) ≡ k)
  unfolding collect
  collect_sized samples inner target p h = (
    rw (lt→ltb 0 inner h) (sample_loop_lem (pos_part samples) inner p),
    length-samples_from inner (pos_part samples) p,
  )

  -- With an inner size of zero or less, collect first calls the thunk twice, with a clock reading on
  -- either side of the second call. The batch size is the target over the time between the two, which is
  -- first raised to 1e-9 if it is less, as an int, and is 1 where that is not positive.
  -- collect then times one batch of that size for each sample, in order and one after another, as it
  -- does for a size that is given.
  pub collect_calibrated :
      (samples inner : ℤ) (target : F) (p : Progress)
      → pos_part inner ≡ 0
      → let n = fitting_size target p in
        let k = pos_part samples in
        collect M samples inner target p
        ≡ (samples_from n k (after_sizing p), further (k * n) (2 * k) (after_sizing p))
  unfolding collect
  collect_calibrated samples inner target p h =
      rw (h, calibrate_lem target p)
        (sample_loop_lem (pos_part samples) (fitting_size target p) (after_sizing p))
