-- ===== src/Harness/Counts.antt =====
-- What the checks and tests of include/sciforge/test/framework.hpp add to the counters, and the loop of
-- run_all as a run of the selected tests.
use sciforge.Base.{
  ℕ, ◌+◌, ◌≡◌, refl, ap, ◌∙◌, Bytes, Bool, true, false, not, ◌&&◌, ◌||◌, List, [], ◌∷◌, none, arith,
  length, if◌then◌else◌, Bool-cases, inl, inr, ◌==◌,
}
use sciforge.Harness.Checks.{State, Real, operands_equal, caught}
use sciforge.Harness.Runner.{
  Check, expect, expect_eq, expect_near, expect_throw, Ending, returns, throws_std, throws_other,
  raises, TestCase, contains, Totals, done, tally, raised, perform, run_checks, run_test, run_loop,
  start_test, report_escaped,
}

abbrev pub one_if : Bool → ℕ
one_if true = 1
one_if false = 0

-- The exception that escapes a test counts as one failed check.
abbrev pub escapes : Ending → Bool
escapes returns = false
escapes (throws_std what) = true
escapes throws_other = true
escapes (raises n) = false

abbrev pub EndsItself : Ending → Type 0
EndsItself returns = Unit
EndsItself (throws_std what) = Unit
EndsItself throws_other = Unit
EndsItself (raises n) = ⊥

report_escaped-counts :
    (e : Ending) (s : State)
    → ((report_escaped e s).checks_passed ≡ s.checks_passed)
      × ((report_escaped e s).checks_failed ≡ s.checks_failed + one_if (escapes e))
      × ((report_escaped e s).current_failed ≡ (s.current_failed || escapes e))
unfolding report_escaped
report_escaped-counts returns s = ground arith
report_escaped-counts (throws_std what) s = ground arith
report_escaped-counts throws_other s = ground arith
report_escaped-counts (raises n) s = ground arith

raised-none : (e : Ending) → EndsItself e → raised e ≡ none
raised-none returns h = refl
raised-none (throws_std what) h = refl
raised-none throws_other h = refl
raised-none (raises n) h = absurd h

module _ (R : Real) where
  open R use {F, within}

  -- Whether what a check states is so.
  unfoldable pub holds : Check F → Bool
  holds (expect condition p text) = condition
  holds (expect_eq a b same p text) = operands_equal a b same
  holds (expect_near a b tolerance p text) = within a b tolerance
  holds (expect_throw thrown p text) = caught thrown

  unfoldable pub count_held : List (Check F) → ℕ
  count_held [] = 0
  count_held (c ∷ cs) = one_if (holds c) + count_held cs

  unfoldable pub count_broken : List (Check F) → ℕ
  count_broken [] = 0
  count_broken (c ∷ cs) = one_if (not (holds c)) + count_broken cs

  -- A test passes when every check of it holds and no exception escapes it.
  unfoldable pub passes : TestCase F → Bool
  passes t = (count_broken t.checks == 0) && not (escapes t.ending)

  unfoldable pub selected : Bytes → List (TestCase F) → List (TestCase F)
  selected filter [] = []
  selected filter (t ∷ ts) =
      if contains t.name filter then t ∷ selected filter ts else selected filter ts

  unfoldable pub all_pass : List (TestCase F) → Bool
  all_pass [] = true
  all_pass (t ∷ ts) = passes t && all_pass ts

  -- The code that a run should give: a run of no test proves nothing.
  unfoldable pub verdict : List (TestCase F) → ℕ
  verdict [] = 1
  verdict (t ∷ ts) = if all_pass (t ∷ ts) then 0 else 1

  unfoldable pub total_held : List (TestCase F) → ℕ
  total_held [] = 0
  total_held (t ∷ ts) = count_held t.checks + total_held ts

  unfoldable pub total_broken : List (TestCase F) → ℕ
  total_broken [] = 0
  total_broken (t ∷ ts) = count_broken t.checks + one_if (escapes t.ending) + total_broken ts

  unfoldable pub count_failing : List (TestCase F) → ℕ
  count_failing [] = 0
  count_failing (t ∷ ts) = one_if (not (passes t)) + count_failing ts

  abbrev pub AllEnd : List (TestCase F) → Type 0
  AllEnd [] = Unit
  AllEnd (t ∷ ts) = EndsItself t.ending × AllEnd ts

  -- What a check does to the counters and to the flag of the running test.
  pub perform-counts :
      (c : Check F) (s : State)
      → ((perform R c s).checks_passed ≡ s.checks_passed + one_if (holds c))
        × ((perform R c s).checks_failed ≡ s.checks_failed + one_if (not (holds c)))
        × ((perform R c s).current_failed ≡ (s.current_failed || not (holds c)))
  unfolding perform holds
  perform-counts (expect condition p text) s = ground arith
  perform-counts (expect_eq a b same p text) s = ground arith
  perform-counts (expect_near a b tolerance p text) s = ground arith
  perform-counts (expect_throw thrown p text) s = ground arith

  pub run_checks-counts :
      (cs : List (Check F)) (s : State)
      → ((run_checks R cs s).checks_passed ≡ s.checks_passed + count_held cs)
        × ((run_checks R cs s).checks_failed ≡ s.checks_failed + count_broken cs)
        × ((run_checks R cs s).current_failed ≡ (s.current_failed || not (count_broken cs == 0)))
  unfolding run_checks count_held count_broken
  run_checks-counts [] s = ground arith
  run_checks-counts (c ∷ cs) s =
      let one = perform-counts c s in
      let rest = run_checks-counts cs (perform R c s) in
      (omega (arith, one.0, rest.0), omega (arith, one.1, rest.1), ground (arith, one, rest))

  pub run_test-counts :
      (t : TestCase F) (s : State)
      → ((run_test R t s).checks_passed ≡ s.checks_passed + count_held t.checks)
        × ((run_test R t s).checks_failed
            ≡ s.checks_failed + (count_broken t.checks + one_if (escapes t.ending)))
        × ((run_test R t s).current_failed ≡ not (passes t))
  unfolding run_test passes
  run_test-counts t s =
      let body = run_checks-counts t.checks (unfold start_test in start_test t.name s) in
      let escape =
        report_escaped-counts t.ending
          (run_checks R t.checks (unfold start_test in start_test t.name s)) in
      (
        omega (arith, body.0, escape.0),
        omega (arith, body.1, escape.1),
        ground (arith, body.2, escape.2),
      )

  -- The state behind the tests of a list, each run in turn.
  unfoldable pub after : List (TestCase F) → State → State
  after [] s = s
  after (t ∷ ts) s = after ts (run_test R t s)

  abbrev pub add_totals : List (TestCase F) → Totals → Totals
  add_totals ts n = record {
    tests_run = n.tests_run + length ts;
    tests_failed = n.tests_failed + count_failing ts;
  }

  add_totals-tally :
      (t : TestCase F) (ts : List (TestCase F)) (s : State) (n : Totals)
      → add_totals ts (tally (run_test R t s) n) ≡ add_totals (t ∷ ts) n
  unfolding count_failing
  add_totals-tally t ts s n = ground (arith, run_test-counts t s)

  pub run_loop_ended :
      (filter : Bytes) (ts : List (TestCase F)) (s : State) (n : Totals)
      → AllEnd (selected filter ts)
      → run_loop R filter ts s n
        ≡ done (after (selected filter ts) s) (add_totals (selected filter ts) n)
  unfolding run_loop selected after count_failing
  run_loop_ended filter [] s n h = ground arith
  run_loop_ended filter (t ∷ ts) s n h = elim (Bool-cases (contains t.name filter)) [
    | inl yes_it_does ↦
        let ended = rw yes_it_does at h in
        rw (yes_it_does, raised-none t.ending ended.0)
          (run_loop_ended filter ts (run_test R t s) (tally (run_test R t s) n) ended.1
            ∙ ap (done (after (selected filter ts) (run_test R t s)))
                (add_totals-tally t (selected filter ts) s n))
    | inr it_does_not ↦ rw it_does_not (run_loop_ended filter ts s n (rw it_does_not at h))
  ]

  pub after-counts :
      (ts : List (TestCase F)) (s : State)
      → ((after ts s).checks_passed ≡ s.checks_passed + total_held ts)
        × ((after ts s).checks_failed ≡ s.checks_failed + total_broken ts)
  unfolding after total_held total_broken
  after-counts [] s = omega arith
  after-counts (t ∷ ts) s =
      let one = run_test-counts t s in
      let rest = after-counts ts (run_test R t s) in
      (omega (arith, one.0, rest.0), omega (arith, one.1, rest.1))
