-- ===== src/Harness/Runner.antt =====
-- The runner of include/sciforge/test/framework.hpp: the registry and run_all. A test body is the
-- checks that it makes, in order, and how it ends.
use sciforge.Base.{
  ℕ, suc, Bytes, codes, Bool, true, false, ◌&&◌, ◌||◌, List, [], ◌∷◌, ◌++◌, Option, none, some, ltb,
  ◌==◌, if◌then◌else◌,
}
use sciforge.Base.Decimal.{print_nat}
use sciforge.Harness.Checks.{
  State, Place, Operand, Thrown, Real, check, check_eq, check_near, expect_throws, report_failure,
}
use sciforge.Harness.Crash.{Signal, Process, install_handlers}

-- EXPECT, EXPECT_EQ, EXPECT_NEAR and EXPECT_THROWS, over the type of a `double`.
pub data Check (F : Type 0) : Type 0 where
  expect : Bool → Place → Bytes → Check F
  expect_eq : Operand → Operand → (same : Bool) → Place → Bytes → Check F
  expect_near : F → F → F → Place → Bytes → Check F
  expect_throw : Thrown → Place → Bytes → Check F

-- How a test body ends behind its last check.
pub data Ending : Type 0 where
  returns : Ending
  throws_std : (what : Bytes) → Ending
  throws_other : Ending
  raises : Signal → Ending

-- struct test_case: the name, and the function by what it does.
pub record TestCase (F : Type 0) : Type 0 where
  pub name : Bytes
  pub checks : List (Check F)
  pub ending : Ending

-- The constructor of registrar: `registry().push_back(...)`.
unfoldable pub register : {F : Type 0} → TestCase F → List (TestCase F) → List (TestCase F)
register t registry = registry ++ t ∷ []

abbrev pub starts_with : Bytes → Bytes → Bool
starts_with s [] = true
starts_with [] (d ∷ t) = false
starts_with (c ∷ s) (d ∷ t) = (c == d) && starts_with s t

-- `find(filter) != npos`.
unfoldable pub contains : Bytes → Bytes → Bool
contains [] filter = starts_with [] filter
contains (c ∷ s) filter = starts_with (c ∷ s) filter || contains s filter

-- Where an escaped exception is reported: the last check, if there was one.
unfoldable pub last_check : State → Place
last_check s = record {
  file = if s.last_line == 0 then codes "[before any check]" else s.last_file;
  line = s.last_line;
}

-- The variables that run_all sets before each test.
unfoldable pub start_test : Bytes → State → State
start_test name s = record s {
  current_test = name;
  current_failed = false;
  last_file = [];
  last_line = 0;
}

-- The two catch clauses; `none` means that no exception escapes.
abbrev escaped_message : Ending → Option Bytes
escaped_message returns = none
escaped_message (throws_std what) = some (codes "unexpected exception after this check: " ++ what)
escaped_message throws_other = some (codes "unexpected non-standard exception after this check")
escaped_message (raises n) = none

unfoldable pub report_escaped : Ending → State → State
unfolding report_failure
report_escaped e s = elim (escaped_message e) [
  | none ↦ s
  | some message ↦ report_failure (last_check s) message s
]

pub record Totals : Type 0 where
  pub tests_run : ℕ
  pub tests_failed : ℕ

-- The loop of run_all ends, or a test raises a signal.
pub data Run : Type 0 where
  done : State → Totals → Run
  crashed : State → Signal → Run

-- run_all returns, or the process gets a signal.
pub data Outcome : Type 0 where
  exit : (code : ℕ) → Process → Outcome
  signalled : Signal → Process → Outcome

abbrev summary : State → Totals → Bytes
summary s t =
    print_nat t.tests_run
    ++ (codes " tests | "
        ++ (print_nat s.checks_passed
            ++ (codes " checks passed | "
                ++ (print_nat s.checks_failed ++ codes " checks failed\n"))))

abbrev scope : Bytes → Bytes
scope [] = []
scope (c ∷ s) = codes " whose name holds " ++ c ∷ s

abbrev put : State → Bytes → State
put s text = record s { out = s.out ++ text }

-- What run_all does behind its loop: the code that it returns, and the summary.
unfoldable pub conclude : Bytes → State → Totals → ℕ × State
conclude filter s t =
    if t.tests_run == 0
    then (
      1,
      put s (
          codes "0 tests | 0 checks passed | 0 checks failed\nFAILED (no test registered"
          ++ (scope filter ++ codes ")\n")),
    )
    else if ltb 0 t.tests_failed
    then (
      1,
      put s
          (summary s t ++ (codes "FAILED (" ++ (print_nat t.tests_failed ++ codes " test(s))\n"))),
    )
    else (0, put s (summary s t ++ codes "OK\n"))

-- `if (detail::current_failed) ++tests_failed;`, and the count of the test.
abbrev pub tally : State → Totals → Totals
tally s t = record {
  tests_run = suc t.tests_run;
  tests_failed = if s.current_failed then suc t.tests_failed else t.tests_failed;
}

abbrev pub raised : Ending → Option Signal
raised (raises n) = some n
raised returns = none
raised (throws_std what) = none
raised throws_other = none

module _ (R : Real) where
  open R use {F}

  unfoldable pub perform : Check F → State → State
  unfolding check check_eq check_near expect_throws
  perform (expect condition p text) = check condition p text
  perform (expect_eq a b same p text) = check_eq a b same p text
  perform (expect_near a b tolerance p text) = check_near R a b tolerance p text
  perform (expect_throw thrown p text) = expect_throws thrown p text

  unfoldable pub run_checks : List (Check F) → State → State
  unfolding perform
  run_checks [] s = s
  run_checks (c ∷ cs) s = run_checks cs (perform c s)

  -- One test up to its end, with the report of an exception that escapes it.
  unfoldable pub run_test : TestCase F → State → State
  unfolding start_test
  run_test t s = report_escaped t.ending (run_checks t.checks (start_test t.name s))

  -- The loop over the registry.
  unfoldable pub run_loop : Bytes → List (TestCase F) → State → Totals → Run
  unfolding contains run_test
  run_loop filter [] s n = done s n
  run_loop filter (t ∷ ts) s n =
      let s' = run_test t s in
      let skip = run_loop filter ts s n in
      let go = run_loop filter ts s' (tally s' n) in
      if contains t.name filter
      then (elim (raised t.ending) [ none ↦ go | some signal ↦ crashed s' signal ])
      else skip

  abbrev finish : Bytes → Process → Run → Outcome
  finish filter p (done s n) =
      let (code, s') = conclude filter s n in exit code (record p { state = s' })
  finish filter p (crashed s n) = signalled n (record p { state = s })

  unfoldable pub run_all : Bytes → List (TestCase F) → Process → Outcome
  unfolding run_loop install_handlers conclude
  run_all filter registry p =
      let q = install_handlers p in
      finish filter q
        (run_loop filter registry q.state (record { tests_run = 0; tests_failed = 0 }))

  -- `run_all(argc, argv)`: the filter is the first argument, if there is one.
  unfoldable pub run_all_args : List Bytes → List (TestCase F) → Process → Outcome
  unfolding run_all
  run_all_args [] = run_all []
  run_all_args (program ∷ []) = run_all []
  run_all_args (program ∷ filter ∷ rest) = run_all filter
