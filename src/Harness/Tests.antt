-- ===== src/Harness/Tests.antt =====
-- The test harness of include/sciforge/test/framework.hpp on small registries, and its signals.
use sciforge.Base.{
  Bytes, ℕ, suc, ◌+◌, ◌≡◌, ◌↔◌, ◌⊎◌, refl, Bytes, codes, Bool, true, false, List, [], ◌∷◌, ◌++◌,
  none, some, arith, leb,
}
use sciforge.Base.Int.{pos, negsuc}
use sciforge.Harness.Checks.{
  State, Place, integer, Real, exception, check_eq, passed, print_value, fail_line, printed_line,
  actual_mark,
}
use sciforge.Harness.Crash.{
  Signal, Process, sig_dfl, foreign, handler_of, install_handlers, deliver, crash_line,
}
use sciforge.Harness.Runner.{
  TestCase, expect, expect_eq, expect_near, expect_throw, returns, throws_std, raises, contains,
  exit, run_all, run_checks, run_test, start_test,
}
use sciforge.Harness.Counts.{selected, verdict, total_held, total_broken}
use sciforge.Harness.Verdict.{contains_iff, run_all-verdict}
use sciforge.Harness.Reports.{IsShown, Agree, check_eq-Agree, run_test-escaped, last_place, unknown}
use sciforge.Harness.Signals.{deliver-installed, deliver-installed_twice, ending_under}

-- Differences of natural numbers in place of those of `double`.
abbrev near : ℕ → ℕ → ℕ → Bool
near a b tolerance = leb a (b + tolerance)

abbrev reals : Real
reals = record { F = ℕ; within = near; print_17 = λ n. codes "n" }

abbrev fresh : State
fresh = record {
  checks_passed = 0;
  checks_failed = 0;
  current_test = [];
  current_failed = false;
  last_file = [];
  last_line = 0;
  out = [];
}

-- Under a sanitizer that has taken SIGSEGV.
abbrev sanitized : Process
sanitized = record {
  installed = record { segv = foreign 7; abrt = sig_dfl; fpe = sig_dfl; ill = sig_dfl };
  previous = record { segv = sig_dfl; abrt = sig_dfl; fpe = sig_dfl; ill = sig_dfl };
  reported = false;
  state = fresh;
}

abbrev at_line : ℕ → Place
at_line n = record { file = codes "t.cpp"; line = n }

abbrev good : TestCase ℕ
good = record {
  name = codes "json good";
  checks =
      expect true (at_line 3) (codes "x")
      ∷ expect_eq (integer (negsuc 0) (codes "-1")) (integer (negsuc 0) (codes "-1")) false
          (at_line 4) (codes "a == b")
      ∷ expect_throw (exception true) (at_line 5) (codes "e: f()")
      ∷ [];
  ending = returns;
}

abbrev bad : TestCase ℕ
bad = record {
  name = codes "json bad";
  checks = expect_near 9 1 2 (at_line 8) (codes "9 ~ 1") ∷ expect true (at_line 9) (codes "y") ∷ [];
  ending = throws_std (codes "oops");
}

-- A test of another name that would crash.
abbrev crashing : TestCase ℕ
crashing = record { name = codes "timing"; checks = []; ending = raises Signal.segv }

abbrev tests : List (TestCase ℕ)
tests = good ∷ crashing ∷ bad ∷ []

contains_iff_example :
    (contains (codes "json good") (codes "on g") ≡ true)
    ↔ ((pre : Bytes) × (post : Bytes) × (codes "json good" ≡ pre ++ (codes "on g" ++ post)))
contains_iff_example = contains_iff (codes "json good") (codes "on g")

selected_test : selected reals (codes "json") tests ≡ good ∷ bad ∷ []
unfolding selected contains
selected_test = refl

run_all-verdict_example :
    let ts = selected reals (codes "json") tests in
    (q : Process) × (run_all reals (codes "json") tests sanitized ≡ exit (verdict reals ts) q)
    × (q.state.checks_passed ≡ 0 + total_held reals ts)
    × (q.state.checks_failed ≡ 0 + total_broken reals ts)
unfolding selected contains
run_all-verdict_example = run_all-verdict reals (codes "json") tests sanitized (tt, (tt, tt))

check_eq-Agree_example :
    let a = integer (negsuc 0) (codes "-1") in
    let b = integer (pos 5) (codes "5") in
    let s' = check_eq a b true (at_line 4) (codes "a == b") fresh in
    (Agree a b true × (s' ≡ passed (at_line 4) fresh))
    ⊎ ((¬ (Agree a b true))
        × (s'.checks_failed ≡ 1)
        × (s'.checks_passed ≡ 0)
        × (s'.current_failed ≡ true)
        × ((text : Bytes) × IsShown
              (codes "a == b"
                ++ (actual_mark ++ (print_value a ++ (codes ", expected: " ++ print_value b))))
              text
            × (s'.out ≡ [] ++ printed_line fresh (at_line 4) text)))
check_eq-Agree_example =
    check_eq-Agree (integer (negsuc 0) (codes "-1")) (integer (pos 5) (codes "5")) true (at_line 4)
      (codes "a == b") fresh

run_test-escaped_example :
    let body = run_checks reals bad.checks (start_test bad.name fresh) in
    let s' = run_test reals bad fresh in
    (s'.out
      ≡ body.out
        ++ fail_line
            (start_test bad.name fresh)
            (last_place reals (unknown reals) bad.checks)
            (codes "unexpected exception after this check: " ++ codes "oops"))
    × (s'.checks_failed ≡ suc body.checks_failed)
    × (s'.current_failed ≡ true)
run_test-escaped_example =
    run_test-escaped reals bad (codes "oops") fresh refl
      (λ e. omega (arith, e), (λ e. omega (arith, e), tt))

deliver-installed_example :
    (q : Process) × (deliver 2 Signal.segv (install_handlers sanitized)
      ≡ some (q, ending_under (handler_of Signal.segv sanitized.installed) Signal.segv))
    × (q.reported ≡ true)
    × (q.state.out ≡ [] ++ crash_line Signal.segv fresh)
deliver-installed_example =
    deliver-installed Signal.segv sanitized 0 tt (unfold handler_of in λ e. cc) refl

deliver-installed_twice_example :
    deliver 5 Signal.segv (install_handlers (install_handlers sanitized)) ≡ none
deliver-installed_twice_example = deliver-installed_twice 5 Signal.segv sanitized tt
