-- ===== src/Harness/Verdict.antt =====
-- The verdict of run_all of include/sciforge/test/framework.hpp: its exit code and its counts, and the
-- tests that a filter selects.
use sciforge.Base.{
  ◌+◌, ◌≡◌, ◌↔◌, refl, ap, ◌∙◌, Bytes, true, List, [], ◌∷◌, ◌++◌, arith, Bool-cases, inl, inr, ◌==◌,
  ==_refl,
}
use sciforge.Harness.Checks.{State, Real}
use sciforge.Harness.Crash.{Process, install_handlers}
use sciforge.Harness.Runner.{TestCase, contains, starts_with, exit, run_all, conclude}
use sciforge.Harness.Counts.{
  AllEnd, selected, all_pass, verdict, total_held, total_broken, count_failing, after, add_totals,
  run_loop_ended, after-counts,
}

starts_with-append : (filter post : Bytes) → starts_with (filter ++ post) filter ≡ true
starts_with-append [] [] = refl
starts_with-append [] (c ∷ post) = refl
starts_with-append (c ∷ filter) post = rw (==_refl, starts_with-append filter post)

starts_with_split :
    (s filter : Bytes) → starts_with s filter ≡ true → (post : Bytes) × (s ≡ filter ++ post)
starts_with_split s [] h = (s, refl)
starts_with_split [] (d ∷ t) h = cc
starts_with_split (c ∷ s) (d ∷ t) h =
    let (post, e) = starts_with_split s t (ground arith) in (post, ground arith)

starts_contains : (s filter : Bytes) → starts_with s filter ≡ true → contains s filter ≡ true
unfolding contains
starts_contains [] filter h = h
starts_contains (c ∷ s) filter h = rw h

contains_append : (pre filter post : Bytes) → contains (pre ++ (filter ++ post)) filter ≡ true
unfolding contains
contains_append [] filter post =
    starts_contains (filter ++ post) filter (starts_with-append filter post)
contains_append (c ∷ pre) filter post = ground (arith, contains_append pre filter post)

contains_split :
    (s filter : Bytes)
    → contains s filter ≡ true
    → (pre : Bytes) × (post : Bytes) × (s ≡ pre ++ (filter ++ post))
unfolding contains
contains_split [] filter h = let (post, e) = starts_with_split [] filter h in ([], post, e)
contains_split (c ∷ s) filter h = elim (Bool-cases (starts_with (c ∷ s) filter)) [
  | inl here ↦ let (post, e) = starts_with_split (c ∷ s) filter here in ([], post, e)
  | inr later ↦
      let (pre, post, e) = contains_split s filter (rw later at h) in
      (c ∷ pre, post, ap (λ t. c ∷ t) e)
]

-- A test's name passes the filter exactly when the filter's text stands somewhere in it; the empty
-- filter, which is run_all's default, passes every name.
pub contains_iff :
    (name filter : Bytes)
    → (contains name filter ≡ true)
      ↔ ((pre : Bytes) × (post : Bytes) × (name ≡ pre ++ (filter ++ post)))
contains_iff name filter =
    (contains_split name filter, λ (pre, post, e). rw e (contains_append pre filter post))

module _ (R : Real) where
  failing-verdict : (ts : List (TestCase R.F)) → (count_failing R ts == 0) ≡ all_pass R ts
  unfolding count_failing all_pass
  failing-verdict [] = refl
  failing-verdict (t ∷ ts) = ground (arith, failing-verdict ts)

  conclude_lem :
      (filter : Bytes) (ts : List (TestCase R.F)) (s : State)
      → let (code, s') =
          conclude filter s (add_totals R ts (record { tests_run = 0; tests_failed = 0 })) in
        (code ≡ verdict R ts)
        × (s'.checks_passed ≡ s.checks_passed)
        × (s'.checks_failed ≡ s.checks_failed)
  unfolding conclude verdict
  conclude_lem filter [] s = (refl, refl, refl)
  conclude_lem filter (t ∷ ts) s = ground (arith, failing-verdict (t ∷ ts))

  -- In any process, if every test that the filter selects comes to its end (none raises a signal),
  -- run_all returns. Its code is 0 exactly when a test was selected and all selected ones pass, else
  -- 1; a failing test keeps no other from running: the counters have grown by the checks of all
  -- selected tests that hold, and by those that do not plus one for each escaped exception.
  pub run_all-verdict :
      (filter : Bytes) (registry : List (TestCase R.F)) (p : Process)
      → AllEnd R (selected R filter registry)
      → (q : Process) × (run_all R filter registry p
          ≡ exit (verdict R (selected R filter registry)) q)
        × (q.state.checks_passed
            ≡ p.state.checks_passed + total_held R (selected R filter registry))
        × (q.state.checks_failed
            ≡ p.state.checks_failed + total_broken R (selected R filter registry))
  unfolding run_all
  run_all-verdict filter registry p h =
      let ts = selected R filter registry in
      let last = after R ts p.state in
      let totals = add_totals R ts (record { tests_run = 0; tests_failed = 0 }) in
      let counts = after-counts R ts p.state in
      let concluded = conclude_lem filter ts last in
      (
        record (install_handlers p) { state = (conclude filter last totals).1 },
        rw (run_loop_ended R filter registry p.state (record { tests_run = 0; tests_failed = 0 }) h)
            (ap
              (λ code.
                exit code (record (install_handlers p) { state = (conclude filter last totals).1 }))
              concluded.0),
        concluded.1 ∙ counts.0,
        concluded.2 ∙ counts.1,
      )
