-- ===== src/Harness/Signals.antt =====
-- What a crash signal does under the handlers of include/sciforge/test/framework.hpp.
use sciforge.Base.{ℕ, zero, suc, ◌≡◌, ◌≢◌, refl, true, false, ◌++◌, none, some, arith}
use sciforge.Harness.Crash.{
  Signal, Handler, Process, End, killed, handed_over, sig_dfl, sig_err, report, foreign, unhandled,
  handler_of, install_handlers, previous_of, report_crash, deliver, crash_line,
}

-- How a signal ends under the handler that was installed before run_all.
abbrev pub ending_under : Handler → Signal → End
ending_under sig_dfl n = killed n
ending_under sig_err n = killed n
ending_under report n = killed n
ending_under (foreign g) n = handed_over g n

-- run_all's four signals.
abbrev pub IsCrash : Signal → Type 0
IsCrash Signal.segv = Unit
IsCrash Signal.abrt = Unit
IsCrash Signal.fpe = Unit
IsCrash Signal.ill = Unit
IsCrash (unhandled n) = ⊥

deliver_through :
    (n : Signal) (p : Process) (fuel : ℕ) (h : Handler)
    → IsCrash n
    → handler_of n p.installed ≡ h
    → h ≢ report
    → deliver (suc (suc fuel)) n (install_handlers p)
      ≡ some (report_crash n (install_handlers p), ending_under h n)
unfolding deliver install_handlers
deliver_through Signal.segv p fuel h c e other = ground arith
deliver_through Signal.abrt p fuel h c e other = ground arith
deliver_through Signal.fpe p fuel h c e other = ground arith
deliver_through Signal.ill p fuel h c e other = ground arith
deliver_through (unhandled k) p fuel h c e other = absurd c

-- After run_all has put its handlers over others than its own, a crash signal is reported on one line
-- with the running test and its last check, and then ends as it would have without the harness: by the
-- handler that stood before (a sanitizer's), or by the default that ends the process.
pub deliver-installed :
    (n : Signal) (p : Process) (fuel : ℕ)
    → IsCrash n
    → handler_of n p.installed ≢ report
    → p.reported ≡ false
    → (q : Process) × (deliver (suc (suc fuel)) n (install_handlers p)
        ≡ some (q, ending_under (handler_of n p.installed) n))
      × (q.reported ≡ true)
      × (q.state.out ≡ p.state.out ++ crash_line n p.state)
unfolding report_crash install_handlers
deliver-installed n p fuel c other fresh = (
  report_crash n (install_handlers p),
  deliver_through n p fuel (handler_of n p.installed) c refl other,
  refl,
  rw fresh refl,
)

report-stays :
    (n : Signal) (p : Process)
    → handler_of n p.installed ≡ report
    → previous_of n p.previous ≡ report
    → IsCrash n
    → (handler_of n (report_crash n p).installed ≡ report)
      × (previous_of n (report_crash n p).previous ≡ report)
unfolding report_crash handler_of
report-stays Signal.segv p i e c = ground arith
report-stays Signal.abrt p i e c = ground arith
report-stays Signal.fpe p i e c = ground arith
report-stays Signal.ill p i e c = ground arith
report-stays (unhandled k) p i e c = absurd c

deliver_again :
    (fuel : ℕ) (n : Signal) (p : Process)
    → handler_of n p.installed ≡ report
    → previous_of n p.previous ≡ report
    → IsCrash n
    → deliver fuel n p ≡ none
unfolding deliver
deliver_again zero n p i e c = refl
deliver_again (suc fuel) n p i e c =
    let kept = report-stays n p i e c in
    rw (i, deliver) (deliver_again fuel n (report_crash n p) kept.0 kept.1 c)

own_handlers :
    (n : Signal) (p : Process)
    → IsCrash n
    → (handler_of n (install_handlers (install_handlers p)).installed ≡ report)
      × (previous_of n (install_handlers (install_handlers p)).previous ≡ report)
unfolding install_handlers handler_of previous_of
own_handlers Signal.segv p c = (refl, refl)
own_handlers Signal.abrt p c = (refl, refl)
own_handlers Signal.fpe p c = (refl, refl)
own_handlers Signal.ill p c = (refl, refl)
own_handlers (unhandled k) p c = absurd c

-- Once run_all has been called twice in a process, a crash signal never ends: the handler that
-- report_crash restores is report_crash itself, so however often the signal is raised again, no other
-- handler and not the default is reached.
pub deliver-installed_twice :
    (fuel : ℕ) (n : Signal) (p : Process)
    → IsCrash n
    → deliver fuel n (install_handlers (install_handlers p)) ≡ none
deliver-installed_twice fuel n p c =
    let own = own_handlers n p c in
    deliver_again fuel n (install_handlers (install_handlers p)) own.0 own.1 c
