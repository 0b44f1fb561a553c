-- ===== src/Harness/Crash.antt =====
-- Crash signals in include/sciforge/test/framework.hpp: the handlers that run_all installs, and
-- report_crash. What the operating system does with a signal is `deliver`.
use sciforge.Base.{
  ℕ, zero, suc, Bytes, codes, Bool, true, ◌++◌, Option, none, some, ◌==◌, if◌then◌else◌,
}
use sciforge.Base.Decimal.{print_nat}
use sciforge.Harness.Checks.{State}

pub data Signal : Type 0 where
  segv abrt fpe ill : Signal
  unhandled : ℕ → Signal

-- What std::signal installs or returns: SIG_DFL, report_crash, a handler of the surroundings (a
-- sanitizer's), or SIG_ERR.
pub data Handler : Type 0 where
  sig_dfl report sig_err : Handler
  foreign : ℕ → Handler

-- The struct crash_handlers; also the handlers that are installed.
pub record Handlers : Type 0 where
  pub segv : Handler
  pub abrt : Handler
  pub fpe : Handler
  pub ill : Handler

pub record Process : Type 0 where
  pub installed : Handlers
  pub previous : Handlers
  pub reported : Bool
  pub state : State

-- The number of a signal, as Linux counts them.
abbrev pub signal_number : Signal → ℕ
signal_number Signal.segv = 11
signal_number Signal.abrt = 6
signal_number Signal.fpe = 8
signal_number Signal.ill = 4
signal_number (unhandled n) = n

-- The handler that is installed for a signal: the default for those that run_all leaves alone.
unfoldable pub handler_of : Signal → Handlers → Handler
handler_of Signal.segv h = h.segv
handler_of Signal.abrt h = h.abrt
handler_of Signal.fpe h = h.fpe
handler_of Signal.ill h = h.ill
handler_of (unhandled n) h = sig_dfl

unfoldable pub install : Signal → Handler → Handlers → Handlers
install Signal.segv g h = record h { segv = g }
install Signal.abrt g h = record h { abrt = g }
install Signal.fpe g h = record h { fpe = g }
install Signal.ill g h = record h { ill = g }
install (unhandled n) g h = h

-- `previous_handlers.segv = std::signal(SIGSEGV, report_crash)` and the three lines like it.
unfoldable pub install_handlers : Process → Process
install_handlers p = record p {
  installed = record { segv = report; abrt = report; fpe = report; ill = report };
  previous = p.installed;
}

-- The member of previous_handlers that report_crash chooses: the one for SIGILL unless the signal is
-- one of the other three.
unfoldable pub previous_of : Signal → Handlers → Handler
previous_of Signal.segv h = h.segv
previous_of Signal.abrt h = h.abrt
previous_of Signal.fpe h = h.fpe
previous_of Signal.ill h = h.ill
previous_of (unhandled n) h = h.ill

abbrev or_default : Handler → Handler
or_default sig_err = sig_dfl
or_default sig_dfl = sig_dfl
or_default report = report
or_default (foreign n) = foreign n

abbrev pub crash_line : Signal → State → Bytes
crash_line n s =
    codes "  CRASH ["
    ++ (s.current_test
        ++ (codes "] signal "
            ++ (print_nat (signal_number n)
                ++ (codes ", after the check at "
                    ++ ((if s.last_line == 0 then codes "[none]" else s.last_file)
                        ++ (codes ":" ++ (print_nat s.last_line ++ codes "\n")))))))

-- The body of report_crash up to std::raise.
unfoldable pub report_crash : Signal → Process → Process
unfolding previous_of install
report_crash n p = record p {
  installed = install n (or_default (previous_of n p.previous)) p.installed;
  reported = true;
  state =
      if p.reported then p.state else record p.state { out = p.state.out ++ crash_line n p.state };
}

-- How a signal ends: the default disposition ends the process, a foreign handler takes over.
pub data End : Type 0 where
  killed : Signal → End
  handed_over : ℕ → Signal → End

-- The handlers that a raised signal goes through; `none` where the fuel runs out.
unfoldable pub deliver : ℕ → Signal → Process → Option (Process × End)
unfolding handler_of report_crash
deliver zero n p = none
deliver (suc fuel) n p = elim (handler_of n p.installed) [
  | sig_dfl ↦ some (p, killed n)
  | sig_err ↦ some (p, killed n)
  | foreign g ↦ some (p, handed_over g n)
  | report ↦ deliver fuel n (report_crash n p)
]
