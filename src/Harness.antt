-- ===== src/Harness.antt =====
-- include/sciforge/test/framework.hpp: the test harness. The counters are numbers without the bound
-- of `int`; what is printed is the text appended to `out`.
pub mod Strings
pub mod Checks
pub mod Runner
pub mod Counts
pub mod Verdict
pub mod Reports
pub mod Signals
pub mod Crash
mod Tests
