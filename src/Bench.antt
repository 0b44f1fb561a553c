-- ===== src/Bench.antt =====
-- include/sciforge/bench.hpp: the raw-sample benchmark collector and its JSON emitter.
pub mod Json
pub mod Timing
