-- ===== src/Benchmark.antt =====
-- tools/wowsim/benchmark.py: percentiles of tick durations, the verdicts on a scenario and on
-- a whole benchmark, and the run.
pub mod Percentiles
pub mod Verdict
pub mod Run
pub mod Format
