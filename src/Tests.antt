-- ===== src/Tests.antt =====
-- The theorems at concrete inputs, on the floats of Float/Fixed.antt.
mod Samples
mod Logs
mod Health
mod Runs
mod Benchmark
mod Dashboard
mod Clients
mod Demo
mod Cli
