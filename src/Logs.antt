-- ===== src/Logs.antt =====
-- tools/wowsim/log_parser.py. The children hold its functions; the proofs stand below them.
pub mod Entries
pub mod Format
pub mod Parse
pub mod Filter
pub mod Summary
pub mod Spikes
pub mod Bursts
pub mod Disconnects
pub mod Anomalies
