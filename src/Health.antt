-- ===== src/Health.antt =====
-- tools/wowsim/health_check.py.
pub mod Ticks
pub mod Zones
pub mod Players
pub mod Status
pub mod Report
pub mod Format
