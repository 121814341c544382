-- ===== src/Pipeline.antt =====
-- tools/wowsim/pipeline.py: the gates and the staged run.
pub mod Gates
pub mod Run
pub mod Format
