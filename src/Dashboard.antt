-- ===== src/Dashboard.antt =====
-- tools/wowsim/dashboard.py: the functions that do no input or output.
pub mod Tail
pub mod Hints
pub mod Catalog
pub mod Panels
pub mod App
