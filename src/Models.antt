-- ===== src/Models.antt =====
-- tools/wowsim/models.py: the records that the tools exchange, one child for each section of the
-- file. A datetime is the number of microseconds since the epoch. A closed `Literal` is an
-- enumeration, with the text of each member beside it.
mod Values
mod Telemetry
mod Control
mod Mechanics
mod Health
mod Client
mod Deploy
mod Bench
pub use Values.*
pub use Telemetry.*
pub use Control.*
pub use Mechanics.*
pub use Health.*
pub use Client.*
pub use Deploy.*
pub use Bench.*
