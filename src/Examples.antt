-- ===== src/Examples.antt =====
-- Concrete values of the parameters and the state, and the theorems at work on them.
pub mod Numbers
pub mod Chip
pub mod Board
pub mod Track
pub mod Wire
pub mod Sketch
pub mod Race
pub mod Start
pub mod Speeds
pub mod Asleep
pub mod Disk
pub mod Reload
pub mod Verdicts
pub mod Lap
pub mod Pictures
pub mod Following
pub mod Lines
