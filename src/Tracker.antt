-- ===== src/Tracker.antt =====
-- The sketch GPS_tracker_Single_Split/GPS_tracker_Single_Split.ino: its globals, its button
-- interrupt, and `loop` by the cases of its state machine.
pub mod State
pub mod Button
pub mod Setup
pub mod Startup
pub mod Setting
pub mod Racing
pub mod Loop
pub mod Valid
pub mod Defined
pub mod Boot
pub mod Graph
pub mod Feedback
pub mod Service
pub mod Ends
pub mod Quiet
pub mod Split
pub mod Shown
pub mod Stored
pub mod Laps
pub mod Colours
