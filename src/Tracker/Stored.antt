-- ===== src/Tracker/Stored.antt =====
-- What GPS_tracker_Single_Split.ino does to the EEPROM: the track in it is written when a new one
-- is closed, and at no other time.
pub mod Before
pub mod After
pub mod Runs
pub mod Survives
