-- ===== src/Tracker/Graph.antt =====
-- The state machine of GPS_tracker_Single_Split.ino as a graph, and the passes of its loop as
-- moves in it.
pub mod Edges
pub mod Before
pub mod After
pub mod Runs
