-- ===== src/Speed/Runs.antt =====
-- The runs of GPS_tracker_Single_Speed.ino.
use speed_feed.Common.{ℕ, ◌≡◌, ◌≢◌}
use speed_feed.Platform.{World}
use speed_feed.Double.{Double}
use speed_feed.Led.{Led}
use speed_feed.Waypoint.{Waypoint}
use speed_feed.Eeprom.{Bus}
use speed_feed.Nmea.{parse}
use speed_feed.Receiver.{read, last_nmea}
use speed_feed.Tracker.State.{st_sfset}
use speed_feed.Tracker.Valid.{needs_start}
use speed_feed.Tracker.Defined.{Ends, pass-Ends}
use speed_feed.Tracker.Graph.Runs.{Passes}
use speed_feed.Tracker.Setup.Start.{setup-Passes}
use speed_feed.Speed.{speed_kit, SpeedSketch, speed_setup, speed_pass}
use speed_feed.Common.{Option, none, true}

module _ (D : Double) (B : Bus) (memory : ℕ → Waypoint D.Real) where
  -- In a state that needs the start line, which a run of the sketch from its `setup` has
  -- reached, the next pass comes to its end if the sentence that it takes up, if any, is one
  -- that `parse` is defined on; and the state is not ST_SFSET.
  pub speed_pass-Ends :
      (blank : Led) (w : World) (eeprom : B.State) (t : SpeedSketch D B memory) (patience : ℕ)
      (available : Option ℕ)
      → Passes D B (speed_kit D memory) (speed_setup D B memory blank w eeprom) t
      → needs_start t.next_state t.boot_flag ≡ true
      → ((read available t.receiver).1.recvdflag ≡ true
          → parse D (last_nmea (read available t.receiver).1).0 t.gps ≢ none)
      → Ends (speed_pass D B memory patience available t) × (t.current_state ≢ st_sfset)
  unfolding speed_setup speed_pass
  speed_pass-Ends blank w eeprom t patience available run n p =
      let (settled, state) = setup-Passes D B (speed_kit D memory) blank w eeprom t run in
      (pass-Ends D B (speed_kit D memory) patience available t settled n p, state)
