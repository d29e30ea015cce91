-- ===== src/Tracker/Boot.antt =====
-- The first pass of GPS_tracker_Single_Split.ino on an EEPROM in which no track is stored.
use speed_feed.Common.{ℕ, ◌≡◌, ◌≢◌, refl, ◌∙◌, true, Option, List, [], ◌∷◌, arith}
use speed_feed.Platform.{World, pin_level, sample}
use speed_feed.Double.{Double}
use speed_feed.Waypoint.{Waypoint}
use speed_feed.Eeprom.{Bus, load_waypoints, marker}
use speed_feed.Eeprom.Cells.{IsEeprom, read_anything-Holds}
use speed_feed.Receiver.{read}
use speed_feed.Tracker.State.{Kit, st_reset, disk1, fault}
use speed_feed.Tracker.Startup.{Sketch, on_world, reset_case, boot, load_track, send_waypoints}
use speed_feed.Tracker.Loop.{by_state, pass}

module _ (D : Double) (B : Bus) (E : IsEeprom B) (kit : Kit D.Real) where
  load_waypoints-blank :
      (ps : List (Waypoint D.Real)) (w : World) (s : B.State)
      → E.cell s disk1 0 ≢ marker
      → (load_waypoints D B kit.memory disk1 0 ps w s).0 ≡ ps
  unfolding load_waypoints
  load_waypoints-blank ps w s h =
      let r =
        read_anything-Holds B E disk1 (E.cell s disk1 0 ∷ []) 0 1 s refl (omega arith) (refl, tt) in
      ground (arith, r.0)

  load_track-blank :
      (t : Sketch D B kit)
      → t.waypoints ≡ []
      → E.cell t.eeprom disk1 0 ≢ marker
      → load_track D B kit t ≡ fault
  unfolding load_track send_waypoints
  load_track-blank t e h = rw (load_waypoints-blank t.waypoints t.lights.world t.eeprom h ∙ e)

  -- If the button is up and the first byte of the EEPROM is not the marker of a stored track,
  -- then the first pass is undefined behaviour: no waypoint is loaded, and `sendWaypoints` reads
  -- the first entry of the empty vector.
  pub pass-blank :
      (patience : ℕ) (available : Option ℕ) (t : Sketch D B kit)
      → t.current_state ≡ st_reset
      → t.boot_flag ≡ 0
      → t.waypoints ≡ []
      → pin_level t.lights.world ≡ true
      → E.cell t.eeprom disk1 0 ≢ marker
      → pass D B kit patience available t ≡ fault
  unfolding pass by_state reset_case boot
  pass-blank patience available t s b e up h =
      let t' = record t { receiver = (read available t.receiver).1 } in
      ground (arith, load_track-blank (on_world D B kit sample t') e h)
