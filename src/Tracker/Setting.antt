-- ===== src/Tracker/Setting.antt =====
-- The case ST_WPSET of `loop` in GPS_tracker_Single_Split.ino: each press of the button sets a
-- waypoint at the last position.
use speed_feed.Common.{
  ◌+◌, ◌-◌, Bool, not, ◌&&◌, ◌||◌, [], ◌∷◌, ◌++◌, leb, ◌==◌, if◌then◌else◌, length, get_elem?,
}
use speed_feed.Double.{Double}
use speed_feed.Led.{red, green}
use speed_feed.Lights.{set_splt_lap}
use speed_feed.Waypoint.{Waypoint, new_waypoint}
use speed_feed.Geometry.{Point}
use speed_feed.Eeprom.{Bus}
use speed_feed.Tracker.State.{Kit, Run, done, ◌>>=◌, lift}
use speed_feed.Tracker.Startup.{Sketch, on_lights, on_world}
use speed_feed.Monitor.{print_text}

module _ (D : Double) (B : Bus) (kit : Kit D.Real) where
  open D use {Real, is_nan, literal}

  abbrev pub any_nan : Waypoint Real → Bool
  any_nan p = is_nan p.x1 || (is_nan p.y1 || (is_nan p.x2 || is_nan p.y2))

  unfoldable pub refuse : Sketch D B kit → Sketch D B kit
  refuse = on_lights D B kit (set_splt_lap red 1000)

  -- The new waypoint goes to the end of the vector and is taken off again if an end of its gate
  -- is not a number.
  unfoldable pub add_waypoint : Point Real → Point Real → Sketch D B kit → Sketch D B kit
  unfolding refuse
  add_waypoint p1 p2 t =
      let (p, w) =
        new_waypoint D (kit.memory (length t.waypoints)) p1.x p1.y p2.x p2.y (literal 72)
          t.lights.world in
      let t' = on_world D B kit (λ _. w) t in
      if any_nan p
      then refuse t'
      else on_lights D B kit (set_splt_lap green 3000)
          (record (on_world D B kit (print_text (kit.gate_text (length t.waypoints + 1) p)) t') {
            waypoints = t.waypoints ++ (p ∷ []);
            tracks = [];
          })

  -- The positions are `myTracks[size - 2]` and `myTracks[size - 1]`.
  unfoldable pub set_here : Sketch D B kit → Run (Sketch D B kit)
  unfolding add_waypoint
  set_here t = do
    p1 ← lift (get_elem? t.tracks (length t.tracks - 2))
    p2 ← lift (get_elem? t.tracks (length t.tracks - 1))
    done (add_waypoint p1 p2 t)

  abbrev pub clear_flag : Sketch D B kit → Sketch D B kit
  clear_flag t = record t { pb_flag = 0 }

  -- two positions, and a fix
  abbrev pub may_set : Sketch D B kit → Bool
  may_set t = leb 2 (length t.tracks) && not (t.gps.fixquality == 0)

  unfoldable pub wpset_case : Sketch D B kit → Run (Sketch D B kit)
  unfolding set_here refuse
  wpset_case t =
      if t.pb_flag == 1
      then (do u ← (if may_set t then set_here t else done (refuse t)); done (clear_flag u))
      else done t
