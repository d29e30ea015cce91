-- ===== src/Tracker/Startup.antt =====
-- The case ST_RESET of `loop` in GPS_tracker_Single_Split.ino: booting, and waiting for a fix.
use speed_feed.Common.{◌++◌, ℕ, Option, none, some, List, [], ◌∷◌, ◌==◌, if◌then◌else◌}
use speed_feed.Platform.{print, World, command, emit, pin_level, sample}
use speed_feed.Double.{Double}
use speed_feed.Led.{red, green, yellow}
use speed_feed.Lights.{Lights, set_splt_lap, blink_lap_splt}
use speed_feed.Waypoint.{Waypoint}
use speed_feed.Eeprom.{Bus, load_waypoints}
use speed_feed.Tracker.State.{Kit, st_init, st_wpset, Tracker, disk1, Run, done, ◌>>=◌, lift}
use speed_feed.Tracker.Button.{wait_release}
use speed_feed.Monitor.{codes, line_end, print_text}
use speed_feed.Monitor.Lines.{gate_line, waypoint_lines}

-- `PMTK_SET_NMEA_OUTPUT_RMCONLY`, and the line "Started in Service Mode"
abbrev pub output_rmc_only : ℕ
output_rmc_only = 1

abbrev pub service_mode : List ℕ
service_mode = codes "Started in Service Mode" ++ line_end

module _ (D : Double) where
  -- `sendWaypoints` of SpeedFeed.cpp. It reads `myWaypoints[0]` of any vector.
  unfoldable pub send_waypoints : List (Waypoint D.Real) → World → Option World
  send_waypoints [] w = none
  send_waypoints (p ∷ ps) w =
      some (print_text (gate_line D (codes "startfinish") p ++ waypoint_lines D ps) w)

module _ (D : Double) (B : Bus) (kit : Kit D.Real) where
  abbrev pub Sketch : Type 0
  Sketch = Tracker D.Real B.State

  abbrev pub on_lights : (Lights → Lights) → Sketch → Sketch
  on_lights f t = record t { lights = f t.lights }

  abbrev pub on_world : (World → World) → Sketch → Sketch
  on_world f t = on_lights (λ l. record l { world = f l.world }) t

  -- The button is down at boot: once it is let go, the sketch is in service mode.
  unfoldable pub enter_service : ℕ → Sketch → Run Sketch
  enter_service patience t = do
    w ← wait_release patience t.lights.world
    done
        (record (on_world (emit (print service_mode))
          (on_lights (set_splt_lap yellow 0) (on_world (λ _. w) t))) {
            pb_flag = 0;
            wp_next = 0;
            next_state = st_wpset;
            current_state = st_wpset;
            boot_flag = 1;
          })

  -- `loadWaypoints` and `sendWaypoints`
  unfoldable pub load_track : Sketch → Run Sketch
  load_track t = do
    let (ps, w, s) = load_waypoints D B kit.memory disk1 0 t.waypoints t.lights.world t.eeprom
    w' ← lift (send_waypoints D ps w)
    done (record (on_world (λ _. w') t) { waypoints = ps; eeprom = s; boot_flag = 1 })

  -- the way on to ST_INIT
  unfoldable pub to_init : Sketch → Sketch
  to_init t =
      on_lights (blink_lap_splt green 500 500 0)
        (on_world (emit (command output_rmc_only)) (record t { next_state = st_init }))

  unfoldable pub await_fix : Sketch → Sketch
  unfolding to_init
  await_fix t =
      let q = t.gps.fixquality in
      if q == 0
      then on_lights (blink_lap_splt red 200 800 0) t
      else (if q == 1
          then (let t' = on_lights (blink_lap_splt yellow 500 500 0) t in
              if t'.pb_flag == 0 then t' else to_init (record t' { pb_flag = 0 }))
          else (if q == 2 then to_init t else t))

  -- The first pass: `if (!bootFlag)`.
  unfoldable pub boot : ℕ → Sketch → Run Sketch
  unfolding enter_service load_track
  boot patience t =
      let t' = on_world sample t in
      if pin_level t.lights.world
      then (do u ← load_track t'; done (await_fix u))
      else enter_service patience t'

  -- `patience` bounds how often the wait reads the button.
  unfoldable pub reset_case : ℕ → Sketch → Run Sketch
  unfolding boot
  reset_case patience t = if t.boot_flag == 0 then boot patience t else done (await_fix t)
