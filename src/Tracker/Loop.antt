-- ===== src/Tracker/Loop.antt =====
-- `loop` of GPS_tracker_Single_Split.ino: the `switch` on the state, the sentence that may have
-- come, and the update of the LEDs; and the interrupt between two passes.
use speed_feed.Common.{
  Bool, ℕ, Option, List, [], ◌∷◌, ◌++◌, leb, if◌then◌else◌, length, get_elem?, set, add32,
}
use speed_feed.Platform.{millis, tick}
use speed_feed.Double.{Double}
use speed_feed.Lights.{update_lights}
use speed_feed.Waypoint.{Waypoint, check_split}
use speed_feed.Geometry.{Point, new_point}
use speed_feed.Eeprom.{Bus, store_waypoints}
use speed_feed.Receiver.{read, last_nmea}
use speed_feed.Nmea.{Gps, parse}
use speed_feed.Tracker.State.{
  Kit, State, st_reset, st_init, st_sfset, st_wpset, st_race, disk1, max_tracksize, Run, done,
  ◌>>=◌, lift,
}
use speed_feed.Tracker.Button.{Press, interrupt_pb}
use speed_feed.Tracker.Startup.{Sketch, on_lights, on_world, reset_case}
use speed_feed.Tracker.Setting.{wpset_case}
use speed_feed.Tracker.Racing.{race_button, race_case, test_gate}
use speed_feed.Monitor.{print_text}

module _ (D : Double) (B : Bus) (kit : Kit D.Real) where
  open D use {Real}

  -- The first `switch (current_state)`.
  unfoldable pub by_state : ℕ → State → Sketch D B kit → Run (Sketch D B kit)
  by_state patience st_reset t = reset_case D B kit patience t
  by_state patience st_init t = done t
  by_state patience st_sfset t = done t
  by_state patience st_wpset t = wpset_case D B kit t
  by_state patience st_race t = done (race_button D B kit t)

  -- From the start line on the race runs: the next waypoint is the second, if there is one.
  abbrev pub start_race : Sketch D B kit → Sketch D B kit
  start_race t = record t {
    next_state = st_race;
    wp_last = 0;
    wp_next = if leb (length t.waypoints) 1 then 0 else 1;
  }

  -- The start line is crossed; `gate` is the first waypoint as `intersection` has left it.
  unfoldable pub cross_start : Sketch D B kit → Bool × Waypoint Real → Sketch D B kit
  cross_start t (crossed, gate) =
      let w = t.lights.world in
      let start = record gate { last = add32 (millis w) gate.adjustment } in
      let t' =
        on_lights D B kit kit.start_signal
          (record (on_world D B kit tick t) { tracks = []; waypoints = set t.waypoints 0 start }) in
      if crossed then start_race t' else t

  -- The case ST_INIT of the second `switch`.
  unfoldable pub init_case : Sketch D B kit → Run (Sketch D B kit)
  init_case t = do r ← test_gate D B kit 0 t; done (cross_start t r)

  -- The track is closed, stored, and raced on.
  unfoldable pub store_and_race :
      (here prev gate : Waypoint Real) → List (Waypoint Real) → Sketch D B kit → Sketch D B kit
  store_and_race here prev gate ps t =
      let (p, w) = check_split D here prev gate.last t.lights.world in
      let ps' = set ps t.wp_next p in
      start_race (record (on_lights D B kit kit.close_signal (on_world D B kit (λ _. w) t)) {
        tracks = [];
        waypoints = ps';
        eeprom = store_waypoints D B disk1 0 ps' t.eeprom;
      })

  unfoldable pub close_on : Sketch D B kit → Bool × Waypoint Real → Run (Sketch D B kit)
  close_on t (crossed, gate) =
      let ps = set t.waypoints 0 gate in
      if crossed
      then (do
        here ← lift (get_elem? ps t.wp_next)
        prev ← lift (get_elem? ps t.wp_last)
        done (store_and_race here prev gate ps t))
      else done t

  -- The case ST_WPSET of the second `switch`.
  unfoldable pub close_track : Sketch D B kit → Run (Sketch D B kit)
  close_track t = test_gate D B kit 0 t >>= close_on t

  -- The second `switch (current_state)`.
  unfoldable pub by_fix : State → Sketch D B kit → Run (Sketch D B kit)
  by_fix st_reset t = done t
  by_fix st_init t = init_case t
  by_fix st_sfset t = done t
  by_fix st_wpset t = close_track t
  by_fix st_race t = race_case D B kit t

  abbrev pub drop_first : List (Point Real) → List (Point Real)
  drop_first [] = []
  drop_first (p ∷ ps) = ps

  -- The new position at the end of `myTracks`, the oldest off if there are four.
  unfoldable pub push_track : Sketch D B kit → Sketch D B kit
  push_track t =
      let w0 = print_text (kit.position_text t.gps) t.lights.world in
      let (p, w) = new_point t.gps.longitude t.gps.latitude (kit.point_speed t.gps) w0 in
      let ps = t.tracks ++ (p ∷ []) in
      let ps' = if leb max_tracksize (length ps) then drop_first ps else ps in
      record (on_world D B kit (λ _. print_text (kit.tracks_text ps') w) t) { tracks = ps' }

  -- `ledUpdate(myLEDs); current_state = next_state;`
  unfoldable pub end_pass : Sketch D B kit → Sketch D B kit
  end_pass t = record (on_lights D B kit update_lights t) { current_state = t.next_state }

  -- The state in which a parsed sentence is looked at.
  unfoldable pub took : Gps Real → Sketch D B kit → Sketch D B kit
  took gps t = record t {
    receiver = (last_nmea t.receiver).1;
    gps = gps;
    current_state = t.next_state;
  }

  -- `if (GPS.fix) { … }` and the end of the pass
  unfoldable pub use_fix : Sketch D B kit → Run (Sketch D B kit)
  use_fix t = do
    u ← (if t.gps.fix then by_fix t.current_state (push_track t) else done t)
    done (end_pass u)

  -- The sentence on the monitor; `lastNMEA` is called once more.
  unfoldable pub echo_sentence : List ℕ → Sketch D B kit → Sketch D B kit
  echo_sentence text = on_world D B kit (print_text (kit.sentence_text text))

  -- What a sentence that was parsed leaves.
  abbrev pub heard : Gps Real → Sketch D B kit → Sketch D B kit
  heard gps t = echo_sentence (last_nmea t.receiver).0 (took gps t)

  -- A sentence that is not parsed ends the pass at once.
  unfoldable pub after_parse : Sketch D B kit → Bool × Gps Real → Run (Sketch D B kit)
  after_parse t (parsed, gps) = if parsed then use_fix (heard gps t) else done (took gps t)

  -- The sentence that has come.
  unfoldable pub on_sentence : Sketch D B kit → Run (Sketch D B kit)
  on_sentence t = lift (parse D (last_nmea t.receiver).0 t.gps) >>= after_parse t

  unfoldable pub second_half : Sketch D B kit → Run (Sketch D B kit)
  second_half t = if t.receiver.recvdflag then on_sentence t else done (end_pass t)

  -- One pass of `loop`; `available` is the character that the serial port has, if any.
  unfoldable pub pass : ℕ → Option ℕ → Sketch D B kit → Run (Sketch D B kit)
  pass patience available t =
      let t' = record t { receiver = (read available t.receiver).1 } in
      by_state patience t.current_state t' >>= second_half

  -- The interrupt of the button, taken between two passes.
  unfoldable pub take_interrupt : Sketch D B kit → Sketch D B kit
  take_interrupt t =
      let now = millis t.lights.world in
      let before : Press = record {
        last_interrupt_time = t.last_interrupt_time;
        flag = t.pb_flag;
      } in
      let p = interrupt_pb now before in
      record (on_world D B kit tick t) {
        last_interrupt_time = p.last_interrupt_time;
        pb_flag = p.flag;
      }
