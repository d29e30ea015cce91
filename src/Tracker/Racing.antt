-- ===== src/Tracker/Racing.antt =====
-- The state ST_RACE of GPS_tracker_Single_Split.ino: the button, a crossing with its feedback on
-- the LEDs, and the stop of a race.
use speed_feed.Common.{
  ◌++◌, Bool, List, ℕ, ◌+◌, ◌-◌, not, ◌&&◌, Option, none, some, [], leb, ltb, ◌==◌, if◌then◌else◌,
  length, get_elem?, set, slt32, neg32, sub32,
}
use speed_feed.Platform.{World, millis, tick, pin_level, sample}
use speed_feed.Double.{Double}
use speed_feed.Led.{off, red, green}
use speed_feed.Lights.{Lights, set_lap_splt, blink_splt_lap, blink_lap_splt}
use speed_feed.Waypoint.{Waypoint, reset, check_split}
use speed_feed.Geometry.{intersection}
use speed_feed.Eeprom.{Bus}
use speed_feed.Tracker.State.{Kit, st_init, Run, done, ◌>>=◌, lift}
use speed_feed.Tracker.Startup.{Sketch, on_lights, on_world}
use speed_feed.Monitor.{codes, line_end, print_text}

-- How fast the LEDs blink for a margin below zero, and for one above.
unfoldable pub gain_rate : ℕ → ℕ
gain_rate m =
    if slt32 m (neg32 1000)
    then 100
    else (if slt32 m (neg32 800)
        then 200
        else (if slt32 m (neg32 400) then 300 else (if slt32 m (neg32 300) then 400 else 500)))

unfoldable pub loss_rate : ℕ → ℕ
loss_rate m =
    if slt32 1000 m
    then 100
    else (if slt32 800 m
        then 200
        else (if slt32 400 m then 300 else (if slt32 300 m then 400 else 500)))

-- Green for a split that beats the best by more than 200 ms, red for one that misses it by more
-- than 200 ms, dark between.
unfoldable pub feedback : ℕ → Lights → Lights
unfolding gain_rate loss_rate
feedback margin l =
    let dark = set_lap_splt off 0 l in
    if slt32 margin (neg32 200)
    then blink_splt_lap green (gain_rate margin) (gain_rate margin) 5000 dark
    else (if slt32 200 margin
        then blink_splt_lap red (loss_rate margin) (loss_rate margin) 5000 dark
        else dark)

-- The signal of GPS_tracker_Single_Split.
unfoldable pub split_signal : {R : Type 0} → Waypoint R → Lights → Lights
unfolding feedback
split_signal p = feedback p.split_margin

-- The first gate alone is told of, by one word.
unfoldable pub split_gate_text : {R : Type 0} → ℕ → Waypoint R → List ℕ
split_gate_text n p = if n == 1 then codes "startfinish" else []

-- GPS_tracker_Single_Split puts both LEDs out at the start and when the track is closed, and prints
-- each sentence.
unfoldable pub split_kit : {R : Type 0} → (ℕ → Waypoint R) → Kit R
split_kit memory = record {
  memory = memory;
  signal = split_signal;
  start_signal = set_lap_splt off 0;
  close_signal = set_lap_splt off 0;
  point_speed = λ gps. gps.speed;
  gate_text = split_gate_text;
  sentence_text = λ s. s ++ line_end;
  position_text = λ gps. [];
  tracks_text = λ ps. [];
  split_text = λ p ps l. [];
}

-- A static variable that is set from `millis()` when its declaration is first passed.
unfoldable pub timer_or : Option ℕ → World → ℕ × World
timer_or none w = (millis w, tick w)
timer_or (some t) w = (t, w)

-- The index after `wp_next`, round the vector.
abbrev pub after_index : ℕ → ℕ → ℕ
after_index n i = if leb n (i + 1) then 0 else i + 1

module _ (D : Double) (B : Bus) (kit : Kit D.Real) where
  open D use {Real, lt, literal}

  -- `if (pbFlag) { resetFlag = 1; pbFlag = 0; pbTimer = millis(); }`
  unfoldable pub note_press : ℕ → Sketch D B kit → Sketch D B kit
  note_press timer t =
      let w = t.lights.world in
      if t.pb_flag == 0
      then record t { pb_timer = some timer }
      else record (on_world D B kit tick t) {
        reset_flag = 1;
        pb_flag = 0;
        pb_timer = some (millis w);
      }

  -- The button held for more than two seconds; `down` is what the pin read.
  unfoldable pub hold_reset : ℕ → Sketch D B kit → Sketch D B kit
  hold_reset timer t =
      let w = t.lights.world in
      let t' = on_world D B kit sample t in
      if not (pin_level w) && not (t.reset_flag == 0)
      then (if ltb 2000 (sub32 (millis (sample w)) timer)
          then record (on_world D B kit tick t') { waypoints = reset D t.waypoints; reset_flag = 0 }
          else on_world D B kit tick t')
      else t'

  abbrev timer_of : Option ℕ → ℕ
  timer_of none = 0
  timer_of (some t) = t

  -- The case ST_RACE of the first `switch`.
  unfoldable pub race_button : Sketch D B kit → Sketch D B kit
  unfolding note_press hold_reset timer_or
  race_button t =
      let (timer, w) = timer_or t.pb_timer t.lights.world in
      let t' = note_press timer (on_world D B kit (λ _. w) t) in
      hold_reset (timer_of t'.pb_timer) t'

  -- What a crossing leaves: `ps` is the vector as `intersection` has left it, `prev` and `first`
  -- its entries `wp_last` and 0. `prev` is passed by value.
  unfoldable pub record_split :
      (gate prev first : Waypoint Real) → List (Waypoint Real) → Sketch D B kit → Sketch D B kit
  record_split gate prev first ps t =
      let (p, w) = check_split D gate prev first.last t.lights.world in
      let w' = print_text (kit.split_text p t.tracks t.lights) w in
      on_lights D B kit (kit.signal p) (record (on_world D B kit (λ _. w') t) {
        waypoints = set ps t.wp_next p;
        tracks = [];
        wp_last = t.wp_next;
        wp_next = after_index (length t.waypoints) t.wp_next;
      })

  -- A crossing of the waypoint with index `wp_next`; `gate` is that waypoint as `intersection`
  -- has left it.
  unfoldable pub cross : Waypoint Real → Sketch D B kit → Run (Sketch D B kit)
  cross gate t = do
    let ps = set t.waypoints t.wp_next gate
    prev ← lift (get_elem? ps t.wp_last)
    first ← lift (get_elem? ps 0)
    done (record_split gate prev first ps t)

  -- No crossing: the car moves, or has stood for more than a second.
  unfoldable pub no_cross : ℕ → Sketch D B kit → Sketch D B kit
  no_cross timer t =
      let w = t.lights.world in
      let t' = on_world D B kit tick t in
      if lt (literal 1) t.gps.speed
      then record t' { reset_timer = some (millis w) }
      else (if ltb 1000 (sub32 (millis w) timer) && not (timer == 0)
          then on_lights D B kit (blink_lap_splt green 500 500 0)
              (record t' { waypoints = reset D t.waypoints; next_state = st_init })
          else t')

  -- `intersection(myTracks[0], myTracks[myTracks.size() - 1], myWaypoints[i])`
  unfoldable pub test_gate : ℕ → Sketch D B kit → Run (Bool × Waypoint Real)
  test_gate i t = do
    p1 ← lift (get_elem? t.tracks 0)
    p2 ← lift (get_elem? t.tracks (length t.tracks - 1))
    gate ← lift (get_elem? t.waypoints i)
    done (intersection D p1 p2 gate)

  unfoldable pub race_on : ℕ → Sketch D B kit → Bool × Waypoint Real → Run (Sketch D B kit)
  race_on timer t (crossed, gate) = if crossed then cross gate t else done (no_cross timer t)

  -- The case ST_RACE of the second `switch`.
  unfoldable pub race_case : Sketch D B kit → Run (Sketch D B kit)
  unfolding timer_or
  race_case t =
      let (timer, w) = timer_or t.reset_timer t.lights.world in
      let t' = record (on_world D B kit (λ _. w) t) { reset_timer = some timer } in
      test_gate t'.wp_next t' >>= race_on timer t'
