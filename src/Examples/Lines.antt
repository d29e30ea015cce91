-- ===== src/Examples/Lines.antt =====
-- Gates and splits that are told to GPS_visualizer, at work.
use speed_feed.Visualizer.Positions.{with_position, push_track-told}
use speed_feed.Visualizer.Picture.{new_view-IsPicture, IsPicture}
use speed_feed.Visualizer.Drawing.{take_text-IsPicture}
use speed_feed.Visualizer.Lines.{Plain}
use speed_feed.Visualizer.Splits.{margin_text, cross-told, PointReads, LongReads}
use speed_feed.Examples.Verdicts.{waypoint_at, verdict_gate, two_kit}
use speed_feed.Examples.Track.{position}
use speed_feed.Examples.Race.{third_next}
use speed_feed.Receiver.{last_nmea}
use speed_feed.Nmea.{init_gps}
use speed_feed.Tracker.Racing.{record_split, cross, split_kit}
use speed_feed.Lights.{Lights}
use speed_feed.Examples.Wire.{rmc}
use speed_feed.Monitor.{codes}
use speed_feed.Common.{
  ◌-◌, ◌≤◌, ℕ, ◌≡◌, refl, true, false, some, none, Option, List, [], ◌∷◌, ◌++◌, arith, length,
  get_elem?,
}
use speed_feed.Waypoint.{Waypoint, new_waypoint, check_split}
use speed_feed.Geometry.{new_point, Point}
use speed_feed.Lights.Silent.{AreColoured}
use speed_feed.Tracker.State.{done, Tracker, Kit}
use speed_feed.Tracker.Setting.{add_waypoint}
use speed_feed.Tracker.Loop.{push_track, heard}
use speed_feed.TwoLeds.{two_leds_kit}
use speed_feed.Visualizer.{
  num_points, draw_track, with_number, on_track, by_name, split_fields, serial_event, lines_of,
  take_lines, Shown, new_view, take_text,
}
use speed_feed.Visualizer.Gates.{Reads}
use speed_feed.Visualizer.Telling.{Tells}
use speed_feed.Visualizer.Setting.{add_waypoint-unseen}
use speed_feed.Examples.Sketch.{blank_gates, result, lights}
use speed_feed.Examples.Chip.{Chip, chip_bus}
use speed_feed.Examples.Numbers.{Whole, whole_numbers, whole, Nibble, nibble, nibbles}
use speed_feed.Examples.Reload.{nibble_gate, zero_nibble, two_set}
use speed_feed.Examples.Pictures.{java}

abbrev pub nibble_memory : ℕ → Waypoint Nibble
nibble_memory i = nibble_gate false

-- service mode, with no gate set yet
abbrev none_set : Tracker Nibble Chip
none_set = record two_set { lights = lights; waypoints = [] }

abbrev pub here : Point Nibble
here = record {
  x = nibble true true false false;
  y = nibble true false true false;
  v = zero_nibble;
  t = 100;
}

abbrev pub there : Point Nibble
there = record {
  x = nibble false true true false;
  y = nibble false false true true;
  v = zero_nibble;
  t = 300;
}

abbrev pub two_nibble_kit : Kit Nibble
two_nibble_kit = two_leds_kit nibbles nibble_memory zero_nibble

pub lights-AreColoured : AreColoured lights
lights-AreColoured = ground arith

abbrev tail : List ℕ → List ℕ
tail [] = []
tail (c ∷ cs) = cs

abbrev pub one_line : List ℕ
one_line = tail rmc

-- the gate is set, and the sentence that has come is echoed
abbrev unseen_lights : Lights
unseen_lights =
    (heard nibbles chip_bus (split_kit nibble_memory) (init_gps nibbles)
      (add_waypoint nibbles chip_bus (split_kit nibble_memory) here there none_set)).lights

none_set-sentence :
    (last_nmea
      (add_waypoint nibbles chip_bus (split_kit nibble_memory) here there none_set).receiver).0
    ≡ b'$' ∷ one_line
unfolding last_nmea add_waypoint new_waypoint
none_set-sentence = refl

add_waypoint-unseen_example :
    Tells java none_set.lights.world unseen_lights.world (new_view java) (new_view java)
unfolding new_waypoint
add_waypoint-unseen_example =
    add_waypoint-unseen nibbles chip_bus nibble_memory java here there one_line (init_gps nibbles)
      none_set (new_view java) refl lights-AreColoured none_set-sentence refl

-- a race with two positions, before a crossing of the third gate
abbrev crossing : Tracker Whole Chip
crossing = record third_next { tracks = position 10 20 3000 ∷ position 30 40 4000 ∷ [] }

abbrev crossed : Tracker Whole Chip
crossed = result (cross whole_numbers chip_bus two_kit verdict_gate crossing)

abbrev crossed_gate : Waypoint Whole
crossed_gate = waypoint_at (get_elem? crossed.waypoints 2)

crossed-done :
    (cross whole_numbers chip_bus two_kit verdict_gate crossing ≡ done crossed)
    × (get_elem? crossed.waypoints 2 ≡ some crossed_gate)
unfolding cross record_split check_split
crossed-done = (refl, refl)

crossed_gate-LongReads :
    LongReads whole_numbers java crossed_gate.lap_margin 1000
    × LongReads whole_numbers java crossed_gate.lap_best 2000
    × Plain (whole_numbers.show_long crossed_gate.adjustment)
unfolding cross record_split check_split
crossed_gate-LongReads = ground arith

positions-PointReads :
    PointReads whole_numbers java (position 30 40 4000) 30 40
    × PointReads whole_numbers java (position 10 20 3000) 10 20
positions-PointReads = ground arith

cross-told_example :
    Tells java crossing.lights.world crossed.lights.world (new_view java) (record (new_view java) {
      crossline = record { x1 = 130; y1 = 140; x2 = 110; y2 = 120 };
      output_text = (new_view java).output_text ++ margin_text whole_numbers java 1000 2000;
    })
cross-told_example =
    cross-told whole_numbers chip_bus blank_gates (whole 0) java verdict_gate crossed_gate
      (position 10 20 3000) (position 30 40 4000) 1000 2000
      (record { x1 = 30; y1 = 40; x2 = 10; y2 = 20 }) crossing crossed (new_view java)
      crossed-done.0 (omega arith) lights-AreColoured crossed-done.1 refl refl
      crossed_gate-LongReads.2 crossed_gate-LongReads.0 crossed_gate-LongReads.1
      positions-PointReads.0 positions-PointReads.1

-- a line with an error, and two positions
abbrev track_text : List ℕ
track_text = codes "track,1,x\r\ntrack,1,2\r\ntrack,3,4\r\n"

abbrev shown_or : Option (Shown java) → Shown java
shown_or none = new_view java
shown_or (some v) = v

abbrev tracked : Shown java
tracked = shown_or (take_text java track_text (new_view java))

tracked-some : take_text java track_text (new_view java) ≡ some tracked
unfolding take_text take_lines lines_of serial_event split_fields by_name on_track with_number
    new_view
tracked-some = refl

take_text-IsPicture_example :
    IsPicture java tracked × (length (draw_track java tracked) ≤ num_points - 2)
take_text-IsPicture_example =
    take_text-IsPicture java track_text (new_view java) tracked tracked-some
      (new_view-IsPicture java) refl

-- a fourth position comes to three
abbrev moving : Tracker Whole Chip
moving = record third_next {
  tracks = position 10 20 3000 ∷ position 30 40 4000 ∷ position 50 60 5000 ∷ [];
  gps = record (init_gps whole_numbers) { longitude = whole 70; latitude = whole 80 };
}

moving-Reads :
    PointReads whole_numbers java (position 30 40 4000) 30 40
    × Reads whole_numbers java (whole 70) 70
    × Reads whole_numbers java (whole 80) 80
moving-Reads = ground arith

moved :
    get_elem? (push_track whole_numbers chip_bus two_kit moving).tracks 0
    ≡ some (position 30 40 4000)
unfolding push_track new_point
moved = refl

push_track-told_example :
    let u = push_track whole_numbers chip_bus two_kit moving in
    Tells java moving.lights.world u.lights.world
      (new_view java)
      (record (with_position whole_numbers java 70 80 (new_view java)) {
        testline = record { x1 = 130; y1 = 140; x2 = 170; y2 = 180 };
      })
push_track-told_example =
    push_track-told whole_numbers chip_bus blank_gates (whole 0) java (position 30 40 4000)
      (record { x1 = 30; y1 = 40; x2 = 70; y2 = 80 }) moving (new_view java) moved moving-Reads.0
      moving-Reads.1 moving-Reads.2 (new_view-IsPicture java)
